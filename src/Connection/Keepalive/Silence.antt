-- ===== src/Connection/Keepalive/Silence.antt =====
-- No timer of the keepalive is pending outside the connected state, over whole sessions.
use cpp_esphome_api.Base.{ℕ, ◌≡◌, refl, inr, true, false, List, [], ◌∷◌, arith, ◌||◌}
use cpp_esphome_api.Frame.{FrameHelper}
use cpp_esphome_api.Connection.State.{
  hello_sent, connected, failed, ◌is◌, ConnectionOptions, ErrorCode, Messages, read_started,
  Connection, invalid_timer, new,
}
use cpp_esphome_api.Connection.Actions.{emit}
use cpp_esphome_api.Connection.Steps.{
  Input, start_called, transport_connected, bytes_read, read_failed, timer_fired, closing_written,
  disconnect_called, send_called, handler_set, on_connected_transport, is_error, on_bytes, after,
  on_read_error, step, run,
}
use cpp_esphome_api.Connection.Rules.{Rules, on_bytes-R}
use cpp_esphome_api.Connection.Lifecycle.{IsTimelyRun, never_ready}
use cpp_esphome_api.Connection.Keepalive.{IsIdle, IsSound, either, IsSound-kept, Preserves-Rules}
use cpp_esphome_api.Connection.Keepalive.Leaving.{IsLeaving, IsLeaving-step}
use cpp_esphome_api.Connection.Keepalive.Run.{IsSound-step, IsSound-new, IsLeaving-new}
use cpp_esphome_api.Connection.Keepalive.Timers.{
  IsQuiet, IsTimed, Timed-IsQuiet, cancel_pong-IsTimed, fail-IsTimed, close-IsTimed,
}
use cpp_esphome_api.Connection.Keepalive.Pending.{
  accept_hello-IsTimed, send-IsTimed, obey-IsTimed, on_ready-IsTimed, start-IsTimed,
  disconnect-IsTimed, written-IsTimed, fire-IsTimed,
}

-- What a session that is connected or over owes, and one that is not connected.
pub record IsSilent {S : Type 0} (c : Connection S) : Type 0 where
  pub settled : ((c.state is connected) || (c.state is failed)) ≡ true → c.connect_handler ≡ false
  pub idle : (c.state is connected) ≡ false → IsIdle c
  pub quiet : (c.state is connected) ≡ false → IsQuiet c.timers

module _ (F : FrameHelper) (G : Messages) (o : ConnectionOptions) where
  -- Both invariants, side by side.
  abbrev Keeps : Connection F.State → Connection F.State → Type 0
  Keeps c d = IsSound c × IsTimed c → IsSound d × IsTimed d

  idle_ping :
      (c : Connection F.State) → c.state ≡ hello_sent → IsSound c → c.ping_timer ≡ invalid_timer
  idle_ping c e h = (h.idle (rw e refl)).no_ping

  module _ (plain : F.needs_handshake ≡ false) where
    Keeps-Rules : Rules F G o Keeps
    Keeps-Rules =
        let r = Preserves-Rules F G o (λ d s e. elim (never_ready F G o plain s e) [ ]) in
        record {
          same = λ c h. h;
          then_ = λ p q h. q (p h);
          logs = λ e c q (h, t). (r.logs e c q h, t);
          sends = λ msg c (h, t). (r.sends msg c h, send-IsTimed F G o msg c t);
          greets = λ x c (h, t). (r.greets x c h, t);
          notes = λ x c (h, t). (r.notes x c h, t);
          fails = λ ec w c (h, t). (r.fails ec w c h, fail-IsTimed ec w c t);
          accepts =
              λ c e (h, t). (r.accepts c e h, accept_hello-IsTimed F G o c (idle_ping c e h) t);
          closes = λ c (h, t). (r.closes c h, close-IsTimed c t);
          obeys = λ c (h, t). (r.obeys c h, obey-IsTimed F G o c t);
          pongs = λ c (h, t).
              (r.pongs c h, cancel_pong-IsTimed (record c { awaiting_pong = false }) t.held);
          readies = λ d s e. elim (never_ready F G o plain s e) [ ];
        }

    read-IsTimed :
        (bs : List ℕ) (c : Connection F.State)
        → IsSound c
        → IsTimed c
        → IsTimed (after (on_bytes F G o bs c))
    read-IsTimed bs c h t =
        (on_bytes-R F G o Keeps-Rules
          (λ d e (k, u). (IsSound-kept e _ k refl refl refl refl refl, u))
          (λ d (k, u). (IsSound-kept d _ k refl refl refl refl refl, u)) bs c (h, t)).1

    connected-IsTimed :
        (ec : ErrorCode) (c : Connection F.State)
        → IsTimed c
        → IsTimed (on_connected_transport F G o ec c)
    unfolding on_connected_transport
    connected-IsTimed ec c t =
        let d = emit read_started c in
        rw plain (either IsTimed (is_error ec) (fail-IsTimed ec _ c t) (on_ready-IsTimed F G o d t))

    IsTimed-step :
        (i : Input) (c : Connection F.State) → IsSound c → IsTimed c → IsTimed (step F G o i c)
    unfolding step
    IsTimed-step start_called c h t = start-IsTimed F G o c t
    IsTimed-step (transport_connected ec) c h t = connected-IsTimed ec c t
    IsTimed-step (bytes_read bs) c h t = read-IsTimed bs c h t
    IsTimed-step (read_failed ec) c h t =
        unfold on_read_error in either IsTimed _ t (fail-IsTimed ec _ c t)
    IsTimed-step (timer_fired id) c h t = fire-IsTimed F G o id c.timers c t.held.owned t
    IsTimed-step closing_written c h t = written-IsTimed F G o c t
    IsTimed-step disconnect_called c h t = disconnect-IsTimed F G o c t
    IsTimed-step (handler_set x) c h t = t
    IsTimed-step (send_called msg) c h t = send-IsTimed F G o msg c t

    run-Keeps :
        (inputs : List Input) (c : Connection F.State)
        → IsTimelyRun F G o inputs c
        → IsLeaving c
        → Keeps c (run F G o inputs c)
    unfolding run IsTimelyRun
    run-Keeps [] c now l h = h
    run-Keeps (i ∷ inputs) c (now, later) l (h, t) =
        run-Keeps inputs (step F G o i c) later (IsLeaving-step F G o plain i c now l)
          (IsSound-step F G o plain i c now l h, IsTimed-step i c h t)

    -- Over a codec without a handshake, in every state that a session reaches from a new connection
    -- by inputs that come in time: once it is connected or has failed no connect is pending, and unless
    -- it is connected no timer of the keepalive is pending at the executor, the connection holds no id of
    -- one, and no pong is awaited.
    pub run-IsSilent :
        (inputs : List Input) (s : F.State)
        → IsTimelyRun F G o inputs (new s)
        → IsSilent (run F G o inputs (new s))
    run-IsSilent inputs s now =
        let u : IsTimed (new s) =
          unfold new in
          (record { held = record { owned = tt; next = omega arith }; waits = inr refl }) in
        let (h, t) = run-Keeps inputs (new s) now (IsLeaving-new s) (IsSound-new s, u) in
        record {
          settled = h.settled;
          idle = λ e. h.idle e;
          quiet =
              λ e. Timed-IsQuiet (run F G o inputs (new s)) t (h.idle e).no_ping (h.idle e).no_pong;
        }
