-- ===== src/Connection/Keepalive/Run.antt =====
-- The invariant of `Keepalive`, over every step of a session.
use cpp_esphome_api.Base.{
  ℕ, ◌+◌, ◌-◌, ◌≡◌, refl, ◌∙◌, inl, inr, true, false, none, List, [], ◌∷◌, arith, ◌==◌, tests,
  Bool-cases,
}
use cpp_esphome_api.Frame.{FrameHelper}
use cpp_esphome_api.Connection.State.{
  connecting, hello_sent, connected, closing, closed, ◌is◌, ConnectionOptions, ErrorCode, timed_out,
  ProtoMessage, disconnect_request, ping_request, Messages, Timer, connect_deadline, ping_due,
  pong_due, read_started, transport_closed, Connection, invalid_timer, new,
}
use cpp_esphome_api.Connection.Moves.{depth}
use cpp_esphome_api.Connection.Actions.{
  emit, without, set_state, stop_keepalive, send, send_raw, send_hello, send_ping, await_pong,
  schedule_after,
}
use cpp_esphome_api.Connection.Steps.{
  Input, start_called, transport_connected, bytes_read, read_failed, timer_fired, closing_written,
  disconnect_called, send_called, handler_set, start, on_ready, on_connected_transport, is_error,
  on_read_error, disconnect, on_closing_written, run_timer, fire, handlers_with, step,
}
use cpp_esphome_api.Connection.Rules.{is_sound, on_bytes-R}
use cpp_esphome_api.Connection.Lifecycle.{IsTimely, never_ready}
use cpp_esphome_api.Connection.Keepalive.{
  IsIdle, IsSound, either, IsIdle-kept, stop_keepalive-IsIdle, fail-IsSound, IsSound-connected,
  IsSound-kept, IsSound-passive, send-IsSound, Preserves, Preserves-Rules,
}
use cpp_esphome_api.Connection.Keepalive.Leaving.{IsLeaving, kept-send_hello}

module _ (F : FrameHelper) (G : Messages) (o : ConnectionOptions) where
  IsIdle-send : (msg : ProtoMessage) (c : Connection F.State) → IsIdle c → IsIdle (send F G msg c)
  unfolding send send_raw
  IsIdle-send msg c h = IsIdle-kept c (send F G msg c) h refl refl refl

  pub on_ready-IsSound : (c : Connection F.State) → IsIdle c → IsSound (on_ready F G o c)
  unfolding on_ready
  on_ready-IsSound c h =
      IsSound-passive hello_sent (send_hello F G o c) refl
        (kept-send_hello F G o IsIdle IsIdle-send c h)

  start-IsSound : (c : Connection F.State) → IsIdle c → IsSound (start F G o c)
  unfolding start
  start-IsSound c h =
      let before = record c { connect_handler = true; last_error = none } in
      let d = set_state connecting before in
      IsSound-kept d (start F G o c)
        (IsSound-passive connecting before refl (IsIdle-kept c before h refl refl refl)) refl refl
        refl refl refl

  disconnect-IsSound : (c : Connection F.State) → Preserves c (disconnect F G o c)
  unfolding disconnect
  disconnect-IsSound c h =
      let d = set_state closing (stop_keepalive c) in
      let e = send F G disconnect_request d in
      let k =
        send-IsSound F G o disconnect_request d
          (IsSound-passive closing (stop_keepalive c) refl (stop_keepalive-IsIdle c)) in
      either IsSound _
        (IsSound-kept e (record e { closing_writes = e.closing_writes + 1 }) k refl refl refl refl
          refl)
        h

  state-send : (msg : ProtoMessage) (c : Connection F.State) → (send F G msg c).state ≡ c.state
  unfolding send send_raw
  state-send msg c = refl

  state-await_pong : (c : Connection F.State) → (await_pong F G o c).state ≡ c.state
  unfolding await_pong
  state-await_pong c = ground arith

  handler-send_ping :
      (c : Connection F.State)
      → (await_pong F G o (send F G ping_request c)).connect_handler ≡ c.connect_handler
  unfolding await_pong send send_raw
  handler-send_ping c = ground arith

  send_ping-IsSound : (c : Connection F.State) → Preserves c (send_ping F G o c)
  unfolding send_ping
  send_ping-IsSound c h = elim (Bool-cases (c.state is connected)) [
    | inl e ↦
        let d = await_pong F G o (send F G ping_request c) in
        let s : d.state ≡ connected =
          state-await_pong (send F G ping_request c)
          ∙ (state-send ping_request c ∙ is_sound c.state connected e) in
        let k : d.connect_handler ≡ false = handler-send_ping c ∙ h.settled (rw e refl) in
        rw e
          (IsSound-connected (record (schedule_after ping_due d) { ping_timer = d.next_timer }) s k)
    | inr e ↦ rw e h
  ]

  run_timer-IsSound : (t : Timer) (c : Connection F.State) → Preserves c (run_timer F G o t c)
  unfolding run_timer
  run_timer-IsSound connect_deadline c h =
      either IsSound (c.state is connected) h (fail-IsSound timed_out _ c h)
  run_timer-IsSound ping_due c h = send_ping-IsSound c h
  run_timer-IsSound pong_due c h =
      let d = record c { pong_timer = invalid_timer } in
      let k : IsSound d = record {
        settled = h.settled;
        idle = λ e. record {
          no_ping = (h.idle e).no_ping;
          no_pong = refl;
          no_wait = (h.idle e).no_wait;
        };
      } in
      either IsSound c.awaiting_pong (fail-IsSound timed_out _ d k) k

  fire-IsSound :
      (id : ℕ) (ts : List (ℕ × Timer)) (c : Connection F.State) → Preserves c (fire F G o id ts c)
  unfolding fire
  fire-IsSound id [] c h = h
  fire-IsSound id ((i, t) ∷ ts) c h =
      let d = record c { timers = without id c.timers } in
      either IsSound (i == id) (run_timer-IsSound t d (IsSound-kept c d h refl refl refl refl refl))
        (fire-IsSound id ts c h)

  -- Only a connection that is leaving, or never was connected, closes when a write completes.
  not_connected :
      (c : Connection F.State)
      → IsLeaving c
      → (c.closing_writes == 0) ≡ false
      → (c.state is connected) ≡ false
  unfolding IsLeaving depth
  not_connected c (inl z) e = grind (arith, tests)
  not_connected c (inr le) e = ground arith

  module _ (plain : F.needs_handshake ≡ false) where
    connected-IsSound :
        (ec : ErrorCode) (c : Connection F.State)
        → (is_error ec ≡ false → c.state ≡ connecting)
        → Preserves c (on_connected_transport F G o ec c)
    unfolding on_connected_transport
    connected-IsSound ec c t h = elim (Bool-cases (is_error ec)) [
      | inl e ↦ rw e (fail-IsSound ec _ c h)
      | inr e ↦
          let d = emit read_started c in
          let quiet = IsIdle-kept c d (h.idle (rw (t e) refl)) refl refl refl in
          rw e (rw plain (on_ready-IsSound d quiet))
    ]

    closing_written-IsSound :
        (c : Connection F.State) → IsLeaving c → Preserves c (on_closing_written F G o c)
    unfolding on_closing_written
    closing_written-IsSound c l h = elim (Bool-cases (c.closing_writes == 0)) [
      | inl e ↦ rw e h
      | inr e ↦
          let d = emit transport_closed (record c { closing_writes = c.closing_writes - 1 }) in
          let quiet = IsIdle-kept c d (h.idle (not_connected c l e)) refl refl refl in
          rw e (IsSound-passive closed d refl quiet)
    ]

    pub IsSound-step :
        (i : Input) (c : Connection F.State)
        → IsTimely i c
        → IsLeaving c
        → Preserves c (step F G o i c)
    unfolding step IsTimely
    IsSound-step start_called c t l h = start-IsSound c (h.idle (rw t refl))
    IsSound-step (transport_connected ec) c t l h = connected-IsSound ec c t h
    IsSound-step (bytes_read bs) c t l h =
        on_bytes-R F G o (Preserves-Rules F G o (λ d s e. elim (never_ready F G o plain s e) [ ]))
          (λ d e k. IsSound-kept e _ k refl refl refl refl refl)
          (λ e k. IsSound-kept e _ k refl refl refl refl refl) bs c h
    IsSound-step (read_failed ec) c t l h =
        unfold on_read_error in either IsSound _ h (fail-IsSound ec _ c h)
    IsSound-step (timer_fired id) c t l h = fire-IsSound id c.timers c h
    IsSound-step closing_written c t l h = closing_written-IsSound c l h
    IsSound-step disconnect_called c t l h = disconnect-IsSound c h
    IsSound-step (handler_set x) c t l h =
        IsSound-kept c (record c { handlers = handlers_with F G o x c.handlers }) h refl refl refl
          refl refl
    IsSound-step (send_called msg) c t l h = send-IsSound F G o msg c h

pub IsLeaving-new : {S : Type 0} (s : S) → IsLeaving (new s)
unfolding IsLeaving new
IsLeaving-new s = inl refl

pub IsSound-new : {S : Type 0} (s : S) → IsSound (new s)
unfolding new
IsSound-new s = record {
  settled = λ k. refl;
  idle = λ k. record { no_ping = refl; no_pong = refl; no_wait = refl };
}
