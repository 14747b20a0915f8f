-- ===== src/Connection/Keepalive/Leaving.antt =====
-- A queued disconnect is written after the session has left the connected state.
use cpp_esphome_api.Base.{
  ◌-◌, ◌≤◌, ◌≡◌, refl, ◌∙◌, ◌⊎◌, inl, inr, true, false, ◌||◌, none, arith, ◌==◌, Bool-cases,
}
use cpp_esphome_api.Frame.{FrameHelper}
use cpp_esphome_api.Connection.State.{
  ConnectionState, connecting, hello_sent, connected, closing, closed, ◌is◌, ConnectionOptions,
  ErrorCode, ProtoMessage, Messages, read_started, transport_closed, Connection,
}
use cpp_esphome_api.Connection.Actions.{
  emit, set_state, stop_keepalive, finish_connect, send, send_raw, send_hello,
}
use cpp_esphome_api.Connection.Steps.{
  Input, start_called, transport_connected, bytes_read, read_failed, timer_fired, closing_written,
  disconnect_called, send_called, handler_set, start, on_ready, disconnect, on_closing_written,
  step,
}
use cpp_esphome_api.Connection.Rules.{on_bytes-R}
use cpp_esphome_api.Connection.Moves.{
  depth, depth_closed, state-set_state, state-finish_connect, Moves, Moves-Rules, send-R,
}
use cpp_esphome_api.Connection.Entries.{on_connected_transport-R, on_read_error-R, fire-R}
use cpp_esphome_api.Connection.Lifecycle.{IsTimely, never_ready, depth-step, depth-on_ready}
use cpp_esphome_api.Connection.Keepalive.{either}

unfoldable pub IsLeaving : {S : Type 0} → Connection S → Type 0
IsLeaving c = (c.closing_writes ≡ 0) ⊎ (depth closing ≤ depth c.state)

module _ (F : FrameHelper) (G : Messages) (o : ConnectionOptions) where
  abbrev pub Leaves : Connection F.State → Connection F.State → Type 0
  Leaves c d = IsLeaving c → IsLeaving d

  IsLeaving-rises :
      (c d : Connection F.State)
      → d.closing_writes ≡ c.closing_writes
      → depth c.state ≤ depth d.state
      → Leaves c d
  unfolding IsLeaving
  IsLeaving-rises c d e le (inl z) = inl (e ∙ z)
  IsLeaving-rises c d e le (inr k) = inr (omega arith)

  writes-set_state :
      (s : ConnectionState) (c : Connection F.State)
      → (set_state s c).closing_writes ≡ c.closing_writes
  unfolding set_state
  writes-set_state s c = ground arith

  writes-finish_connect :
      (ec : ErrorCode) (c : Connection F.State)
      → (finish_connect ec c).closing_writes ≡ c.closing_writes
  unfolding finish_connect
  writes-finish_connect ec c = ground arith

  Leaves-Moves : Moves F Leaves
  Leaves-Moves = record {
    same = λ c h. h;
    then_ = λ p q h. q (p h);
    logs = λ e c q h. IsLeaving-rises c _ refl (omega arith) h;
    encodes = λ t payload c h.
        IsLeaving-rises c (record c { frames = (F.encode t payload c.frames).0 }) refl (omega arith)
          h;
    ticks = λ a b p n w ts c h. (unfold IsLeaving in h);
    greets = λ x c h. (unfold IsLeaving in h);
    notes = λ x c h. (unfold IsLeaving in h);
    installs = λ x c h. (unfold IsLeaving in h);
    finishes = λ ec c h.
        IsLeaving-rises c (finish_connect ec c) (writes-finish_connect ec c)
          (rw (state-finish_connect ec c) (omega arith)) h;
    moves = λ s c le h.
        IsLeaving-rises c (set_state s c) (writes-set_state s c) (rw (state-set_state s c) le) h;
  }

  disconnect-IsLeaving : (c : Connection F.State) → Leaves c (disconnect F G o c)
  unfolding disconnect
  disconnect-IsLeaving c h = elim (Bool-cases ((c.state is connected) || (c.state is hello_sent))) [
    | inl e ↦ rw e (
        unfold IsLeaving send send_raw in
        inr (rw (state-set_state closing (stop_keepalive c)) (omega arith)))
    | inr e ↦ rw e h
  ]

  on_closing_written-IsLeaving : (c : Connection F.State) → Leaves c (on_closing_written F G o c)
  unfolding on_closing_written
  on_closing_written-IsLeaving c h =
      let d = emit transport_closed (record c { closing_writes = c.closing_writes - 1 }) in
      either IsLeaving (c.closing_writes == 0) h
        (unfold IsLeaving in inr (rw (state-set_state closed d) (depth_closed closing)))

  writes-start : (c : Connection F.State) → (start F G o c).closing_writes ≡ c.closing_writes
  unfolding start
  writes-start c =
      writes-set_state connecting (record c { connect_handler = true; last_error = none })

  writes-send :
      (msg : ProtoMessage) (c : Connection F.State)
      → (send F G msg c).closing_writes ≡ c.closing_writes
  unfolding send send_raw
  writes-send msg c = refl

  -- What every message sent keeps, the greeting keeps.
  pub kept-send_hello :
      (P : Connection F.State → Type 0)
      → ((msg : ProtoMessage) (d : Connection F.State) → P d → P (send F G msg d))
      → (c : Connection F.State) → P c
      → P (send_hello F G o c)
  unfolding send_hello
  kept-send_hello P h c k = either P o.login (h _ _ (h _ c k)) (h _ c k)

  writes-on_ready : (c : Connection F.State) → (on_ready F G o c).closing_writes ≡ c.closing_writes
  unfolding on_ready
  writes-on_ready c =
      writes-set_state hello_sent (send_hello F G o c)
      ∙ kept-send_hello (λ d. d.closing_writes ≡ c.closing_writes)
          (λ msg d e. writes-send msg d ∙ e) c refl

  module _ (plain : F.needs_handshake ≡ false) where
    pub IsLeaving-step :
        (i : Input) (c : Connection F.State) → IsTimely i c → Leaves c (step F G o i c)
    unfolding step IsTimely
    IsLeaving-step start_called c t =
        IsLeaving-rises c (start F G o c) (writes-start c) (depth-step F G o plain start_called c t)
    IsLeaving-step (transport_connected ec) c t =
        on_connected_transport-R F G o Leaves-Moves ec c (λ d h. unfold IsLeaving in h)
          (λ e n.
            let d = emit read_started c in
            IsLeaving-rises d (on_ready F G o d) (writes-on_ready d)
              (depth-on_ready F G o plain d (t e)))
    IsLeaving-step (bytes_read bs) c t =
        on_bytes-R F G o
          (Moves-Rules F G Leaves-Moves o (λ d s e. elim (never_ready F G o plain s e) [ ]))
          (λ d e h. unfold IsLeaving in h) (λ d h. unfold IsLeaving in h) bs c
    IsLeaving-step (read_failed ec) c t = on_read_error-R F G o Leaves-Moves ec c
    IsLeaving-step (timer_fired id) c t = fire-R F G o Leaves-Moves id c.timers c
    IsLeaving-step closing_written c t = on_closing_written-IsLeaving c
    IsLeaving-step disconnect_called c t = disconnect-IsLeaving c
    IsLeaving-step (handler_set x) c t = λ h. unfold IsLeaving in h
    IsLeaving-step (send_called msg) c t = send-R F G Leaves-Moves msg c
