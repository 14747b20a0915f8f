-- ===== src/Connection/Entries.antt =====
-- The rules of `Moves`, carried to the entry points of the connection.
use cpp_esphome_api.Base.{
  ℕ, ◌-◌, ◌≤◌, ◌≡◌, inl, inr, true, false, ◌||◌, List, [], ◌∷◌, arith, ◌==◌, Bool-cases,
}
use cpp_esphome_api.Errors.{text}
use cpp_esphome_api.Frame.{FrameHelper}
use cpp_esphome_api.Connection.State.{
  ConnectionState, hello_sent, connected, closing, closed, ◌is◌, ConnectionOptions, ErrorCode,
  timed_out, disconnect_request, Messages, Timer, connect_deadline, ping_due, pong_due,
  read_started, written, transport_closed, Connection, invalid_timer,
}
use cpp_esphome_api.Connection.Actions.{emit, without, set_state, stop_keepalive}
use cpp_esphome_api.Connection.Steps.{
  on_ready, send_initial, on_connected_transport, is_error, on_read_error, disconnect,
  on_closing_written, run_timer, fire,
}
use cpp_esphome_api.Connection.Moves.{
  depth, Moves, branch, fail-R, send-R, send_ping-R, stop_keepalive-R, depth_closed,
  state-stop_keepalive,
}

module _ (F : FrameHelper) (G : Messages) (o : ConnectionOptions)
    {R : Connection F.State → Connection F.State → Type 0} (m : Moves F R) where
  send_initial-R :
      ((c : Connection F.State) → R c (record c { frames = (F.connect_bytes c.frames).0 }))
      → (c : Connection F.State) → R c (send_initial F G o c)
  unfolding send_initial
  send_initial-R h c = sent (F.connect_bytes c.frames).1
    where
      sent :
          (initial : List ℕ)
          → R c (elim initial [
            | [] ↦ record c { frames = (F.connect_bytes c.frames).0 }
            | b ∷ bs ↦ record c {
              frames = (F.connect_bytes c.frames).0;
              log = written (b ∷ bs) ∷ c.log;
            }
          ])
      sent [] = h c
      sent (b ∷ bs) =
          m.then_ (h c)
            (m.logs (written (b ∷ bs)) (record c { frames = (F.connect_bytes c.frames).0 }) tt)

  pub on_connected_transport-R :
      (ec : ErrorCode) (c : Connection F.State)
      → ((c : Connection F.State) → R c (record c { frames = (F.connect_bytes c.frames).0 }))
      → (is_error ec ≡ false
          → F.needs_handshake ≡ false
          → R (emit read_started c) (on_ready F G o (emit read_started c)))
      → R c (on_connected_transport F G o ec c)
  unfolding on_connected_transport
  on_connected_transport-R ec c h k = elim (Bool-cases (is_error ec)) [
    | inl e ↦ rw e (fail-R F m ec (text "tcp connect failed" ∷ []) c)
    | inr e ↦ rw e (
        m.then_ (m.logs read_started c tt) (elim (Bool-cases F.needs_handshake) [
          | inl n ↦ rw n (send_initial-R h (emit read_started c))
          | inr n ↦ rw n (k e n)
        ]))
  ]

  pub on_read_error-R : (ec : ErrorCode) (c : Connection F.State) → R c (on_read_error F G o ec c)
  unfolding on_read_error
  on_read_error-R ec c =
      branch F m ((c.state is closing) || (c.state is closed)) (m.same c) (fail-R F m ec _ c)

  opened :
      (s : ConnectionState)
      → ((s is connected) || (s is hello_sent)) ≡ true
      → depth s ≤ depth closing
  unfolding depth
  opened s e = ground arith

  pub disconnect-R :
      ((n : ℕ) (d : Connection F.State) → R d (record d { closing_writes = n }))
      → (c : Connection F.State) → R c (disconnect F G o c)
  unfolding disconnect
  disconnect-R writes c = elim (Bool-cases ((c.state is connected) || (c.state is hello_sent))) [
    | inl e ↦
        let k = stop_keepalive c in
        let le : depth k.state ≤ depth closing = rw (state-stop_keepalive c) (opened c.state e) in
        rw e (
          m.then_ (stop_keepalive-R F m c) (
            m.then_ (m.moves closing k le)
              (m.then_ (send-R F G m disconnect_request (set_state closing k)) (writes _ _))))
    | inr e ↦ rw e (m.same c)
  ]

  pub on_closing_written-R :
      ((n : ℕ) (d : Connection F.State) → R d (record d { closing_writes = n }))
      → (c : Connection F.State) → R c (on_closing_written F G o c)
  unfolding on_closing_written
  on_closing_written-R writes c =
      let n = c.closing_writes - 1 in
      let d = emit transport_closed (record c { closing_writes = n }) in
      branch F m (c.closing_writes == 0) (m.same c) (
        m.then_ (writes n c) (
          m.then_ (m.logs transport_closed (record c { closing_writes = n }) tt)
            (m.moves closed d (depth_closed d.state))))

  run_timer-R : (t : Timer) (c : Connection F.State) → R c (run_timer F G o t c)
  unfolding run_timer
  run_timer-R connect_deadline c =
      branch F m (c.state is connected) (m.same c) (fail-R F m timed_out _ c)
  run_timer-R ping_due c = send_ping-R F G m o c
  run_timer-R pong_due c =
      let d = record c { pong_timer = invalid_timer } in
      m.then_ (m.ticks _ _ _ _ _ _ c)
        (branch F m d.awaiting_pong (fail-R F m timed_out _ d) (m.same d))

  pub fire-R : (id : ℕ) (ts : List (ℕ × Timer)) (c : Connection F.State) → R c (fire F G o id ts c)
  unfolding fire
  fire-R id [] c = m.same c
  fire-R id ((i, t) ∷ ts) c =
      branch F m (i == id)
        (m.then_ (m.ticks _ _ _ _ _ _ c)
          (run_timer-R t (record c { timers = without id c.timers })))
        (fire-R id ts c)
