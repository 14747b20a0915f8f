-- ===== src/Connection/Lifecycle.antt =====
-- The order in which a session goes through the states of connection_state.hpp.
use cpp_esphome_api.Base.{
  ℕ, ◌≤◌, ◌<◌, ◌≡◌, inl, inr, Bool-cases, true, false, none, List, [], ◌∷◌, arith,
}
use cpp_esphome_api.Frame.{ready, FrameHelper}
use cpp_esphome_api.Connection.State.{
  ConnectionState, disconnected, connecting, hello_sent, closed, failed, rank, ◌is◌, is_over,
  ConnectionOptions, Messages, read_started, Connection,
}
use cpp_esphome_api.Connection.Actions.{emit, send_hello}
use cpp_esphome_api.Connection.Steps.{
  after, Input, start_called, transport_connected, bytes_read, read_failed, timer_fired,
  closing_written, disconnect_called, send_called, handler_set, start, on_ready, is_error, on_bytes,
  step, run,
}
use cpp_esphome_api.Connection.Rules.{is_sound, on_bytes-R}
use cpp_esphome_api.Connection.Moves.{
  depth, state-set_state, state-finish_connect, Moves, Moves-Rules, send-R,
}
use cpp_esphome_api.Connection.Entries.{
  on_connected_transport-R, on_read_error-R, fire-R, on_closing_written-R, disconnect-R,
}

-- What the owner and the transport promise: `start` is called on a fresh connection, and the
-- transport reports a successful connect to a connection that waits for it.
unfoldable pub IsTimely : {S : Type 0} → Input → Connection S → Type 0
IsTimely start_called c = c.state ≡ disconnected
IsTimely (transport_connected ec) c = is_error ec ≡ false → c.state ≡ connecting
IsTimely _ c = Unit

-- Where a session can come to: it stays, goes on from a state before `closed` to a later one, or, having
-- failed, is closed.
pub data Leads : ConnectionState → ConnectionState → Type 0 where
  stays : (s : ConnectionState) → Leads s s
  goes_on : (s t : ConnectionState) → rank s < rank closed → rank s < rank t → Leads s t
  failed_closes : Leads failed closed

later :
    (s t : ConnectionState)
    → (s is t) ≡ false
    → is_over s ≡ false
    → depth s ≤ depth t
    → (rank s < rank closed) × (rank s < rank t)
unfolding rank depth
later s t e on le = (ground (arith, e, on, le), ground (arith, e, on, le))

over :
    (s t : ConnectionState)
    → (s is t) ≡ false
    → is_over s ≡ true
    → depth s ≤ depth t
    → (s ≡ failed) × (t ≡ closed)
unfolding depth
over s t e off le = (ground (arith, e, off, le), ground (arith, e, off, le))

depth-Leads : (s t : ConnectionState) → depth s ≤ depth t → Leads s t
depth-Leads s t le = elim (Bool-cases (s is t)) [
  | inl same ↦ rw (is_sound s t same) (stays t)
  | inr other ↦ elim (Bool-cases (is_over s)) [
    | inl off ↦ let (e, f) = over s t other off le in rw (e, f) failed_closes
    | inr on ↦ let (low, less) = later s t other on le in goes_on s t low less
  ]
]

module _ (F : FrameHelper) (G : Messages) (o : ConnectionOptions) where
  -- Every input of a run comes in time.
  unfoldable pub IsTimelyRun : List Input → Connection F.State → Type 0
  IsTimelyRun [] c = Unit
  IsTimelyRun (i ∷ inputs) c = IsTimely i c × IsTimelyRun inputs (step F G o i c)

  abbrev Advances : Connection F.State → Connection F.State → Type 0
  Advances c d = depth c.state ≤ depth d.state

  Advances-Moves : Moves F Advances
  Advances-Moves = record {
    same = λ c. omega arith;
    then_ = λ p q. omega arith;
    logs = λ e c q. omega arith;
    encodes = λ t payload c. omega arith;
    ticks = λ a b p n w ts c. omega arith;
    greets = λ h c. omega arith;
    notes = λ e c. omega arith;
    installs = λ h c. omega arith;
    finishes = λ ec c. rw (state-finish_connect ec c) (omega arith);
    moves = λ s c le. rw (state-set_state s c) le;
  }

  module _ (plain : F.needs_handshake ≡ false) where
    -- A codec without a handshake does not call back.
    pub never_ready : (s : F.State) → ¬ ((F.round s).1 ≡ ready)
    never_ready s e = let (st, k) = F.handshake_only plain s in ground arith

    depth-on_bytes :
        (bs : List ℕ) (c : Connection F.State) → Advances c (after (on_bytes F G o bs c))
    depth-on_bytes bs c =
        on_bytes-R F G o (Moves-Rules F G Advances-Moves o (λ d s e. elim (never_ready s e) [ ]))
          (λ d e. omega arith) (λ d. omega arith) bs c

    depth-start : (c : Connection F.State) → c.state ≡ disconnected → Advances c (start F G o c)
    unfolding start
    depth-start c e =
        rw (state-set_state connecting (record c { connect_handler = true; last_error = none }))
          (rw e (unfold depth in omega arith))

    pub depth-on_ready :
        (c : Connection F.State) → c.state ≡ connecting → Advances c (on_ready F G o c)
    unfolding on_ready
    depth-on_ready c e =
        rw (state-set_state hello_sent (send_hello F G o c)) (rw e (unfold depth in omega arith))

    pub depth-step :
        (i : Input) (c : Connection F.State) → IsTimely i c → Advances c (step F G o i c)
    unfolding step IsTimely
    depth-step start_called c h = depth-start c h
    depth-step (transport_connected ec) c h =
        on_connected_transport-R F G o Advances-Moves ec c (λ d. omega arith)
          (λ e n. depth-on_ready (emit read_started c) (h e))
    depth-step (bytes_read bs) c h = depth-on_bytes bs c
    depth-step (read_failed ec) c h = on_read_error-R F G o Advances-Moves ec c
    depth-step (timer_fired id) c h = fire-R F G o Advances-Moves id c.timers c
    depth-step closing_written c h =
        on_closing_written-R F G o Advances-Moves (λ n d. omega arith) c
    depth-step disconnect_called c h = disconnect-R F G o Advances-Moves (λ n d. omega arith) c
    depth-step (handler_set x) c h = omega arith
    depth-step (send_called msg) c h = send-R F G Advances-Moves msg c

    depth-run :
        (inputs : List Input) (c : Connection F.State)
        → IsTimelyRun inputs c
        → depth c.state ≤ depth (run F G o inputs c).state
    unfolding run IsTimelyRun
    depth-run [] c h = omega arith
    depth-run (i ∷ inputs) c (now, later) =
        let here = depth-step i c now in
        let there = depth-run inputs (step F G o i c) later in omega arith

    -- Over a codec without a handshake, a session whose owner calls start once and whose transport
    -- reports success only while connecting stays in its state, goes on from a state before Closed to a
    -- later one of the enum, or, having failed, is closed: the one way back in the enum's order.
    pub run-Leads :
        (inputs : List Input) (c : Connection F.State)
        → IsTimelyRun inputs c
        → Leads c.state (run F G o inputs c).state
    run-Leads inputs c h = depth-Leads c.state (run F G o inputs c).state (depth-run inputs c h)
