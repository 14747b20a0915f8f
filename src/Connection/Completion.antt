-- ===== src/Connection/Completion.antt =====
-- The connect handler that `start` stores and `finish_connect` spends.
use cpp_esphome_api.Base.{
  ℕ, suc, ◌+◌, ◌≤◌, ◌≡◌, refl, ◌∙◌, true, none, List, [], ◌∷◌, arith, if◌then◌else◌,
}
use cpp_esphome_api.Frame.{FrameHelper}
use cpp_esphome_api.Connection.State.{
  ConnectionState, connecting, hello_sent, ConnectionOptions, ErrorCode, Messages, Event,
  state_changed, connect_done, error_reported, raw_frame, dispatched, dispatched_any,
  connect_requested, read_started, written, transport_closed, Connection, new,
}
use cpp_esphome_api.Connection.Actions.{emit, set_state, finish_connect}
use cpp_esphome_api.Connection.Steps.{
  after, Input, start_called, transport_connected, bytes_read, read_failed, timer_fired,
  closing_written, disconnect_called, send_called, handler_set, start, on_ready,
  on_connected_transport, on_bytes, step, run,
}
use cpp_esphome_api.Connection.Rules.{IsQuiet, on_bytes-R}
use cpp_esphome_api.Connection.Moves.{Moves, Moves-Rules, on_ready-R, send-R}
use cpp_esphome_api.Connection.Entries.{
  on_connected_transport-R, on_read_error-R, fire-R, on_closing_written-R, disconnect-R,
}

-- Calls of the connect handler in a log.
unfoldable pub completions : List Event → ℕ
completions [] = 0
completions (connect_done ec ∷ es) = suc (completions es)
completions (_ ∷ es) = completions es

-- The calls made so far and the one still owed.
unfoldable pub dones : {S : Type 0} → Connection S → ℕ
dones c = completions c.log + (if c.connect_handler then 1 else 0)

pub starts : List Input → ℕ
starts [] = 0
starts (start_called ∷ inputs) = suc (starts inputs)
starts (_ ∷ inputs) = starts inputs

starts_cons :
    (i : Input) (inputs : List Input) → starts (i ∷ inputs) ≡ starts (i ∷ []) + starts inputs
unfolding starts
starts_cons i inputs = ground arith

module _ {S : Type 0} where
  dones-emit : (e : Event) (c : Connection S) → IsQuiet e → dones (emit e c) ≡ dones c
  unfolding dones completions
  dones-emit (state_changed x) c q = refl
  dones-emit (connect_done x) c q = elim q [ ]
  dones-emit (error_reported x y) c q = refl
  dones-emit (raw_frame x y) c q = refl
  dones-emit (dispatched x y) c q = refl
  dones-emit (dispatched_any x) c q = refl
  dones-emit connect_requested c q = refl
  dones-emit read_started c q = refl
  dones-emit (written x) c q = refl
  dones-emit transport_closed c q = refl

  dones-set_state : (s : ConnectionState) (c : Connection S) → dones (set_state s c) ≡ dones c
  unfolding set_state dones completions
  dones-set_state s c = ground arith

  dones-finish_connect : (ec : ErrorCode) (c : Connection S) → dones (finish_connect ec c) ≡ dones c
  unfolding finish_connect dones completions
  dones-finish_connect ec c = ground arith

module _ (F : FrameHelper) (G : Messages) (o : ConnectionOptions) where
  abbrev Same : Connection F.State → Connection F.State → Type 0
  Same c d = dones d ≡ dones c

  Same-Moves : Moves F Same
  unfolding dones
  Same-Moves = record {
    same = λ c. refl;
    then_ = λ p q. q ∙ p;
    logs = λ e c q. dones-emit e c q;
    encodes = λ t payload c. refl;
    ticks = λ a b p n w ts c. refl;
    greets = λ h c. refl;
    notes = λ e c. refl;
    installs = λ h c. refl;
    finishes = λ ec c. dones-finish_connect ec c;
    moves = λ s c le. dones-set_state s c;
  }

  on_ready-Same : (c : Connection F.State) → Same c (on_ready F G o c)
  on_ready-Same c = on_ready-R F G Same-Moves o (λ d. dones-set_state hello_sent d) c

  dones-on_bytes : (bs : List ℕ) (c : Connection F.State) → Same c (after (on_bytes F G o bs c))
  dones-on_bytes bs c =
      on_bytes-R F G o (Moves-Rules F G Same-Moves o (λ d s e. on_ready-Same d))
        (λ d e. unfold dones in refl) (λ d. unfold dones in refl) bs c

  dones-start : (c : Connection F.State) → dones (start F G o c) ≤ dones c + 1
  unfolding start dones completions
  dones-start c =
      let d = record c { connect_handler = true; last_error = none } in
      let e : dones (set_state connecting d) ≡ completions c.log + 1 =
        dones-set_state connecting d in
      omega arith

  -- Every entry point but `start` keeps the sum.
  dones-step :
      (i : Input) (c : Connection F.State) → dones (step F G o i c) ≤ dones c + starts (i ∷ [])
  unfolding step starts
  dones-step start_called c = dones-start c
  dones-step (transport_connected ec) c =
      let e : Same c (on_connected_transport F G o ec c) =
        on_connected_transport-R F G o Same-Moves ec c (λ d. unfold dones in refl)
          (λ e n. on_ready-Same (emit read_started c)) in
      rw e (omega arith)
  dones-step (bytes_read bs) c = rw (dones-on_bytes bs c) (omega arith)
  dones-step (read_failed ec) c = rw (on_read_error-R F G o Same-Moves ec c) (omega arith)
  dones-step (timer_fired id) c = rw (fire-R F G o Same-Moves id c.timers c) (omega arith)
  dones-step closing_written c =
      rw (on_closing_written-R F G o Same-Moves (λ n d. unfold dones in refl) c) (omega arith)
  dones-step disconnect_called c =
      rw (disconnect-R F G o Same-Moves (λ n d. unfold dones in refl) c) (omega arith)
  dones-step (handler_set h) c = unfold dones in omega arith
  dones-step (send_called msg) c = rw (send-R F G Same-Moves msg c) (omega arith)

  dones-run :
      (inputs : List Input) (c : Connection F.State)
      → dones (run F G o inputs c) ≤ dones c + starts inputs
  unfolding run
  dones-run [] c = omega arith
  dones-run (i ∷ inputs) c =
      let later = dones-run inputs (step F G o i c) in
      let now = dones-step i c in let e = starts_cons i inputs in omega arith

  -- However the calls, reads, timers and writes of a session are interleaved, the connect handler
  -- has been called at most once for each call of start.
  pub completions-run :
      (inputs : List Input) (s : F.State)
      → completions (run F G o inputs (new s)).log ≤ starts inputs
  unfolding dones
  completions-run inputs s =
      let e = dones-run inputs (new s) in
      let z : dones (new s) ≡ 0 = unfold new completions in refl in omega arith
