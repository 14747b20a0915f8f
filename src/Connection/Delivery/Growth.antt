-- ===== src/Connection/Delivery/Growth.antt =====
-- The messages that the handler of `on_any` was called with only grow in number, whatever happens.
use cpp_esphome_api.Base.{
  ℕ, ◌≡◌, refl, sym, ap, ◌∙◌, true, none, List, [], ◌∷◌, ◌++◌, append-nil, append_assoc, arith,
}
use cpp_esphome_api.Frame.{FrameHelper}
use cpp_esphome_api.Connection.State.{
  ConnectionState, connecting, hello_sent, ConnectionOptions, ErrorCode, ProtoMessage, Messages,
  Event, state_changed, connect_done, error_reported, raw_frame, dispatched, dispatched_any,
  connect_requested, read_started, written, transport_closed, Connection,
}
use cpp_esphome_api.Connection.Actions.{emit, set_state, finish_connect}
use cpp_esphome_api.Connection.Steps.{
  after, Input, start_called, transport_connected, bytes_read, read_failed, timer_fired,
  closing_written, disconnect_called, send_called, handler_set, start, on_ready, on_bytes, step,
}
use cpp_esphome_api.Connection.Rules.{on_bytes-R}
use cpp_esphome_api.Connection.Moves.{Moves, Moves-Rules, on_ready-R, send-R}
use cpp_esphome_api.Connection.Entries.{
  on_connected_transport-R, on_read_error-R, fire-R, on_closing_written-R, disconnect-R,
}
use cpp_esphome_api.Connection.Delivery.Log.{heard}

module _ {S : Type 0} where
  abbrev pub Grows : Connection S → Connection S → Type 0
  Grows c d = (msgs : List ProtoMessage) × (heard d.log ≡ heard c.log ++ msgs)

  same-Grows : (c d : Connection S) → heard d.log ≡ heard c.log → Grows c d
  same-Grows c d e = ([], e ∙ sym (append-nil (heard c.log)))

  then-Grows : (c d e : Connection S) → Grows c d → Grows d e → Grows c e
  then-Grows c d e (ms, p) (ns, q) =
      (ms ++ ns, q ∙ ap (λ x. x ++ ns) p ∙ append_assoc (heard c.log) ms ns)

  emit-Grows : (e : Event) (c : Connection S) → Grows c (emit e c)
  unfolding heard
  emit-Grows (dispatched_any msg) c = (msg ∷ [], refl)
  emit-Grows (state_changed x) c = same-Grows c (emit (state_changed x) c) refl
  emit-Grows (connect_done x) c = same-Grows c (emit (connect_done x) c) refl
  emit-Grows (error_reported x y) c = same-Grows c (emit (error_reported x y) c) refl
  emit-Grows (raw_frame x y) c = same-Grows c (emit (raw_frame x y) c) refl
  emit-Grows (dispatched x y) c = same-Grows c (emit (dispatched x y) c) refl
  emit-Grows connect_requested c = same-Grows c (emit connect_requested c) refl
  emit-Grows read_started c = same-Grows c (emit read_started c) refl
  emit-Grows (written x) c = same-Grows c (emit (written x) c) refl
  emit-Grows transport_closed c = same-Grows c (emit transport_closed c) refl

  set_state-Grows : (s : ConnectionState) (c : Connection S) → Grows c (set_state s c)
  unfolding set_state heard
  set_state-Grows s c = same-Grows c (set_state s c) (ground arith)

  finish_connect-Grows : (ec : ErrorCode) (c : Connection S) → Grows c (finish_connect ec c)
  unfolding finish_connect heard
  finish_connect-Grows ec c = same-Grows c (finish_connect ec c) (ground arith)

module _ (F : FrameHelper) (G : Messages) (o : ConnectionOptions) where
  Grows-Moves : Moves F Grows
  Grows-Moves = record {
    same = λ c. same-Grows c c refl;
    then_ = λ {c} {d} {e} p q. then-Grows c d e p q;
    logs = λ e c q. emit-Grows e c;
    encodes =
        λ t payload c. same-Grows c (record c { frames = (F.encode t payload c.frames).0 }) refl;
    ticks = λ a b p n w ts c. ([], sym (append-nil (heard c.log)));
    greets = λ h c. ([], sym (append-nil (heard c.log)));
    notes = λ e c. ([], sym (append-nil (heard c.log)));
    installs = λ h c. ([], sym (append-nil (heard c.log)));
    finishes = λ ec c. finish_connect-Grows ec c;
    moves = λ s c le. set_state-Grows s c;
  }

  on_ready-Grows : (c : Connection F.State) → Grows c (on_ready F G o c)
  on_ready-Grows c = on_ready-R F G Grows-Moves o (λ d. set_state-Grows hello_sent d) c

  on_bytes-Grows : (bs : List ℕ) (c : Connection F.State) → Grows c (after (on_bytes F G o bs c))
  on_bytes-Grows bs c =
      on_bytes-R F G o (Moves-Rules F G Grows-Moves o (λ d s e. on_ready-Grows d))
        (λ bytes d. ([], sym (append-nil (heard d.log))))
        (λ d. ([], sym (append-nil (heard d.log)))) bs c

  -- Nothing is taken back.
  pub step-Grows : (i : Input) (c : Connection F.State) → Grows c (step F G o i c)
  unfolding step start heard
  step-Grows start_called c =
      let d = record c { connect_handler = true; last_error = none } in set_state-Grows connecting d
  step-Grows (transport_connected ec) c =
      on_connected_transport-R F G o Grows-Moves ec c (λ d. ([], sym (append-nil (heard d.log))))
        (λ e n. on_ready-Grows (emit read_started c))
  step-Grows (bytes_read bs) c = on_bytes-Grows bs c
  step-Grows (read_failed ec) c = on_read_error-R F G o Grows-Moves ec c
  step-Grows (timer_fired id) c = fire-R F G o Grows-Moves id c.timers c
  step-Grows closing_written c =
      on_closing_written-R F G o Grows-Moves (λ n d. ([], sym (append-nil (heard d.log)))) c
  step-Grows disconnect_called c =
      disconnect-R F G o Grows-Moves (λ n d. ([], sym (append-nil (heard d.log)))) c
  step-Grows (handler_set h) c = ([], sym (append-nil (heard c.log)))
  step-Grows (send_called msg) c = send-R F G Grows-Moves msg c
