-- ===== src/Client/Session.antt =====
-- What a client knows after a session: its store, its handlers and the device's description against the
-- messages that the connection heard, and against what the device sent.
use cpp_esphome_api.Base.{
  ℕ, ◌≡◌, refl, sym, ap, ◌∙◌, List, [], ◌∷◌, ◌++◌, append-nil, append_assoc, length, drop,
  drop-append,
}
use mathlib.Core.List.{map}
use cpp_esphome_api.Frame.{FrameHelper}
use cpp_esphome_api.Connection.State.{ConnectionOptions, ProtoMessage, Messages}
use cpp_esphome_api.Connection.Steps.{Input, bytes_read}
use cpp_esphome_api.Connection.Steps
use cpp_esphome_api.Connection.Delivery.Log.{heard}
use cpp_esphome_api.Connection.Delivery.Growth.{step-Grows}
use cpp_esphome_api.EntityStore.{find}
use cpp_esphome_api.EntityStore.Latest.{Seen, view, about, see_all, find-run}
use cpp_esphome_api.EntityStore.Latest
use cpp_esphome_api.Client.{Casts, Client, step, run}
use cpp_esphome_api.Client.Knows.{
  calls_of, last_info, or_else, known, Knows, then-Knows, deliver-Knows,
}

module _ (F : FrameHelper) (G : Messages) (V : Casts) (o : ConnectionOptions) where
  step-Knows :
      (i : Input) (c : Client F.State)
      → (msgs : List ProtoMessage) × (heard (Steps.step F G o i c.connection).log
          ≡ heard c.connection.log ++ msgs)
        × Knows G V c (step F G V o i c) msgs
        × ((step F G V o i c).connection ≡ Steps.step F G o i c.connection)
  unfolding step known
  step-Knows i c =
      let (msgs, e) = step-Grows F G o i c.connection in
      let d = Steps.step F G o i c.connection in
      let fresh =
        ap (drop (length (heard c.connection.log))) e ∙ drop-append (heard c.connection.log) msgs in
      let (k, conn) = deliver-Knows G V msgs (record c { connection = d }) in
      (
        msgs,
        e,
        rw fresh
            (record { store = k.store; handlers = k.handlers; calls = k.calls; info = k.info }),
        rw fresh conn,
      )

  -- Whatever happens to a client, over any codec, it has taken in exactly the messages that its connection has
  -- handed to `on_any` since: the store is that of these messages, every handler was called with each of
  -- them in order, and the description is the last one among them, or the one before.
  pub run-Knows :
      (inputs : List Input) (c : Client F.State)
      → (msgs : List ProtoMessage) × (heard (Steps.run F G o inputs c.connection).log
          ≡ heard c.connection.log ++ msgs)
        × Knows G V c (run F G V o inputs c) msgs
        × ((run F G V o inputs c).connection ≡ Steps.run F G o inputs c.connection)
  unfolding run Steps.run Latest.run calls_of last_info
  run-Knows [] c = (
    [],
    sym (append-nil (heard c.connection.log)),
    record { store = refl; handlers = refl; calls = sym (append-nil c.calls); info = refl },
    refl,
  )
  run-Knows (i ∷ inputs) c =
      let (ms, e, a, conn) = step-Knows i c in
      let d = step F G V o i c in
      let (ns, e', b, conn') = run-Knows inputs d in
      (
        ms ++ ns,
        sym (ap (λ k. heard (Steps.run F G o inputs k).log) conn)
            ∙ e'
            ∙ ap (λ k. heard k.log ++ ns) conn
            ∙ ap (λ x. x ++ ns) e
            ∙ append_assoc (heard c.connection.log) ms ns,
        then-Knows G V c d (run F G V o inputs d) ms ns a b,
        conn' ∙ ap (Steps.run F G o inputs) conn,
      )

append-cancel : {A : Type 0} (xs ys zs : List A) → xs ++ ys ≡ xs ++ zs → ys ≡ zs
append-cancel xs ys zs e = sym (drop-append xs ys) ∙ ap (drop (length xs)) e ∙ drop-append xs zs

-- Of every key the client d knows what an observer of the messages with that key alone knows, it has called
-- each of its handlers with exactly these messages, in order, and it answers the last description of the
-- device among them, or the one that c had.
abbrev pub HasTaken :
    {S : Type 0} → Messages → Casts → ℕ → List ProtoMessage → Client S → Client S → Type 0
HasTaken G V key msgs c d =
    (view (find key d.store) ≡ see_all (about key (map V.to_entity msgs)) (view (find key c.store)))
    × (d.calls ≡ c.calls ++ calls_of c.any_handlers msgs)
    × (known d ≡ or_else (last_info G V msgs) (known c))

pub heard-HasTaken :
    (F : FrameHelper) (G : Messages) (V : Casts) (o : ConnectionOptions) (inputs : List Input)
    (msgs : List ProtoMessage) (key : ℕ) (c : Client F.State)
    → heard (Steps.run F G o inputs c.connection).log ≡ heard c.connection.log ++ msgs
    → HasTaken G V key msgs c (run F G V o inputs c)
heard-HasTaken F G V o inputs msgs key c e =
    let (ms, more, k, conn) = run-Knows F G V o inputs c in
    let same : ms ≡ msgs = append-cancel (heard c.connection.log) ms msgs (sym more ∙ e) in
    (
      ap (λ s. view (find key s)) (k.store ∙ ap (λ x. Latest.run (map V.to_entity x) c.store) same)
          ∙ find-run key (map V.to_entity msgs) c.store,
      k.calls ∙ ap (λ x. c.calls ++ calls_of c.any_handlers x) same,
      k.info ∙ ap (λ x. or_else (last_info G V x) (known c)) same,
    )
