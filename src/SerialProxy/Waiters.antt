-- ===== src/SerialProxy/Waiters.antt =====
-- The handlers that wait for an answer, as the log and the table of the waiting show them.
use cpp_esphome_api.Base.{
  ℕ, ◌≡◌, refl, sym, ◌∙◌, inl, inr, some, List, [], ◌∷◌, ◌++◌, append-nil, append_assoc, arith,
  ◌==◌, if◌then◌else◌, Bool-cases, Option-cases,
}
use cpp_esphome_api.SerialProxy.{
  SerialProxyModemPins, Event, sent, data_called, response_called, once_called, pins_called,
  SerialProxy, note, call, push_once, waiters, erase, call_all, modem_pins_received, Step,
  calls_get_modem_pins,
}

-- The calls of waiting handlers for an instance, in their order.
unfoldable pub called : ℕ → List Event → List ℕ
called i [] = []
called i (once_called h out ∷ log) =
    let before = called i log in if out.instance_ == i then before ++ (h ∷ []) else before
called i (sent r ∷ log) = called i log
called i (data_called h out ∷ log) = called i log
called i (response_called h out ∷ log) = called i log
called i (pins_called h out ∷ log) = called i log

-- The handlers that a program hands to get_modem_pins for an instance.
unfoldable pub asked_by : ℕ → Step → List ℕ
asked_by i (calls_get_modem_pins j (some h)) = if j == i then h ∷ [] else []
asked_by i x = []

unfoldable pub asked : ℕ → List Step → List ℕ
unfolding asked_by
asked i [] = []
asked i (x ∷ xs) = asked_by i x ++ asked i xs

pub waiters-push_once :
    (i j h : ℕ) (m : List (ℕ × List ℕ))
    → waiters i (push_once j h m) ≡ waiters i m ++ (if j == i then h ∷ [] else [])
unfolding waiters push_once
waiters-push_once i j h [] = refl
waiters-push_once i j h ((k, hs) ∷ m) =
    ground (arith, waiters-push_once i j h m, append-nil hs, append-nil (waiters i m))

pub waiters-erase :
    (i j : ℕ) (m : List (ℕ × List ℕ)) → waiters i (erase j m) ≡ (if j == i then [] else waiters i m)
unfolding waiters erase
waiters-erase i j [] = ground arith
waiters-erase i j ((k, hs) ∷ m) = ground (arith, waiters-erase i j m)

abbrev pub balance : ℕ → SerialProxy → List ℕ
balance i s = called i s.log ++ waiters i s.pending_modem_pins

called-call_all :
    (i : ℕ) (out : SerialProxyModemPins) (hs : List ℕ) (s : SerialProxy)
    → called i (call_all out hs s).log ≡ called i s.log ++ (if out.instance_ == i then hs else [])
unfolding called call_all note
called-call_all i out [] s = elim (Bool-cases (out.instance_ == i)) [
  | inl e ↦ rw e (sym (append-nil (called i s.log)))
  | inr e ↦ rw e (sym (append-nil (called i s.log)))
]
called-call_all i out (h ∷ hs) s = elim (Bool-cases (out.instance_ == i)) [
  | inl e ↦
      called-call_all i out hs (note (once_called h out) s)
      ∙ rw e (append_assoc (called i s.log) (h ∷ []) hs)
  | inr e ↦ called-call_all i out hs (note (once_called h out) s) ∙ rw e refl
]

pending_kept :
    (out : SerialProxyModemPins) (hs : List ℕ) (s : SerialProxy)
    → ((call_all out hs s).pending_modem_pins ≡ s.pending_modem_pins)
      × ((call_all out hs s).pins_slot ≡ s.pins_slot)
      × ((call_all out hs s).modem_pins_registered ≡ s.modem_pins_registered)
unfolding call_all note
pending_kept out [] s = (refl, refl, refl)
pending_kept out (h ∷ hs) s = pending_kept out hs (note (once_called h out) s)

pub pins_received-balance :
    (i : ℕ) (out : SerialProxyModemPins) (s : SerialProxy)
    → (called i (modem_pins_received out s).log
        ≡ called i s.log
          ++ (if out.instance_ == i then waiters out.instance_ s.pending_modem_pins else []))
      × ((modem_pins_received out s).pending_modem_pins ≡ erase out.instance_ s.pending_modem_pins)
      × ((modem_pins_received out s).pins_slot ≡ s.pins_slot)
      × ((modem_pins_received out s).modem_pins_registered ≡ s.modem_pins_registered)
unfolding modem_pins_received
pins_received-balance i out s =
    let once = waiters out.instance_ s.pending_modem_pins in
    let r = record s { pending_modem_pins = erase out.instance_ s.pending_modem_pins } in
    let (kept, slot, registered) = pending_kept out once r in
    let q = call_all out once r in
    elim (Option-cases q.modem_pins_handler) [
      | inl e ↦ rw e (unfold call in (called-call_all i out once r, kept, slot, registered))
      | inr (h, e) ↦
          rw e (unfold call note called in (called-call_all i out once r, kept, slot, registered))
    ]
