-- ===== src/SerialProxy/Changes.antt =====
-- What each operation does to the handlers that wait and to those that were called.
use cpp_esphome_api.Base.{
  ℕ, ◌≡◌, refl, sym, ap, ◌∙◌, inl, inr, true, false, Option, none, some, List, [], ◌∷◌, ◌++◌,
  append-nil, append_assoc, arith, ◌==◌, if◌then◌else◌, ==_iff, Bool-cases, Option-cases,
}
use cpp_esphome_api.SerialProxy.{
  SerialProxyModemPins, get_modem_pins_request, sent, SerialProxy, note, call, ensure_data_handler,
  on_data, on_instance_data, ensure_modem_pins_handler, on_modem_pins, wait_once, get_modem_pins,
  handler_of, set_handler, data_received, response_received, waiters, modem_pins_received,
  calls_get_modem_pins,
}
use cpp_esphome_api.SerialProxy.Waiters.{
  called, asked_by, waiters-push_once, waiters-erase, balance, pins_received-balance,
}

-- The client has the handler for the answers whenever somebody waits for one.
pub record IsReady (s : SerialProxy) : Type 0 where
  pub registered : s.modem_pins_registered ≡ s.pins_slot
  pub idle : s.pins_slot ≡ false → (i : ℕ) → waiters i s.pending_modem_pins ≡ []

-- Two states that agree in what the waiting handlers depend on.
abbrev Same : ℕ → SerialProxy → SerialProxy → Type 0
Same i s r =
    (called i r.log ≡ called i s.log)
    × (r.pending_modem_pins ≡ s.pending_modem_pins)
    × (r.pins_slot ≡ s.pins_slot)
    × (r.modem_pins_registered ≡ s.modem_pins_registered)

IsReady-Same : (i : ℕ) (s r : SerialProxy) → Same i s r → IsReady s → IsReady r
IsReady-Same i s r (log, pending, slot, flag) h = record {
  registered = flag ∙ h.registered ∙ sym slot;
  idle = λ off j. ap (waiters j) pending ∙ h.idle (sym slot ∙ off) j;
}

abbrev pub Kept : ℕ → List ℕ → SerialProxy → SerialProxy → Type 0
Kept i hs s r = (balance i r ≡ balance i s ++ hs) × IsReady r

pub Kept-Same : (i : ℕ) (s r : SerialProxy) → Same i s r → IsReady s → Kept i [] s r
Kept-Same i s r same h =
    let (log, pending, slot, flag) = same in
    (rw (log, pending) (sym (append-nil (balance i s))), IsReady-Same i s r same h)

pub data_received-Same : (i : ℕ) (out : _) (s : SerialProxy) → Same i s (data_received out s)
unfolding data_received call note called
data_received-Same i out s = elim (Option-cases s.data_handler) [
  | inl e ↦ elim (Option-cases (handler_of out.instance_ s.instance_data_handlers)) [
    | inl e' ↦ rw (e, e') (refl, refl, refl, refl)
    | inr (h, e') ↦ rw (e, e') (refl, refl, refl, refl)
  ]
  | inr (g, e) ↦ elim (Option-cases (handler_of out.instance_ s.instance_data_handlers)) [
    | inl e' ↦ rw (e, e') (refl, refl, refl, refl)
    | inr (h, e') ↦ rw (e, e') (refl, refl, refl, refl)
  ]
]

pub response_received-Same :
    (i : ℕ) (out : _) (s : SerialProxy) → Same i s (response_received out s)
unfolding response_received call note called
response_received-Same i out s = elim (Option-cases s.response_handler) [
  | inl e ↦ rw e (refl, refl, refl, refl)
  | inr (h, e) ↦ rw e (refl, refl, refl, refl)
]

ensure_data_handler-Same : (i : ℕ) (s : SerialProxy) → Same i s (ensure_data_handler s)
unfolding ensure_data_handler
ensure_data_handler-Same i s = elim (Bool-cases s.data_registered) [
  | inl e ↦ rw e (refl, refl, refl, refl)
  | inr e ↦ rw e (refl, refl, refl, refl)
]

-- Registering leaves the log and the waiting handlers alone, and turns the slot on.
ensure_modem_pins_handler_on :
    (s : SerialProxy)
    → IsReady s
    → ((ensure_modem_pins_handler s).log ≡ s.log)
      × ((ensure_modem_pins_handler s).pending_modem_pins ≡ s.pending_modem_pins)
      × ((ensure_modem_pins_handler s).pins_slot ≡ true)
      × ((ensure_modem_pins_handler s).modem_pins_registered ≡ true)
unfolding ensure_modem_pins_handler
ensure_modem_pins_handler_on s h = elim (Bool-cases s.modem_pins_registered) [
  | inl e ↦ rw e (refl, refl, sym h.registered ∙ e, refl)
  | inr e ↦ rw e (refl, refl, refl, refl)
]

pub on_modem_pins-Kept :
    (i : ℕ) (handler : Option ℕ) (s : SerialProxy)
    → IsReady s
    → Kept i [] s (on_modem_pins handler s)
unfolding on_modem_pins
on_modem_pins-Kept i handler s h =
    let d = record s { modem_pins_handler = handler } in
    let d_ready : IsReady d = record { registered = h.registered; idle = h.idle } in
    let (log, pending, slot, flag) = ensure_modem_pins_handler_on d d_ready in
    (
      rw (log, pending) (sym (append-nil (balance i s))),
      record { registered = flag ∙ sym slot; idle = λ off. absurd (ground (arith, slot, off)) },
    )

pub wait_once-Kept :
    (i j : ℕ) (once : Option ℕ) (s : SerialProxy)
    → IsReady s
    → Kept i (asked_by i (calls_get_modem_pins j once)) s (get_modem_pins j once s)
unfolding get_modem_pins wait_once note called asked_by
wait_once-Kept i j none s h =
    Kept-Same i s (note (sent (get_modem_pins_request j)) s) (refl, refl, refl, refl) h
wait_once-Kept i j (some k) s h =
    let (log, pending, slot, flag) = ensure_modem_pins_handler_on s h in
    (
      rw (log, pending, waiters-push_once i j k s.pending_modem_pins)
          (sym (
            append_assoc (called i s.log) (waiters i s.pending_modem_pins)
              (if j == i then k ∷ [] else []))),
      record { registered = flag ∙ sym slot; idle = λ off. absurd (ground (arith, slot, off)) },
    )

pub set_handler-Kept :
    (i j : ℕ) (handler : Option ℕ) (s : SerialProxy) → Same i s (on_instance_data j handler s)
unfolding on_instance_data
set_handler-Kept i j handler s =
    let d = record s { instance_data_handlers = set_handler j handler s.instance_data_handlers } in
    let (log, pending, slot, flag) = ensure_data_handler-Same i d in (log, pending, slot, flag)

pub on_data-Same : (i : ℕ) (handler : Option ℕ) (s : SerialProxy) → Same i s (on_data handler s)
unfolding on_data
on_data-Same i handler s =
    let (log, pending, slot, flag) =
      ensure_data_handler-Same i (record s { data_handler = handler }) in
    (log, pending, slot, flag)

-- An answer calls the handlers that wait for its instance, and no others.
pub modem_pins_received-Kept :
    (i : ℕ) (out : SerialProxyModemPins) (s : SerialProxy)
    → IsReady s
    → s.pins_slot ≡ true
    → Kept i [] s (modem_pins_received out s)
modem_pins_received-Kept i out s h on =
    let (log, pending, slot, flag) = pins_received-balance i out s in
    let left = waiters-erase i out.instance_ s.pending_modem_pins in
    let same = (==_iff out.instance_ i).0 in
    let ready : IsReady (modem_pins_received out s) = record {
      registered = flag ∙ h.registered ∙ sym slot;
      idle = λ off. absurd (ground (arith, slot, on, off));
    } in
    elim (Bool-cases (out.instance_ == i)) [
      | inl e ↦
          let all : waiters out.instance_ s.pending_modem_pins ≡ waiters i s.pending_modem_pins =
            ap (λ j. waiters j s.pending_modem_pins) (same e) in
          (rw (log, pending, left, e, all) refl, ready)
      | inr e ↦ (rw (log, pending, left, e) (simp append-nil), ready)
    ]
