-- ===== src/SerialProxy/OneShot.antt =====
-- The handlers that wait for one answer: each is called once.
use cpp_esphome_api.Base.{
  ℕ, ◌≡◌, refl, sym, ap, ◌∙◌, Bool, true, false, List, [], ◌∷◌, ◌++◌, append-nil, append_assoc,
  ◌==◌, if◌then◌else◌, ==_iff,
}
use cpp_esphome_api.SerialProxy.{
  SerialProxyModemPins, from_bits, SerialProxy, new, note, on_data, on_instance_data,
  on_request_response, request, configure, write, set_modem_pins_raw, set_modem_pins, data_received,
  response_received, waiters, modem_pins_received, Step, calls_on_data, calls_on_instance_data,
  calls_on_request_response, calls_on_modem_pins, calls_request, calls_configure, calls_write,
  calls_get_modem_pins, calls_set_modem_pins, receives_data, receives_response, receives_modem_pins,
  step, run,
}
use cpp_esphome_api.SerialProxy.Waiters.{
  called, asked_by, asked, waiters-erase, balance, pins_received-balance,
}
use cpp_esphome_api.SerialProxy.Changes.{
  data_received-Same, Kept, Kept-Same, response_received-Same, on_modem_pins-Kept, wait_once-Kept,
  set_handler-Kept, on_data-Same, modem_pins_received-Kept, IsReady,
}

-- By cases of a slot.
slot_cases :
    (P : SerialProxy → Type 0) (b : Bool) (r s : SerialProxy)
    → (b ≡ true → P r)
    → (b ≡ false → P s)
    → P (if b then r else s)
slot_cases P true r s on off = on refl
slot_cases P false r s on off = off refl

step-Kept : (i : ℕ) (x : Step) (s : SerialProxy) → IsReady s → Kept i (asked_by i x) s (step x s)
unfolding step asked_by
step-Kept i (calls_on_data handler) s h =
    Kept-Same i s (on_data handler s) (on_data-Same i handler s) h
step-Kept i (calls_on_instance_data j handler) s h =
    Kept-Same i s (on_instance_data j handler s) (set_handler-Kept i j handler s) h
step-Kept i (calls_on_request_response handler) s h =
    Kept-Same i s (on_request_response handler s)
      (unfold on_request_response in (refl, refl, refl, refl)) h
step-Kept i (calls_on_modem_pins handler) s h = on_modem_pins-Kept i handler s h
step-Kept i (calls_request j type) s h =
    Kept-Same i s (request j type s) (unfold request note called in (refl, refl, refl, refl)) h
step-Kept i (calls_configure config) s h =
    Kept-Same i s (configure config s) (unfold configure note called in (refl, refl, refl, refl)) h
step-Kept i (calls_write j bytes) s h =
    Kept-Same i s (write j bytes s) (unfold write note called in (refl, refl, refl, refl)) h
step-Kept i (calls_get_modem_pins j once) s h = wait_once-Kept i j once s h
step-Kept i (calls_set_modem_pins j lines) s h =
    Kept-Same i s (set_modem_pins j lines s)
      (unfold set_modem_pins set_modem_pins_raw note called in (refl, refl, refl, refl)) h
step-Kept i (receives_data out) s h =
    slot_cases (Kept i [] s) s.data_slot (data_received out s) s
      (λ on. Kept-Same i s (data_received out s) (data_received-Same i out s) h)
      (λ off. Kept-Same i s s (refl, refl, refl, refl) h)
step-Kept i (receives_response out) s h =
    slot_cases (Kept i [] s) s.response_slot (response_received out s) s
      (λ on. Kept-Same i s (response_received out s) (response_received-Same i out s) h)
      (λ off. Kept-Same i s s (refl, refl, refl, refl) h)
step-Kept i (receives_modem_pins j line_states) s h =
    let out : SerialProxyModemPins = record { instance_ = j; lines = from_bits line_states } in
    slot_cases (Kept i [] s) s.pins_slot (modem_pins_received out s) s
      (λ on. modem_pins_received-Kept i out s h on)
      (λ off. Kept-Same i s s (refl, refl, refl, refl) h)

run-Kept : (i : ℕ) (xs : List Step) (s : SerialProxy) → IsReady s → Kept i (asked i xs) s (run xs s)
unfolding run asked
run-Kept i [] s h = Kept-Same i s s (refl, refl, refl, refl) h
run-Kept i (x ∷ xs) s h =
    let (one, h') = step-Kept i x s h in
    let (rest, last) = run-Kept i xs (step x s) h' in
    (
      rest ∙ ap (λ b. b ++ asked i xs) one ∙ append_assoc (balance i s) (asked_by i x) (asked i xs),
      last,
    )

-- After an answer nobody waits for its instance.
none_wait :
    (i line_states : ℕ) (s : SerialProxy)
    → IsReady s
    → waiters i (step (receives_modem_pins i line_states) s).pending_modem_pins ≡ []
unfolding step
none_wait i line_states s h =
    let out : SerialProxyModemPins = record { instance_ = i; lines = from_bits line_states } in
    let (log, pending, slot, flag) = pins_received-balance i out s in
    let same : (i == i) ≡ true = (==_iff i i).1 refl in
    slot_cases (λ r. waiters i r.pending_modem_pins ≡ []) s.pins_slot (modem_pins_received out s) s
      (λ on. rw (pending, waiters-erase i i s.pending_modem_pins, same) refl) (λ off. h.idle off i)

-- Whatever a program does with a new proxy and whatever messages arrive in between, the one-shot handlers
-- that it handed to get_modem_pins for an instance are those that have been called for that instance and
-- those that wait, in the order in which they were handed over; and the next answer for the instance
-- completes it: then every one of them has been called, exactly once each, and none waits.
pub run-once :
    (steps : List Step) (i line_states : ℕ)
    → (called i (run steps new).log ++ waiters i (run steps new).pending_modem_pins ≡ asked i steps)
      × (called i (step (receives_modem_pins i line_states) (run steps new)).log ≡ asked i steps)
      × (waiters i (step (receives_modem_pins i line_states) (run steps new)).pending_modem_pins
          ≡ [])
unfolding called waiters asked_by
run-once steps i line_states =
    let fresh : IsReady new = record { registered = refl; idle = λ off j. refl } in
    let (all, ready) = run-Kept i steps new fresh in
    let s = run steps new in
    let (more, done) = step-Kept i (receives_modem_pins i line_states) s ready in
    let empty = none_wait i line_states s ready in
    (
      all,
      sym (append-nil (called i (step (receives_modem_pins i line_states) s).log))
          ∙ ap (λ w. called i (step (receives_modem_pins i line_states) s).log ++ w) (sym empty)
          ∙ more
          ∙ append-nil (balance i s)
          ∙ all,
      empty,
    )
