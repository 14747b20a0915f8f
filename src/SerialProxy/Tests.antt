-- ===== src/SerialProxy/Tests.antt =====
-- The serial proxy on a concrete run.
use cpp_esphome_api.Base.{◌≡◌, some, List, [], ◌∷◌, ◌++◌}
use cpp_esphome_api.SerialProxy.{
  new, waiters, Step, calls_get_modem_pins, calls_on_modem_pins, receives_modem_pins, step, run,
}
use cpp_esphome_api.SerialProxy.Waiters.{called, asked}
use cpp_esphome_api.SerialProxy.OneShot.{run-once}

-- Two programs wait for instance 0, one for instance 1, an answer for 0 comes, and one more waits.
abbrev traffic : List Step
traffic =
    calls_get_modem_pins 0 (some 10)
    ∷ calls_get_modem_pins 1 (some 11)
    ∷ calls_get_modem_pins 0 (some 12)
    ∷ calls_on_modem_pins (some 20)
    ∷ receives_modem_pins 0 3
    ∷ calls_get_modem_pins 0 (some 13)
    ∷ []

run-once_example :
    (called 0 (run traffic new).log ++ waiters 0 (run traffic new).pending_modem_pins
      ≡ asked 0 traffic)
    × (called 0 (step (receives_modem_pins 0 1) (run traffic new)).log ≡ asked 0 traffic)
    × (waiters 0 (step (receives_modem_pins 0 1) (run traffic new)).pending_modem_pins ≡ [])
run-once_example = run-once traffic 0 1
