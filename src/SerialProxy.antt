-- ===== src/SerialProxy.antt =====
-- include/esphome/api/subsystems/serial_proxy.hpp and src/subsystems/serial_proxy.cpp: the UART proxies of a
-- device. A handler is a name, `none` the empty one; a request that is sent and a call of a handler are
-- entries of a log, the last one first. A handler that calls back is a later step.
pub mod Waiters
pub mod Changes
pub mod OneShot
pub mod Lines
pub mod Tests
use cpp_esphome_api.Base.{
  ℕ, bit_and, bit_or, Bool, true, false, not, Option, none, some, List, [], ◌∷◌, ◌++◌, ◌==◌,
  if◌then◌else◌,
}

pub record SerialProxyConfig : Type 0 where
  pub instance_ : ℕ
  pub baudrate : ℕ
  pub flow_control : Bool
  pub parity : ℕ
  pub stop_bits : ℕ
  pub data_size : ℕ

pub record SerialProxyData : Type 0 where
  pub instance_ : ℕ
  pub bytes : List ℕ

pub record SerialProxyResponse : Type 0 where
  pub instance_ : ℕ
  pub type : ℕ
  pub status : ℕ
  pub error_message : List ℕ

pub record SerialProxyLineStates : Type 0 where
  pub rts : Bool
  pub dtr : Bool

abbrev pub rts_bit : ℕ
rts_bit = 0x1

abbrev pub dtr_bit : ℕ
dtr_bit = 0x2

unfoldable pub from_bits : ℕ → SerialProxyLineStates
from_bits bits = record {
  rts = not (bit_and bits rts_bit == 0);
  dtr = not (bit_and bits dtr_bit == 0);
}

unfoldable pub to_bits : SerialProxyLineStates → ℕ
to_bits lines = bit_or (if lines.rts then rts_bit else 0) (if lines.dtr then dtr_bit else 0)

pub record SerialProxyModemPins : Type 0 where
  pub instance_ : ℕ
  pub lines : SerialProxyLineStates

-- The requests, with the fields that are set.
pub data Request : Type 0 where
  control : (instance_ type : ℕ) → Request
  configure_request : SerialProxyConfig → Request
  write_request : (instance_ : ℕ) (bytes : List ℕ) → Request
  get_modem_pins_request : (instance_ : ℕ) → Request
  set_modem_pins_request : (instance_ line_states : ℕ) → Request

-- `once_called` is a call of a handler that was waiting for one answer.
pub data Event : Type 0 where
  sent : Request → Event
  data_called : ℕ → SerialProxyData → Event
  response_called : ℕ → SerialProxyResponse → Event
  once_called : ℕ → SerialProxyModemPins → Event
  pins_called : ℕ → SerialProxyModemPins → Event

-- The three slots tell whether the client has the proxy's handler for the message.
pub record SerialProxy : Type 0 where
  pub data_handler : Option ℕ
  pub instance_data_handlers : List (ℕ × Option ℕ)
  pub response_handler : Option ℕ
  pub modem_pins_handler : Option ℕ
  pub pending_modem_pins : List (ℕ × List ℕ)
  pub data_registered : Bool
  pub modem_pins_registered : Bool
  pub data_slot : Bool
  pub response_slot : Bool
  pub pins_slot : Bool
  pub log : List Event

abbrev pub new : SerialProxy
new = record {
  data_handler = none;
  instance_data_handlers = [];
  response_handler = none;
  modem_pins_handler = none;
  pending_modem_pins = [];
  data_registered = false;
  modem_pins_registered = false;
  data_slot = false;
  response_slot = false;
  pins_slot = false;
  log = [];
}

unfoldable pub note : Event → SerialProxy → SerialProxy
note e s = record s { log = e ∷ s.log }

-- A call of a handler, if there is one.
unfoldable pub call : (ℕ → Event) → Option ℕ → SerialProxy → SerialProxy
call event none s = s
call event (some h) s = note (event h) s

unfoldable pub handler_of : ℕ → List (ℕ × Option ℕ) → Option ℕ
handler_of i [] = none
handler_of i ((j, h) ∷ m) = let later = handler_of i m in if j == i then h else later

unfoldable pub set_handler : ℕ → Option ℕ → List (ℕ × Option ℕ) → List (ℕ × Option ℕ)
set_handler i h [] = (i, h) ∷ []
set_handler i h ((j, old) ∷ m) =
    let later = set_handler i h m in if j == i then (j, h) ∷ m else (j, old) ∷ later

unfoldable pub ensure_data_handler : SerialProxy → SerialProxy
ensure_data_handler s =
    if s.data_registered then s else record s { data_registered = true; data_slot = true }

unfoldable pub on_data : Option ℕ → SerialProxy → SerialProxy
on_data handler s = ensure_data_handler (record s { data_handler = handler })

unfoldable pub on_instance_data : ℕ → Option ℕ → SerialProxy → SerialProxy
on_instance_data i handler s =
    ensure_data_handler
      (record s { instance_data_handlers = set_handler i handler s.instance_data_handlers })

unfoldable pub on_request_response : Option ℕ → SerialProxy → SerialProxy
on_request_response handler s = record s { response_handler = handler; response_slot = true }

unfoldable pub ensure_modem_pins_handler : SerialProxy → SerialProxy
ensure_modem_pins_handler s =
    if s.modem_pins_registered
    then s
    else record s { modem_pins_registered = true; pins_slot = true }

unfoldable pub on_modem_pins : Option ℕ → SerialProxy → SerialProxy
on_modem_pins handler s = ensure_modem_pins_handler (record s { modem_pins_handler = handler })

unfoldable pub request : ℕ → ℕ → SerialProxy → SerialProxy
request i type s = note (sent (control i type)) s

unfoldable pub configure : SerialProxyConfig → SerialProxy → SerialProxy
configure config s = note (sent (configure_request config)) s

unfoldable pub write : ℕ → List ℕ → SerialProxy → SerialProxy
write i bytes s = note (sent (write_request i bytes)) s

-- `pending_modem_pins_[instance].push_back`
unfoldable pub push_once : ℕ → ℕ → List (ℕ × List ℕ) → List (ℕ × List ℕ)
push_once i h [] = (i, h ∷ []) ∷ []
push_once i h ((j, hs) ∷ m) =
    let later = push_once i h m in if j == i then (j, hs ++ (h ∷ [])) ∷ m else (j, hs) ∷ later

unfoldable pub wait_once : ℕ → Option ℕ → SerialProxy → SerialProxy
wait_once i none s = s
wait_once i (some h) s =
    let r = ensure_modem_pins_handler s in
    record r { pending_modem_pins = push_once i h r.pending_modem_pins }

unfoldable pub get_modem_pins : ℕ → Option ℕ → SerialProxy → SerialProxy
get_modem_pins i once s = note (sent (get_modem_pins_request i)) (wait_once i once s)

unfoldable pub set_modem_pins_raw : ℕ → ℕ → SerialProxy → SerialProxy
set_modem_pins_raw i line_states s = note (sent (set_modem_pins_request i line_states)) s

unfoldable pub set_modem_pins : ℕ → SerialProxyLineStates → SerialProxy → SerialProxy
set_modem_pins i lines s = set_modem_pins_raw i (to_bits lines) s

-- The handler of SerialProxyDataReceived.
unfoldable pub data_received : SerialProxyData → SerialProxy → SerialProxy
data_received out s =
    let r = call (λ h. data_called h out) s.data_handler s in
    call (λ h. data_called h out) (handler_of out.instance_ r.instance_data_handlers) r

-- The handler of SerialProxyRequestResponse.
unfoldable pub response_received : SerialProxyResponse → SerialProxy → SerialProxy
response_received out s = call (λ h. response_called h out) s.response_handler s

unfoldable pub waiters : ℕ → List (ℕ × List ℕ) → List ℕ
waiters i [] = []
waiters i ((j, hs) ∷ m) = let later = waiters i m in if j == i then hs else later

unfoldable pub erase : ℕ → List (ℕ × List ℕ) → List (ℕ × List ℕ)
erase i [] = []
erase i ((j, hs) ∷ m) = let later = erase i m in if j == i then later else (j, hs) ∷ later

unfoldable pub call_all : SerialProxyModemPins → List ℕ → SerialProxy → SerialProxy
call_all out [] s = s
call_all out (h ∷ hs) s = call_all out hs (note (once_called h out) s)

-- The handler of SerialProxyGetModemPinsResponse.
unfoldable pub modem_pins_received : SerialProxyModemPins → SerialProxy → SerialProxy
modem_pins_received out s =
    let once = waiters out.instance_ s.pending_modem_pins in
    let r =
      call_all out once
        (record s { pending_modem_pins = erase out.instance_ s.pending_modem_pins }) in
    call (λ h. pins_called h out) r.modem_pins_handler r

-- What a program does with the proxy, and the messages that the client hands on.
pub data Step : Type 0 where
  calls_on_data : Option ℕ → Step
  calls_on_instance_data : ℕ → Option ℕ → Step
  calls_on_request_response : Option ℕ → Step
  calls_on_modem_pins : Option ℕ → Step
  calls_request : ℕ → ℕ → Step
  calls_configure : SerialProxyConfig → Step
  calls_write : ℕ → List ℕ → Step
  calls_get_modem_pins : ℕ → Option ℕ → Step
  calls_set_modem_pins : ℕ → SerialProxyLineStates → Step
  receives_data : SerialProxyData → Step
  receives_response : SerialProxyResponse → Step
  receives_modem_pins : ℕ → ℕ → Step

unfoldable pub step : Step → SerialProxy → SerialProxy
step (calls_on_data h) s = on_data h s
step (calls_on_instance_data i h) s = on_instance_data i h s
step (calls_on_request_response h) s = on_request_response h s
step (calls_on_modem_pins h) s = on_modem_pins h s
step (calls_request i type) s = request i type s
step (calls_configure config) s = configure config s
step (calls_write i bytes) s = write i bytes s
step (calls_get_modem_pins i once) s = get_modem_pins i once s
step (calls_set_modem_pins i lines) s = set_modem_pins i lines s
step (receives_data out) s = if s.data_slot then data_received out s else s
step (receives_response out) s = if s.response_slot then response_received out s else s
step (receives_modem_pins i line_states) s =
    if s.pins_slot
    then modem_pins_received (record { instance_ = i; lines = from_bits line_states }) s
    else s

unfoldable pub run : List Step → SerialProxy → SerialProxy
run [] s = s
run (x ∷ xs) s = run xs (step x s)
