-- ===== src/Connection/State.antt =====
-- connection_state.hpp, connection_options.hpp and the members of `Connection`.
-- The executor is modelled by its documented contract: timers have distinct positive ids, a timer
-- that fires or is cancelled is gone.
use cpp_esphome_api.Base.{ℕ, Bool, true, false, Option, none, List, []}
use cpp_esphome_api.Errors.{Exception, What}

pub data ConnectionState : Type 0 where
  disconnected connecting hello_sent connected closing closed failed : ConnectionState

-- The position in the enum.
unfoldable pub rank : ConnectionState → ℕ
rank disconnected = 0
rank connecting = 1
rank hello_sent = 2
rank connected = 3
rank closing = 4
rank closed = 5
rank failed = 6

infix 50 ◌is◌
abbrev pub ◌is◌ : ConnectionState → ConnectionState → Bool
disconnected is disconnected = true
connecting is connecting = true
hello_sent is hello_sent = true
connected is connected = true
closing is closing = true
closed is closed = true
failed is failed = true
_ is _ = false

-- `state_ == Failed || state_ == Closed`.
abbrev pub is_over : ConnectionState → Bool
is_over failed = true
is_over closed = true
is_over _ = false

-- Durations in milliseconds; a negative `keepalive_interval` counts as 0, which turns pings off too.
pub record ConnectionOptions : Type 0 where
  pub client_info : List ℕ
  pub expected_name : List ℕ
  pub login : Bool
  pub password : List ℕ
  pub connect_timeout : ℕ
  pub keepalive_interval : ℕ
  pub keepalive_timeout : ℕ

-- The versions are the message's 32-bit unsigned fields; the struct holds them cast to `int`.
pub record ServerHello : Type 0 where
  pub api_version_major : ℕ
  pub api_version_minor : ℕ
  pub server_info : List ℕ
  pub name : List ℕ

-- std::error_code, as far as the connection makes or forwards one.
pub data ErrorCode : Type 0 where
  success timed_out protocol permission_denied connection_aborted : ErrorCode
  system : ℕ → ErrorCode

-- The messages that the connection itself sends and reads; `other` stands for every other type.
pub data ProtoMessage : Type 0 where
  hello_request : List ℕ → ℕ → ℕ → ProtoMessage
  hello_response : ServerHello → ProtoMessage
  authentication_request : Option (List ℕ) → ProtoMessage
  authentication_response : Bool → ProtoMessage
  disconnect_request disconnect_response ping_request ping_response : ProtoMessage
  other : ℕ → List ℕ → ProtoMessage

-- The generated message classes: the registry and the codec of each class.
pub record Messages : Type 0 where
  pub create : ℕ → Bool
  pub parse_from_array : ℕ → List ℕ → Option ProtoMessage
  pub id_of : ProtoMessage → ℕ
  pub serialize : ProtoMessage → List ℕ
  pub message_id_max : ℕ

pub data Timer : Type 0 where
  connect_deadline ping_due pong_due : Timer

-- What the outside sees, in the order in which it happens (newest first in the log).
pub data Event : Type 0 where
  state_changed : ConnectionState → Event
  connect_done : ErrorCode → Event
  error_reported : ErrorCode → What → Event
  raw_frame : ℕ → List ℕ → Event
  dispatched : ℕ → ProtoMessage → Event
  dispatched_any : ProtoMessage → Event
  connect_requested : Event
  read_started : Event
  written : List ℕ → Event
  transport_closed : Event

-- Which of the user's handlers are installed. They observe: a handler that calls back into the
-- connection is an entry point of its own, taken after the one that called it.
pub record Handlers : Type 0 where
  pub on_message : ℕ → Bool
  pub any_handler : Bool
  pub raw_handler : Bool
  pub state_handler : Bool
  pub error_handler : Bool

pub record Connection (S : Type 0) : Type 0 where
  pub frames : S
  pub state : ConnectionState
  pub hello : ServerHello
  pub handlers : Handlers
  pub connect_handler : Bool
  pub last_error : Option Exception
  pub connect_timer : ℕ
  pub ping_timer : ℕ
  pub pong_timer : ℕ
  pub awaiting_pong : Bool
  pub next_timer : ℕ
  pub timers : List (ℕ × Timer)
  pub closing_writes : ℕ
  pub log : List Event

abbrev pub invalid_timer : ℕ
invalid_timer = 0

abbrev pub no_hello : ServerHello
no_hello = record { api_version_major = 0; api_version_minor = 0; server_info = []; name = [] }

abbrev pub no_handlers : Handlers
no_handlers = record {
  on_message = λ _. false;
  any_handler = false;
  raw_handler = false;
  state_handler = false;
  error_handler = false;
}

unfoldable pub new : {S : Type 0} → S → Connection S
new s = record {
  frames = s;
  state = disconnected;
  hello = no_hello;
  handlers = no_handlers;
  connect_handler = false;
  last_error = none;
  connect_timer = invalid_timer;
  ping_timer = invalid_timer;
  pong_timer = invalid_timer;
  awaiting_pong = false;
  next_timer = 1;
  timers = [];
  closing_writes = 0;
  log = [];
}
