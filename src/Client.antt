-- ===== src/Client.antt =====
-- include/esphome/api/client.hpp and src/client.cpp: the client of one device, over any codec. Its store and
-- its handlers take the messages that the connection hands to the handler of `on_any`, which touches nothing
-- of the connection: they are taken after the input that brought them. A handler is a name and only
-- observes.
pub mod Knows
pub mod Session
pub mod Delivery
pub mod Ports
pub mod Samples
pub mod Tests
pub mod EncryptedTests
use cpp_esphome_api.Base.{
  ℕ, ◌+◌, ◌%◌, ◌^◌, Bool, true, false, ◌⊎◌, inl, inr, Option, none, some, List, [], ◌∷◌, ◌++◌,
  length, drop, ◌==◌, if◌then◌else◌,
}
use cpp_esphome_api.Errors.{Exception, text, raw, api_error}
use cpp_esphome_api.Frame.{FrameHelper}
use cpp_esphome_api.Plaintext
use cpp_esphome_api.NoiseFrame.{NoiseConfig, NoiseFrameHelper, create}
use cpp_esphome_api.NoiseFrame.Helper.{noise_codec}
use cpp_esphome_api.Noise.Primitives.{Detail}
use cpp_esphome_api.Plaintext.Helper.{plaintext_codec}
use cpp_esphome_api.Connection.State.{ConnectionOptions, ProtoMessage, other, Messages, Connection}
use cpp_esphome_api.Connection.State
use cpp_esphome_api.Connection.Inbound.{same_bytes}
use cpp_esphome_api.Connection.Steps.{
  Input, send_called, disconnect_called, start_called, handlers_with,
}
use cpp_esphome_api.Connection.Steps
use cpp_esphome_api.Connection.Delivery.Log.{heard}
use cpp_esphome_api.EntityType.{EntityType}
use cpp_esphome_api.Entities.Classes
use cpp_esphome_api.EntityStore.{EntityStore, ingest}
use cpp_esphome_api.DeviceInfo.{
  DeviceInfoResponse, SerialProxyPortInfo, DeviceInfo, no_device_info, from_proto,
}

-- The casts of a message to its generated class: as the entity store knows it, and as the device's
-- description, which is read of a message with that id alone.
pub record Casts : Type 0 where
  pub to_entity : ProtoMessage → Classes.ProtoMessage
  pub to_device_info : ProtoMessage → DeviceInfoResponse

-- MessageId.
abbrev pub device_info_response : ℕ
device_info_response = 10

abbrev pub list_entities_request : ℕ
list_entities_request = 11

abbrev pub subscribe_states_request : ℕ
subscribe_states_request = 20

pub data Subsystem : Type 0 where
  bluetooth logs home_assistant voice zwave serial : Subsystem

-- `calls` holds the calls of the handlers of `on_any`, the first one first, `state_calls` those of the
-- store's callback.
pub record Client (S : Type 0) : Type 0 where
  pub connection : Connection S
  pub store : EntityStore
  pub device_info : DeviceInfo
  pub device_info_loaded : Bool
  pub any_handlers : List ℕ
  pub created : Subsystem → Bool
  pub calls : List (ℕ × ProtoMessage)
  pub state_calls : List (EntityType × ℕ)

unfoldable pub call_all : {S : Type 0} → ProtoMessage → List ℕ → Client S → Client S
call_all msg [] c = c
call_all msg (h ∷ hs) c = call_all msg hs (record c { calls = c.calls ++ ((h, msg) ∷ []) })

unfoldable pub take_in :
    {S : Type 0} → EntityStore × Bool × Option (EntityType × ℕ) → Client S → Client S
take_in (s, known, none) c = record c { store = s }
take_in (s, known, some call) c = record c { store = s; state_calls = c.state_calls ++ (call ∷ []) }

unfoldable pub learn : {S : Type 0} → Messages → Casts → ProtoMessage → Client S → Client S
learn G V msg c =
    if G.id_of msg == device_info_response
    then record c { device_info = from_proto (V.to_device_info msg); device_info_loaded = true }
    else c

-- The handler that the constructor gives to the connection.
unfoldable pub fan_out : {S : Type 0} → Messages → Casts → ProtoMessage → Client S → Client S
fan_out G V msg c =
    let d = learn G V msg (take_in (ingest (V.to_entity msg) c.store) c) in
    call_all msg d.any_handlers d

unfoldable pub deliver : {S : Type 0} → Messages → Casts → List ProtoMessage → Client S → Client S
deliver G V [] c = c
deliver G V (msg ∷ msgs) c = deliver G V msgs (fan_out G V msg c)

-- A codec in its first state, or what its making throws.
pub data Made : Type 1 where
  made : (F : FrameHelper) → F.State → Made
  refused : Exception → Made

noise_made : (P : Detail) → List ℕ → Exception ⊎ NoiseFrameHelper → Made
noise_made P fresh (inl e) = refused e
noise_made P fresh (inr h) = made (noise_codec P fresh) h

-- `fresh` is the ephemeral key that the handshake will draw, `has_noise` the build's option.
unfoldable pub make_frame_helper : Detail → List ℕ → Bool → NoiseConfig → Made
unfolding noise_made
make_frame_helper P fresh has_noise config = elim config.psk_base64 [
  | [] ↦ made plaintext_codec Plaintext.new
  | b ∷ bs ↦
      if has_noise
      then noise_made P fresh (create P config)
      else refused (
          api_error (
            text
              "a Noise PSK was provided but the library was built without Noise support (ESPHOME_API_WITH_NOISE=OFF)"
            ∷ []))
]

module _ (F : FrameHelper) (G : Messages) (V : Casts) (o : ConnectionOptions) where
  -- The constructor, with the codec in its first state.
  unfoldable pub new : F.State → Client F.State
  new s =
      let c = State.new s in
      record {
        connection = record c { handlers = handlers_with F G o (Steps.on_any true) c.handlers };
        store = record { entities = []; state_cb = false };
        device_info = no_device_info;
        device_info_loaded = false;
        any_handlers = [];
        created = λ _. false;
        calls = [];
        state_calls = [];
      }

  -- What happens to the connection, and the messages that it hands on.
  unfoldable pub step : Input → Client F.State → Client F.State
  step i c =
      let d = Steps.step F G o i c.connection in
      deliver G V (drop (length (heard c.connection.log)) (heard d.log))
        (record c { connection = d })

  unfoldable pub run : List Input → Client F.State → Client F.State
  run [] c = c
  run (i ∷ inputs) c = run inputs (step i c)

  unfoldable pub async_connect : Client F.State → Client F.State
  async_connect c = step start_called c

  unfoldable pub disconnect : Client F.State → Client F.State
  disconnect c = step disconnect_called c

  unfoldable pub send : ProtoMessage → Client F.State → Client F.State
  send msg c = step (send_called msg) c

  unfoldable pub request_entity_list : Client F.State → Client F.State
  request_entity_list c = send (other list_entities_request []) c

  unfoldable pub subscribe_to_states : Client F.State → Client F.State
  subscribe_to_states c = send (other subscribe_states_request []) c

unfoldable pub same_subsystem : Subsystem → Subsystem → Bool
same_subsystem bluetooth bluetooth = true
same_subsystem logs logs = true
same_subsystem home_assistant home_assistant = true
same_subsystem voice voice = true
same_subsystem zwave zwave = true
same_subsystem serial serial = true
same_subsystem _ _ = false

-- The loop over the ports; `i` is its counter.
unfoldable pub port_named : List ℕ → ℕ → List SerialProxyPortInfo → Option ℕ
port_named name i [] = none
port_named name i (p ∷ ports) =
    let later = port_named name (i + 1) ports in if same_bytes p.name name then some i else later

module _ {S : Type 0} where
  unfoldable pub on_any : ℕ → Client S → Client S
  on_any h c = record c { any_handlers = c.any_handlers ++ (h ∷ []) }

  -- The six accessors, which differ in the class alone.
  unfoldable pub subsystem : Subsystem → Client S → Client S
  subsystem x c =
      if c.created x
      then c
      else record c { created = λ y. if same_subsystem x y then true else c.created y }

  -- The port's handle is its instance.
  unfoldable pub serial_proxy_named : List ℕ → Client S → Client S × (Exception ⊎ ℕ)
  serial_proxy_named name c =
      if c.device_info_loaded
      then (elim (port_named name 0 c.device_info.serial_proxies) [
        | some i ↦ (subsystem serial c, inr (i % 2 ^ 32))
        | none ↦ (c, inl (api_error (text "no serial proxy named '" ∷ raw name ∷ text "'" ∷ [])))
      ])
      else (
        c,
        inl (
            api_error (
              text "serial_proxy(\""
              ∷ raw name
              ∷ text "\"): device info not received yet — call device_info() first"
              ∷ [])),
      )
