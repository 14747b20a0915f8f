-- ===== src/Connection/Inbound.antt =====
-- What a received frame does: `handle_frame` and `handle_internal`.
use cpp_esphome_api.Base.{
  ℕ, Bool, true, false, ◌^◌, not, ◌&&◌, Option, none, some, List, [], ◌∷◌, ltb, leb, ◌==◌,
  if◌then◌else◌,
}
use cpp_esphome_api.Errors.{What, text, number, raw}
use cpp_esphome_api.Frame.{FrameHelper}
use cpp_esphome_api.Connection.State.{
  hello_sent, connected, closed, ◌is◌, is_over, ConnectionOptions, ServerHello, success, protocol,
  permission_denied, connection_aborted, ProtoMessage, hello_response, authentication_response,
  disconnect_request, disconnect_response, ping_request, ping_response, Messages, raw_frame,
  dispatched, dispatched_any, transport_closed, Connection,
}
use cpp_esphome_api.Connection.Actions.{
  emit, set_state, cancel_connect, cancel_pong, stop_keepalive, finish_connect, fail, send,
  start_keepalive,
}

abbrev pub same_bytes : List ℕ → List ℕ → Bool
same_bytes [] [] = true
same_bytes (x ∷ xs) (y ∷ ys) = (x == y) && same_bytes xs ys
same_bytes _ _ = false

abbrev pub is_empty : List ℕ → Bool
is_empty [] = true
is_empty (b ∷ bs) = false

module _ (F : FrameHelper) (G : Messages) (o : ConnectionOptions) where
  -- Why a HelloResponse is refused, if it is. The field is unsigned and is cast to `int`, so that from
  -- 2 ^ 31 on it is negative and passes the test.
  unfoldable pub hello_refused : ServerHello → Option What
  hello_refused h =
      if ltb 2 h.api_version_major && ltb h.api_version_major (2 ^ 31)
      then some (text "unsupported API major version " ∷ number h.api_version_major ∷ [])
      else if not (is_empty o.expected_name)
          && (not (is_empty h.name) && not (same_bytes h.name o.expected_name))
      then some (
          text "connected to '"
          ∷ raw h.name
          ∷ text "' but expected '"
          ∷ raw o.expected_name
          ∷ text "'"
          ∷ [])
      else none

  unfoldable pub accept_hello : Connection F.State → Connection F.State
  accept_hello c =
      finish_connect success (start_keepalive F G o (set_state connected (cancel_connect c)))

  unfoldable pub on_hello : ServerHello → Connection F.State → Connection F.State
  on_hello h c =
      if c.state is hello_sent
      then (elim (hello_refused h) [
        | some w ↦ fail protocol w (record c { hello = h })
        | none ↦ accept_hello (record c { hello = h })
      ])
      else c

  -- A DisconnectRequest is answered, then the session is closed.
  unfoldable pub on_disconnect_request : Connection F.State → Connection F.State
  on_disconnect_request c =
      finish_connect connection_aborted
        (set_state closed (emit transport_closed (stop_keepalive (send F G disconnect_response c))))

  unfoldable pub handle_internal : ProtoMessage → Connection F.State → Connection F.State
  handle_internal (hello_response h) c = on_hello h c
  handle_internal (authentication_response invalid_password) c =
      if invalid_password
      then fail permission_denied (text "authentication rejected: invalid password" ∷ []) c
      else c
  handle_internal disconnect_request c = on_disconnect_request c
  handle_internal disconnect_response c =
      set_state closed (emit transport_closed (stop_keepalive c))
  handle_internal ping_request c = send F G ping_response c
  handle_internal ping_response c = cancel_pong (record c { awaiting_pong = false })
  handle_internal _ c = c

  -- The user's handlers, for a message that left the connection open.
  unfoldable pub dispatch : ℕ → ProtoMessage → Connection F.State → Connection F.State
  dispatch msg_type msg c =
      let d =
        if leb msg_type G.message_id_max && c.handlers.on_message msg_type
        then emit (dispatched msg_type msg) c
        else c in
      if c.handlers.any_handler then emit (dispatched_any msg) d else d

  unfoldable pub handle_message : ℕ → ProtoMessage → Connection F.State → Connection F.State
  handle_message msg_type msg c =
      let d = handle_internal msg c in if is_over d.state then d else dispatch msg_type msg d

  unfoldable pub handle_frame : ℕ → List ℕ → Connection F.State → Connection F.State
  handle_frame msg_type payload c =
      let d = if c.handlers.raw_handler then emit (raw_frame msg_type payload) c else c in
      if G.create msg_type
      then (elim (G.parse_from_array msg_type payload) [
        | none ↦ fail protocol (text "failed to parse message payload" ∷ []) d
        | some msg ↦ handle_message msg_type msg d
      ])
      else d
