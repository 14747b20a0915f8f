-- ===== src/Connection/Steps.antt =====
-- The entry points of `Connection`, and one step for each thing that can happen to it.
use cpp_esphome_api.Base.{
  ℕ, zero, suc, ◌+◌, ◌-◌, Bool, true, false, ◌||◌, none, some, List, [], ◌∷◌, leb, ◌==◌,
  if◌then◌else◌,
}
use cpp_esphome_api.Errors.{Exception, What, text, what, is_protocol_error, handshake_error}
use cpp_esphome_api.Frame.{FrameStatus, Round, status, ready, again, handshake_failed, FrameHelper}
use cpp_esphome_api.Frame
use cpp_esphome_api.Connection.State.{
  connecting, hello_sent, connected, closing, closed, ◌is◌, is_over, ConnectionOptions, ErrorCode,
  success, timed_out, protocol, ProtoMessage, disconnect_request, Messages, Timer, connect_deadline,
  ping_due, pong_due, connect_requested, read_started, written, transport_closed, Handlers,
  Connection, invalid_timer,
}
use cpp_esphome_api.Connection.Actions.{
  emit, without, schedule_after, set_state, cancel_connect, stop_keepalive, fail, send, send_hello,
  send_ping,
}
use cpp_esphome_api.Connection.Inbound.{handle_frame}

-- How the drain loop ends. `stuck` means that the fuel ran out.
pub data Drained (S : Type 0) : Type 0 where
  returns : Connection S → Drained S
  escapes : Exception → Connection S → Drained S
  stuck : Connection S → Drained S

abbrev pub after : {S : Type 0} → Drained S → Connection S
after (returns c) = c
after (escapes e c) = c
after (stuck c) = c

abbrev pub is_error : ErrorCode → Bool
is_error success = false
is_error _ = true

-- The calls of `on`, `on_any`, `on_raw`, `on_state` and `on_error`, with whether the handler is set.
pub data Setter : Type 0 where
  on : ℕ → Bool → Setter
  on_any on_raw on_state on_error : Bool → Setter

pub data Input : Type 0 where
  start_called : Input
  transport_connected : ErrorCode → Input
  bytes_read : List ℕ → Input
  read_failed : ErrorCode → Input
  timer_fired : ℕ → Input
  closing_written : Input
  disconnect_called : Input
  send_called : ProtoMessage → Input
  handler_set : Setter → Input

module _ (F : FrameHelper) (G : Messages) (o : ConnectionOptions) where
  -- With a callback for `on_done`: an empty one is not covered.
  unfoldable pub start : Connection F.State → Connection F.State
  start c =
      let d = set_state connecting (record c { connect_handler = true; last_error = none }) in
      emit connect_requested
        (record (schedule_after connect_deadline d) { connect_timer = d.next_timer })

  -- The handshake callbacks that `on_connected_transport` installs.
  unfoldable pub on_ready : Connection F.State → Connection F.State
  on_ready c = set_state hello_sent (send_hello F G o c)

  unfoldable pub on_handshake_error : What → Connection F.State → Connection F.State
  on_handshake_error w c = fail protocol w (record c { last_error = some (handshake_error w) })

  unfoldable pub send_initial : Connection F.State → Connection F.State
  send_initial c =
      let (s, initial) = F.connect_bytes c.frames in
      elim initial [
        | [] ↦ record c { frames = s }
        | b ∷ bs ↦ record c { frames = s; log = written (b ∷ bs) ∷ c.log }
      ]

  unfoldable pub on_connected_transport : ErrorCode → Connection F.State → Connection F.State
  on_connected_transport ec c =
      if is_error ec
      then fail ec (text "tcp connect failed" ∷ []) c
      else if F.needs_handshake
      then send_initial (emit read_started c)
      else on_ready (emit read_started c)

  -- One answer of the codec, and how the loop goes on.
  unfoldable pub after_round :
      (Connection F.State → Drained F.State) → Round → Connection F.State → Drained F.State
  after_round loop (status Frame.FrameStatus.need_more) c = returns c
  after_round loop (status (Frame.FrameStatus.throws e)) c = escapes e c
  after_round loop (status (Frame.FrameStatus.ok msg_type payload)) c =
      let d = handle_frame F G o msg_type payload c in
      elim (is_over d.state) [ true ↦ returns d | false ↦ loop d ]
  after_round loop ready c = loop (on_ready c)
  after_round loop again c = loop c
  after_round loop (handshake_failed w) c = loop (on_handshake_error w c)

  unfoldable pub drain_frames : ℕ → Connection F.State → Drained F.State
  drain_frames zero c = stuck c
  drain_frames (suc fuel) c =
      let (s, r) = F.round c.frames in after_round (drain_frames fuel) r (record c { frames = s })

  -- The `catch (const ProtocolError&)` of `on_bytes`; any other exception passes through.
  unfoldable pub caught : Drained F.State → Drained F.State
  caught (returns c) = returns c
  caught (escapes e c) =
      if is_protocol_error e
      then returns (fail protocol (what e) (record c { last_error = some e }))
      else escapes e c
  caught (stuck c) = stuck c

  unfoldable pub on_bytes : List ℕ → Connection F.State → Drained F.State
  on_bytes data_ c =
      let s = F.feed c.frames data_ in
      caught (drain_frames (suc (F.size s)) (record c { frames = s }))

  unfoldable pub on_read_error : ErrorCode → Connection F.State → Connection F.State
  on_read_error ec c =
      if (c.state is closing) || (c.state is closed) then c else fail ec (text "read failed" ∷ []) c

  unfoldable pub disconnect : Connection F.State → Connection F.State
  disconnect c =
      if (c.state is connected) || (c.state is hello_sent)
      then (let d = send F G disconnect_request (set_state closing (stop_keepalive c)) in
          record d { closing_writes = d.closing_writes + 1 })
      else c

  -- The completion of the write that `disconnect` queued.
  unfoldable pub on_closing_written : Connection F.State → Connection F.State
  on_closing_written c =
      if c.closing_writes == 0
      then c
      else set_state closed
          (emit transport_closed (record c { closing_writes = c.closing_writes - 1 }))

  unfoldable pub run_timer : Timer → Connection F.State → Connection F.State
  run_timer connect_deadline c =
      if c.state is connected then c else fail timed_out (text "handshake timed out" ∷ []) c
  run_timer ping_due c = send_ping F G o c
  run_timer pong_due c =
      let d = record c { pong_timer = invalid_timer } in
      if d.awaiting_pong then fail timed_out (text "keepalive pong timed out" ∷ []) d else d

  -- A timer that is pending fires and is gone.
  unfoldable pub fire : ℕ → List (ℕ × Timer) → Connection F.State → Connection F.State
  fire id [] c = c
  fire id ((i, t) ∷ ts) c =
      let rest = fire id ts c in
      if i == id then run_timer t (record c { timers = without id c.timers }) else rest

  unfoldable pub handlers_with : Setter → Handlers → Handlers
  handlers_with (on msg_type set) h =
      if leb msg_type G.message_id_max
      then record h { on_message = λ t. if t == msg_type then set else h.on_message t }
      else h
  handlers_with (on_any set) h = record h { any_handler = set }
  handlers_with (on_raw set) h = record h { raw_handler = set }
  handlers_with (on_state set) h = record h { state_handler = set }
  handlers_with (on_error set) h = record h { error_handler = set }

  -- ~Connection.
  unfoldable pub destroy : Connection F.State → Connection F.State
  destroy c = emit transport_closed (cancel_connect (stop_keepalive c))

  unfoldable pub step : Input → Connection F.State → Connection F.State
  step start_called c = start c
  step (transport_connected ec) c = on_connected_transport ec c
  step (bytes_read data_) c = after (on_bytes data_ c)
  step (read_failed ec) c = on_read_error ec c
  step (timer_fired id) c = fire id c.timers c
  step closing_written c = on_closing_written c
  step disconnect_called c = disconnect c
  step (send_called msg) c = send F G msg c
  step (handler_set h) c = record c { handlers = handlers_with h c.handlers }

  unfoldable pub run : List Input → Connection F.State → Connection F.State
  run [] c = c
  run (i ∷ inputs) c = run inputs (step i c)
