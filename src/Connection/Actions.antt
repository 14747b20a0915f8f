-- ===== src/Connection/Actions.antt =====
-- The private helpers of `Connection` that change its state.
use cpp_esphome_api.Base.{ℕ, ◌+◌, Bool, true, false, none, some, List, [], ◌∷◌, ◌==◌, if◌then◌else◌}
use cpp_esphome_api.Errors.{What}
use cpp_esphome_api.Frame.{FrameHelper}
use cpp_esphome_api.Connection.State.{
  ConnectionState, connected, failed, ◌is◌, is_over, ConnectionOptions, ErrorCode, ProtoMessage,
  hello_request, authentication_request, ping_request, Messages, Timer, ping_due, pong_due, Event,
  state_changed, connect_done, error_reported, written, transport_closed, Connection, invalid_timer,
}

abbrev pub client_api_version_major : ℕ
client_api_version_major = 1

abbrev pub client_api_version_minor : ℕ
client_api_version_minor = 14

abbrev pub emit : {S : Type 0} → Event → Connection S → Connection S
emit e c = record c { log = e ∷ c.log }

-- Executor::cancel and Executor::schedule_after.
unfoldable pub without : ℕ → List (ℕ × Timer) → List (ℕ × Timer)
without id [] = []
without id ((i, t) ∷ ts) = let rest = without id ts in if i == id then rest else (i, t) ∷ rest

module _ {S : Type 0} where
  abbrev pub cancel : ℕ → Connection S → Connection S
  cancel id c = record c { timers = without id c.timers }

  abbrev pub schedule_after : Timer → Connection S → Connection S
  schedule_after t c = record c {
    timers = (c.next_timer, t) ∷ c.timers;
    next_timer = c.next_timer + 1;
  }

  unfoldable pub set_state : ConnectionState → Connection S → Connection S
  set_state s c =
      if s is c.state
      then c
      else if c.handlers.state_handler
      then record c { state = s; log = state_changed s ∷ c.log }
      else record c { state = s }

  unfoldable pub cancel_connect : Connection S → Connection S
  cancel_connect c =
      if c.connect_timer == invalid_timer
      then c
      else record c { timers = without c.connect_timer c.timers; connect_timer = invalid_timer }

  unfoldable pub cancel_ping : Connection S → Connection S
  cancel_ping c =
      if c.ping_timer == invalid_timer
      then c
      else record c { timers = without c.ping_timer c.timers; ping_timer = invalid_timer }

  unfoldable pub cancel_pong : Connection S → Connection S
  cancel_pong c =
      if c.pong_timer == invalid_timer
      then c
      else record c { timers = without c.pong_timer c.timers; pong_timer = invalid_timer }

  unfoldable pub stop_keepalive : Connection S → Connection S
  stop_keepalive c = let d = cancel_pong (cancel_ping c) in record d { awaiting_pong = false }

  unfoldable pub finish_connect : ErrorCode → Connection S → Connection S
  finish_connect ec c =
      if c.connect_handler
      then record c { connect_handler = false; log = connect_done ec ∷ c.log }
      else c

  -- The reports at the end of `fail`, by whether a connect was pending before the state changed.
  unfoldable pub report : Bool → ErrorCode → What → Connection S → Connection S
  report was_connecting ec what c =
      if was_connecting
      then finish_connect ec c
      else if c.handlers.error_handler
      then record c { log = error_reported ec what ∷ c.log }
      else c

  unfoldable pub fail : ErrorCode → What → Connection S → Connection S
  fail ec what c =
      if is_over c.state
      then c
      else (let d = emit transport_closed (cancel_connect (stop_keepalive c)) in
          report d.connect_handler ec what (set_state failed d))

module _ (F : FrameHelper) (G : Messages) where
  unfoldable pub send_raw : ℕ → List ℕ → Connection F.State → Connection F.State
  send_raw msg_type payload c =
      let (s, wire) = F.encode msg_type payload c.frames in
      record c { frames = s; log = written wire ∷ c.log }

  unfoldable pub send : ProtoMessage → Connection F.State → Connection F.State
  send msg = send_raw (G.id_of msg) (G.serialize msg)

  module _ (o : ConnectionOptions) where
    unfoldable pub send_hello : Connection F.State → Connection F.State
    send_hello c =
        let d =
          send (hello_request o.client_info client_api_version_major client_api_version_minor) c in
        if o.login
        then send (authentication_request (elim o.password [ [] ↦ none | b ∷ bs ↦ some (b ∷ bs) ]))
            d
        else d

    unfoldable pub start_keepalive : Connection F.State → Connection F.State
    start_keepalive c =
        if o.keepalive_interval == 0
        then c
        else record (schedule_after ping_due c) { ping_timer = c.next_timer }

    unfoldable pub await_pong : Connection F.State → Connection F.State
    await_pong c =
        if c.awaiting_pong
        then c
        else record (schedule_after pong_due c) { awaiting_pong = true; pong_timer = c.next_timer }

    unfoldable pub send_ping : Connection F.State → Connection F.State
    send_ping c =
        if c.state is connected
        then (let d = await_pong (send ping_request c) in
            record (schedule_after ping_due d) { ping_timer = d.next_timer })
        else c
