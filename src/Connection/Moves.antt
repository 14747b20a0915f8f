-- ===== src/Connection/Moves.antt =====
-- The rules of `Rules` from rules for the smallest changes that the connection makes to itself.
use cpp_esphome_api.Base.{
  ℕ, ◌≤◌, ◌≡◌, sym, ◌∙◌, inl, inr, Bool, true, false, Option, some, List, arith, if◌then◌else◌,
  Bool-cases,
}
use cpp_esphome_api.Errors.{Exception, What}
use cpp_esphome_api.Frame.{ready, FrameHelper}
use cpp_esphome_api.Connection.State.{
  ConnectionState, disconnected, connecting, closing, hello_sent, connected, closed, failed, ◌is◌,
  is_over, ConnectionOptions, ServerHello, ErrorCode, success, connection_aborted, ProtoMessage,
  hello_request, disconnect_response, ping_request, Messages, Timer, Event, error_reported, written,
  transport_closed, Handlers, Connection,
}
use cpp_esphome_api.Connection.Actions.{
  client_api_version_major, client_api_version_minor, emit, set_state, cancel_connect, cancel_ping,
  cancel_pong, stop_keepalive, finish_connect, report, fail, send, send_raw, send_hello,
  start_keepalive, send_ping, await_pong,
}
use cpp_esphome_api.Connection.Inbound.{accept_hello, on_disconnect_request}
use cpp_esphome_api.Connection.Steps.{on_ready}
use cpp_esphome_api.Connection.Rules.{is_sound, Rules, IsQuiet, close}

-- The actions on timers and handlers leave the state alone.
module _ {S : Type 0} where
  pub state-cancel_connect : (c : Connection S) → (cancel_connect c).state ≡ c.state
  unfolding cancel_connect
  state-cancel_connect c = ground arith

  pub state-cancel_ping : (c : Connection S) → (cancel_ping c).state ≡ c.state
  unfolding cancel_ping
  state-cancel_ping c = ground arith

  pub state-cancel_pong : (c : Connection S) → (cancel_pong c).state ≡ c.state
  unfolding cancel_pong
  state-cancel_pong c = ground arith

  pub state-stop_keepalive : (c : Connection S) → (stop_keepalive c).state ≡ c.state
  unfolding stop_keepalive
  state-stop_keepalive c = state-cancel_pong (cancel_ping c) ∙ state-cancel_ping c

  pub state-finish_connect :
      (ec : ErrorCode) (c : Connection S) → (finish_connect ec c).state ≡ c.state
  unfolding finish_connect
  state-finish_connect ec c = ground arith

  pub state-report :
      (b : Bool) (ec : ErrorCode) (w : What) (c : Connection S) → (report b ec w c).state ≡ c.state
  unfolding report
  state-report true ec w c = state-finish_connect ec c
  state-report false ec w c = ground arith

  pub state-set_state : (s : ConnectionState) (c : Connection S) → (set_state s c).state ≡ s
  unfolding set_state
  state-set_state s c = elim (Bool-cases (s is c.state)) [
    | inl e ↦ rw e (sym (is_sound s c.state e))
    | inr e ↦ rw e (ground arith)
  ]

-- How far a session has come: a failed one can still be closed, by the completion of the write that
-- `disconnect` queued.
unfoldable pub depth : ConnectionState → ℕ
depth disconnected = 0
depth connecting = 1
depth hello_sent = 2
depth connected = 3
depth closing = 4
depth failed = 5
depth closed = 6

pub depth_closed : (s : ConnectionState) → depth s ≤ depth closed
unfolding depth
depth_closed s = ground arith

depth_failed : (s : ConnectionState) → is_over s ≡ false → depth s ≤ depth failed
unfolding depth
depth_failed s e = ground arith

module _ (F : FrameHelper) where
  pub record Moves (R : Connection F.State → Connection F.State → Type 0) : Type 0 where
    pub same : (c : Connection F.State) → R c c
    pub then_ : {c d e : Connection F.State} → R c d → R d e → R c e
    pub logs : (e : Event) (c : Connection F.State) → IsQuiet e → R c (emit e c)
    pub encodes :
        (t : ℕ) (payload : List ℕ) (c : Connection F.State)
        → R c (record c { frames = (F.encode t payload c.frames).0 })
    pub ticks :
        (connect_id ping_id pong_id next : ℕ) (waits : Bool) (ts : List (ℕ × Timer))
        (c : Connection F.State)
        → R c (record c {
          connect_timer = connect_id;
          ping_timer = ping_id;
          pong_timer = pong_id;
          awaiting_pong = waits;
          next_timer = next;
          timers = ts;
        })
    pub greets : (h : ServerHello) (c : Connection F.State) → R c (record c { hello = h })
    pub notes : (e : Option Exception) (c : Connection F.State) → R c (record c { last_error = e })
    pub installs : (h : Handlers) (c : Connection F.State) → R c (record c { handlers = h })
    pub finishes : (ec : ErrorCode) (c : Connection F.State) → R c (finish_connect ec c)
    pub moves :
        (s : ConnectionState) (c : Connection F.State)
        → depth c.state ≤ depth s
        → R c (set_state s c)

  module _ {R : Connection F.State → Connection F.State → Type 0} (m : Moves R) where
    pub branch : (b : Bool) {c x y : Connection F.State} → R c x → R c y → R c (if b then x else y)
    branch true h k = h
    branch false h k = k

    pub cancel_connect-R : (c : Connection F.State) → R c (cancel_connect c)
    unfolding cancel_connect
    cancel_connect-R c = branch _ (m.same c) (m.ticks _ _ _ _ _ _ c)

    pub cancel_ping-R : (c : Connection F.State) → R c (cancel_ping c)
    unfolding cancel_ping
    cancel_ping-R c = branch _ (m.same c) (m.ticks _ _ _ _ _ _ c)

    pub cancel_pong-R : (c : Connection F.State) → R c (cancel_pong c)
    unfolding cancel_pong
    cancel_pong-R c = branch _ (m.same c) (m.ticks _ _ _ _ _ _ c)

    pub stop_keepalive-R : (c : Connection F.State) → R c (stop_keepalive c)
    unfolding stop_keepalive
    stop_keepalive-R c =
        m.then_ (cancel_ping-R c) (m.then_ (cancel_pong-R (cancel_ping c)) (m.ticks _ _ _ _ _ _ _))

    report-R :
        (b : Bool) (ec : ErrorCode) (w : What) (c : Connection F.State) → R c (report b ec w c)
    unfolding report
    report-R b ec w c =
        branch b (m.finishes ec c)
          (branch c.handlers.error_handler (m.logs (error_reported ec w) c tt) (m.same c))

    pub fail-R : (ec : ErrorCode) (w : What) (c : Connection F.State) → R c (fail ec w c)
    unfolding fail
    fail-R ec w c = elim (Bool-cases (is_over c.state)) [
      | inl e ↦ rw e (m.same c)
      | inr e ↦
          let k = stop_keepalive c in
          let d = emit transport_closed (cancel_connect k) in
          let s : d.state ≡ c.state = state-cancel_connect k ∙ state-stop_keepalive c in
          let le : depth d.state ≤ depth failed = rw s (depth_failed c.state e) in
          let kept : R c d =
            m.then_ (stop_keepalive-R c)
              (m.then_ (cancel_connect-R k) (m.logs transport_closed (cancel_connect k) tt)) in
          rw e (
            m.then_ kept (
              m.then_ (m.moves failed d le) (report-R d.connect_handler ec w (set_state failed d))))
    ]

    pub close-R : (c : Connection F.State) → R c (close c)
    close-R c = m.then_ (stop_keepalive-R c) (
        m.then_ (m.logs transport_closed (stop_keepalive c) tt)
          (m.moves closed (emit transport_closed (stop_keepalive c)) (depth_closed _)))

  module _ (G : Messages) {R : Connection F.State → Connection F.State → Type 0} (m : Moves R) where
    pub send_raw-R :
        (t : ℕ) (payload : List ℕ) (c : Connection F.State) → R c (send_raw F G t payload c)
    unfolding send_raw
    send_raw-R t payload c = m.then_ (m.encodes t payload c) (
        m.logs (written (F.encode t payload c.frames).1)
          (record c { frames = (F.encode t payload c.frames).0 }) tt)

    pub send-R : (msg : ProtoMessage) (c : Connection F.State) → R c (send F G msg c)
    unfolding send
    send-R msg c = send_raw-R (G.id_of msg) (G.serialize msg) c

    module _ (o : ConnectionOptions) where
      send_hello-R : (c : Connection F.State) → R c (send_hello F G o c)
      unfolding send_hello
      send_hello-R c =
          let hello =
            hello_request o.client_info client_api_version_major client_api_version_minor in
          m.then_ (send-R hello c)
            (branch m o.login (send-R _ (send F G hello c)) (m.same (send F G hello c)))

      pub on_ready-R :
          ((c : Connection F.State) → R c (set_state hello_sent c))
          → (c : Connection F.State) → R c (on_ready F G o c)
      unfolding on_ready
      on_ready-R h c = m.then_ (send_hello-R c) (h (send_hello F G o c))

      start_keepalive-R : (c : Connection F.State) → R c (start_keepalive F G o c)
      unfolding start_keepalive
      start_keepalive-R c = branch m _ (m.same c) (m.ticks _ _ _ _ _ _ c)

      await_pong-R : (c : Connection F.State) → R c (await_pong F G o c)
      unfolding await_pong
      await_pong-R c = branch m c.awaiting_pong (m.same c) (m.ticks _ _ _ _ _ _ c)

      pub send_ping-R : (c : Connection F.State) → R c (send_ping F G o c)
      unfolding send_ping
      send_ping-R c =
          let d = send F G ping_request c in
          branch m (c.state is connected)
            (m.then_ (send-R ping_request c) (m.then_ (await_pong-R d) (m.ticks _ _ _ _ _ _ _)))
            (m.same c)

      accept_hello-R : (c : Connection F.State) → c.state ≡ hello_sent → R c (accept_hello F G o c)
      unfolding accept_hello
      accept_hello-R c e =
          let le : depth (cancel_connect c).state ≤ depth connected =
            rw (state-cancel_connect c) (rw e (unfold depth in omega arith)) in
          m.then_ (cancel_connect-R m c) (
            m.then_ (m.moves connected (cancel_connect c) le) (
              m.then_ (start_keepalive-R (set_state connected (cancel_connect c)))
                (m.finishes success _)))

      on_disconnect_request-R : (c : Connection F.State) → R c (on_disconnect_request F G o c)
      unfolding on_disconnect_request
      on_disconnect_request-R c =
          m.then_ (send-R disconnect_response c)
            (m.then_ (close-R m (send F G disconnect_response c)) (m.finishes connection_aborted _))

      pub Moves-Rules :
          ((c : Connection F.State) (s : F.State) → (F.round s).1 ≡ ready → R c (on_ready F G o c))
          → Rules F G o R
      Moves-Rules readies = record {
        same = m.same;
        then_ = m.then_;
        logs = m.logs;
        sends = send-R;
        greets = m.greets;
        notes = λ e c. m.notes (some e) c;
        fails = fail-R m;
        accepts = accept_hello-R;
        closes = close-R m;
        obeys = on_disconnect_request-R;
        pongs = λ c.
            m.then_ (m.ticks _ _ _ _ _ _ c) (cancel_pong-R m (record c { awaiting_pong = false }));
        readies = readies;
      }
