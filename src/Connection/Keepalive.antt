-- ===== src/Connection/Keepalive.antt =====
-- What holds between two entry points: no connect is pending once a session is connected or has
-- failed, and unless it is connected it holds no id of a keepalive timer. Timers, Pending and Silence are
-- about the timers themselves, as the executor holds them.
pub mod Timers
pub mod Leaving
pub mod Run
pub mod Pending
pub mod Silence
use cpp_esphome_api.Base.{
  ◌≡◌, refl, sym, ◌∙◌, inl, inr, Bool, true, false, ◌||◌, some, arith, ◌==◌, if◌then◌else◌, tests,
  Bool-cases,
}
use cpp_esphome_api.Errors.{What}
use cpp_esphome_api.Frame.{ready, FrameHelper}
use cpp_esphome_api.Connection.State.{
  ConnectionState, connected, closed, failed, ◌is◌, is_over, ConnectionOptions, ErrorCode, success,
  connection_aborted, ProtoMessage, disconnect_response, Messages, transport_closed, Connection,
  invalid_timer,
}
use cpp_esphome_api.Connection.Actions.{
  emit, set_state, cancel_connect, cancel_ping, cancel_pong, stop_keepalive, finish_connect, report,
  fail, send, send_raw, start_keepalive,
}
use cpp_esphome_api.Connection.Inbound.{accept_hello, on_disconnect_request}
use cpp_esphome_api.Connection.Steps.{on_ready}
use cpp_esphome_api.Connection.Rules.{Rules, close}
use cpp_esphome_api.Connection.Moves.{state-set_state, state-finish_connect}

-- `stop_keepalive` has run.
pub record IsIdle {S : Type 0} (c : Connection S) : Type 0 where
  pub no_ping : c.ping_timer ≡ invalid_timer
  pub no_pong : c.pong_timer ≡ invalid_timer
  pub no_wait : c.awaiting_pong ≡ false

pub record IsSound {S : Type 0} (c : Connection S) : Type 0 where
  pub settled : ((c.state is connected) || (c.state is failed)) ≡ true → c.connect_handler ≡ false
  pub idle : (c.state is connected) ≡ false → IsIdle c

abbrev Preserves : {S : Type 0} → Connection S → Connection S → Type 0
Preserves c d = IsSound c → IsSound d

module _ {S : Type 0} where
  either :
      (P : Connection S → Type 0) (b : Bool) {x y : Connection S}
      → P x
      → P y
      → P (if b then x else y)
  either P true h k = h
  either P false h k = k

  -- Any change that leaves the three fields alone.
  IsIdle-kept :
      (c d : Connection S)
      → IsIdle c
      → d.ping_timer ≡ c.ping_timer
      → d.pong_timer ≡ c.pong_timer
      → d.awaiting_pong ≡ c.awaiting_pong
      → IsIdle d
  IsIdle-kept c d h p q w = record {
    no_ping = p ∙ h.no_ping;
    no_pong = q ∙ h.no_pong;
    no_wait = w ∙ h.no_wait;
  }

  IsIdle-set_state : (s : ConnectionState) (c : Connection S) → IsIdle c → IsIdle (set_state s c)
  unfolding set_state
  IsIdle-set_state s c h =
      IsIdle-kept c (set_state s c) h (ground arith) (ground arith) (ground arith)

  IsIdle-cancel_connect : (c : Connection S) → IsIdle c → IsIdle (cancel_connect c)
  unfolding cancel_connect
  IsIdle-cancel_connect c h =
      IsIdle-kept c (cancel_connect c) h (ground arith) (ground arith) (ground arith)

  IsIdle-finish_connect :
      (ec : ErrorCode) (c : Connection S) → IsIdle c → IsIdle (finish_connect ec c)
  unfolding finish_connect
  IsIdle-finish_connect ec c h =
      IsIdle-kept c (finish_connect ec c) h (ground arith) (ground arith) (ground arith)

  IsIdle-report :
      (b : Bool) (ec : ErrorCode) (w : What) (c : Connection S)
      → IsIdle c
      → IsIdle (report b ec w c)
  unfolding report
  IsIdle-report true ec w c h = IsIdle-finish_connect ec c h
  IsIdle-report false ec w c h =
      IsIdle-kept c (report false ec w c) h (ground arith) (ground arith) (ground arith)

  ping-cancel_ping : (c : Connection S) → (cancel_ping c).ping_timer ≡ invalid_timer
  unfolding cancel_ping
  ping-cancel_ping c = elim (Bool-cases (c.ping_timer == invalid_timer)) [
    | inl e ↦ rw e (grind (arith, tests))
    | inr e ↦ rw e refl
  ]

  pong-cancel_pong : (c : Connection S) → (cancel_pong c).pong_timer ≡ invalid_timer
  unfolding cancel_pong
  pong-cancel_pong c = elim (Bool-cases (c.pong_timer == invalid_timer)) [
    | inl e ↦ rw e (grind (arith, tests))
    | inr e ↦ rw e refl
  ]

  ping-cancel_pong : (c : Connection S) → (cancel_pong c).ping_timer ≡ c.ping_timer
  unfolding cancel_pong
  ping-cancel_pong c = ground arith

  stop_keepalive-IsIdle : (c : Connection S) → IsIdle (stop_keepalive c)
  unfolding stop_keepalive
  stop_keepalive-IsIdle c = record {
    no_ping = ping-cancel_pong (cancel_ping c) ∙ ping-cancel_ping c;
    no_pong = pong-cancel_pong (cancel_ping c);
    no_wait = refl;
  }

  handler-finish_connect :
      (ec : ErrorCode) (c : Connection S) → (finish_connect ec c).connect_handler ≡ false
  unfolding finish_connect
  handler-finish_connect ec c = ground arith

  handler-set_state :
      (s : ConnectionState) (c : Connection S) → (set_state s c).connect_handler ≡ c.connect_handler
  unfolding set_state
  handler-set_state s c = ground arith

  handler-report :
      (b : Bool) (ec : ErrorCode) (w : What) (c : Connection S)
      → c.connect_handler ≡ b
      → (report b ec w c).connect_handler ≡ false
  unfolding report
  handler-report true ec w c e = handler-finish_connect ec c
  handler-report false ec w c e = ground arith

  fail-IsSound : (ec : ErrorCode) (w : What) (c : Connection S) → IsSound c → IsSound (fail ec w c)
  unfolding fail
  fail-IsSound ec w c h =
      let d = emit transport_closed (cancel_connect (stop_keepalive c)) in
      let quiet = IsIdle-cancel_connect (stop_keepalive c) (stop_keepalive-IsIdle c) in
      let idle = IsIdle-kept (cancel_connect (stop_keepalive c)) d quiet refl refl refl in
      either IsSound (is_over c.state) h (record {
        settled = λ e.
            handler-report d.connect_handler ec w (set_state failed d) (handler-set_state failed d);
        idle = λ e.
            IsIdle-report d.connect_handler ec w (set_state failed d)
              (IsIdle-set_state failed d idle);
      })

  -- Any change that leaves all five fields alone.
  IsSound-kept :
      (c d : Connection S)
      → IsSound c
      → d.state ≡ c.state
      → d.connect_handler ≡ c.connect_handler
      → d.ping_timer ≡ c.ping_timer
      → d.pong_timer ≡ c.pong_timer
      → d.awaiting_pong ≡ c.awaiting_pong
      → IsSound d
  IsSound-kept c d h s f p q w = record {
    settled = λ k. f ∙ h.settled (rw (sym s) k);
    idle = λ k. IsIdle-kept c d (h.idle (rw (sym s) k)) p q w;
  }

  -- A session that is neither connected nor failed owes nothing but idle timers.
  IsSound-passive :
      (s : ConnectionState) (c : Connection S)
      → ((s is connected) || (s is failed)) ≡ false
      → IsIdle c
      → IsSound (set_state s c)
  IsSound-passive s c e h = record {
    settled = λ k.
        let d = set_state s c in
        let off : ((d.state is connected) || (d.state is failed)) ≡ false =
          rw (state-set_state s c) e in
        ground arith;
    idle = λ k. IsIdle-set_state s c h;
  }

  close-IsSound : (c : Connection S) → IsSound (close c)
  close-IsSound c =
      let d = emit transport_closed (stop_keepalive c) in
      IsSound-passive closed d refl
        (IsIdle-kept (stop_keepalive c) d (stop_keepalive-IsIdle c) refl refl refl)

  IsSound-finish_connect :
      (ec : ErrorCode) (c : Connection S) → IsSound c → IsSound (finish_connect ec c)
  IsSound-finish_connect ec c h = record {
    settled = λ k. handler-finish_connect ec c;
    idle = λ k. IsIdle-finish_connect ec c (h.idle (rw (sym (state-finish_connect ec c)) k));
  }

  -- Whatever is said of the timers, a session is sound once it is connected and its connect done.
  IsSound-connected :
      (c : Connection S) → c.state ≡ connected → c.connect_handler ≡ false → IsSound c
  IsSound-connected c e f = record { settled = λ k. f; idle = λ k. ground arith }

  cancel_pong-IsSound :
      (c : Connection S) → IsSound c → IsSound (cancel_pong (record c { awaiting_pong = false }))
  unfolding cancel_pong
  cancel_pong-IsSound c h =
      either IsSound (c.pong_timer == invalid_timer)
        (record {
          settled = h.settled;
          idle = λ k. record {
            no_ping = (h.idle k).no_ping;
            no_pong = (h.idle k).no_pong;
            no_wait = refl;
          };
        })
        (record {
          settled = h.settled;
          idle = λ k. record { no_ping = (h.idle k).no_ping; no_pong = refl; no_wait = refl };
        })

module _ (F : FrameHelper) (G : Messages) (o : ConnectionOptions) where
  send-IsSound :
      (msg : ProtoMessage) (c : Connection F.State) → IsSound c → IsSound (send F G msg c)
  unfolding send send_raw
  send-IsSound msg c h = IsSound-kept c (send F G msg c) h refl refl refl refl refl

  state-start_keepalive : (c : Connection F.State) → (start_keepalive F G o c).state ≡ c.state
  unfolding start_keepalive
  state-start_keepalive c = ground arith

  accept_hello-IsSound : (c : Connection F.State) → IsSound (accept_hello F G o c)
  unfolding accept_hello
  accept_hello-IsSound c =
      let d = start_keepalive F G o (set_state connected (cancel_connect c)) in
      let e : d.state ≡ connected =
        state-start_keepalive _ ∙ state-set_state connected (cancel_connect c) in
      IsSound-connected (finish_connect success d) (state-finish_connect success d ∙ e)
        (handler-finish_connect success d)

  obey-IsSound : (c : Connection F.State) → IsSound (on_disconnect_request F G o c)
  unfolding on_disconnect_request
  obey-IsSound c =
      IsSound-finish_connect connection_aborted _ (close-IsSound (send F G disconnect_response c))

  Preserves-Rules :
      ((c : Connection F.State) (s : F.State)
        → (F.round s).1 ≡ ready
        → Preserves c (on_ready F G o c))
      → Rules F G o Preserves
  Preserves-Rules readies = record {
    same = λ c h. h;
    then_ = λ p q h. q (p h);
    logs = λ e c q h. IsSound-kept c (emit e c) h refl refl refl refl refl;
    sends = send-IsSound;
    greets = λ x c h. IsSound-kept c (record c { hello = x }) h refl refl refl refl refl;
    notes = λ x c h. IsSound-kept c (record c { last_error = some x }) h refl refl refl refl refl;
    fails = fail-IsSound;
    accepts = λ c e h. accept_hello-IsSound c;
    closes = λ c h. close-IsSound c;
    obeys = λ c h. obey-IsSound c;
    pongs = cancel_pong-IsSound;
    readies = readies;
  }
