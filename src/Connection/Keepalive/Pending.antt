-- ===== src/Connection/Keepalive/Pending.antt =====
-- What the entry points of a session do to the timers that the executor holds for it.
use cpp_esphome_api.Base.{
  ℕ, ◌≡◌, refl, ◌∙◌, inl, inr, true, none, List, [], ◌∷◌, arith, ◌==◌, ◌||◌, tests, All, Bool-cases,
}
use cpp_esphome_api.Frame.{FrameHelper}
use cpp_esphome_api.Connection.State.{
  ConnectionState, connecting, hello_sent, connected, closing, closed, ◌is◌, ConnectionOptions,
  success, timed_out, connection_aborted, ProtoMessage, disconnect_request, disconnect_response,
  ping_request, Messages, Timer, connect_deadline, ping_due, pong_due, Connection, invalid_timer,
}
use cpp_esphome_api.Connection.Actions.{
  without, set_state, cancel_connect, stop_keepalive, send, send_raw, send_hello, send_ping,
  start_keepalive, await_pong,
}
use cpp_esphome_api.Connection.Inbound.{accept_hello, on_disconnect_request}
use cpp_esphome_api.Connection.Steps.{
  start, on_ready, disconnect, on_closing_written, run_timer, fire,
}
use cpp_esphome_api.Connection.Rules.{close}
use cpp_esphome_api.Connection.Keepalive.{either}
use cpp_esphome_api.Connection.Keepalive.Leaving.{kept-send_hello}
use cpp_esphome_api.Connection.Keepalive.Timers.{
  Owned, Timed, IsTimed, any_ping, any_pong, without-Owned, without_ping, without_pong,
  set_state-IsTimed, finish_connect-IsTimed, cancel_connect-IsTimed, stop_keepalive-IsTimed,
  fail-IsTimed, close-IsTimed, next_ping-IsTimed,
}

module _ (F : FrameHelper) (G : Messages) (o : ConnectionOptions) where
  pub send-IsTimed :
      (msg : ProtoMessage) (c : Connection F.State) → IsTimed c → IsTimed (send F G msg c)
  unfolding send send_raw
  send-IsTimed msg c t = t

  ping-set_state :
      (s : ConnectionState) (c : Connection F.State) → (set_state s c).ping_timer ≡ c.ping_timer
  unfolding set_state
  ping-set_state s c = ground arith

  ping-cancel_connect : (c : Connection F.State) → (cancel_connect c).ping_timer ≡ c.ping_timer
  unfolding cancel_connect
  ping-cancel_connect c = ground arith

  start_keepalive-IsTimed :
      (c : Connection F.State)
      → c.ping_timer ≡ invalid_timer
      → IsTimed c
      → IsTimed (start_keepalive F G o c)
  unfolding start_keepalive
  start_keepalive-IsTimed c e t =
      either IsTimed (o.keepalive_interval == 0) t (next_ping-IsTimed c (rw e at t))

  pub accept_hello-IsTimed :
      (c : Connection F.State)
      → c.ping_timer ≡ invalid_timer
      → IsTimed c
      → IsTimed (accept_hello F G o c)
  unfolding accept_hello
  accept_hello-IsTimed c e t =
      let d = set_state connected (cancel_connect c) in
      let k = set_state-IsTimed connected (cancel_connect c) (cancel_connect-IsTimed c t) in
      let p : d.ping_timer ≡ invalid_timer =
        ping-set_state connected (cancel_connect c) ∙ ping-cancel_connect c ∙ e in
      finish_connect-IsTimed success (start_keepalive F G o d) (start_keepalive-IsTimed d p k)

  pub obey-IsTimed : (c : Connection F.State) → IsTimed c → IsTimed (on_disconnect_request F G o c)
  unfolding on_disconnect_request
  obey-IsTimed c t =
      let d = send F G disconnect_response c in
      finish_connect-IsTimed connection_aborted (close d)
        (close-IsTimed d (send-IsTimed disconnect_response c t))

  pub on_ready-IsTimed : (c : Connection F.State) → IsTimed c → IsTimed (on_ready F G o c)
  unfolding on_ready
  on_ready-IsTimed c t =
      set_state-IsTimed hello_sent (send_hello F G o c)
        (kept-send_hello F G o IsTimed send-IsTimed c t)

  pub start-IsTimed : (c : Connection F.State) → IsTimed c → IsTimed (start F G o c)
  unfolding start
  start-IsTimed c t =
      let before = record c { connect_handler = true; last_error = none } in
      let d = set_state connecting before in
      let k = set_state-IsTimed connecting before t in
      record {
        held = record { owned = (k.held.next, k.held.owned); next = omega (arith, k.held.next) };
        waits = k.waits;
      }

  pub disconnect-IsTimed : (c : Connection F.State) → IsTimed c → IsTimed (disconnect F G o c)
  unfolding disconnect
  disconnect-IsTimed c t =
      let d = set_state closing (stop_keepalive c) in
      let k = set_state-IsTimed closing (stop_keepalive c) (stop_keepalive-IsTimed c t.held) in
      either IsTimed ((c.state is connected) || (c.state is hello_sent))
        (send-IsTimed disconnect_request d k) t

  pub written-IsTimed : (c : Connection F.State) → IsTimed c → IsTimed (on_closing_written F G o c)
  unfolding on_closing_written
  written-IsTimed c t = either IsTimed (c.closing_writes == 0) t (set_state-IsTimed closed _ t)

  -- A connection whose ping has just fired.
  abbrev Unpinged : Connection F.State → Type 0
  Unpinged c = Timed invalid_timer c.pong_timer c.next_timer c.timers c.awaiting_pong

  await_pong-Unpinged : (c : Connection F.State) → Unpinged c → Unpinged (await_pong F G o c)
  unfolding await_pong
  await_pong-Unpinged c t = elim t.waits [
    | inl w ↦ rw w (rw w at t)
    | inr off ↦ either Unpinged c.awaiting_pong t (record {
      held = record {
        owned = (
          (t.held.next, refl),
          any_pong invalid_timer c.next_timer c.timers (rw off at t.held.owned),
        );
        next = omega (arith, t.held.next);
      };
      waits = inl refl;
    })
  ]

  send_ping-IsTimed : (c : Connection F.State) → Unpinged c → IsTimed (send_ping F G o c)
  unfolding send_ping send send_raw
  send_ping-IsTimed c t =
      let d = await_pong F G o (send F G ping_request c) in
      either IsTimed (c.state is connected)
        (next_ping-IsTimed d (await_pong-Unpinged (send F G ping_request c) t))
        (record {
          held = record {
            owned = any_ping c.ping_timer c.pong_timer c.timers t.held.owned;
            next = t.held.next;
          };
          waits = t.waits;
        })

  -- A pending timer fires, and is gone.
  fired-IsTimed :
      (i : ℕ) (x : Timer) (c : Connection F.State)
      → Owned c.ping_timer c.pong_timer (i, x)
      → IsTimed c
      → IsTimed (run_timer F G o x (record c { timers = without i c.timers }))
  unfolding run_timer
  fired-IsTimed i connect_deadline c w t =
      let d = record c { timers = without i c.timers } in
      let k : IsTimed d = record {
        held = record {
          owned = without-Owned c.ping_timer c.pong_timer i c.timers t.held.owned;
          next = t.held.next;
        };
        waits = t.waits;
      } in
      either IsTimed (c.state is connected) k (fail-IsTimed timed_out _ d k)
  fired-IsTimed i ping_due c (le, e) t =
      send_ping-IsTimed (record c { timers = without i c.timers })
        (record {
          held = record {
            owned = rw e (without_ping c.ping_timer c.pong_timer c.timers t.held.owned);
            next = t.held.next;
          };
          waits = t.waits;
        })
  fired-IsTimed i pong_due c (le, e) t =
      let d = record c { timers = without i c.timers; pong_timer = invalid_timer } in
      let k : IsTimed d = record {
        held = record {
          owned = rw e (without_pong c.ping_timer c.pong_timer c.timers t.held.owned);
          next = t.held.next;
        };
        waits = inr refl;
      } in
      either IsTimed c.awaiting_pong (fail-IsTimed timed_out _ d k) k

  pub fire-IsTimed :
      (id : ℕ) (ts : List (ℕ × Timer)) (c : Connection F.State)
      → All (Owned c.ping_timer c.pong_timer) ts
      → IsTimed c
      → IsTimed (fire F G o id ts c)
  unfolding fire
  fire-IsTimed id [] c all t = t
  fire-IsTimed id ((i, x) ∷ ts) c (w, all) t = elim (Bool-cases (i == id)) [
    | inl e ↦
        let same : i ≡ id = grind (arith, tests) in rw e (rw same at (fired-IsTimed i x c w t))
    | inr e ↦ rw e (fire-IsTimed id ts c all t)
  ]
