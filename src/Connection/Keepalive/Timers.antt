-- ===== src/Connection/Keepalive/Timers.antt =====
-- The timers that the executor holds for a session, and what each change does to them.
use cpp_esphome_api.Base.{
  ℕ, ◌≤◌, ◌≡◌, refl, ◌⊎◌, inl, inr, Bool, true, List, [], ◌∷◌, arith, ◌==◌, All, Bool-cases,
}
use cpp_esphome_api.Errors.{What}
use cpp_esphome_api.Connection.State.{
  ConnectionState, closed, failed, ◌is◌, is_over, ErrorCode, Timer, connect_deadline, ping_due,
  pong_due, transport_closed, Connection, invalid_timer,
}
use cpp_esphome_api.Connection.Actions.{
  emit, without, set_state, cancel_connect, cancel_ping, cancel_pong, stop_keepalive,
  finish_connect, report, fail, schedule_after,
}
use cpp_esphome_api.Connection.Rules.{close}
use cpp_esphome_api.Connection.Keepalive.{either, pong-cancel_pong}

-- A pending timer has an id of its own kind: a ping is the connection's ping, a pong its pong.
abbrev pub Owned : ℕ → ℕ → ℕ × Timer → Type 0
Owned ping pong (i, connect_deadline) = 1 ≤ i
Owned ping pong (i, ping_due) = (1 ≤ i) × (i ≡ ping)
Owned ping pong (i, pong_due) = (1 ≤ i) × (i ≡ pong)

-- No pending timer is one of the keepalive.
abbrev pub IsQuiet : List (ℕ × Timer) → Type 0
IsQuiet [] = Unit {0}
IsQuiet ((i, connect_deadline) ∷ ts) = IsQuiet ts
IsQuiet ((i, ping_due) ∷ ts) = ⊥
IsQuiet ((i, pong_due) ∷ ts) = ⊥

Owned-IsQuiet : (ts : List (ℕ × Timer)) → All (Owned invalid_timer invalid_timer) ts → IsQuiet ts
Owned-IsQuiet [] h = tt
Owned-IsQuiet ((i, connect_deadline) ∷ ts) (le, h) = Owned-IsQuiet ts h
Owned-IsQuiet ((i, ping_due) ∷ ts) ((le, e), h) = absurd (omega arith)
Owned-IsQuiet ((i, pong_due) ∷ ts) ((le, e), h) = absurd (omega arith)

-- Where there is no ping, any number may be the ping's; where there is no pong, the pong's.
pub any_ping :
    (p q : ℕ) (ts : List (ℕ × Timer)) → All (Owned invalid_timer q) ts → All (Owned p q) ts
any_ping p q [] h = tt
any_ping p q ((i, connect_deadline) ∷ ts) (le, h) = (le, any_ping p q ts h)
any_ping p q ((i, ping_due) ∷ ts) ((le, e), h) = absurd (omega arith)
any_ping p q ((i, pong_due) ∷ ts) (le, h) = (le, any_ping p q ts h)

pub any_pong :
    (p q : ℕ) (ts : List (ℕ × Timer)) → All (Owned p invalid_timer) ts → All (Owned p q) ts
any_pong p q [] h = tt
any_pong p q ((i, connect_deadline) ∷ ts) (le, h) = (le, any_pong p q ts h)
any_pong p q ((i, ping_due) ∷ ts) (le, h) = (le, any_pong p q ts h)
any_pong p q ((i, pong_due) ∷ ts) ((le, e), h) = absurd (omega arith)

-- What `Executor::cancel` leaves is as it was; without the ping no ping is left, without the pong no pong.
pub without-Owned :
    (p q id : ℕ) (ts : List (ℕ × Timer)) → All (Owned p q) ts → All (Owned p q) (without id ts)
unfolding without
without-Owned p q id [] h = tt
without-Owned p q id ((i, t) ∷ ts) (x, h) = elim (Bool-cases (i == id)) [
  | inl e ↦ rw e (without-Owned p q id ts h)
  | inr e ↦ rw e (x, without-Owned p q id ts h)
]

pub without_ping :
    (p q : ℕ) (ts : List (ℕ × Timer))
    → All (Owned p q) ts
    → All (Owned invalid_timer q) (without p ts)
unfolding without
without_ping p q [] h = tt
without_ping p q ((i, connect_deadline) ∷ ts) (x, h) = elim (Bool-cases (i == p)) [
  | inl e ↦ rw e (without_ping p q ts h)
  | inr e ↦ rw e (x, without_ping p q ts h)
]
without_ping p q ((i, ping_due) ∷ ts) ((le, x), h) =
    let e : (i == p) ≡ true = ground arith in rw e (without_ping p q ts h)
without_ping p q ((i, pong_due) ∷ ts) (x, h) = elim (Bool-cases (i == p)) [
  | inl e ↦ rw e (without_ping p q ts h)
  | inr e ↦ rw e (x, without_ping p q ts h)
]

pub without_pong :
    (p q : ℕ) (ts : List (ℕ × Timer))
    → All (Owned p q) ts
    → All (Owned p invalid_timer) (without q ts)
unfolding without
without_pong p q [] h = tt
without_pong p q ((i, connect_deadline) ∷ ts) (x, h) = elim (Bool-cases (i == q)) [
  | inl e ↦ rw e (without_pong p q ts h)
  | inr e ↦ rw e (x, without_pong p q ts h)
]
without_pong p q ((i, ping_due) ∷ ts) (x, h) = elim (Bool-cases (i == q)) [
  | inl e ↦ rw e (without_pong p q ts h)
  | inr e ↦ rw e (x, without_pong p q ts h)
]
without_pong p q ((i, pong_due) ∷ ts) ((le, x), h) =
    let e : (i == q) ≡ true = ground arith in rw e (without_pong p q ts h)

pub record Held (ping pong next_timer : ℕ) (timers : List (ℕ × Timer)) : Type 0 where
  pub owned : All (Owned ping pong) timers
  pub next : 1 ≤ next_timer

-- A pong that is not awaited has no timer.
pub record Timed (ping pong next_timer : ℕ) (timers : List (ℕ × Timer)) (waiting : Bool)
    : Type 0 where
  pub held : Held ping pong next_timer timers
  pub waits : (waiting ≡ true) ⊎ (pong ≡ invalid_timer)

abbrev pub IsHeld : {S : Type 0} → Connection S → Type 0
IsHeld c = Held c.ping_timer c.pong_timer c.next_timer c.timers

abbrev pub IsTimed : {S : Type 0} → Connection S → Type 0
IsTimed c = Timed c.ping_timer c.pong_timer c.next_timer c.timers c.awaiting_pong

-- With no ping and no pong, none is pending.
pub Timed-IsQuiet :
    {S : Type 0} (c : Connection S)
    → IsTimed c
    → c.ping_timer ≡ invalid_timer
    → c.pong_timer ≡ invalid_timer
    → IsQuiet c.timers
Timed-IsQuiet c t p q = Owned-IsQuiet c.timers (rw (p, q) at t.held.owned)

module _ {S : Type 0} where
  pub set_state-IsTimed :
      (s : ConnectionState) (c : Connection S) → IsTimed c → IsTimed (set_state s c)
  unfolding set_state
  set_state-IsTimed s c t =
      either IsTimed (s is c.state) t (either IsTimed c.handlers.state_handler t t)

  pub finish_connect-IsTimed :
      (ec : ErrorCode) (c : Connection S) → IsTimed c → IsTimed (finish_connect ec c)
  unfolding finish_connect
  finish_connect-IsTimed ec c t = either IsTimed c.connect_handler t t

  report-IsTimed :
      (b : Bool) (ec : ErrorCode) (w : What) (c : Connection S)
      → IsTimed c
      → IsTimed (report b ec w c)
  unfolding report
  report-IsTimed b ec w c t =
      either IsTimed b (finish_connect-IsTimed ec c t) (either IsTimed c.handlers.error_handler t t)

  pub cancel_connect-IsTimed : (c : Connection S) → IsTimed c → IsTimed (cancel_connect c)
  unfolding cancel_connect
  cancel_connect-IsTimed c t = either IsTimed (c.connect_timer == invalid_timer) t (record {
    held = record {
      owned = without-Owned c.ping_timer c.pong_timer c.connect_timer c.timers t.held.owned;
      next = t.held.next;
    };
    waits = t.waits;
  })

  cancel_ping-IsHeld : (c : Connection S) → IsHeld c → IsHeld (cancel_ping c)
  unfolding cancel_ping
  cancel_ping-IsHeld c t =
      either IsHeld (c.ping_timer == invalid_timer) t
        (record { owned = without_ping c.ping_timer c.pong_timer c.timers t.owned; next = t.next })

  cancel_pong-IsHeld : (c : Connection S) → IsHeld c → IsHeld (cancel_pong c)
  unfolding cancel_pong
  cancel_pong-IsHeld c t =
      either IsHeld (c.pong_timer == invalid_timer) t
        (record { owned = without_pong c.ping_timer c.pong_timer c.timers t.owned; next = t.next })

  pub cancel_pong-IsTimed : (c : Connection S) → IsHeld c → IsTimed (cancel_pong c)
  cancel_pong-IsTimed c t = record {
    held = cancel_pong-IsHeld c t;
    waits = inr (pong-cancel_pong c);
  }

  pub stop_keepalive-IsTimed : (c : Connection S) → IsHeld c → IsTimed (stop_keepalive c)
  unfolding stop_keepalive
  stop_keepalive-IsTimed c t =
      let d = cancel_ping c in
      record {
        held = cancel_pong-IsHeld d (cancel_ping-IsHeld c t);
        waits = inr (pong-cancel_pong d);
      }

  pub fail-IsTimed :
      (ec : ErrorCode) (w : What) (c : Connection S) → IsTimed c → IsTimed (fail ec w c)
  unfolding fail
  fail-IsTimed ec w c t =
      let d = emit transport_closed (cancel_connect (stop_keepalive c)) in
      let k = cancel_connect-IsTimed (stop_keepalive c) (stop_keepalive-IsTimed c t.held) in
      either IsTimed (is_over c.state) t
        (report-IsTimed d.connect_handler ec w (set_state failed d) (set_state-IsTimed failed d k))

  pub close-IsTimed : (c : Connection S) → IsTimed c → IsTimed (close c)
  close-IsTimed c t =
      set_state-IsTimed closed (emit transport_closed (stop_keepalive c))
        (stop_keepalive-IsTimed c t.held)

  -- A ping that has no timer is given one.
  pub next_ping-IsTimed :
      (c : Connection S)
      → Timed invalid_timer c.pong_timer c.next_timer c.timers c.awaiting_pong
      → IsTimed (record (schedule_after ping_due c) { ping_timer = c.next_timer })
  next_ping-IsTimed c t = record {
    held = record {
      owned = ((t.held.next, refl), any_ping c.next_timer c.pong_timer c.timers t.held.owned);
      next = omega (arith, t.held.next);
    };
    waits = t.waits;
  }
