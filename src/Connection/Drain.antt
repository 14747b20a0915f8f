-- ===== src/Connection/Drain.antt =====
-- The read loop ends on every codec: no action of the connection puts bytes into its buffer.
use cpp_esphome_api.Base.{
  ℕ, zero, suc, ◌<◌, ◌≡◌, refl, ap, ◌∙◌, ◌⊎◌, inl, inr, Bool, true, false, some, List, arith,
  Bool-cases,
}
use cpp_esphome_api.Errors.{Exception, What, what, is_protocol_error}
use cpp_esphome_api.Frame.{FrameStatus, Round, status, ready, again, handshake_failed, FrameHelper}
use cpp_esphome_api.Frame
use cpp_esphome_api.Connection.State.{
  ConnectionState, hello_sent, failed, is_over, ConnectionOptions, ErrorCode, protocol, Messages,
  transport_closed, Connection,
}
use cpp_esphome_api.Connection.Actions.{
  emit, set_state, finish_connect, cancel_connect, cancel_ping, cancel_pong, stop_keepalive, report,
  fail,
}
use cpp_esphome_api.Connection.Inbound.{handle_frame}
use cpp_esphome_api.Connection.Steps.{
  Drained, returns, escapes, stuck, on_ready, on_handshake_error, after_round, drain_frames, caught,
  on_bytes,
}
use cpp_esphome_api.Connection.Rules.{Rules, handle_frame-R, on_handshake_error-R}
use cpp_esphome_api.Connection.Moves.{Moves, Moves-Rules, on_ready-R, state-set_state}

module _ {S : Type 0} where
  frames-set_state : (s : ConnectionState) (c : Connection S) → (set_state s c).frames ≡ c.frames
  unfolding set_state
  frames-set_state s c = ground arith

  frames-finish_connect :
      (ec : ErrorCode) (c : Connection S) → (finish_connect ec c).frames ≡ c.frames
  unfolding finish_connect
  frames-finish_connect ec c = ground arith

-- The loop came to an end within its fuel.
unfoldable IsDone : {S : Type 0} → Drained S → Type 0
IsDone (stuck c) = ⊥
IsDone _ = Unit

-- The round ended the call, or left fewer than n bytes.
abbrev Answered : ℕ → Round → ℕ → Type 0
Answered n x left =
    (x ≡ status Frame.FrameStatus.need_more)
    ⊎ ((e : Exception) × (x ≡ status (Frame.FrameStatus.throws e)))
    ⊎ (left < n)

module _ (F : FrameHelper) (G : Messages) (o : ConnectionOptions) where
  abbrev SameSize : Connection F.State → Connection F.State → Type 0
  SameSize c d = F.size d.frames ≡ F.size c.frames

  SameSize-Moves : Moves F SameSize
  SameSize-Moves = record {
    same = λ c. refl;
    then_ = λ p q. q ∙ p;
    logs = λ e c q. refl;
    encodes = λ t payload c. F.size-encode t payload c.frames;
    ticks = λ a b p n w ts c. refl;
    greets = λ h c. refl;
    notes = λ e c. refl;
    installs = λ h c. refl;
    finishes = λ ec c. ap F.size (frames-finish_connect ec c);
    moves = λ s c le. ap F.size (frames-set_state s c);
  }

  size-on_ready : (c : Connection F.State) → SameSize c (on_ready F G o c)
  size-on_ready c =
      on_ready-R F G SameSize-Moves o (λ d. ap F.size (frames-set_state hello_sent d)) c

  SameSize-Rules : Rules F G o SameSize
  SameSize-Rules = Moves-Rules F G SameSize-Moves o (λ d s e. size-on_ready d)

  go_on :
      (loop : Connection F.State → Drained F.State) (b : Bool) (d : Connection F.State)
      → IsDone (loop d)
      → IsDone (elim b [ true ↦ returns d | false ↦ loop d ])
  unfolding IsDone
  go_on loop true d h = tt
  go_on loop false d h = h

  after_round-IsDone :
      (loop : Connection F.State → Drained F.State) (n : ℕ)
      → ((d : Connection F.State) → F.size d.frames < n → IsDone (loop d))
      → (x : Round) (c : Connection F.State) → Answered n x (F.size c.frames)
      → IsDone (after_round F G o loop x c)
  unfolding after_round IsDone
  after_round-IsDone loop n h (status Frame.FrameStatus.need_more) c k = tt
  after_round-IsDone loop n h (status (Frame.FrameStatus.throws e)) c k = tt
  after_round-IsDone loop n h (status (Frame.FrameStatus.ok t payload)) c (inl e) = ground arith
  after_round-IsDone loop n h (status (Frame.FrameStatus.ok t payload)) c (inr (inl (e, p))) =
      ground arith
  after_round-IsDone loop n h (status (Frame.FrameStatus.ok t payload)) c (inr (inr lt)) =
      let d = handle_frame F G o t payload c in
      let e : F.size d.frames ≡ F.size c.frames = handle_frame-R F G o SameSize-Rules t payload c in
      go_on loop (is_over d.state) d (h d (rw e lt))
  after_round-IsDone loop n h ready c (inl e) = ground arith
  after_round-IsDone loop n h ready c (inr (inl (e, p))) = ground arith
  after_round-IsDone loop n h ready c (inr (inr lt)) =
      h (on_ready F G o c) (rw (size-on_ready c) lt)
  after_round-IsDone loop n h again c (inl e) = ground arith
  after_round-IsDone loop n h again c (inr (inl (e, p))) = ground arith
  after_round-IsDone loop n h again c (inr (inr lt)) = h c lt
  after_round-IsDone loop n h (handshake_failed w) c (inl e) = ground arith
  after_round-IsDone loop n h (handshake_failed w) c (inr (inl (e, p))) = ground arith
  after_round-IsDone loop n h (handshake_failed w) c (inr (inr lt)) =
      h (on_handshake_error F G o w c) (rw (on_handshake_error-R F G o SameSize-Rules w c) lt)

  drain_frames-IsDone :
      (fuel : ℕ) (c : Connection F.State)
      → F.size c.frames < fuel
      → IsDone (drain_frames F G o fuel c)
  unfolding drain_frames
  drain_frames-IsDone zero c lt = ground arith
  drain_frames-IsDone (suc fuel) c lt =
      let answered : Answered fuel (F.round c.frames).1 (F.size (F.round c.frames).0) =
        elim (F.size-round c.frames) [
          | inl e ↦ inl e
          | inr (inl e) ↦ inr (inl e)
          | inr (inr less) ↦ inr (inr (omega arith))
        ] in
      after_round-IsDone (drain_frames F G o fuel) fuel (drain_frames-IsDone fuel)
        (F.round c.frames).1 (record c { frames = (F.round c.frames).0 }) answered

  -- What `on_bytes` makes of the end of the loop: a protocol error ends the session and is kept, and
  -- any other exception passes.
  unfoldable pub Answers : Drained F.State → Drained F.State → Type 0
  Answers (returns c) r = r ≡ returns c
  Answers (stuck c) r = ⊥
  Answers (escapes e c) r =
      ((is_protocol_error e ≡ false) × (r ≡ escapes e c))
      ⊎ ((is_protocol_error e ≡ true)
          × ((d : Connection F.State) × (r ≡ returns d)
              × (is_over d.state ≡ true)
              × (d.last_error ≡ some e)))

  error-set_state :
      (s : ConnectionState) (c : Connection F.State) → (set_state s c).last_error ≡ c.last_error
  unfolding set_state
  error-set_state s c = ground arith

  report_kept :
      (b : Bool) (ec : ErrorCode) (w : What) (c : Connection F.State)
      → ((report b ec w c).state ≡ c.state) × ((report b ec w c).last_error ≡ c.last_error)
  unfolding report finish_connect
  report_kept b ec w c = (ground arith, ground arith)

  error-cancel_connect : (c : Connection F.State) → (cancel_connect c).last_error ≡ c.last_error
  unfolding cancel_connect
  error-cancel_connect c = ground arith

  error-stop_keepalive : (c : Connection F.State) → (stop_keepalive c).last_error ≡ c.last_error
  unfolding stop_keepalive cancel_ping cancel_pong
  error-stop_keepalive c = ground arith

  fail_over :
      (ec : ErrorCode) (w : What) (c : Connection F.State)
      → (is_over (fail ec w c).state ≡ true) × ((fail ec w c).last_error ≡ c.last_error)
  unfolding fail
  fail_over ec w c = elim (Bool-cases (is_over c.state)) [
    | inl e ↦ rw e (e, refl)
    | inr e ↦
        let d = emit transport_closed (cancel_connect (stop_keepalive c)) in
        let (same, kept) = report_kept d.connect_handler ec w (set_state failed d) in
        rw e (
          ap is_over (same ∙ state-set_state failed d),
          kept
              ∙ error-set_state failed d
              ∙ error-cancel_connect (stop_keepalive c)
              ∙ error-stop_keepalive c,
        )
  ]

  caught-Answers : (d : Drained F.State) → IsDone d → Answers d (caught F G o d)
  unfolding caught IsDone Answers
  caught-Answers (returns c) h = refl
  caught-Answers (stuck c) h = h
  caught-Answers (escapes e c) h = elim (Bool-cases (is_protocol_error e)) [
    | inl p ↦
        let (over, kept) = fail_over protocol (what e) (record c { last_error = some e }) in
        rw p (inr (refl, (_, refl, over, kept)))
    | inr p ↦ rw p (inl (refl, refl))
  ]

  -- Whatever bytes arrive in whatever state, the read loop comes to an end, and on_bytes with it: it
  -- returns as the loop does; a protocol error that the loop throws is caught, the session is over and the
  -- error is kept; any other exception passes through.
  pub on_bytes-Answers :
      (bs : List ℕ) (c : Connection F.State)
      → Answers
          (drain_frames F G o
            (suc (F.size (F.feed c.frames bs)))
            (record c { frames = F.feed c.frames bs }))
          (on_bytes F G o bs c)
  unfolding on_bytes
  on_bytes-Answers bs c =
      let s = F.feed c.frames bs in
      caught-Answers (drain_frames F G o (suc (F.size s)) (record c { frames = s }))
        (drain_frames-IsDone (suc (F.size s)) (record c { frames = s }) (omega arith))
