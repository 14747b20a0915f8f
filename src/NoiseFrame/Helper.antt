-- ===== src/NoiseFrame/Helper.antt =====
-- The encrypted codec as the connection sees it: the overrides of `FrameHelper`.
use cpp_esphome_api.Base.{
  ℕ, ◌+◌, ◌<◌, ◌≡◌, refl, ◌⊎◌, inl, inr, true, Option, none, some, List, [], ◌∷◌, arith, ◌==◌,
  Bool-cases, length, drop, length-drop,
}
use cpp_esphome_api.Errors.{Exception}
use cpp_esphome_api.Frame.{FrameStatus, Round, status, ready, again, handshake_failed, FrameHelper}
use cpp_esphome_api.Frame
use cpp_esphome_api.Noise.Primitives.{Detail}
use cpp_esphome_api.Noise.States.{CipherState, decrypt_with_ad}
use cpp_esphome_api.Noise.Handshake.{NoiseHandshake, read_message}
use cpp_esphome_api.NoiseFrame.{
  NoiseFrameHelper, State, expect_server_hello, expect_handshake, transport, failed, Raw, frame,
  partial, malformed, settle, feed, report_error, handle_server_hello, handshake_read,
  handle_server_handshake, opened, handle_raw, dispatch, round, encode, connect_bytes, parse_raw,
}
use cpp_esphome_api.NoiseFrame.Frames.{pending, next_raw-pending, parse_raw-fits}

-- The handlers of a frame leave the buffer alone.
abbrev SameBuffer : NoiseFrameHelper → NoiseFrameHelper × Round → Type 0
SameBuffer h (g, x) = (g.buffer ≡ h.buffer) × (g.consumed ≡ h.consumed)

hello_keeps :
    (payload : List ℕ) (h : NoiseFrameHelper) → SameBuffer h (handle_server_hello payload h)
unfolding handle_server_hello report_error
hello_keeps [] h = (refl, refl)
hello_keeps (c ∷ rest) h = ground arith

module _ (P : Detail) where
  read_keeps :
      (h : NoiseFrameHelper) (r : NoiseHandshake × Option (List ℕ))
      → SameBuffer h (handshake_read P h r)
  unfolding handshake_read report_error
  read_keeps h (n, none) = (refl, refl)
  read_keeps h (n, some payload) = (refl, refl)

  handshake_keeps :
      (payload : List ℕ) (h : NoiseFrameHelper) → SameBuffer h (handle_server_handshake P payload h)
  unfolding handle_server_handshake report_error
  handshake_keeps [] h = (refl, refl)
  handshake_keeps (m ∷ rest) h = elim (Bool-cases (m == 0x00)) [
    | inl e ↦ rw e (read_keeps h (read_message P rest h.handshake))
    | inr e ↦ rw e (refl, refl)
  ]

  opened_keeps :
      (h : NoiseFrameHelper) (r : CipherState × Option (List ℕ)) → SameBuffer h (opened h r)
  unfolding opened
  opened_keeps h (c, none) = (refl, refl)
  opened_keeps h (c, some pt) = (refl, refl)

  handle_raw_keeps :
      (s : State) (payload : List ℕ) (h : NoiseFrameHelper)
      → SameBuffer h (handle_raw P s payload h)
  unfolding handle_raw
  handle_raw_keeps expect_server_hello payload h = hello_keeps payload h
  handle_raw_keeps expect_handshake payload h = handshake_keeps payload h
  handle_raw_keeps failed payload h = (refl, refl)
  handle_raw_keeps transport payload h = opened_keeps h (decrypt_with_ad P [] payload h.decrypt)

  abbrev Ends : NoiseFrameHelper → NoiseFrameHelper × Round → Type 0
  Ends h (g, x) =
      (x ≡ status Frame.FrameStatus.need_more)
      ⊎ ((e : Exception) × (x ≡ status (Frame.FrameStatus.throws e)))
      ⊎ (length (pending g) < length (pending h))

  dispatch-Ends :
      (h : NoiseFrameHelper) (x : Raw)
      → parse_raw (pending h) ≡ x
      → Ends h (dispatch P (settle (record h { buffer = pending h; consumed = 0 }) x))
  unfolding dispatch settle
  dispatch-Ends h partial e = inl refl
  dispatch-Ends h (malformed x) e = inr (inl (x, refl))
  dispatch-Ends h (frame payload) e =
      let (fits, t) = parse_raw-fits (pending h) payload e in
      let d = record h { buffer = pending h; consumed = 3 + length payload } in
      let (same, used) = handle_raw_keeps h.state payload d in
      let left : length (pending (handle_raw P h.state payload d).0)
          ≡ length (drop (3 + length payload) (pending h)) =
        rw (same, used) refl in
      inr (inr (omega (arith, length-drop (3 + length payload) (pending h))))

  pub round-Ends : (h : NoiseFrameHelper) → Ends h (round P h)
  unfolding round
  round-Ends h = rw (next_raw-pending h) (dispatch-Ends h (parse_raw (pending h)) refl)

  pub size_kept :
      (t : ℕ) (payload : List ℕ) (h : NoiseFrameHelper)
      → length (pending (encode P t payload h).0) ≡ length (pending h)
  unfolding encode
  size_kept t payload h = refl

  -- `fresh` as in `connect_bytes`.
  abbrev pub noise_codec : List ℕ → FrameHelper
  noise_codec fresh = record {
    State = NoiseFrameHelper;
    encode = encode P;
    feed = feed;
    round = round P;
    needs_handshake = true;
    connect_bytes = connect_bytes P fresh;
    size = λ h. length (pending h);
    size-encode = size_kept;
    size-round = round-Ends;
    handshake_only = λ e h. absurd (ground arith);
  }
