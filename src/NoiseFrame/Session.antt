-- ===== src/NoiseFrame/Session.antt =====
-- Two ends of the encrypted link: the messages that one encodes are delivered by the other.
use cpp_esphome_api.Base.{
  ℕ, zero, suc, ◌+◌, ◌^◌, ◌<◌, ◌≤◌, length-append, ◌≡◌, refl, ap, ◌∙◌, false, List, [], ◌∷◌, ◌++◌,
  append_assoc, arith, ltb, le→ltb-false, length, drop, drop-append, take_all,
}
use cpp_esphome_api.Frame.{FrameStatus, Round, status, ready, again, handshake_failed}
use cpp_esphome_api.Frame
use cpp_esphome_api.Noise.Primitives.{Detail}
use cpp_esphome_api.Noise.States.{
  encrypt_with_ad, decrypt_with_ad-encrypt_with_ad, length-encrypt_with_ad,
}
use cpp_esphome_api.NoiseFrame.{
  NoiseFrameHelper, transport, frame, append_u16, indicator, settle, parse_raw, parse_inner, opened,
  handle_raw, dispatch, round, encode,
}
use cpp_esphome_api.NoiseFrame.Frames.{pending, next_raw-pending, u16_bytes, parse_raw-append_u16}

-- A message whose type and length fit the inner header, and whose sealed form fits the outer one.
pub record IsMessage (t : ℕ) (payload : List ℕ) : Type 0 where
  pub type_fits : t < 2 ^ 16
  pub payload_fits : length payload + 20 < 2 ^ 16

abbrev inner : ℕ → List ℕ → List ℕ
inner t payload = append_u16 (append_u16 [] t) (length payload) ++ payload

parse_inner-inner :
    (t : ℕ) (payload : List ℕ)
    → IsMessage t payload
    → parse_inner (inner t payload) ≡ Frame.FrameStatus.ok t payload
unfolding parse_inner append_u16
parse_inner-inner t payload m =
    let small = m.payload_fits in
    let room : ltb (length payload) (length payload) ≡ false = le→ltb-false _ _ (omega arith) in
    rw
      (
        u16_bytes t m.type_fits,
        u16_bytes (length payload) (omega arith),
        room,
        take_all (length payload) payload (omega arith),
      )
      refl

-- A whole frame at the front of the buffer goes to the handler of the state.
pub round-frame :
    (P : Detail) (h : NoiseFrameHelper) (ct rest : List ℕ)
    → pending h ≡ (append_u16 (indicator ∷ []) (length ct) ++ ct) ++ rest
    → length ct < 2 ^ 16
    → round P h
      ≡ handle_raw P h.state ct (record h { buffer = pending h; consumed = 3 + length ct })
unfolding round dispatch settle
round-frame P h ct rest e fits =
    let found : parse_raw (pending h) ≡ frame ct = rw e (parse_raw-append_u16 ct rest fits) in
    rw (next_raw-pending h, found) refl

-- What is left behind the frame.
pub rest_pending :
    (ct rest p : List ℕ)
    → p ≡ (append_u16 (indicator ∷ []) (length ct) ++ ct) ++ rest
    → drop (3 + length ct) p ≡ rest
unfolding append_u16
rest_pending ct rest p e =
    let n : 3 + length ct ≡ suc (suc (suc (length ct))) = omega arith in
    rw (e, n) (drop-append ct rest)

-- A receiver and a sender in step: it is in the transport state, and its cipher is the sender's.
pub record InStep (sender receiver : NoiseFrameHelper) : Type 0 where
  pub state : receiver.state ≡ transport
  pub cipher : receiver.decrypt ≡ sender.encrypt

module _ (P : Detail) where
  pub sealed : ℕ → List ℕ → NoiseFrameHelper → List ℕ
  sealed t payload h = (encrypt_with_ad P [] (inner t payload) h.encrypt).1

  pub encode-sealed :
      (t : ℕ) (payload : List ℕ) (h : NoiseFrameHelper)
      → (encode P t payload h).1
        ≡ append_u16 (indicator ∷ []) (length (sealed t payload h)) ++ sealed t payload h
  unfolding encode sealed
  encode-sealed t payload h = refl

  pub sealed_fits :
      (t : ℕ) (payload : List ℕ) (h : NoiseFrameHelper)
      → IsMessage t payload
      → length (sealed t payload h) < 2 ^ 16
  unfolding sealed
  sealed_fits t payload h m =
      let small = m.payload_fits in
      let n : length (inner t payload) ≡ suc (suc (suc (suc (length payload)))) =
        unfold append_u16 in refl in
      let longer = length-encrypt_with_ad P [] (inner t payload) h.encrypt in omega arith

  handle_sealed :
      (t : ℕ) (payload : List ℕ) (sender receiver h : NoiseFrameHelper)
      → IsMessage t payload
      → InStep sender receiver
      → h.decrypt ≡ receiver.decrypt
      → handle_raw P receiver.state (sealed t payload sender) h ≡ (
        record h { decrypt = (encode P t payload sender).0.encrypt },
        status (Frame.FrameStatus.ok t payload),
      )
  unfolding handle_raw opened sealed
  handle_sealed t payload sender receiver h m s same =
      let c : h.decrypt ≡ sender.encrypt = same ∙ s.cipher in
      rw
        (
          s.state,
          c,
          decrypt_with_ad-encrypt_with_ad P [] (inner t payload) sender.encrypt,
          parse_inner-inner t payload m,
        )
        (unfold encode in refl)

  -- The receiver's next round delivers the message, keeps what follows, and the two are in step again.
  pub round-encode :
      (t : ℕ) (payload rest : List ℕ) (sender receiver : NoiseFrameHelper)
      → IsMessage t payload
      → InStep sender receiver
      → pending receiver ≡ (encode P t payload sender).1 ++ rest
      → ((round P receiver).1 ≡ status (Frame.FrameStatus.ok t payload))
        × (pending (round P receiver).0 ≡ rest)
        × InStep (encode P t payload sender).0 (round P receiver).0
  round-encode t payload rest sender receiver m s e =
      let ct = sealed t payload sender in
      let front = e ∙ ap (λ (bs : List ℕ). bs ++ rest) (encode-sealed t payload sender) in
      let d = record receiver { buffer = pending receiver; consumed = 3 + length ct } in
      let r =
        round-frame P receiver ct rest front (sealed_fits t payload sender m)
        ∙ handle_sealed t payload sender receiver d m s refl in
      rw r (
        refl,
        rest_pending ct rest (pending receiver) front,
        record { state = s.state; cipher = refl },
      )

  -- The cursor stays inside the buffer.
  pub round-encode_sound :
      (t : ℕ) (payload rest : List ℕ) (sender receiver : NoiseFrameHelper)
      → IsMessage t payload
      → InStep sender receiver
      → pending receiver ≡ (encode P t payload sender).1 ++ rest
      → (round P receiver).0.consumed ≤ length (round P receiver).0.buffer
  round-encode_sound t payload rest sender receiver m s e =
      let ct = sealed t payload sender in
      let front = e ∙ ap (λ (bs : List ℕ). bs ++ rest) (encode-sealed t payload sender) in
      let d = record receiver { buffer = pending receiver; consumed = 3 + length ct } in
      let r =
        round-frame P receiver ct rest front (sealed_fits t payload sender m)
        ∙ handle_sealed t payload sender receiver d m s refl in
      rw (r, front) (unfold append_u16 in omega (arith, length-append ct rest))

  -- The bytes of messages encoded one after the other, and the encoder afterwards.
  abbrev pub encode_all : List (ℕ × List ℕ) → NoiseFrameHelper → NoiseFrameHelper × List ℕ
  encode_all [] h = (h, [])
  encode_all ((t, payload) ∷ ms) h =
      let (g, front) = encode P t payload h in
      let (g', back) = encode_all ms g in (g', front ++ back)

  -- A round that answers `ok` goes on to the next one; any other is the last.
  unfoldable pub took :
      NoiseFrameHelper × Round
      → NoiseFrameHelper × List (ℕ × List ℕ)
      → NoiseFrameHelper × List (ℕ × List ℕ)
  took (g, status (Frame.FrameStatus.ok t payload)) (last, ms) = (last, (t, payload) ∷ ms)
  took (g, x) rest = (g, [])

  -- What successive rounds deliver; the fuel is the number of rounds.
  unfoldable pub deliver : ℕ → NoiseFrameHelper → NoiseFrameHelper × List (ℕ × List ℕ)
  deliver zero h = (h, [])
  deliver (suc n) h = let rest = deliver n (round P h).0 in took (round P h) rest

  abbrev pub AllMessages : List (ℕ × List ℕ) → Type 0
  AllMessages [] = Unit
  AllMessages ((t, payload) ∷ ms) = IsMessage t payload × AllMessages ms

  took-ok :
      (x : NoiseFrameHelper × Round) (t : ℕ) (payload : List ℕ)
      (rest : NoiseFrameHelper × List (ℕ × List ℕ))
      → x.1 ≡ status (Frame.FrameStatus.ok t payload)
      → took x rest ≡ (rest.0, (t, payload) ∷ rest.1)
  unfolding took
  took-ok (g, y) t payload rest e = rw e refl

  -- What the sender encodes, one message after the other, the receiver delivers, in order and unchanged,
  -- in as many rounds as there are messages; the bytes behind them wait, and the two are in step again.
  -- The two are in step at the start, the bytes are the receiver's pending ones, and every message's
  -- type and size fit its headers.
  pub deliver-encode_all :
      (ms : List (ℕ × List ℕ)) (rest : List ℕ) (sender receiver : NoiseFrameHelper)
      → AllMessages ms
      → InStep sender receiver
      → pending receiver ≡ (encode_all ms sender).1 ++ rest
      → ((deliver (length ms) receiver).1 ≡ ms)
        × (pending (deliver (length ms) receiver).0 ≡ rest)
        × InStep (encode_all ms sender).0 (deliver (length ms) receiver).0
  unfolding deliver
  deliver-encode_all [] rest sender receiver fit s e = (refl, e, s)
  deliver-encode_all ((t, payload) ∷ ms) rest sender receiver (m, fit) s e =
      let (g, front) = encode P t payload sender in
      let back = (encode_all ms g).1 in
      let (answer, waits, s') =
        round-encode t payload (back ++ rest) sender receiver m s
          (e ∙ append_assoc front back rest) in
      let (all, left, last) = deliver-encode_all ms rest g (round P receiver).0 fit s' waits in
      rw (took-ok (round P receiver) t payload (deliver (length ms) (round P receiver).0) answer)
        (ap (λ l. (t, payload) ∷ l) all, left, last)
