-- ===== src/NoiseFrame/Opening.antt =====
-- The encrypted link from `connect_bytes` to the transport state, against a device that answers.
use cpp_esphome_api.Base.{
  ℕ, ◌+◌, ◌^◌, ◌<◌, ◌≡◌, refl, sym, ◌∙◌, inl, inr, true, some, List, [], ◌∷◌, ◌++◌, append-nil,
  arith, ==_iff, Bool-cases, length, length-append,
}
use cpp_esphome_api.Frame.{ready, again}
use cpp_esphome_api.Noise.Primitives.{Detail, x25519, x25519_base}
use cpp_esphome_api.Noise.States.{length-encrypt_with_ad, encrypt_and_hash, mix_key}
use cpp_esphome_api.Noise.Handshake.{mix_ephemeral}
use cpp_esphome_api.Noise.Handshake.{
  initialize, responder, NoiseHandshake, write_message, read_message, split,
}
use cpp_esphome_api.Noise.Agreement.{
  first, second, caller, callee, caller_done, callee_done, first_sent, first_read, second_sent,
  second_read, same_secret, paired,
}
use cpp_esphome_api.NoiseFrame.{
  NoiseFrameHelper, expect_handshake, transport, append_u16, indicator, noise_prologue, feed,
  until_nul, same_bytes, is_empty, handle_server_hello, handshake_read, handle_server_handshake,
  handle_raw, round, first_flight, sent, connect_bytes, of_key,
}
use cpp_esphome_api.NoiseFrame.Frames.{pending}
use cpp_esphome_api.NoiseFrame.Session.{round-frame, rest_pending}

-- A handshake frame, as the device sends it.
abbrev pub framed : List ℕ → List ℕ
framed bytes = append_u16 (indicator ∷ []) (length bytes) ++ bytes

same_bytes_refl : (xs : List ℕ) → same_bytes xs xs ≡ true
unfolding same_bytes
same_bytes_refl [] = refl
same_bytes_refl (x ∷ xs) = rw ((==_iff x x).1 refl, same_bytes_refl xs) refl

hello_accepted :
    (greeting : List ℕ) (h : NoiseFrameHelper)
    → until_nul greeting ≡ h.expected_name
    → handle_server_hello (0x01 ∷ greeting) h
      ≡ (record h { server_name = until_nul greeting; state = expect_handshake }, again)
unfolding handle_server_hello
hello_accepted greeting h e =
    let same : same_bytes (until_nul greeting) h.expected_name ≡ true =
      rw e (same_bytes_refl h.expected_name) in
    elim (Bool-cases (is_empty h.expected_name)) [ inl t ↦ rw t refl | inr t ↦ rw (t, same) refl ]

module _ (P : Detail) (psk name a b greeting welcome dh : List ℕ) where
  abbrev answer : List ℕ
  answer = x25519_base P b ++ (second P psk noise_prologue a b [] welcome dh).1

  abbrev replies : List ℕ
  replies = framed (0x01 ∷ greeting) ++ framed (0x00 ∷ answer)

  abbrev dialled : NoiseFrameHelper
  dialled = record (of_key P psk name) { handshake = caller P psk noise_prologue a b [] welcome dh }

  abbrev greeted : NoiseFrameHelper
  greeted = record dialled {
    server_name = until_nul greeting;
    state = expect_handshake;
    buffer = replies;
    consumed = 3 + length (0x01 ∷ greeting);
  }

  connect-sent : connect_bytes P a (of_key P psk name) ≡ (
    dialled,
    first_flight (x25519_base P a ++ (first P psk noise_prologue a b [] welcome dh).1),
  )
  unfolding connect_bytes of_key sent
  connect-sent = rw (first_sent P psk noise_prologue a b [] welcome dh) refl

  round-greeting :
      until_nul greeting ≡ name
      → length greeting + 1 < 2 ^ 16
      → round P (feed dialled replies) ≡ (greeted, again)
  unfolding feed of_key
  round-greeting e fits =
      round-frame P (feed dialled replies) (0x01 ∷ greeting) (framed (0x00 ∷ answer)) refl
        (omega arith)
      ∙ (unfold handle_raw in
          hello_accepted greeting
            (record dialled { buffer = replies; consumed = 3 + length (0x01 ∷ greeting) }) e)

  abbrev joined : NoiseFrameHelper
  joined = record greeted {
    handshake = caller_done P psk noise_prologue a b [] welcome dh;
    encrypt = (split P (caller_done P psk noise_prologue a b [] welcome dh)).0;
    decrypt = (split P (caller_done P psk noise_prologue a b [] welcome dh)).1;
    state = transport;
    buffer = pending greeted;
    consumed = 3 + length (0x00 ∷ answer);
  }

  greeted-pending : pending greeted ≡ framed (0x00 ∷ answer) ++ []
  greeted-pending =
      rest_pending (0x01 ∷ greeting) (framed (0x00 ∷ answer)) replies refl
      ∙ sym (append-nil (framed (0x00 ∷ answer)))

  answer_short : length welcome + 49 < 2 ^ 16 → length (0x00 ∷ answer) < 2 ^ 16
  unfolding x25519_base encrypt_and_hash
  answer_short fits =
      let s =
        mix_key P dh
          (mix_ephemeral P (x25519_base P b) (first P psk noise_prologue a b [] welcome dh).0) in
      let long = length-encrypt_with_ad P s.h welcome s.cipher in
      omega (
        arith,
        length-append (x25519_base P b) (second P psk noise_prologue a b [] welcome dh).1,
        P.public_length b,
      )

  round-answer :
      x25519 P a (x25519_base P b) ≡ some dh
      → length welcome + 49 < 2 ^ 16
      → round P greeted ≡ (joined, ready)
  unfolding of_key
  round-answer e fits =
      round-frame P greeted (0x00 ∷ answer) [] greeted-pending (answer_short fits)
      ∙ (unfold handle_raw handle_server_handshake in
          rw (second_read P psk noise_prologue a b [] welcome dh e) (unfold handshake_read in refl))

  joined-pending : pending joined ≡ []
  joined-pending = rest_pending (0x00 ∷ answer) [] (pending greeted) greeted-pending

-- A client that opens with the first message meets a device with the same key. The device reads that
-- message and writes the second one, and sends its greeting and the second message, each in a frame.
-- Then the client's first round accepts the greeting, its second completes the handshake and answers
-- `ready`, nothing is left in the buffer, the state is the transport one, and each end's cipher for
-- sending is the other's for receiving. The greeting names the device as the client expects, both
-- frames fit the length field, and the ephemeral keys have a secret that is not all zeros.
pub connect-round :
    (P : Detail) (psk name a b greeting welcome dh : List ℕ)
    → x25519 P a (x25519_base P b) ≡ some dh
    → until_nul greeting ≡ name
    → length greeting + 1 < 2 ^ 16
    → length welcome + 49 < 2 ^ 16
    → (m1 : List ℕ) × (m2 : List ℕ) × (d1 : NoiseHandshake) × (d2 : NoiseHandshake)
      × (h : NoiseFrameHelper) × (h1 : NoiseFrameHelper) × (h2 : NoiseFrameHelper) × (connect_bytes
            P a
            (of_key P psk name)
          ≡ (h, first_flight m1))
      × (read_message P m1 (initialize P responder psk noise_prologue) ≡ (d1, some []))
      × (write_message P b welcome d1 ≡ (d2, some m2))
      × (round P (feed h (framed (0x01 ∷ greeting) ++ framed (0x00 ∷ m2))) ≡ (h1, again))
      × (round P h1 ≡ (h2, ready))
      × (pending h2 ≡ [])
      × (h2.state ≡ transport)
      × (h2.encrypt ≡ (split P d2).1)
      × (h2.decrypt ≡ (split P d2).0)
connect-round P psk name a b greeting welcome dh e known fits fits' =
    let (done, done', out, back) = paired P psk noise_prologue a b [] welcome dh in
    (
      x25519_base P a ++ (first P psk noise_prologue a b [] welcome dh).1,
      answer P psk name a b greeting welcome dh,
      callee P psk noise_prologue a b [] welcome dh,
      callee_done P psk noise_prologue a b [] welcome dh,
      dialled P psk name a b greeting welcome dh,
      greeted P psk name a b greeting welcome dh,
      joined P psk name a b greeting welcome dh,
      connect-sent P psk name a b greeting welcome dh,
      first_read P psk noise_prologue a b [] welcome dh,
      second_sent P psk noise_prologue a b [] welcome dh
          (same_secret P psk noise_prologue a b [] welcome dh ∙ e),
      round-greeting P psk name a b greeting welcome dh known fits,
      round-answer P psk name a b greeting welcome dh e fits',
      joined-pending P psk name a b greeting welcome dh,
      refl,
      out,
      back,
    )
