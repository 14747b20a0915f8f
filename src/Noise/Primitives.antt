-- ===== src/Noise/Primitives.antt =====
-- src/crypto/primitives.cpp over src/crypto/detail/, which is vendored: `Detail` states what the
-- wrappers rely on.
use cpp_esphome_api.Base.{
  ℕ, zero, suc, ◌+◌, ◌-◌, ◌*◌, ◌/◌, ◌%◌, ◌^◌, bit_and, bit_or, bit_xor, ◌≡◌, Option, none, some,
  List, [], ◌∷◌, ◌++◌, arith, ltb, ◌==◌, if◌then◌else◌, le→ltb-false, length, take, drop, replicate,
  length-append, take-append, drop-append,
}

pub record Detail : Type 0 where
  pub sha256 : List ℕ → List ℕ
  pub chacha20poly1305_encrypt : List ℕ → List ℕ → List ℕ → List ℕ → List ℕ × List ℕ
  pub chacha20poly1305_decrypt : List ℕ → List ℕ → List ℕ → List ℕ → List ℕ → Option (List ℕ)
  pub x25519_scalarmult : List ℕ → List ℕ → List ℕ
  pub x25519_scalarmult_base : List ℕ → List ℕ
  pub ciphertext_length :
      (key npub ad plaintext : List ℕ)
      → length (chacha20poly1305_encrypt key npub ad plaintext).0 ≡ length plaintext
  pub tag_length :
      (key npub ad plaintext : List ℕ)
      → length (chacha20poly1305_encrypt key npub ad plaintext).1 ≡ 16
  pub decrypt-encrypt :
      (key npub ad plaintext : List ℕ)
      → chacha20poly1305_decrypt key npub ad
          (chacha20poly1305_encrypt key npub ad plaintext).0
          (chacha20poly1305_encrypt key npub ad plaintext).1
        ≡ some plaintext
  pub public_length : (private_key : List ℕ) → length (x25519_scalarmult_base private_key) ≡ 32
  pub shared :
      (a b : List ℕ)
      → x25519_scalarmult a (x25519_scalarmult_base b)
        ≡ x25519_scalarmult b (x25519_scalarmult_base a)

abbrev pub key_len : ℕ
key_len = 32

abbrev pub hash_len : ℕ
hash_len = 32

abbrev pub aead_tag_len : ℕ
aead_tag_len = 16

-- Eight bytes from `i` on.
pub counter_bytes : ℕ → ℕ → ℕ → List ℕ
counter_bytes zero i counter = []
counter_bytes (suc n) i counter =
    bit_and (counter / 2 ^ (8 * i)) 0xff ∷ counter_bytes n (i + 1) counter

unfoldable pub build_nonce : ℕ → List ℕ
build_nonce counter = replicate 4 0 ++ counter_bytes 8 0 counter

pub xor_each : List ℕ → ℕ → List ℕ
xor_each [] mask = []
xor_each (b ∷ bs) mask = bit_xor b mask ∷ xor_each bs mask

-- `acc | byte` over the shared secret.
unfoldable pub fold_or : List ℕ → ℕ → ℕ
fold_or [] acc = acc
fold_or (b ∷ bs) acc = fold_or bs (bit_or acc b % 256)

module _ (P : Detail) where
  -- The key as it is, or its hash, filled up with zeros.
  unfoldable pub padded_key : List ℕ → List ℕ
  padded_key key =
      let k = if ltb 64 (length key) then P.sha256 key else key in k ++ replicate (64 - length k) 0

  unfoldable pub hmac_sha256 : List ℕ → List ℕ → List ℕ
  hmac_sha256 key data_ =
      let k_pad = padded_key key in
      P.sha256 (xor_each k_pad 0x5c ++ P.sha256 (xor_each k_pad 0x36 ++ data_))

  -- The outputs in order; those beyond the number asked for are not made by the source, and no
  -- caller looks at them.
  unfoldable pub hkdf : List ℕ → List ℕ → List ℕ × List ℕ × List ℕ
  hkdf chaining_key input_key_material =
      let temp_key = hmac_sha256 chaining_key input_key_material in
      let o1 = hmac_sha256 temp_key (0x01 ∷ []) in
      let o2 = hmac_sha256 temp_key (o1 ++ (0x02 ∷ [])) in
      let o3 = hmac_sha256 temp_key (o2 ++ (0x03 ∷ [])) in (o1, o2, o3)

  unfoldable pub x25519_base : List ℕ → List ℕ
  x25519_base private_key = P.x25519_scalarmult_base private_key

  -- `none` stands for the EncryptionError on an all-zero secret.
  unfoldable pub x25519 : List ℕ → List ℕ → Option (List ℕ)
  x25519 private_key peer_public =
      let out = P.x25519_scalarmult private_key peer_public in
      if fold_or out 0 == 0 then none else some out

  unfoldable pub aead_encrypt : List ℕ → ℕ → List ℕ → List ℕ → List ℕ
  aead_encrypt key nonce ad plaintext =
      let (ciphertext, tag) = P.chacha20poly1305_encrypt key (build_nonce nonce) ad plaintext in
      ciphertext ++ tag

  unfoldable pub aead_decrypt : List ℕ → ℕ → List ℕ → List ℕ → Option (List ℕ)
  aead_decrypt key nonce ad ciphertext =
      let ct_len = length ciphertext - aead_tag_len in
      if ltb (length ciphertext) aead_tag_len
      then none
      else P.chacha20poly1305_decrypt key (build_nonce nonce) ad (take ct_len ciphertext)
          (drop ct_len ciphertext)

  -- What one side seals the other opens, under the same key, nonce and associated data.
  pub aead_decrypt-aead_encrypt :
      (key : List ℕ) (nonce : ℕ) (ad plaintext : List ℕ)
      → aead_decrypt key nonce ad (aead_encrypt key nonce ad plaintext) ≡ some plaintext
  unfolding aead_decrypt aead_encrypt
  aead_decrypt-aead_encrypt key nonce ad plaintext =
      let (ct, tag) = P.chacha20poly1305_encrypt key (build_nonce nonce) ad plaintext in
      let t : length tag ≡ 16 = P.tag_length key (build_nonce nonce) ad plaintext in
      let whole = length-append ct tag in
      let e : length (ct ++ tag) - 16 ≡ length ct = omega arith in
      rw
        (
          le→ltb-false (length (ct ++ tag)) 16 (omega arith),
          e,
          take-append ct tag,
          drop-append ct tag,
        )
        (P.decrypt-encrypt key (build_nonce nonce) ad plaintext)
