-- ===== src/Noise/States.antt =====
-- src/crypto/cipher_state.cpp and src/crypto/symmetric_state.cpp.
use cpp_esphome_api.Base.{
  ℕ, ◌+◌, ◌-◌, ◌%◌, ◌^◌, ◌≤◌, ◌≡◌, refl, inl, inr, Bool, true, false, Option, none, some, List, [],
  ◌++◌, arith, leb, if◌then◌else◌, Bool-cases, length, replicate, length-append,
}
use cpp_esphome_api.Noise.Primitives.{
  Detail, hash_len, hkdf, aead_encrypt, build_nonce, aead_decrypt, aead_decrypt-aead_encrypt,
}

pub record CipherState : Type 0 where
  pub key : List ℕ
  pub nonce : ℕ
  pub has_key : Bool

abbrev pub keyless : CipherState
keyless = record { key = replicate 32 0; nonce = 0; has_key = false }

abbrev pub initialize_key : List ℕ → CipherState
initialize_key key = record { key = key; nonce = 0; has_key = true }

pub record SymmetricState : Type 0 where
  pub ck : List ℕ
  pub h : List ℕ
  pub cipher : CipherState

module _ (P : Detail) where
  -- The counter is a `std::uint64_t`.
  unfoldable pub encrypt_with_ad : List ℕ → List ℕ → CipherState → CipherState × List ℕ
  encrypt_with_ad ad plaintext c =
      if c.has_key
      then (record c { nonce = (c.nonce + 1) % 2 ^ 64 }, aead_encrypt P c.key c.nonce ad plaintext)
      else (c, plaintext)

  opened : CipherState → Option (List ℕ) → CipherState × Option (List ℕ)
  opened c none = (c, none)
  opened c (some out) = (record c { nonce = (c.nonce + 1) % 2 ^ 64 }, some out)

  -- `none` stands for the EncryptionError.
  unfoldable pub decrypt_with_ad : List ℕ → List ℕ → CipherState → CipherState × Option (List ℕ)
  unfolding opened
  decrypt_with_ad ad ciphertext c =
      if c.has_key
      then opened c (aead_decrypt P c.key c.nonce ad ciphertext)
      else (c, some ciphertext)

  unfoldable pub initialize_symmetric : List ℕ → SymmetricState
  initialize_symmetric protocol_name =
      let h =
        if leb (length protocol_name) hash_len
        then protocol_name ++ replicate (hash_len - length protocol_name) 0
        else P.sha256 protocol_name in
      record { ck = h; h = h; cipher = keyless }

  unfoldable pub mix_key : List ℕ → SymmetricState → SymmetricState
  mix_key input s =
      let (o1, o2, unused) = hkdf P s.ck input in record s { ck = o1; cipher = initialize_key o2 }

  unfoldable pub mix_hash : List ℕ → SymmetricState → SymmetricState
  mix_hash data_ s = record s { h = P.sha256 (s.h ++ data_) }

  unfoldable pub mix_key_and_hash : List ℕ → SymmetricState → SymmetricState
  mix_key_and_hash input s =
      let (o1, o2, o3) = hkdf P s.ck input in
      record (mix_hash o2 (record s { ck = o1 })) { cipher = initialize_key o3 }

  unfoldable pub encrypt_and_hash : List ℕ → SymmetricState → SymmetricState × List ℕ
  encrypt_and_hash plaintext s =
      let (c, ciphertext) = encrypt_with_ad s.h plaintext s.cipher in
      (mix_hash ciphertext (record s { cipher = c }), ciphertext)

  hashed :
      SymmetricState → List ℕ → CipherState × Option (List ℕ) → SymmetricState × Option (List ℕ)
  hashed s ciphertext (c, none) = (record s { cipher = c }, none)
  hashed s ciphertext (c, some plaintext) =
      (mix_hash ciphertext (record s { cipher = c }), some plaintext)

  unfoldable pub decrypt_and_hash : List ℕ → SymmetricState → SymmetricState × Option (List ℕ)
  unfolding hashed
  decrypt_and_hash ciphertext s = hashed s ciphertext (decrypt_with_ad s.h ciphertext s.cipher)

  unfoldable pub split_symmetric : SymmetricState → CipherState × CipherState
  split_symmetric s =
      let (o1, o2, unused) = hkdf P s.ck [] in (initialize_key o1, initialize_key o2)

  -- A sealed message is a tag longer, one in the clear is as long as it was.
  pub length-encrypt_with_ad :
      (ad plaintext : List ℕ) (c : CipherState)
      → length (encrypt_with_ad ad plaintext c).1 ≤ length plaintext + 16
  unfolding encrypt_with_ad aead_encrypt
  length-encrypt_with_ad ad plaintext c = elim (Bool-cases c.has_key) [
    | inl e ↦
        let (ct, tag) = P.chacha20poly1305_encrypt c.key (build_nonce c.nonce) ad plaintext in
        let long = P.ciphertext_length c.key (build_nonce c.nonce) ad plaintext in
        let short = P.tag_length c.key (build_nonce c.nonce) ad plaintext in
        rw e (omega (arith, length-append ct tag))
    | inr e ↦ rw e (omega arith)
  ]

  -- Of two ends with equal cipher states, keyed or not, one opens what the other seals, and their
  -- states are equal again.
  pub decrypt_with_ad-encrypt_with_ad :
      (ad plaintext : List ℕ) (c : CipherState)
      → decrypt_with_ad ad (encrypt_with_ad ad plaintext c).1 c
        ≡ ((encrypt_with_ad ad plaintext c).0, some plaintext)
  unfolding decrypt_with_ad encrypt_with_ad
  decrypt_with_ad-encrypt_with_ad ad plaintext c = elim (Bool-cases c.has_key) [
    | inl e ↦ rw e (rw (aead_decrypt-aead_encrypt P c.key c.nonce ad plaintext) refl)
    | inr e ↦ rw e refl
  ]

  pub decrypt_and_hash-encrypt_and_hash :
      (plaintext : List ℕ) (s : SymmetricState)
      → decrypt_and_hash (encrypt_and_hash plaintext s).1 s
        ≡ ((encrypt_and_hash plaintext s).0, some plaintext)
  unfolding decrypt_and_hash encrypt_and_hash
  decrypt_and_hash-encrypt_and_hash plaintext s =
      rw (decrypt_with_ad-encrypt_with_ad s.h plaintext s.cipher) refl
