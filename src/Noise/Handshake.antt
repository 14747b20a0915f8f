-- ===== src/Noise/Handshake.antt =====
-- src/crypto/noise_handshake.cpp. A method that throws or returns false answers `none` and leaves the
-- state that it had reached.
use cpp_esphome_api.Base.{
  ℕ, Bool, true, false, Option, none, some, List, [], ◌∷◌, ◌++◌, ltb, if◌then◌else◌, length, take,
  replicate,
}
use cpp_esphome_api.Bytes.{subview}
use cpp_esphome_api.Noise.Primitives.{Detail, key_len, x25519, x25519_base}
use cpp_esphome_api.Noise.States.{
  CipherState, SymmetricState, initialize_symmetric, mix_key, mix_hash, mix_key_and_hash,
  encrypt_and_hash, decrypt_and_hash, split_symmetric,
}

pub data Role : Type 0 where
  initiator responder : Role

pub record NoiseHandshake : Type 0 where
  pub role : Role
  pub psk : List ℕ
  pub symmetric : SymmetricState
  pub ephemeral_private : List ℕ
  pub ephemeral_public : List ℕ
  pub remote_ephemeral : List ℕ
  pub have_ephemeral : Bool
  pub complete : Bool

-- "Noise_NNpsk0_25519_ChaChaPoly_SHA256"
abbrev pub protocol_name : List ℕ
protocol_name =
    78 ∷ 111 ∷ 105 ∷ 115 ∷ 101 ∷ 95 ∷ 78 ∷ 78 ∷ 112 ∷ 115 ∷ 107 ∷ 48 ∷ 95 ∷ 50 ∷ 53 ∷ 53 ∷ 49 ∷ 57
    ∷ 95 ∷ 67 ∷ 104 ∷ 97 ∷ 67 ∷ 104 ∷ 97 ∷ 80 ∷ 111 ∷ 108 ∷ 121 ∷ 95 ∷ 83 ∷ 72 ∷ 65 ∷ 50 ∷ 53 ∷ 54
    ∷ []

module _ (P : Detail) where
  -- On a new object; a second call would keep the old ephemeral keys, which are not read then.
  unfoldable pub initialize : Role → List ℕ → List ℕ → NoiseHandshake
  initialize role psk prologue = record {
    role = role;
    psk = psk;
    symmetric = mix_hash P prologue (initialize_symmetric P protocol_name);
    ephemeral_private = replicate 32 0;
    ephemeral_public = replicate 32 0;
    remote_ephemeral = replicate 32 0;
    have_ephemeral = false;
    complete = false;
  }

  -- `fresh` is what the system's random source gives for a private key.
  unfoldable pub ensure_ephemeral : List ℕ → NoiseHandshake → NoiseHandshake
  ensure_ephemeral fresh n = if n.have_ephemeral then n else record n {
    ephemeral_private = fresh;
    ephemeral_public = x25519_base P fresh;
    have_ephemeral = true;
  }

  unfoldable pub set_ephemeral_for_testing : List ℕ → NoiseHandshake → NoiseHandshake
  set_ephemeral_for_testing private_key n = record n {
    ephemeral_private = private_key;
    ephemeral_public = x25519_base P private_key;
    have_ephemeral = true;
  }

  -- The `e` token: the key goes into the hash and, under a psk, into the chaining key too.
  unfoldable pub mix_ephemeral : List ℕ → SymmetricState → SymmetricState
  mix_ephemeral public_key s = mix_key P public_key (mix_hash P public_key s)

  -- -> psk, e
  unfoldable pub write_first : List ℕ → NoiseHandshake → NoiseHandshake × Option (List ℕ)
  write_first payload n =
      let (s, ct) =
        encrypt_and_hash P payload
          (mix_ephemeral n.ephemeral_public (mix_key_and_hash P n.psk n.symmetric)) in
      (record n { symmetric = s }, some (n.ephemeral_public ++ ct))

  -- <- e, ee: the second message with the shared secret, or without one.
  unfoldable pub write_secret :
      List ℕ → NoiseHandshake → Option (List ℕ) → NoiseHandshake × Option (List ℕ)
  write_secret payload n none =
      (record n { symmetric = mix_ephemeral n.ephemeral_public n.symmetric }, none)
  write_secret payload n (some dh) =
      let s = mix_ephemeral n.ephemeral_public n.symmetric in
      let (s', ct) = encrypt_and_hash P payload (mix_key P dh s) in
      (record n { symmetric = s'; complete = true }, some (n.ephemeral_public ++ ct))

  unfoldable pub write_second : List ℕ → NoiseHandshake → NoiseHandshake × Option (List ℕ)
  write_second payload n = write_secret payload n (x25519 P n.ephemeral_private n.remote_ephemeral)

  unfoldable pub write_message : List ℕ → List ℕ → NoiseHandshake → NoiseHandshake × Option (List ℕ)
  write_message fresh payload n =
      let m = ensure_ephemeral fresh n in
      elim n.role [ initiator ↦ write_first payload m | responder ↦ write_second payload m ]

  unfoldable pub read_first : List ℕ → NoiseHandshake → NoiseHandshake × Option (List ℕ)
  read_first rest n =
      let (s, payload) =
        decrypt_and_hash P rest
          (mix_ephemeral n.remote_ephemeral (mix_key_and_hash P n.psk n.symmetric)) in
      (record n { symmetric = s }, payload)

  -- The handshake is complete once the payload has been opened.
  unfoldable pub finished :
      NoiseHandshake → SymmetricState × Option (List ℕ) → NoiseHandshake × Option (List ℕ)
  finished n (s, none) = (record n { symmetric = s }, none)
  finished n (s, some payload) = (record n { symmetric = s; complete = true }, some payload)

  unfoldable pub read_secret :
      List ℕ → NoiseHandshake → Option (List ℕ) → NoiseHandshake × Option (List ℕ)
  read_secret rest n none =
      (record n { symmetric = mix_ephemeral n.remote_ephemeral n.symmetric }, none)
  read_secret rest n (some dh) =
      let s = mix_ephemeral n.remote_ephemeral n.symmetric in
      finished n (decrypt_and_hash P rest (mix_key P dh s))

  unfoldable pub read_second : List ℕ → NoiseHandshake → NoiseHandshake × Option (List ℕ)
  read_second rest n = read_secret rest n (x25519 P n.ephemeral_private n.remote_ephemeral)

  unfoldable pub read_message : List ℕ → NoiseHandshake → NoiseHandshake × Option (List ℕ)
  read_message message n =
      let m = record n { remote_ephemeral = take key_len message } in
      let rest = subview message key_len in
      if ltb (length message) key_len
      then (n, none)
      else elim n.role [ responder ↦ read_first rest m | initiator ↦ read_second rest m ]

  -- The send cipher, then the receive cipher.
  unfoldable pub split : NoiseHandshake → CipherState × CipherState
  split n =
      let (c1, c2) = split_symmetric P n.symmetric in
      elim n.role [ initiator ↦ (c1, c2) | responder ↦ (c2, c1) ]
