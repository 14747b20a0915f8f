-- ===== src/Noise/Agreement.antt =====
-- Both ends of the handshake, run against each other.
use cpp_esphome_api.Base.{
  ℕ, ◌≡◌, refl, sym, ◌∙◌, true, false, some, List, [], ◌∷◌, ◌++◌, arith, ltb, leb, le→ltb-false,
  length, take, length-append, take-append, drop-append,
}
use cpp_esphome_api.Bytes.{subview}
use cpp_esphome_api.Noise.Primitives.{Detail, key_len, x25519, x25519_base}
use cpp_esphome_api.Noise.States.{
  SymmetricState, mix_key, mix_key_and_hash, encrypt_and_hash, decrypt_and_hash-encrypt_and_hash,
}
use cpp_esphome_api.Noise.Handshake.{
  initiator, responder, NoiseHandshake, initialize, ensure_ephemeral, mix_ephemeral, write_first,
  write_second, write_message, read_first, finished, write_secret, read_secret, read_second,
  read_message, split,
}

subview-append : (xs ys : List ℕ) → length xs ≡ 32 → subview (xs ++ ys) 32 ≡ ys
unfolding subview
subview-append xs [] e =
    let whole = length-append xs [] in
    let t : leb (length (xs ++ [])) 32 ≡ true = ground arith in rw t refl
subview-append xs (y ∷ ys) e =
    let whole = length-append xs (y ∷ ys) in
    let t : leb (length (xs ++ (y ∷ ys))) 32 ≡ false = ground arith in
    rw t (rw (sym e) (drop-append xs (y ∷ ys)))

-- What the two ends have in common when both are done: each other's ciphers, crosswise.
abbrev pub IsPaired : Detail → NoiseHandshake → NoiseHandshake → Type 0
IsPaired P i r =
    (i.complete ≡ true)
    × (r.complete ≡ true)
    × ((split P i).0 ≡ (split P r).1)
    × ((split P i).1 ≡ (split P r).0)

module _ (P : Detail) (psk prologue a b hello welcome dh : List ℕ) where
  abbrev pub first : SymmetricState × List ℕ
  first = encrypt_and_hash P hello (
      mix_ephemeral P (x25519_base P a)
        (mix_key_and_hash P psk (initialize P initiator psk prologue).symmetric))

  abbrev pub second : SymmetricState × List ℕ
  second = encrypt_and_hash P welcome (mix_key P dh (mix_ephemeral P (x25519_base P b) first.0))

  abbrev pub caller : NoiseHandshake
  caller = record (initialize P initiator psk prologue) {
    ephemeral_private = a;
    ephemeral_public = x25519_base P a;
    have_ephemeral = true;
    symmetric = first.0;
  }

  abbrev pub callee : NoiseHandshake
  callee = record (initialize P responder psk prologue) {
    remote_ephemeral = x25519_base P a;
    symmetric = first.0;
  }

  abbrev pub caller_done : NoiseHandshake
  caller_done = record caller {
    remote_ephemeral = x25519_base P b;
    symmetric = second.0;
    complete = true;
  }

  abbrev pub callee_done : NoiseHandshake
  callee_done = record callee {
    ephemeral_private = b;
    ephemeral_public = x25519_base P b;
    have_ephemeral = true;
    symmetric = second.0;
    complete = true;
  }

  pub first_sent :
      write_message P a hello (initialize P initiator psk prologue)
      ≡ (caller, some (x25519_base P a ++ first.1))
  unfolding write_message initialize ensure_ephemeral write_first
  first_sent = refl

  base_length : (k : List ℕ) → length (x25519_base P k) ≡ 32
  unfolding x25519_base
  base_length k = P.public_length k

  long_enough : (k rest : List ℕ) → ltb (length (x25519_base P k ++ rest)) key_len ≡ false
  long_enough k rest =
      le→ltb-false _ _ (omega (arith, length-append (x25519_base P k) rest, base_length k))

  key_taken : (k rest : List ℕ) → take 32 (x25519_base P k ++ rest) ≡ x25519_base P k
  key_taken k rest = rw (sym (base_length k)) (take-append (x25519_base P k) rest)

  pub first_read :
      read_message P (x25519_base P a ++ first.1) (initialize P responder psk prologue)
      ≡ (callee, some hello)
  unfolding read_message initialize read_first
  first_read =
      let s =
        mix_ephemeral P (x25519_base P a)
          (mix_key_and_hash P psk (initialize P initiator psk prologue).symmetric) in
      rw
        (
          long_enough a first.1,
          key_taken a first.1,
          subview-append (x25519_base P a) first.1 (base_length a),
          decrypt_and_hash-encrypt_and_hash P hello s,
        )
        refl

  pub second_sent :
      x25519 P b (x25519_base P a) ≡ some dh
      → write_message P b welcome callee ≡ (callee_done, some (x25519_base P b ++ second.1))
  unfolding write_message initialize ensure_ephemeral write_second
  second_sent e = rw e (unfold write_secret in refl)

  pub second_read :
      x25519 P a (x25519_base P b) ≡ some dh
      → read_message P (x25519_base P b ++ second.1) caller ≡ (caller_done, some welcome)
  unfolding read_message initialize read_second
  second_read e =
      let s = mix_key P dh (mix_ephemeral P (x25519_base P b) first.0) in
      rw
        (
          long_enough b second.1,
          key_taken b second.1,
          subview-append (x25519_base P b) second.1 (base_length b),
          e,
        )
        (unfold read_secret in
          rw (decrypt_and_hash-encrypt_and_hash P welcome s) (unfold finished in refl))

  pub same_secret : x25519 P b (x25519_base P a) ≡ x25519 P a (x25519_base P b)
  unfolding x25519 x25519_base
  same_secret = rw (P.shared b a) refl

  pub paired : IsPaired P caller_done callee_done
  unfolding split initialize
  paired = (refl, refl, refl, refl)

-- Two ends with the same key and prologue, whose ephemeral keys have a secret that is not all zeros,
-- complete the handshake: the responder reads the initiator's first message and payload, the
-- initiator the responder's answer and payload, both are complete, and what each sends with is what
-- the other receives with.
pub handshake_agrees :
    (P : Detail) (psk prologue a b hello welcome dh : List ℕ)
    → x25519 P a (x25519_base P b) ≡ some dh
    → (m1 : List ℕ) × (m2 : List ℕ) × (i1 : NoiseHandshake) × (i2 : NoiseHandshake)
      × (r1 : NoiseHandshake) × (r2 : NoiseHandshake) × (write_message P a hello
            (initialize P initiator psk prologue)
          ≡ (i1, some m1))
      × (read_message P m1 (initialize P responder psk prologue) ≡ (r1, some hello))
      × (write_message P b welcome r1 ≡ (r2, some m2))
      × (read_message P m2 i1 ≡ (i2, some welcome))
      × IsPaired P i2 r2
handshake_agrees P psk prologue a b hello welcome dh e = (
  x25519_base P a ++ (first P psk prologue a b hello welcome dh).1,
  x25519_base P b ++ (second P psk prologue a b hello welcome dh).1,
  caller P psk prologue a b hello welcome dh,
  caller_done P psk prologue a b hello welcome dh,
  callee P psk prologue a b hello welcome dh,
  callee_done P psk prologue a b hello welcome dh,
  first_sent P psk prologue a b hello welcome dh,
  first_read P psk prologue a b hello welcome dh,
  second_sent P psk prologue a b hello welcome dh
      (same_secret P psk prologue a b hello welcome dh ∙ e),
  second_read P psk prologue a b hello welcome dh e,
  paired P psk prologue a b hello welcome dh,
)
