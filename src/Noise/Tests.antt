-- ===== src/Noise/Tests.antt =====
-- The handshake at concrete inputs, over stand-ins for the cryptography that keep its laws.
use cpp_esphome_api.Base.{ℕ, ◌≡◌, refl, some, List, [], ◌∷◌, ◌++◌, arith, take, replicate, All}
use cpp_esphome_api.Bytes.{IsByte}
use cpp_esphome_api.Noise.Base64.{
  base64_decode, decode_quartets, base64_value, third, fourth, byte_one, byte_two,
}
use cpp_esphome_api.Noise.Base64.Encode.{base64_encode, base64_decode-base64_encode}
use cpp_esphome_api.Noise.Base64.Inverse.{base64_encode-base64_decode}
use cpp_esphome_api.Noise.Primitives.{Detail, x25519, x25519_base, fold_or}
use cpp_esphome_api.Noise.States.{
  initialize_key, encrypt_with_ad, decrypt_with_ad, decrypt_with_ad-encrypt_with_ad,
}
use cpp_esphome_api.Noise.Handshake.{
  initiator, responder, NoiseHandshake, initialize, write_message, read_message,
}
use cpp_esphome_api.Noise.Agreement.{IsPaired, handshake_agrees}

abbrev pub toy : Detail
toy = record {
  sha256 = λ d. take 32 (d ++ replicate 32 0);
  chacha20poly1305_encrypt = λ key npub ad plaintext. (plaintext, replicate 16 5);
  chacha20poly1305_decrypt = λ key npub ad ciphertext tag. some ciphertext;
  x25519_scalarmult = λ private_key peer_public. replicate 32 7;
  x25519_scalarmult_base = λ private_key. replicate 32 9;
  ciphertext_length = λ key npub ad plaintext. refl;
  tag_length = λ key npub ad plaintext. refl;
  decrypt-encrypt = λ key npub ad plaintext. refl;
  public_length = λ private_key. refl;
  shared = λ a b. refl;
}

abbrev pub secret : List ℕ
secret = replicate 32 7

pub secret_found : x25519 toy (1 ∷ []) (x25519_base toy (2 ∷ [])) ≡ some secret
unfolding x25519 fold_or
secret_found = refl

handshake_agrees_example :
    (m1 : List ℕ) × (m2 : List ℕ) × (i1 : NoiseHandshake) × (i2 : NoiseHandshake)
    × (r1 : NoiseHandshake) × (r2 : NoiseHandshake) × (write_message toy
          (1 ∷ [])
          []
          (initialize toy initiator secret (8 ∷ []))
        ≡ (i1, some m1))
    × (read_message toy m1 (initialize toy responder secret (8 ∷ [])) ≡ (r1, some []))
    × (write_message toy (2 ∷ []) (4 ∷ []) r1 ≡ (r2, some m2))
    × (read_message toy m2 i1 ≡ (i2, some (4 ∷ [])))
    × IsPaired toy i2 r2
handshake_agrees_example =
    handshake_agrees toy secret (8 ∷ []) (1 ∷ []) (2 ∷ []) [] (4 ∷ []) secret secret_found

decrypt_with_ad-encrypt_with_ad_example :
    decrypt_with_ad toy
      (3 ∷ [])
      (encrypt_with_ad toy (3 ∷ []) (6 ∷ []) (initialize_key secret)).1
      (initialize_key secret)
    ≡ ((encrypt_with_ad toy (3 ∷ []) (6 ∷ []) (initialize_key secret)).0, some (6 ∷ []))
decrypt_with_ad-encrypt_with_ad_example =
    decrypt_with_ad-encrypt_with_ad toy (3 ∷ []) (6 ∷ []) (initialize_key secret)

abbrev key_text : List ℕ
key_text = base64_encode (77 ∷ 0 ∷ [])

base64_decode-base64_encode_example : base64_decode key_text ≡ some (77 ∷ 0 ∷ [])
base64_decode-base64_encode_example =
    base64_decode-base64_encode (77 ∷ 0 ∷ []) (omega arith, (omega arith, _))

-- "TQA=" and the two bytes it stands for.
base64_encode-base64_decode_example :
    (base64_encode (77 ∷ 0 ∷ []) ≡ 84 ∷ 81 ∷ 65 ∷ 61 ∷ []) × All IsByte (77 ∷ 0 ∷ [])
unfolding base64_decode decode_quartets base64_value third fourth byte_one byte_two
base64_encode-base64_decode_example =
    base64_encode-base64_decode (84 ∷ 81 ∷ 65 ∷ 61 ∷ []) (77 ∷ 0 ∷ []) refl
