-- ===== src/Noise.antt =====
-- include/esphome/api/crypto/ and src/crypto/: the Noise NNpsk0 handshake and its transport ciphers.
-- `Primitives` derives what the handshake uses from the vendored cryptography, `States` holds the
-- cipher and the symmetric state, `Handshake` the two messages, `Agreement` what they bring about.
pub mod Primitives
pub mod Base64
pub mod States
pub mod Handshake
pub mod Agreement
pub mod Tests
