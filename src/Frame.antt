-- ===== src/Frame.antt =====
-- include/esphome/api/frame/frame_helper.hpp: what a frame codec offers to the connection.
use cpp_esphome_api.Base.{ℕ, ◌*◌, ◌<◌, ◌≡◌, ◌⊎◌, Bool, false, List}
use cpp_esphome_api.Errors.{Exception, What}

-- FrameStatus with the out-parameters of `next`, which only `ok` sets, and what `next` throws.
pub data FrameStatus : Type 0 where
  ok : ℕ → List ℕ → FrameStatus
  need_more : FrameStatus
  throws : Exception → FrameStatus

-- 16 MiB.
abbrev pub max_frame_payload : ℕ
max_frame_payload = 16 * 1024 * 1024

-- One round of `next`. A codec with a handshake consumes handshake frames inside `next`, calls back
-- (`ready`, `handshake_failed`) or does not (`again`), and goes on; the other answers end the call.
pub data Round : Type 0 where
  status : FrameStatus → Round
  ready : Round
  again : Round
  handshake_failed : What → Round

-- A codec, by its operations on its own state. `size` bounds the rounds that are left: every round
-- that does not ask for more or throw takes bytes off the buffer, and `encode` adds none.
pub record FrameHelper : Type 1 where
  pub State : Type 0
  pub encode : ℕ → List ℕ → State → State × List ℕ
  pub feed : State → List ℕ → State
  pub round : State → State × Round
  pub needs_handshake : Bool
  pub connect_bytes : State → State × List ℕ
  pub size : State → ℕ
  pub size-encode : (t : ℕ) (payload : List ℕ) (s : State) → size (encode t payload s).0 ≡ size s
  pub size-round :
      (s : State)
      → ((round s).1 ≡ status need_more)
        ⊎ ((e : Exception) × ((round s).1 ≡ status (throws e)))
        ⊎ (size (round s).0 < size s)
  pub handshake_only :
      needs_handshake ≡ false → (s : State) → (st : FrameStatus) × ((round s).1 ≡ status st)
