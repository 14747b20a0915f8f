-- ===== src/Connection/Delivery/Encrypted/Partial.antt =====
-- The encrypted codec on bytes that hold no whole frame, and its relation to the one that sends.
use cpp_esphome_api.Base.{
  ℕ, ◌+◌, ◌≤◌, ◌<◌, ◌≡◌, refl, sym, ap, ◌∙◌, true, List, [], ◌∷◌, ◌++◌, arith, length, take, drop,
  take-append, take-append_le, drop-append_le, drop-append, take-append-drop,
}
use cpp_esphome_api.Frame.{Round, status, FrameHelper}
use cpp_esphome_api.Frame
use cpp_esphome_api.Noise.Primitives.{Detail}
use cpp_esphome_api.NoiseFrame.{
  NoiseFrameHelper, append_u16, indicator, partial, parse_raw, settle, dispatch, round, encode,
}
use cpp_esphome_api.NoiseFrame.Frames.{pending, next_raw-pending, parse_raw-take}
use cpp_esphome_api.NoiseFrame.Helper.{noise_codec}
use cpp_esphome_api.NoiseFrame.Session.{
  InStep, sealed, encode-sealed, sealed_fits, encode_all, AllMessages,
}
use cpp_esphome_api.Connection.State.{connected, Connection}
use cpp_esphome_api.Connection.Delivery.OneFrame.{Keeps}

abbrev pub Session : Type 0
Session = Connection NoiseFrameHelper

-- A connected session that has a handler for every message and is in step with the device.
pub record IsOpen (sender : NoiseFrameHelper) (c : Session) : Type 0 where
  pub state : c.state ≡ connected
  pub any : c.handlers.any_handler ≡ true
  pub sound : c.frames.consumed ≤ length c.frames.buffer
  pub steps : InStep sender c.frames

pub nil_front : (p more : List ℕ) → p ++ more ≡ [] → p ≡ []
nil_front [] more e = refl
nil_front (x ∷ p) more e = cc

pub split_front :
    (p more front back : List ℕ)
    → p ++ more ≡ front ++ back
    → length front ≤ length p
    → (p ≡ front ++ drop (length front) p) × (drop (length front) p ++ more ≡ back)
split_front p more front back e le =
    let n = length front in
    let same : take n p ≡ front =
      sym (take-append_le n p more le) ∙ ap (take n) e ∙ take-append front back in
    (
      sym (take-append-drop n p) ∙ ap (λ x. x ++ drop n p) same,
      sym (drop-append_le n p more le) ∙ ap (drop n) e ∙ drop-append front back,
    )

part_of_front :
    (p more front back : List ℕ)
    → p ++ more ≡ front ++ back
    → length p < length front
    → p ≡ take (length p) front
part_of_front p more front back e lt =
    sym (take-append p more)
    ∙ ap (take (length p)) e
    ∙ take-append_le (length p) front back (omega arith)

module _ (P : Detail) (fresh : List ℕ) where
  abbrev pub SameInput : NoiseFrameHelper → NoiseFrameHelper → Type 0
  SameInput a b =
      (b.state ≡ a.state)
      × (b.decrypt ≡ a.decrypt)
      × (b.buffer ≡ a.buffer)
      × (b.consumed ≡ a.consumed)

  -- Encoding changes the cipher that sends, and nothing that receives.
  pub encode-SameInput :
      (t : ℕ) (payload : List ℕ) (s : NoiseFrameHelper) → SameInput s (encode P t payload s).0
  unfolding encode
  encode-SameInput t payload s = (refl, refl, refl, refl)

  abbrev pub noise_keeps : Keeps (noise_codec P fresh)
  noise_keeps = record {
    Same = SameInput;
    same = λ s. (refl, refl, refl, refl);
    then_ = λ p q. (q.0 ∙ p.0, q.1 ∙ p.1, q.2 ∙ p.2, q.3 ∙ p.3);
    encodes = encode-SameInput;
  }

  -- Not even the first of the messages that are to come has come.
  unfoldable pub IsShort : List (ℕ × List ℕ) → NoiseFrameHelper → List ℕ → Type 0
  IsShort [] sender p = p ≡ []
  IsShort ((t, payload) ∷ ms) sender p = length p < length (encode P t payload sender).1

  pub round_partial :
      (h : NoiseFrameHelper)
      → parse_raw (pending h) ≡ partial
      → round P h
        ≡ (record h { buffer = pending h; consumed = 0 }, status Frame.FrameStatus.need_more)
  unfolding round dispatch settle
  round_partial h e = rw (next_raw-pending h, e) refl

  pub short-partial :
      (ms : List (ℕ × List ℕ)) (sender : NoiseFrameHelper) (p more : List ℕ)
      → AllMessages P ms
      → p ++ more ≡ (encode_all P ms sender).1
      → IsShort ms sender p
      → parse_raw p ≡ partial
  unfolding IsShort parse_raw
  short-partial [] sender p more m e short = rw short refl
  short-partial ((t, payload) ∷ ms) sender p more (m, ms_fit) e short =
      let W = (encode P t payload sender).1 in
      let ct = sealed P t payload sender in
      let framed : W ≡ append_u16 (indicator ∷ []) (length ct) ++ ct =
        encode-sealed P t payload sender in
      let part = part_of_front p more W _ e short in
      let len : length W ≡ 3 + length ct = ap length framed ∙ unfold append_u16 in omega arith in
      rw part
        (rw framed (parse_raw-take (length p) ct (sealed_fits P t payload sender m) (omega arith)))

  -- The sender behind some messages, and the bytes of more of them.
  abbrev pub behind : List (ℕ × List ℕ) → NoiseFrameHelper → NoiseFrameHelper
  behind ms sender = (encode_all P ms sender).0

  abbrev pub bytes_of : List (ℕ × List ℕ) → NoiseFrameHelper → List ℕ
  bytes_of ms sender = (encode_all P ms sender).1

  pub behind-append :
      (ms ns : List (ℕ × List ℕ)) (sender : NoiseFrameHelper)
      → behind (ms ++ ns) sender ≡ behind ns (behind ms sender)
  behind-append [] ns sender = refl
  behind-append ((t, payload) ∷ ms) ns sender = behind-append ms ns (encode P t payload sender).0

  pub AllMessages-parts :
      (ms ns : List (ℕ × List ℕ)) → AllMessages P (ms ++ ns) → AllMessages P ms × AllMessages P ns
  AllMessages-parts [] ns h = (tt, h)
  AllMessages-parts ((t, payload) ∷ ms) ns (m, h) =
      let (left, right) = AllMessages-parts ms ns h in ((m, left), right)
