-- ===== src/Plaintext/Stream/Chunks.antt =====
-- Frames survive any cut of the stream into chunks, and no frame is made up or lost.
use cpp_esphome_api.Base.{
  ℕ, zero, suc, ◌≤◌, ◌<◌, ◌≡◌, refl, sym, ap, ◌∙◌, ◌≢◌, ◌⊎◌, inl, inr, List, [], ◌∷◌, ◌++◌,
  append-nil, append_assoc, arith, length, take, drop, length-append, length-drop, drop-append,
}
use mathlib.Core.List.{flatten}
use mathlib.Core.Path.{ap₂}
use cpp_esphome_api.Errors.{Exception}
use cpp_esphome_api.Plaintext.{PlaintextFrameHelper, new, feed, partial, parse, encode}
use cpp_esphome_api.Plaintext.Bounds.{parse-Lies, is_partial, is_malformed, is_found, outcome}
use cpp_esphome_api.Plaintext.Stages.{IsFrame, frame_bytes, encode-frame_bytes}
use cpp_esphome_api.Plaintext.RoundTrip.{parse-frame_bytes, parse-take_frame}
use cpp_esphome_api.Plaintext.Stream.{
  pending, pending-feed, Ending, waiting, threw, stuck, Received, drain, enough, receive, Split,
  split, splits, continue, Agrees, drain-Agrees, split_found, split_fuel, splits_found,
  splits-append, split-ne-stuck,
}

-- Nothing is complete.
abbrev pub idle : List ℕ → Split
idle p = record { rest = p; frames = []; ending = waiting }

pub splits_partial : (p : List ℕ) → parse p ≡ partial → splits p ≡ idle p
unfolding splits split
splits_partial p d = rw (d, split)

pub splits_nil : splits [] ≡ idle []
unfolding splits split parse
splits_nil = refl

-- What is left waiting has no complete frame at its front.
rest-idle :
    (fuel : ℕ) (p : List ℕ)
    → (split fuel p).ending ≡ waiting
    → splits (split fuel p).rest ≡ idle (split fuel p).rest
unfolding split
rest-idle zero p e = cc
rest-idle (suc fuel) p e = elim (outcome p) [
  | is_partial d ↦ rw (d, split) (splits_partial p d)
  | is_malformed x d ↦ cc (rw (d, split) at e)
  | is_found t used payload d l ↦
      rw (split_found fuel p d) (rest-idle fuel (drop used p) (rw (split_found fuel p d) at e))
]

record Reads (r : Received) (s : Split) : Type 0 where
  pub frames : r.frames ≡ s.frames
  pub ending : r.ending ≡ s.ending
  pub rest : s.ending ≡ waiting → pending r.helper ≡ s.rest

abbrev first : PlaintextFrameHelper → List ℕ → Received
first h chunk = drain (enough (feed h chunk)) (feed h chunk)

first-Agrees :
    (h : PlaintextFrameHelper) (chunk : List ℕ)
    → h.consumed ≤ length h.buffer
    → Agrees (first h chunk) (splits (pending h ++ chunk))
unfolding splits
first-Agrees h chunk w =
    let sound : (feed h chunk).consumed ≤ length (feed h chunk).buffer =
      unfold feed in omega (arith, length-append h.buffer chunk) in
    let len : length (pending (feed h chunk)) < enough (feed h chunk) =
      omega (arith, length-drop (feed h chunk).consumed (feed h chunk).buffer) in
    rw
      (
        split_fuel _ (suc (length (pending (feed h chunk)))) (pending (feed h chunk)) len
            (omega arith),
        pending-feed h chunk w,
      )
      at (drain-Agrees (enough (feed h chunk)) (feed h chunk) sound)

receive_waiting :
    (h : PlaintextFrameHelper) (chunk : List ℕ) (chunks : List (List ℕ))
    → (first h chunk).ending ≡ waiting
    → receive h (chunk ∷ chunks) ≡ (
        let more = receive (first h chunk).helper chunks in
        record more { frames = (first h chunk).frames ++ more.frames })
unfolding receive
receive_waiting h chunk chunks e = rw (e, receive)

receive_stopped :
    (h : PlaintextFrameHelper) (chunk : List ℕ) (chunks : List (List ℕ)) (x : Exception)
    → (first h chunk).ending ≡ threw x
    → receive h (chunk ∷ chunks) ≡ first h chunk
unfolding receive
receive_stopped h chunk chunks x e = ground arith

pub splits-ne-stuck : (p : List ℕ) → (splits p).ending ≢ stuck
unfolding splits
splits-ne-stuck p = split-ne-stuck (suc (length p)) p (omega arith)

pub splits_rest-idle :
    (p : List ℕ) → (splits p).ending ≡ waiting → splits (splits p).rest ≡ idle (splits p).rest
unfolding splits
splits_rest-idle p = rest-idle (suc (length p)) p

pub continue_waiting :
    (s : Split) (more : List ℕ)
    → s.ending ≡ waiting
    → continue s more
      ≡ (let t = splits (s.rest ++ more) in record t { frames = s.frames ++ t.frames })
unfolding continue
continue_waiting s more e = rw (e, continue)

pub continue_stopped :
    (s : Split) (more : List ℕ) (x : Exception)
    → s.ending ≡ threw x
    → continue s more ≡ record s { rest = s.rest ++ more }
unfolding continue
continue_stopped s more x e = ground arith

pub Ending-cases : (e : Ending) → e ≢ stuck → (e ≡ waiting) ⊎ ((x : Exception) × (e ≡ threw x))
Ending-cases waiting h = inl refl
Ending-cases (threw x) h = inr (x, refl)
Ending-cases stuck h = absurd (h refl)

receive-Reads :
    (h : PlaintextFrameHelper) (chunks : List (List ℕ))
    → h.consumed ≤ length h.buffer
    → splits (pending h) ≡ idle (pending h)
    → Reads (receive h chunks) (splits (pending h ++ flatten chunks))
unfolding flatten
receive-Reads h [] w e =
    unfold receive in
    rw (append-nil (pending h), e) (record { frames = refl; ending = refl; rest = λ _. refl })
receive-Reads h (chunk ∷ chunks) w e =
    let q = pending h ++ chunk in
    let a = first-Agrees h chunk w in
    rw (← append_assoc (pending h) chunk (flatten chunks), splits-append q (flatten chunks))
      (elim (Ending-cases (splits q).ending (splits-ne-stuck q)) [
        | inl go_on ↦
            let more =
              receive-Reads (first h chunk).helper chunks a.sound
                (rw a.same_rest (splits_rest-idle q go_on)) in
            rw
              (
                continue_waiting (splits q) (flatten chunks) go_on,
                receive_waiting h chunk chunks (a.same_ending ∙ go_on),
              )
              (record {
                frames = ap₂ (◌++◌) a.same_frames (rw a.same_rest at more.frames);
                ending = rw a.same_rest at more.ending;
                rest = rw a.same_rest at more.rest;
              })
        | inr (x, stop) ↦
            rw
              (
                continue_stopped (splits q) (flatten chunks) x stop,
                receive_stopped h chunk chunks x (a.same_ending ∙ stop),
              )
              (record { frames = a.same_frames; ending = a.same_ending; rest = λ c. cc })
      ])

-- The chunks do not matter: frames and ending are those of the same bytes in one piece.
pub receive-flatten :
    (chunks : List (List ℕ))
    → ((receive new chunks).frames ≡ (receive new (flatten chunks ∷ [])).frames)
      × ((receive new chunks).ending ≡ (receive new (flatten chunks ∷ [])).ending)
unfolding new flatten splits split parse
receive-flatten chunks =
    let a = receive-Reads new chunks (omega arith) refl in
    let b = receive-Reads new (flatten chunks ∷ []) (omega arith) refl in
    let e : flatten chunks ++ [] ≡ flatten chunks = append-nil (flatten chunks) in
    (a.frames ∙ sym (rw e at b.frames), a.ending ∙ sym (rw e at b.ending))

-- A client's outgoing bytes: each message is encoded behind the ones before.
unfoldable pub encode_all : List (ℕ × List ℕ) → List ℕ → List ℕ
encode_all [] out = out
encode_all ((msg_type, payload) ∷ fs) out = encode_all fs (encode msg_type payload out)

abbrev pub Frames : List (ℕ × List ℕ) → Type 0
Frames [] = Unit {0}
Frames ((msg_type, payload) ∷ fs) = IsFrame msg_type payload × Frames fs

abbrev pub wire : List (ℕ × List ℕ) → List ℕ
wire [] = []
wire ((msg_type, payload) ∷ fs) = frame_bytes msg_type payload ++ wire fs

pub encode_all-wire :
    (fs : List (ℕ × List ℕ)) (out : List ℕ) → Frames fs → encode_all fs out ≡ out ++ wire fs
unfolding encode_all
encode_all-wire [] out h = sym (append-nil out)
encode_all-wire ((t, payload) ∷ fs) out (f, hs) =
    rw (encode-frame_bytes t payload out (omega (arith, f.payload_fits))) (
      encode_all-wire fs (out ++ frame_bytes t payload) hs
      ∙ append_assoc out (frame_bytes t payload) (wire fs))

-- The frames at the front of the bytes come out in order; what is no frame yet is left.
pub splits-wire :
    (fs : List (ℕ × List ℕ)) (tail : List ℕ)
    → Frames fs
    → parse tail ≡ partial
    → splits (wire fs ++ tail) ≡ record { rest = tail; frames = fs; ending = waiting }
splits-wire [] tail h cut = splits_partial tail cut
splits-wire ((t, payload) ∷ fs) tail (f, hs) cut =
    let F = frame_bytes t payload in
    let d = parse-frame_bytes t payload (wire fs ++ tail) f in
    rw (append_assoc F (wire fs) tail) (
      splits_found (F ++ (wire fs ++ tail)) d (parse-Lies _ _ _ _ d)
      ∙ rw (drop-append F (wire fs ++ tail), splits-wire fs tail hs cut))

-- Reading in any chunks gives back the frames that were encoded, in order. If the last frame has
-- arrived in part only, that part stays in the buffer and reading waits for the rest.
pub receive-encode_all :
    (fs : List (ℕ × List ℕ)) (chunks : List (List ℕ)) (msg_type n : ℕ) (payload : List ℕ)
    → Frames fs
    → IsFrame msg_type payload
    → n < length (encode msg_type payload [])
    → flatten chunks ≡ encode_all fs [] ++ take n (encode msg_type payload [])
    → ((receive new chunks).frames ≡ fs)
      × ((receive new chunks).ending ≡ waiting)
      × (pending (receive new chunks).helper ≡ take n (encode msg_type payload []))
unfolding new
receive-encode_all fs chunks t n payload hs f short e =
    let bytes = encode-frame_bytes t payload [] (omega (arith, f.payload_fits)) in
    let cut : parse (take n (encode t payload [])) ≡ partial =
      rw bytes (parse-take_frame t n payload f (rw bytes at short)) in
    let whole : flatten chunks ≡ wire fs ++ take n (encode t payload []) =
      rw (encode_all-wire fs [] hs) at e in
    let s = splits-wire fs (take n (encode t payload [])) hs cut in
    let r = receive-Reads new chunks (omega arith) (unfold splits split parse in refl) in
    let all : splits (flatten chunks)
        ≡ record { rest = take n (encode t payload []); frames = fs; ending = waiting } =
      rw whole s in
    (
      r.frames ∙ ap (λ x. x.frames) all,
      r.ending ∙ ap (λ x. x.ending) all,
      r.rest (ap (λ x. x.ending) all) ∙ ap (λ x. x.rest) all,
    )
