-- ===== src/Plaintext/Stream.antt =====
-- A stream of bytes read in chunks: what comes out depends on the bytes and not on the chunks.
pub mod Chunks
use cpp_esphome_api.Base.{
  ℕ, zero, suc, ◌≤◌, ◌<◌, ◌≡◌, refl, sym, ap, ◌∙◌, ◌≢◌, List, [], ◌∷◌, ◌++◌, arith, length, take,
  drop, length-drop, take-append-drop, drop-append_le, drop_all,
}
use cpp_esphome_api.Errors.{Exception}
use cpp_esphome_api.Frame.{FrameStatus, ok, need_more, throws}
use cpp_esphome_api.Plaintext.{
  PlaintextFrameHelper, feed, compact, Parsed, found, partial, malformed, parse, settle, next,
}
use cpp_esphome_api.Plaintext.Bounds.{
  Lies, parse-Lies, parse-append, is_partial, is_malformed, is_found, outcome,
}

-- The bytes that are not yet part of a delivered frame.
abbrev pub pending : PlaintextFrameHelper → List ℕ
pending h = drop h.consumed h.buffer

compact-pending :
    (h : PlaintextFrameHelper) → compact h ≡ record { buffer = pending h; consumed = 0 }
unfolding compact
compact-pending h = ground (arith, drop_all h.consumed h.buffer)

-- `next` parses the pending bytes.
pub next-parse :
    (h : PlaintextFrameHelper)
    → next h ≡ settle (record { buffer = pending h; consumed = 0 }) (parse (pending h))
unfolding next
next-parse h = rw (compact-pending h)

pub pending-feed :
    (h : PlaintextFrameHelper) (chunk : List ℕ)
    → h.consumed ≤ length h.buffer
    → pending (feed h chunk) ≡ pending h ++ chunk
unfolding feed
pending-feed h chunk w = drop-append_le h.consumed h.buffer chunk w

-- How reading stops: for want of bytes, or at a malformed frame. `stuck` means that the fuel ran out.
pub data Ending : Type 0 where
  waiting : Ending
  threw : Exception → Ending
  stuck : Ending

pub record Received : Type 0 where
  pub helper : PlaintextFrameHelper
  pub frames : List (ℕ × List ℕ)
  pub ending : Ending

-- One answer of `next`, and what the loop does after it.
after_next : (PlaintextFrameHelper → Received) → PlaintextFrameHelper × FrameStatus → Received
after_next loop (h, ok msg_type payload) =
    let r = loop h in record r { frames = (msg_type, payload) ∷ r.frames }
after_next loop (h, need_more) = record { helper = h; frames = []; ending = waiting }
after_next loop (h, throws e) = record { helper = h; frames = []; ending = threw e }

-- The read loop of a client: `while (next(type, payload) == FrameStatus::Ok)`.
pub drain : ℕ → PlaintextFrameHelper → Received
unfolding after_next
drain zero h = record { helper = h; frames = []; ending = stuck }
drain (suc fuel) h = after_next (drain fuel) (next h)

-- Every frame takes a byte at least.
abbrev enough : PlaintextFrameHelper → ℕ
enough h = suc (length h.buffer)

-- Each chunk is fed and drained; after an exception nothing more is read.
pub receive : PlaintextFrameHelper → List (List ℕ) → Received
receive h [] = record { helper = h; frames = []; ending = waiting }
receive h (chunk ∷ chunks) =
    let r = drain (enough (feed h chunk)) (feed h chunk) in
    elim r.ending [
      | waiting ↦
          let more = receive r.helper chunks in record more { frames = r.frames ++ more.frames }
      | threw e ↦ r
      | stuck ↦ r
    ]

-- The same on bytes alone.
pub record Split : Type 0 where
  pub rest : List ℕ
  pub frames : List (ℕ × List ℕ)
  pub ending : Ending

split : ℕ → List ℕ → Split
split zero p = record { rest = p; frames = []; ending = stuck }
split (suc fuel) p = elim (parse p) [
  | found msg_type payload used ↦
      let s = split fuel (drop used p) in record s { frames = (msg_type, payload) ∷ s.frames }
  | partial ↦ record { rest = p; frames = []; ending = waiting }
  | malformed e ↦ record { rest = p; frames = []; ending = threw e }
]

record Agrees (r : Received) (s : Split) : Type 0 where
  same_rest : pending r.helper ≡ s.rest
  same_frames : r.frames ≡ s.frames
  same_ending : r.ending ≡ s.ending
  sound : r.helper.consumed ≤ length r.helper.buffer

next_step :
    (h : PlaintextFrameHelper) (r : Parsed)
    → parse (pending h) ≡ r
    → next h ≡ settle (record { buffer = pending h; consumed = 0 }) r
next_step h r d = rw (← d) (next-parse h)

pub parse_nil : parse [] ≡ partial
unfolding parse
parse_nil = refl

pub next_partial :
    (h : PlaintextFrameHelper)
    → parse (pending h) ≡ partial
    → next h ≡ (record { buffer = pending h; consumed = 0 }, need_more)
unfolding settle
next_partial h d = next_step h partial d

pub next_found :
    (h : PlaintextFrameHelper) {t used : ℕ} {payload : List ℕ}
    → parse (pending h) ≡ found t payload used
    → next h ≡ (record { buffer = pending h; consumed = used }, ok t payload)
unfolding settle
next_found h {t} {used} {payload} d = next_step h (found t payload used) d

drain-Agrees :
    (fuel : ℕ) (h : PlaintextFrameHelper)
    → h.consumed ≤ length h.buffer
    → Agrees (drain fuel h) (split fuel (pending h))
unfolding drain split settle
drain-Agrees zero h w = record {
  same_rest = refl;
  same_frames = refl;
  same_ending = refl;
  sound = w;
}
drain-Agrees (suc fuel) h w = elim (outcome (pending h)) [
  | is_partial d ↦
      rw (next_step h partial d, drain, d, split)
        (record { same_rest = refl; same_frames = refl; same_ending = refl; sound = omega arith })
  | is_malformed e d ↦
      rw (next_step h (malformed e) d, drain, d, split)
        (record { same_rest = refl; same_frames = refl; same_ending = refl; sound = omega arith })
  | is_found t used payload d l ↦
      let a = drain-Agrees fuel (record { buffer = pending h; consumed = used }) l.within in
      rw (next_step h (found t payload used) d, drain, d, split)
        (record {
          same_rest = a.same_rest;
          same_frames = ap (◌∷◌ (t, payload)) a.same_frames;
          same_ending = a.same_ending;
          sound = a.sound;
        })
]

split_found :
    (fuel : ℕ) (p : List ℕ) {t used : ℕ} {payload : List ℕ}
    → parse p ≡ found t payload used
    → split (suc fuel) p
      ≡ (let s = split fuel (drop used p) in record s { frames = (t, payload) ∷ s.frames })
unfolding split
split_found fuel p d = rw (d, split)

-- A frame shortens what is left, so the fuel of the rest is enough.
shorter :
    {p payload : List ℕ} {used : ℕ} (fuel : ℕ)
    → Lies p payload used
    → length p < suc fuel
    → length (drop used p) < fuel
shorter {p} {used = used} fuel l h = omega (arith, l.within, l.header, length-drop used p)

-- Enough fuel is as good as more.
split_fuel : (m n : ℕ) (p : List ℕ) → length p < m → length p < n → split m p ≡ split n p
split_fuel zero n p hm hn = absurd (omega arith)
split_fuel (suc m) zero p hm hn = absurd (omega arith)
split_fuel (suc m) (suc n) p hm hn = elim (outcome p) [
  | is_partial d ↦ unfold split in rw (d, split)
  | is_malformed e d ↦ unfold split in rw (d, split)
  | is_found t used payload d l ↦
      let ih = split_fuel m n (drop used p) (shorter m l hm) (shorter n l hn) in
      rw (split_found m p d, split_found n p d, ih)
]

split-ne-stuck : (fuel : ℕ) (p : List ℕ) → length p < fuel → (split fuel p).ending ≢ stuck
split-ne-stuck zero p h = absurd (omega arith)
split-ne-stuck (suc fuel) p h = elim (outcome p) [
  | is_partial d ↦ unfold split in rw (d, split) (λ e. cc)
  | is_malformed x d ↦ unfold split in rw (d, split) (λ e. cc)
  | is_found t used payload d l ↦
      rw (split_found fuel p d) (split-ne-stuck fuel (drop used p) (shorter fuel l h))
]

-- Reading all of `p` with fuel to spare.
pub splits : List ℕ → Split
splits p = split (suc (length p)) p

-- Reading goes on behind what was left waiting.
pub continue : Split → List ℕ → Split
continue s more = elim s.ending [
  | waiting ↦ let t = splits (s.rest ++ more) in record t { frames = s.frames ++ t.frames }
  | threw e ↦ record s { rest = s.rest ++ more }
  | stuck ↦ s
]

-- A frame before the rest.
abbrev before : ℕ × List ℕ → Split → Split
before f s = record s { frames = f ∷ s.frames }

continue-before :
    (f : ℕ × List ℕ) (s : Split) (more : List ℕ)
    → continue (before f s) more ≡ before f (continue s more)
unfolding continue
continue-before f s more = ground arith

pub splits_malformed :
    (p : List ℕ) {e : Exception}
    → parse p ≡ malformed e
    → splits p ≡ record { rest = p; frames = []; ending = threw e }
unfolding splits split
splits_malformed p d = rw (d, split)

pub splits_found :
    (p : List ℕ) {t used : ℕ} {payload : List ℕ}
    → parse p ≡ found t payload used
    → Lies p payload used
    → splits p ≡ before (t, payload) (splits (drop used p))
unfolding splits
splits_found p {used = used} d l =
    split_found (length p) p d
    ∙ ap (before _) (
        split_fuel (length p) (suc (length (drop used p))) (drop used p)
          (shorter (length p) l (omega arith)) (omega arith))

split-append :
    (fuel : ℕ) (p more : List ℕ)
    → length p < fuel
    → splits (p ++ more) ≡ continue (split fuel p) more
split-append zero p more h = absurd (omega arith)
split-append (suc fuel) p more h = elim (outcome p) [
  | is_partial d ↦ unfold split continue in rw (d, split)
  | is_malformed x d ↦
      let d' : parse (p ++ more) ≡ malformed x = parse-append p more (λ e. cc) ∙ d in
      splits_malformed (p ++ more) d' ∙ unfold split continue in rw (d, split)
  | is_found t used payload d l ↦
      let d' : parse (p ++ more) ≡ found t payload used = parse-append p more (λ e. cc) ∙ d in
      let l' = parse-Lies (p ++ more) t payload used d' in
      splits_found (p ++ more) d' l'
      ∙ rw (drop-append_le used p more l.within, split_found fuel p d)
          (ap (before (t, payload)) (split-append fuel (drop used p) more (shorter fuel l h))
            ∙ sym (continue-before (t, payload) (split fuel (drop used p)) more))
]

pub splits-append : (p more : List ℕ) → splits (p ++ more) ≡ continue (splits p) more
splits-append p more = unfold splits in split-append (suc (length p)) p more (omega arith)

-- What one call of `next` does to the bytes that wait: an answer `ok` takes a frame off their front,
-- the payload last in it and no longer than the limit; the other answers leave them all.
abbrev pub Consumes : List ℕ → PlaintextFrameHelper × FrameStatus → Type 0
Consumes p (h, ok msg_type payload) =
    Lies p payload h.consumed × (p ≡ take h.consumed p ++ pending h)
Consumes p (h, need_more) = p ≡ pending h
Consumes p (h, throws e) = p ≡ pending h

-- On every buffer, `next` behaves so, and its cursor stays inside the buffer.
pub next-Consumes :
    (h : PlaintextFrameHelper)
    → Consumes (pending h) (next h) × ((next h).0.consumed ≤ length (next h).0.buffer)
unfolding settle
next-Consumes h = elim (outcome (pending h)) [
  | is_partial d ↦ rw (next_step h partial d) (refl, omega arith)
  | is_malformed e d ↦ rw (next_step h (malformed e) d) (refl, omega arith)
  | is_found t used payload d l ↦
      rw (next_step h (found t payload used) d)
        ((l, sym (take-append-drop used (pending h))), l.within)
]
