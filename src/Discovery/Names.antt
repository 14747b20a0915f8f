-- ===== src/Discovery/Names.antt =====
-- Names as RFC 1035 lays them out, and what `read_name` makes of them.
use cpp_esphome_api.Base.{
  ℕ, zero, suc, ◌+◌, ◌*◌, ◌≤◌, ◌<◌, bit_and, ◌≡◌, refl, sym, ap, ◌∙◌, true, false, Option, some,
  List, [], ◌∷◌, arith, ltb, leb, ◌==◌, if◌then◌else◌, le→ltb-false, length, get_elem?, take, drop,
}
use cpp_esphome_api.Base.Bits.{bit_or_fields, top_two_bits, six_bits}
use cpp_esphome_api.Discovery.{
  Cursor, leave, repeat, join_label, follow_pointer, slice, label_pass, name_pass, proceed,
  name_loop, name_fuel, name_start, read_name,
}
use cpp_esphome_api.Discovery.NameBounds.{name_loop-IsSome, enough}

-- The name at a position, by its labels, and the number of pointers on the way to its end. A label has
-- 1 to 63 bytes behind its length, a pointer has the two top bits set, and a zero ends the name.
pub data NameAt (buf : List ℕ) : ℕ → List (List ℕ) → ℕ → Type 0 where
  ends : (pos : ℕ) → get_elem? buf pos ≡ some 0 → NameAt buf pos [] 0
  labels :
      (pos n : ℕ) (ls : List (List ℕ)) (hops : ℕ)
      → get_elem? buf pos ≡ some n
      → 0 < n
      → n < 64
      → pos + 1 + n ≤ length buf
      → NameAt buf (pos + 1 + n) ls hops
      → NameAt buf pos (take n (drop (pos + 1) buf) ∷ ls) hops
  pointer :
      (pos high low : ℕ) (ls : List (List ℕ)) (hops : ℕ)
      → get_elem? buf pos ≡ some (192 + high)
      → high < 64
      → get_elem? buf (pos + 1) ≡ some low
      → low < 256
      → NameAt buf (high * 256 + low) ls hops
      → NameAt buf pos ls (suc hops)

-- The labels with dots between them, behind what is there.
unfoldable pub joined : List ℕ → List (List ℕ) → List ℕ
joined out [] = out
joined out (l ∷ ls) = joined (join_label out l) ls

inside : (xs : List ℕ) (i x : ℕ) → get_elem? xs i ≡ some x → i < length xs
inside [] i x e = absurd (ground (arith, e))
inside (y ∷ xs) zero x e = omega arith
inside (y ∷ xs) (suc i) x e = let below = inside xs i x e in omega arith

-- Where the record goes on behind a name: after its zero or its first pointer.
unfoldable pub behind :
    {buf : List ℕ} {pos : ℕ} {ls : List (List ℕ)} {hops : ℕ} → NameAt buf pos ls hops → ℕ
behind (ends pos e) = pos + 1
behind (labels pos n ls hops e low high room rest) = behind rest
behind (pointer pos high low ls hops e h el hl rest) = pos + 2

abbrev Answers : Option Cursor → List ℕ → ℕ → Type 0
Answers o name next =
    (d : Cursor) → o ≡ some d → (d.out ≡ name) × ((if d.jumped then d.next else d.pos) ≡ next)

pass_end :
    (buf : List ℕ) (c : Cursor)
    → get_elem? buf c.pos ≡ some 0
    → name_pass buf c ≡ some (leave (record c { pos = c.pos + 1 }))
unfolding name_pass label_pass
pass_end buf c e =
    let room = inside buf c.pos 0 e in
    let t : leb (length buf) c.pos ≡ false = ground (arith, room) in rw (t, e) refl

pass_label :
    (buf : List ℕ) (c : Cursor) (n : ℕ)
    → get_elem? buf c.pos ≡ some n
    → 0 < n
    → n < 64
    → c.pos + 1 + n ≤ length buf
    → name_pass buf c
      ≡ some (
          repeat (record c {
            pos = c.pos + 1 + n;
            out = join_label c.out (take n (drop (c.pos + 1) buf));
          }))
unfolding name_pass label_pass slice
pass_label buf c n e low high room =
    let here : leb (length buf) c.pos ≡ false = ground (arith, inside buf c.pos n e) in
    let bits = top_two_bits n (omega arith) in
    let top : (bit_and n 0xc0 == 0xc0) ≡ false = ground (arith, bits) in
    let some_ : (n == 0) ≡ false = ground arith in
    let fits : ltb (length buf) (c.pos + 1 + n) ≡ false = le→ltb-false _ _ room in
    rw (here, e, top, some_, fits) refl

pass_pointer :
    (buf : List ℕ) (c : Cursor) (high low : ℕ)
    → get_elem? buf c.pos ≡ some (192 + high)
    → high < 64
    → get_elem? buf (c.pos + 1) ≡ some low
    → low < 256
    → c.guard < 128
    → name_pass buf c
      ≡ some (
          repeat (record c {
            pos = high * 256 + low;
            next = if c.jumped then c.next else c.pos + 2;
            jumped = true;
            guard = c.guard + 1;
          }))
unfolding name_pass label_pass follow_pointer
pass_pointer buf c high low e h el hl g =
    let here : leb (length buf) c.pos ≡ false = ground (arith, inside buf c.pos (192 + high) e) in
    let next : leb (length buf) (c.pos + 1) ≡ false =
      ground (arith, inside buf (c.pos + 1) low el) in
    let bits = top_two_bits (192 + high) (omega arith) in
    let top : (bit_and (192 + high) 0xc0 == 0xc0) ≡ true = ground (arith, bits) in
    let six : bit_and (192 + high) 0x3f ≡ high =
      six_bits (192 + high) (omega arith) ∙ omega arith in
    let few : ltb 128 (c.guard + 1) ≡ false = le→ltb-false _ _ (omega arith) in
    rw (here, e, top, next, el, few, six, bit_or_fields 8 high low hl) refl

ended :
    (c : Cursor) (pos : ℕ) (d : Cursor)
    → c.pos ≡ pos
    → record c { pos = c.pos + 1 } ≡ d
    → (d.out ≡ c.out)
      × ((if d.jumped then d.next else d.pos) ≡ (if c.jumped then c.next else pos + 1))
ended c pos d at same = rw (sym same, sym at) (refl, refl)

name_loop-Answers :
    (buf : List ℕ) (fuel : ℕ) (c : Cursor) (pos : ℕ) (ls : List (List ℕ)) (hops : ℕ)
    → c.pos ≡ pos
    → (n : NameAt buf pos ls hops) → c.guard + hops ≤ 128
    → Answers (name_loop fuel buf c) (joined c.out ls) (if c.jumped then c.next else behind n)
unfolding name_loop joined proceed behind
name_loop-Answers buf zero c pos ls hops at n g = λ d e. absurd (ground (arith, e))
name_loop-Answers buf (suc fuel) c _ _ _ at (ends pos e) g =
    let p = pass_end buf c (ap (get_elem? buf) at ∙ e) in
    rw p (λ d e'. ended c pos d at (ground (arith, e')))
name_loop-Answers buf (suc fuel) c _ _ _ at (labels pos n ls hops e low high room rest) g =
    let room' : c.pos + 1 + n ≤ length buf = omega arith in
    let p = pass_label buf c n (ap (get_elem? buf) at ∙ e) low high room' in
    let c' = record c {
      pos = c.pos + 1 + n;
      out = join_label c.out (take n (drop (c.pos + 1) buf));
    } in
    let r = name_loop-Answers buf fuel c' (pos + 1 + n) ls hops (omega arith) rest g in
    rw p (λ d e'.
      let (name, next) = r d e' in
      (name ∙ ap (λ q. joined (join_label c.out (take n (drop (q + 1) buf))) ls) at, next))
name_loop-Answers buf (suc fuel) c _ _ _ at (pointer pos high low ls hops e h el hl rest) g =
    let p =
      pass_pointer buf c high low (ap (get_elem? buf) at ∙ e) h
        (ap (λ x. get_elem? buf (x + 1)) at ∙ el) hl (omega arith) in
    let c' = record c {
      pos = high * 256 + low;
      next = if c.jumped then c.next else c.pos + 2;
      jumped = true;
      guard = c.guard + 1;
    } in
    rw p (λ d e'.
      let (name, next') =
        name_loop-Answers buf fuel c' (high * 256 + low) ls hops refl rest (omega arith) d e' in
      (name, next' ∙ ap (λ q. if c.jumped then c.next else q + 2) at))

-- A name that is laid out in the packet, with at most 128 pointers on the way, is read as its labels with
-- dots between them, and the position behind it is that of its zero or of its first pointer.
pub read_name-NameAt :
    (buf : List ℕ) (pos : ℕ) (ls : List (List ℕ)) (hops : ℕ)
    → (n : NameAt buf pos ls hops) → hops ≤ 128
    → read_name buf pos ≡ some (behind n, joined [] ls)
unfolding read_name
read_name-NameAt buf pos ls hops n h =
    let (d, e) =
      name_loop-IsSome (name_fuel buf) buf (name_start pos) (omega arith) (enough buf pos) in
    let few : 0 + hops ≤ 128 = omega arith in
    let (name, next) =
      name_loop-Answers buf (name_fuel buf) (name_start pos) pos ls hops refl n few d e in
    rw (e, name, next) refl
