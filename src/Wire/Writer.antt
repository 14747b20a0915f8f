-- ===== src/Wire/Writer.antt =====
-- The writer's varint loop and size against those of bytes.cpp, whose form is known.
use mathlib.Core.Logic.{dite}
use mathlib.Core.WellFounded.{Acc}
use native.Mathlib.Decide.{dec_le}
use cpp_esphome_api.Base.{
  ℕ, ◌+◌, ◌/◌, ◌%◌, ◌^◌, ◌<◌, bit_or, ◌≡◌, refl, ◌∙◌, List, [], ◌∷◌, ◌++◌, lt_wf, length,
}
use cpp_esphome_api.Bytes.{shift_shrinks, append_varint, append_varint_loop}
use cpp_esphome_api.Bytes
use cpp_esphome_api.Bytes.Encode.{
  varint_bytes, varint_bytes-IsVarint, append_varint-bytes, varint_size-length,
}
use cpp_esphome_api.Wire.{varint_size_loop, varint_size, write_varint_loop, write_varint}

same_branches :
    {A B : Type 0} (d : Dec A) {f f' : A → B} {g g' : ¬ A → B}
    → ((a : A) → f a ≡ f' a)
    → ((n : ¬ A) → g n ≡ g' n)
    → dite d f g ≡ dite d f' g'
same_branches (yes a) p q = p a
same_branches (no n) p q = q n

write_varint_loop-append :
    (out : List ℕ) (v : ℕ) (w : Acc ◌<◌ v) → write_varint_loop out v w ≡ append_varint_loop out v w
unfolding write_varint_loop append_varint_loop
write_varint_loop-append out v (Acc.intro _ smaller) =
    same_branches (dec_le 128 v)
      (λ h.
        write_varint_loop-append (out ++ (bit_or (v % 256) 0x80 ∷ [])) (v / 2 ^ 7)
          (smaller _ (shift_shrinks v h)))
      (λ n. refl)

-- The writer appends the base-128 form of the value.
pub write_varint-bytes : (out : List ℕ) (v : ℕ) → write_varint out v ≡ out ++ varint_bytes v
unfolding write_varint
write_varint-bytes out v =
    write_varint_loop-append out v (lt_wf.apply v)
    ∙ (unfold append_varint in append_varint-bytes out v)

varint_size_loop-bytes :
    (v : ℕ) (w : Acc ◌<◌ v) (n : ℕ) → varint_size_loop v w n ≡ Bytes.varint_size_loop v w n
unfolding varint_size_loop Bytes.varint_size_loop
varint_size_loop-bytes v (Acc.intro _ smaller) n =
    same_branches (dec_le 128 v)
      (λ h. varint_size_loop-bytes (v / 2 ^ 7) (smaller _ (shift_shrinks v h)) (n + 1)) (λ k. refl)

pub varint_size-bytes : (v : ℕ) → varint_size v ≡ length (varint_bytes v)
unfolding varint_size
varint_size-bytes v =
    varint_size_loop-bytes v (lt_wf.apply v) 1
    ∙ (unfold Bytes.varint_size in varint_size-length (varint_bytes-IsVarint v))
