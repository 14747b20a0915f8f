-- ===== src/Bytes/Encode.antt =====
-- What `append_varint` writes and what `varint_size` counts, against the format.
use mathlib.Core.WellFounded.{Acc}
use mathlib.Core.Logic.{dif_pos, dif_neg}
use native.Mathlib.Decide.{dec_le}
use native.Mathlib.Bridge.{le_prop}
use cpp_esphome_api.Base.{
  ℕ, ◌+◌, ◌/◌, ◌%◌, ◌^◌, ◌≤◌, ◌<◌, ◌≡◌, refl, ◌∙◌, bit_or, arith, List, [], ◌∷◌, ◌++◌, length,
  append_assoc, lt_wf,
}
use cpp_esphome_api.Base.Bits.{set_top_bit}
use cpp_esphome_api.Bytes.{
  shift_shrinks, varint_size_loop, varint_size, append_varint_loop, append_varint,
}
use cpp_esphome_api.Bytes.Format.{IsVarint, last, more}

abbrev Appends : List ℕ → ℕ → List ℕ → Type 0
Appends out value result = (bs : List ℕ) × IsVarint value bs × (result ≡ out ++ bs)

-- The byte that the loop writes while more groups follow.
pub inner_byte : (v : ℕ) → bit_or (v % 256) 0x80 ≡ v % 128 + 128
inner_byte v = omega (arith, set_top_bit (v % 256) (omega arith))

append_varint_loop_more :
    (out : List ℕ) (value : ℕ) (smaller : (m : ℕ) → m < value → Acc ◌<◌ m) (h : 128 ≤ value)
    → append_varint_loop out value (Acc.intro value smaller)
      ≡ append_varint_loop
          (out ++ ((value % 128 + 128) ∷ []))
          (value / 2 ^ 7)
          (smaller _ (shift_shrinks value h))
unfolding append_varint_loop
append_varint_loop_more out value smaller h =
    rw (dif_pos (dec_le 128 value) le_prop h, inner_byte value)

append_varint_loop_last :
    (out : List ℕ) (value : ℕ) (smaller : (m : ℕ) → m < value → Acc ◌<◌ m)
    → ¬ (128 ≤ value)
    → append_varint_loop out value (Acc.intro value smaller) ≡ out ++ (value ∷ [])
unfolding append_varint_loop
append_varint_loop_last out value smaller h =
    let e : value % 256 ≡ value = omega arith in rw (dif_neg (dec_le 128 value) h, e)

append_varint_loop-Appends :
    (out : List ℕ) (value : ℕ) (w : Acc ◌<◌ value)
    → Appends out value (append_varint_loop out value w)
append_varint_loop-Appends out value (Acc.intro _ smaller) = elim (dec_le 128 value) [
  | yes h ↦
      let head : List ℕ = (value % 128 + 128) ∷ [] in
      let (bs, form, e) =
        append_varint_loop-Appends (out ++ head) (value / 2 ^ 7)
          (smaller _ (shift_shrinks value h)) in
      (
        (value % 128 + 128) ∷ bs,
        more value bs h form,
        append_varint_loop_more out value smaller h ∙ e ∙ append_assoc out head bs,
      )
  | no h ↦ (value ∷ [], last value (omega arith), append_varint_loop_last out value smaller h)
]

-- `append_varint` keeps the buffer and appends the base-128 form of the value.
pub append_varint-Appends : (out : List ℕ) (value : ℕ) → Appends out value (append_varint out value)
unfolding append_varint
append_varint-Appends out value = append_varint_loop-Appends out value (lt_wf.apply value)

varint_size_loop-length :
    (value : ℕ) (w : Acc ◌<◌ value) (n : ℕ) {bs : List ℕ}
    → IsVarint value bs
    → varint_size_loop value w n + 1 ≡ n + length bs
unfolding varint_size_loop
varint_size_loop-length value (Acc.intro _ smaller) n (last _ h) =
    rw (dif_neg (dec_le 128 value) (omega arith)) (omega arith)
varint_size_loop-length value (Acc.intro _ smaller) n (more _ rest h form) =
    rw (dif_pos (dec_le 128 value) le_prop h) (
      omega (
        arith,
        varint_size_loop-length (value / 2 ^ 7) (smaller _ (shift_shrinks value h)) (n + 1) form,
      ))

-- `varint_size` counts the bytes of the form.
pub varint_size-length :
    {value : ℕ} {bs : List ℕ} → IsVarint value bs → varint_size value ≡ length bs
unfolding varint_size
varint_size-length {value} form =
    omega (arith, varint_size_loop-length value (lt_wf.apply value) 1 form)

-- The bytes that `append_varint` adds, as a value that proofs can name.
pub varint_bytes : ℕ → List ℕ
varint_bytes value = (append_varint-Appends [] value).0

pub varint_bytes-IsVarint : (value : ℕ) → IsVarint value (varint_bytes value)
unfolding varint_bytes
varint_bytes-IsVarint value = (append_varint-Appends [] value).1

-- A number has one form.
pub IsVarint-unique : {v : ℕ} {xs ys : List ℕ} → IsVarint v xs → IsVarint v ys → xs ≡ ys
IsVarint-unique (last v h) (last _ k) = refl
IsVarint-unique (last v h) (more _ rest k r) = absurd (omega arith)
IsVarint-unique (more v rest h r) (last _ k) = absurd (omega arith)
IsVarint-unique (more v rest h r) (more _ rest' k r') = rw (IsVarint-unique r r')

pub append_varint-bytes :
    (out : List ℕ) (value : ℕ) → append_varint out value ≡ out ++ varint_bytes value
append_varint-bytes out value =
    let (bs, form, e) = append_varint-Appends out value in
    rw (IsVarint-unique (varint_bytes-IsVarint value) form) e
