-- ===== src/Discovery.antt =====
-- include/esphome/api/discovery.hpp and src/discovery.cpp: what mDNS answers say of the devices on the
-- network. `none` stands for a read outside the packet, or for fuel that runs out.
pub mod Packets
pub mod Devices
pub mod NameBounds
pub mod InBounds
pub mod Names
pub mod Tests
use cpp_esphome_api.Base.Fuel.{budget}
use cpp_esphome_api.Base.{
  ◌>>=◌, ℕ, zero, suc, ◌+◌, ◌*◌, ◌^◌, bit_and, bit_or, Bool, true, false, Option, none, some, List,
  [], ◌∷◌, ◌++◌, ltb, leb, ◌==◌, if◌then◌else◌, length, get_elem?, take, drop,
}

unfoldable pub read_u16 : List ℕ → ℕ → Option ℕ
read_u16 buf pos = do
  high ← get_elem? buf pos
  low ← get_elem? buf (pos + 1)
  some (bit_or (high * 2 ^ 8) low)

-- `n` bytes from a position on, as `std::string(buf + pos, n)` copies them; they lie inside, or this is
-- no read.
unfoldable pub slice : List ℕ → ℕ → ℕ → Option (List ℕ)
slice buf pos n = if ltb (length buf) (pos + n) then none else some (take n (drop pos buf))

-- The locals of the loop of `read_name`.
pub record Cursor : Type 0 where
  pub pos : ℕ
  pub out : List ℕ
  pub jumped : Bool
  pub next : ℕ
  pub guard : ℕ

-- A pass of the loop ends it, or goes on.
pub data Pass : Type 0 where
  leave : Cursor → Pass
  repeat : Cursor → Pass

unfoldable pub join_label : List ℕ → List ℕ → List ℕ
join_label [] label = label
join_label out label = out ++ (46 ∷ label)

unfoldable pub follow_pointer : List ℕ → ℕ → Cursor → Option Pass
follow_pointer buf label_len c = if leb (length buf) (c.pos + 1) then some (leave c) else do
  low ← get_elem? buf (c.pos + 1)
  let d = record c {
    pos = bit_or (bit_and label_len 0x3f * 2 ^ 8) low;
    next = if c.jumped then c.next else c.pos + 2;
    jumped = true;
    guard = c.guard + 1;
  }
  some (if ltb 128 (c.guard + 1) then leave d else repeat d)

unfoldable pub label_pass : List ℕ → ℕ → Cursor → Option Pass
label_pass buf label_len c =
    if bit_and label_len 0xc0 == 0xc0
    then follow_pointer buf label_len c
    else if label_len == 0
    then some (leave (record c { pos = c.pos + 1 }))
    else if ltb (length buf) (c.pos + 1 + label_len)
    then some (leave c)
    else do
      label ← slice buf (c.pos + 1) label_len
      some (repeat (record c { pos = c.pos + 1 + label_len; out = join_label c.out label }))

unfoldable pub name_pass : List ℕ → Cursor → Option Pass
name_pass buf c =
    if leb (length buf) c.pos
    then some (leave c)
    else do label_len ← get_elem? buf c.pos; label_pass buf label_len c

unfoldable pub proceed : Option Pass → (Cursor → Option Cursor) → Option Cursor
proceed none rest = none
proceed (some (leave c)) rest = some c
proceed (some (repeat c)) rest = rest c

unfoldable pub name_loop : ℕ → List ℕ → Cursor → Option Cursor
name_loop zero buf c = none
name_loop (suc fuel) buf c = proceed (name_pass buf c) (name_loop fuel buf)

-- At most 129 pointers are followed, and between two of them the position moves inside the buffer.
unfoldable pub name_fuel : List ℕ → ℕ
name_fuel buf = budget 130 (length buf + 1)

abbrev pub name_start : ℕ → Cursor
name_start pos = record { pos = pos; out = []; jumped = false; next = pos; guard = 0 }

-- The position behind the name, and the name.
unfoldable pub read_name : List ℕ → ℕ → Option (ℕ × List ℕ)
read_name buf pos = do
  c ← name_loop (name_fuel buf) buf (name_start pos)
  some (if c.jumped then c.next else c.pos, c.out)
