-- ===== src/Discovery/Packets.antt =====
-- `parse_packet`: the records of a packet, collected in an `Accumulator`. Sets and maps are lists.
use cpp_esphome_api.Base.{
  ℕ, zero, suc, ◌+◌, ◌/◌, ◌%◌, Bool, true, false, ◌&&◌, ◌||◌, Option, none, some, List, [], ◌∷◌,
  ◌++◌, ltb, leb, ◌==◌, if◌then◌else◌, length, get_elem?, ◌>>=◌,
}
use cpp_esphome_api.Discovery.{read_u16, slice, read_name}

abbrev pub type_a : ℕ
type_a = 1

abbrev pub type_ptr : ℕ
type_ptr = 12

abbrev pub type_txt : ℕ
type_txt = 16

abbrev pub type_srv : ℕ
type_srv = 33

unfoldable pub same_text : List ℕ → List ℕ → Bool
same_text [] [] = true
same_text (x ∷ xs) (y ∷ ys) = (x == y) && same_text xs ys
same_text _ _ = false

-- The order of `std::string`.
unfoldable pub before : List ℕ → List ℕ → Bool
before _ [] = false
before [] (y ∷ ys) = true
before (x ∷ xs) (y ∷ ys) = let rest = before xs ys in ltb x y || ((x == y) && rest)

-- `std::set::insert`: the elements ascend.
unfoldable pub insert : List ℕ → List (List ℕ) → List (List ℕ)
insert x [] = x ∷ []
insert x (y ∷ ys) =
    let later = insert x ys in
    if before x y then x ∷ y ∷ ys else if before y x then y ∷ later else y ∷ ys

-- `std::map::find`, and the assignment to `operator[]`.
unfoldable pub lookup : {V : Type 0} → List ℕ → List (List ℕ × V) → Option V
lookup key [] = none
lookup key ((k, v) ∷ m) = let later = lookup key m in if same_text k key then some v else later

unfoldable pub assign : {V : Type 0} → List ℕ → V → List (List ℕ × V) → List (List ℕ × V)
assign key v [] = (key, v) ∷ []
assign key v ((k, w) ∷ m) =
    let later = assign key v m in if same_text k key then (k, v) ∷ m else (k, w) ∷ later

-- The value that `operator[]` makes where there is none.
unfoldable pub get_or : {V : Type 0} → V → Option V → V
get_or fresh none = fresh
get_or fresh (some v) = v

abbrev pub Properties : Type 0
Properties = List (List ℕ × List ℕ)

pub record Accumulator : Type 0 where
  pub instances : List (List ℕ)
  pub srv : List (List ℕ × (List ℕ × ℕ))
  pub txt : List (List ℕ × Properties)
  pub ipv4 : List (List ℕ × List ℕ)

-- The text before the first '=', and what follows it.
unfoldable pub split_entry : List ℕ → List ℕ × Option (List ℕ)
split_entry [] = ([], none)
split_entry (c ∷ cs) =
    let (key, value) = split_entry cs in if c == 61 then ([], some cs) else (c ∷ key, value)

-- `out[entry]` keeps the value that a key without one has.
unfoldable pub put_entry : List ℕ × Option (List ℕ) → Properties → Properties
put_entry (key, some value) out = assign key value out
put_entry (key, none) out = assign key (get_or [] (lookup key out)) out

-- The loop from the index `i` on. Every pass moves it on, so that one pass more than there are bytes is
-- enough.
unfoldable pub txt_loop : ℕ → List ℕ → ℕ → Properties → Option Properties
txt_loop zero rdata i out = none
txt_loop (suc fuel) rdata i out = if leb (length rdata) i then some out else do
  n ← get_elem? rdata i
  if ltb (length rdata) (i + 1 + n) then some out else do
    entry ← slice rdata (i + 1) n
    txt_loop fuel rdata (i + 1 + n) (put_entry (split_entry entry) out)

unfoldable pub parse_txt : List ℕ → Properties → Option Properties
parse_txt rdata out = txt_loop (suc (length rdata)) rdata 0 out

-- `std::to_string` of a byte.
unfoldable pub to_string : ℕ → List ℕ
to_string b =
    if ltb b 10
    then (48 + b) ∷ []
    else if ltb b 100
    then (48 + b / 10) ∷ (48 + b % 10) ∷ []
    else (48 + b / 100) ∷ (48 + b / 10 % 10) ∷ (48 + b % 10) ∷ []

unfoldable pub dotted : List ℕ → Option (List ℕ)
dotted rdata = do
  a ← get_elem? rdata 0
  b ← get_elem? rdata 1
  c ← get_elem? rdata 2
  d ← get_elem? rdata 3
  some (to_string a ++ (46 ∷ to_string b) ++ (46 ∷ to_string c) ++ (46 ∷ to_string d))

-- The record of a name, whose data lie from a position on and are `rdlen` bytes.
unfoldable pub take_srv : List ℕ → List ℕ → ℕ → Accumulator → Option Accumulator
take_srv buf name pos acc = do
  port ← read_u16 buf (pos + 4)
  (next, target) ← read_name buf (pos + 6)
  some (record acc { srv = assign name (target, port) acc.srv })

unfoldable pub take_ptr : List ℕ → ℕ → Accumulator → Option Accumulator
take_ptr buf pos acc = do
  (next, target) ← read_name buf pos
  some (record acc { instances = insert target acc.instances })

unfoldable pub take_txt : List ℕ → List ℕ → ℕ → ℕ → Accumulator → Option Accumulator
take_txt buf name pos rdlen acc = do
  rdata ← slice buf pos rdlen
  kv ← parse_txt rdata (get_or [] (lookup name acc.txt))
  some (record acc { txt = assign name kv acc.txt })

unfoldable pub take_a : List ℕ → List ℕ → ℕ → ℕ → Accumulator → Option Accumulator
take_a buf name pos rdlen acc = do
  rdata ← slice buf pos rdlen
  ip ← dotted rdata
  some (record acc { ipv4 = assign name ip acc.ipv4 })

unfoldable pub take_record : List ℕ → ℕ → List ℕ → ℕ → ℕ → Accumulator → Option Accumulator
take_record buf type name pos rdlen acc =
    if type == type_ptr
    then take_ptr buf pos acc
    else if type == type_srv
    then (if leb 6 rdlen then take_srv buf name pos acc else some acc)
    else if type == type_txt
    then take_txt buf name pos rdlen acc
    else if (type == type_a) && (rdlen == 4)
    then take_a buf name pos rdlen acc
    else some acc

-- What a record's data, if they are all there, lead to.
unfoldable pub take_data :
    List ℕ → ℕ → List ℕ → ℕ → ℕ → Accumulator → Option (Option ℕ × Accumulator)
take_data buf type name pos rdlen acc =
    if ltb (length buf) (pos + rdlen)
    then some (none, acc)
    else do acc' ← take_record buf type name pos rdlen acc; some (some (pos + rdlen), acc')

unfoldable pub take_header : List ℕ → List ℕ → ℕ → Accumulator → Option (Option ℕ × Accumulator)
take_header buf name pos acc = if ltb (length buf) (pos + 10) then some (none, acc) else do
  type ← read_u16 buf pos
  rdlen ← read_u16 buf (pos + 8)
  take_data buf type name (pos + 10) rdlen acc

-- A pass of the loop over the records: where the next one starts, or the end.
unfoldable pub take_one : List ℕ → ℕ → Accumulator → Option (Option ℕ × Accumulator)
take_one buf pos acc = do (next, name) ← read_name buf pos; take_header buf name next acc

unfoldable pub go_on :
    Option (Option ℕ × Accumulator) → (ℕ → Accumulator → Option Accumulator) → Option Accumulator
go_on none rest = none
go_on (some (none, acc)) rest = some acc
go_on (some (some pos, acc)) rest = rest pos acc

unfoldable pub records_loop : List ℕ → ℕ → ℕ → Accumulator → Option Accumulator
records_loop buf zero pos acc = some acc
records_loop buf (suc n) pos acc =
    if leb (length buf) pos then some acc else go_on (take_one buf pos acc) (records_loop buf n)

unfoldable pub questions_loop : List ℕ → ℕ → ℕ → Option ℕ
questions_loop buf zero pos = some pos
questions_loop buf (suc n) pos =
    if leb (length buf) pos
    then some pos
    else do (next, scratch) ← read_name buf pos; questions_loop buf n (next + 4)

unfoldable pub parse_packet : List ℕ → Accumulator → Option Accumulator
parse_packet buf acc = if ltb (length buf) 12 then some acc else do
  qd ← read_u16 buf 4
  an ← read_u16 buf 6
  ns ← read_u16 buf 8
  ar ← read_u16 buf 10
  pos ← questions_loop buf qd 12
  records_loop buf (an + ns + ar) pos acc
