-- ===== src/Discovery/InBounds.antt =====
-- Any packets, of any bytes: no read leaves its packet, and the loops end.
use cpp_esphome_api.Base.{
  ℕ, zero, suc, ◌+◌, ◌-◌, ◌<◌, ◌∙◌, ◌≤◌, ◌≡◌, refl, inl, inr, ◌&&◌, Option, none, some, List, [],
  ◌∷◌, arith, ltb, leb, ◌==◌, ltb-false→le, Bool-cases, length, ◌>>=◌,
}
use cpp_esphome_api.Discovery.Packets.{
  Accumulator, Properties, txt_loop, parse_txt, dotted, take_txt, take_a, take_srv, take_ptr,
  take_record, take_data, take_header, take_one, go_on, records_loop, questions_loop, parse_packet,
  type_ptr, type_srv, type_txt, type_a,
}
use cpp_esphome_api.Discovery.Devices.{DiscoveredDevice, parse_packets, empty, parse_mdns_packets}
use cpp_esphome_api.Discovery.NameBounds.{
  IsSome, get_elem-IsSome, slice-IsSome, read_u16-IsSome, read_name-IsSome,
}

bind-IsSome :
    {A B : Type 0} (o : Option A) (f : A → Option B)
    → IsSome o
    → ((a : A) → IsSome (f a))
    → IsSome (o >>= f)
bind-IsSome o f (a, e) h = rw e (h a)

txt_loop-IsSome :
    (fuel : ℕ) (rdata : List ℕ) (i : ℕ) (out : Properties)
    → length rdata - i < fuel
    → IsSome (txt_loop fuel rdata i out)
unfolding txt_loop
txt_loop-IsSome zero rdata i out h = absurd (omega arith)
txt_loop-IsSome (suc fuel) rdata i out h = elim (Bool-cases (leb (length rdata) i)) [
  | inl e ↦ rw e (out, refl)
  | inr e ↦
      let (n, en) = get_elem-IsSome rdata i (ground (arith, e)) in
      elim (Bool-cases (ltb (length rdata) (i + 1 + n))) [
        | inl b ↦ rw (e, en, b) (out, refl)
        | inr b ↦
            let (entry, es, size) = slice-IsSome rdata (i + 1) n (ltb-false→le _ _ b) in
            rw (e, en, b, es) (txt_loop-IsSome fuel rdata (i + 1 + n) _ (ground (arith, e)))
      ]
]

take_txt-IsSome :
    (buf name : List ℕ) (pos rdlen : ℕ) (acc : Accumulator)
    → pos + rdlen ≤ length buf
    → IsSome (take_txt buf name pos rdlen acc)
unfolding take_txt parse_txt
take_txt-IsSome buf name pos rdlen acc h =
    let (rdata, e, size) = slice-IsSome buf pos rdlen h in
    rw e (
      bind-IsSome _ _ (txt_loop-IsSome (suc (length rdata)) rdata 0 _ (omega arith))
        (λ kv. (_, refl)))

dotted-IsSome : (rdata : List ℕ) → length rdata ≡ 4 → IsSome (dotted rdata)
unfolding dotted
dotted-IsSome rdata h =
    let (a, ea) = get_elem-IsSome rdata 0 (omega arith) in
    let (b, eb) = get_elem-IsSome rdata 1 (omega arith) in
    let (c, ec) = get_elem-IsSome rdata 2 (omega arith) in
    let (d, ed) = get_elem-IsSome rdata 3 (omega arith) in rw (ea, eb, ec, ed) (_, refl)

take_a-IsSome :
    (buf name : List ℕ) (pos rdlen : ℕ) (acc : Accumulator)
    → pos + rdlen ≤ length buf
    → rdlen ≡ 4
    → IsSome (take_a buf name pos rdlen acc)
unfolding take_a
take_a-IsSome buf name pos rdlen acc h four =
    let (rdata, e, size) = slice-IsSome buf pos rdlen h in
    rw e (bind-IsSome _ _ (dotted-IsSome rdata (size ∙ four)) (λ ip. (_, refl)))

take_record-IsSome :
    (buf : List ℕ) (type : ℕ) (name : List ℕ) (pos rdlen : ℕ) (acc : Accumulator)
    → pos + rdlen ≤ length buf
    → IsSome (take_record buf type name pos rdlen acc)
unfolding take_record take_ptr take_srv
take_record-IsSome buf type name pos rdlen acc h = elim (Bool-cases (type == type_ptr)) [
  | inl a ↦ rw a (bind-IsSome _ _ (read_name-IsSome buf pos) (λ r. (_, refl)))
  | inr a ↦ elim (Bool-cases (type == type_srv)) [
    | inl b ↦ elim (Bool-cases (leb 6 rdlen)) [
      | inl l ↦
          let port = read_u16-IsSome buf (pos + 4) (ground (arith, l)) in
          rw (a, b, l)
            (bind-IsSome _ _ port
              (λ p. bind-IsSome _ _ (read_name-IsSome buf (pos + 6)) (λ r. (_, refl))))
      | inr l ↦ rw (a, b, l) (acc, refl)
    ]
    | inr b ↦ elim (Bool-cases (type == type_txt)) [
      | inl c ↦ rw (a, b, c) (take_txt-IsSome buf name pos rdlen acc h)
      | inr c ↦ elim (Bool-cases ((type == type_a) && (rdlen == 4))) [
        | inl d ↦ rw (a, b, c, d) (take_a-IsSome buf name pos rdlen acc h (ground (arith, d)))
        | inr d ↦ rw (a, b, c, d) (_, refl)
      ]
    ]
  ]
]

take_data-IsSome :
    (buf : List ℕ) (type : ℕ) (name : List ℕ) (pos rdlen : ℕ) (acc : Accumulator)
    → IsSome (take_data buf type name pos rdlen acc)
unfolding take_data
take_data-IsSome buf type name pos rdlen acc = elim (Bool-cases (ltb (length buf) (pos + rdlen))) [
  | inl e ↦ rw e (_, refl)
  | inr e ↦ rw e (
      bind-IsSome _ _ (take_record-IsSome buf type name pos rdlen acc (ltb-false→le _ _ e))
        (λ r. (_, refl)))
]

take_header-IsSome :
    (buf name : List ℕ) (pos : ℕ) (acc : Accumulator) → IsSome (take_header buf name pos acc)
unfolding take_header
take_header-IsSome buf name pos acc = elim (Bool-cases (ltb (length buf) (pos + 10))) [
  | inl e ↦ rw e (_, refl)
  | inr e ↦
      let room = ltb-false→le _ _ e in
      rw e (
        bind-IsSome _ _ (read_u16-IsSome buf pos (omega arith)) (λ type.
          bind-IsSome _ _ (read_u16-IsSome buf (pos + 8) (omega arith))
            (λ rdlen. take_data-IsSome buf type name (pos + 10) rdlen acc)))
]

take_one-IsSome : (buf : List ℕ) (pos : ℕ) (acc : Accumulator) → IsSome (take_one buf pos acc)
unfolding take_one
take_one-IsSome buf pos acc =
    bind-IsSome _ _ (read_name-IsSome buf pos)
      (λ (next, name). take_header-IsSome buf name next acc)

go_on-IsSome :
    (o : Option (Option ℕ × Accumulator)) (rest : ℕ → Accumulator → Option Accumulator)
    → IsSome o
    → ((pos : ℕ) (acc : Accumulator) → IsSome (rest pos acc))
    → IsSome (go_on o rest)
unfolding go_on
go_on-IsSome o rest ((none, acc), e) h = rw e (acc, refl)
go_on-IsSome o rest ((some pos, acc), e) h = rw e (h pos acc)

records_loop-IsSome :
    (buf : List ℕ) (n pos : ℕ) (acc : Accumulator) → IsSome (records_loop buf n pos acc)
unfolding records_loop
records_loop-IsSome buf zero pos acc = (acc, refl)
records_loop-IsSome buf (suc n) pos acc = elim (Bool-cases (leb (length buf) pos)) [
  | inl e ↦ rw e (acc, refl)
  | inr e ↦ rw e (
      go_on-IsSome (take_one buf pos acc) (records_loop buf n) (take_one-IsSome buf pos acc)
        (λ p a. records_loop-IsSome buf n p a))
]

questions_loop-IsSome : (buf : List ℕ) (n pos : ℕ) → IsSome (questions_loop buf n pos)
unfolding questions_loop
questions_loop-IsSome buf zero pos = (pos, refl)
questions_loop-IsSome buf (suc n) pos = elim (Bool-cases (leb (length buf) pos)) [
  | inl e ↦ rw e (pos, refl)
  | inr e ↦ rw e (
      bind-IsSome _ _ (read_name-IsSome buf pos)
        (λ (next, scratch). questions_loop-IsSome buf n (next + 4)))
]

parse_packet-IsSome : (buf : List ℕ) (acc : Accumulator) → IsSome (parse_packet buf acc)
unfolding parse_packet
parse_packet-IsSome buf acc = elim (Bool-cases (ltb (length buf) 12)) [
  | inl e ↦ rw e (acc, refl)
  | inr e ↦
      let room = ltb-false→le _ _ e in
      rw e (
        bind-IsSome _ _ (read_u16-IsSome buf 4 (omega arith)) (λ qd.
          bind-IsSome _ _ (read_u16-IsSome buf 6 (omega arith)) (λ an.
            bind-IsSome _ _ (read_u16-IsSome buf 8 (omega arith)) (λ ns.
              bind-IsSome _ _ (read_u16-IsSome buf 10 (omega arith)) (λ ar.
                bind-IsSome _ _ (questions_loop-IsSome buf qd 12)
                  (λ pos. records_loop-IsSome buf (an + ns + ar) pos acc))))))
]

parse_packets-IsSome :
    (packets : List (List ℕ)) (acc : Accumulator) → IsSome (parse_packets packets acc)
unfolding parse_packets
parse_packets-IsSome [] acc = (acc, refl)
parse_packets-IsSome (pkt ∷ packets) acc =
    bind-IsSome _ _ (parse_packet-IsSome pkt acc) (λ next. parse_packets-IsSome packets next)

-- Whatever bytes arrive in whatever packets, parsing them reads no byte outside a packet, follows the
-- pointers of every name to an end, and answers a list of devices.
pub parse_mdns_packets-IsSome :
    (packets : List (List ℕ))
    → (devices : List DiscoveredDevice) × (parse_mdns_packets packets ≡ some devices)
unfolding parse_mdns_packets
parse_mdns_packets-IsSome packets =
    bind-IsSome _ _ (parse_packets-IsSome packets empty) (λ acc. (_, refl))
