-- ===== src/Client/Ports.antt =====
-- The serial proxies of a client by the name that the device gives them.
use cpp_esphome_api.Base.{
  ℕ, zero, suc, ◌+◌, ◌%◌, ◌^◌, ◌≤◌, ◌<◌, ◌≡◌, refl, ap, ◌∙◌, ◌≢◌, ◌↔◌, ◌⊎◌, inl, inr, true, false,
  none, some, List, [], ◌∷◌, arith, Bool-cases, length,
}
use cpp_esphome_api.Connection.Inbound.{same_bytes}
use cpp_esphome_api.DeviceInfo.{SerialProxyPortInfo}
use cpp_esphome_api.Client.{Client, port_named, serial_proxy_named}

same_bytes-eq : (xs ys : List ℕ) → same_bytes xs ys ≡ true → xs ≡ ys
same_bytes-eq [] [] h = refl
same_bytes-eq [] (y ∷ ys) h = cc
same_bytes-eq (x ∷ xs) [] h = cc
same_bytes-eq (x ∷ xs) (y ∷ ys) h = ground (arith, same_bytes-eq xs ys)

same_bytes_self : (xs : List ℕ) → same_bytes xs xs ≡ true
same_bytes_self [] = refl
same_bytes_self (x ∷ xs) = ground (arith, same_bytes_self xs)

same_bytes-ne : (xs ys : List ℕ) → same_bytes xs ys ≡ false → xs ≢ ys
same_bytes-ne xs ys h e = ground (arith, same_bytes_self xs)

-- Port i has the name, and no port before it has.
pub IsFirst : List ℕ → ℕ → List SerialProxyPortInfo → Type 0
IsFirst name i [] = ⊥
IsFirst name zero (p ∷ ports) = p.name ≡ name
IsFirst name (suc i) (p ∷ ports) = (p.name ≢ name) × IsFirst name i ports

first_unique :
    (name : List ℕ) (i j : ℕ) (ports : List SerialProxyPortInfo)
    → IsFirst name i ports
    → IsFirst name j ports
    → i ≡ j
unfolding IsFirst
first_unique name i j [] h k = elim h [ ]
first_unique name zero zero (p ∷ ports) h k = refl
first_unique name zero (suc j) (p ∷ ports) h (other, k) = absurd (other h)
first_unique name (suc i) zero (p ∷ ports) (other, h) k = absurd (other k)
first_unique name (suc i) (suc j) (p ∷ ports) (o, h) (o', k) =
    ap suc (first_unique name i j ports h k)

first_within :
    (name : List ℕ) (i : ℕ) (ports : List SerialProxyPortInfo)
    → IsFirst name i ports
    → i < length ports
unfolding IsFirst
first_within name i [] h = elim h [ ]
first_within name zero (p ∷ ports) h = omega arith
first_within name (suc i) (p ∷ ports) (o, h) = omega (arith, first_within name i ports h)

later-IsFirst :
    (name : List ℕ) (p : SerialProxyPortInfo) (ports : List SerialProxyPortInfo)
    → p.name ≢ name
    → ((i : ℕ) → ¬ IsFirst name i ports)
    → (i : ℕ) → ¬ IsFirst name i (p ∷ ports)
unfolding IsFirst
later-IsFirst name p ports ne h zero e = ne e
later-IsFirst name p ports ne h (suc i) (o, e) = h i e

-- The loop from its counter on.
search_ports :
    (name : List ℕ) (k : ℕ) (ports : List SerialProxyPortInfo)
    → ((port_named name k ports ≡ none) × ((i : ℕ) → ¬ IsFirst name i ports))
      ⊎ ((i : ℕ) × (port_named name k ports ≡ some (k + i)) × IsFirst name i ports)
unfolding port_named IsFirst
search_ports name k [] = inl (refl, λ i h. h)
search_ports name k (p ∷ ports) = elim (Bool-cases (same_bytes p.name name)) [
  | inl e ↦ inr (0, rw e (ap some (omega arith)), same_bytes-eq p.name name e)
  | inr e ↦
      let ne = same_bytes-ne p.name name e in
      elim (search_ports name (k + 1) ports) [
        | inl (missing, no_first) ↦ inl (rw e missing, later-IsFirst name p ports ne no_first)
        | inr (i, found, is_first) ↦
            inr (suc i, rw e (found ∙ ap some (omega arith)), (ne, is_first))
      ]
]

-- Once the device has described itself, with at most 2 ^ 32 serial proxies: the handle that a name gives is that
-- of instance i exactly if port i of the description is the first one with the name. In particular a
-- name that no port has, and a name before any description, give an exception.
pub serial_proxy_named_iff :
    {S : Type 0} (name : List ℕ) (i : ℕ) (c : Client S)
    → length c.device_info.serial_proxies ≤ 2 ^ 32
    → ((serial_proxy_named name c).1 ≡ inr i)
      ↔ ((c.device_info_loaded ≡ true) × IsFirst name i c.device_info.serial_proxies)
unfolding serial_proxy_named
serial_proxy_named_iff name i c few = elim (Bool-cases c.device_info_loaded) [
  | inr e ↦ rw e (λ h. cc, λ (l, f). cc)
  | inl e ↦
      let ports = c.device_info.serial_proxies in
      elim (search_ports name 0 ports) [
        | inl (missing, no_first) ↦ rw (e, missing) (λ h. cc, λ (l, f). absurd (no_first i f))
        | inr (j, found, is_first) ↦
            let small : j < 2 ^ 32 = omega (arith, first_within name j ports is_first) in
            let instance_ : (0 + j) % 2 ^ 32 ≡ j = omega arith in
            rw (e, found, instance_)
              (
                λ h. (refl, let same : j ≡ i = cc in rw (← same) is_first),
                λ (l, f). ap inr (first_unique name j i ports is_first f),
              )
      ]
]
