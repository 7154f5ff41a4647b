-- ===== src/Allocator/FirstFree.antt =====
-- The search of a pool for its first free address, allocator_assign_first_from_pool of
-- server/src/allocator.c.
use dhcpv4_server_with_gui_c.Prelude.{
  ℕ, zero, suc, ◌+◌, ◌-◌, ◌%◌, ◌≤◌, ◌<◌, ◌≡◌, refl, true, Option, none, some, arith, ◌==◌, leb,
  Bool-cases, inl, inr, ◌⊎◌, ==_iff,
}
use dhcpv4_server_with_gui_c.Pool.{
  AddressPool, u32_mod, address_belongs_to_pool,
  address_pool_get_address_allocation as get_allocation,
  address_pool_set_address_allocation as set_allocation,
}
use dhcpv4_server_with_gui_c.Pool.Bitmap.{clear_bit, free_count_pos}
use dhcpv4_server_with_gui_c.Pool.Invariant.{
  IsValid, Within, allocation, allocation-lt, size, get_lem,
}
use dhcpv4_server_with_gui_c.Allocator.{
  AllocatorStatus, ok, pool_depleted, assign_loop, allocator_assign_first_from_pool,
}

-- Every address of the pool from `a` up to but without `b` is in use.
abbrev pub AreUsed : AddressPool → ℕ → ℕ → Type 0
AreUsed p a b = (c : ℕ) → a ≤ c → c < b → get_allocation p c ≡ some 1

-- The address found, and what the search returns.
abbrev pub Found : AddressPool → ℕ → Option (AllocatorStatus × Option ℕ × AddressPool) → Type 0
Found p a r =
    (x : ℕ) × (a ≤ x)
    × (x ≤ p.end_address)
    × (get_allocation p x ≡ some 0)
    × AreUsed p a x
    × (r ≡ some (ok, some x, (set_allocation p x).1))

abbrev pub Depleted : AddressPool → ℕ → Option (AllocatorStatus × Option ℕ × AddressPool) → Type 0
Depleted p a r = AreUsed p a (p.end_address + 1) × (r ≡ some (pool_depleted, none, p))

get-Within :
    (p : AddressPool) (a : ℕ)
    → Within p a
    → (get_allocation p a ≡ some 0) ⊎ (get_allocation p a ≡ some 1)
unfolding address_belongs_to_pool
get-Within p a w = ground (arith, get_lem p a, allocation-lt p a)

AreUsed-suc :
    (p : AddressPool) (a b : ℕ) → get_allocation p a ≡ some 1 → AreUsed p (a + 1) b → AreUsed p a b
AreUsed-suc p a b h u c lo hi = elim (Bool-cases (c == a)) [
  | inl same ↦ rw ((==_iff c a).0 same) h
  | inr other ↦ u c (ground arith) hi
]

assign_loop_lem :
    (fuel a : ℕ) (p : AddressPool)
    → IsValid p
    → p.start_address ≤ a
    → a ≤ p.end_address + 1
    → p.end_address + 1 < a + fuel
    → Found p a (assign_loop fuel a p) ⊎ Depleted p a (assign_loop fuel a p)
unfolding assign_loop
assign_loop_lem zero a p v lo hi f = absurd (omega arith)
assign_loop_lem (suc fuel) a p v lo hi f = elim (Bool-cases (leb a p.end_address)) [
  | inr past ↦ inr ((λ c l h. absurd (ground arith)), rw past)
  | inl inside ↦ elim (get-Within p a (lo, ground arith)) [
    | inl free ↦
        inl (a, omega arith, ground arith, free, (λ c l h. absurd (omega arith)), rw (inside, free))
    | inr used ↦
        let word = v.word in
        let in_range : a ≤ p.end_address = ground arith in
        let next : (a + 1) % u32_mod ≡ a + 1 = omega arith in
        rw (inside, used, next)
          (elim (assign_loop_lem fuel (a + 1) p v (omega arith) (omega arith) (omega arith)) [
            | inl (x, l, h, g, u, e) ↦ inl (x, omega arith, h, g, AreUsed-suc p a x used u, e)
            | inr (u, e) ↦ inr (AreUsed-suc p a (p.end_address + 1) used u, e)
          ])
  ]
]

-- On a valid pool the search ends. It takes the lowest free address and marks it, or it reports a
-- depleted pool, all of whose addresses are in use, and changes nothing.
pub assign_first_lem :
    (p : AddressPool)
    → IsValid p
    → Found p p.start_address (allocator_assign_first_from_pool p)
      ⊎ Depleted p p.start_address (allocator_assign_first_from_pool p)
unfolding allocator_assign_first_from_pool
assign_first_lem p v =
    assign_loop_lem _ p.start_address p v (omega arith) (omega (arith, v.ordered))
      (omega (arith, v.ordered))

-- The count of available addresses of a valid pool is zero exactly when every address is in use.
pub none_available :
    (p : AddressPool)
    → IsValid p
    → p.available_addresses ≡ 0
    → AreUsed p p.start_address (p.end_address + 1)
none_available p v z c lo hi = elim (get-Within p c (lo, omega arith)) [
  | inr used ↦ used
  | inl free ↦ absurd (
      omega (
        arith,
        v.counted,
        free_count_pos p.leases_bm (c - p.start_address) (size p) (omega arith) (off free),
      ))
]
  where
    off : get_allocation p c ≡ some 0 → allocation p c ≡ 0
    off free = ground (arith, get_lem p c)

belongs :
    (p : AddressPool) (k : ℕ)
    → k < size p
    → p.start_address ≤ p.end_address
    → address_belongs_to_pool p (p.start_address + k) ≡ true
unfolding address_belongs_to_pool
belongs p k lt o = ground arith

-- A valid pool that counts an available address has the search find one.
pub assign_first_available :
    (p : AddressPool)
    → IsValid p
    → 0 < p.available_addresses
    → Found p p.start_address (allocator_assign_first_from_pool p)
assign_first_available p v h = elim (assign_first_lem p v) [
  | inl found ↦ found
  | inr (u, e) ↦
      let (k, lt, off) = clear_bit p.leases_bm (size p) (omega (arith, v.counted)) in
      let same : p.start_address + k - p.start_address ≡ k = omega arith in
      let read : get_allocation p (p.start_address + k) ≡ some 0 =
        rw (get_lem, same, off, belongs p k lt v.ordered) refl in
      absurd (ground (arith, u (p.start_address + k) (omega arith) (omega (arith, v.ordered))))
]
