-- ===== src/Pool/Invariant.antt =====
-- What the operations of server/src/address_pool.c keep, and what they do to each address.
use dhcpv4_server_with_gui_c.Prelude.{
  ℕ, ◌+◌, ◌-◌, ◌/◌, ◌%◌, ◌≤◌, ◌<◌, ◌≡◌, ◌∙◌, inl, inr, none, some, arith, ◌==◌, if◌then◌else◌,
  length, Bool-cases,
}
use dhcpv4_server_with_gui_c.Pool.Bitmap.{
  leased_at, free_count, raised, dropped, AreBytes, leased_at-lt, leased_at-raised,
  leased_at-dropped, raised-AreBytes, dropped-AreBytes, length-raised, length-dropped,
  free_count-change, free_count-le, free_count_pos,
}
use dhcpv4_server_with_gui_c.Pool.{
  AddressPool, u32_mod, address_belongs_to_pool, address_pool_address_allocation_ctl,
  address_pool_set_address_allocation, address_pool_clear_address_allocation,
  address_pool_get_address_allocation,
}

-- How many addresses a pool has.
abbrev pub size : AddressPool → ℕ
size p = p.end_address - p.start_address + 1

-- The range is a range of uint32_t below the last one, the bitmap has a bit for each address of
-- it, and `available_addresses` counts the clear ones. `small` keeps the size of the bitmap from
-- wrapping.
pub record IsValid (p : AddressPool) : Type 0 where
  pub ordered : p.start_address ≤ p.end_address
  pub word : p.end_address + 1 < u32_mod
  pub small : size p + 7 < u32_mod
  pub sized : length p.leases_bm ≡ (size p + 7) / 8
  pub bytes : AreBytes p.leases_bm
  pub counted : p.available_addresses ≡ free_count p.leases_bm (size p)

-- The bit of address `a`: 1 in use, 0 free.
abbrev pub allocation : AddressPool → ℕ → ℕ
allocation p a = leased_at p.leases_bm (a - p.start_address)

abbrev pub Within : AddressPool → ℕ → Type 0
Within p a = (p.start_address ≤ a) × (a ≤ p.end_address)

-- Reading an address gives its bit, and fails exactly outside the range.
pub get_lem :
    (p : AddressPool) (a : ℕ)
    → address_pool_get_address_allocation p a
      ≡ (if address_belongs_to_pool p a then some (allocation p a) else none)
unfolding address_pool_get_address_allocation leased_at
get_lem p a = ground arith

-- The bit operations stay inside the bitmap.
pub index-lt :
    (p : AddressPool) (a : ℕ)
    → IsValid p
    → Within p a
    → (a - p.start_address) / 8 < length p.leases_bm
index-lt p a v w = omega arith

-- The pool with the bitmap and the count of a call that found the bit of `a` clear.
abbrev pub taken : AddressPool → ℕ → AddressPool
taken p a = record p {
  leases_bm = raised p.leases_bm (a - p.start_address);
  available_addresses = (p.available_addresses + u32_mod - 1) % u32_mod;
}

abbrev pub freed : AddressPool → ℕ → AddressPool
freed p a = record p {
  leases_bm = dropped p.leases_bm (a - p.start_address);
  available_addresses = (p.available_addresses + 1) % u32_mod;
}

pub set_lem :
    (p : AddressPool) (a : ℕ)
    → address_pool_set_address_allocation p a ≡ (
        if address_belongs_to_pool p a
        then (if allocation p a == 1 then (none, p) else (some 0, taken p a))
        else (none, p))
unfolding address_pool_set_address_allocation leased_at
set_lem p a = ground arith

pub clear_lem :
    (p : AddressPool) (a : ℕ)
    → address_pool_clear_address_allocation p a ≡ (
        if address_belongs_to_pool p a
        then (if allocation p a == 0 then (none, p) else (some 0, freed p a))
        else (none, p))
unfolding address_pool_clear_address_allocation leased_at
clear_lem p a = ground arith

pub available-le-size : (p : AddressPool) → IsValid p → p.available_addresses ≤ size p
available-le-size p v = omega (arith, v.counted, free_count-le p.leases_bm (size p))

module _ (p : AddressPool) (a : ℕ) (v : IsValid p) (w : Within p a) where
  pub allocation-taken :
      (b : ℕ)
      → p.start_address ≤ b
      → allocation (taken p a) b ≡ (if a == b then 1 else allocation p b)
  allocation-taken b hb = ground (
    arith,
    leased_at-raised p.leases_bm (a - p.start_address) (b - p.start_address) v.bytes
        (index-lt p a v w),
  )

  pub allocation-freed :
      (b : ℕ)
      → allocation p a ≡ 1
      → p.start_address ≤ b
      → allocation (freed p a) b ≡ (if a == b then 0 else allocation p b)
  allocation-freed b on hb = ground (
    arith,
    leased_at-dropped p.leases_bm (a - p.start_address) (b - p.start_address) v.bytes
        (index-lt p a v w) on,
  )

  pub free_pos : allocation p a ≡ 0 → 0 < p.available_addresses
  free_pos off = omega (
    arith,
    v.counted,
    free_count_pos p.leases_bm (a - p.start_address) (size p) (omega arith) off,
  )

  pub taken-IsValid : allocation p a ≡ 0 → IsValid (taken p a)
  taken-IsValid off = record {
    ordered = v.ordered;
    word = v.word;
    small = v.small;
    sized = length-raised p.leases_bm (a - p.start_address) ∙ v.sized;
    bytes = raised-AreBytes p.leases_bm (a - p.start_address) v.bytes;
    counted = omega (arith, counts, free_pos off, available-le-size p v, v.counted, v.small);
  }
    where
      counts :
          free_count (raised p.leases_bm (a - p.start_address)) (size p) + 1
          ≡ free_count p.leases_bm (size p)
      counts = ground (
        arith,
        free_count-change p.leases_bm (raised p.leases_bm (a - p.start_address))
            (a - p.start_address) 1 (size p)
            (λ j. leased_at-raised p.leases_bm (a - p.start_address) j v.bytes (index-lt p a v w))
            (omega arith),
      )

  pub freed-IsValid : allocation p a ≡ 1 → IsValid (freed p a)
  freed-IsValid on = record {
    ordered = v.ordered;
    word = v.word;
    small = v.small;
    sized = length-dropped p.leases_bm (a - p.start_address) ∙ v.sized;
    bytes = dropped-AreBytes p.leases_bm (a - p.start_address) v.bytes;
    counted = omega (arith, counts, free_count-le p.leases_bm (size p), v.counted, v.small);
  }
    where
      counts :
          free_count (dropped p.leases_bm (a - p.start_address)) (size p)
          ≡ free_count p.leases_bm (size p) + 1
      counts = ground (
        arith,
        free_count-change p.leases_bm (dropped p.leases_bm (a - p.start_address))
            (a - p.start_address) 0 (size p)
            (λ j.
              leased_at-dropped p.leases_bm (a - p.start_address) j v.bytes (index-lt p a v w) on)
            (omega arith),
      )

pub allocation-lt : (p : AddressPool) (a : ℕ) → allocation p a < 2
allocation-lt p a = leased_at-lt p.leases_bm (a - p.start_address)

pub set-IsValid :
    (p : AddressPool) (a : ℕ) → IsValid p → IsValid (address_pool_set_address_allocation p a).1
unfolding address_belongs_to_pool
set-IsValid p a v = rw set_lem (ground (arith, allocation-lt p a, taken-IsValid p a v))

pub clear-IsValid :
    (p : AddressPool) (a : ℕ) → IsValid p → IsValid (address_pool_clear_address_allocation p a).1
unfolding address_belongs_to_pool
clear-IsValid p a v = rw clear_lem (ground (arith, allocation-lt p a, freed-IsValid p a v))

-- Every action on every address, also an unknown action or an address outside of the pool, keeps
-- a valid pool valid: the bitmap keeps its size and `available_addresses` still counts its clear
-- bits.
pub ctl-IsValid :
    (p : AddressPool) (a action : ℕ)
    → IsValid p
    → IsValid (address_pool_address_allocation_ctl p a action).1
unfolding address_pool_address_allocation_ctl
ctl-IsValid p a action v = elim (Bool-cases (action == b's')) [
  | inl s ↦ rw s (unfold address_pool_set_address_allocation in set-IsValid p a v)
  | inr ns ↦ rw ns (elim (Bool-cases (action == b'c')) [
    | inl c ↦ rw c (unfold address_pool_clear_address_allocation in clear-IsValid p a v)
    | inr nc ↦ ground arith
  ])
]
