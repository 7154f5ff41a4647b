-- ===== src/Pool/Refine.antt =====
-- The operations of server/src/address_pool.c seen as operations on a set of addresses in use.
use dhcpv4_server_with_gui_c.Prelude.{
  ℕ, ◌⊎◌, true, false, ◌+◌, ◌-◌, ◌≡◌, refl, ap, ◌≢◌, none, some, arith, ◌==◌, if◌then◌else◌,
}
use dhcpv4_server_with_gui_c.Pool.Bitmap.{dropped-raised}
use dhcpv4_server_with_gui_c.Pool.Invariant.{
  IsValid, Within, allocation, allocation-lt, taken, freed, get_lem, set_lem, clear_lem, index-lt,
  allocation-taken, allocation-freed, available-le-size, free_pos,
}
use dhcpv4_server_with_gui_c.Pool.{
  AddressPool, address_belongs_to_pool, address_pool_set_address_allocation as set_allocation,
  address_pool_clear_address_allocation as clear_allocation,
  address_pool_get_address_allocation as get_allocation,
}

-- A free address reads as 0.
get_free :
    (p : AddressPool) (a : ℕ) → get_allocation p a ≡ some 0 → Within p a × (allocation p a ≡ 0)
unfolding address_belongs_to_pool
get_free p a h = ground (arith, get_lem p a)

get_used :
    (p : AddressPool) (a : ℕ) → get_allocation p a ≡ some 1 → Within p a × (allocation p a ≡ 1)
unfolding address_belongs_to_pool
get_used p a h = ground (arith, get_lem p a)

set-taken :
    (p : AddressPool) (a : ℕ)
    → Within p a
    → allocation p a ≡ 0
    → set_allocation p a ≡ (some 0, taken p a)
unfolding address_belongs_to_pool
set-taken p a w h = ground (arith, set_lem p a)

clear-freed :
    (p : AddressPool) (a : ℕ)
    → Within p a
    → allocation p a ≡ 1
    → clear_allocation p a ≡ (some 0, freed p a)
unfolding address_belongs_to_pool
clear-freed p a w h = ground (arith, clear_lem p a)

-- Setting a free address of a valid pool succeeds. Then it reads as in use, every other address
-- reads as before, and one address fewer is available.
pub set_free :
    (p : AddressPool) (a : ℕ)
    → IsValid p
    → get_allocation p a ≡ some 0
    → ((set_allocation p a).0 ≡ some 0)
      × ((set_allocation p a).1.available_addresses + 1 ≡ p.available_addresses)
      × ((b : ℕ)
          → get_allocation (set_allocation p a).1 b
            ≡ (if a == b then some 1 else get_allocation p b))
unfolding address_belongs_to_pool
set_free p a v h =
    let (w, off) = get_free p a h in
    rw (set-taken p a w off) (
      refl,
      omega (arith, free_pos p a v w off, available-le-size p v, v.small),
      λ b. ground (arith, get_lem p b, get_lem (taken p a) b, allocation-taken p a v w b),
    )

-- Setting an address that does not read as free, in use or outside of the pool, fails and changes
-- nothing.
pub set_not_free :
    (p : AddressPool) (a : ℕ) → get_allocation p a ≢ some 0 → set_allocation p a ≡ (none, p)
unfolding address_belongs_to_pool
set_not_free p a h = ground (arith, get_lem p a, set_lem p a, allocation-lt p a)

-- Clearing an address in use of a valid pool succeeds. Then it reads as free, every other address
-- reads as before, and one address more is available.
pub clear_used :
    (p : AddressPool) (a : ℕ)
    → IsValid p
    → get_allocation p a ≡ some 1
    → ((clear_allocation p a).0 ≡ some 0)
      × ((clear_allocation p a).1.available_addresses ≡ p.available_addresses + 1)
      × ((b : ℕ)
          → get_allocation (clear_allocation p a).1 b
            ≡ (if a == b then some 0 else get_allocation p b))
unfolding address_belongs_to_pool
clear_used p a v h =
    let (w, on) = get_used p a h in
    rw (clear-freed p a w on) (
      refl,
      omega (arith, available-le-size p v, v.small),
      λ b. ground (arith, get_lem p b, get_lem (freed p a) b, allocation-freed p a v w b on),
    )

-- Clearing an address that does not read as in use fails and changes nothing.
pub clear_not_used :
    (p : AddressPool) (a : ℕ) → get_allocation p a ≢ some 1 → clear_allocation p a ≡ (none, p)
unfolding address_belongs_to_pool
clear_not_used p a h = ground (arith, get_lem p a, clear_lem p a, allocation-lt p a)

freed-taken :
    (p : AddressPool) (a : ℕ)
    → IsValid p
    → Within p a
    → allocation p a ≡ 0
    → freed (taken p a) a ≡ p
freed-taken p a v w off =
    let bits = dropped-raised p.leases_bm (a - p.start_address) v.bytes (index-lt p a v w) off in
    let count : (freed (taken p a) a).available_addresses ≡ p.available_addresses =
      omega (arith, free_pos p a v w off, available-le-size p v, v.small) in
    λ i. record p { leases_bm = bits i; available_addresses = count i }

-- Taking a free address of a valid pool and giving it back restores the pool, byte for byte.
pub clear-set :
    (p : AddressPool) (a : ℕ)
    → IsValid p
    → get_allocation p a ≡ some 0
    → clear_allocation (set_allocation p a).1 a ≡ (some 0, p)
clear-set p a v h =
    let (w, off) = get_free p a h in
    let on : allocation (taken p a) a ≡ 1 = ground (arith, allocation-taken p a v w a) in
    rw (set-taken p a w off, clear-freed (taken p a) a w on)
      (ap (λ q. (some 0, q)) (freed-taken p a v w off))

-- Whether a call changes the range of the pool: none does.
abbrev pub SameRange : AddressPool → AddressPool → Type 0
SameRange p q = (p.start_address ≡ q.start_address) × (p.end_address ≡ q.end_address)

pub set-SameRange : (p : AddressPool) (a : ℕ) → SameRange p (set_allocation p a).1
set-SameRange p a = rw set_lem (ground arith)

pub clear-SameRange : (p : AddressPool) (a : ℕ) → SameRange p (clear_allocation p a).1
clear-SameRange p a = rw clear_lem (ground arith)

-- An address of the pool reads as 0 or 1, any other address as -1.
pub get-cases :
    (p : AddressPool) (a : ℕ)
    → (address_belongs_to_pool p a ≡ true)
        × ((get_allocation p a ≡ some 0) ⊎ (get_allocation p a ≡ some 1))
      ⊎ (address_belongs_to_pool p a ≡ false) × (get_allocation p a ≡ none)
get-cases p a = ground (arith, get_lem p a, allocation-lt p a)
