-- ===== src/Allocator/Address.antt =====
-- Requests and releases of one address in server/src/allocator.c, against the set of addresses in
-- use.
use dhcpv4_server_with_gui_c.Prelude.{
  ℕ, ◌≡◌, refl, ap, true, false, Bool, none, some, List, arith, ◌==◌, if◌then◌else◌, All,
  Option-cases, inl, inr,
}
use dhcpv4_server_with_gui_c.Pool.{
  AddressPool, address_belongs_to_pool, address_pool_get_address_allocation as get_allocation,
  address_pool_set_address_allocation as set_allocation,
  address_pool_clear_address_allocation as clear_allocation,
}
use dhcpv4_server_with_gui_c.Pool.Invariant.{IsValid, set-IsValid, clear-IsValid}
use dhcpv4_server_with_gui_c.Pool.Refine.{
  get-cases, set_free, clear_used, clear-set, set-SameRange, clear-SameRange,
}
use dhcpv4_server_with_gui_c.Allocator.Pools.{
  pools_read, find_pool-belongs, All-find_pool, All-write_pool, pools_read-write_pool,
  write_pool-write_pool, find_pool-write_pool,
}
use dhcpv4_server_with_gui_c.Allocator.{
  Allocator, ok, error, addr_in_use, addr_not_in_use, cannot_create_lease, find_pool, write_pool,
  allocator_request_this_address, allocator_release_address, allocator_is_address_available,
}

-- Every pool is valid.
abbrev pub AreValid : Allocator → Type 0
AreValid a = All IsValid a.address_pools

-- Whether a pool serves the address and has it in use.
abbrev pub is_address_in_use : Allocator → ℕ → Bool
is_address_in_use a addr = pools_read 1 a.address_pools addr

-- Whether some pool serves the address.
abbrev pub is_served : Allocator → ℕ → Bool
is_served a addr = elim (find_pool a.address_pools addr) [ none ↦ false | some _ ↦ true ]

pub available_lem :
    (a : Allocator) (addr : ℕ)
    → allocator_is_address_available a addr ≡ pools_read 0 a.address_pools addr
unfolding allocator_is_address_available pools_read
available_lem a addr = refl

-- The pool that reads as `v` at an address.
module _ (ps : List AddressPool) (addr : ℕ) (v : ℕ) where
  pub reading_pool :
      pools_read v ps addr ≡ true
      → (p : AddressPool) × (find_pool ps addr ≡ some p) × (get_allocation p addr ≡ some v)
  unfolding pools_read
  reading_pool h = elim (Option-cases (find_pool ps addr)) [
    | inl e ↦ absurd (ground arith)
    | inr (p, e) ↦ (p, e, ground arith)
  ]

pub request_free :
    (a : Allocator) (addr : ℕ) (p : AddressPool)
    → find_pool a.address_pools addr ≡ some p
    → get_allocation p addr ≡ some 0
    → (set_allocation p addr).0 ≡ some 0
    → allocator_request_this_address a addr ≡ (
      ok,
      some addr,
      record a { address_pools = write_pool a.address_pools addr (set_allocation p addr).1 },
    )
unfolding allocator_request_this_address
request_free a addr p e g s = ground arith

pub release_used :
    (a : Allocator) (addr : ℕ) (p : AddressPool)
    → find_pool a.address_pools addr ≡ some p
    → get_allocation p addr ≡ some 1
    → (clear_allocation p addr).0 ≡ some 0
    → allocator_release_address a addr ≡ (
      ok,
      record a { address_pools = write_pool a.address_pools addr (clear_allocation p addr).1 },
    )
unfolding allocator_release_address
release_used a addr p e g s = ground arith

-- A request to valid pools for an available address is granted: the caller gets that address, it
-- is no longer available and is in use, every other address stays as it was, and the pools stay
-- valid.
pub request-refines :
    (a : Allocator) (addr : ℕ)
    → AreValid a
    → allocator_is_address_available a addr ≡ true
    → let (rv, out, a') = allocator_request_this_address a addr in
      (rv ≡ ok)
      × (out ≡ some addr)
      × AreValid a'
      × ((b : ℕ)
          → allocator_is_address_available a' b
            ≡ (if addr == b then false else allocator_is_address_available a b))
      × ((b : ℕ) → is_address_in_use a' b ≡ (if addr == b then true else is_address_in_use a b))
request-refines a addr v h =
    let (p, e, g) = reading_pool a.address_pools addr 0 (rw available_lem at h) in
    let pv = All-find_pool IsValid a.address_pools addr e v in
    let (s, n, f) = set_free p addr pv g in
    rw (request_free a addr p e g s) (
      refl,
      refl,
      All-write_pool IsValid a.address_pools addr _ v (set-IsValid p addr pv),
      (λ b.
          rw (available_lem, available_lem)
            (pools_read-write_pool 0 1 a.address_pools addr _ e (set-SameRange p addr) f b)),
      (λ b. pools_read-write_pool 1 1 a.address_pools addr _ e (set-SameRange p addr) f b),
    )

-- A request for an address that is not available changes nothing: it is reported as in use if a
-- pool serves the address, and otherwise no lease can be created.
pub request_unavailable :
    (a : Allocator) (addr : ℕ)
    → allocator_is_address_available a addr ≡ false
    → allocator_request_this_address a addr
      ≡ ((if is_served a addr then addr_in_use else cannot_create_lease), none, a)
unfolding allocator_request_this_address allocator_is_address_available
request_unavailable a addr h = elim (Option-cases (find_pool a.address_pools addr)) [
  | inl e ↦ ground arith
  | inr (p, e) ↦ ground (arith, get-cases p addr, find_pool-belongs a.address_pools addr {p = p})
]

-- A release of an address in use of valid pools is granted: the address is available again,
-- every other address stays as it was, and the pools stay valid.
pub release-refines :
    (a : Allocator) (addr : ℕ)
    → AreValid a
    → is_address_in_use a addr ≡ true
    → let (rv, a') = allocator_release_address a addr in
      (rv ≡ ok)
      × AreValid a'
      × ((b : ℕ)
          → allocator_is_address_available a' b
            ≡ (if addr == b then true else allocator_is_address_available a b))
      × ((b : ℕ) → is_address_in_use a' b ≡ (if addr == b then false else is_address_in_use a b))
release-refines a addr v h =
    let (p, e, g) = reading_pool a.address_pools addr 1 h in
    let pv = All-find_pool IsValid a.address_pools addr e v in
    let (s, n, f) = clear_used p addr pv g in
    rw (release_used a addr p e g s) (
      refl,
      All-write_pool IsValid a.address_pools addr _ v (clear-IsValid p addr pv),
      (λ b.
          rw (available_lem, available_lem)
            (pools_read-write_pool 0 0 a.address_pools addr _ e (clear-SameRange p addr) f b)),
      (λ b. pools_read-write_pool 1 0 a.address_pools addr _ e (clear-SameRange p addr) f b),
    )

-- A release of an address that is not in use changes nothing: an address that a pool serves is
-- reported as not in use, any other as an error.
pub release_not_in_use :
    (a : Allocator) (addr : ℕ)
    → is_address_in_use a addr ≡ false
    → allocator_release_address a addr ≡ ((if is_served a addr then addr_not_in_use else error), a)
unfolding allocator_release_address pools_read
release_not_in_use a addr h = elim (Option-cases (find_pool a.address_pools addr)) [
  | inl e ↦ ground arith
  | inr (p, e) ↦ ground (arith, get-cases p addr, find_pool-belongs a.address_pools addr {p = p})
]

-- With valid pools, releasing an address right after it was granted restores the allocator, byte
-- for byte.
pub release-request :
    (a : Allocator) (addr : ℕ)
    → AreValid a
    → allocator_is_address_available a addr ≡ true
    → allocator_release_address (allocator_request_this_address a addr).2 addr ≡ (ok, a)
release-request a addr v h =
    let (p, e, g) = reading_pool a.address_pools addr 0 (rw available_lem at h) in
    let pv = All-find_pool IsValid a.address_pools addr e v in
    let (s, n, f) = set_free p addr pv g in
    let q = (set_allocation p addr).1 in
    let used : get_allocation q addr ≡ some 1 = ground (arith, f addr) in
    let inside : address_belongs_to_pool q addr ≡ true = ground (arith, get-cases q addr) in
    let back = clear-set p addr pv g in
    let found = find_pool-write_pool a.address_pools addr q e inside in
    rw
      (
        request_free a addr p e g s,
        release_used (record a { address_pools = write_pool a.address_pools addr q }) addr q found
            used (ap (λ r. r.0) back),
        ap (λ r. r.1) back,
        write_pool-write_pool a.address_pools addr q e inside,
      )
      refl
