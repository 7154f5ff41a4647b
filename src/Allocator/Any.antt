-- ===== src/Allocator/Any.antt =====
-- Requests for any address in server/src/allocator.c.
use mathlib.Core.Path.{subst}
use mathlib.Core.Logic.{◌≢◌}
use dhcpv4_server_with_gui_c.Prelude.{
  ℕ, ◌<◌, ◌≡◌, refl, true, false, none, some, List, [], ◌∷◌, arith, ◌==◌, Bool-cases, inl, inr, ◌⊎◌,
  ==_iff, All,
}
use dhcpv4_server_with_gui_c.Pool.{
  AddressPool, address_belongs_to_pool, address_pool_get_address_allocation as get_allocation,
  address_pool_set_address_allocation as set_allocation,
}
use dhcpv4_server_with_gui_c.Pool.Invariant.{IsValid}
use dhcpv4_server_with_gui_c.Pool.Refine.{get-cases, set_free}
use dhcpv4_server_with_gui_c.Allocator.Address.{AreValid, request_free, available_lem}
use dhcpv4_server_with_gui_c.Allocator.FirstFree.{
  assign_first_lem, assign_first_available, none_available,
}
use dhcpv4_server_with_gui_c.Allocator.Pools.{pools_read, All-find_pool}
use dhcpv4_server_with_gui_c.Options.{DhcpOption}
use dhcpv4_server_with_gui_c.Allocator.{
  Allocator, AllocatorStatus, ok, error, pool_depleted, find_pool, write_pool, Requested, prepend,
  allocator_assign_first_from_pool, request_loop, allocator_request_any_address,
  allocator_request_this_address, allocator_is_address_available,
}

abbrev pub IsDepleted : AddressPool → Type 0
IsDepleted p = p.available_addresses ≡ 0

-- No address lies in two pools of the list.
abbrev pub AreApart : List AddressPool → Type 0
AreApart [] = Unit {0}
AreApart (p ∷ ps) =
    All (λ q. (b : ℕ) → address_belongs_to_pool q b ≡ true → address_belongs_to_pool p b ≡ false) ps
    × AreApart ps

used_of_depleted :
    (p : AddressPool) (a : ℕ)
    → IsValid p
    → IsDepleted p
    → address_belongs_to_pool p a ≡ true
    → get_allocation p a ≡ some 1
unfolding address_belongs_to_pool
used_of_depleted p a v d inside = none_available p v d a (ground arith) (ground arith)

get-belongs :
    (p : AddressPool) (x v : ℕ) → get_allocation p x ≡ some v → address_belongs_to_pool p x ≡ true
get-belongs p x v h = ground (arith, get-cases p x)

-- A pool with a free address counts one.
not_depleted :
    (p : AddressPool) (a : ℕ) → IsValid p → get_allocation p a ≡ some 0 → p.available_addresses ≢ 0
not_depleted p a v free =
    λ d. absurd (ground (arith, used_of_depleted p a v d (get-belongs p a 0 free)))

-- The loop gave nothing since all pools are depleted, or it took a free address of the pool that
-- serves it.
abbrev Nothing : List AddressPool → Requested → Type 0
Nothing ps r = All IsDepleted ps × ((rv : AllocatorStatus) × (r ≡ some (rv, none, ps)))

abbrev Granted : List AddressPool → Requested → Type 0
Granted ps r =
    (x : ℕ) × (p : AddressPool) × (rv : AllocatorStatus) × (find_pool ps x ≡ some p)
    × (get_allocation p x ≡ some 0)
    × (r ≡ some (rv, some x, write_pool ps x (set_allocation p x).1))

-- A pool of the list that serves an address does not lie in a pool apart from the list.
not_in_head :
    (p : AddressPool) (ps : List AddressPool) (x : ℕ) {q : AddressPool}
    → All
        (λ r. (b : ℕ) → address_belongs_to_pool r b ≡ true → address_belongs_to_pool p b ≡ false)
        ps
    → find_pool ps x ≡ some q
    → address_belongs_to_pool p x ≡ false
unfolding find_pool
not_in_head p [] x h e = absurd (cc)
not_in_head p (r ∷ ps) x h e = elim (Bool-cases (address_belongs_to_pool r x)) [
  | inl here ↦ h.0 x here
  | inr there ↦ not_in_head p ps x h.1 (rw there at e)
]

take_here :
    (p : AddressPool) (ps : List AddressPool)
    → IsValid p
    → 0 < p.available_addresses
    → Granted (p ∷ ps) (request_loop (p ∷ ps))
unfolding request_loop find_pool write_pool
take_here p ps v h =
    let (x, lo, hi, free, u, e) = assign_first_available p v h in
    let inside = get-belongs p x 0 free in
    let more : (p.available_addresses == 0) ≡ false = ground arith in
    (x, p, error, rw inside refl, free, rw (more, e, inside) refl)

take_later :
    (p : AddressPool) (ps : List AddressPool) (x : ℕ) (q : AddressPool)
    → All
        (λ r. (b : ℕ) → address_belongs_to_pool r b ≡ true → address_belongs_to_pool p b ≡ false)
        ps
    → find_pool ps x ≡ some q
    → (find_pool (p ∷ ps) x ≡ some q)
      × (write_pool (p ∷ ps) x (set_allocation q x).1 ≡ p ∷ write_pool ps x (set_allocation q x).1)
unfolding find_pool write_pool
take_later p ps x q h e = let out = not_in_head p ps x h e in (rw out e, rw out refl)

available_of_free :
    (a : Allocator) (x : ℕ) (p : AddressPool)
    → find_pool a.address_pools x ≡ some p
    → get_allocation p x ≡ some 0
    → allocator_is_address_available a x ≡ true
unfolding pools_read
available_of_free a x p f free = rw available_lem (ground arith)

skipped :
    (p q : AddressPool) (ps : List AddressPool)
    → IsDepleted p
    → request_loop (p ∷ q ∷ ps) ≡ prepend p (request_loop (q ∷ ps))
unfolding request_loop
skipped p q ps h = rw h refl

request_loop_lem :
    (ps : List AddressPool)
    → All IsValid ps
    → AreApart ps
    → Nothing ps (request_loop ps) ⊎ Granted ps (request_loop ps)
request_loop_lem [] v a = inl (tt, (error, unfold request_loop in refl))
request_loop_lem (p ∷ []) v a = elim (Bool-cases (p.available_addresses == 0)) [
  | inl spent ↦ inl (((==_iff _ _).0 spent, tt), (pool_depleted, unfold request_loop in rw spent))
  | inr left ↦ inr (take_here p [] v.0 (ground arith))
]
request_loop_lem (p ∷ q ∷ ps) v a = elim (Bool-cases (p.available_addresses == 0)) [
  | inr left ↦ inr (take_here p (q ∷ ps) v.0 (ground arith))
  | inl spent ↦
      let none_left : IsDepleted p = (==_iff _ _).0 spent in
      rw (skipped p q ps none_left) (elim (request_loop_lem (q ∷ ps) v.1 a.1) [
        | inl (d, (rv, e)) ↦ inl ((none_left, d), (rv, rw e refl))
        | inr (x, r, rv, f, free, e) ↦
            let (found, written) = take_later p (q ∷ ps) x r a.0 f in
            inr (x, r, rv, found, free, rw (e, written) refl)
      ])
]

-- A request for any address, to valid pools that share no address, ends with the status OK. Either
-- every pool is depleted, and no address is given and nothing changes; or an address that was
-- available is given, and the allocator is as after a request for that very address.
pub request_any-refines :
    (a : Allocator)
    → AreValid a
    → AreApart a.address_pools
    → (All IsDepleted a.address_pools × (allocator_request_any_address a ≡ some (ok, none, a)))
      ⊎ ((x : ℕ) × (allocator_is_address_available a x ≡ true)
          × (allocator_request_any_address a ≡ some (allocator_request_this_address a x)))
unfolding allocator_request_any_address
request_any-refines a v h = elim (request_loop_lem a.address_pools v h) [
  | inl (d, (rv, e)) ↦ inl (d, rw (e, allocator_request_any_address) refl)
  | inr (x, p, rv, f, free, e) ↦
      let (s, n, g) = set_free p x (All-find_pool IsValid a.address_pools x f v) free in
      inr (
        x,
        available_of_free a x p f free,
        rw (e, allocator_request_any_address, request_free a x p f free s) refl,
      )
]

abbrev pub pair_of : List DhcpOption → AddressPool → AddressPool → Allocator
pair_of options p q = record { default_options = options; address_pools = p ∷ q ∷ [] }

-- The search of a pool whose first address is free takes that address.
assign_at_start :
    (q : AddressPool)
    → IsValid q
    → get_allocation q q.start_address ≡ some 0
    → allocator_assign_first_from_pool q
      ≡ some (ok, some q.start_address, (set_allocation q q.start_address).1)
assign_at_start q v free = elim (assign_first_lem q v) [
  | inr (u, e) ↦ absurd (ground (arith, u q.start_address (omega arith) (omega (arith, v.ordered))))
  | inl (x, lo, hi, g, u, e) ↦ elim (Bool-cases (x == q.start_address)) [
    | inl same ↦
        subst (λ y. allocator_assign_first_from_pool q ≡ some (ok, some y, (set_allocation q y).1))
          ((==_iff x q.start_address).0 same) e
    | inr after ↦ absurd (ground (arith, u q.start_address (omega arith) (ground arith)))
  ]
]

-- With two valid pools, the first of them depleted and holding the first address of the second,
-- which is free there, a request for any address gives out that address, although the allocator
-- answers that it is not available.
pub request_any_overlap :
    (options : List DhcpOption) (p q : AddressPool)
    → IsValid p
    → IsValid q
    → IsDepleted p
    → address_belongs_to_pool p q.start_address ≡ true
    → get_allocation q q.start_address ≡ some 0
    → (allocator_is_address_available (pair_of options p q) q.start_address ≡ false)
      × (allocator_request_any_address (pair_of options p q)
          ≡ some (ok, some q.start_address, pair_of options p (set_allocation q q.start_address).1))
unfolding allocator_is_address_available find_pool allocator_request_any_address request_loop
request_any_overlap options p q v w d inside free =
    let used = used_of_depleted p q.start_address v d inside in
    let found = assign_at_start q w free in
    let left = not_depleted q q.start_address w free in (ground arith, ground arith)
