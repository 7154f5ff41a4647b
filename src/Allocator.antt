-- ===== src/Allocator.antt =====
-- server/src/allocator.c and allocator.h: the address pools of the server, and its global options.
-- A call that updates what `allocator` points to returns the new allocator; `*addr_buf` is an
-- option, `none` where the call leaves it alone. Pointer arguments are not null.
pub mod Pools
pub mod Any
pub mod FirstFree
pub mod Address
pub mod Apart
use Prim.Native.String.{String}
use text.Mathlib.Text.{◌==◌ as str_eq}
use dhcpv4_server_with_gui_c.Prelude.{
  ℕ, zero, suc, ◌+◌, ◌-◌, ◌%◌, Bool, true, false, Option, none, some, List, [], ◌∷◌, ◌++◌, leb,
  ◌==◌, if◌then◌else◌,
}
use dhcpv4_server_with_gui_c.Options.{DhcpOption, memcpy, dhcp_option_retrieve}
use dhcpv4_server_with_gui_c.Pool.{
  AddressPool, u32_mod, address_belongs_to_pool, address_pool_get_address_allocation,
  address_pool_set_address_allocation, address_pool_clear_address_allocation,
}

-- `enum allocator_status`
pub data AllocatorStatus : Type 0 where
  ok error addr_reserved addr_in_use addr_not_in_use pool_duplicite : AllocatorStatus
  option_duplicite option_invalid pool_depleted cannot_create_lease : AllocatorStatus

pub record Allocator : Type 0 where
  pub default_options : List DhcpOption
  pub address_pools : List AddressPool

unfoldable pub address_allocator_new : Allocator
address_allocator_new = record { default_options = []; address_pools = [] }

unfoldable pub find_pool : List AddressPool → ℕ → Option AddressPool
find_pool [] addr = none
find_pool (p ∷ ps) addr = if address_belongs_to_pool p addr then some p else find_pool ps addr

unfoldable pub allocator_get_pool_by_address : Allocator → ℕ → Option AddressPool
unfolding find_pool
allocator_get_pool_by_address a addr = find_pool a.address_pools addr

-- Writing through the pointer that allocator_get_pool_by_address returned for `addr`.
unfoldable pub write_pool : List AddressPool → ℕ → AddressPool → List AddressPool
write_pool [] addr q = []
write_pool (p ∷ ps) addr q =
    if address_belongs_to_pool p addr then q ∷ ps else p ∷ write_pool ps addr q

unfoldable pub find_name : List AddressPool → String → Option AddressPool
find_name [] name = none
find_name (p ∷ ps) name = if str_eq p.name name then some p else find_name ps name

unfoldable pub allocator_get_pool_by_name : Allocator → String → Option AddressPool
unfolding find_name
allocator_get_pool_by_name a name = find_name a.address_pools name

unfoldable pub allocator_add_pool : Allocator → AddressPool → AllocatorStatus × Allocator
unfolding allocator_get_pool_by_name
allocator_add_pool a pool = elim (allocator_get_pool_by_name a pool.name) [
  | some _ ↦ (pool_duplicite, a)
  | none ↦ (ok, record a { address_pools = a.address_pools ++ (pool ∷ []) })
]

-- `get == 0` and `get == 1`, for a call that returns -1 as `none`
abbrev pub reads : ℕ → Option ℕ → Bool
reads v none = false
reads v (some n) = n == v

-- The loop `for (a = start_address; a <= end_address; a++)` from `a` on, where `a++` wraps. `none`
-- is a loop that goes on after `fuel` rounds.
unfoldable pub assign_loop : ℕ → ℕ → AddressPool → Option (AllocatorStatus × Option ℕ × AddressPool)
assign_loop zero a pool = none
assign_loop (suc fuel) a pool =
    let rest = assign_loop fuel ((a + 1) % u32_mod) pool in
    if leb a pool.end_address
    then (if reads 0 (address_pool_get_address_allocation pool a)
        then some (ok, some a, (address_pool_set_address_allocation pool a).1)
        else rest)
    else some (pool_depleted, none, pool)

-- One round for each address, and one to leave the loop.
unfoldable pub allocator_assign_first_from_pool :
    AddressPool → Option (AllocatorStatus × Option ℕ × AddressPool)
unfolding assign_loop
allocator_assign_first_from_pool pool =
    assign_loop (pool.end_address - pool.start_address + 2) pool.start_address pool

-- The pools as the loop over them leaves them, with `rv` and `*addr_buf`.
abbrev pub Requested : Type 0
Requested = Option (AllocatorStatus × Option ℕ × List AddressPool)

abbrev pub prepend : AddressPool → Requested → Requested
prepend q none = none
prepend q (some (rv, out, qs)) = some (rv, out, q ∷ qs)

-- The loop is left where a pool gives an address, with `rv` as it was set up.
abbrev pub after_assign :
    Option (AllocatorStatus × Option ℕ × AddressPool) → List AddressPool → Requested → Requested
after_assign none ps rest = none
after_assign (some (ok, out, q)) ps rest = some (error, out, q ∷ ps)
after_assign (some (rv, out, q)) ps rest = prepend q rest

-- A pool with no address available: the last one ends the loop.
abbrev pub skip_pool : AddressPool → List AddressPool → Requested → Requested
skip_pool p [] rest = some (pool_depleted, none, p ∷ [])
skip_pool p (_ ∷ _) rest = prepend p rest

unfoldable pub request_loop : List AddressPool → Requested
unfolding allocator_assign_first_from_pool
request_loop [] = some (error, none, [])
request_loop (p ∷ ps) =
    let rest = request_loop ps in
    if p.available_addresses == 0
    then skip_pool p ps rest
    else after_assign (allocator_assign_first_from_pool p) ps rest

-- After the loop `rv = ALLOCATOR_OK` replaces whatever the loop left in `rv`.
unfoldable pub allocator_request_any_address :
    Allocator → Option (AllocatorStatus × Option ℕ × Allocator)
unfolding request_loop
allocator_request_any_address a = elim (request_loop a.address_pools) [
  | none ↦ none
  | some (rv, out, ps) ↦ some (ok, out, record a { address_pools = ps })
]

unfoldable pub write_name : List AddressPool → String → AddressPool → List AddressPool
write_name [] name q = []
write_name (p ∷ ps) name q = if str_eq p.name name then q ∷ ps else p ∷ write_name ps name q

unfoldable pub allocator_request_address_from_pool :
    Allocator → String → Option (AllocatorStatus × Option ℕ × Allocator)
unfolding allocator_get_pool_by_name allocator_assign_first_from_pool write_name
allocator_request_address_from_pool a name = elim (allocator_get_pool_by_name a name) [
  | none ↦ some (error, none, a)
  | some p ↦ elim (allocator_assign_first_from_pool p) [
    | none ↦ none
    | some (rv, out, q) ↦
        some (rv, out, record a { address_pools = write_name a.address_pools name q })
  ]
]

-- What follows the search for the pool `p` of `addr`.
request_in : Allocator → AddressPool → ℕ → AllocatorStatus × Option ℕ × Allocator
unfolding write_pool
request_in a p addr =
    if reads 1 (address_pool_get_address_allocation p addr)
    then (addr_in_use, none, a)
    else let (rv, q) = address_pool_set_address_allocation p addr in
      let a' = record a { address_pools = write_pool a.address_pools addr q } in
      elim rv [ none ↦ (error, none, a') | some _ ↦ (ok, some addr, a') ]

unfoldable pub allocator_request_this_address :
    Allocator → ℕ → AllocatorStatus × Option ℕ × Allocator
unfolding allocator_get_pool_by_address request_in
allocator_request_this_address a addr = elim (allocator_get_pool_by_address a addr) [
  | none ↦ (cannot_create_lease, none, a)
  | some p ↦ request_in a p addr
]

release_in : Allocator → AddressPool → ℕ → AllocatorStatus × Allocator
unfolding write_pool
release_in a p addr =
    if reads 0 (address_pool_get_address_allocation p addr)
    then (addr_not_in_use, a)
    else let (rv, q) = address_pool_clear_address_allocation p addr in
      let a' = record a { address_pools = write_pool a.address_pools addr q } in
      elim rv [ none ↦ (error, a') | some _ ↦ (ok, a') ]

unfoldable pub allocator_release_address : Allocator → ℕ → AllocatorStatus × Allocator
unfolding allocator_get_pool_by_address release_in
allocator_release_address a addr = elim (allocator_get_pool_by_address a addr) [
  | none ↦ (error, a)
  | some p ↦ release_in a p addr
]

-- `!res`, where -1 counts as true
unfoldable pub allocator_is_address_available : Allocator → ℕ → Bool
unfolding allocator_get_pool_by_address
allocator_is_address_available a addr = elim (allocator_get_pool_by_address a addr) [
  | none ↦ false
  | some p ↦ reads 0 (address_pool_get_address_allocation p addr)
]

unfoldable pub allocator_add_dhcp_option : Allocator → DhcpOption → AllocatorStatus × Allocator
unfolding dhcp_option_retrieve
allocator_add_dhcp_option a o = elim (dhcp_option_retrieve a.default_options o.tag) [
  | some _ ↦ (option_duplicite, a)
  | none ↦ (ok, record a { default_options = a.default_options ++ (o ∷ []) })
]

-- Writing through the pointer that dhcp_option_retrieve returned. Its parameter is a uint8_t, so
-- the tag that it looks for is `tag % 256`.
unfoldable pub change_option : List DhcpOption → ℕ → List ℕ → ℕ → List DhcpOption
unfolding memcpy
change_option [] tag new_value new_length = []
change_option (o ∷ os) tag new_value new_length =
    if o.tag == tag
    then record o { value = memcpy new_length new_value o.value; lenght = new_length } ∷ os
    else o ∷ change_option os tag new_value new_length

unfoldable pub allocator_change_dhcp_option :
    Allocator → ℕ → List ℕ → ℕ → AllocatorStatus × Allocator
unfolding change_option dhcp_option_retrieve
allocator_change_dhcp_option a tag new_value new_length =
    elim (dhcp_option_retrieve a.default_options (tag % 256)) [
      | none ↦ (option_invalid, a)
      | some _ ↦ (
        ok,
        record a {
          default_options = change_option a.default_options (tag % 256) new_value new_length;
        },
      )
    ]
