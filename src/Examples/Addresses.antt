-- ===== src/Examples/Addresses.antt =====
-- Theorems on server/src/allocator.c at an allocator with the pool 192.168.1.16 to 192.168.1.31.
use dhcpv4_server_with_gui_c.Prelude.{
  ℕ, ◌≡◌, refl, true, false, none, some, ◌==◌, if◌then◌else◌, ◌⊎◌, [], All,
}
use dhcpv4_server_with_gui_c.Prelude.Bytes.{bit_of}
use dhcpv4_server_with_gui_c.Pool.{
  address_belongs_to_pool, address_pool_get_address_allocation, address_pool_set_address_allocation,
}
use dhcpv4_server_with_gui_c.Allocator.{
  ok, error, addr_in_use, cannot_create_lease, addr_not_in_use, find_pool,
  allocator_is_address_available, allocator_request_this_address, allocator_release_address,
  allocator_request_any_address, allocator_assign_first_from_pool,
}
use dhcpv4_server_with_gui_c.Allocator.Pools.{pools_read}
use dhcpv4_server_with_gui_c.Allocator.Address.{
  AreValid, is_address_in_use, is_served, request-refines, request_unavailable, release-refines,
  release_not_in_use, release-request,
}
use dhcpv4_server_with_gui_c.Allocator.FirstFree.{Found, Depleted, assign_first_lem}
use dhcpv4_server_with_gui_c.Allocator.Any.{
  IsDepleted, pair_of, request_any-refines, request_any_overlap,
}
use dhcpv4_server_with_gui_c.Examples.{
  lan, lan_start, lan-IsValid, used_lan, used_lan-IsValid, home, busy_home, full, full-IsValid,
}

home_available : allocator_is_address_available home lan_start ≡ true
unfolding allocator_is_address_available address_pool_get_address_allocation find_pool bit_of
    address_belongs_to_pool
home_available = refl

busy_unavailable : allocator_is_address_available busy_home lan_start ≡ false
unfolding allocator_is_address_available address_pool_get_address_allocation find_pool bit_of
    address_belongs_to_pool
busy_unavailable = refl

busy_in_use : is_address_in_use busy_home lan_start ≡ true
unfolding pools_read address_pool_get_address_allocation find_pool bit_of address_belongs_to_pool
busy_in_use = refl

home_not_in_use : is_address_in_use home lan_start ≡ false
unfolding pools_read address_pool_get_address_allocation find_pool bit_of address_belongs_to_pool
home_not_in_use = refl

request-refines_example :
    let (rv, out, a') = allocator_request_this_address home lan_start in
    (rv ≡ ok)
    × (out ≡ some lan_start)
    × AreValid a'
    × ((b : ℕ)
        → allocator_is_address_available a' b
          ≡ (if lan_start == b then false else allocator_is_address_available home b))
    × ((b : ℕ)
        → is_address_in_use a' b ≡ (if lan_start == b then true else is_address_in_use home b))
request-refines_example = request-refines home lan_start (lan-IsValid, tt) home_available

request_unavailable_example : allocator_request_this_address busy_home lan_start ≡ (
  (if is_served busy_home lan_start then addr_in_use else cannot_create_lease),
  none,
  busy_home,
)
request_unavailable_example = request_unavailable busy_home lan_start busy_unavailable

release-refines_example :
    let (rv, a') = allocator_release_address busy_home lan_start in
    (rv ≡ ok)
    × AreValid a'
    × ((b : ℕ)
        → allocator_is_address_available a' b
          ≡ (if lan_start == b then true else allocator_is_address_available busy_home b))
    × ((b : ℕ)
        → is_address_in_use a' b
          ≡ (if lan_start == b then false else is_address_in_use busy_home b))
release-refines_example = release-refines busy_home lan_start (used_lan-IsValid, tt) busy_in_use

release_not_in_use_example :
    allocator_release_address home lan_start
    ≡ ((if is_served home lan_start then addr_not_in_use else error), home)
release_not_in_use_example = release_not_in_use home lan_start home_not_in_use

release-request_example :
    allocator_release_address (allocator_request_this_address home lan_start).2 lan_start
    ≡ (ok, home)
release-request_example = release-request home lan_start (lan-IsValid, tt) home_available

assign_first_lem_example :
    Found used_lan used_lan.start_address (allocator_assign_first_from_pool used_lan)
    ⊎ Depleted used_lan used_lan.start_address (allocator_assign_first_from_pool used_lan)
assign_first_lem_example = assign_first_lem used_lan used_lan-IsValid

request_any-refines_example :
    (All IsDepleted busy_home.address_pools
      × (allocator_request_any_address busy_home ≡ some (ok, none, busy_home)))
    ⊎ ((x : ℕ) × (allocator_is_address_available busy_home x ≡ true)
        × (allocator_request_any_address busy_home
            ≡ some (allocator_request_this_address busy_home x)))
request_any-refines_example = request_any-refines busy_home (used_lan-IsValid, tt) (tt, tt)

full_holds : address_belongs_to_pool full lan_start ≡ true
unfolding address_belongs_to_pool
full_holds = refl

lan_free : address_pool_get_address_allocation lan lan_start ≡ some 0
unfolding address_pool_get_address_allocation bit_of
lan_free = refl

request_any_overlap_example :
    (allocator_is_address_available (pair_of [] full lan) lan_start ≡ false)
    × (allocator_request_any_address (pair_of [] full lan)
        ≡ some (
          ok,
          some lan_start,
          pair_of [] full (address_pool_set_address_allocation lan lan_start).1,
        ))
request_any_overlap_example =
    request_any_overlap [] full lan full-IsValid lan-IsValid refl full_holds lan_free
