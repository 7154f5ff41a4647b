-- ===== src/Examples/Pools.antt =====
-- Theorems on server/src/address_pool.c at the pool 192.168.1.16 to 192.168.1.31.
use dhcpv4_server_with_gui_c.Prelude.{
  [], ◌-◌, none, ℕ, ◌≡◌, refl, ◌+◌, ◌*◌, ◌≤◌, ◌<◌, ◌↔◌, some, arith, ◌==◌, if◌then◌else◌, length,
}
use dhcpv4_server_with_gui_c.Prelude.Bytes.{bit_of}
use dhcpv4_server_with_gui_c.Pool.{
  address_belongs_to_pool, u32_mod, address_pool_address_allocation_ctl,
  address_pool_set_address_allocation, address_pool_clear_address_allocation,
  address_pool_get_address_allocation,
}
use dhcpv4_server_with_gui_c.Pool.Invariant.{IsValid, size, ctl-IsValid}
use dhcpv4_server_with_gui_c.Pool.Refine.{set_free, clear-set}
use dhcpv4_server_with_gui_c.Pool.New.{new-IsValid, new_bitmap}
use dhcpv4_server_with_gui_c.Examples.{
  lan, lan_start, lan_end, lan_mask, lan_made, lan-IsValid, used_lan,
}

ctl-IsValid_example : IsValid (address_pool_address_allocation_ctl lan 3232235800 b's').1
ctl-IsValid_example = ctl-IsValid lan 3232235800 b's' lan-IsValid

first_free : address_pool_get_address_allocation lan lan_start ≡ some 0
unfolding address_pool_get_address_allocation bit_of
first_free = refl

first_used : address_pool_get_address_allocation used_lan lan_start ≡ some 1
unfolding address_pool_get_address_allocation bit_of
first_used = refl

set_free_example :
    ((address_pool_set_address_allocation lan lan_start).0 ≡ some 0)
    × ((address_pool_set_address_allocation lan lan_start).1.available_addresses + 1 ≡ 16)
    × ((b : ℕ)
        → address_pool_get_address_allocation
            (address_pool_set_address_allocation lan lan_start).1
            b
          ≡ (if lan_start == b then some 1 else address_pool_get_address_allocation lan b))
set_free_example = set_free lan lan_start lan-IsValid first_free

clear-set_example :
    address_pool_clear_address_allocation
      (address_pool_set_address_allocation lan lan_start).1
      lan_start
    ≡ (some 0, lan)
clear-set_example = clear-set lan lan_start lan-IsValid first_free

new-IsValid_example :
    IsValid lan
    × ((a : ℕ)
        → address_pool_get_address_allocation lan a
          ≡ (if address_belongs_to_pool lan a then some 0 else none))
new-IsValid_example =
    new-IsValid "lan" lan_start lan_end lan_mask (omega arith) lan_made (omega arith)

new_bitmap_example :
    ((size lan ≤ 8 * length lan.leases_bm) ↔ (size lan + 7 < u32_mod))
    × ((lan.leases_bm ≡ []) ↔ (u32_mod - 7 ≤ size lan))
new_bitmap_example = new_bitmap "lan" lan_start lan_end lan_mask (omega arith) lan_made
