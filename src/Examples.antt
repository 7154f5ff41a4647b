-- ===== src/Examples.antt =====
-- Concrete pools, allocators and messages, and in the modules below the theorems of the other
-- modules applied to them.
mod Pools
mod Addresses
mod Wire
mod Sessions
mod Policies
mod Handlers
mod Answers
mod Rounds
mod Startup
use dhcpv4_server_with_gui_c.Prelude.{ℕ, ◌≡◌, refl, some, [], ◌∷◌, replicate, arith, List, All}
use dhcpv4_server_with_gui_c.Prelude.Bytes.{bit_of, raise_bit}
use dhcpv4_server_with_gui_c.Options.{DhcpOption, dhcp_option_add, dhcp_option_retrieve}
use dhcpv4_server_with_gui_c.Pool.{
  AddressPool, opt_subnet_mask, address_pool_new, pool_range, can_range_be_on_subnet,
  address_pool_set_address_allocation,
}
use dhcpv4_server_with_gui_c.Pool.Invariant.{IsValid, set-IsValid}
use dhcpv4_server_with_gui_c.Pool.New.{new-IsValid}
use dhcpv4_server_with_gui_c.Allocator.{Allocator}

-- 192.168.1.16 to 192.168.1.31 on 255.255.255.0
abbrev pub lan_start : ℕ
lan_start = 3232235792

abbrev pub lan_end : ℕ
lan_end = 3232235807

abbrev pub lan_mask : ℕ
lan_mask = 4294967040

unfoldable pub lan_options : List DhcpOption
unfolding opt_subnet_mask dhcp_option_add
lan_options = dhcp_option_add [] (opt_subnet_mask lan_mask)

abbrev pub lan : AddressPool
lan = record {
  name = "lan";
  start_address = lan_start;
  end_address = lan_end;
  mask = lan_mask;
  leases_bm = 0 ∷ 0 ∷ [];
  available_addresses = 16;
  dhcp_option_override = lan_options;
}

pub lan_made : address_pool_new "lan" lan_start lan_end lan_mask ≡ some lan
unfolding address_pool_new pool_range can_range_be_on_subnet lan_options
lan_made = refl

pub lan-IsValid : IsValid lan
lan-IsValid = (new-IsValid "lan" lan_start lan_end lan_mask (omega arith) lan_made (omega arith)).0

-- The pool with its first address in use
abbrev pub used_lan : AddressPool
used_lan = record lan { leases_bm = 1 ∷ 0 ∷ []; available_addresses = 15 }

pub used_lan-IsValid : IsValid used_lan
unfolding address_pool_set_address_allocation bit_of raise_bit
used_lan-IsValid = set-IsValid lan lan_start lan-IsValid

-- The pool of its first two addresses, empty and with both in use
abbrev pub small : AddressPool
small = record lan {
  name = "small";
  end_address = 3232235793;
  leases_bm = 0 ∷ [];
  available_addresses = 2;
}

small_made : address_pool_new "small" lan_start 3232235793 lan_mask ≡ some small
unfolding address_pool_new pool_range can_range_be_on_subnet lan_options
small_made = refl

small-IsValid : IsValid small
small-IsValid =
    (new-IsValid "small" lan_start 3232235793 lan_mask (omega arith) small_made (omega arith)).0

abbrev pub full : AddressPool
full = record small { leases_bm = 3 ∷ []; available_addresses = 0 }

pub full-IsValid : IsValid full
unfolding address_pool_set_address_allocation bit_of raise_bit
full-IsValid =
    set-IsValid (address_pool_set_address_allocation small lan_start).1 3232235793
      (set-IsValid small lan_start small-IsValid)

abbrev pub home : Allocator
home = record { default_options = []; address_pools = lan ∷ [] }

abbrev pub busy_home : Allocator
busy_home = record { default_options = []; address_pools = used_lan ∷ [] }
