-- ===== src/Pool.antt =====
-- server/src/address_pool.c and address_pool.h: a range of addresses with a bitmap of those in
-- use. An address is a uint32_t in host byte order. A call that updates `*pool` returns the new
-- pool beside its result; the return value -1 is `none`. Logging is left out, and memory is always
-- granted.
pub mod Bitmap
pub mod Invariant
pub mod Refine
pub mod New
use Prim.Native.Nat.{bit_and}
use Prim.Native.String.{String}
use dhcpv4_server_with_gui_c.Prelude.{
  ℕ, ◌+◌, ◌-◌, ◌/◌, ◌%◌, ◌^◌, Bool, ◌&&◌, not, Option, none, some, List, [], leb, ltb, ◌==◌,
  if◌then◌else◌, get_or, set, replicate,
}
use dhcpv4_server_with_gui_c.Prelude.Bytes.{bit_of, raise_bit, drop_bit}
use dhcpv4_server_with_gui_c.Options.{DhcpOption, ip, dhcp_option_new, dhcp_option_add, set_number}

pub record AddressPool : Type 0 where
  pub name : String
  pub start_address : ℕ
  pub end_address : ℕ
  pub mask : ℕ
  pub leases_bm : List ℕ
  pub available_addresses : ℕ
  pub dhcp_option_override : List DhcpOption

abbrev pub u32_mod : ℕ
u32_mod = 2 ^ 32

-- Bytes of the bitmap; every operation is on uint32_t.
unfoldable pub pool_range : ℕ → ℕ → ℕ
pool_range start end = (end + u32_mod - start + 8) % u32_mod / 8

-- `~mask` is `u32_mod - 1 - mask`.
unfoldable pub can_range_be_on_subnet : ℕ → ℕ → ℕ → Bool
can_range_be_on_subnet start end mask =
    let subnet_start = bit_and start mask in
    let subnet_end = (subnet_start + (u32_mod - 1 - mask)) % u32_mod in
    leb ((subnet_start + 1) % u32_mod) start && leb end ((subnet_end + u32_mod - 1) % u32_mod)

unfoldable pub opt_subnet_mask : ℕ → DhcpOption
unfolding dhcp_option_new set_number
opt_subnet_mask mask = set_number mask (record dhcp_option_new { type = ip; tag = 1; lenght = 4 })

unfoldable pub address_pool_new : String → ℕ → ℕ → ℕ → Option AddressPool
unfolding pool_range can_range_be_on_subnet opt_subnet_mask dhcp_option_add
address_pool_new name start end mask =
    if not (can_range_be_on_subnet start end mask)
    then none
    else if not (ltb start end)
    then none
    else some (record {
      name = name;
      start_address = start;
      end_address = end;
      mask = mask;
      leases_bm = replicate (pool_range start end) 0;
      available_addresses = (end + u32_mod - start + 1) % u32_mod;
      dhcp_option_override = dhcp_option_add [] (opt_subnet_mask mask);
    })

unfoldable pub address_belongs_to_pool : AddressPool → ℕ → Bool
address_belongs_to_pool pool address =
    leb pool.start_address address && leb address pool.end_address

-- The cases 's', 'c' and 'g' of the switch, for the byte `index` and the bit `bit` of the bitmap.
set_allocation : AddressPool → ℕ → ℕ → Option ℕ × AddressPool
set_allocation pool index bit = if bit_of byte bit == 1 then (none, pool) else (
  some 0,
  record pool {
    leases_bm = set leases_bm index (raise_bit byte bit);
    available_addresses = (available_addresses + u32_mod - 1) % u32_mod;
  },
)
  where
    open pool use {leases_bm, available_addresses}

    byte : ℕ
    byte = get_or leases_bm index 0

clear_allocation : AddressPool → ℕ → ℕ → Option ℕ × AddressPool
clear_allocation pool index bit = if bit_of byte bit == 0 then (none, pool) else (
  some 0,
  record pool {
    leases_bm = set leases_bm index (drop_bit byte bit);
    available_addresses = (available_addresses + 1) % u32_mod;
  },
)
  where
    open pool use {leases_bm, available_addresses}

    byte : ℕ
    byte = get_or leases_bm index 0

-- `action` is a character code. The subtraction is made only for an address of the pool.
unfoldable pub address_pool_address_allocation_ctl : AddressPool → ℕ → ℕ → Option ℕ × AddressPool
unfolding address_belongs_to_pool set_allocation clear_allocation
address_pool_address_allocation_ctl pool address action =
    if not (address_belongs_to_pool pool address)
    then (none, pool)
    else if action == b's'
    then set_allocation pool index bit
    else if action == b'c'
    then clear_allocation pool index bit
    else if action == b'g'
    then (some (bit_of (get_or pool.leases_bm index 0) bit), pool)
    else (none, pool)
  where
    index : ℕ
    index = (address - pool.start_address) / 8

    bit : ℕ
    bit = (address - pool.start_address) % 8

unfoldable pub address_pool_set_address_allocation : AddressPool → ℕ → Option ℕ × AddressPool
unfolding address_pool_address_allocation_ctl
address_pool_set_address_allocation pool address =
    address_pool_address_allocation_ctl pool address b's'

unfoldable pub address_pool_clear_address_allocation : AddressPool → ℕ → Option ℕ × AddressPool
unfolding address_pool_address_allocation_ctl
address_pool_clear_address_allocation pool address =
    address_pool_address_allocation_ctl pool address b'c'

-- The action 'g' leaves the pool alone, so only its result is kept.
unfoldable pub address_pool_get_address_allocation : AddressPool → ℕ → Option ℕ
unfolding address_pool_address_allocation_ctl
address_pool_get_address_allocation pool address =
    (address_pool_address_allocation_ctl pool address b'g').0
