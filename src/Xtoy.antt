-- ===== src/Xtoy.antt =====
-- server/src/utils/xtoy.c: IPv4 addresses as text, and the functions of server/src/address_pool.c
-- and server/src/allocator.c whose names end in _str. A string is the list of its characters before
-- the terminating 0. sscanf and snprintf are those of a host with a 64-bit unsigned long.
pub mod Join
pub mod RoundTrip
use Prim.Native.String.{String}
use Prim.Native.Nat.{bit_or}
use dhcpv4_server_with_gui_c.Prelude.{
  ℕ, zero, suc, ◌+◌, ◌-◌, ◌*◌, ◌/◌, ◌%◌, ◌^◌, Bool, true, false, ◌&&◌, ◌||◌, Option, none, some,
  List, [], ◌∷◌, ◌++◌, ltb, leb, ◌==◌, if◌then◌else◌,
}
use dhcpv4_server_with_gui_c.Pool.{
  AddressPool, address_pool_new, address_belongs_to_pool, address_pool_address_allocation_ctl,
}
use dhcpv4_server_with_gui_c.Allocator.{
  Allocator, AllocatorStatus, allocator_request_this_address, allocator_release_address,
  allocator_is_address_available,
}

-- snprintf of `%u` for a number of at most `fuel` digits
unfoldable pub decimal : ℕ → ℕ → List ℕ
decimal zero n = []
decimal (suc fuel) n =
    let more = decimal fuel (n / 10) in
    if ltb n 10 then (48 + n) ∷ [] else more ++ ((48 + n % 10) ∷ [])

-- A uint32_t has at most 10 digits. `(a >> k) & 0xff`
unfoldable pub uint32_to_ipv4_address : ℕ → List ℕ
unfolding decimal
uint32_to_ipv4_address a =
    decimal 10 (a / 16777216 % 256)
    ++ (46
        ∷ (decimal 10 (a / 65536 % 256)
            ++ (46 ∷ (decimal 10 (a / 256 % 256) ++ (46 ∷ decimal 10 (a % 256))))))

abbrev pub is_space : ℕ → Bool
is_space c = c == 32 || leb 9 c && leb c 13

abbrev pub is_digit : ℕ → Bool
is_digit c = leb 48 c && leb c 57

unfoldable pub skip_space : List ℕ → List ℕ
skip_space [] = []
skip_space (c ∷ s) = let rest = skip_space s in if is_space c then rest else c ∷ s

-- The digits at the head of a string, after a value that was read already, and what follows
unfoldable pub scan_digits : List ℕ → ℕ → ℕ × List ℕ
scan_digits [] value = (value, [])
scan_digits (c ∷ s) value =
    let rest = scan_digits s (value * 10 + (c - 48)) in if is_digit c then rest else (value, c ∷ s)

-- strtoul, stored in a uint32_t
unfoldable pub to_u32 : Bool → ℕ → ℕ
to_u32 negative value =
    if leb (2 ^ 64) value
    then 2 ^ 32 - 1
    else if negative
    then (2 ^ 64 - value) % 2 ^ 32
    else value % 2 ^ 32

-- The digits of `%u` behind its sign, where there is one at least
unfoldable pub scan_unsigned : Bool → List ℕ → Option (ℕ × List ℕ)
unfolding scan_digits to_u32
scan_unsigned negative [] = none
scan_unsigned negative (c ∷ s) =
    let (value, rest) = scan_digits (c ∷ s) 0 in
    if is_digit c then some (to_u32 negative value, rest) else none

unfoldable pub scan_sign : List ℕ → Option (ℕ × List ℕ)
unfolding scan_unsigned
scan_sign [] = none
scan_sign (c ∷ s) =
    if c == 45
    then scan_unsigned true s
    else if c == 43
    then scan_unsigned false s
    else scan_unsigned false (c ∷ s)

-- `%u`
unfoldable pub scan_u : List ℕ → Option (ℕ × List ℕ)
unfolding skip_space scan_sign
scan_u s = scan_sign (skip_space s)

-- `%u` and then `.`
unfoldable pub scan_dot : Option (ℕ × List ℕ) → Option (ℕ × List ℕ)
scan_dot none = none
scan_dot (some (value, [])) = none
scan_dot (some (value, c ∷ s)) = if c == 46 then some (value, s) else none

-- `x << k` on a uint32_t
abbrev pub shift : ℕ → ℕ → ℕ
shift x k = x * 2 ^ k % 2 ^ 32

-- `(a << 24) | (b << 16) | (c << 8) | d`
unfoldable pub join_bytes : ℕ → ℕ → ℕ → ℕ → ℕ
join_bytes a b c d = bit_or (bit_or (bit_or (shift a 24) (shift b 16)) (shift c 8)) d

-- sscanf of `%u.%u.%u.%u`
unfoldable pub ipv4_address_to_uint32 : List ℕ → ℕ
unfolding scan_u scan_dot join_bytes
ipv4_address_to_uint32 s = elim (scan_dot (scan_u s)) [
  | none ↦ 0
  | some (a, s1) ↦ elim (scan_dot (scan_u s1)) [
    | none ↦ 0
    | some (b, s2) ↦ elim (scan_dot (scan_u s2)) [
      | none ↦ 0
      | some (c, s3) ↦ elim (scan_u s3) [ none ↦ 0 | some (d, s4) ↦ join_bytes a b c d ]
    ]
  ]
]

unfoldable pub address_pool_new_str : String → List ℕ → List ℕ → List ℕ → Option AddressPool
unfolding address_pool_new ipv4_address_to_uint32
address_pool_new_str name start end mask =
    address_pool_new name (ipv4_address_to_uint32 start) (ipv4_address_to_uint32 end)
      (ipv4_address_to_uint32 mask)

unfoldable pub address_belongs_to_pool_str : AddressPool → List ℕ → Bool
unfolding address_belongs_to_pool ipv4_address_to_uint32
address_belongs_to_pool_str pool address =
    address_belongs_to_pool pool (ipv4_address_to_uint32 address)

unfoldable pub address_pool_set_address_allocation_str :
    AddressPool → List ℕ → Option ℕ × AddressPool
unfolding address_pool_address_allocation_ctl ipv4_address_to_uint32
address_pool_set_address_allocation_str pool address =
    address_pool_address_allocation_ctl pool (ipv4_address_to_uint32 address) b's'

unfoldable pub address_pool_get_address_allocation_str :
    AddressPool → List ℕ → Option ℕ × AddressPool
unfolding address_pool_address_allocation_ctl ipv4_address_to_uint32
address_pool_get_address_allocation_str pool address =
    address_pool_address_allocation_ctl pool (ipv4_address_to_uint32 address) b'g'

unfoldable pub address_pool_clear_address_allocation_str :
    AddressPool → List ℕ → Option ℕ × AddressPool
unfolding address_pool_address_allocation_ctl ipv4_address_to_uint32
address_pool_clear_address_allocation_str pool address =
    address_pool_address_allocation_ctl pool (ipv4_address_to_uint32 address) b'c'

unfoldable pub allocator_request_this_address_str :
    Allocator → List ℕ → AllocatorStatus × Option ℕ × Allocator
unfolding allocator_request_this_address ipv4_address_to_uint32
allocator_request_this_address_str a address =
    allocator_request_this_address a (ipv4_address_to_uint32 address)

unfoldable pub allocator_release_address_str : Allocator → List ℕ → AllocatorStatus × Allocator
unfolding allocator_release_address ipv4_address_to_uint32
allocator_release_address_str a address =
    allocator_release_address a (ipv4_address_to_uint32 address)

unfoldable pub allocator_is_address_available_str : Allocator → List ℕ → Bool
unfolding allocator_is_address_available ipv4_address_to_uint32
allocator_is_address_available_str a address =
    allocator_is_address_available a (ipv4_address_to_uint32 address)
