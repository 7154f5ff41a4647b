-- ===== src/Options.antt =====
-- server/src/dhcp_options.h and the list functions of server/src/dhcp_options.c. A list of options
-- is an llist_t of dhcp_option_t; memory is always granted.
mod Tags
pub mod Laws
use dhcpv4_server_with_gui_c.Prelude.{
  ℕ, zero, suc, ◌+◌, ◌*◌, ◌/◌, ◌%◌, Bool, true, false, Option, none, some, List, [], ◌∷◌, ◌++◌,
  ◌==◌, if◌then◌else◌, get_or, set, replicate,
}
pub use Tags.{OptionType, numeric, string, ip, bool, bin}
unfoldable pub use Tags.{tag_to_type}

-- `dhcp_option_t`. `value` is the memory of the union, byte by byte.
pub record DhcpOption : Type 0 where
  pub type : OptionType
  pub tag : ℕ
  pub lenght : ℕ
  pub value : List ℕ

-- The union holds DHCP_OPTION_MAX_LENGHT = 253 bytes, rounded up to the alignment of a uint32_t.
abbrev pub value_size : ℕ
value_size = 256

-- memcpy(dst, src, n). Past the end of `dst` nothing is written; past the end of `src` zeros are
-- read. An option with `value_size` bytes and a lenght below 256 meets neither.
unfoldable pub memcpy : ℕ → List ℕ → List ℕ → List ℕ
memcpy zero src dst = dst
memcpy (suc n) src [] = []
memcpy (suc n) [] (y ∷ ys) = 0 ∷ memcpy n [] ys
memcpy (suc n) (x ∷ xs) (y ∷ ys) = x ∷ memcpy n xs ys

-- `value.number` and `value.ip`: a uint32_t in the first four bytes, low byte first.
unfoldable pub read_u32 : List ℕ → ℕ
read_u32 v = get_or v 0 0 + 256 * (get_or v 1 0 + 256 * (get_or v 2 0 + 256 * get_or v 3 0))

unfoldable pub u32_bytes : ℕ → List ℕ
u32_bytes n = n % 256 ∷ n / 256 % 256 ∷ n / 65536 % 256 ∷ n / 16777216 % 256 ∷ []

unfoldable pub write_u32 : ℕ → List ℕ → List ℕ
unfolding memcpy u32_bytes
write_u32 n v = memcpy 4 (u32_bytes n) v

unfoldable pub dhcp_option_new : DhcpOption
dhcp_option_new = record { type = numeric; tag = 0; lenght = 0; value = replicate value_size 0 }

unfoldable pub dhcp_option_new_values : ℕ → ℕ → List ℕ → DhcpOption
unfolding dhcp_option_new memcpy
dhcp_option_new_values tag lenght value = record {
  type = tag_to_type tag;
  tag = tag % 256;
  lenght = lenght % 256;
  value = memcpy lenght value dhcp_option_new.value;
}

unfoldable pub dhcp_option_copy : DhcpOption → DhcpOption
unfolding dhcp_option_new_values
dhcp_option_copy o = dhcp_option_new_values o.tag o.lenght o.value

unfoldable pub dhcp_option_retrieve : List DhcpOption → ℕ → Option DhcpOption
dhcp_option_retrieve [] tag = none
dhcp_option_retrieve (o ∷ os) tag = if o.tag == tag then some o else dhcp_option_retrieve os tag

-- A duplicate is dropped, and still counts as success (0).
unfoldable pub dhcp_option_add : List DhcpOption → DhcpOption → List DhcpOption
dhcp_option_add dest o = elim (dhcp_option_retrieve dest o.tag) [
  | none ↦ dest ++ (o ∷ [])
  | some _ ↦ dest
]

-- `value.number = n` and `value.ip = n`
unfoldable pub set_number : ℕ → DhcpOption → DhcpOption
unfolding write_u32
set_number n o = record o { value = write_u32 n o.value }

-- `value.boolean = b`
unfoldable pub set_boolean : ℕ → DhcpOption → DhcpOption
set_boolean b o = record o { value = set o.value 0 b }
