-- ===== src/Config/Arguments.antt =====
-- server/src/config.c: config_parse_arguments and what it calls. What getopt_long finds in the
-- arguments is a list of options, each with its text.
use Prim.Native.String.{String}
use dhcpv4_server_with_gui_c.Prelude.{
  ℕ, zero, suc, ◌%◌, Bool, true, false, ◌||◌, Option, none, some, List, [], ◌∷◌, leb, ◌==◌,
  if◌then◌else◌, take, length,
}
use dhcpv4_server_with_gui_c.Allocator.{Allocator, allocator_add_pool}
use dhcpv4_server_with_gui_c.Server.{is_ok}
use dhcpv4_server_with_gui_c.Options.{
  OptionType, numeric, string, ip, bool, bin, tag_to_type, DhcpOption, memcpy, write_u32,
  dhcp_option_add, dhcp_option_new,
}
use dhcpv4_server_with_gui_c.Xtoy.{
  is_space, skip_space, scan_u, ipv4_address_to_uint32, address_pool_new_str,
}
use dhcpv4_server_with_gui_c.Config.{Config}

-- What is set up before the server starts
pub record Setup : Type 0 where
  pub config : Config
  pub allocator : Allocator

-- `%hhu`
unfoldable pub scan_hhu : List ℕ → Option (ℕ × List ℕ)
unfolding scan_u
scan_hhu s = elim (scan_u s) [ none ↦ none | some (value, rest) ↦ some (value % 256, rest) ]

-- `%hhu` and then `:`
unfoldable pub scan_hhu_colon : List ℕ → Option (ℕ × List ℕ)
unfolding scan_hhu
scan_hhu_colon s = elim (scan_hhu s) [
  | none ↦ none
  | some (value, []) ↦ none
  | some (value, c ∷ rest) ↦ if c == 58 then some (value, rest) else none
]

-- The characters before the first newline
unfoldable pub until_newline : List ℕ → List ℕ
until_newline [] = []
until_newline (c ∷ s) = let rest = until_newline s in if c == 10 then [] else c ∷ rest

unfoldable pub number_memory : Option (ℕ × List ℕ) → List ℕ → Option (List ℕ)
unfolding write_u32
number_memory none memory = none
number_memory (some (number, rest)) memory = some (write_u32 number memory)

unfoldable pub boolean_memory : Option (ℕ × List ℕ) → List ℕ → Option (List ℕ)
unfolding memcpy
boolean_memory none memory = none
boolean_memory (some (boolean, rest)) memory =
    if boolean == 0 || boolean == 1 then some (memcpy 1 (boolean ∷ []) memory) else none

-- The switch: the memory of `o->value` after it, or `none` for the jump to `exit`
unfoldable pub argument_memory : OptionType → List ℕ → List ℕ → Option (List ℕ)
unfolding number_memory boolean_memory scan_u scan_hhu ipv4_address_to_uint32 write_u32 memcpy
argument_memory numeric value memory = number_memory (scan_u value) memory
argument_memory ip value memory =
    let number = ipv4_address_to_uint32 value in
    if number == 0 then none else some (write_u32 number memory)
argument_memory bool value memory = boolean_memory (scan_hhu value) memory
argument_memory string value memory = some (memcpy 256 value memory)
argument_memory bin value memory = none

unfoldable pub add_option_value : Allocator → ℕ → ℕ → List ℕ → Bool × Allocator
unfolding argument_memory tag_to_type dhcp_option_new dhcp_option_add
add_option_value a tag lenght value =
    elim (argument_memory (tag_to_type tag) value dhcp_option_new.value) [
      | none ↦ (false, a)
      | some memory ↦
          let o : DhcpOption = record {
            type = tag_to_type tag;
            tag = tag;
            lenght = lenght;
            value = memory;
          } in
          (true, record a { default_options = dhcp_option_add a.default_options o })
    ]

-- `%hhu:%hhu:%[^\n]`. `none` stands for a write past the end of `value`, which has 256 bytes.
unfoldable pub config_add_dhcp_option : Allocator → List ℕ → Option (Bool × Allocator)
unfolding scan_hhu_colon until_newline add_option_value
config_add_dhcp_option a optarg = elim (scan_hhu_colon optarg) [
  | none ↦ some (false, a)
  | some (tag, s) ↦ elim (scan_hhu_colon s) [
    | none ↦ some (false, a)
    | some (lenght, s2) ↦
        let value = until_newline s2 in
        if length value == 0
        then some (false, a)
        else if leb 256 (length value)
        then none
        else some (add_option_value a tag lenght value)
  ]
]

-- At most n characters other than `:`, and what follows
unfoldable pub scan_field : ℕ → List ℕ → List ℕ × List ℕ
scan_field zero s = ([], s)
scan_field (suc n) [] = ([], [])
scan_field (suc n) (c ∷ s) =
    let (field, rest) = scan_field n s in if c == 58 then ([], c ∷ s) else (c ∷ field, rest)

-- `%15[^:]:`
unfoldable pub scan_field_colon : List ℕ → Option (List ℕ × List ℕ)
unfolding scan_field
scan_field_colon s =
    let (field, rest) = scan_field 15 s in
    elim field [
      | [] ↦ none
      | c ∷ cs ↦ elim rest [ [] ↦ none | x ∷ more ↦ if x == 58 then some (c ∷ cs, more) else none ]
    ]

unfoldable pub until_space : List ℕ → List ℕ
until_space [] = []
until_space (c ∷ s) = let rest = until_space s in if is_space c then [] else c ∷ rest

-- `%15s`
unfoldable pub scan_word : List ℕ → Option (List ℕ)
unfolding skip_space until_space
scan_word s = elim (take 15 (until_space (skip_space s))) [ [] ↦ none | c ∷ cs ↦ some (c ∷ cs) ]

-- The allocation of a pool that a text describes
unfoldable pub add_new_pool : Allocator → String → List ℕ → List ℕ → List ℕ → Bool × Allocator
unfolding address_pool_new_str allocator_add_pool is_ok
add_new_pool a name start end mask = elim (address_pool_new_str name start end mask) [
  | none ↦ (false, a)
  | some pool ↦ let (status, next) = allocator_add_pool a pool in (is_ok status, next)
]

unfoldable pub config_add_pool : Allocator → List ℕ → Bool × Allocator
unfolding scan_field_colon scan_word add_new_pool
config_add_pool a optarg = elim (scan_field_colon optarg) [
  | none ↦ (false, a)
  | some (start, s) ↦ elim (scan_field_colon s) [
    | none ↦ (false, a)
    | some (end, s2) ↦ elim (scan_word s2) [
      | none ↦ (false, a)
      | some mask ↦ add_new_pool a "pool" start end mask
    ]
  ]
]
