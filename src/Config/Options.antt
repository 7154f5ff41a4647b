-- ===== src/Config/Options.antt =====
-- server/src/config.c: config_load_dhcp_options.
use dhcpv4_server_with_gui_c.Prelude.{
  ℕ, ◌%◌, ◌^◌, Bool, true, false, Option, none, some, List, [], ◌∷◌, ◌++◌, ◌==◌, if◌then◌else◌,
}
use dhcpv4_server_with_gui_c.Options.{
  OptionType, numeric, string, ip, bool, bin, tag_to_type, DhcpOption, u32_bytes, dhcp_option_add,
  dhcp_option_new_values,
}
use dhcpv4_server_with_gui_c.Xtoy.{ipv4_address_to_uint32}
use dhcpv4_server_with_gui_c.Config.{Json, json_string, json_number, json_bool, Host, number_value}

-- An element of an array "options"
pub record OptionConfig : Type 0 where
  pub tag : Option Json
  pub lenght : Option Json
  pub value : Option Json

-- The memory that dhcp_option_new_values copies from. `none` is the jump to `exit`.
unfoldable pub option_memory : Host → OptionType → Json → Option (List ℕ)
unfolding ipv4_address_to_uint32 u32_bytes
option_memory host ip (json_string s) =
    let number = ipv4_address_to_uint32 s in
    if number == 0 then none else some (u32_bytes number ++ host.beyond)
option_memory host numeric (json_number n) = some (u32_bytes (n % 2 ^ 32) ++ host.beyond)
option_memory host bin (json_string s) = some (s ++ (0 ∷ host.beyond))
option_memory host string (json_string s) = some (s ++ (0 ∷ host.beyond))
option_memory host bool (json_bool b) = some ((if b then 1 else 0) ∷ host.beyond)
option_memory host _ _ = none

unfoldable pub option_of_value : Host → ℕ → ℕ → Json → Option DhcpOption
unfolding option_memory tag_to_type dhcp_option_new_values
option_of_value host tag lenght value = elim (option_memory host (tag_to_type tag) value) [
  | none ↦ none
  | some memory ↦ some (dhcp_option_new_values tag lenght memory)
]

-- One round of the loop over the options. `none` is the jump to `exit`.
unfoldable pub load_option : Host → List DhcpOption → OptionConfig → Option (List DhcpOption)
unfolding number_value option_of_value dhcp_option_add
load_option host dest c =
    let tag = number_value host 256 c.tag in
    let lenght = number_value host 256 c.lenght in
    if tag == 0 then some dest else if lenght == 0 then some dest else elim c.value [
      | none ↦ some dest
      | some value ↦ elim (option_of_value host tag lenght value) [
        | none ↦ none
        | some o ↦ some (dhcp_option_add dest o)
      ]
    ]

unfoldable pub options_loop : Host → List OptionConfig → List DhcpOption → Bool × List DhcpOption
unfolding load_option
options_loop host [] dest = (true, dest)
options_loop host (c ∷ cs) dest = elim (load_option host dest c) [
  | none ↦ (false, dest)
  | some next ↦ options_loop host cs next
]

unfoldable pub config_load_dhcp_options :
    Host → List DhcpOption → Option (List OptionConfig) → Bool × List DhcpOption
unfolding options_loop
config_load_dhcp_options host dest none = (true, dest)
config_load_dhcp_options host dest (some options) = options_loop host options dest
