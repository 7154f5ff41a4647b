-- ===== src/Config/Filled.antt =====
-- config_load_configuration of server/src/config.c as a whole.
use mathlib.Core.Path.{subst}
use dhcpv4_server_with_gui_c.Prelude.{
  ℕ, ◌≡◌, ◌∙◌, refl, sym, ap, Bool, true, false, Option, none, some, if◌then◌else◌, if_split,
}
use dhcpv4_server_with_gui_c.Options.{DhcpOption, dhcp_option_retrieve}
use dhcpv4_server_with_gui_c.Allocator.{Allocator}
use dhcpv4_server_with_gui_c.Config.{
  Host, Config, config_load_server_config, config_load_security_config, has_interface,
}
use dhcpv4_server_with_gui_c.Config.Options.{config_load_dhcp_options}
use dhcpv4_server_with_gui_c.Config.Pools.{
  ConfigFile, Configured, no_file, config_load_pools_config, load_rest, load_file,
  config_load_configuration,
}
use dhcpv4_server_with_gui_c.Config.Laws.{load_options_keeps, pools_leave}
use dhcpv4_server_with_gui_c.Config.Settings.{IsFilledIn, filled-IsFilledIn, server_config_lem}

-- The settings and the allocator behind the loads after "server"
rest_of_pools :
    (host : Host) (config next : Config) (a b : Allocator) (file : ConfigFile)
    (r : Option Allocator)
    → config_load_pools_config host a file.pools ≡ r
    → elim r as (λ y. Configured) [
      | none ↦ none
      | some q ↦
          let (read, options) = config_load_dhcp_options host q.default_options file.options in
          let after = record q { default_options = options } in
          if read
          then some (true, config_load_security_config config file.security, after)
          else some (false, config, after)
    ]
      ≡ some (true, next, b)
    → (next ≡ config_load_security_config config file.security)
      × ((tag : ℕ) (x : DhcpOption)
          → dhcp_option_retrieve a.default_options tag ≡ some x
          → dhcp_option_retrieve b.default_options tag ≡ some x)
rest_of_pools host config next a b file none loaded e = absurd cc
rest_of_pools host config next a b file (some q) loaded e =
    let left = pools_leave host a q file.pools loaded in
    let options = (config_load_dhcp_options host q.default_options file.options).1 in
    let after : Allocator = record q { default_options = options } in
    if_split
      (λ r.
        r ≡ some (true, next, b)
        → (next ≡ config_load_security_config config file.security)
          × ((tag : ℕ) (x : DhcpOption)
              → dhcp_option_retrieve a.default_options tag ≡ some x
              → dhcp_option_retrieve b.default_options tag ≡ some x))
      (config_load_dhcp_options host q.default_options file.options).0
      (some (true, config_load_security_config config file.security, after))
      (some (false, config, after))
      (λ read e2.
        let same : next ≡ config_load_security_config config file.security = cc in
        let ends : after ≡ b = cc in
        (
          same,
          λ tag x found.
              subst (λ (d : Allocator). dhcp_option_retrieve d.default_options tag ≡ some x) ends
                (load_options_keeps host file.options q.default_options tag x
                  (ap (λ os. dhcp_option_retrieve os tag) left ∙ found)),
        ))
      (λ failed e2. absurd cc) e

file_IsFilledIn :
    (host : Host) (config next : Config) (a b : Allocator) (file : ConfigFile)
    (r : Option (Bool × Config))
    → config_load_server_config host config file.server ≡ r
    → elim r as (λ y. Configured) [
      | none ↦ none
      | some (false, mid) ↦ some (false, mid, a)
      | some (true, mid) ↦ load_rest host mid a file
    ]
      ≡ some (true, next, b)
    → IsFilledIn config a next b
unfolding load_rest
file_IsFilledIn host config next a b file none loaded e = absurd cc
file_IsFilledIn host config next a b file (some (false, mid)) loaded e = absurd cc
file_IsFilledIn host config next a b file (some (true, set)) loaded e =
    let (mid, interfaced, settings) = server_config_lem host config set file.server loaded in
    let (secured, options) =
      rest_of_pools host set next a b file (config_load_pools_config host a file.pools) refl e in
    subst (λ c. IsFilledIn config a c b)
      (sym (secured ∙ ap (λ c. config_load_security_config c file.security) settings))
      (filled-IsFilledIn host config mid a b file.server file.security interfaced options)

-- Where the loading of the configuration succeeds, the arguments of the program come before the
-- file: an interface, a number other than 0, a flag that is not untouched, and what is found
-- under the tag of a global option stay. All four flags are set then. With an interface from the
-- arguments, the address of the server and its broadcast address stay as they were.
pub configuration-IsFilledIn :
    (host : Host) (config next : Config) (a b : Allocator) (file : Option ConfigFile)
    → config_load_configuration host config a file ≡ some (true, next, b)
    → IsFilledIn config a next b
unfolding config_load_configuration load_file
configuration-IsFilledIn host config next a b none =
    if_split (λ r. r ≡ some (true, next, b) → IsFilledIn config a next b) (has_interface config)
      (load_file host config a no_file) (some (false, config, a))
      (λ given e.
        file_IsFilledIn host config next a b no_file
          (config_load_server_config host config no_file.server) refl e)
      (λ missing e. absurd cc)
configuration-IsFilledIn host config next a b (some file) =
    file_IsFilledIn host config next a b file (config_load_server_config host config file.server)
      refl
