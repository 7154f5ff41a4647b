-- ===== src/Config/Pools.antt =====
-- server/src/config.c: config_load_pools_config, config_load_configuration, and the pools of
-- config_load_defaults and of the argument --pool.
use Prim.Native.String.{String}
use dhcpv4_server_with_gui_c.Prelude.{
  ℕ, Bool, true, false, Option, none, some, List, [], ◌∷◌, ◌==◌, if◌then◌else◌,
}
use dhcpv4_server_with_gui_c.Pool.{address_pool_new}
use dhcpv4_server_with_gui_c.Allocator.{Allocator, allocator_add_pool}
use dhcpv4_server_with_gui_c.Xtoy.{ipv4_address_to_uint32}
use dhcpv4_server_with_gui_c.Config.{
  Json, json_string, json_number, json_bool, json_other, Host, Config, ServerConfig, SecurityConfig,
  config_load_server_config, config_load_security_config, has_interface,
}
use dhcpv4_server_with_gui_c.Config.Options.{OptionConfig, config_load_dhcp_options}

-- An element of the array "pools". Of the item "name", it is the string that
-- cJSON_GetStringValue gives, or `none` for a null pointer.
pub record PoolConfig : Type 0 where
  pub name : Option (Option String)
  pub start : Option Json
  pub end : Option Json
  pub subnet : Option Json
  pub options : Option (List OptionConfig)

-- The local variables that keep their value from one round of the loop to the next
pub record Carried : Type 0 where
  pub name : Option String
  pub start : ℕ
  pub end : ℕ
  pub mask : ℕ

unfoldable pub read_name : Option String → Option (Option String) → Option String
read_name carried none = carried
read_name carried (some name) = name

-- `none` stands for a sscanf from a null pointer.
unfoldable pub read_address : ℕ → Option Json → Option ℕ
unfolding ipv4_address_to_uint32
read_address carried none = some carried
read_address carried (some (json_string s)) = some (ipv4_address_to_uint32 s)
read_address carried (some (json_number n)) = none
read_address carried (some (json_bool b)) = none
read_address carried (some json_other) = none

-- The end of a round. The loop goes on whatever allocator_add_pool returns.
unfoldable pub make_pool :
    Host → Allocator → String → ℕ → ℕ → ℕ → Option (List OptionConfig) → Allocator
unfolding address_pool_new config_load_dhcp_options allocator_add_pool
make_pool host a name start end mask options = elim (address_pool_new name start end mask) [
  | none ↦ a
  | some pool ↦
      let (read, override) = config_load_dhcp_options host pool.dhcp_option_override options in
      if read then (allocator_add_pool a (record pool { dhcp_option_override = override })).1 else a
]

-- A round behind the name: what "start", "end" and "subnet" give, each looked at where the code
-- reads it.
unfoldable pub load_addresses :
    Host
    → Allocator
    → Carried
    → String
    → Option (List OptionConfig)
    → Option ℕ
    → Option ℕ
    → Option ℕ
    → Option (Carried × Allocator)
unfolding make_pool
load_addresses host a c name options r1 r2 r3 = elim r1 [
  | none ↦ none
  | some start ↦
      let c1 = record c { start = start } in
      if start == 0 then some (c1, a) else elim r2 [
        | none ↦ none
        | some end ↦
            let c2 = record c1 { end = end } in
            if end == 0 then some (c2, a) else elim r3 [
              | none ↦ none
              | some mask ↦
                  let c3 = record c2 { mask = mask } in
                  if mask == 0
                  then some (c3, a)
                  else some (c3, make_pool host a name start end mask options)
            ]
      ]
]

-- One round of the loop
unfoldable pub load_pool : Host → Carried → Allocator → PoolConfig → Option (Carried × Allocator)
unfolding read_name read_address load_addresses
load_pool host c a p = elim (read_name c.name p.name) [
  | none ↦ some (record c { name = none }, a)
  | some name ↦
      load_addresses host a (record c { name = some name }) name p.options
        (read_address c.start p.start) (read_address c.end p.end) (read_address c.mask p.subnet)
]

unfoldable pub pools_loop : Host → List PoolConfig → Carried → Allocator → Option Allocator
unfolding load_pool
pools_loop host [] c a = some a
pools_loop host (p ∷ ps) c a = elim (load_pool host c a p) [
  | none ↦ none
  | some (next, b) ↦ pools_loop host ps next b
]

abbrev pub uncarried : Carried
uncarried = record { name = none; start = 0; end = 0; mask = 0 }

-- The return value is 0.
unfoldable pub config_load_pools_config :
    Host → Allocator → Option (List PoolConfig) → Option Allocator
unfolding pools_loop
config_load_pools_config host a none = some a
config_load_pools_config host a (some pools) = pools_loop host pools uncarried a

-- The JSON file, where it could be read and parsed
pub record ConfigFile : Type 0 where
  pub server : ServerConfig
  pub pools : Option (List PoolConfig)
  pub options : Option (List OptionConfig)
  pub security : SecurityConfig

-- What cJSON_GetObjectItem finds in a null pointer
abbrev pub no_file : ConfigFile
no_file = record {
  server = record {
    interface = none;
    tick_delay = none;
    cache_size = none;
    trans_duration = none;
    lease_expiration_check = none;
    log_verbosity = none;
    lease_time = none;
    db_enable = none;
  };
  pools = none;
  options = none;
  security = record { acl_enable = none; acl_blacklist = none; dynamic_acl = none };
}

-- The return value (0 or -1), the settings and the allocator; `none` where a null pointer is read.
abbrev pub Configured : Type 0
Configured = Option (Bool × Config × Allocator)

-- The loads behind that of "server"
unfoldable pub load_rest : Host → Config → Allocator → ConfigFile → Configured
unfolding config_load_pools_config config_load_dhcp_options config_load_security_config
load_rest host config a file = elim (config_load_pools_config host a file.pools) [
  | none ↦ none
  | some b ↦
      let (read, options) = config_load_dhcp_options host b.default_options file.options in
      let after = record b { default_options = options } in
      if read
      then some (true, config_load_security_config config file.security, after)
      else some (false, config, after)
]

unfoldable pub load_file : Host → Config → Allocator → ConfigFile → Configured
unfolding config_load_server_config load_rest
load_file host config a file = elim (config_load_server_config host config file.server) [
  | none ↦ none
  | some (false, next) ↦ some (false, next, a)
  | some (true, next) ↦ load_rest host next a file
]

-- `file` is what config_load_json_file returns.
unfoldable pub config_load_configuration :
    Host → Config → Allocator → Option ConfigFile → Configured
unfolding load_file
config_load_configuration host config a none =
    if has_interface config then load_file host config a no_file else some (false, config, a)
config_load_configuration host config a (some file) = load_file host config a file
