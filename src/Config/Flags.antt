-- ===== src/Config/Flags.antt =====
-- server/src/config.c: config_load_defaults and the loop of config_parse_arguments.
use dhcpv4_server_with_gui_c.Prelude.{
  ℕ, Bool, Option, none, some, List, [], ◌∷◌, ◌==◌, if◌then◌else◌, take,
}
use dhcpv4_server_with_gui_c.Allocator.{Allocator}
use dhcpv4_server_with_gui_c.Options.{u32_bytes, dhcp_option_add, dhcp_option_new_values}
use dhcpv4_server_with_gui_c.Xtoy.{scan_u, uint32_to_ipv4_address}
use dhcpv4_server_with_gui_c.Config.{Host, Config, config_get_interface_info}
use dhcpv4_server_with_gui_c.Config.Arguments.{
  Setup, scan_hhu, config_add_dhcp_option, config_add_pool, add_new_pool,
}

-- A value of `opt`, with `optarg` where there is one. `default_configuration` has `argc` too, and
-- `unknown` is any other value.
pub data Argument : Type 0 where
  version help acl_disable acl_whitelist_mode dynamic_acl_disable db_disable unknown : Argument
  config_path interface tick_delay cache_size transaction_duration lease_expiration_check lease_time
        pool option log :
      List ℕ → Argument
  default_configuration : ℕ → List ℕ → Argument

-- The value of `rv`: 0, -1 or another negative number, CONFIG_EXIT_PROGRAM
pub data ReturnValue : Type 0 where
  success failure exit_program : ReturnValue

-- "/etc/dhcp/config.json"
abbrev pub default_path : List ℕ
default_path =
    47 ∷ 101 ∷ 116 ∷ 99 ∷ 47 ∷ 100 ∷ 104 ∷ 99 ∷ 112 ∷ 47 ∷ 99 ∷ 111 ∷ 110 ∷ 102 ∷ 105 ∷ 103 ∷ 46
    ∷ 106 ∷ 115 ∷ 111 ∷ 110 ∷ []

unfoldable pub default_settings : Config → List ℕ → Config
default_settings config optarg = record config {
  config_path = default_path;
  interface = optarg;
  tick_delay = 1000;
  cache_size = 25;
  trans_duration = 60;
  lease_expiration_check = 60;
  log_verbosity = 4;
  lease_time = 43200;
  acl_enable = 0;
  acl_blacklist = 0;
  db_enable = 1;
  dynamic_acl_enable = 1;
}

-- The result of the function is not used. The texts of the addresses of the default pool are
-- "192.168.1.1", "192.168.1.100" and "255.255.255.0".
unfoldable pub config_load_defaults : Host → Setup → List ℕ → Setup
unfolding default_settings add_new_pool config_get_interface_info dhcp_option_add
config_load_defaults host s optarg =
    let config = default_settings s.config optarg in
    let a : Allocator = record s.allocator {
      default_options =
          dhcp_option_add s.allocator.default_options
            (dhcp_option_new_values 51 4 (u32_bytes 43200));
    } in
    let (added, b) =
      add_new_pool a "Pool" (uint32_to_ipv4_address 3232235777) (uint32_to_ipv4_address 3232235876)
        (uint32_to_ipv4_address 4294967040) in
    record {
      config = if added then (config_get_interface_info host config).1 else config;
      allocator = b;
    }

-- `sscanf(optarg, "%u", &field) != 1`
unfoldable pub scanned : Setup → Option (ℕ × List ℕ) → (ℕ → Config) → ReturnValue × Setup
scanned s none write = (failure, s)
scanned s (some (number, rest)) write = (success, record s { config = write number })

abbrev pub returned : Bool → ReturnValue
returned done = if done then success else failure

-- One round of the loop. `none` stands for a write past the end of a buffer.
unfoldable pub parse_argument : Host → Setup → Argument → Option (ReturnValue × Setup)
unfolding scanned scan_hhu config_load_defaults config_add_pool config_add_dhcp_option
parse_argument host s version = some (exit_program, s)
parse_argument host s help = some (exit_program, s)
parse_argument host s (config_path optarg) =
    some (success, record s { config = record s.config { config_path = take 4096 optarg } })
parse_argument host s (interface optarg) =
    some (success, record s { config = record s.config { interface = take 256 optarg } })
parse_argument host s (tick_delay optarg) =
    some (scanned s (scan_u optarg) (λ n. record s.config { tick_delay = n }))
parse_argument host s (cache_size optarg) =
    some (scanned s (scan_u optarg) (λ n. record s.config { cache_size = n }))
parse_argument host s (transaction_duration optarg) =
    some (scanned s (scan_u optarg) (λ n. record s.config { trans_duration = n }))
parse_argument host s (lease_expiration_check optarg) =
    some (scanned s (scan_u optarg) (λ n. record s.config { lease_expiration_check = n }))
parse_argument host s (lease_time optarg) =
    some (scanned s (scan_u optarg) (λ n. record s.config { lease_time = n }))
parse_argument host s (log optarg) =
    some (scanned s (scan_hhu optarg) (λ n. record s.config { log_verbosity = n }))
parse_argument host s (pool optarg) =
    let (added, a) = config_add_pool s.allocator optarg in
    some (returned added, record s { allocator = a })
parse_argument host s (option optarg) = elim (config_add_dhcp_option s.allocator optarg) [
  | none ↦ none
  | some (added, a) ↦ some (returned added, record s { allocator = a })
]
parse_argument host s (default_configuration argc optarg) =
    let defaults = config_load_defaults host s optarg in
    some (if argc == 3 then (success, defaults) else (failure, s))
parse_argument host s acl_disable =
    some (success, record s { config = record s.config { acl_enable = 0 } })
parse_argument host s acl_whitelist_mode =
    some (success, record s { config = record s.config { acl_blacklist = 0 } })
parse_argument host s dynamic_acl_disable =
    some (success, record s { config = record s.config { dynamic_acl_enable = 0 } })
parse_argument host s db_disable =
    some (success, record s { config = record s.config { db_enable = 0 } })
parse_argument host s unknown = some (failure, s)

unfoldable pub arguments_loop : Host → List Argument → Setup → Option (ReturnValue × Setup)
unfolding parse_argument
arguments_loop host [] s = some (success, s)
arguments_loop host (x ∷ xs) s = elim (parse_argument host s x) [
  | none ↦ none
  | some (success, next) ↦ arguments_loop host xs next
  | some (failure, next) ↦ some (failure, next)
  | some (exit_program, next) ↦ some (exit_program, next)
]

unfoldable pub config_parse_arguments : Host → Setup → List Argument → Option (ReturnValue × Setup)
unfolding arguments_loop
config_parse_arguments host s arguments = arguments_loop host arguments (record s {
  config = record s.config {
    acl_enable = 2;
    acl_blacklist = 2;
    db_enable = 2;
    dynamic_acl_enable = 2;
  };
})
