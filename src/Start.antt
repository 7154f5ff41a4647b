-- ===== src/Start.antt =====
-- server/src/init.c, and main of server/src/main.c up to the call of dhcp_server_serve.
pub mod Unbound
use dhcpv4_server_with_gui_c.Prelude.{
  ℕ, Bool, true, false, not, ◌||◌, Option, none, some, List, [], ◌==◌, if◌then◌else◌,
}
use dhcpv4_server_with_gui_c.Allocator.{Allocator, address_allocator_new}
use dhcpv4_server_with_gui_c.Options.{u32_bytes, dhcp_option_add, dhcp_option_new_values}
use dhcpv4_server_with_gui_c.Transaction.{Transaction}
use dhcpv4_server_with_gui_c.TransCache.{trans_cache_new}
use dhcpv4_server_with_gui_c.Acl.{Acl, AclStatus, acl_new, acl_load_acl_entries, dynamic_acl_new}
use dhcpv4_server_with_gui_c.Lease.{LeaseFiles, init_load_persisten_leases}
use dhcpv4_server_with_gui_c.Timer.{repeat, check_lease_expirations, timer_new}
use dhcpv4_server_with_gui_c.Server.{Server, init_dhcp_server_timers}
use dhcpv4_server_with_gui_c.Config.{Host, Config}
use dhcpv4_server_with_gui_c.Config.Pools.{ConfigFile, config_load_configuration}
use dhcpv4_server_with_gui_c.Config.Arguments.{Setup}
use dhcpv4_server_with_gui_c.Config.Flags.{
  Argument, ReturnValue, success, failure, exit_program, config_parse_arguments, default_path,
}

unfoldable pub init_allocator : Allocator
unfolding address_allocator_new
init_allocator = address_allocator_new

-- A null pointer is the only failure.
unfoldable pub init_dhcp_options : Config → Allocator → Allocator
unfolding dhcp_option_add dhcp_option_new_values u32_bytes
init_dhcp_options config a =
    let timed =
      dhcp_option_add a.default_options
        (dhcp_option_new_values 51 4 (u32_bytes config.lease_time)) in
    record a {
      default_options =
          dhcp_option_add timed (dhcp_option_new_values 54 4 (u32_bytes config.bound_ip));
    }

unfoldable pub init_cache : Config → ℕ → List Transaction
unfolding trans_cache_new
init_cache config now = trans_cache_new config.cache_size config.trans_duration now

-- A return value of ACL_load_acl_entries below 0
unfoldable pub is_error : AclStatus → Bool
is_error AclStatus.error = true
is_error AclStatus.ok = false
is_error AclStatus.allow = false
is_error AclStatus.deny = false

-- `entries` is the array of the configuration file, as in acl_load_acl_entries. `none` is the
-- return value -1.
unfoldable pub init_acl : Config → Option (List (Option (List ℕ))) → Option Acl
unfolding acl_new acl_load_acl_entries is_error
init_acl config entries =
    let acl : Acl = record acl_new {
      enabled = not (config.acl_enable == 0);
      is_blacklist = not (config.acl_blacklist == 0);
    } in
    let (status, loaded) = acl_load_acl_entries acl entries in
    if config.acl_enable == 2 || config.acl_blacklist == 2
    then none
    else if is_error status
    then none
    else some loaded

unfoldable pub init_dynamic_acl : Acl
unfolding dynamic_acl_new
init_dynamic_acl = record dynamic_acl_new { enabled = true }

-- What main has set up when it calls dhcp_server_serve
pub record Started : Type 0 where
  pub config : Config
  pub server : Server
  pub acl : Acl
  pub dacl : Acl

-- How main comes to its end before that: with an exit status, or by a read or a write outside of
-- memory
pub data Start : Type 0 where
  serves : Started → Start
  exits : ℕ → Start
  crashes : Start

-- The world at the start: the host, the JSON file and its array of hardware addresses, the lease
-- files, and whether the sockets, the signal handler and the log could be set up.
pub record World : Type 0 where
  pub host : Host
  pub file : Option ConfigFile
  pub acl_entries : Option (List (Option (List ℕ)))
  pub files : LeaseFiles
  pub can_log : Bool
  pub has_socket : Bool
  pub has_unix_socket : Bool
  pub now : ℕ

-- main behind init_ACL
unfoldable pub start_caches : World → Config → Allocator → Acl → Started
unfolding init_cache init_dynamic_acl init_load_persisten_leases init_dhcp_server_timers timer_new
start_caches w config a acl =
    let (files, pools) = init_load_persisten_leases w.files a.address_pools w.now in
    record {
      config = config;
      server =
          init_dhcp_server_timers
            (record {
              allocator = record a { address_pools = pools };
              trans_cache = init_cache config w.now;
              lease_expiration_check =
                  timer_new repeat config.lease_expiration_check true (some check_lease_expirations)
                    w.now;
              files = files;
            })
            config.lease_expiration_check w.now;
      acl = acl;
      dacl = init_dynamic_acl;
    }

-- main behind config_load_configuration. `rv` holds the 0 that config_parse_arguments returned.
unfoldable pub start_configured : World → Config → Allocator → Start
unfolding init_dhcp_options init_acl start_caches
start_configured w config a =
    let b = init_dhcp_options config a in
    if not w.has_socket
    then exits 0
    else if not w.has_unix_socket
    then exits 0
    else elim (init_acl config w.acl_entries) [
      | none ↦ exits 0
      | some acl ↦ serves (start_caches w config b acl)
    ]

-- main behind config_parse_arguments
unfoldable pub start_parsed : World → Setup → Start
unfolding config_load_configuration start_configured
start_parsed w s = elim (config_load_configuration w.host s.config s.allocator w.file) [
  | none ↦ crashes
  | some (false, config, a) ↦ exits 0
  | some (true, config, a) ↦ start_configured w config a
]

-- `dhcp_server = {0}`, with the path that main copies into it
abbrev pub zero_config : Config
zero_config = record {
  config_path = default_path;
  interface = [];
  bound_ip = 0;
  broadcast_addr = 0;
  tick_delay = 0;
  cache_size = 0;
  trans_duration = 0;
  lease_expiration_check = 0;
  lease_time = 0;
  log_verbosity = 0;
  acl_enable = 0;
  dynamic_acl_enable = 0;
  acl_blacklist = 0;
  db_enable = 0;
}

abbrev pub at_start : Setup
at_start = record { config = zero_config; allocator = init_allocator }

-- main, for arguments without --version and --help
unfoldable pub start : World → List Argument → Start
unfolding config_parse_arguments start_parsed
start w arguments =
    if not w.can_log then exits 1 else elim (config_parse_arguments w.host at_start arguments) [
      | none ↦ crashes
      | some (success, s) ↦ start_parsed w s
      | some (failure, s) ↦ exits 1
      | some (exit_program, s) ↦ exits 0
    ]
