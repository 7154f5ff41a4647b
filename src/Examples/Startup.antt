-- ===== src/Examples/Startup.antt =====
-- Theorems on the configuration and the start (server/src/config.c and server/src/main.c) at small
-- inputs.
use dhcpv4_server_with_gui_c.Prelude.{ℕ, ◌≡◌, refl, true, none, some, List, [], ◌∷◌, arith}
use dhcpv4_server_with_gui_c.Options.{
  DhcpOption, dhcp_option_retrieve, dhcp_option_new_values, u32_bytes,
}
use dhcpv4_server_with_gui_c.Allocator.{Allocator}
use dhcpv4_server_with_gui_c.Acl.{Acl, acl_new}
use dhcpv4_server_with_gui_c.Xtoy.{uint32_to_ipv4_address, ipv4_address_to_uint32}
use dhcpv4_server_with_gui_c.Config.{json_string, json_number, json_bool, Host, inet, Config}
use dhcpv4_server_with_gui_c.Config.Pools.{
  ConfigFile, PoolConfig, no_file, config_load_pools_config, config_load_configuration,
}
use dhcpv4_server_with_gui_c.Config.Settings.{IsFilledIn}
use dhcpv4_server_with_gui_c.Config.Filled.{configuration-IsFilledIn}
use dhcpv4_server_with_gui_c.Config.Inherited.{IsComplete, inherited, load_pools_inherits}
use dhcpv4_server_with_gui_c.Config.Arguments.{Setup}
use dhcpv4_server_with_gui_c.Config.Flags.{Argument, interface, success, config_parse_arguments}
use dhcpv4_server_with_gui_c.Start.{
  World, Started, init_allocator, serves, zero_config, at_start, start_caches, init_dhcp_options,
  start,
}
use dhcpv4_server_with_gui_c.Start.Unbound.{
  ArePlain, is_plain, no_argument, plain_argument, start_unbound,
}

-- "eth0"
abbrev eth0 : List ℕ
eth0 = 101 ∷ 116 ∷ 104 ∷ 48 ∷ []

-- eth0 has 192.168.1.1 in 192.168.1.255.
abbrev host : Host
host = record {
  interfaces =
      record { name = eth0; addr = some (inet 3232235777); broadaddr = some 3232236031 } ∷ [];
  nan_value = 0;
  beyond = [];
}

-- { "name": "lan", "start": "192.168.1.1", "end": "192.168.1.100", "subnet": "255.255.255.0" }
abbrev lan_start_text : List ℕ
lan_start_text = 49 ∷ 57 ∷ 50 ∷ 46 ∷ 49 ∷ 54 ∷ 56 ∷ 46 ∷ 49 ∷ 46 ∷ 49 ∷ []

abbrev lan_end_text : List ℕ
lan_end_text = 49 ∷ 57 ∷ 50 ∷ 46 ∷ 49 ∷ 54 ∷ 56 ∷ 46 ∷ 49 ∷ 46 ∷ 49 ∷ 48 ∷ 48 ∷ []

abbrev lan_mask_text : List ℕ
lan_mask_text = 50 ∷ 53 ∷ 53 ∷ 46 ∷ 50 ∷ 53 ∷ 53 ∷ 46 ∷ 50 ∷ 53 ∷ 53 ∷ 46 ∷ 48 ∷ []

abbrev lan : PoolConfig
lan = record {
  name = some (some "lan");
  start = some (json_string lan_start_text);
  end = some (json_string lan_end_text);
  subnet = some (json_string lan_mask_text);
  options = none;
}

start_read : ipv4_address_to_uint32 lan_start_text ≡ 3232235777
unfolding ipv4_address_to_uint32
start_read = refl

end_read : ipv4_address_to_uint32 lan_end_text ≡ 3232235876
unfolding ipv4_address_to_uint32
end_read = refl

mask_read : ipv4_address_to_uint32 lan_mask_text ≡ 4294967040
unfolding ipv4_address_to_uint32
mask_read = refl

lan-IsComplete : IsComplete lan "lan" lan_start_text lan_end_text lan_mask_text
lan-IsComplete = record {
  named = refl;
  starts = refl;
  ends = refl;
  masked = refl;
  start_read = λ z. absurd (omega (arith, start_read));
  end_read = λ z. absurd (omega (arith, end_read));
  mask_read = λ z. absurd (omega (arith, mask_read));
}

-- { "name": "guests", "end": "192.168.1.9" }
abbrev guests : PoolConfig
guests = record {
  name = some (some "guests");
  start = none;
  end = some (json_string (uint32_to_ipv4_address 3232235785));
  subnet = none;
  options = none;
}

abbrev no_pools : Allocator
no_pools = record { default_options = []; address_pools = [] }

load_pools_inherits_example :
    config_load_pools_config host no_pools (some (lan ∷ guests ∷ []))
    ≡ config_load_pools_config host no_pools (some (lan ∷ inherited lan guests ∷ []))
load_pools_inherits_example =
    load_pools_inherits host lan guests [] "lan" lan_start_text lan_end_text lan_mask_text
      lan-IsComplete [] no_pools

-- The arguments gave an interface and a tick, and left the flags untouched.
abbrev given : Config
given = record zero_config {
  interface = eth0;
  tick_delay = 500;
  acl_enable = 2;
  dynamic_acl_enable = 0;
  acl_blacklist = 2;
  db_enable = 2;
}

-- A file that sets a tick, the cache and the lists, and an option with tag 3
abbrev router : DhcpOption
router = dhcp_option_new_values 3 4 (u32_bytes 3232235777)

abbrev file : ConfigFile
file = record no_file {
  server = record no_file.server {
    tick_delay = some (json_number 100);
    cache_size = some (json_number 7);
  };
  pools = some (guests ∷ []);
  options = some (
      record {
        tag = some (json_number 3);
        lenght = some (json_number 4);
        value = some (json_string (uint32_to_ipv4_address 3232235777));
      }
      ∷ []);
  security = record no_file.security { acl_enable = some (json_bool true) };
}

abbrev loaded : Config
loaded = record given {
  cache_size = 7;
  trans_duration = 60;
  lease_expiration_check = 60;
  log_verbosity = 4;
  lease_time = 43200;
  acl_enable = 1;
  acl_blacklist = 1;
  db_enable = 1;
}

abbrev with_router : Allocator
with_router = record no_pools { default_options = router ∷ [] }

load_file_loaded :
    config_load_configuration host given no_pools (some file) ≡ some (true, loaded, with_router)
unfolding config_load_configuration uint32_to_ipv4_address dhcp_option_retrieve
load_file_loaded = refl

configuration-IsFilledIn_example : IsFilledIn given no_pools loaded with_router
configuration-IsFilledIn_example =
    configuration-IsFilledIn host given loaded no_pools with_router (some file) load_file_loaded

abbrev world : World
world = record {
  host = host;
  file = none;
  acl_entries = none;
  files = [];
  can_log = true;
  has_socket = true;
  has_unix_socket = true;
  now = 100;
}

-- -i eth0
abbrev arguments : List Argument
arguments = interface eth0 ∷ []

arguments_plain : ArePlain arguments
unfolding is_plain
arguments_plain = plain_argument refl no_argument

abbrev parsed : Setup
parsed = record at_start {
  config = record zero_config {
    interface = eth0;
    acl_enable = 2;
    dynamic_acl_enable = 2;
    acl_blacklist = 2;
    db_enable = 2;
  };
}

arguments-parsed : config_parse_arguments host at_start arguments ≡ some (success, parsed)
unfolding config_parse_arguments
arguments-parsed = refl

abbrev settled : Config
settled = record loaded { tick_delay = 1000; cache_size = 25; dynamic_acl_enable = 1 }

abbrev allow_all : Acl
allow_all = record acl_new { enabled = true; is_blacklist = true }

abbrev started : Started
started = start_caches world settled (init_dhcp_options settled no_pools) allow_all

start_started : start world arguments ≡ serves started
unfolding start init_allocator
start_started = refl

start_unbound_example : (started.config.bound_ip ≡ 0) × (started.config.broadcast_addr ≡ 0)
start_unbound_example =
    start_unbound world arguments parsed started arguments_plain arguments-parsed refl start_started
