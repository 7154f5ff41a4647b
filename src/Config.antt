-- ===== src/Config.antt =====
-- server/src/config.c and config.h: the settings of the server, and what config_load_configuration
-- takes from the JSON file. The file is what cJSON decodes from it: an item that
-- cJSON_GetObjectItem finds is `some`. A conversion of a number that C leaves undefined keeps its
-- low bits.
pub mod Options
pub mod Pools
pub mod Arguments
pub mod Flags
pub mod Laws
pub mod Settings
pub mod Filled
pub mod Inherited
use dhcpv4_server_with_gui_c.Prelude.{
  ℕ, zero, suc, ◌%◌, ◌^◌, Bool, true, false, not, ◌&&◌, Option, none, some, List, [], ◌∷◌, ◌++◌,
  ◌==◌, if◌then◌else◌, take,
}
use dhcpv4_server_with_gui_c.Options.{
  OptionType, numeric, string, ip, bool, bin, tag_to_type, DhcpOption, u32_bytes, dhcp_option_add,
  dhcp_option_new_values,
}
use dhcpv4_server_with_gui_c.Xtoy.{ipv4_address_to_uint32}

-- A cJSON item. A number is whole and not negative.
pub data Json : Type 0 where
  json_string : List ℕ → Json
  json_number : ℕ → Json
  json_bool : Bool → Json
  json_other : Json

pub data Sockaddr : Type 0 where
  inet : ℕ → Sockaddr
  other_family : Sockaddr

-- `struct ifaddrs`. `broadaddr` is the address in `ifa_broadaddr` in host byte order, where that
-- pointer is not null.
pub record Ifaddrs : Type 0 where
  pub name : List ℕ
  pub addr : Option Sockaddr
  pub broadaddr : Option ℕ

-- What is outside: the result of getifaddrs, the value that NaN has as an unsigned integer, and the
-- bytes of memory behind a local variable or a string.
pub record Host : Type 0 where
  pub interfaces : List Ifaddrs
  pub nan_value : ℕ
  pub beyond : List ℕ

-- The member `config` of `dhcp_server_t`. The last four hold 2 as long as they are untouched.
pub record Config : Type 0 where
  pub config_path : List ℕ
  pub interface : List ℕ
  pub bound_ip : ℕ
  pub broadcast_addr : ℕ
  pub tick_delay : ℕ
  pub cache_size : ℕ
  pub trans_duration : ℕ
  pub lease_expiration_check : ℕ
  pub lease_time : ℕ
  pub log_verbosity : ℕ
  pub acl_enable : ℕ
  pub dynamic_acl_enable : ℕ
  pub acl_blacklist : ℕ
  pub db_enable : ℕ

-- `strcmp(s, t) == 0`
unfoldable pub strcmp_eq : List ℕ → List ℕ → Bool
strcmp_eq [] [] = true
strcmp_eq [] (y ∷ t) = false
strcmp_eq (x ∷ s) [] = false
strcmp_eq (x ∷ s) (y ∷ t) = x == y && strcmp_eq s t

abbrev pub has_both : Config → Bool
has_both config = not (config.bound_ip == 0) && not (config.broadcast_addr == 0)

-- The body of the loop behind the `continue`
unfoldable pub read_addresses : Config → Sockaddr → Option ℕ → Config
read_addresses config other_family broadaddr = config
read_addresses config (inet a) none = record config { bound_ip = a }
read_addresses config (inet a) (some b) = record config { bound_ip = a; broadcast_addr = b }

-- One round of the loop, and whether it leaves the loop
unfoldable pub read_interface : Config → Ifaddrs → Bool × Config
unfolding strcmp_eq read_addresses
read_interface config i = elim i.addr [
  | none ↦ (false, config)
  | some a ↦
      let next = read_addresses config a i.broadaddr in
      if strcmp_eq i.name config.interface then (has_both next, next) else (false, config)
]

unfoldable pub interface_loop : List Ifaddrs → Config → Config
unfolding read_interface
interface_loop [] config = config
interface_loop (i ∷ is) config =
    let (leaves, next) = read_interface config i in
    let rest = interface_loop is next in if leaves then next else rest

-- `false` is the return value -1.
unfoldable pub config_get_interface_info : Host → Config → Bool × Config
unfolding interface_loop
config_get_interface_info host config =
    let next = interface_loop host.interfaces config in (has_both next, next)

-- cJSON_GetNumberValue, converted to an unsigned integer of `w` values
unfoldable pub number_value : Host → ℕ → Option Json → ℕ
number_value host w (some (json_number n)) = n % w
number_value host w (some (json_string s)) = host.nan_value % w
number_value host w (some (json_bool b)) = host.nan_value % w
number_value host w (some json_other) = host.nan_value % w
number_value host w none = host.nan_value % w

-- cJSON_IsTrue, stored in a uint8_t
unfoldable pub is_true : Json → ℕ
is_true (json_bool b) = if b then 1 else 0
is_true (json_string s) = 0
is_true (json_number n) = 0
is_true json_other = 0

-- A setting that is still untouched is read from the file, with CONFIG_BOOL_TRUE as its default.
unfoldable pub load_flag : ℕ → Option Json → ℕ
unfolding is_true
load_flag current object =
    if current == 2 then (elim object [ none ↦ 1 | some value ↦ is_true value ]) else current

-- A setting that is still 0 is read from the file, with a default.
unfoldable pub load_number : Host → ℕ → ℕ → Option Json → ℕ → ℕ
unfolding number_value
load_number host w current object default =
    if current == 0
    then (elim object [ none ↦ default | some value ↦ number_value host w (some value) ])
    else current

-- The members of "security"
pub record SecurityConfig : Type 0 where
  pub acl_enable : Option Json
  pub acl_blacklist : Option Json
  pub dynamic_acl : Option Json

unfoldable pub config_load_security_config : Config → SecurityConfig → Config
unfolding load_flag
config_load_security_config config file = record config {
  acl_enable = load_flag config.acl_enable file.acl_enable;
  acl_blacklist = load_flag config.acl_blacklist file.acl_blacklist;
  dynamic_acl_enable = load_flag config.dynamic_acl_enable file.dynamic_acl;
}

-- The members of "server"
pub record ServerConfig : Type 0 where
  pub interface : Option Json
  pub tick_delay : Option Json
  pub cache_size : Option Json
  pub trans_duration : Option Json
  pub lease_expiration_check : Option Json
  pub log_verbosity : Option Json
  pub lease_time : Option Json
  pub db_enable : Option Json

-- The `if` around "interface". `none` stands for a strncpy from a null pointer.
unfoldable pub load_interface : Host → Config → Option Json → Option (Bool × Config)
unfolding config_get_interface_info
load_interface host config none = some (false, config)
load_interface host config (some (json_string s)) =
    some (config_get_interface_info host (record config { interface = take 255 s }))
load_interface host config (some (json_number n)) = none
load_interface host config (some (json_bool b)) = none
load_interface host config (some json_other) = none

-- The settings behind "interface"
unfoldable pub load_settings : Host → Config → ServerConfig → Config
unfolding load_number load_flag
load_settings host config file = record config {
  tick_delay = load_number host (2 ^ 32) config.tick_delay file.tick_delay 1000;
  cache_size = load_number host (2 ^ 32) config.cache_size file.cache_size 25;
  trans_duration = load_number host (2 ^ 32) config.trans_duration file.trans_duration 60;
  lease_expiration_check =
      load_number host (2 ^ 32) config.lease_expiration_check file.lease_expiration_check 60;
  log_verbosity = load_number host 256 config.log_verbosity file.log_verbosity 4;
  lease_time = load_number host (2 ^ 32) config.lease_time file.lease_time 43200;
  db_enable = load_flag config.db_enable file.db_enable;
}

abbrev pub has_interface : Config → Bool
has_interface config = elim config.interface [ [] ↦ false | c ∷ cs ↦ true ]

unfoldable pub config_load_server_config : Host → Config → ServerConfig → Option (Bool × Config)
unfolding load_interface load_settings
config_load_server_config host config file =
    if has_interface config
    then some (true, load_settings host config file)
    else elim (load_interface host config file.interface) [
      | none ↦ none
      | some (found, next) ↦ some (found, if found then load_settings host next file else next)
    ]
