-- ===== src/Config/Settings.antt =====
-- The settings that the arguments of the program leave and that the JSON file fills in
-- (server/src/config.c).
use dhcpv4_server_with_gui_c.Prelude.{
  ℕ, ◌≡◌, ◌≢◌, ◌∙◌, refl, sym, ap, Bool, true, false, Option, none, some, List, [], ◌∷◌, arith,
  if◌then◌else◌, if_split, take,
}
use dhcpv4_server_with_gui_c.Options.{DhcpOption, dhcp_option_retrieve}
use dhcpv4_server_with_gui_c.Allocator.{Allocator}
use dhcpv4_server_with_gui_c.Config.{
  Json, json_string, json_number, json_bool, json_other, Sockaddr, inet, other_family, Ifaddrs,
  Host, Config, ServerConfig, SecurityConfig, is_true, load_flag, load_number, load_settings,
  load_interface, read_addresses, read_interface, interface_loop, config_get_interface_info,
  config_load_server_config, config_load_security_config, has_interface, strcmp_eq, has_both,
}

flag_IsSet : (current : ℕ) (object : Option Json) → load_flag current object ≢ 2
unfolding load_flag is_true
flag_IsSet current object = ground arith

number_keeps :
    (host : Host) (w current : ℕ) (object : Option Json) (default : ℕ)
    → current ≢ 0
    → load_number host w current object default ≡ current
unfolding load_number
number_keeps host w current object default h = ground arith

kept_number :
    (host : Host) (w kept current : ℕ) (object : Option Json) (default : ℕ)
    → current ≡ kept
    → kept ≢ 0
    → load_number host w current object default ≡ kept
kept_number host w kept current object default e h =
    ap (λ v. load_number host w v object default) e ∙ number_keeps host w kept object default h

kept_flag :
    (kept current : ℕ) (object : Option Json)
    → current ≡ kept
    → kept ≢ 2
    → load_flag current object ≡ kept
unfolding load_flag
kept_flag kept current object e h = ground arith

-- The settings without what belongs to the network interface
abbrev pub plain : Config → Config
plain config = record config { interface = []; bound_ip = 0; broadcast_addr = 0 }

read_addresses-plain :
    (config : Config) (a : Sockaddr) (b : Option ℕ)
    → plain (read_addresses config a b) ≡ plain config
unfolding read_addresses
read_addresses-plain config other_family b = refl
read_addresses-plain config (inet a) none = refl
read_addresses-plain config (inet a) (some b) = refl

read_interface-plain :
    (config : Config) (i : Ifaddrs) → plain (read_interface config i).1 ≡ plain config
unfolding read_interface
read_interface-plain config i =
    elim i.addr
      as (λ r.
        plain
          (elim r as (λ y. Bool × Config) [
            | none ↦ (false, config)
            | some a ↦
                let next = read_addresses config a i.broadaddr in
                if strcmp_eq i.name config.interface then (has_both next, next) else (false, config)
          ]).1
        ≡ plain config) [
          | none ↦ refl
          | some a ↦
              if_split (λ (r : Bool × Config). plain r.1 ≡ plain config)
                (strcmp_eq i.name config.interface) _ _
                (λ e. read_addresses-plain config a i.broadaddr) (λ e. refl)
        ]

interface_loop-plain :
    (is : List Ifaddrs) (config : Config) → plain (interface_loop is config) ≡ plain config
unfolding interface_loop
interface_loop-plain [] config = refl
interface_loop-plain (i ∷ is) config =
    if_split (λ r. plain r ≡ plain config) (read_interface config i).0 (read_interface config i).1
      (interface_loop is (read_interface config i).1) (λ e. read_interface-plain config i)
      (λ e. interface_loop-plain is (read_interface config i).1 ∙ read_interface-plain config i)

-- What is known of the settings behind "interface".
abbrev pub Interfaced : Config → Config → Type 0
Interfaced config mid = (plain mid ≡ plain config) × (has_interface config ≡ true → mid ≡ config)

load_interface-plain :
    (host : Host) (config mid : Config) (object : Option Json)
    → load_interface host config object ≡ some (true, mid)
    → plain mid ≡ plain config
unfolding load_interface config_get_interface_info
load_interface-plain host config mid none e = absurd cc
load_interface-plain host config mid (some (json_string s)) e =
    let named = record config { interface = take 255 s } in
    let same : mid ≡ interface_loop host.interfaces named = cc in
    ap plain same ∙ interface_loop-plain host.interfaces named
load_interface-plain host config mid (some (json_number n)) e = absurd cc
load_interface-plain host config mid (some (json_bool b)) e = absurd cc
load_interface-plain host config mid (some json_other) e = absurd cc

found_interface :
    (host : Host) (config next : Config) (file : ServerConfig) (r : Option (Bool × Config))
    → load_interface host config file.interface ≡ r
    → has_interface config ≡ false
    → elim r as (λ y. Option (Bool × Config)) [
      | none ↦ none
      | some (found, mid) ↦ some (found, if found then load_settings host mid file else mid)
    ]
      ≡ some (true, next)
    → (mid : Config) × Interfaced config mid × (next ≡ load_settings host mid file)
found_interface host config next file none loaded missing e = absurd cc
found_interface host config next file (some (false, mid)) loaded missing e = absurd cc
found_interface host config next file (some (true, mid)) loaded missing e = (
  mid,
  (
    load_interface-plain host config mid file.interface loaded,
    λ given. absurd (let clash : true ≡ false = sym given ∙ missing in cc),
  ),
  cc,
)

pub server_config_lem :
    (host : Host) (config next : Config) (file : ServerConfig)
    → config_load_server_config host config file ≡ some (true, next)
    → (mid : Config) × Interfaced config mid × (next ≡ load_settings host mid file)
unfolding config_load_server_config
server_config_lem host config next file =
    if_split
      (λ r.
        r ≡ some (true, next)
        → (mid : Config) × Interfaced config mid × (next ≡ load_settings host mid file))
      (has_interface config) (some (true, load_settings host config file)) _
      (λ given e. (config, (refl, λ g. refl), cc))
      (λ missing.
        found_interface host config next file (load_interface host config file.interface) refl
          missing)

-- What loading the file does to the settings and the global options: what an argument of the
-- program has set stays, and nothing is left untouched.
pub record IsFilledIn (config : Config) (a : Allocator) (next : Config) (b : Allocator)
    : Type 0 where
  pub interface : has_interface config ≡ true → next.interface ≡ config.interface
  pub addresses :
      has_interface config ≡ true
      → (next.bound_ip ≡ config.bound_ip) × (next.broadcast_addr ≡ config.broadcast_addr)
  pub tick_delay : config.tick_delay ≢ 0 → next.tick_delay ≡ config.tick_delay
  pub cache_size : config.cache_size ≢ 0 → next.cache_size ≡ config.cache_size
  pub trans_duration : config.trans_duration ≢ 0 → next.trans_duration ≡ config.trans_duration
  pub lease_expiration_check :
      config.lease_expiration_check ≢ 0
      → next.lease_expiration_check ≡ config.lease_expiration_check
  pub lease_time : config.lease_time ≢ 0 → next.lease_time ≡ config.lease_time
  pub log_verbosity : config.log_verbosity ≢ 0 → next.log_verbosity ≡ config.log_verbosity
  pub acl_enable :
      (next.acl_enable ≢ 2) × (config.acl_enable ≢ 2 → next.acl_enable ≡ config.acl_enable)
  pub dynamic_acl_enable :
      (next.dynamic_acl_enable ≢ 2)
      × (config.dynamic_acl_enable ≢ 2 → next.dynamic_acl_enable ≡ config.dynamic_acl_enable)
  pub acl_blacklist :
      (next.acl_blacklist ≢ 2)
      × (config.acl_blacklist ≢ 2 → next.acl_blacklist ≡ config.acl_blacklist)
  pub db_enable : (next.db_enable ≢ 2) × (config.db_enable ≢ 2 → next.db_enable ≡ config.db_enable)
  pub options :
      (tag : ℕ) (x : DhcpOption)
      → dhcp_option_retrieve a.default_options tag ≡ some x
      → dhcp_option_retrieve b.default_options tag ≡ some x

-- The settings after all loads, from those behind "interface"
abbrev pub filled : Host → Config → ServerConfig → SecurityConfig → Config
filled host mid server security =
    config_load_security_config (load_settings host mid server) security

pub filled-IsFilledIn :
    (host : Host) (config mid : Config) (a b : Allocator) (server : ServerConfig)
    (security : SecurityConfig)
    → Interfaced config mid
    → ((tag : ℕ) (x : DhcpOption)
        → dhcp_option_retrieve a.default_options tag ≡ some x
        → dhcp_option_retrieve b.default_options tag ≡ some x)
    → IsFilledIn config a (filled host mid server security) b
unfolding load_settings config_load_security_config
filled-IsFilledIn host config mid a b server security (same, kept) options = record {
  interface = λ g. ap (λ (c : Config). c.interface) (kept g);
  addresses = λ g.
      (ap (λ (c : Config). c.bound_ip) (kept g), ap (λ (c : Config). c.broadcast_addr) (kept g));
  tick_delay =
      kept_number host _ config.tick_delay mid.tick_delay server.tick_delay _
        (ap (λ (c : Config). c.tick_delay) same);
  cache_size =
      kept_number host _ config.cache_size mid.cache_size server.cache_size _
        (ap (λ (c : Config). c.cache_size) same);
  trans_duration =
      kept_number host _ config.trans_duration mid.trans_duration server.trans_duration _
        (ap (λ (c : Config). c.trans_duration) same);
  lease_expiration_check =
      kept_number host _ config.lease_expiration_check mid.lease_expiration_check
        server.lease_expiration_check _ (ap (λ (c : Config). c.lease_expiration_check) same);
  lease_time =
      kept_number host _ config.lease_time mid.lease_time server.lease_time _
        (ap (λ (c : Config). c.lease_time) same);
  log_verbosity =
      kept_number host _ config.log_verbosity mid.log_verbosity server.log_verbosity _
        (ap (λ (c : Config). c.log_verbosity) same);
  acl_enable = (
    flag_IsSet mid.acl_enable security.acl_enable,
    kept_flag config.acl_enable mid.acl_enable security.acl_enable
        (ap (λ (c : Config). c.acl_enable) same),
  );
  dynamic_acl_enable = (
    flag_IsSet mid.dynamic_acl_enable security.dynamic_acl,
    kept_flag config.dynamic_acl_enable mid.dynamic_acl_enable security.dynamic_acl
        (ap (λ (c : Config). c.dynamic_acl_enable) same),
  );
  acl_blacklist = (
    flag_IsSet mid.acl_blacklist security.acl_blacklist,
    kept_flag config.acl_blacklist mid.acl_blacklist security.acl_blacklist
        (ap (λ (c : Config). c.acl_blacklist) same),
  );
  db_enable = (
    flag_IsSet mid.db_enable server.db_enable,
    kept_flag config.db_enable mid.db_enable server.db_enable
        (ap (λ (c : Config). c.db_enable) same),
  );
  options = options;
}
