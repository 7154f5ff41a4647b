-- ===== src/Start/Unbound.antt =====
-- The address of a server whose interface is an argument (server/src/main.c and
-- server/src/config.c).
use dhcpv4_server_with_gui_c.Prelude.{
  ℕ, ◌≡◌, ◌∙◌, refl, sym, ap, Bool, true, false, not, Option, none, some, List, [], ◌∷◌, if_split,
}
use dhcpv4_server_with_gui_c.Allocator.{Allocator}
use dhcpv4_server_with_gui_c.Xtoy.{scan_u}
use dhcpv4_server_with_gui_c.Config.{Host, Config, has_interface}
use dhcpv4_server_with_gui_c.Config.Pools.{Configured, config_load_configuration}
use dhcpv4_server_with_gui_c.Config.Filled.{configuration-IsFilledIn}
use dhcpv4_server_with_gui_c.Config.Arguments.{Setup, scan_hhu, config_add_dhcp_option}
use dhcpv4_server_with_gui_c.Config.Flags.{
  Argument, version, help, acl_disable, acl_whitelist_mode, dynamic_acl_disable, db_disable,
  unknown, config_path, interface, tick_delay, cache_size, transaction_duration,
  lease_expiration_check, lease_time, pool, option, log, default_configuration, ReturnValue,
  success, failure, exit_program, returned, scanned, parse_argument, arguments_loop,
  config_parse_arguments,
}
use dhcpv4_server_with_gui_c.Start.{
  World, Started, Start, serves, exits, crashes, init_dhcp_options, init_acl, start_caches,
  start_configured, start_parsed, at_start, start,
}

-- The address of the server and its broadcast address
abbrev addresses : Config → ℕ × ℕ
addresses c = (c.bound_ip, c.broadcast_addr)

-- What an argument leaves
abbrev Leaves : Setup → Option (ReturnValue × Setup) → Type 0
Leaves s r =
    (v : ReturnValue) (next : Setup)
    → r ≡ some (v, next)
    → addresses next.config ≡ addresses s.config

-- An argument other than --default-configuration
unfoldable pub is_plain : Argument → Bool
is_plain (default_configuration argc optarg) = false
is_plain _ = true

leaves :
    (s after : Setup) (v : ReturnValue)
    → addresses after.config ≡ addresses s.config
    → Leaves s (some (v, after))
leaves s after v e v2 next same =
    let ends : next ≡ after = cc in ap (λ (q : Setup). addresses q.config) ends ∙ e

scanned-Leaves :
    (s : Setup) (r : Option (ℕ × List ℕ)) (write : ℕ → Config)
    → ((n : ℕ) → addresses (write n) ≡ addresses s.config)
    → Leaves s (some (scanned s r write))
unfolding scanned
scanned-Leaves s none write e = leaves s s failure refl
scanned-Leaves s (some (number, rest)) write e =
    leaves s (record s { config = write number }) success (e number)

parse_argument-Leaves :
    (host : Host) (s : Setup) (x : Argument)
    → is_plain x ≡ true
    → Leaves s (parse_argument host s x)
unfolding parse_argument is_plain
parse_argument-Leaves host s version p = leaves s s exit_program refl
parse_argument-Leaves host s help p = leaves s s exit_program refl
parse_argument-Leaves host s (config_path o) p = leaves s _ success refl
parse_argument-Leaves host s (interface o) p = leaves s _ success refl
parse_argument-Leaves host s (tick_delay o) p = scanned-Leaves s (scan_u o) _ (λ n. refl)
parse_argument-Leaves host s (cache_size o) p = scanned-Leaves s (scan_u o) _ (λ n. refl)
parse_argument-Leaves host s (transaction_duration o) p = scanned-Leaves s (scan_u o) _ (λ n. refl)
parse_argument-Leaves host s (lease_expiration_check o) p =
    scanned-Leaves s (scan_u o) _ (λ n. refl)
parse_argument-Leaves host s (lease_time o) p = scanned-Leaves s (scan_u o) _ (λ n. refl)
parse_argument-Leaves host s (log o) p = scanned-Leaves s (scan_hhu o) _ (λ n. refl)
parse_argument-Leaves host s (pool o) p = leaves s _ _ refl
parse_argument-Leaves host s (option o) p =
    elim (config_add_dhcp_option s.allocator o)
      as (λ r. Leaves s (elim r [
        | none ↦ none
        | some (added, a) ↦ some (returned added, record s { allocator = a })
      ])) [
        | none ↦ λ v next e. absurd cc
        | some (added, a) ↦ leaves s (record s { allocator = a }) (returned added) refl
      ]
parse_argument-Leaves host s (default_configuration argc o) p = absurd cc
parse_argument-Leaves host s acl_disable p = leaves s _ success refl
parse_argument-Leaves host s acl_whitelist_mode p = leaves s _ success refl
parse_argument-Leaves host s dynamic_acl_disable p = leaves s _ success refl
parse_argument-Leaves host s db_disable p = leaves s _ success refl
parse_argument-Leaves host s unknown p = leaves s s failure refl

pub data ArePlain : List Argument → Type 0 where
  no_argument : ArePlain []
  plain_argument :
      {x : Argument} {xs : List Argument} → is_plain x ≡ true → ArePlain xs → ArePlain (x ∷ xs)

abbrev go_on : Host → List Argument → Option (ReturnValue × Setup) → Option (ReturnValue × Setup)
go_on host xs r = elim r [
  | none ↦ none
  | some (success, next) ↦ arguments_loop host xs next
  | some (failure, next) ↦ some (failure, next)
  | some (exit_program, next) ↦ some (exit_program, next)
]

arguments_loop-Leaves :
    (host : Host) (xs : List Argument) (s : Setup)
    → ArePlain xs
    → Leaves s (arguments_loop host xs s)
unfolding arguments_loop
arguments_loop-Leaves host [] s plain = leaves s s success refl
arguments_loop-Leaves host (x ∷ xs) s (plain_argument p plain) =
    elim (parse_argument host s x) as (λ r. Leaves s r → Leaves s (go_on host xs r)) [
      | none ↦ λ kept v next e. absurd cc
      | some (success, mid) ↦
          λ kept v next e. arguments_loop-Leaves host xs mid plain v next e ∙ kept success mid refl
      | some (failure, mid) ↦ λ kept. kept
      | some (exit_program, mid) ↦ λ kept. kept
    ]
      (parse_argument-Leaves host s x p)

-- What main keeps of the settings that were loaded
configured_keeps :
    (w : World) (config : Config) (a : Allocator) (t : Started)
    → start_configured w config a ≡ serves t
    → t.config ≡ config
unfolding start_configured start_caches
configured_keeps w config a t =
    let Kept : Start → Type 0 = λ r. r ≡ serves t → t.config ≡ config in
    if_split Kept (not w.has_socket) _ _ (λ s e. absurd cc)
      (λ s.
        if_split Kept (not w.has_unix_socket) _ _ (λ u e. absurd cc)
          (λ u.
            elim (init_acl config w.acl_entries)
              as (λ r. Kept (elim r as (λ y. Start) [
                | none ↦ exits 0
                | some acl ↦ serves (start_caches w config (init_dhcp_options config a) acl)
              ])) [
                | none ↦ λ e. absurd cc
                | some acl ↦ λ e.
                    let same : t ≡ start_caches w config (init_dhcp_options config a) acl = cc in
                    ap (λ (q : Started). q.config) same
              ]))

configuration_unbound :
    (w : World) (s : Setup) (t : Started) (r : Configured)
    → config_load_configuration w.host s.config s.allocator w.file ≡ r
    → has_interface s.config ≡ true
    → elim r as (λ y. Start) [
      | none ↦ crashes
      | some (false, config, a) ↦ exits 0
      | some (true, config, a) ↦ start_configured w config a
    ]
      ≡ serves t
    → addresses t.config ≡ addresses s.config
configuration_unbound w s t none loaded given e = absurd cc
configuration_unbound w s t (some (false, config, a)) loaded given e = absurd cc
configuration_unbound w s t (some (true, config, a)) loaded given e =
    let filled = configuration-IsFilledIn w.host s.config config s.allocator a w.file loaded in
    let (bound, broadcast) = filled.addresses given in
    ap addresses (configured_keeps w config a t e)
    ∙ ap (λ (b : ℕ). (b, config.broadcast_addr)) bound
    ∙ ap (λ (b : ℕ). (s.config.bound_ip, b)) broadcast

-- The end of main, from what config_parse_arguments returned
parsed_unbound :
    (w : World) (s : Setup) (t : Started) (r : Option (ReturnValue × Setup))
    → r ≡ some (success, s)
    → has_interface s.config ≡ true
    → elim r as (λ y. Start) [
      | none ↦ crashes
      | some (success, s2) ↦ start_parsed w s2
      | some (failure, s2) ↦ exits 1
      | some (exit_program, s2) ↦ exits 0
    ]
      ≡ serves t
    → addresses t.config ≡ addresses s.config
unfolding start_parsed
parsed_unbound w s t r parsed given e =
    configuration_unbound w s t (config_load_configuration w.host s.config s.allocator w.file) refl
      given
      (ap
          (λ (q : Option (ReturnValue × Setup)). elim q as (λ y. Start) [
            | none ↦ crashes
            | some (success, s2) ↦ start_parsed w s2
            | some (failure, s2) ↦ exits 1
            | some (exit_program, s2) ↦ exits 0
          ])
          (sym parsed)
        ∙ e)

-- If the arguments are read, without --default-configuration among them, and give an interface,
-- a server that starts has 0 for its own address and 0 for the broadcast address.
pub start_unbound :
    (w : World) (arguments : List Argument) (s : Setup) (t : Started)
    → ArePlain arguments
    → config_parse_arguments w.host at_start arguments ≡ some (success, s)
    → has_interface s.config ≡ true
    → start w arguments ≡ serves t
    → (t.config.bound_ip ≡ 0) × (t.config.broadcast_addr ≡ 0)
unfolding start config_parse_arguments
start_unbound w arguments s t plain parsed given =
    if_split (λ (r : Start). r ≡ serves t → (t.config.bound_ip ≡ 0) × (t.config.broadcast_addr ≡ 0))
      (not w.can_log) _ _ (λ l e. absurd cc)
      (λ l e.
        let kept : addresses t.config ≡ addresses s.config =
          parsed_unbound w s t (config_parse_arguments w.host at_start arguments) parsed given e in
        let zero_addresses : addresses s.config ≡ (0, 0) =
          arguments_loop-Leaves w.host arguments _ plain success s parsed in
        let same = kept ∙ zero_addresses in
        (ap (λ (q : ℕ × ℕ). q.0) same, ap (λ (q : ℕ × ℕ). q.1) same))
