-- ===== src/Config/Laws.antt =====
-- What the loading of the JSON file (server/src/config.c) leaves as it was, and what it sets.
use Prim.Native.String.{String}
use dhcpv4_server_with_gui_c.Prelude.{
  ℕ, ◌≡◌, ◌∙◌, refl, ap, Bool, false, Option, none, some, List, [], ◌∷◌, arith, ◌==◌, if◌then◌else◌,
  if_split,
}
use dhcpv4_server_with_gui_c.Options.{DhcpOption, dhcp_option_add, dhcp_option_retrieve}
use dhcpv4_server_with_gui_c.Options.Laws.{retrieve-add, or_else}
use dhcpv4_server_with_gui_c.Allocator.{Allocator, allocator_add_pool}
use dhcpv4_server_with_gui_c.Config.{Host, number_value}
use dhcpv4_server_with_gui_c.Config.Options.{
  OptionConfig, load_option, option_of_value, options_loop, config_load_dhcp_options,
}
use dhcpv4_server_with_gui_c.Config.Pools.{
  PoolConfig, Carried, make_pool, load_addresses, load_pool, pools_loop, read_name, read_address,
  uncarried, config_load_pools_config,
}

add_keeps :
    (os : List DhcpOption) (o x : DhcpOption) (tag : ℕ)
    → dhcp_option_retrieve os tag ≡ some x
    → dhcp_option_retrieve (dhcp_option_add os o) tag ≡ some x
add_keeps os o x tag found =
    retrieve-add os o tag ∙ ap (λ r. or_else r (if o.tag == tag then some o else none)) found

-- What a round leaves if it goes on holds what was found under a tag.
abbrev HoldsIn : ℕ → DhcpOption → Option (List DhcpOption) → Type 0
HoldsIn tag x r = (next : List DhcpOption) → r ≡ some next → dhcp_option_retrieve next tag ≡ some x

unchanged :
    (dest : List DhcpOption) (tag : ℕ) (x : DhcpOption)
    → dhcp_option_retrieve dest tag ≡ some x
    → HoldsIn tag x (some dest)
unchanged dest tag x found next e = cc

load_option_keeps :
    (host : Host) (dest : List DhcpOption) (c : OptionConfig) (tag : ℕ) (x : DhcpOption)
    → dhcp_option_retrieve dest tag ≡ some x
    → HoldsIn tag x (load_option host dest c)
unfolding load_option
load_option_keeps host dest c tag x found =
    let same = unchanged dest tag x found in
    let t = number_value host 256 c.tag in
    let l = number_value host 256 c.lenght in
    if_split (HoldsIn tag x) (t == 0) _ _ (λ e. same)
      (λ n.
        if_split (HoldsIn tag x) (l == 0) _ _ (λ e. same)
          (λ n2.
            elim c.value
              as (λ v. HoldsIn tag x (elim v [
                | none ↦ some dest
                | some value ↦ elim (option_of_value host t l value) [
                  | none ↦ none
                  | some o ↦ some (dhcp_option_add dest o)
                ]
              ])) [
                | none ↦ same
                | some value ↦
                    elim (option_of_value host t l value)
                      as (λ m.
                        HoldsIn tag x
                          (elim m [ none ↦ none | some o ↦ some (dhcp_option_add dest o) ])) [
                            | none ↦ λ next e. absurd cc
                            | some o ↦
                                unchanged (dhcp_option_add dest o) tag x
                                  (add_keeps dest o x tag found)
                          ]
              ]))

options_loop_keeps :
    (host : Host) (cs : List OptionConfig) (dest : List DhcpOption) (tag : ℕ) (x : DhcpOption)
    → dhcp_option_retrieve dest tag ≡ some x
    → dhcp_option_retrieve (options_loop host cs dest).1 tag ≡ some x
unfolding options_loop
options_loop_keeps host [] dest tag x found = found
options_loop_keeps host (c ∷ cs) dest tag x found =
    elim (load_option host dest c)
        as (λ r.
          HoldsIn tag x r
          → dhcp_option_retrieve
              (elim r as (λ y. Bool × List DhcpOption) [
                | none ↦ (false, dest)
                | some next ↦ options_loop host cs next
              ]).1
              tag
            ≡ some x) [
              | none ↦ λ keeps. found
              | some next ↦ λ keeps. options_loop_keeps host cs next tag x (keeps next refl)
            ]
      (load_option_keeps host dest c tag x found)

pub load_options_keeps :
    (host : Host) (options : Option (List OptionConfig)) (dest : List DhcpOption) (tag : ℕ)
    (x : DhcpOption)
    → dhcp_option_retrieve dest tag ≡ some x
    → dhcp_option_retrieve (config_load_dhcp_options host dest options).1 tag ≡ some x
unfolding config_load_dhcp_options
load_options_keeps host none dest tag x found = found
load_options_keeps host (some cs) dest tag x found = options_loop_keeps host cs dest tag x found

make_pool_keeps :
    (host : Host) (a : Allocator) (name : String) (start end mask : ℕ)
    (options : Option (List OptionConfig))
    → (make_pool host a name start end mask options).default_options ≡ a.default_options
unfolding make_pool allocator_add_pool
make_pool_keeps host a name start end mask options = ground arith

-- A round over the pools leaves the global options.
abbrev Leaves : Allocator → Option (Carried × Allocator) → Type 0
Leaves a r = (c : Carried) (b : Allocator) → r ≡ some (c, b) → b.default_options ≡ a.default_options

load_addresses-Leaves :
    (host : Host) (a : Allocator) (c : Carried) (name : String)
    (options : Option (List OptionConfig)) (r1 r2 r3 : Option ℕ)
    → Leaves a (load_addresses host a c name options r1 r2 r3)
unfolding load_addresses
load_addresses-Leaves host a c name options r1 r2 r3 d b e =
    ground (arith, make_pool_keeps host a name)

load_pool-Leaves :
    (host : Host) (c : Carried) (a : Allocator) (p : PoolConfig) → Leaves a (load_pool host c a p)
unfolding load_pool
load_pool-Leaves host c a p =
    elim (read_name c.name p.name)
      as (λ r. Leaves a (elim r [
        | none ↦ some (record c { name = none }, a)
        | some name ↦
            load_addresses host a (record c { name = some name }) name p.options
              (read_address c.start p.start) (read_address c.end p.end)
              (read_address c.mask p.subnet)
      ])) [
        | none ↦ λ d b e. let same : b ≡ a = cc in ap (λ (q : Allocator). q.default_options) same
        | some name ↦
            load_addresses-Leaves host a (record c { name = some name }) name p.options
              (read_address c.start p.start) (read_address c.end p.end)
              (read_address c.mask p.subnet)
      ]

pools_loop_leaves :
    (host : Host) (ps : List PoolConfig) (c : Carried) (a b : Allocator)
    → pools_loop host ps c a ≡ some b
    → b.default_options ≡ a.default_options
unfolding pools_loop
pools_loop_leaves host [] c a b e =
    let same : b ≡ a = cc in ap (λ (q : Allocator). q.default_options) same
pools_loop_leaves host (p ∷ ps) c a b e =
    elim (load_pool host c a p)
        as (λ r.
          Leaves a r
          → elim r as (λ y. Option Allocator) [
            | none ↦ none
            | some (next, q) ↦ pools_loop host ps next q
          ]
            ≡ some b
          → b.default_options ≡ a.default_options) [
            | none ↦ λ leaves ends. absurd cc
            | some (next, q) ↦
                λ leaves ends. pools_loop_leaves host ps next q b ends ∙ leaves next q refl
          ]
      (load_pool-Leaves host c a p) e

pub pools_leave :
    (host : Host) (a b : Allocator) (pools : Option (List PoolConfig))
    → config_load_pools_config host a pools ≡ some b
    → b.default_options ≡ a.default_options
unfolding config_load_pools_config
pools_leave host a b none e =
    let same : b ≡ a = cc in ap (λ (q : Allocator). q.default_options) same
pools_leave host a b (some ps) e = pools_loop_leaves host ps uncarried a b e
