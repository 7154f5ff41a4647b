-- ===== src/Config/Inherited.antt =====
-- What a pool of the JSON file takes over from the pool before it (config_load_pools_config of
-- server/src/config.c).
use Prim.Native.String.{String}
use dhcpv4_server_with_gui_c.Prelude.{
  ℕ, ◌≡◌, ◌≢◌, ◌∙◌, refl, sym, ap, Option, none, some, List, [], ◌∷◌, ◌++◌, arith,
}
use dhcpv4_server_with_gui_c.Allocator.{Allocator}
use dhcpv4_server_with_gui_c.Xtoy.{ipv4_address_to_uint32}
use dhcpv4_server_with_gui_c.Config.{Json, json_string, Host}
use dhcpv4_server_with_gui_c.Config.Options.{OptionConfig}
use dhcpv4_server_with_gui_c.Config.Pools.{
  PoolConfig, Carried, uncarried, read_name, read_address, make_pool, load_addresses, load_pool,
  pools_loop, config_load_pools_config,
}

-- A pool that has all its four items: a name, and three texts that are no text of 0
pub record IsComplete (p : PoolConfig) (name : String) (start end mask : List ℕ) : Type 0 where
  pub named : p.name ≡ some (some name)
  pub starts : p.start ≡ some (json_string start)
  pub ends : p.end ≡ some (json_string end)
  pub masked : p.subnet ≡ some (json_string mask)
  pub start_read : ipv4_address_to_uint32 start ≢ 0
  pub end_read : ipv4_address_to_uint32 end ≢ 0
  pub mask_read : ipv4_address_to_uint32 mask ≢ 0

-- The item of a pool, or else that of the pool before it
abbrev pub item_or {ℓ} : {A : Type ℓ} → Option A → Option A → Option A
item_or none before = before
item_or (some item) before = some item

-- A pool with the items that it leaves out taken from another one. The options are its own.
abbrev pub inherited : PoolConfig → PoolConfig → PoolConfig
inherited before p = record p {
  name = item_or p.name before.name;
  start = item_or p.start before.start;
  end = item_or p.end before.end;
  subnet = item_or p.subnet before.subnet;
}

-- What the loop holds behind a complete pool
abbrev carried : String → List ℕ → List ℕ → List ℕ → Carried
carried name start end mask = record {
  name = some name;
  start = ipv4_address_to_uint32 start;
  end = ipv4_address_to_uint32 end;
  mask = ipv4_address_to_uint32 mask;
}

read_all :
    (host : Host) (c : Carried) (a : Allocator) (name : String) (start end mask : ℕ)
    (options : Option (List OptionConfig))
    → start ≢ 0
    → end ≢ 0
    → mask ≢ 0
    → load_addresses host a c name options (some start) (some end) (some mask)
      ≡ some (
        record c { start = start; end = end; mask = mask },
        make_pool host a name start end mask options,
      )
unfolding load_addresses
read_all host c a name start end mask options s e m = ground arith

load_complete :
    (host : Host) (c : Carried) (a : Allocator) (p : PoolConfig) (name : String)
    (start end mask : List ℕ)
    → IsComplete p name start end mask
    → (b : Allocator) × (load_pool host c a p ≡ some (carried name start end mask, b))
unfolding load_pool read_name read_address
load_complete host c a p name start end mask h = (
  make_pool host a name (ipv4_address_to_uint32 start) (ipv4_address_to_uint32 end)
      (ipv4_address_to_uint32 mask) p.options,
  rw (load_pool, h.named, h.starts, h.ends, h.masked)
      (read_all host (record c { name = some name }) a name (ipv4_address_to_uint32 start)
        (ipv4_address_to_uint32 end) (ipv4_address_to_uint32 mask) p.options h.start_read h.end_read
        h.mask_read),
)

read_name_inherits :
    (name : String) (item : Option (Option String))
    → read_name (some name) item ≡ read_name (some name) (item_or item (some (some name)))
unfolding read_name
read_name_inherits name none = refl
read_name_inherits name (some own) = refl

read_address_inherits :
    (text : List ℕ) (item : Option Json)
    → read_address (ipv4_address_to_uint32 text) item
      ≡ read_address (ipv4_address_to_uint32 text) (item_or item (some (json_string text)))
unfolding read_address
read_address_inherits text none = refl
read_address_inherits text (some own) = refl

-- A round over the results of the four reads
abbrev round :
    Host
    → Carried
    → Allocator
    → Option (List OptionConfig)
    → Option String
    → Option ℕ
    → Option ℕ
    → Option ℕ
    → Option (Carried × Allocator)
round host c a options name start end mask = elim name [
  | none ↦ some (record c { name = none }, a)
  | some n ↦ load_addresses host a (record c { name = some n }) n options start end mask
]

-- A pool with the items that it leaves out written out
abbrev spelled : String → List ℕ → List ℕ → List ℕ → PoolConfig → PoolConfig
spelled name start end mask q = record q {
  name = item_or q.name (some (some name));
  start = item_or q.start (some (json_string start));
  end = item_or q.end (some (json_string end));
  subnet = item_or q.subnet (some (json_string mask));
}

inherited-spelled :
    (p q : PoolConfig) (name : String) (start end mask : List ℕ)
    → IsComplete p name start end mask
    → spelled name start end mask q ≡ inherited p q
inherited-spelled p q name start end mask h = rw (h.named, h.starts, h.ends, h.masked) refl

load_inherited :
    (host : Host) (a : Allocator) (p q : PoolConfig) (name : String) (start end mask : List ℕ)
    → IsComplete p name start end mask
    → load_pool host (carried name start end mask) a q
      ≡ load_pool host (carried name start end mask) a (inherited p q)
unfolding load_pool
load_inherited host a p q name start end mask h =
    let c = carried name start end mask in
    let n2 = read_name c.name (item_or q.name (some (some name))) in
    let s2 = read_address c.start (item_or q.start (some (json_string start))) in
    let e2 = read_address c.end (item_or q.end (some (json_string end))) in
    let e1 = read_address c.end q.end in
    let m1 = read_address c.mask q.subnet in
    ap (λ n. round host c a q.options n (read_address c.start q.start) e1 m1)
      (read_name_inherits name q.name)
    ∙ ap (λ s. round host c a q.options n2 s e1 m1) (read_address_inherits start q.start)
    ∙ ap (λ e. round host c a q.options n2 s2 e m1) (read_address_inherits end q.end)
    ∙ ap (λ m. round host c a q.options n2 s2 e2 m) (read_address_inherits mask q.subnet)
    ∙ ap (load_pool host c a) (inherited-spelled p q name start end mask h)

-- The loop from a round on, by what the round gives
abbrev onwards : Host → List PoolConfig → Option (Carried × Allocator) → Option Allocator
onwards host ps r = elim r [ none ↦ none | some (next, b) ↦ pools_loop host ps next b ]

loop_step :
    (host : Host) (p : PoolConfig) (ps : List PoolConfig) (c : Carried) (a : Allocator)
    → pools_loop host (p ∷ ps) c a ≡ onwards host ps (load_pool host c a p)
unfolding pools_loop
loop_step host p ps c a = refl

module _ (host : Host) (p q : PoolConfig) (behind : List PoolConfig) (name : String)
    (start end mask : List ℕ) (whole : IsComplete p name start end mask) where
  pair_inherits :
      (c : Carried) (a : Allocator)
      → pools_loop host (p ∷ q ∷ behind) c a ≡ pools_loop host (p ∷ inherited p q ∷ behind) c a
  pair_inherits c a =
      let (b, first) = load_complete host c a p name start end mask whole in
      let next = carried name start end mask in
      loop_step host p (q ∷ behind) c a
      ∙ ap (onwards host (q ∷ behind)) first
      ∙ loop_step host q behind next b
      ∙ ap (onwards host behind) (load_inherited host b p q name start end mask whole)
      ∙ sym (loop_step host (inherited p q) behind next b)
      ∙ sym (ap (onwards host (inherited p q ∷ behind)) first)
      ∙ sym (loop_step host p (inherited p q ∷ behind) c a)

  loop_inherits :
      (before : List PoolConfig) (c : Carried) (a : Allocator)
      → pools_loop host (before ++ (p ∷ q ∷ behind)) c a
        ≡ pools_loop host (before ++ (p ∷ inherited p q ∷ behind)) c a
  loop_inherits [] c a = pair_inherits c a
  loop_inherits (x ∷ before) c a =
      loop_step host x (before ++ (p ∷ q ∷ behind)) c a
      ∙ (elim (load_pool host c a x)
          as (λ r.
            onwards host (before ++ (p ∷ q ∷ behind)) r
            ≡ onwards host (before ++ (p ∷ inherited p q ∷ behind)) r) [
              | none ↦ refl
              | some (next, b) ↦ loop_inherits before next b
            ])
      ∙ sym (loop_step host x (before ++ (p ∷ inherited p q ∷ behind)) c a)

  -- Where a pool of the file has all its items, a name and texts that are read as addresses other
  -- than 0, the pool behind it is loaded as if each of its name, start, end and subnet that it
  -- leaves out were that pool's: the whole list of pools gives the same allocator.
  pub load_pools_inherits :
      (before : List PoolConfig) (a : Allocator)
      → config_load_pools_config host a (some (before ++ (p ∷ q ∷ behind)))
        ≡ config_load_pools_config host a (some (before ++ (p ∷ inherited p q ∷ behind)))
  unfolding config_load_pools_config
  load_pools_inherits before a = loop_inherits before uncarried a
