-- ===== src/Pool/New.antt =====
-- What address_pool_new of server/src/address_pool.c makes, and of which arguments.
use Prim.Native.String.{String}
use mathlib.Core.Path.{subst}
use dhcpv4_server_with_gui_c.Options.{dhcp_option_add, dhcp_option_retrieve}
use dhcpv4_server_with_gui_c.Prelude.{
  none, if◌then◌else◌, ℕ, ◌+◌, ◌-◌, ◌*◌, ◌/◌, ◌%◌, ◌≤◌, ◌<◌, ◌≡◌, ◌↔◌, true, some, List, [], ◌∷◌,
  refl, ap, arith, length, replicate, length-replicate, All-replicate,
}
use dhcpv4_server_with_gui_c.Pool.Bitmap.{leased_at-replicate, free_count-replicate}
use dhcpv4_server_with_gui_c.Pool.Invariant.{IsValid, size, get_lem}
use dhcpv4_server_with_gui_c.Pool.{
  AddressPool, u32_mod, pool_range, can_range_be_on_subnet, opt_subnet_mask, address_pool_new,
  address_belongs_to_pool, address_pool_get_address_allocation,
}

abbrev fresh : String → ℕ → ℕ → ℕ → AddressPool
fresh name start end mask = record {
  name = name;
  start_address = start;
  end_address = end;
  mask = mask;
  leases_bm = replicate (pool_range start end) 0;
  available_addresses = (end + u32_mod - start + 1) % u32_mod;
  dhcp_option_override = opt_subnet_mask mask ∷ [];
}

-- Only an ascending range on the subnet is accepted, and the result is determined.
new-fresh :
    (name : String) (start end mask : ℕ) {p : AddressPool}
    → address_pool_new name start end mask ≡ some p
    → (start < end)
      × (can_range_be_on_subnet start end mask ≡ true)
      × (fresh name start end mask ≡ p)
unfolding address_pool_new dhcp_option_add dhcp_option_retrieve
new-fresh name start end mask made = ground arith

nothing_long : (bytes : List ℕ) → length bytes ≡ 0 → bytes ≡ []
nothing_long [] e = refl
nothing_long (b ∷ bytes) e = absurd (omega arith)

module _ (name : String) (start end mask : ℕ) (word : end + 1 < u32_mod) (up : start < end) where
  fresh_length : length (fresh name start end mask).leases_bm ≡ (end - start + 8) % u32_mod / 8
  unfolding pool_range
  fresh_length = rw length-replicate (omega arith)

  fresh-IsValid :
      size (fresh name start end mask) + 7 < u32_mod → IsValid (fresh name start end mask)
  fresh-IsValid small = record {
    ordered = omega arith;
    word = word;
    small = small;
    sized = omega (arith, fresh_length);
    bytes = All-replicate (λ b. b < 256) (pool_range start end) 0 (omega arith);
    counted = omega (arith, free_count-replicate (pool_range start end) (end - start + 1));
  }

  fresh_free :
      (a : ℕ)
      → address_pool_get_address_allocation (fresh name start end mask) a
        ≡ (if address_belongs_to_pool (fresh name start end mask) a then some 0 else none)
  fresh_free a = ground (
    arith,
    get_lem (fresh name start end mask) a,
    leased_at-replicate (pool_range start end) (a - start),
  )

module _ (name : String) (start end mask : ℕ) (word : end + 1 < u32_mod) {p : AddressPool}
    (made : address_pool_new name start end mask ≡ some p) where
  -- A new pool that ends before the last uint32_t is valid, every address of it reads as free
  -- and every other address as -1, if its size leaves room below 2 ^ 32 for the rounding of
  -- pool_range.
  pub new-IsValid :
      size p + 7 < u32_mod
      → IsValid p
        × ((a : ℕ)
            → address_pool_get_address_allocation p a
              ≡ (if address_belongs_to_pool p a then some 0 else none))
  new-IsValid small =
      let (up, on, e) = new-fresh name start end mask made in
      subst
        (λ q.
          size q + 7 < u32_mod
          → IsValid q
            × ((a : ℕ)
                → address_pool_get_address_allocation q a
                  ≡ (if address_belongs_to_pool q a then some 0 else none)))
        e
        (λ s. (fresh-IsValid name start end mask word up s, fresh_free name start end mask word up))
        small

  -- The bitmap of a new pool that ends before the last uint32_t has a bit for each address
  -- exactly if the size of the pool leaves room below 2 ^ 32 for the rounding. A pool of 2 ^ 32
  -- - 7 addresses or more gets an empty bitmap.
  pub new_bitmap :
      ((size p ≤ 8 * length p.leases_bm) ↔ (size p + 7 < u32_mod))
      × ((p.leases_bm ≡ []) ↔ (u32_mod - 7 ≤ size p))
  new_bitmap =
      let (up, on, e) = new-fresh name start end mask made in
      subst
        (λ q.
          ((size q ≤ 8 * length q.leases_bm) ↔ (size q + 7 < u32_mod))
          × ((q.leases_bm ≡ []) ↔ (u32_mod - 7 ≤ size q)))
        e
        (
          (
            λ h. omega (arith, fresh_length name start end mask word up),
            λ h. omega (arith, fresh_length name start end mask word up),
          ),
          (
            λ none_left.
                let empty : length (fresh name start end mask).leases_bm ≡ 0 =
                  ap length none_left in
                omega (arith, fresh_length name start end mask word up),
            λ h. nothing_long _ (omega (arith, fresh_length name start end mask word up)),
          ),
        )
