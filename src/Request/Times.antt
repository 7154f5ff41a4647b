-- ===== src/Request/Times.antt =====
-- What server/src/messages/dhcprequest.c reads out of options: the lease time of an address, and
-- whether a request agrees with the DHCPDISCOVER before it.
use dhcpv4_server_with_gui_c.Prelude.{
  ℕ, zero, suc, ◌≡◌, ◌≢◌, ◌⊎◌, ◌∙◌, refl, sym, ap, inl, inr, Bool, true, false, ◌&&◌, none, some,
  List, [], ◌∷◌, ◌==◌, arith, take, Option-cases, ==_iff,
}
use dhcpv4_server_with_gui_c.Options.{DhcpOption, read_u32, dhcp_option_retrieve}
use dhcpv4_server_with_gui_c.Pool.{AddressPool}
use dhcpv4_server_with_gui_c.Allocator.{Allocator, find_pool, allocator_get_pool_by_address}
use dhcpv4_server_with_gui_c.Packet.{DhcpMessage}
use dhcpv4_server_with_gui_c.Transaction.{Transaction}
use dhcpv4_server_with_gui_c.TransCache.{trans_cache_retrieve_message}
use dhcpv4_server_with_gui_c.Acl.{memcmp_eq}
use dhcpv4_server_with_gui_c.Request.{
  compare_option, is_same_option, validate_client_id_and_requested_params, retrieve_lease_time,
}

-- The number in the option 51 of a list, if there is one
abbrev ReadsTime : List DhcpOption → ℕ → Type 0
ReadsTime os time =
    (o51 : DhcpOption) × (dhcp_option_retrieve os 51 ≡ some o51) × (read_u32 o51.value ≡ time)

-- The lease time in a pool: the number in the pool's option 51, or where it has none in the global
-- one, or 0 where there is neither
abbrev pub LastsFor : Allocator → AddressPool → ℕ → Type 0
LastsFor a p time =
    ReadsTime p.dhcp_option_override time
    ⊎ ((dhcp_option_retrieve p.dhcp_option_override 51 ≡ none)
        × (ReadsTime a.default_options time
            ⊎ ((dhcp_option_retrieve a.default_options 51 ≡ none) × (time ≡ 0))))

pub lease_time-LastsFor :
    (a : Allocator) (p : AddressPool) (addr time : ℕ)
    → find_pool a.address_pools addr ≡ some p
    → addr ≢ 0
    → retrieve_lease_time addr a ≡ some time
    → LastsFor a p time
unfolding retrieve_lease_time allocator_get_pool_by_address
lease_time-LastsFor a p addr time served named e =
    let other : (addr == 0) ≡ false = ground arith in
    elim (Option-cases (dhcp_option_retrieve p.dhcp_option_override 51)) [
      | inr (o, found) ↦
          let read : some (read_u32 o.value) ≡ some time =
            sym (rw (retrieve_lease_time, other, served, found) refl) ∙ e in
          inl (o, found, ground arith)
      | inl own_none ↦ elim (Option-cases (dhcp_option_retrieve a.default_options 51)) [
        | inr (o, found) ↦
            let read : some (read_u32 o.value) ≡ some time =
              sym (rw (retrieve_lease_time, other, served, own_none, found) refl) ∙ e in
            inr (own_none, inl (o, found, ground arith))
        | inl none_too ↦
            let read : some 0 ≡ some time =
              sym (rw (retrieve_lease_time, other, served, own_none, none_too) refl) ∙ e in
            inr (own_none, inr (none_too, ground arith))
      ]
    ]

pub memcmp-take : (n : ℕ) (a b : List ℕ) → memcmp_eq n a b ≡ true → take n a ≡ take n b
unfolding memcmp_eq
memcmp-take zero a b e = refl
memcmp-take (suc n) [] b e = absurd (ground arith)
memcmp-take (suc n) (x ∷ a) [] e = absurd (ground arith)
memcmp-take (suc n) (x ∷ a) (y ∷ b) e =
    let (first, rest) = both (x == y) (memcmp_eq n a b) e in
    ap (λ z. z ∷ take n a) ((==_iff x y).0 first) ∙ ap (◌∷◌ y) (memcmp-take n a b rest)
  where
    both : (p q : Bool) → (p && q) ≡ true → (p ≡ true) × (q ≡ true)
    both p q h = ground arith

-- Two options with the same bytes, over the length of the first
abbrev pub IsSame : DhcpOption → DhcpOption → Type 0
IsSame own other = take own.lenght own.value ≡ take own.lenght other.value

memcmp-IsSame : (own other : DhcpOption) → is_same_option own other ≡ true → IsSame own other
unfolding is_same_option
memcmp-IsSame own other e = memcmp-take own.lenght own.value other.value e

-- A request agrees with what the option list of the DHCPDISCOVER reads as: the cache has a
-- DHCPDISCOVER of the request's xid, the client identifiers are the same where both are there, and
-- both have a list of requested parameters, and the same one.
abbrev pub Agrees : List Transaction → DhcpMessage → List DhcpOption → Type 0
Agrees cache m stale =
    ((discover : DhcpMessage) × (trans_cache_retrieve_message cache m.xid 1 ≡ some discover))
    × ((own other : DhcpOption)
        → dhcp_option_retrieve m.dhcp_options 61 ≡ some own
        → dhcp_option_retrieve stale 61 ≡ some other
        → IsSame own other)
    × ((own : DhcpOption) × (other : DhcpOption) × (dhcp_option_retrieve m.dhcp_options 55
          ≡ some own)
        × (dhcp_option_retrieve stale 55 ≡ some other)
        × IsSame own other)

compared_optional :
    (ours theirs : List DhcpOption) (tag : ℕ) (own other : DhcpOption)
    → compare_option ours theirs tag true ≡ true
    → dhcp_option_retrieve ours tag ≡ some own
    → dhcp_option_retrieve theirs tag ≡ some other
    → IsSame own other
unfolding compare_option
compared_optional ours theirs tag own other e a b =
    memcmp-IsSame own other (sym (rw (compare_option, a, b) refl) ∙ e)

compared_required :
    (ours theirs : List DhcpOption) (tag : ℕ)
    → compare_option ours theirs tag false ≡ true
    → (own : DhcpOption) × (other : DhcpOption) × (dhcp_option_retrieve ours tag ≡ some own)
      × (dhcp_option_retrieve theirs tag ≡ some other)
      × IsSame own other
unfolding compare_option
compared_required ours theirs tag e = elim (Option-cases (dhcp_option_retrieve ours tag)) [
  | inl absent ↦
      let clash : false ≡ true = sym (rw (compare_option, absent) refl) ∙ e in absurd (ground arith)
  | inr (own, a) ↦ elim (Option-cases (dhcp_option_retrieve theirs tag)) [
    | inl absent ↦
        let clash : false ≡ true = sym (rw (compare_option, a, absent) refl) ∙ e in
        absurd (ground arith)
    | inr (other, b) ↦
        (own, other, a, b, memcmp-IsSame own other (sym (rw (compare_option, a, b) refl) ∙ e))
  ]
]

pub validate-Agrees :
    (cache : List Transaction) (m : DhcpMessage) (stale : List DhcpOption)
    → validate_client_id_and_requested_params cache m stale ≡ true
    → Agrees cache m stale
unfolding validate_client_id_and_requested_params
validate-Agrees cache m stale e = elim (Option-cases (trans_cache_retrieve_message cache m.xid 1)) [
  | inl absent ↦
      let clash : false ≡ true =
        sym (rw (validate_client_id_and_requested_params, absent) refl) ∙ e in
      absurd (ground arith)
  | inr (discover, found) ↦
      let (ids, params) =
        both (compare_option m.dhcp_options stale 61 true)
          (compare_option m.dhcp_options stale 55 false)
          (sym (rw (validate_client_id_and_requested_params, found) refl) ∙ e) in
      (
        (discover, found),
        λ own other a b. compared_optional m.dhcp_options stale 61 own other ids a b,
        compared_required m.dhcp_options stale 55 params,
      )
]
  where
    both : (p q : Bool) → (p && q) ≡ true → (p ≡ true) × (q ≡ true)
    both p q h = ground arith
