-- ===== src/Discover/Laws.antt =====
-- What the handler of DHCPDISCOVER (server/src/messages/dhcpdiscover.c) allocates and offers.
use mathlib.Core.Path.{subst}
use dhcpv4_server_with_gui_c.Prelude.{
  ℕ, ◌≡◌, ◌≢◌, ◌⊎◌, refl, sym, ap, ◌∙◌, inl, inr, Bool, true, false, Option, some, List, [], ◌∷◌,
  arith, ◌==◌, if◌then◌else◌, All, Bool-cases, Option-cases,
}
use dhcpv4_server_with_gui_c.Options.{read_u32, dhcp_option_retrieve}
use dhcpv4_server_with_gui_c.Allocator.{
  Allocator, allocator_is_address_available, allocator_request_this_address,
}
use dhcpv4_server_with_gui_c.Allocator.Address.{is_served, request-refines, request_unavailable}
use dhcpv4_server_with_gui_c.Allocator.Any.{IsDepleted, request_any-refines}
use dhcpv4_server_with_gui_c.Allocator.Apart.{IsSound, request-IsSound}
use dhcpv4_server_with_gui_c.Packet.{DhcpPacket, DhcpMessage, dhcp_message_new}
use dhcpv4_server_with_gui_c.Server.{Server}
use dhcpv4_server_with_gui_c.Answer.{Network, Sent, finished, reply}
use dhcpv4_server_with_gui_c.Answer.Laws.{IsDelivered, IsReply, answered, built-IsReply}
use dhcpv4_server_with_gui_c.Answer.Typed.{offer_byte}
use dhcpv4_server_with_gui_c.Answer.Headers.{offer_header, offer-IsDelivered}
use dhcpv4_server_with_gui_c.Discover.{
  allocate_particular_address, allocate_random_address, allocate_address, get_lease_duration,
  offer_address, message_dhcpdiscover_handle,
}

-- Address 0 is not available where no pool serves it.
nonzero :
    (a : Allocator) (x : ℕ)
    → is_served a 0 ≡ false
    → allocator_is_address_available a x ≡ true
    → x ≢ 0
unfolding allocator_is_address_available
nonzero a x h e = λ z. absurd (ground arith)

-- What allocate_address gives: 0 where every pool is depleted, with the allocator as it was; and
-- otherwise an address that was available, with the allocator as after a request for it.
abbrev IsAllocated : Allocator → Option (ℕ × Allocator) → Type 0
IsAllocated a r =
    (All IsDepleted a.address_pools × (r ≡ some (0, a)))
    ⊎ ((x : ℕ) × (allocator_is_address_available a x ≡ true)
        × (x ≢ 0)
        × (r ≡ some (x, (allocator_request_this_address a x).2)))

module _ (a : Allocator) (h : IsSound a) (unserved : is_served a 0 ≡ false) where
  random-IsAllocated : IsAllocated a (allocate_random_address a)
  unfolding allocate_random_address
  random-IsAllocated = elim (request_any-refines a h.valid h.apart) [
    | inl (spent, e) ↦ inl (spent, rw (allocate_random_address, e) refl)
    | inr (x, free, e) ↦
        let (granted, out, valid, free_after, used_after) = request-refines a x h.valid free in
        inr (x, free, nonzero a x unserved free, rw (allocate_random_address, e, out) refl)
  ]

  -- The call for option 50 fails, or gives an available address.
  particular :
      (m : DhcpMessage)
      → (allocate_particular_address a m ≡ (0, a))
        ⊎ ((x : ℕ) × (allocator_is_address_available a x ≡ true)
            × (x ≢ 0)
            × (allocate_particular_address a m ≡ (x, (allocator_request_this_address a x).2)))
  unfolding allocate_particular_address
  particular m = elim (Option-cases (dhcp_option_retrieve m.dhcp_options 50)) [
    | inl absent ↦ inl (rw (allocate_particular_address, absent) refl)
    | inr (o50, e) ↦
        let x = read_u32 o50.value in
        elim (Bool-cases (allocator_is_address_available a x)) [
          | inr out ↦ inl (rw (allocate_particular_address, e, request_unavailable a x out) refl)
          | inl free ↦
              let (granted, out, valid, free_after, used_after) =
                request-refines a x h.valid free in
              inr
                (x, free, nonzero a x unserved free, rw (allocate_particular_address, e, out) refl)
        ]
  ]

  pub allocate-IsAllocated : (m : DhcpMessage) → IsAllocated a (allocate_address a m)
  unfolding allocate_address
  allocate-IsAllocated m = elim (particular m) [
    | inl e ↦ rw (allocate_address, e) random-IsAllocated
    | inr (x, free, positive, e) ↦
        let other : (x == 0) ≡ false = ground arith in
        inr (x, free, positive, rw (allocate_address, e, other) refl)
  ]

pub offered-IsDelivered :
    (net : Network) (server : Server) (m : DhcpMessage) (x now : ℕ)
    → IsDelivered net server
        (offer_header net m x)
        2
        net.broadcast_addr
        now
        (offer_address net server m x now)
unfolding offer_address
offered-IsDelivered net server m x now = elim (Bool-cases (x == 0)) [
  | inl absent ↦ rw (offer_address, absent) (inl (refl, refl, refl))
  | inr given ↦ elim (Bool-cases (get_lease_duration server.allocator m == 0)) [
    | inl unset ↦ rw (offer_address, given, unset) (inl (refl, refl, refl))
    | inr set ↦
        rw (offer_address, given, set)
          (offer-IsDelivered net server m x (get_lease_duration server.allocator m) now)
  ]
]

pub handled :
    (net : Network) (server : Server) (m : DhcpMessage) (now x : ℕ) (a : Allocator)
    → allocate_address server.allocator m ≡ some (x, a)
    → message_dhcpdiscover_handle net server m now
      ≡ offer_address net (record server { allocator = a }) m x now
unfolding message_dhcpdiscover_handle
handled net server m now x a e = rw (message_dhcpdiscover_handle, e) refl

-- An answer of the handler: nothing, or one packet to everybody, a DHCPOFFER of the address
abbrev pub IsOffer : Network → DhcpMessage → ℕ → Bool → List Sent → Type 0
IsOffer net m x done sent =
    ((done ≡ false) × (sent ≡ []))
    ⊎ ((p : DhcpPacket) × (sent ≡ record { packet = p; to = net.broadcast_addr } ∷ [])
        × IsReply 2 m.xid x p)

offered :
    (net : Network) (server : Server) (m : DhcpMessage) (x now : ℕ) (done : Bool) (after : Server)
    (sent : List Sent)
    → IsDelivered net server
        (offer_header net m x)
        2
        net.broadcast_addr
        now
        (finished done after sent)
    → (after.allocator ≡ server.allocator)
      × (after.files ≡ server.files)
      × IsOffer net m x done sent
unfolding reply dhcp_message_new
offered net server m x now done after sent (inl (d, same, s)) =
    (ap (λ (s : Server). s.allocator) same, ap (λ (s : Server). s.files) same, inl (d, s))
offered net server m x now done after sent (inr (os, typed, magic, s, d, same)) = (
  ap (λ (s : Server). s.allocator) same,
  ap (λ (s : Server). s.files) same,
  inr (
    (answered (offer_header net m x) os).packet,
    s,
    built-IsReply (offer_header net m x) os 2 refl refl magic offer_byte typed,
  ),
)

-- With valid pools that share no address, none of them serving 0, a DHCPDISCOVER that is handled
-- to the end leaves the leases alone, and does one of two things. Either every pool is depleted,
-- nothing changes and nothing is sent. Or an address that was available, and no other, is taken,
-- and either nothing is sent and the handler fails, or one packet is sent to the broadcast address:
-- a BOOTREPLY with the magic cookie, the transaction's xid and that very address as its yiaddr,
-- whose options begin with the message type DHCPOFFER.
pub discover_offers :
    (net : Network) (server : Server) (m : DhcpMessage) (now : ℕ) (done : Bool) (after : Server)
    (sent : List Sent)
    → IsSound server.allocator
    → is_served server.allocator 0 ≡ false
    → message_dhcpdiscover_handle net server m now ≡ finished done after sent
    → (All IsDepleted server.allocator.address_pools
        × (done ≡ false)
        × (after ≡ server)
        × (sent ≡ []))
      ⊎ ((x : ℕ) × (allocator_is_address_available server.allocator x ≡ true)
          × IsSound after.allocator
          × (after.files ≡ server.files)
          × ((b : ℕ)
              → allocator_is_address_available after.allocator b
                ≡ (if x == b then false else allocator_is_address_available server.allocator b))
          × IsOffer net m x done sent)
unfolding offer_address
discover_offers net server m now done after sent h unserved e =
    elim (allocate-IsAllocated server.allocator h unserved m) [
      | inl (spent, none_left) ↦
          let ended : finished false server [] ≡ finished done after sent =
            sym (handled net server m now 0 server.allocator none_left) ∙ e in
          inl (spent, ground arith, ground arith, ground arith)
      | inr (x, free, positive, taken) ↦
          let next = (allocator_request_this_address server.allocator x).2 in
          let given = record server { allocator = next } in
          let (granted, out, valid, free_after, used_after) =
            request-refines server.allocator x h.valid free in
          let (same, files, offer) = offered net given m x now done after sent (
            subst (IsDelivered net given (offer_header net m x) 2 net.broadcast_addr now)
              (sym (handled net server m now x next taken) ∙ e)
              (offered-IsDelivered net given m x now)) in
          inr (
            x,
            free,
            subst IsSound (sym same) (request-IsSound server.allocator x h),
            files,
            (λ b. ap (λ a. allocator_is_address_available a b) same ∙ free_after b),
            offer,
          )
    ]
