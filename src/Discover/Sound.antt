-- ===== src/Discover/Sound.antt =====
-- The handler of DHCPDISCOVER (server/src/messages/dhcpdiscover.c) ends, and leaves a sound server.
use dhcpv4_server_with_gui_c.Prelude.{
  ℕ, ◌≡◌, refl, inl, inr, Option, some, ◌==◌, Bool-cases, Option-cases,
}
use dhcpv4_server_with_gui_c.Options.{read_u32, dhcp_option_retrieve}
use dhcpv4_server_with_gui_c.Allocator.{Allocator, allocator_request_this_address}
use dhcpv4_server_with_gui_c.Allocator.Any.{request_any-refines}
use dhcpv4_server_with_gui_c.Allocator.Apart.{IsSound, request-IsSound}
use dhcpv4_server_with_gui_c.Packet.{DhcpMessage}
use dhcpv4_server_with_gui_c.Server.{Server}
use dhcpv4_server_with_gui_c.Server.Invariant.{IsServing, with_allocator}
use dhcpv4_server_with_gui_c.Answer.{Network}
use dhcpv4_server_with_gui_c.Answer.Laws.{Keeps, delivered-Keeps}
use dhcpv4_server_with_gui_c.Answer.Headers.{offer_header}
use dhcpv4_server_with_gui_c.Discover.Laws.{handled, offered-IsDelivered}
use dhcpv4_server_with_gui_c.Discover.{
  allocate_particular_address, allocate_random_address, allocate_address, offer_address,
  set_or_zero, message_dhcpdiscover_handle,
}

-- An allocation ends, with a sound allocator.
abbrev EndsSound : Option (ℕ × Allocator) → Type 0
EndsSound r = (x : ℕ) × (a : Allocator) × (r ≡ some (x, a)) × IsSound a

random-EndsSound : (a : Allocator) → IsSound a → EndsSound (allocate_random_address a)
unfolding allocate_random_address
random-EndsSound a h = elim (request_any-refines a h.valid h.apart) [
  | inl (spent, e) ↦ (0, a, rw (allocate_random_address, e) refl, h)
  | inr (x, free, e) ↦
      let (rv, out, next) = allocator_request_this_address a x in
      (set_or_zero out, next, rw (allocate_random_address, e) refl, request-IsSound a x h)
]

particular-IsSound :
    (a : Allocator) (m : DhcpMessage) → IsSound a → IsSound (allocate_particular_address a m).1
unfolding allocate_particular_address
particular-IsSound a m h = elim (Option-cases (dhcp_option_retrieve m.dhcp_options 50)) [
  | inl absent ↦ rw (allocate_particular_address, absent) h
  | inr (o50, e) ↦ rw (allocate_particular_address, e) (request-IsSound a (read_u32 o50.value) h)
]

allocate-EndsSound :
    (a : Allocator) (m : DhcpMessage) → IsSound a → EndsSound (allocate_address a m)
unfolding allocate_address
allocate-EndsSound a m h =
    let next = particular-IsSound a m h in
    elim (Bool-cases ((allocate_particular_address a m).0 == 0)) [
      | inl absent ↦
          rw (allocate_address, absent) (random-EndsSound (allocate_particular_address a m).1 next)
      | inr given ↦ (
        (allocate_particular_address a m).0,
        (allocate_particular_address a m).1,
        rw (allocate_address, given) refl,
        next,
      )
    ]

pub discover-Keeps :
    (net : Network) (server : Server) (m : DhcpMessage) (now : ℕ)
    → IsServing server
    → Keeps (message_dhcpdiscover_handle net server m now)
discover-Keeps net server m now h =
    let (x, a, e, sound) = allocate-EndsSound server.allocator m h.allocator in
    let next = record server { allocator = a } in
    rw (handled net server m now x a e) (
      delivered-Keeps net next (offer_header net m x) 2 net.broadcast_addr now
        (offer_address net next m x now) (with_allocator server a h sound)
        (offered-IsDelivered net next m x now))
