-- ===== src/Serve/Dispatch.antt =====
-- Every handler that dhcp_server_serve (server/src/dhcp_server.c) dispatches to leaves a sound
-- server.
use dhcpv4_server_with_gui_c.Prelude.{ℕ, inl, inr, List, ◌==◌, Bool-cases, Option-cases, if_split}
use dhcpv4_server_with_gui_c.Options.{DhcpOption}
use dhcpv4_server_with_gui_c.Allocator.{allocator_is_address_available}
use dhcpv4_server_with_gui_c.Allocator.Apart.{request-IsSound, release-IsSound}
use dhcpv4_server_with_gui_c.Packet.{DhcpMessage}
use dhcpv4_server_with_gui_c.Lease.{lease_retrieve_address, lease_remove}
use dhcpv4_server_with_gui_c.TransCache.{trans_cache_retrieve_message_last}
use dhcpv4_server_with_gui_c.Server.{
  Server, is_removed, message_dhcprelease_handle, message_dhcpdecline_handle,
}
use dhcpv4_server_with_gui_c.Server.Invariant.{IsServing, with_allocator, with_files}
use dhcpv4_server_with_gui_c.Answer.{Network}
use dhcpv4_server_with_gui_c.Answer.Laws.{Keeps, delivered-Keeps}
use dhcpv4_server_with_gui_c.Answer.Headers.{inform_header, ack_target, inform-IsDelivered}
use dhcpv4_server_with_gui_c.Answer.{message_dhcpinform_handle}
use dhcpv4_server_with_gui_c.Discover.Sound.{discover-Keeps}
use dhcpv4_server_with_gui_c.Request.Sound.{request-Keeps}
use dhcpv4_server_with_gui_c.Serve.{quiet, dispatch}

decline-Keeps :
    (s : Server) (m : DhcpMessage) → IsServing s → Keeps (quiet (message_dhcpdecline_handle s m))
unfolding message_dhcpdecline_handle
decline-Keeps s m h =
    elim (Option-cases (trans_cache_retrieve_message_last s.trans_cache m.xid 5)) [
      | inl absent ↦ rw (message_dhcpdecline_handle, absent) h
      | inr (ack, e) ↦ elim (Bool-cases (ack.yiaddr == 0)) [
        | inl unnamed ↦ rw (message_dhcpdecline_handle, e, unnamed) h
        | inr named ↦ elim (Bool-cases (allocator_is_address_available s.allocator ack.yiaddr)) [
          | inr used ↦ rw (message_dhcpdecline_handle, e, named, used) h
          | inl free ↦
              rw (message_dhcpdecline_handle, e, named, free)
                (with_allocator s _ h (request-IsSound s.allocator ack.yiaddr h.allocator))
        ]
      ]
    ]

release-Keeps :
    (s : Server) (m : DhcpMessage) → IsServing s → Keeps (quiet (message_dhcprelease_handle s m))
unfolding message_dhcprelease_handle
release-Keeps s m h = elim (Bool-cases (m.ciaddr == 0)) [
  | inl unnamed ↦ rw (message_dhcprelease_handle, unnamed) h
  | inr named ↦
      elim (Option-cases (lease_retrieve_address s.files m.ciaddr s.allocator.address_pools).1) [
        | inl absent ↦ rw (message_dhcprelease_handle, named, absent) h
        | inr (lease, e) ↦
            let kept = with_files s (lease_remove s.files lease).1 h in
            elim (Bool-cases (is_removed (lease_remove s.files lease).0)) [
              | inr no_lease ↦ rw (message_dhcprelease_handle, named, e, no_lease) kept
              | inl gone ↦
                  rw (message_dhcprelease_handle, named, e, gone)
                    (with_allocator _ _ kept
                      (release-IsSound s.allocator lease.address h.allocator))
            ]
      ]
]

inform-Keeps :
    (net : Network) (s : Server) (m : DhcpMessage) (now : ℕ)
    → IsServing s
    → Keeps (message_dhcpinform_handle net s m now)
unfolding message_dhcpinform_handle
inform-Keeps net s m now h =
    delivered-Keeps net s (inform_header net m) 5 (ack_target net m) now _ h
      (inform-IsDelivered net s m now)

pub dispatch-Keeps :
    (net : Network) (s : Server) (m : DhcpMessage) (stale : List DhcpOption) (now : ℕ)
    → IsServing s
    → Keeps (dispatch net s m stale now)
unfolding dispatch
dispatch-Keeps net s m stale now h =
    if_split Keeps (m.type == 1) _ _ (λ e. discover-Keeps net s m now h)
      (λ e.
        if_split Keeps (m.type == 3) _ _ (λ e. request-Keeps net s m stale now h)
          (λ e.
            if_split Keeps (m.type == 4) _ _ (λ e. decline-Keeps s m h)
              (λ e.
                if_split Keeps (m.type == 8) _ _ (λ e. inform-Keeps net s m now h)
                  (λ e. if_split Keeps (m.type == 7) _ _ (λ e. release-Keeps s m h) (λ e. h)))))
