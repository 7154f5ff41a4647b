-- ===== src/Request/Sound.antt =====
-- The handler of DHCPREQUEST (server/src/messages/dhcprequest.c) ends or reads through a null
-- pointer, and leaves a sound server.
use dhcpv4_server_with_gui_c.Prelude.{
  ℕ, inl, inr, Bool, true, ◌&&◌, Option, none, some, List, ◌==◌, Bool-cases, Option-cases, if_split,
  [],
}
use dhcpv4_server_with_gui_c.Options.{DhcpOption, read_u32, dhcp_option_retrieve}
use dhcpv4_server_with_gui_c.Allocator.{
  allocator_get_pool_by_address, allocator_is_address_available,
}
use dhcpv4_server_with_gui_c.Packet.{DhcpMessage}
use dhcpv4_server_with_gui_c.Acl.{memcmp_eq}
use dhcpv4_server_with_gui_c.Lease.{Lease, lease_retrieve_address, lease_remove}
use dhcpv4_server_with_gui_c.Server.{Server, is_removed}
use dhcpv4_server_with_gui_c.Server.Invariant.{IsServing, with_files}
use dhcpv4_server_with_gui_c.Answer.{
  Network, Outcome, finished, crashed, hung, message_dhcpnak_build, message_dhcpack_build,
}
use dhcpv4_server_with_gui_c.Answer.Laws.{Keeps, delivered-Keeps}
use dhcpv4_server_with_gui_c.Answer.Headers.{
  ack_header, nak_header, ack_target, ack-IsDelivered, renew-IsDelivered, nak-IsDelivered,
}
use dhcpv4_server_with_gui_c.Request.{
  RequestStatus, commit_error, invalid, error, ok, different_server_identificator, is_negative,
  dhcp_requst_commit_lease, validate_client_id_and_requested_params, retrieve_client_address,
  retrieve_lease_time, commit_timed, commit_requested, dhcp_request_response_to_offer, renew_timed,
  renew_found, dhcp_request_renew_lease, returns_ok, answer_request, respond, answer_renewal,
  renew_and_answer, message_dhcprequest_handle,
}

-- A result with a server, where there is one, has a sound one.
abbrev HasSound {ℓ} : {A : Type ℓ} → Option (A × Server) → Type 0
HasSound none = Unit
HasSound (some (a, s)) = IsServing s

commit-IsServing :
    (s : Server) (m : DhcpMessage) (time addr now : ℕ)
    → IsServing s
    → IsServing (dhcp_requst_commit_lease s m time addr now).1
unfolding dhcp_requst_commit_lease
commit-IsServing s m time addr now h =
    elim (Option-cases (allocator_get_pool_by_address s.allocator addr)) [
      | inl absent ↦ rw (dhcp_requst_commit_lease, absent) h
      | inr (pool, e) ↦ rw (dhcp_requst_commit_lease, e) (with_files s _ h)
    ]

timed-HasSound :
    (s : Server) (m : DhcpMessage) (addr now : ℕ) (time : Option ℕ)
    → IsServing s
    → HasSound (commit_timed s m addr now time)
unfolding commit_timed
timed-HasSound s m addr now none h = tt
timed-HasSound s m addr now (some time) h =
    let committed = commit-IsServing s m time addr now h in
    elim (Bool-cases (time == 0)) [
      | inl unset ↦ rw (commit_timed, unset) h
      | inr set ↦ elim (Bool-cases (is_negative (dhcp_requst_commit_lease s m time addr now).0)) [
        | inl fails ↦ rw (commit_timed, set, fails) committed
        | inr done ↦ rw (commit_timed, set, done) committed
      ]
    ]

requested-HasSound :
    (s : Server) (m : DhcpMessage) (addr now : ℕ)
    → IsServing s
    → HasSound (commit_requested s m addr now)
unfolding commit_requested
requested-HasSound s m addr now h =
    if_split (HasSound {A = RequestStatus}) (addr == 0) (some (invalid, s)) _ (λ unnamed. h)
      (λ named.
        if_split (HasSound {A = RequestStatus}) (allocator_is_address_available s.allocator addr)
          (some (invalid, s)) _ (λ free. h)
          (λ used. timed-HasSound s m addr now (retrieve_lease_time addr s.allocator) h))

response-HasSound :
    (net : Network) (s : Server) (m : DhcpMessage) (o54 : DhcpOption) (stale : List DhcpOption)
    (now : ℕ)
    → IsServing s
    → HasSound (dhcp_request_response_to_offer net s m o54 stale now)
unfolding dhcp_request_response_to_offer
response-HasSound net s m o54 stale now h = elim (Bool-cases (read_u32 o54.value == net.bound_ip)) [
  | inr other ↦ rw (dhcp_request_response_to_offer, other) h
  | inl ours ↦
      elim (Bool-cases (
        m.ciaddr == 0
        && (m.yiaddr == 0 && validate_client_id_and_requested_params s.trans_cache m stale))) [
          | inl valid ↦
              rw (dhcp_request_response_to_offer, ours, valid)
                (requested-HasSound s m (retrieve_client_address m s.trans_cache) now h)
          | inr refused ↦ rw (dhcp_request_response_to_offer, ours, refused) h
        ]
]

renewal-HasSound :
    (s : Server) (lease : Lease) (now : ℕ) (time : Option ℕ)
    → IsServing s
    → HasSound (renew_timed s lease now time)
unfolding renew_timed
renewal-HasSound s lease now none h = tt
renewal-HasSound s lease now (some time) h = with_files s _ h

found-HasSound :
    (s : Server) (m : DhcpMessage) (lease : Lease) (now : ℕ)
    → IsServing s
    → HasSound (renew_found s m lease now)
unfolding renew_found
found-HasSound s m lease now h = elim (Bool-cases (memcmp_eq 6 lease.client_mac_address m.chaddr)) [
  | inr stranger ↦ rw (renew_found, stranger) h
  | inl own ↦ elim (Bool-cases (is_removed (lease_remove s.files lease).0)) [
    | inr kept ↦ rw (renew_found, own, kept) (with_files s _ h)
    | inl gone ↦
        rw (renew_found, own, gone)
          (renewal-HasSound (record s { files = (lease_remove s.files lease).1 }) lease now _
            (with_files s _ h))
  ]
]

renew-HasSound :
    (s : Server) (m : DhcpMessage) (now : ℕ)
    → IsServing s
    → HasSound (dhcp_request_renew_lease s m now)
unfolding dhcp_request_renew_lease
renew-HasSound s m now h = elim (Bool-cases (m.ciaddr == 0)) [
  | inl unnamed ↦ rw (dhcp_request_renew_lease, unnamed) h
  | inr named ↦
      elim (Option-cases (lease_retrieve_address s.files m.ciaddr s.allocator.address_pools).1) [
        | inl absent ↦ rw (dhcp_request_renew_lease, named, absent) h
        | inr (lease, e) ↦ rw (dhcp_request_renew_lease, named, e) (found-HasSound s m lease now h)
      ]
]

nak-Keeps :
    (net : Network) (s : Server) (m : DhcpMessage) (now : ℕ)
    → IsServing s
    → Keeps (message_dhcpnak_build net s m now)
nak-Keeps net s m now h =
    delivered-Keeps net s (nak_header m) 6 net.broadcast_addr now _ h (nak-IsDelivered net s m now)

returns_ok-Keeps : (r : Outcome) → Keeps r → Keeps (returns_ok r)
unfolding returns_ok
returns_ok-Keeps (finished done after sent) k = k
returns_ok-Keeps crashed k = k
returns_ok-Keeps hung k = k

answer-Keeps :
    (net : Network) (s : Server) (m : DhcpMessage) (o54 : DhcpOption) (now : ℕ)
    → IsServing s
    → Keeps (answer_request net s m o54 now)
unfolding answer_request
answer-Keeps net s m o54 now h = elim (Option-cases (dhcp_option_retrieve m.dhcp_options 50)) [
  | inl absent ↦ rw (answer_request, absent) tt
  | inr (o50, e) ↦
      rw (answer_request, e)
        (returns_ok-Keeps
          (message_dhcpack_build net s m (read_u32 o54.value) (read_u32 o50.value) now)
          (delivered-Keeps net s (ack_header net m (read_u32 o50.value) m.giaddr) 5
            (ack_target net m) now _ h
            (ack-IsDelivered net s m (read_u32 o54.value) (read_u32 o50.value) now)))
]

respond-Keeps :
    (net : Network) (m : DhcpMessage) (o54 : DhcpOption) (now : ℕ)
    (r : Option (RequestStatus × Server))
    → HasSound r
    → Keeps (respond net m o54 now r)
unfolding respond
respond-Keeps net m o54 now none h = tt
respond-Keeps net m o54 now (some (ok, s)) h = answer-Keeps net s m o54 now h
respond-Keeps net m o54 now (some (different_server_identificator, s)) h = h
respond-Keeps net m o54 now (some (commit_error, s)) h = nak-Keeps net s m now h
respond-Keeps net m o54 now (some (invalid, s)) h = nak-Keeps net s m now h
respond-Keeps net m o54 now (some (error, s)) h = nak-Keeps net s m now h

renewed-Keeps :
    (net : Network) (m : DhcpMessage) (now : ℕ) (r : Option (Bool × Server))
    → HasSound r
    → Keeps (answer_renewal net m now r)
unfolding answer_renewal
renewed-Keeps net m now none h = tt
renewed-Keeps net m now (some (done, s)) h =
    delivered-Keeps net s (ack_header net m m.ciaddr 0) 5 (ack_target net m) now _ h
      (renew-IsDelivered net s m now)

renewal-Keeps :
    (net : Network) (s : Server) (m : DhcpMessage) (now : ℕ)
    → IsServing s
    → Keeps (renew_and_answer net s m now)
unfolding renew_and_answer
renewal-Keeps net s m now h =
    if_split Keeps (m.ciaddr == 0) (finished true s []) _ (λ unnamed. h)
      (λ named.
        renewed-Keeps net m now (dhcp_request_renew_lease s m now) (renew-HasSound s m now h))

pub request-Keeps :
    (net : Network) (s : Server) (m : DhcpMessage) (stale : List DhcpOption) (now : ℕ)
    → IsServing s
    → Keeps (message_dhcprequest_handle net s m stale now)
unfolding message_dhcprequest_handle
request-Keeps net s m stale now h = elim (Option-cases (dhcp_option_retrieve m.dhcp_options 54)) [
  | inl absent ↦ rw (message_dhcprequest_handle, absent) (renewal-Keeps net s m now h)
  | inr (o54, e) ↦
      rw (message_dhcprequest_handle, e)
        (respond-Keeps net m o54 now (dhcp_request_response_to_offer net s m o54 stale now)
          (response-HasSound net s m o54 stale now h))
]
