-- ===== src/Request.antt =====
-- server/src/messages/dhcprequest.h and server/src/messages/dhcprequest.c: the handler of
-- DHCPREQUEST. The option list of a DHCPDISCOVER that is in the cache belongs to the message that
-- the server receives into, and is freed when the next packet is parsed: what the freed memory
-- reads as is a parameter, `stale`.
pub mod Times
pub mod Laws
pub mod Commit
pub mod Renewal
pub mod Sound
use dhcpv4_server_with_gui_c.Prelude.{
  ℕ, zero, suc, ◌+◌, ◌%◌, Bool, true, false, ◌&&◌, Option, none, some, List, [], ◌∷◌, ◌==◌,
  if◌then◌else◌, take,
}
use dhcpv4_server_with_gui_c.Options.{DhcpOption, read_u32, dhcp_option_retrieve}
use dhcpv4_server_with_gui_c.Pool.{u32_mod}
use dhcpv4_server_with_gui_c.Allocator.{
  Allocator, allocator_get_pool_by_address, allocator_is_address_available,
}
use dhcpv4_server_with_gui_c.Packet.{DhcpMessage}
use dhcpv4_server_with_gui_c.Transaction.{Transaction}
use dhcpv4_server_with_gui_c.TransCache.{trans_cache_retrieve_message}
use dhcpv4_server_with_gui_c.Acl.{memcmp_eq}
use dhcpv4_server_with_gui_c.Lease.{
  Lease, LeaseFiles, LeaseStatus, lease_retrieve_address, lease_add, lease_remove,
}
use dhcpv4_server_with_gui_c.Server.{Server, is_removed}
use dhcpv4_server_with_gui_c.Answer.{
  Network, Outcome, finished, crashed, hung, message_dhcpack_build,
  message_dhcpack_build_lease_renew, message_dhcpnak_build,
}

-- The enumeration of dhcprequest.h
pub data RequestStatus : Type 0 where
  commit_error invalid error ok different_server_identificator : RequestStatus

unfoldable pub is_negative : RequestStatus → Bool
is_negative commit_error = true
is_negative invalid = true
is_negative error = true
is_negative ok = false
is_negative different_server_identificator = false

-- lease_add does not fail here.
unfoldable pub dhcp_requst_commit_lease : Server → DhcpMessage → ℕ → ℕ → ℕ → RequestStatus × Server
unfolding allocator_get_pool_by_address lease_add
dhcp_requst_commit_lease server request lease_time leased_address now =
    elim (allocator_get_pool_by_address server.allocator leased_address) [
      | none ↦ (commit_error, server)
      | some pool ↦
          let lease : Lease = record {
            address = leased_address;
            subnet = pool.mask;
            pool_name = pool.name;
            lease_start = now;
            lease_expire = (now + lease_time) % u32_mod;
            xid = request.xid;
            flags = 0;
            client_mac_address = take 6 request.chaddr;
          } in
          (ok, record server { files = (lease_add server.files lease).1 })
    ]

-- memcmp over the length of the request's option, both of them present
unfoldable pub is_same_option : DhcpOption → DhcpOption → Bool
unfolding memcmp_eq
is_same_option ours theirs = memcmp_eq ours.lenght ours.value theirs.value

-- Absence of either option counts as `otherwise`.
unfoldable pub compare_option : List DhcpOption → List DhcpOption → ℕ → Bool → Bool
unfolding dhcp_option_retrieve is_same_option
compare_option ours theirs tag otherwise = elim (dhcp_option_retrieve ours tag) [
  | none ↦ otherwise
  | some own ↦ elim (dhcp_option_retrieve theirs tag) [
    | none ↦ otherwise
    | some other ↦ is_same_option own other
  ]
]

unfoldable pub validate_client_id_and_requested_params :
    List Transaction → DhcpMessage → List DhcpOption → Bool
unfolding trans_cache_retrieve_message compare_option
validate_client_id_and_requested_params cache request stale =
    elim (trans_cache_retrieve_message cache request.xid 1) [
      | none ↦ false
      | some discover ↦
          compare_option request.dhcp_options stale 61 true
          && compare_option request.dhcp_options stale 55 false
    ]

-- 0 is no address.
unfoldable pub retrieve_client_address : DhcpMessage → List Transaction → ℕ
unfolding dhcp_option_retrieve trans_cache_retrieve_message read_u32
retrieve_client_address request cache = elim (dhcp_option_retrieve request.dhcp_options 50) [
  | some o50 ↦ read_u32 o50.value
  | none ↦ elim (trans_cache_retrieve_message cache request.xid 2) [
    | none ↦ 0
    | some offer ↦ elim (dhcp_option_retrieve offer.dhcp_options 50) [
      | none ↦ 0
      | some o50 ↦ read_u32 o50.value
    ]
  ]
]

-- `none` is a read through a null pointer, where no pool has the address.
unfoldable pub retrieve_lease_time : ℕ → Allocator → Option ℕ
unfolding allocator_get_pool_by_address dhcp_option_retrieve read_u32
retrieve_lease_time address allocator =
    let found : Option ℕ = elim (allocator_get_pool_by_address allocator address) [
      | none ↦ none
      | some pool ↦ elim (dhcp_option_retrieve pool.dhcp_option_override 51) [
        | some o51 ↦ some (read_u32 o51.value)
        | none ↦ elim (dhcp_option_retrieve allocator.default_options 51) [
          | some o51 ↦ some (read_u32 o51.value)
          | none ↦ some 0
        ]
      ]
    ] in
    if address == 0 then some 0 else found

-- The part of dhcp_request_response_to_offer from the lease time on
unfoldable pub commit_timed :
    Server → DhcpMessage → ℕ → ℕ → Option ℕ → Option (RequestStatus × Server)
unfolding dhcp_requst_commit_lease is_negative
commit_timed server request requested_ip now none = none
commit_timed server request requested_ip now (some lease_time) =
    let (status, next) = dhcp_requst_commit_lease server request lease_time requested_ip now in
    if lease_time == 0
    then some (invalid, server)
    else if is_negative status
    then some (invalid, next)
    else some (ok, next)

-- The part of dhcp_request_response_to_offer from the test of the requested address on
unfoldable pub commit_requested : Server → DhcpMessage → ℕ → ℕ → Option (RequestStatus × Server)
unfolding allocator_is_address_available retrieve_lease_time commit_timed
commit_requested server request requested_ip now =
    if requested_ip == 0
    then some (invalid, server)
    else if allocator_is_address_available server.allocator requested_ip
    then some (invalid, server)
    else commit_timed server request requested_ip now
        (retrieve_lease_time requested_ip server.allocator)

-- `none` is a crash.
unfoldable pub dhcp_request_response_to_offer :
    Network
    → Server
    → DhcpMessage
    → DhcpOption
    → List DhcpOption
    → ℕ
    → Option (RequestStatus × Server)
unfolding read_u32 validate_client_id_and_requested_params retrieve_client_address commit_requested
dhcp_request_response_to_offer net server request o54 stale now =
    let valid = validate_client_id_and_requested_params server.trans_cache request stale in
    let requested_ip = retrieve_client_address request server.trans_cache in
    if read_u32 o54.value == net.bound_ip
    then (if request.ciaddr == 0 && (request.yiaddr == 0 && valid)
        then commit_requested server request requested_ip now
        else some (invalid, server))
    else some (different_server_identificator, server)

-- The lease that the renewal adds: the one found, with new times
unfoldable pub renewed : Lease → ℕ → ℕ → Lease
renewed lease lease_time now = record lease {
  lease_start = now;
  lease_expire = (now + lease_time) % u32_mod;
}

-- The part of dhcp_request_renew_lease after the removal
unfoldable pub renew_timed : Server → Lease → ℕ → Option ℕ → Option (Bool × Server)
unfolding lease_add renewed
renew_timed server lease now none = none
renew_timed server lease now (some lease_time) =
    some (true, record server { files = (lease_add server.files (renewed lease lease_time now)).1 })

-- The part of dhcp_request_renew_lease after the search for the lease
unfoldable pub renew_found : Server → DhcpMessage → Lease → ℕ → Option (Bool × Server)
unfolding memcmp_eq lease_remove is_removed retrieve_lease_time renew_timed
renew_found server request lease now =
    let (status, files) = lease_remove server.files lease in
    let removed = record server { files = files } in
    if memcmp_eq 6 lease.client_mac_address request.chaddr
    then (if is_removed status
        then renew_timed removed lease now (retrieve_lease_time request.ciaddr server.allocator)
        else some (false, removed))
    else some (false, server)

-- lease_retrieve_address gives a lease exactly when it returns 0. `none` is a crash.
unfoldable pub dhcp_request_renew_lease : Server → DhcpMessage → ℕ → Option (Bool × Server)
unfolding lease_retrieve_address renew_found
dhcp_request_renew_lease server request now =
    let found : Option (Bool × Server) =
      elim (lease_retrieve_address server.files request.ciaddr server.allocator.address_pools).1 [
        | none ↦ some (false, server)
        | some lease ↦ renew_found server request lease now
      ] in
    if request.ciaddr == 0 then some (false, server) else found

-- The value that the handler returns is 0 from the response on, and stays 0 when the
-- acknowledgement fails.
unfoldable pub returns_ok : Outcome → Outcome
returns_ok (finished done server sent) = finished true server sent
returns_ok crashed = crashed
returns_ok hung = hung

unfoldable pub answer_request : Network → Server → DhcpMessage → DhcpOption → ℕ → Outcome
unfolding dhcp_option_retrieve read_u32 message_dhcpack_build returns_ok
answer_request net server request o54 now = elim (dhcp_option_retrieve request.dhcp_options 50) [
  | none ↦ crashed
  | some o50 ↦
      returns_ok
        (message_dhcpack_build net server request (read_u32 o54.value) (read_u32 o50.value) now)
]

-- What the handler does with the status of the response to an offer
unfoldable pub respond :
    Network → DhcpMessage → DhcpOption → ℕ → Option (RequestStatus × Server) → Outcome
unfolding message_dhcpnak_build answer_request
respond net request o54 now none = crashed
respond net request o54 now (some (ok, server)) = answer_request net server request o54 now
respond net request o54 now (some (different_server_identificator, server)) =
    finished true server []
respond net request o54 now (some (commit_error, server)) =
    message_dhcpnak_build net server request now
respond net request o54 now (some (invalid, server)) = message_dhcpnak_build net server request now
respond net request o54 now (some (error, server)) = message_dhcpnak_build net server request now

-- The answer to a renewal, whatever it returned
unfoldable pub answer_renewal : Network → DhcpMessage → ℕ → Option (Bool × Server) → Outcome
unfolding message_dhcpack_build_lease_renew
answer_renewal net request now none = crashed
answer_renewal net request now (some (done, server)) =
    message_dhcpack_build_lease_renew net server request now

-- The branch without option 54
unfoldable pub renew_and_answer : Network → Server → DhcpMessage → ℕ → Outcome
unfolding dhcp_request_renew_lease answer_renewal
renew_and_answer net server request now =
    if request.ciaddr == 0
    then finished true server []
    else answer_renewal net request now (dhcp_request_renew_lease server request now)

unfoldable pub message_dhcprequest_handle :
    Network → Server → DhcpMessage → List DhcpOption → ℕ → Outcome
unfolding dhcp_option_retrieve dhcp_request_response_to_offer respond renew_and_answer
message_dhcprequest_handle net server request stale now =
    elim (dhcp_option_retrieve request.dhcp_options 54) [
      | some o54 ↦
          respond net request o54 now
            (dhcp_request_response_to_offer net server request o54 stale now)
      | none ↦ renew_and_answer net server request now
    ]
