-- ===== src/Request/Laws.antt =====
-- What a DHCPREQUEST that names a server (server/src/messages/dhcprequest.c) commits.
use dhcpv4_server_with_gui_c.Prelude.{
  ℕ, ◌+◌, ◌%◌, ◌≡◌, ◌≢◌, refl, inl, inr, Bool, true, false, ◌&&◌, Option, none, some, List, [], ◌∷◌,
  ◌++◌, ◌==◌, arith, take, Option-cases, if_split, ==_iff,
}
use dhcpv4_server_with_gui_c.Options.{DhcpOption, read_u32}
use dhcpv4_server_with_gui_c.Pool.{AddressPool, u32_mod}
use dhcpv4_server_with_gui_c.Allocator.{find_pool, allocator_is_address_available}
use dhcpv4_server_with_gui_c.Packet.{DhcpMessage}
use dhcpv4_server_with_gui_c.Lease.{Lease, leases_of, lease_add}
use dhcpv4_server_with_gui_c.Lease.Laws.{leases_of-write}
use dhcpv4_server_with_gui_c.Server.{Server}
use dhcpv4_server_with_gui_c.Answer.{Network}
use dhcpv4_server_with_gui_c.Request.Times.{LastsFor, lease_time-LastsFor, Agrees, validate-Agrees}
use dhcpv4_server_with_gui_c.Request.{
  RequestStatus, commit_error, invalid, error, ok, different_server_identificator, is_negative,
  dhcp_requst_commit_lease, validate_client_id_and_requested_params, retrieve_client_address,
  retrieve_lease_time, commit_timed, commit_requested, dhcp_request_response_to_offer,
}

-- The lease of `addr` in a pool for the client of a message
abbrev pub lease_for : DhcpMessage → AddressPool → ℕ → ℕ → ℕ → Lease
lease_for m p addr time now = record {
  address = addr;
  subnet = p.mask;
  pool_name = p.name;
  lease_start = now;
  lease_expire = (now + time) % u32_mod;
  xid = m.xid;
  flags = 0;
  client_mac_address = take 6 m.chaddr;
}

-- A server to whose lease file of the pool of `addr` one lease of `addr` is appended, for a time
-- that is not 0, while the address is not available
abbrev pub HasCommitted : Server → DhcpMessage → ℕ → ℕ → Server → Type 0
HasCommitted s m addr now after =
    (p : AddressPool) × (time : ℕ) × (find_pool s.allocator.address_pools addr ≡ some p)
    × (allocator_is_address_available s.allocator addr ≡ false)
    × LastsFor s.allocator p time
    × (addr ≢ 0)
    × (time ≢ 0)
    × (leases_of after.files p.name
        ≡ leases_of s.files p.name ++ (lease_for m p addr time now ∷ []))

-- A result that commits the address with an unchanged allocator and cache, or leaves the server
abbrev IsCommit : Server → DhcpMessage → ℕ → ℕ → Option (RequestStatus × Server) → Type 0
IsCommit s m addr now none = Unit
IsCommit s m addr now (some (ok, after)) =
    (after.allocator ≡ s.allocator) × HasCommitted s m addr now after
IsCommit s m addr now (some (commit_error, after)) = after ≡ s
IsCommit s m addr now (some (invalid, after)) = after ≡ s
IsCommit s m addr now (some (error, after)) = after ≡ s
IsCommit s m addr now (some (different_server_identificator, after)) = after ≡ s

timed-IsCommit :
    (s : Server) (m : DhcpMessage) (addr now : ℕ) (time : Option ℕ)
    → addr ≢ 0
    → allocator_is_address_available s.allocator addr ≡ false
    → retrieve_lease_time addr s.allocator ≡ time
    → IsCommit s m addr now (commit_timed s m addr now time)
unfolding commit_timed dhcp_requst_commit_lease is_negative lease_add
timed-IsCommit s m addr now none n used e = tt
timed-IsCommit s m addr now (some time) n used e =
    if_split (IsCommit s m addr now) (time == 0) (some (invalid, s)) _ (λ unset. refl)
      (λ set. elim (Option-cases (find_pool s.allocator.address_pools addr)) [
        | inl absent ↦ rw (dhcp_requst_commit_lease, absent) refl
        | inr (p, found) ↦
            rw (dhcp_requst_commit_lease, found)
              (
                refl,
                (
                  p,
                  time,
                  found,
                  used,
                  lease_time-LastsFor s.allocator p addr time found n e,
                  n,
                  (λ z. absurd (ground arith)),
                  leases_of-write s.files p.name
                      (leases_of s.files p.name ++ (lease_for m p addr time now ∷ [])),
                ),
              )
      ])

requested-IsCommit :
    (s : Server) (m : DhcpMessage) (addr now : ℕ)
    → IsCommit s m addr now (commit_requested s m addr now)
unfolding commit_requested
requested-IsCommit s m addr now =
    if_split (IsCommit s m addr now) (addr == 0) (some (invalid, s)) _ (λ unnamed. refl)
      (λ named.
        if_split (IsCommit s m addr now) (allocator_is_address_available s.allocator addr)
          (some (invalid, s)) _ (λ free. refl)
          (λ used.
            timed-IsCommit s m addr now (retrieve_lease_time addr s.allocator)
              (λ z. absurd (ground arith)) used refl))

-- What a response to an offer has passed before anything is committed
abbrev pub IsChecked : Network → Server → DhcpMessage → DhcpOption → List DhcpOption → Type 0
IsChecked net s m o54 stale =
    (read_u32 o54.value ≡ net.bound_ip)
    × (m.ciaddr ≡ 0)
    × (m.yiaddr ≡ 0)
    × Agrees s.trans_cache m stale

-- A commit that was checked, or a server left as it was
abbrev pub MayCommit :
    Network
    → Server
    → DhcpMessage
    → DhcpOption
    → List DhcpOption
    → ℕ
    → Option (RequestStatus × Server)
    → Type 0
MayCommit net s m o54 stale now none = Unit
MayCommit net s m o54 stale now (some (ok, after)) =
    (after.allocator ≡ s.allocator)
    × (IsChecked net s m o54 stale
        × HasCommitted s m (retrieve_client_address m s.trans_cache) now after)
MayCommit net s m o54 stale now (some (commit_error, after)) = after ≡ s
MayCommit net s m o54 stale now (some (invalid, after)) = after ≡ s
MayCommit net s m o54 stale now (some (error, after)) = after ≡ s
MayCommit net s m o54 stale now (some (different_server_identificator, after)) = after ≡ s

commit-MayCommit :
    (net : Network) (s : Server) (m : DhcpMessage) (o54 : DhcpOption) (stale : List DhcpOption)
    (now : ℕ) (r : Option (RequestStatus × Server))
    → IsChecked net s m o54 stale
    → IsCommit s m (retrieve_client_address m s.trans_cache) now r
    → MayCommit net s m o54 stale now r
commit-MayCommit net s m o54 stale now none c h = tt
commit-MayCommit net s m o54 stale now (some (ok, after)) c h = (h.0, (c, h.1))
commit-MayCommit net s m o54 stale now (some (commit_error, after)) c h = h
commit-MayCommit net s m o54 stale now (some (invalid, after)) c h = h
commit-MayCommit net s m o54 stale now (some (error, after)) c h = h
commit-MayCommit net s m o54 stale now (some (different_server_identificator, after)) c h = h

pub response-MayCommit :
    (net : Network) (s : Server) (m : DhcpMessage) (o54 : DhcpOption) (stale : List DhcpOption)
    (now : ℕ)
    → MayCommit net s m o54 stale now (dhcp_request_response_to_offer net s m o54 stale now)
unfolding dhcp_request_response_to_offer
response-MayCommit net s m o54 stale now =
    let addr = retrieve_client_address m s.trans_cache in
    let valid = validate_client_id_and_requested_params s.trans_cache m stale in
    let P = MayCommit net s m o54 stale now in
    if_split P (read_u32 o54.value == net.bound_ip) _ (some (different_server_identificator, s))
      (λ ours.
        if_split P (m.ciaddr == 0 && (m.yiaddr == 0 && valid)) (commit_requested s m addr now)
          (some (invalid, s))
          (λ passed.
            let (first, second, third) = both_hold (m.ciaddr == 0) (m.yiaddr == 0) valid passed in
            commit-MayCommit net s m o54 stale now (commit_requested s m addr now)
              (
                (==_iff _ _).0 ours,
                (==_iff _ _).0 first,
                (==_iff _ _).0 second,
                validate-Agrees s.trans_cache m stale third,
              )
              (requested-IsCommit s m addr now))
          (λ refused. refl))
      (λ other. refl)
  where
    both_hold : (a b c : Bool) → (a && (b && c)) ≡ true → (a ≡ true) × (b ≡ true) × (c ≡ true)
    both_hold a b c h = ground arith
