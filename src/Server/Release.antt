-- ===== src/Server/Release.antt =====
-- The handler of DHCPRELEASE (server/src/messages/dhcprelease.c).
use mathlib.Core.Path.{subst}
use Prim.Native.String.{String}
use dhcpv4_server_with_gui_c.Prelude.{
  ℕ, suc, ◌≡◌, ◌≢◌, refl, sym, ap, ◌∙◌, inl, inr, Bool, true, false, some, List, arith, ◌==◌,
  if◌then◌else◌, Bool-cases,
}
use dhcpv4_server_with_gui_c.Pool.{AddressPool}
use dhcpv4_server_with_gui_c.Allocator.{
  find_pool, allocator_is_address_available, allocator_release_address,
}
use dhcpv4_server_with_gui_c.Allocator.Address.{AreValid, is_address_in_use, release-refines}
use dhcpv4_server_with_gui_c.Packet.{DhcpMessage}
use dhcpv4_server_with_gui_c.Lease.{
  Lease, LeaseFiles, leases_of, find_lease, lease_retrieve, lease_retrieve_address, detach,
  lease_remove, lease_remove_address_pool,
}
use dhcpv4_server_with_gui_c.Lease.Laws.{
  leases_of-write, occurrences, detach_lem, find_lease_address,
}
use dhcpv4_server_with_gui_c.Server.{Server, is_removed, is_ok, message_dhcprelease_handle}

pub retrieved :
    (files : LeaseFiles) (addr : ℕ) (pools : List AddressPool) (p : AddressPool) (lease : Lease)
    → find_pool pools addr ≡ some p
    → find_lease (leases_of files p.name) addr ≡ some lease
    → (lease_retrieve_address files addr pools).1 ≡ some (record lease { pool_name = p.name })
unfolding lease_retrieve_address lease_retrieve
retrieved files addr pools p lease f l = rw (lease_retrieve_address, f, lease_retrieve, l) refl

detached :
    (ls : List Lease) (addr : ℕ) (l : Lease)
    → find_lease ls addr ≡ some l
    → (detach ls addr).0 ≡ true
detached ls addr l e = elim (Bool-cases (detach ls addr).0) [
  | inl y ↦ y
  | inr n ↦ let (a, b, c, d) = detach_lem ls addr in absurd (ground (arith, c n))
]

-- Removing a lease of a pool that has one
pub removed :
    (files : LeaseFiles) (lease found : Lease)
    → find_lease (leases_of files lease.pool_name) lease.address ≡ some found
    → (is_removed (lease_remove files lease).0 ≡ true)
      × (occurrences (leases_of files lease.pool_name) lease.address
          ≡ suc
              (occurrences (leases_of (lease_remove files lease).1 lease.pool_name) lease.address))
unfolding lease_remove lease_remove_address_pool is_removed
removed files lease found e =
    let y = detached (leases_of files lease.pool_name) lease.address found e in
    let (one, b, c, d) = detach_lem (leases_of files lease.pool_name) lease.address in
    let back =
      leases_of-write files lease.pool_name
        (detach (leases_of files lease.pool_name) lease.address).1 in
    (rw y refl, rw back (one y))

-- The handler, where the lease is found and removed
handled :
    (server : Server) (m : DhcpMessage) (lease : Lease)
    → (m.ciaddr == 0) ≡ false
    → (lease_retrieve_address server.files m.ciaddr server.allocator.address_pools).1 ≡ some lease
    → is_removed (lease_remove server.files lease).0 ≡ true
    → message_dhcprelease_handle server m ≡ (
      is_ok (allocator_release_address server.allocator lease.address).0,
      record server {
        files = (lease_remove server.files lease).1;
        allocator = (allocator_release_address server.allocator lease.address).1;
      },
    )
unfolding message_dhcprelease_handle
handled server m lease nonzero found gone =
    rw (message_dhcprelease_handle, nonzero, found, gone) refl

-- What the theorem below states of a result, for the address that the lease names
abbrev IsHandled : Server → String → ℕ → Bool × Server → Type 0
IsHandled server name addr (done, after) =
    (done ≡ true)
    × AreValid after.allocator
    × (occurrences (leases_of server.files name) addr
        ≡ suc (occurrences (leases_of after.files name) addr))
    × ((b : ℕ)
        → allocator_is_address_available after.allocator b
          ≡ (if addr == b then true else allocator_is_address_available server.allocator b))

-- With valid pools, a release from a client that names its address, which a pool serves and has
-- in use and which has a lease in the file of that pool, succeeds: the file holds one lease of
-- the address less, the address is available again, and every other address stays as it was.
pub release_handle_lem :
    (server : Server) (m : DhcpMessage) (p : AddressPool) (lease : Lease)
    → AreValid server.allocator
    → m.ciaddr ≢ 0
    → find_pool server.allocator.address_pools m.ciaddr ≡ some p
    → find_lease (leases_of server.files p.name) m.ciaddr ≡ some lease
    → is_address_in_use server.allocator m.ciaddr ≡ true
    → let (done, after) = message_dhcprelease_handle server m in
      (done ≡ true)
      × AreValid after.allocator
      × (occurrences (leases_of server.files p.name) m.ciaddr
          ≡ suc (occurrences (leases_of after.files p.name) m.ciaddr))
      × ((b : ℕ)
          → allocator_is_address_available after.allocator b
            ≡ (if m.ciaddr == b then true else allocator_is_address_available server.allocator b))
unfolding is_ok
release_handle_lem server m p lease valid named f l used =
    let entry : Lease = record lease { pool_name = p.name } in
    let own : lease.address ≡ m.ciaddr =
      find_lease_address (leases_of server.files p.name) m.ciaddr lease l in
    let nonzero : (m.ciaddr == 0) ≡ false = ground arith in
    let (gone, less) =
      removed server.files entry lease (ap (find_lease (leases_of server.files p.name)) own ∙ l) in
    let step =
      handled server m entry nonzero
        (retrieved server.files m.ciaddr server.allocator.address_pools p lease f l) gone in
    let (granted, v, free, taken) =
      release-refines server.allocator lease.address valid
        (ap (is_address_in_use server.allocator) own ∙ used) in
    subst (IsHandled server p.name m.ciaddr) (sym step) (
      subst
        (λ a. IsHandled server p.name a (
          is_ok (allocator_release_address server.allocator lease.address).0,
          record server {
            files = (lease_remove server.files entry).1;
            allocator = (allocator_release_address server.allocator lease.address).1;
          },
        ))
        own (ap is_ok granted, v, less, free))
