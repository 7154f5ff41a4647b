-- ===== src/Request/Renewal.antt =====
-- The renewal of a lease (dhcp_request_renew_lease of server/src/messages/dhcprequest.c).
use dhcpv4_server_with_gui_c.Prelude.{
  ℕ, ◌≡◌, ◌≢◌, ◌⊎◌, Bool, true, false, Option, none, some, List, [], ◌∷◌, ◌++◌, take, ◌+◌, ◌%◌,
}
use dhcpv4_server_with_gui_c.Pool.{AddressPool, u32_mod}
use dhcpv4_server_with_gui_c.Allocator.{find_pool}
use dhcpv4_server_with_gui_c.Packet.{DhcpMessage}
use dhcpv4_server_with_gui_c.Lease.{Lease, leases_of, find_lease}
use dhcpv4_server_with_gui_c.Lease.Laws.{occurrences}
use dhcpv4_server_with_gui_c.Server.{Server}
use dhcpv4_server_with_gui_c.Request.Times.{LastsFor}

-- A renewal that ends changes nothing and fails; or the pool of ciaddr has a lease of it, held by
-- the client's hardware address, and the file of the pool has as many leases of it as before.
abbrev pub IsRenewal : Server → DhcpMessage → ℕ → Option (Bool × Server) → Type 0
IsRenewal s m now none = Unit
IsRenewal s m now (some (done, after)) =
    ((done ≡ false) × (after ≡ s))
    ⊎ ((done ≡ true)
        × (after.allocator ≡ s.allocator)
        × (after.trans_cache ≡ s.trans_cache)
        × ((p : AddressPool) × (own : Lease) × (time : ℕ) × (find_pool s.allocator.address_pools
                m.ciaddr
              ≡ some p)
            × (find_lease (leases_of s.files p.name) m.ciaddr ≡ some own)
            × (take 6 own.client_mac_address ≡ take 6 m.chaddr)
            × LastsFor s.allocator p time
            × ((rest : List Lease) × (leases_of after.files p.name
                  ≡ rest
                    ++ (record own {
                      pool_name = p.name;
                      lease_start = now;
                      lease_expire = (now + time) % u32_mod;
                    }
                        ∷ [])))
            × (occurrences (leases_of after.files p.name) m.ciaddr
                ≡ occurrences (leases_of s.files p.name) m.ciaddr)
            × ((other : ℕ)
                → other ≢ m.ciaddr
                → find_lease (leases_of after.files p.name) other
                  ≡ find_lease (leases_of s.files p.name) other)))
