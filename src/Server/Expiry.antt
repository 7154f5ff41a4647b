-- ===== src/Server/Expiry.antt =====
-- Leases that expire (check_lease of server/src/dhcp_server.c).
use mathlib.Core.Path.{subst}
use Prim.Native.String.{String}
use dhcpv4_server_with_gui_c.Prelude.{
  ℕ, zero, suc, ◌+◌, ◌-◌, ◌≤◌, ◌≡◌, ◌≢◌, refl, sym, ap, ◌∙◌, inl, inr, Option, none, some, arith,
  ltb, Bool-cases, Option-cases,
}
use dhcpv4_server_with_gui_c.Pool.{AddressPool}
use dhcpv4_server_with_gui_c.Allocator.{allocator_is_address_available}
use dhcpv4_server_with_gui_c.Lease.{
  Lease, LeaseFiles, leases_of, find_lease, lease_retrieve, detach, lease_remove_address_pool,
  lease_remove,
}
use dhcpv4_server_with_gui_c.Lease.Laws.{leases_of-write, detach_lem, find_lease_address}
use dhcpv4_server_with_gui_c.Server.{
  Server, is_removed, expire, check_address, check_loop, check_lease,
}

-- The lease of an address in the file of a pool
abbrev pub lease_at : Server → String → ℕ → Option Lease
lease_at server name x = find_lease (leases_of server.files name) x

remove_keeps :
    (files : LeaseFiles) (lease : Lease) (x : ℕ)
    → x ≢ lease.address
    → find_lease (leases_of (lease_remove files lease).1 lease.pool_name) x
      ≡ find_lease (leases_of files lease.pool_name) x
unfolding lease_remove lease_remove_address_pool
remove_keeps files lease x n =
    let (a, b, c, keep) = detach_lem (leases_of files lease.pool_name) lease.address in
    rw
      (leases_of-write files lease.pool_name
        (detach (leases_of files lease.pool_name) lease.address).1)
      (keep x n)

expire_files :
    (server : Server) (lease : Lease) (a : ℕ)
    → (expire server lease a).1.files ≡ (lease_remove server.files lease).1
unfolding expire
expire_files server lease a = elim (Bool-cases (is_removed (lease_remove server.files lease).0)) [
  | inl y ↦ rw y refl
  | inr n ↦ rw n refl
]

retrieve_shape :
    (files : LeaseFiles) (a : ℕ) (name : String) (lease : Lease)
    → (lease_retrieve files a (some name)).1 ≡ some lease
    → (lease.pool_name ≡ name) × (lease.address ≡ a)
unfolding lease_retrieve
retrieve_shape files a name lease e = elim (Option-cases (find_lease (leases_of files name) a)) [
  | inl absent ↦
      let no : none ≡ some lease = sym (rw (lease_retrieve, absent) refl) ∙ e in
      absurd (ground arith)
  | inr (l, found) ↦
      let address = find_lease_address (leases_of files name) a l found in
      let it : some (record l { pool_name = name }) ≡ some lease =
        sym (rw (lease_retrieve, found) refl) ∙ e in
      let same : record l { pool_name = name } ≡ lease = ground arith in
      (
        sym (ap (λ (k : Lease). k.pool_name) same),
        sym (ap (λ (k : Lease). k.address) same) ∙ address,
      )
]

expire_keeps :
    (server : Server) (lease : Lease) (name : String) (a x : ℕ)
    → x ≢ a
    → lease.pool_name ≡ name
    → lease.address ≡ a
    → lease_at (expire server lease a).1 name x ≡ lease_at server name x
expire_keeps server lease name a x n named own =
    let step = remove_keeps server.files lease x (λ e. n (e ∙ own)) in
    ap (λ f. find_lease (leases_of f name) x) (expire_files server lease a)
    ∙ subst
        (λ k.
          find_lease (leases_of (lease_remove server.files lease).1 k) x
          ≡ find_lease (leases_of server.files k) x)
        named step

address_keeps :
    (now : ℕ) (name : String) (server : Server) (a x : ℕ)
    → x ≢ a
    → lease_at (check_address now name server a).1 name x ≡ lease_at server name x
unfolding check_address
address_keeps now name server a x n =
    elim (Bool-cases (allocator_is_address_available server.allocator a)) [
      | inl free ↦ rw free refl
      | inr used ↦ elim (Option-cases (lease_retrieve server.files a (some name)).1) [
        | inl absent ↦ rw (used, absent) refl
        | inr (lease, found) ↦
            let (named, own) = retrieve_shape server.files a name lease found in
            elim (Bool-cases (ltb now lease.lease_expire)) [
              | inl valid ↦ rw (used, found, valid) refl
              | inr old ↦ rw (used, found, old) (expire_keeps server lease name a x n named own)
            ]
      ]
    ]

loop_keeps :
    (count a now : ℕ) (name : String) (server : Server) (x : ℕ)
    → a + count ≤ x
    → lease_at (check_loop count a now name server).1 name x ≡ lease_at server name x
unfolding check_loop
loop_keeps zero a now name server x far = refl
loop_keeps (suc count) a now name server x far =
    loop_keeps count (a + 1) now name (check_address now name server a).1 x (omega arith)
    ∙ address_keeps now name server a x (λ e. absurd (omega arith))

-- Checking the leases of a pool leaves the lease of the pool's last address in its file, and of
-- every address behind the pool, however long ago it has expired.
pub check_lease-last :
    (now : ℕ) (pool : AddressPool) (server : Server) (x : ℕ)
    → pool.start_address ≤ pool.end_address
    → pool.end_address ≤ x
    → lease_at (check_lease now pool server).1 pool.name x ≡ lease_at server pool.name x
unfolding check_lease
check_lease-last now pool server x order far =
    loop_keeps (pool.end_address - pool.start_address) pool.start_address now pool.name server x
      (omega arith)
