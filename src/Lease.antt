-- ===== src/Lease.antt =====
-- server/src/lease.h and server/src/lease.c. A lease file is a JSON object that cJSON prints and
-- parses; here it is the array "leases" in it, each element as json_to_lease reads it. Files are
-- opened, read and written without error, and a pool with no file yet has an empty one, as
-- lease_open_lease_file makes it.
pub mod Laws
use Prim.Native.String.{String}
use text.Mathlib.Text.{◌==◌ as str_eq}
use dhcpv4_server_with_gui_c.Prelude.{
  ℕ, Bool, true, false, Option, none, some, List, [], ◌∷◌, ◌++◌, leb, ◌==◌, if◌then◌else◌,
}
use dhcpv4_server_with_gui_c.Pool.{
  AddressPool, address_belongs_to_pool, address_pool_set_address_allocation,
}
use dhcpv4_server_with_gui_c.Allocator.{find_pool}

-- `enum lease_status`
pub data LeaseStatus : Type 0 where
  ok exists doesnt_exist invalid_json error : LeaseStatus

-- `lease_t`
pub record Lease : Type 0 where
  pub address : ℕ
  pub subnet : ℕ
  pub pool_name : String
  pub lease_start : ℕ
  pub lease_expire : ℕ
  pub xid : ℕ
  pub flags : ℕ
  pub client_mac_address : List ℕ

-- The files below LEASE_PATH_PREFIX, by the name of their pool
abbrev pub LeaseFiles : Type 0
LeaseFiles = List (String × List Lease)

unfoldable pub leases_of : LeaseFiles → String → List Lease
leases_of [] name = []
leases_of ((n, leases) ∷ files) name = if str_eq n name then leases else leases_of files name

unfoldable pub write_leases : LeaseFiles → String → List Lease → LeaseFiles
write_leases [] name leases = (name, leases) ∷ []
write_leases ((n, old) ∷ files) name leases =
    if str_eq n name then (n, leases) ∷ files else (n, old) ∷ write_leases files name leases

-- The loop over the array of lease_retrieve
unfoldable pub find_lease : List Lease → ℕ → Option Lease
find_lease [] addr = none
find_lease (lease ∷ leases) addr =
    if lease.address == addr then some lease else find_lease leases addr

unfoldable pub lease_retrieve : LeaseFiles → ℕ → Option String → LeaseStatus × Option Lease
unfolding leases_of find_lease
lease_retrieve files addr none = (error, none)
lease_retrieve files addr (some pool_name) = elim (find_lease (leases_of files pool_name) addr) [
  | none ↦ (doesnt_exist, none)
  | some lease ↦ (ok, some (record lease { pool_name = pool_name }))
]

unfoldable pub lease_retrieve_address :
    LeaseFiles → ℕ → List AddressPool → LeaseStatus × Option Lease
unfolding lease_retrieve find_pool
lease_retrieve_address files addr pools = elim (find_pool pools addr) [
  | none ↦ lease_retrieve files addr none
  | some p ↦ lease_retrieve files addr (some p.name)
]

unfoldable pub lease_add : LeaseFiles → Lease → LeaseStatus × LeaseFiles
unfolding leases_of write_leases
lease_add files lease =
    (ok, write_leases files lease.pool_name (leases_of files lease.pool_name ++ (lease ∷ [])))

-- The loop of lease_remove; the first part is whether an element was detached.
unfoldable pub detach : List Lease → ℕ → Bool × List Lease
detach [] addr = (false, [])
detach (lease ∷ leases) addr =
    let (found, rest) = detach leases addr in
    if lease.address == addr then (true, leases) else (found, lease ∷ rest)

unfoldable pub lease_remove_address_pool : LeaseFiles → ℕ → String → LeaseStatus × LeaseFiles
unfolding leases_of write_leases detach
lease_remove_address_pool files address pool_name =
    let (found, rest) = detach (leases_of files pool_name) address in
    ((if found then ok else doesnt_exist), write_leases files pool_name rest)

unfoldable pub lease_remove : LeaseFiles → Lease → LeaseStatus × LeaseFiles
unfolding lease_remove_address_pool
lease_remove files lease = lease_remove_address_pool files lease.address lease.pool_name

-- The loop of load_pool_leases over the array that it has parsed
unfoldable pub load_leases : List Lease → ℕ → LeaseFiles → AddressPool → LeaseFiles × AddressPool
unfolding lease_remove_address_pool address_pool_set_address_allocation
load_leases [] current_time files pool = (files, pool)
load_leases (lease ∷ leases) current_time files pool =
    let removed = (lease_remove_address_pool files lease.address pool.name).1 in
    let marked = (address_pool_set_address_allocation pool lease.address).1 in
    if leb lease.lease_expire current_time
    then load_leases leases current_time removed pool
    else load_leases leases current_time files marked

unfoldable pub load_pool_leases : LeaseFiles → AddressPool → ℕ → LeaseFiles × AddressPool
unfolding load_leases leases_of
load_pool_leases files pool current_time =
    load_leases (leases_of files pool.name) current_time files pool

unfoldable pub init_load_persisten_leases :
    LeaseFiles → List AddressPool → ℕ → LeaseFiles × List AddressPool
unfolding load_pool_leases
init_load_persisten_leases files [] current_time = (files, [])
init_load_persisten_leases files (pool ∷ pools) current_time =
    let (files, pool) = load_pool_leases files pool current_time in
    let (files, pools) = init_load_persisten_leases files pools current_time in
    (files, pool ∷ pools)
