-- ===== src/Lease/Laws.antt =====
-- What is found in the lease files of server/src/lease.c after they were written.
use Prim.Native.String.{String}
use text.Mathlib.TextEquality.{eq_iff}
use text.Mathlib.Text.{◌==◌ as str_eq}
use dhcpv4_server_with_gui_c.Prelude.{
  ◌⊎◌, ℕ, suc, ◌≡◌, ◌≢◌, refl, ap, inl, inr, true, false, none, some, List, [], ◌∷◌, arith, ◌==◌,
  if◌then◌else◌, Bool-cases,
}
use dhcpv4_server_with_gui_c.Lease.{Lease, LeaseFiles, leases_of, write_leases, find_lease, detach}

-- The number of leases of an address in an array
unfoldable pub occurrences : List Lease → ℕ → ℕ
occurrences [] addr = 0
occurrences (l ∷ ls) addr =
    let rest = occurrences ls addr in if l.address == addr then suc rest else rest

-- The file of a pool that is written is read back; the other files are as they were.
pub leases_of-write :
    (files : LeaseFiles) (name : String) (leases : List Lease)
    → leases_of (write_leases files name leases) name ≡ leases
unfolding leases_of write_leases
leases_of-write [] name leases = rw ((eq_iff name name).1 refl) refl
leases_of-write ((n, old) ∷ files) name leases = elim (Bool-cases (str_eq n name)) [
  | inl this ↦ rw (this, leases_of, this) refl
  | inr other ↦ rw (other, leases_of, other) (leases_of-write files name leases)
]

pub find_lease_address :
    (ls : List Lease) (addr : ℕ) (l : Lease) → find_lease ls addr ≡ some l → l.address ≡ addr
unfolding find_lease
find_lease_address [] addr l e = ground arith
find_lease_address (x ∷ ls) addr l e = ground (arith, find_lease_address ls addr l)

pub detach_lem :
    (ls : List Lease) (addr : ℕ)
    → ((detach ls addr).0 ≡ true → occurrences ls addr ≡ suc (occurrences (detach ls addr).1 addr))
      × ((detach ls addr).0 ≡ false → (detach ls addr).1 ≡ ls)
      × ((detach ls addr).0 ≡ false → find_lease ls addr ≡ none)
      × ((other : ℕ) → other ≢ addr → find_lease (detach ls addr).1 other ≡ find_lease ls other)
unfolding occurrences detach find_lease
detach_lem [] addr = ((λ e. ground arith), (λ e. refl), (λ e. refl), (λ o n. refl))
detach_lem (l ∷ ls) addr =
    let (a, b, c, d) = detach_lem ls addr in
    elim (Bool-cases (l.address == addr)) [
      | inl here ↦ rw here (
        (λ e. refl),
        (λ e. ground arith),
        (λ e. ground arith),
        (λ o n. let no : (l.address == o) ≡ false = ground arith in rw no refl),
      )
      | inr other ↦ rw other (
        (λ e. rw other (a e)),
        (λ e. ap (◌∷◌ l) (b e)),
        c,
        (λ o n. let same = d o n in ground arith),
      )
    ]

-- Either the array holds a lease of the address, and a removal takes exactly one such lease
-- away, or it holds none, and a removal leaves it as it is. A look-up of any other address finds
-- what it found before.
pub detach_one :
    (ls : List Lease) (addr other : ℕ)
    → other ≢ addr
    → ((((detach ls addr).0 ≡ true)
          × (occurrences ls addr ≡ suc (occurrences (detach ls addr).1 addr)))
        ⊎ (((detach ls addr).0 ≡ false) × (find_lease ls addr ≡ none) × ((detach ls addr).1 ≡ ls)))
      × (find_lease (detach ls addr).1 other ≡ find_lease ls other)
detach_one ls addr other n =
    let (one, same, absent, keep) = detach_lem ls addr in
    (
      elim (Bool-cases (detach ls addr).0) [
        | inl y ↦ inl (y, one y)
        | inr m ↦ inr (m, absent m, same m)
      ],
      keep other n,
    )
