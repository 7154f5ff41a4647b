-- ===== src/Allocator/Pools.antt =====
-- The list of pools of server/src/allocator.c: searching it by address and writing a pool back.
use mathlib.Core.Path.{subst}
use dhcpv4_server_with_gui_c.Prelude.{
  ℕ, ◌≡◌, refl, true, false, Bool, none, some, List, [], ◌∷◌, arith, ◌==◌, if◌then◌else◌, All,
  Bool-cases, inl, inr,
}
use dhcpv4_server_with_gui_c.Pool.{
  AddressPool, address_belongs_to_pool, address_pool_get_address_allocation as get_allocation,
}
use dhcpv4_server_with_gui_c.Pool.Refine.{SameRange}
use dhcpv4_server_with_gui_c.Allocator.{find_pool, write_pool, reads}

-- Whether the pool that serves an address has it free (`v = 0`) or in use (`v = 1`).
unfoldable pub pools_read : ℕ → List AddressPool → ℕ → Bool
pools_read v ps a = elim (find_pool ps a) [ none ↦ false | some p ↦ reads v (get_allocation p a) ]

pub find_pool-belongs :
    (ps : List AddressPool) (a : ℕ) {p : AddressPool}
    → find_pool ps a ≡ some p
    → address_belongs_to_pool p a ≡ true
unfolding find_pool
find_pool-belongs [] a e = cc
find_pool-belongs (x ∷ ps) a {p} e = ground (arith, find_pool-belongs ps a {p = p})

pub All-find_pool {κ} :
    (P : AddressPool → Type κ) (ps : List AddressPool) (a : ℕ) {p : AddressPool}
    → find_pool ps a ≡ some p
    → All P ps
    → P p
unfolding find_pool
All-find_pool P [] a e h = absurd (cc)
All-find_pool P (x ∷ ps) a {p} e h = elim (Bool-cases (address_belongs_to_pool x a)) [
  | inl here ↦ let same : x ≡ p = ground arith in subst P same h.0
  | inr there ↦ All-find_pool P ps a (rw there at e) h.1
]

pub All-write_pool {κ} :
    (P : AddressPool → Type κ) (ps : List AddressPool) (a : ℕ) (q : AddressPool)
    → All P ps
    → P q
    → All P (write_pool ps a q)
unfolding write_pool
All-write_pool P [] a q h hq = h
All-write_pool P (x ∷ ps) a q h hq = elim (Bool-cases (address_belongs_to_pool x a)) [
  | inl here ↦ rw here (hq, h.1)
  | inr there ↦ rw there (h.0, All-write_pool P ps a q h.1 hq)
]

-- Writing back a pool in which only the reading of `a` has changed changes only what the list
-- reads at `a`.
pub pools_read-write_pool :
    (v r : ℕ) (ps : List AddressPool) (a : ℕ) {p : AddressPool} (q : AddressPool)
    → find_pool ps a ≡ some p
    → SameRange p q
    → ((b : ℕ) → get_allocation q b ≡ (if a == b then some r else get_allocation p b))
    → (b : ℕ) → pools_read v (write_pool ps a q) b ≡ (if a == b then r == v else pools_read v ps b)
unfolding pools_read find_pool write_pool address_belongs_to_pool
pools_read-write_pool v r [] a q e s h b = absurd (cc)
pools_read-write_pool v r (x ∷ ps) a {p} q e s h b =
    elim (Bool-cases (address_belongs_to_pool x a)) [
      | inl here ↦ ground (arith, h b)
      | inr there ↦ ground (
        arith,
        pools_read-write_pool v r ps a {p = p} q,
        pools_read-write_pool v r ps a {p = p} q (ground arith) s h b,
      )
    ]

-- Writing the old pool back undoes a write.
pub write_pool-write_pool :
    (ps : List AddressPool) (a : ℕ) {p : AddressPool} (q : AddressPool)
    → find_pool ps a ≡ some p
    → address_belongs_to_pool q a ≡ true
    → write_pool (write_pool ps a q) a p ≡ ps
unfolding find_pool write_pool
write_pool-write_pool [] a q e h = refl
write_pool-write_pool (x ∷ ps) a {p} q e h = ground (arith, write_pool-write_pool ps a {p = p} q)

pub find_pool-write_pool :
    (ps : List AddressPool) (a : ℕ) {p : AddressPool} (q : AddressPool)
    → find_pool ps a ≡ some p
    → address_belongs_to_pool q a ≡ true
    → find_pool (write_pool ps a q) a ≡ some q
unfolding find_pool write_pool
find_pool-write_pool [] a q e h = absurd (cc)
find_pool-write_pool (x ∷ ps) a {p} q e h = ground (arith, find_pool-write_pool ps a {p = p} q)
