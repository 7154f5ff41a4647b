-- ===== src/Allocator/Apart.antt =====
-- Pools that share no address stay so through the operations of server/src/allocator.c, on every
-- branch.
use mathlib.Core.Path.{subst}
use dhcpv4_server_with_gui_c.Prelude.{
  ℕ, ◌≡◌, sym, ◌∙◌, true, false, some, List, [], ◌∷◌, arith, All, Bool-cases, inl, inr,
}
use dhcpv4_server_with_gui_c.Pool.{
  AddressPool, address_belongs_to_pool, address_pool_set_address_allocation as set_allocation,
  address_pool_clear_address_allocation as clear_allocation,
}
use dhcpv4_server_with_gui_c.Pool.Invariant.{IsValid, set-IsValid, clear-IsValid}
use dhcpv4_server_with_gui_c.Pool.Refine.{
  SameRange, set-SameRange, clear-SameRange, set_free, clear_used,
}
use dhcpv4_server_with_gui_c.Allocator.Pools.{All-find_pool, All-write_pool}
use dhcpv4_server_with_gui_c.Allocator.Address.{
  AreValid, is_address_in_use, reading_pool, available_lem, request_free, release_used,
  request_unavailable, release_not_in_use,
}
use dhcpv4_server_with_gui_c.Allocator.Any.{AreApart}
use dhcpv4_server_with_gui_c.Allocator.{
  Allocator, find_pool, write_pool, allocator_request_this_address, allocator_release_address,
  allocator_is_address_available,
}

same_belongs :
    (p q : AddressPool) (b : ℕ)
    → SameRange p q
    → address_belongs_to_pool q b ≡ address_belongs_to_pool p b
unfolding address_belongs_to_pool
same_belongs p q b s = ground arith

-- The first pool of a list lies apart from the others.
abbrev LiesApart : AddressPool → List AddressPool → Type 0
LiesApart p ps =
    All (λ q. (b : ℕ) → address_belongs_to_pool q b ≡ true → address_belongs_to_pool p b ≡ false) ps

head_changed :
    (p q : AddressPool) (ps : List AddressPool) → SameRange p q → LiesApart p ps → LiesApart q ps
head_changed p q [] s h = tt
head_changed p q (r ∷ ps) s h = ((λ b e. same_belongs p q b s ∙ h.0 b e), head_changed p q ps s h.1)

write-AreApart :
    (ps : List AddressPool) (a : ℕ) (p q : AddressPool)
    → find_pool ps a ≡ some p
    → SameRange p q
    → AreApart ps
    → AreApart (write_pool ps a q)
unfolding find_pool write_pool
write-AreApart [] a p q e s h = tt
write-AreApart (x ∷ ps) a p q e s h = elim (Bool-cases (address_belongs_to_pool x a)) [
  | inl here ↦
      let same : p ≡ x = ground arith in
      rw here (head_changed x q ps (subst (λ r. SameRange r q) same s) h.0, h.1)
  | inr there ↦
      let found : find_pool ps a ≡ some p = rw there at e in
      rw there (
        All-write_pool
            (λ q.
              (b : ℕ) → address_belongs_to_pool q b ≡ true → address_belongs_to_pool x b ≡ false)
            ps a q h.0
            (λ b e.
              All-find_pool
                (λ q.
                  (b : ℕ)
                  → address_belongs_to_pool q b ≡ true
                  → address_belongs_to_pool x b ≡ false)
                ps a found h.0 b (sym (same_belongs p q b s) ∙ e)),
        write-AreApart ps a p q found s h.1,
      )
]

-- Every pool is valid, and no address lies in two of them.
pub record IsSound (a : Allocator) : Type 0 where
  pub valid : AreValid a
  pub apart : AreApart a.address_pools

write-IsSound :
    (a : Allocator) (addr : ℕ) (p q : AddressPool)
    → IsSound a
    → find_pool a.address_pools addr ≡ some p
    → SameRange p q
    → IsValid q
    → IsSound (record a { address_pools = write_pool a.address_pools addr q })
write-IsSound a addr p q h e s v = record {
  valid = All-write_pool IsValid a.address_pools addr q h.valid v;
  apart = write-AreApart a.address_pools addr p q e s h.apart;
}

pub request-IsSound :
    (a : Allocator) (addr : ℕ) → IsSound a → IsSound (allocator_request_this_address a addr).2
request-IsSound a addr h = elim (Bool-cases (allocator_is_address_available a addr)) [
  | inr out ↦ rw (request_unavailable a addr out) h
  | inl free ↦
      let (p, e, g) = reading_pool a.address_pools addr 0 (rw available_lem at free) in
      let v = All-find_pool IsValid a.address_pools addr e h.valid in
      let (s, n, f) = set_free p addr v g in
      rw (request_free a addr p e g s) (
        write-IsSound a addr p (set_allocation p addr).1 h e (set-SameRange p addr)
          (set-IsValid p addr v))
]

pub release-IsSound :
    (a : Allocator) (addr : ℕ) → IsSound a → IsSound (allocator_release_address a addr).1
release-IsSound a addr h = elim (Bool-cases (is_address_in_use a addr)) [
  | inr out ↦ rw (release_not_in_use a addr out) h
  | inl used ↦
      let (p, e, g) = reading_pool a.address_pools addr 1 used in
      let v = All-find_pool IsValid a.address_pools addr e h.valid in
      let (s, n, f) = clear_used p addr v g in
      rw (release_used a addr p e g s) (
        write-IsSound a addr p (clear_allocation p addr).1 h e (clear-SameRange p addr)
          (clear-IsValid p addr v))
]
