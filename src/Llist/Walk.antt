-- ===== src/Llist/Walk.antt =====
-- Which nodes the index and the loop macro of server/src/utils/llist.h reach.
use dhcpv4_server_with_gui_c.Prelude.{
  ℕ, zero, suc, ◌+◌, ◌<◌, ◌≡◌, refl, List, [], ◌∷◌, length, drop, arith,
}
use dhcpv4_server_with_gui_c.Llist.{
  node, no_node, null_read, next_node, llist_get_index, foreach_from, llist_foreach,
}

module _ {ℓ} {A : Type ℓ} where
  -- Walking on from an index of a list that is not empty.
  next_cases :
      (x : A) (xs : List A) (i : ℕ) (y : A) (ys : List A)
      → drop i (x ∷ xs) ≡ y ∷ ys
      → next_node x xs i ≡ node y
  unfolding next_node
  next_cases x xs zero y ys e = ground arith
  next_cases x [] (suc zero) y ys e = ground arith
  next_cases x [] (suc (suc i)) y ys e = ground arith
  next_cases x (z ∷ zs) (suc i) y ys e = next_cases z zs i y ys e

  next_end : (x : A) (xs : List A) (i : ℕ) → drop i (x ∷ xs) ≡ [] → next_node x xs i ≡ no_node
  unfolding next_node
  next_end x xs zero e = ground arith
  next_end x [] (suc i) e = refl
  next_end x (z ∷ zs) (suc i) e = next_end z zs i e

  drop-length : (xs : List A) → drop (length xs) xs ≡ []
  drop-length [] = refl
  drop-length (x ∷ xs) = drop-length xs

  drop-suc : (i : ℕ) (xs : List A) (y : A) (ys : List A) → drop i xs ≡ y ∷ ys → drop (suc i) xs ≡ ys
  drop-suc zero [] y ys e = ground arith
  drop-suc zero (x ∷ xs) y ys e = ground arith
  drop-suc (suc i) [] y ys e = ground arith
  drop-suc (suc i) (x ∷ xs) y ys e = drop-suc i xs y ys e

  foreach_end : (fuel : ℕ) (xs : List A) → foreach_from (suc fuel) xs (length xs) ≡ node []
  unfolding foreach_from llist_get_index
  foreach_end fuel [] = refl
  foreach_end fuel (x ∷ xs) = rw (next_end x xs (suc (length xs)) (drop-length (x ∷ xs))) refl

  foreach_rest :
      (ys xs : List A) (i : ℕ)
      → drop i xs ≡ ys
      → i + length ys ≡ length xs
      → foreach_from (suc (length ys)) xs i ≡ node ys
  unfolding foreach_from llist_get_index
  foreach_rest [] xs i e l = let at : i ≡ length xs = omega arith in rw at (foreach_end 0 xs)
  foreach_rest (y ∷ ys) [] i e l = absurd (omega arith)
  foreach_rest (y ∷ ys) (x ∷ xs) i e l =
      rw
        (
          foreach_from,
          llist_get_index,
          next_cases x xs i y ys e,
          foreach_rest ys (x ∷ xs) (i + 1)
              (let at : i + 1 ≡ suc i = omega arith in rw at (drop-suc i (x ∷ xs) y ys e))
              (omega arith),
        )
        refl

  -- The loop macro runs its body with each element of the list in turn, then leaves the loop, and
  -- it never reads through a null pointer.
  pub foreach_visits : (xs : List A) → llist_foreach xs ≡ node xs
  unfolding llist_foreach
  foreach_visits xs = foreach_rest xs xs 0 refl (omega arith)

  -- An index of an element gives that element. An index of an empty list reads through a null
  -- pointer, but for index 0, and any other index gives no node.
  pub get_index_lem :
      (xs : List A) (i : ℕ)
      → ((y : A) (ys : List A) → drop i xs ≡ y ∷ ys → llist_get_index xs i ≡ node y)
        × (drop i xs ≡ [] → 0 < length xs → llist_get_index xs i ≡ no_node)
        × (xs ≡ [] → 0 < i → llist_get_index xs i ≡ null_read)
  unfolding llist_get_index
  get_index_lem [] zero =
      (λ y ys e. ground arith, λ e l. absurd (omega arith), λ e l. absurd (omega arith))
  get_index_lem [] (suc i) = (λ y ys e. ground arith, λ e l. absurd (omega arith), λ e l. refl)
  get_index_lem (x ∷ xs) i = (next_cases x xs i, λ e l. next_end x xs i e, λ e l. ground arith)
