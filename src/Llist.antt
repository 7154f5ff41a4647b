-- ===== src/Llist.antt =====
-- server/src/utils/llist.h and server/src/utils/llist.c. A list is the sequence of the data of its
-- nodes; the flag that says whether llist_clear frees them has no effect that can be seen here.
pub mod Walk
use dhcpv4_server_with_gui_c.Prelude.{ℕ, zero, suc, ◌+◌, List, [], ◌∷◌, ◌++◌, length}

module _ {ℓ} {A : Type ℓ} where
  abbrev pub llist_append : List A → A → List A
  llist_append list d = list ++ (d ∷ [])

  abbrev pub llist_clear : List A → List A
  llist_clear list = []

-- `node`, NULL, or a read through a null pointer
pub data Node {ℓ} (A : Type ℓ) : Type ℓ where
  node : A → Node A
  no_node : Node A
  null_read : Node A

module _ {ℓ} {A : Type ℓ} where
  -- The loop of llist_get_index at a node that is not NULL, with the nodes behind it.
  unfoldable pub next_node : A → List A → ℕ → Node A
  next_node d rest zero = node d
  next_node d [] (suc index) = no_node
  next_node d (next ∷ rest) (suc index) = next_node next rest index

  unfoldable pub llist_get_index : List A → ℕ → Node A
  unfolding next_node
  llist_get_index [] zero = no_node
  llist_get_index [] (suc index) = null_read
  llist_get_index (d ∷ rest) index = next_node d rest index

  -- The data that the body of llist_foreach is run with, from index `i` on.
  unfoldable pub foreach_from : ℕ → List A → ℕ → Node (List A)
  unfolding llist_get_index
  foreach_from zero list i = no_node
  foreach_from (suc fuel) list i =
      let rest = foreach_from fuel list (i + 1) in
      elim (llist_get_index list i) [
        | no_node ↦ node []
        | null_read ↦ null_read
        | node d ↦ elim rest [
          | node others ↦ node (d ∷ others)
          | no_node ↦ no_node
          | null_read ↦ null_read
        ]
      ]

  -- One round for each node and one to leave the loop.
  unfoldable pub llist_foreach : List A → Node (List A)
  unfolding foreach_from
  llist_foreach list = foreach_from (suc (length list)) list 0
