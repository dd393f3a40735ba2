-- ===== src/Avl/Balance/Cases.antt =====
-- Which of the four cases the end of an insertion takes.
use parcoach_rma.Common.{ℕ, ◌+◌, ◌%◌, ◌≡◌, max, arith, ◌<ℤ◌}
use parcoach_rma.Avl.{
  Tree, node, Keys, ulong_mod, height, left_rotate, right_rotate, settle_insert, child_key,
}
use parcoach_rma.Avl.Balance.{Close, get_balance_parts}

module _ {E : Type 0} (keys : Keys E) (itv top : E) (size : ℕ) where
  open keys use {key}

  abbrev pub new_size : ℕ
  new_size = (1 + size) % ulong_mod

  pub settle_insert-Close :
      (left right : Tree E)
      → Close left right
      → settle_insert keys itv top left right size
        ≡ node top left right (1 + max (height left) (height right)) new_size
  unfolding settle_insert
  settle_insert-Close left right c =
      ground
        (arith, get_balance_parts top left right (1 + max (height left) (height right)) new_size)

  module _ (x : E) (a b : Tree E) (hx sx : ℕ) where
    abbrev pub child : Tree E
    child = node x a b hx sx

    pub settle_insert_left_outer :
        (right : Tree E)
        → hx ≡ height right + 2
        → key itv <ℤ key x
        → settle_insert keys itv top child right size
          ≡ right_rotate (node top child right (1 + max hx (height right)) new_size)
    unfolding settle_insert child_key
    settle_insert_left_outer right e lt =
        ground (arith, get_balance_parts top child right (1 + max hx (height right)) new_size)

    pub settle_insert_left_inner :
        (right : Tree E)
        → hx ≡ height right + 2
        → key x <ℤ key itv
        → settle_insert keys itv top child right size
          ≡ right_rotate (node top (left_rotate child) right (1 + max hx (height right)) new_size)
    unfolding settle_insert child_key
    settle_insert_left_inner right e gt =
        ground (arith, get_balance_parts top child right (1 + max hx (height right)) new_size)

    pub settle_insert_right_outer :
        (left : Tree E)
        → hx ≡ height left + 2
        → key x <ℤ key itv
        → settle_insert keys itv top left child size
          ≡ left_rotate (node top left child (1 + max (height left) hx) new_size)
    unfolding settle_insert child_key
    settle_insert_right_outer left e gt =
        ground (arith, get_balance_parts top left child (1 + max (height left) hx) new_size)

    pub settle_insert_right_inner :
        (left : Tree E)
        → hx ≡ height left + 2
        → key itv <ℤ key x
        → settle_insert keys itv top left child size
          ≡ left_rotate (node top left (right_rotate child) (1 + max (height left) hx) new_size)
    unfolding settle_insert child_key
    settle_insert_right_inner left e lt =
        ground (arith, get_balance_parts top left child (1 + max (height left) hx) new_size)
