-- ===== src/Avl/Search.antt =====
-- Insertion and deletion keep the search order.
use parcoach_rma.Common.{
  ℕ, ℤ, ◌≤ℤ◌, ◌<ℤ◌, ◌≢◌, arith, ≤ℤ_trans, <ℤ_trans, lt_of_le_ne, lt-or-ge, inl, inr,
}
use parcoach_rma.Avl.{
  Tree, null, node, Keys, insert, min_value_node, bring_up, delete_top, delete, new_tree,
}
use parcoach_rma.Avl.Entries.{All, All-imp, All-min_value_node, All-insert, All-delete}
use parcoach_rma.Avl.Steps.{insert_before, insert_after}
use parcoach_rma.Avl.Order.{
  Before, After, IsSearch, IsOrdered, IsStrict, settle_insert-IsSearch, settle_delete-IsSearch,
}

module _ {E : Type 0} (keys : Keys E) where
  open keys use {key}

  -- No content of the tree has the key `k`.
  abbrev pub Fresh : ℤ → Tree E → Type 0
  Fresh k t = All (λ e. key e ≢ k) t

  -- An insertion keeps the weak search order of a tree, also of a key that the tree has already.
  pub insert-IsOrdered :
      (t : Tree E) (itv : E) → IsOrdered keys t → IsOrdered keys (insert keys t itv)
  unfolding insert new_tree
  insert-IsOrdered null itv o = (tt, tt, tt, tt)
  insert-IsOrdered (node top left right h size) itv (b, a, ol, or) = ground (
    arith,
    λ (p : key itv ≤ℤ key top).
        settle_insert-IsSearch keys ◌≤ℤ◌ ≤ℤ_trans top (insert keys left itv) right size
          (All-insert keys (λ e. key e ≤ℤ key top) left itv p b) a (insert-IsOrdered left itv ol) or
          itv,
    λ (p : key top ≤ℤ key itv).
        settle_insert-IsSearch keys ◌≤ℤ◌ ≤ℤ_trans top left (insert keys right itv) size b
          (All-insert keys (λ e. key top ≤ℤ key e) right itv p a) ol (insert-IsOrdered right itv or)
          itv,
  )

  -- An insertion of a new key keeps the strict search order.
  pub insert-IsStrict :
      (t : Tree E) (itv : E)
      → IsStrict keys t
      → Fresh (key itv) t
      → IsStrict keys (insert keys t itv)
  unfolding insert new_tree
  insert-IsStrict null itv o f = (tt, tt, tt, tt)
  insert-IsStrict (node top left right h size) itv (b, a, ol, or) (ne, fl, fr) =
      elim (lt-or-ge (key itv) (key top)) [
        | inl lt ↦ rw (insert_before keys top left right h size itv lt) (
            settle_insert-IsSearch keys ◌<ℤ◌ <ℤ_trans top (insert keys left itv) right size
              (All-insert keys (λ e. key e <ℤ key top) left itv lt b) a
              (insert-IsStrict left itv ol fl) or itv)
        | inr ge ↦ rw (insert_after keys top left right h size itv ge) (
            settle_insert-IsSearch keys ◌<ℤ◌ <ℤ_trans top left (insert keys right itv) size b
              (All-insert keys (λ e. key top <ℤ key e) right itv
                (lt_of_le_ne (key top) (key itv) ge ne) a)
              ol (insert-IsStrict right itv or fr) itv)
      ]

  -- The leftmost content has the least key.
  pub min_value_node-le :
      (top : E) (left right : Tree E)
      → Before keys ◌≤ℤ◌ top left
      → IsOrdered keys left
      → After keys ◌≤ℤ◌ top right
      → All (λ e. key (min_value_node top left) ≤ℤ key e) right
        × (key (min_value_node top left) ≤ℤ key top)
        × All (λ e. key (min_value_node top left) ≤ℤ key e) left
  unfolding min_value_node
  min_value_node-le top null right b o a = (a, omega arith, tt)
  min_value_node-le top (node x left mid h size) right (xt, lt, mt) (lx, mx, ol, om) a =
      let (in_mid, in_x, in_left) = min_value_node-le x left mid lx ol mx in
      let below : key (min_value_node x left) ≤ℤ key top = omega arith in
      (
        All-imp (λ e p. ≤ℤ_trans _ (key top) (key e) below p) right a,
        below,
        (in_x, in_left, in_mid),
      )

  pub bring_up-IsSearch :
      (R : ℤ → ℤ → Type 0)
      → ((a b c : ℤ) → R a b → R b c → R a c)
      → (t : Tree E) → IsSearch keys R t
      → IsSearch keys R (bring_up keys t)
  unfolding bring_up
  bring_up-IsSearch R R_trans null o = tt
  bring_up-IsSearch R R_trans (node top left right h size) (b, a, ol, or) =
      settle_delete-IsSearch keys R R_trans top left right size b a ol or

  -- Deleting a node keeps the weak order, where the deletion from its right child does.
  pub delete_top-IsOrdered :
      (top : E) (left right : Tree E) (size : ℕ) (rest : ℤ → Tree E)
      → IsOrdered keys left
      → IsOrdered keys right
      → Before keys ◌≤ℤ◌ top left
      → After keys ◌≤ℤ◌ top right
      → ((k : ℤ) → IsOrdered keys (rest k))
      → ((k j : ℤ) → All (λ e. k ≤ℤ key e) right → All (λ e. k ≤ℤ key e) (rest j))
      → IsOrdered keys (delete_top keys left right size rest)
  unfolding delete_top
  delete_top-IsOrdered top null right size rest ol or b a kept within =
      bring_up-IsSearch ◌≤ℤ◌ ≤ℤ_trans right or
  delete_top-IsOrdered top (node l ll lr lh ls) null size rest ol or b a kept within =
      bring_up-IsSearch ◌≤ℤ◌ ≤ℤ_trans (node l ll lr lh ls) ol
  delete_top-IsOrdered top (node l ll lr lh ls) (node r rl rr rh rs) size rest ol (br, ar, orl, orr)
        b (tr, trl, trr) kept within =
      let least = min_value_node r rl in
      let (in_right, in_top, in_left) = min_value_node-le r rl rr br orl ar in
      let above = All-min_value_node (λ e. key top ≤ℤ key e) r rl tr trl in
      settle_delete-IsSearch keys ◌≤ℤ◌ ≤ℤ_trans least (node l ll lr lh ls) (rest (key least)) size
        (All-imp (λ e p. ≤ℤ_trans (key e) (key top) (key least) p above) (node l ll lr lh ls) b)
        (within (key least) (key least) (in_top, in_left, in_right)) ol (kept (key least))

  -- A deletion of any key keeps the weak search order of a tree.
  pub delete-IsOrdered : (t : Tree E) (k : ℤ) → IsOrdered keys t → IsOrdered keys (delete keys t k)
  unfolding delete
  delete-IsOrdered null k o = tt
  delete-IsOrdered (node top left right h size) k (b, a, ol, or) = ground (
    arith,
    settle_delete-IsSearch keys ◌≤ℤ◌ ≤ℤ_trans top (delete keys left k) right size
        (All-delete keys (λ e. key e ≤ℤ key top) left k b) a (delete-IsOrdered left k ol) or,
    settle_delete-IsSearch keys ◌≤ℤ◌ ≤ℤ_trans top left (delete keys right k) size b
        (All-delete keys (λ e. key top ≤ℤ key e) right k a) ol (delete-IsOrdered right k or),
    delete_top-IsOrdered top left right size (delete keys right) ol or b a
        (λ j. delete-IsOrdered right j or) (λ j i. All-delete keys (λ e. j ≤ℤ key e) right i),
  )
