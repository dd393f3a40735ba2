-- ===== src/Avl/Steps.antt =====
-- Insertion and deletion at a node, by where the key stands to the node's.
use parcoach_rma.Common.{ℕ, ◌≡◌, ℤ, ◌≤ℤ◌, ◌<ℤ◌, arith, ap, some, pos_part, neg_part}
use parcoach_rma.Avl.{
  Tree, node, Keys, insert, settle_insert, settle_delete, delete_top, delete, find,
}

module _ {E : Type 0} (keys : Keys E) (top : E) (left right : Tree E) (h size : ℕ) where
  open keys use {key}

  pub insert_before :
      (itv : E)
      → key itv <ℤ key top
      → insert keys (node top left right h size) itv
        ≡ settle_insert keys itv top (insert keys left itv) right size
  unfolding insert
  insert_before itv lt = ground arith

  pub insert_after :
      (itv : E)
      → key top ≤ℤ key itv
      → insert keys (node top left right h size) itv
        ≡ settle_insert keys itv top left (insert keys right itv) size
  unfolding insert
  insert_after itv ge = ground arith

  pub delete_before :
      (k : ℤ)
      → k <ℤ key top
      → delete keys (node top left right h size) k
        ≡ settle_delete keys top (delete keys left k) right size
  unfolding delete
  delete_before k lt = ground arith

  pub delete_after :
      (k : ℤ)
      → key top <ℤ k
      → delete keys (node top left right h size) k
        ≡ settle_delete keys top left (delete keys right k) size
  unfolding delete
  delete_after k gt = ground arith

  pub delete_here :
      (k : ℤ)
      → k ≡ key top
      → delete keys (node top left right h size) k
        ≡ delete_top keys left right size (delete keys right)
  unfolding delete
  delete_here k e = ground (arith, ap pos_part e, ap neg_part e)

  pub find_before :
      (k : ℤ) → k <ℤ key top → find keys (node top left right h size) k ≡ find keys left k
  unfolding find
  find_before k lt = ground arith

  pub find_after :
      (k : ℤ) → key top <ℤ k → find keys (node top left right h size) k ≡ find keys right k
  unfolding find
  find_after k gt = ground arith

  pub find_here : (k : ℤ) → k ≡ key top → find keys (node top left right h size) k ≡ some top
  unfolding find
  find_here k e = ground (arith, ap pos_part e, ap neg_part e)
