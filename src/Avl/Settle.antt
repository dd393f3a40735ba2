-- ===== src/Avl/Settle.antt =====
-- A predicate holds of the end of an insertion or a deletion if it holds of each tree that one of
-- the rotations can leave.
use parcoach_rma.Common.{ℕ, ◌+◌, max, if-either}
use parcoach_rma.Avl.{
  Tree, node, Keys, height, left_rotate, right_rotate, settle_insert, settle_delete,
}

module _ {E : Type 0} (keys : Keys E) where
  -- The node before its rotations.
  abbrev pub settled : E → Tree E → Tree E → ℕ → Tree E
  settled top left right size = node top left right (1 + max (height left) (height right)) size

  pub settle_insert-either {ℓ} :
      (P : Tree E → Type ℓ) (itv top : E) (left right : Tree E) (size : ℕ)
      → ((s : ℕ) → P (settled top left right s))
      → ((s : ℕ) → P (right_rotate (settled top left right s)))
      → ((s : ℕ) → P (left_rotate (settled top left right s)))
      → ((h s : ℕ) → P (right_rotate (node top (left_rotate left) right h s)))
      → ((h s : ℕ) → P (left_rotate (node top left (right_rotate right) h s)))
      → P (settle_insert keys itv top left right size)
  unfolding settle_insert
  settle_insert-either P itv top left right size stay rr lr lr_rr rr_lr =
      if-either P _ (rr _)
        (if-either P _ (lr _) (if-either P _ (lr_rr _ _) (if-either P _ (rr_lr _ _) (stay _))))

  pub settle_delete-either {ℓ} :
      (P : Tree E → Type ℓ) (top : E) (left right : Tree E) (size : ℕ)
      → ((s : ℕ) → P (settled top left right s))
      → ((s : ℕ) → P (right_rotate (settled top left right s)))
      → ((s : ℕ) → P (left_rotate (settled top left right s)))
      → ((h s : ℕ) → P (right_rotate (node top (left_rotate left) right h s)))
      → ((h s : ℕ) → P (left_rotate (node top left (right_rotate right) h s)))
      → P (settle_delete keys top left right size)
  unfolding settle_delete
  settle_delete-either P top left right size stay rr lr lr_rr rr_lr =
      if-either P _ (rr _)
        (if-either P _ (lr_rr _ _) (if-either P _ (lr _) (if-either P _ (rr_lr _ _) (stay _))))
