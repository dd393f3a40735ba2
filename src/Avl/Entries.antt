-- ===== src/Avl/Entries.antt =====
-- A predicate that every content of a tree satisfies: rotations, insertions and deletions keep it.
use parcoach_rma.Common.{ℕ, ℤ, arith}
use parcoach_rma.Avl.{
  Tree, null, node, Keys, left_rotate, right_rotate, settle_insert, insert, settle_delete,
  min_value_node, bring_up, delete_top, delete, new_tree,
}
use parcoach_rma.Avl.Settle.{settled, settle_insert-either, settle_delete-either}

module _ {E : Type 0} where
  -- Every content of the tree satisfies `P`.
  abbrev pub All {ℓ} : (E → Type ℓ) → Tree E → Type ℓ
  All P null = Unit
  All P (node itv left right h size) = P itv × All P left × All P right

  pub All-imp {ℓ κ} :
      {P : E → Type ℓ} {Q : E → Type κ} → ((e : E) → P e → Q e) → (t : Tree E) → All P t → All Q t
  All-imp f null a = tt
  All-imp f (node itv left right h size) (p, l, r) = (f itv p, All-imp f left l, All-imp f right r)

  module _ {ℓ} (P : E → Type ℓ) where
    pub All-right_rotate : (t : Tree E) → All P t → All P (right_rotate t)
    unfolding right_rotate
    All-right_rotate null a = a
    All-right_rotate (node y null right h size) a = a
    All-right_rotate (node y (node x l t2 hx sx) right h size) (py, (px, al, at), ar) =
        (px, al, (py, at, ar))

    pub All-left_rotate : (t : Tree E) → All P t → All P (left_rotate t)
    unfolding left_rotate
    All-left_rotate null a = a
    All-left_rotate (node x left null h size) a = a
    All-left_rotate (node x left (node y t2 right hy sy) h size) (px, al, (py, at, ar)) =
        (py, (px, al, at), ar)

    pub All-min_value_node :
        (top : E) (left : Tree E) → P top → All P left → P (min_value_node top left)
    unfolding min_value_node
    All-min_value_node top null p a = p
    All-min_value_node top (node x left right h size) p (px, al, ar) =
        All-min_value_node x left px al

module _ {E : Type 0} (keys : Keys E) where
  open keys use {key}

  module _ {ℓ} (P : E → Type ℓ) where
    pub All-settle_insert :
        (itv top : E) (left right : Tree E) (size : ℕ)
        → P top
        → All P left
        → All P right
        → All P (settle_insert keys itv top left right size)
    All-settle_insert itv top left right size p l r =
        settle_insert-either keys (All P) itv top left right size (λ s. (p, l, r))
          (λ s. All-right_rotate P (settled keys top left right s) (p, l, r))
          (λ s. All-left_rotate P (settled keys top left right s) (p, l, r))
          (λ h s.
            All-right_rotate P (node top (left_rotate left) right h s)
              (p, All-left_rotate P left l, r))
          (λ h s.
            All-left_rotate P (node top left (right_rotate right) h s)
              (p, l, All-right_rotate P right r))

    pub All-settle_delete :
        (top : E) (left right : Tree E) (size : ℕ)
        → P top
        → All P left
        → All P right
        → All P (settle_delete keys top left right size)
    All-settle_delete top left right size p l r =
        settle_delete-either keys (All P) top left right size (λ s. (p, l, r))
          (λ s. All-right_rotate P (settled keys top left right s) (p, l, r))
          (λ s. All-left_rotate P (settled keys top left right s) (p, l, r))
          (λ h s.
            All-right_rotate P (node top (left_rotate left) right h s)
              (p, All-left_rotate P left l, r))
          (λ h s.
            All-left_rotate P (node top left (right_rotate right) h s)
              (p, l, All-right_rotate P right r))

    pub All-insert : (t : Tree E) (itv : E) → P itv → All P t → All P (insert keys t itv)
    unfolding insert new_tree
    All-insert null itv p a = (p, tt, tt)
    All-insert (node top left right h size) itv p (pt, al, ar) = ground (
      arith,
      All-settle_insert itv top (insert keys left itv) right size pt (All-insert left itv p al) ar,
      All-settle_insert itv top left (insert keys right itv) size pt al (All-insert right itv p ar),
    )

    pub All-bring_up : (t : Tree E) → All P t → All P (bring_up keys t)
    unfolding bring_up
    All-bring_up null a = tt
    All-bring_up (node top left right h size) (p, al, ar) =
        All-settle_delete top left right size p al ar

    pub All-delete_top :
        (left right : Tree E) (size : ℕ) (rest : ℤ → Tree E)
        → All P left
        → All P right
        → ((k : ℤ) → All P (rest k))
        → All P (delete_top keys left right size rest)
    unfolding delete_top
    All-delete_top null right size rest al ar kept = All-bring_up right ar
    All-delete_top (node l ll lr lh ls) null size rest al ar kept =
        All-bring_up (node l ll lr lh ls) al
    All-delete_top (node l ll lr lh ls) (node r rl rr rh rs) size rest al (pr, arl, arr) kept =
        All-settle_delete (min_value_node r rl) (node l ll lr lh ls) (rest _) size
          (All-min_value_node P r rl pr arl) al (kept _)

    pub All-delete : (t : Tree E) (k : ℤ) → All P t → All P (delete keys t k)
    unfolding delete
    All-delete null k a = tt
    All-delete (node top left right h size) k (p, al, ar) = ground (
      arith,
      All-settle_delete top (delete keys left k) right size p (All-delete left k al) ar,
      All-settle_delete top left (delete keys right k) size p al (All-delete right k ar),
      All-delete_top left right size (delete keys right) al ar (λ j. All-delete right j ar),
    )
