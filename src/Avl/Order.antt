-- ===== src/Avl/Order.antt =====
-- The search order of a tree, over a transitive relation on keys. `IsOrdered` is weak on both
-- sides, since a rotation can bring a key to the left of an equal one; `IsStrict` has no equal keys.
use parcoach_rma.Common.{ℕ, ℤ, ◌≤ℤ◌, ◌<ℤ◌}
use parcoach_rma.Avl.{
  Tree, null, node, Keys, left_rotate, right_rotate, settle_insert, settle_delete,
}
use parcoach_rma.Avl.Settle.{settled, settle_insert-either, settle_delete-either}
use parcoach_rma.Avl.Entries.{All, All-imp, All-left_rotate, All-right_rotate}

module _ {E : Type 0} (keys : Keys E) (R : ℤ → ℤ → Type 0) where
  open keys use {key}

  abbrev pub Before : E → Tree E → Type 0
  Before top t = All (λ e. R (key e) (key top)) t

  abbrev pub After : E → Tree E → Type 0
  After top t = All (λ e. R (key top) (key e)) t

  abbrev pub IsSearch : Tree E → Type 0
  IsSearch null = Unit
  IsSearch (node top left right h size) =
      Before top left × After top right × IsSearch left × IsSearch right

module _ {E : Type 0} (keys : Keys E) where
  abbrev pub IsOrdered : Tree E → Type 0
  IsOrdered = IsSearch keys ◌≤ℤ◌

  abbrev pub IsStrict : Tree E → Type 0
  IsStrict = IsSearch keys ◌<ℤ◌

-- The rotations, and so the ends of an insertion and of a deletion.
module _ {E : Type 0} (keys : Keys E) (R : ℤ → ℤ → Type 0)
    (R_trans : (a b c : ℤ) → R a b → R b c → R a c) where
  open keys use {key}

  right_rotate-IsSearch : (t : Tree E) → IsSearch keys R t → IsSearch keys R (right_rotate t)
  unfolding right_rotate
  right_rotate-IsSearch null o = o
  right_rotate-IsSearch (node y null right h size) o = o
  right_rotate-IsSearch (node y (node x l t2 hx sx) right h size)
        ((xy, ly, ty), ry, (lx, tx, ol, ot), or) =
      (
        lx,
        (xy, tx, All-imp (λ e. R_trans (key x) (key y) (key e) xy) right ry),
        ol,
        (ty, ry, ot, or),
      )

  left_rotate-IsSearch : (t : Tree E) → IsSearch keys R t → IsSearch keys R (left_rotate t)
  unfolding left_rotate
  left_rotate-IsSearch null o = o
  left_rotate-IsSearch (node x left null h size) o = o
  left_rotate-IsSearch (node x left (node y t2 right hy sy) h size)
        (lx, (xy, tx, rx), ol, (ty, ry, ot, or)) =
      (
        (xy, All-imp (λ e p. R_trans (key e) (key x) (key y) p xy) left lx, ty),
        ry,
        (lx, tx, ol, ot),
        or,
      )

  module _ (top : E) (left right : Tree E) (size : ℕ) (before : Before keys R top left)
      (after : After keys R top right) (ol : IsSearch keys R left)
      (or : IsSearch keys R right) where
    lr_rr : (h s : ℕ) → IsSearch keys R (right_rotate (node top (left_rotate left) right h s))
    lr_rr h s =
        right_rotate-IsSearch (node top (left_rotate left) right h s)
          (All-left_rotate _ left before, after, left_rotate-IsSearch left ol, or)

    rr_lr : (h s : ℕ) → IsSearch keys R (left_rotate (node top left (right_rotate right) h s))
    rr_lr h s =
        left_rotate-IsSearch (node top left (right_rotate right) h s)
          (before, All-right_rotate _ right after, ol, right_rotate-IsSearch right or)

    pub settle_insert-IsSearch :
        (itv : E) → IsSearch keys R (settle_insert keys itv top left right size)
    settle_insert-IsSearch itv =
        settle_insert-either keys (IsSearch keys R) itv top left right size
          (λ s. (before, after, ol, or))
          (λ s. right_rotate-IsSearch (settled keys top left right s) (before, after, ol, or))
          (λ s. left_rotate-IsSearch (settled keys top left right s) (before, after, ol, or)) lr_rr
          rr_lr

    pub settle_delete-IsSearch : IsSearch keys R (settle_delete keys top left right size)
    settle_delete-IsSearch =
        settle_delete-either keys (IsSearch keys R) top left right size
          (λ s. (before, after, ol, or))
          (λ s. right_rotate-IsSearch (settled keys top left right s) (before, after, ol, or))
          (λ s. left_rotate-IsSearch (settled keys top left right s) (before, after, ol, or)) lr_rr
          rr_lr
