-- ===== src/Avl/Balance.antt =====
-- Balance: every node keeps the height of its subtree, and the heights of two siblings differ by
-- one at most.
pub mod Cases
pub mod Insert
pub mod Delete
use parcoach_rma.Common.{
  ℕ, zero, suc, ◌+◌, ◌≤◌, ◌<◌, ◌≡◌, max, ◌⊎◌, ℤ, arith, refl, pos_part, neg_part, pos, ◌≤ℤ◌, ◌<ℤ◌,
}
use parcoach_rma.Avl.{
  Tree, null, node, Keys, height, left_rotate, right_rotate, settle_delete, bring_up, delete_top,
  delete, get_balance,
}

module _ {E : Type 0} where
  -- The heights of two siblings differ by one at most.
  abbrev pub Close : Tree E → Tree E → Type 0
  Close left right = (height left ≤ height right + 1) × (height right ≤ height left + 1)

  abbrev pub IsBalanced : Tree E → Type 0
  IsBalanced null = Unit
  IsBalanced (node itv left right h size) =
      (h ≡ 1 + max (height left) (height right))
      × Close left right
      × IsBalanced left
      × IsBalanced right

  -- The height of a tree is `n`, or `n + 1`.
  abbrev pub Between : Tree E → ℕ → Type 0
  Between t n = (n ≤ height t) × (height t ≤ n + 1)

  pub get_balance_parts :
      (top : E) (left right : Tree E) (h size : ℕ)
      → pos_part (get_balance (node top left right h size)) + height right
        ≡ neg_part (get_balance (node top left right h size)) + height left
  unfolding get_balance
  get_balance_parts top left right h size = ground arith

  -- The single rotations that a heavy side asks for, and the height that they leave.
  pub right_rotate-IsBalanced :
      (top x : E) (outer inner right : Tree E) (hx sx h size : ℕ)
      → IsBalanced (node x outer inner hx sx)
      → IsBalanced right
      → hx ≡ height right + 2
      → height inner ≤ height outer
      → IsBalanced (right_rotate (node top (node x outer inner hx sx) right h size))
        × (height (right_rotate (node top (node x outer inner hx sx) right h size))
            ≡ height inner + 2)
  unfolding right_rotate
  right_rotate-IsBalanced top x outer inner right hx sx h size bl br e le = ground arith

  pub left_rotate-IsBalanced :
      (top x : E) (left inner outer : Tree E) (hx sx h size : ℕ)
      → IsBalanced left
      → IsBalanced (node x inner outer hx sx)
      → hx ≡ height left + 2
      → height inner ≤ height outer
      → IsBalanced (left_rotate (node top left (node x inner outer hx sx) h size))
        × (height (left_rotate (node top left (node x inner outer hx sx) h size))
            ≡ height inner + 2)
  unfolding left_rotate
  left_rotate-IsBalanced top x left inner outer hx sx h size bl br e le = ground arith

  -- The double rotations.
  pub left_right_rotate-IsBalanced :
      (top x : E) (outer inner right : Tree E) (hx sx h size : ℕ)
      → IsBalanced (node x outer inner hx sx)
      → IsBalanced right
      → hx ≡ height right + 2
      → height outer < height inner
      → IsBalanced (right_rotate (node top (left_rotate (node x outer inner hx sx)) right h size))
        × (height (right_rotate (node top (left_rotate (node x outer inner hx sx)) right h size))
            ≡ hx)
  unfolding left_rotate right_rotate
  left_right_rotate-IsBalanced top x outer null right hx sx h size bl br e lt = absurd (omega arith)
  left_right_rotate-IsBalanced top x outer (node y a b hy sy) right hx sx h size bl br e lt =
      ground arith

  pub right_left_rotate-IsBalanced :
      (top x : E) (left inner outer : Tree E) (hx sx h size : ℕ)
      → IsBalanced left
      → IsBalanced (node x inner outer hx sx)
      → hx ≡ height left + 2
      → height outer < height inner
      → IsBalanced (left_rotate (node top left (right_rotate (node x inner outer hx sx)) h size))
        × (height (left_rotate (node top left (right_rotate (node x inner outer hx sx)) h size))
            ≡ hx)
  unfolding left_rotate right_rotate
  right_left_rotate-IsBalanced top x left null outer hx sx h size bl br e lt = absurd (omega arith)
  right_left_rotate-IsBalanced top x left (node y a b hy sy) outer hx sx h size bl br e lt =
      ground arith
