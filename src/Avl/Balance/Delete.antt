-- ===== src/Avl/Balance/Delete.antt =====
-- A deletion keeps every tree balanced.
use parcoach_rma.Common.{
  ℕ, ◌+◌, ◌≤◌, ◌≡◌, max, inl, inr, ◌⊎◌, ℤ, arith, refl, pos, ◌≤ℤ◌, ◌<ℤ◌, lt-or-ge, before, here,
  after, trichotomy,
}
use native.Mathlib.Decide.{dec_lt}
use parcoach_rma.Avl.{
  Tree, null, node, Keys, height, left_rotate, right_rotate, settle_delete, bring_up, delete_top,
  delete, get_balance, min_value_node,
}
use parcoach_rma.Avl.Steps.{delete_before, delete_after, delete_here}
use parcoach_rma.Avl.Balance.{
  IsBalanced, Close, get_balance_parts, right_rotate-IsBalanced, left_rotate-IsBalanced,
  left_right_rotate-IsBalanced, right_left_rotate-IsBalanced,
}

module _ {E : Type 0} (keys : Keys E) (top : E) (left right : Tree E) (size : ℕ) where
  abbrev new_height : ℕ
  new_height = 1 + max (height left) (height right)

  settle_delete-Close :
      Close left right
      → settle_delete keys top left right size ≡ node top left right new_height (keys.resize size)
  unfolding settle_delete
  settle_delete-Close c = ground (arith, get_balance_parts top left right new_height size)

  settle_delete_left_outer :
      height left ≡ height right + 2
      → pos 0 ≤ℤ get_balance left
      → settle_delete keys top left right size ≡ right_rotate (node top left right new_height size)
  unfolding settle_delete
  settle_delete_left_outer e b = ground (arith, get_balance_parts top left right new_height size)

  settle_delete_left_inner :
      height left ≡ height right + 2
      → get_balance left <ℤ pos 0
      → settle_delete keys top left right size
        ≡ right_rotate (node top (left_rotate left) right new_height size)
  unfolding settle_delete
  settle_delete_left_inner e b = ground (arith, get_balance_parts top left right new_height size)

  settle_delete_right_outer :
      height right ≡ height left + 2
      → get_balance right ≤ℤ pos 0
      → settle_delete keys top left right size ≡ left_rotate (node top left right new_height size)
  unfolding settle_delete
  settle_delete_right_outer e b = ground (arith, get_balance_parts top left right new_height size)

  settle_delete_right_inner :
      height right ≡ height left + 2
      → pos 0 <ℤ get_balance right
      → settle_delete keys top left right size
        ≡ left_rotate (node top left (right_rotate right) new_height size)
  unfolding settle_delete
  settle_delete_right_inner e b = ground (arith, get_balance_parts top left right new_height size)

-- A tree is balanced and its height is `n`, or `n + 1`.
abbrev Balances : {E : Type 0} → ℕ → Tree E → Type 0
Balances n t = IsBalanced t × (n ≤ height t) × (height t ≤ n + 1)

module _ {E : Type 0} (keys : Keys E) (top : E) (size : ℕ) where
  settle_delete_left_heavy :
      (left right : Tree E)
      → IsBalanced left
      → IsBalanced right
      → height left ≡ height right + 2
      → Balances (height left) (settle_delete keys top left right size)
  settle_delete_left_heavy null right bl br e = absurd (omega arith)
  settle_delete_left_heavy (node x outer inner hx sx) right bl br e =
      let left = node x outer inner hx sx in
      let hs = new_height keys top left right size in
      elim (lt-or-ge (get_balance left) (pos 0)) [
        | inl low ↦
            let (b, eq) =
              left_right_rotate-IsBalanced top x outer inner right hx sx hs size bl br e
                (omega (arith, get_balance_parts x outer inner hx sx)) in
            rw (settle_delete_left_inner keys top left right size e low)
              (b, omega arith, omega arith)
        | inr high ↦
            let (b, eq) =
              right_rotate-IsBalanced top x outer inner right hx sx hs size bl br e
                (omega (arith, get_balance_parts x outer inner hx sx)) in
            rw (settle_delete_left_outer keys top left right size e high)
              (b, omega arith, omega arith)
      ]

  settle_delete_right_heavy :
      (left right : Tree E)
      → IsBalanced left
      → IsBalanced right
      → height right ≡ height left + 2
      → Balances (height right) (settle_delete keys top left right size)
  settle_delete_right_heavy left null bl br e = absurd (omega arith)
  settle_delete_right_heavy left (node x inner outer hx sx) bl br e =
      let right = node x inner outer hx sx in
      let hs = new_height keys top left right size in
      elim (lt-or-ge (pos 0) (get_balance right)) [
        | inl low ↦
            let (b, eq) =
              right_left_rotate-IsBalanced top x left inner outer hx sx hs size bl br e
                (omega (arith, get_balance_parts x inner outer hx sx)) in
            rw (settle_delete_right_inner keys top left right size e low)
              (b, omega arith, omega arith)
        | inr high ↦
            let (b, eq) =
              left_rotate-IsBalanced top x left inner outer hx sx hs size bl br e
                (omega (arith, get_balance_parts x inner outer hx sx)) in
            rw (settle_delete_right_outer keys top left right size e high)
              (b, omega arith, omega arith)
      ]

  -- The heights of two siblings differ by two.
  abbrev Apart : Tree E → Tree E → Type 0
  Apart left right = (height right + 2 ≤ height left) ⊎ (height left + 2 ≤ height right)

  -- The end of a deletion balances a node whose children's heights differ by two at most. The
  -- height goes down only where they differ by two.
  settle_delete-IsBalanced :
      (left right : Tree E)
      → IsBalanced left
      → IsBalanced right
      → height left ≤ height right + 2
      → height right ≤ height left + 2
      → Balances (max (height left) (height right)) (settle_delete keys top left right size)
        × ((max (height left) (height right) + 1 ≤ height (settle_delete keys top left right size))
            ⊎ Apart left right)
  settle_delete-IsBalanced left right bl br hl hr = elim (dec_lt (height right + 1) (height left)) [
    | yes heavy ↦
        let (b, low, high) = settle_delete_left_heavy left right bl br (omega arith) in
        ((b, omega arith, omega arith), inr (inl (omega arith)))
    | no not_left ↦ elim (dec_lt (height left + 1) (height right)) [
      | yes heavy ↦
          let (b, low, high) = settle_delete_right_heavy left right bl br (omega arith) in
          ((b, omega arith, omega arith), inr (inr (omega arith)))
      | no not_right ↦
          let c : Close left right = omega arith in
          rw (settle_delete-Close keys top left right size c)
            (((refl, c, bl, br), omega arith, omega arith), inl (omega arith))
    ]
  ]

module _ {E : Type 0} (keys : Keys E) where
  -- A balanced tree whose height is that of `t`, or one less.
  abbrev Shrinks : Tree E → Tree E → Type 0
  Shrinks t t' = IsBalanced t' × (height t ≤ height t' + 1) × (height t' ≤ height t)

  bring_up-IsBalanced :
      (t : Tree E)
      → IsBalanced t
      → IsBalanced (bring_up keys t) × (height (bring_up keys t) ≡ height t)
  unfolding bring_up
  bring_up-IsBalanced null b = (tt, refl)
  bring_up-IsBalanced (node top left right h size) (e, c, bl, br) =
      rw (settle_delete-Close keys top left right size c) ((refl, c, bl, br), omega arith)

  delete_top-IsBalanced :
      (top : E) (left right : Tree E) (h size : ℕ) (rest : ℤ → Tree E)
      → IsBalanced (node top left right h size)
      → ((k : ℤ) → Shrinks right (rest k))
      → Shrinks (node top left right h size) (delete_top keys left right size rest)
  unfolding delete_top
  delete_top-IsBalanced top null right h size rest (e, c, bl, br) shrinks =
      let (b, eq) = bring_up-IsBalanced right br in (b, omega arith, omega arith)
  delete_top-IsBalanced top (node l ll lr lh ls) null h size rest (e, c, bl, br) shrinks =
      let (b, eq) = bring_up-IsBalanced (node l ll lr lh ls) bl in (b, omega arith, omega arith)
  delete_top-IsBalanced top (node l ll lr lh ls) (node r rl rr rh rs) h size rest (e, c, bl, br)
        shrinks =
      let least = min_value_node r rl in
      let (bt, low, high) = shrinks (key least) in
      let ((b, below, above), kept) =
        settle_delete-IsBalanced keys least size (node l ll lr lh ls) (rest (key least)) bl bt
          (omega arith) (omega arith) in
      (b, omega arith, omega arith)
    where
      open keys use {key}

  delete-Shrinks : (t : Tree E) (k : ℤ) → IsBalanced t → Shrinks t (delete keys t k)
  unfolding delete
  delete-Shrinks null k b = (tt, omega arith, omega arith)
  delete-Shrinks (node top left right h size) k (e, c, bl, br) =
      elim (trichotomy k (keys.key top)) [
        | before lt ↦
            let (bd, low, high) = delete-Shrinks left k bl in
            let ((b, below, above), kept) =
              settle_delete-IsBalanced keys top size (delete keys left k) right bd br (omega arith)
                (omega arith) in
            rw (delete_before keys top left right h size k lt) (b, omega arith, omega arith)
        | here eq ↦ rw (delete_here keys top left right h size k eq) (
            delete_top-IsBalanced top left right h size (delete keys right) (e, c, bl, br)
              (λ j. delete-Shrinks right j br))
        | after gt ↦
            let (bd, low, high) = delete-Shrinks right k br in
            let ((b, below, above), kept) =
              settle_delete-IsBalanced keys top size left (delete keys right k) bl bd (omega arith)
                (omega arith) in
            rw (delete_after keys top left right h size k gt) (b, omega arith, omega arith)
      ]

  -- A deletion of any key keeps a balanced tree balanced, does not raise it and lowers its height
  -- by one at most.
  pub delete-IsBalanced :
      (t : Tree E) (k : ℤ)
      → IsBalanced t
      → IsBalanced (delete keys t k)
        × (height t ≤ height (delete keys t k) + 1)
        × (height (delete keys t k) ≤ height t)
  delete-IsBalanced t k b = delete-Shrinks t k b
