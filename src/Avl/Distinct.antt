-- ===== src/Avl/Distinct.antt =====
-- Trees whose keys are distinct: a deletion leaves no content with the key, keeps the keys
-- distinct, and changes no other search.
use parcoach_rma.Common.{
  ℕ, sym, ℤ, ◌≤ℤ◌, ◌<ℤ◌, ◌≢◌, arith, <ℤ_trans, ne_of_lt, lt_of_le_ne, before, here, after,
  trichotomy,
}
use parcoach_rma.Avl.{Tree, null, node, Keys, min_value_node, delete_top, delete}
use parcoach_rma.Avl.Entries.{
  All, All-imp, All-min_value_node, All-delete, All-settle_delete, All-delete_top,
}
use parcoach_rma.Avl.Steps.{delete_before, delete_after, delete_here}
use parcoach_rma.Avl.Order.{Before, After, IsOrdered, IsStrict, settle_delete-IsSearch}
use parcoach_rma.Avl.Search.{Fresh, bring_up-IsSearch, min_value_node-le}

module _ {E : Type 0} (keys : Keys E) where
  open keys use {key}

  -- Distinct keys in order are in order.
  pub IsStrict-IsOrdered : (t : Tree E) → IsStrict keys t → IsOrdered keys t
  IsStrict-IsOrdered null o = tt
  IsStrict-IsOrdered (node top left right h size) (b, a, ol, or) = (
    All-imp (λ e p. omega arith) left b,
    All-imp (λ e p. omega arith) right a,
    IsStrict-IsOrdered left ol,
    IsStrict-IsOrdered right or,
  )

  Fresh-Before :
      (k : ℤ) (top : E) (t : Tree E) → Before keys ◌<ℤ◌ top t → key top ≤ℤ k → Fresh keys k t
  Fresh-Before k top t b le = All-imp (λ e p. ne_of_lt (key e) k (omega arith)) t b

  Fresh-After :
      (k : ℤ) (top : E) (t : Tree E) → After keys ◌<ℤ◌ top t → k ≤ℤ key top → Fresh keys k t
  Fresh-After k top t a le = All-imp (λ e p q. ne_of_lt k (key e) (omega arith) (sym q)) t a

  -- A deletion leaves no content with the key.
  pub delete-Fresh : (t : Tree E) (k : ℤ) → IsStrict keys t → Fresh keys k (delete keys t k)
  unfolding delete
  delete-Fresh null k o = tt
  delete-Fresh (node top left right h size) k (b, a, ol, or) = elim (trichotomy k (key top)) [
    | before lt ↦ rw (delete_before keys top left right h size k lt) (
        All-settle_delete keys (λ e. key e ≢ k) top (delete keys left k) right size
          (λ q. ne_of_lt k (key top) lt (sym q)) (delete-Fresh left k ol)
          (Fresh-After k top right a (omega arith)))
    | here eq ↦
        let le : (key top ≤ℤ k) × (k ≤ℤ key top) = rw eq (omega arith, omega arith) in
        let on_right = Fresh-After k top right a le.1 in
        rw (delete_here keys top left right h size k eq) (
          All-delete_top keys (λ e. key e ≢ k) left right size (delete keys right)
            (Fresh-Before k top left b le.0) on_right
            (λ j. All-delete keys (λ e. key e ≢ k) right j on_right))
    | after gt ↦ rw (delete_after keys top left right h size k gt) (
        All-settle_delete keys (λ e. key e ≢ k) top left (delete keys right k) size
          (ne_of_lt (key top) k gt) (Fresh-Before k top left b (omega arith))
          (delete-Fresh right k or))
  ]

  delete_top-IsStrict :
      (top : E) (left right : Tree E) (size : ℕ)
      → IsStrict keys left
      → IsStrict keys right
      → Before keys ◌<ℤ◌ top left
      → After keys ◌<ℤ◌ top right
      → ((k : ℤ) → IsStrict keys (delete keys right k))
      → IsStrict keys (delete_top keys left right size (delete keys right))
  unfolding delete_top
  delete_top-IsStrict top null right size ol or b a kept =
      bring_up-IsSearch keys ◌<ℤ◌ <ℤ_trans right or
  delete_top-IsStrict top (node l ll lr lh ls) null size ol or b a kept =
      bring_up-IsSearch keys ◌<ℤ◌ <ℤ_trans (node l ll lr lh ls) ol
  delete_top-IsStrict top (node l ll lr lh ls) (node r rl rr rh rs) size ol or b (tr, trl, trr)
        kept =
      let right = node r rl rr rh rs in
      let least = min_value_node r rl in
      let weak = IsStrict-IsOrdered right or in
      let (in_right, in_top, in_left) = min_value_node-le keys r rl rr weak.0 weak.2 weak.1 in
      let above = All-min_value_node (λ e. key top <ℤ key e) r rl tr trl in
      settle_delete-IsSearch keys ◌<ℤ◌ <ℤ_trans least (node l ll lr lh ls)
        (delete keys right (key least)) size
        (All-imp (λ e p. <ℤ_trans (key e) (key top) (key least) p above) (node l ll lr lh ls) b)
        (All-both (key least) (delete keys right (key least))
          (All-delete keys (λ e. key least ≤ℤ key e) right (key least) (in_top, in_left, in_right))
          (delete-Fresh right (key least) or))
        ol (kept (key least))
    where
      All-both :
          (k : ℤ) (t : Tree E) → All (λ e. k ≤ℤ key e) t → Fresh keys k t → All (λ e. k <ℤ key e) t
      All-both k null p q = tt
      All-both k (node x lx rx hx sx) (px, pl, pr) (qx, ql, qr) =
          (lt_of_le_ne k (key x) px (λ e. qx (sym e)), All-both k lx pl ql, All-both k rx pr qr)

  -- A deletion keeps the keys distinct and in order.
  pub delete-IsStrict : (t : Tree E) (k : ℤ) → IsStrict keys t → IsStrict keys (delete keys t k)
  unfolding delete
  delete-IsStrict null k o = tt
  delete-IsStrict (node top left right h size) k (b, a, ol, or) = elim (trichotomy k (key top)) [
    | before lt ↦ rw (delete_before keys top left right h size k lt) (
        settle_delete-IsSearch keys ◌<ℤ◌ <ℤ_trans top (delete keys left k) right size
          (All-delete keys (λ e. key e <ℤ key top) left k b) a (delete-IsStrict left k ol) or)
    | here eq ↦
        rw (delete_here keys top left right h size k eq)
          (delete_top-IsStrict top left right size ol or b a (λ j. delete-IsStrict right j or))
    | after gt ↦ rw (delete_after keys top left right h size k gt) (
        settle_delete-IsSearch keys ◌<ℤ◌ <ℤ_trans top left (delete keys right k) size b
          (All-delete keys (λ e. key top <ℤ key e) right k a) ol (delete-IsStrict right k or))
  ]
