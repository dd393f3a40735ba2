-- ===== src/Avl/Count.antt =====
-- The number of nodes through insertions and deletions, and the loop that frees a tree.
use parcoach_rma.Common.{
  ℕ, zero, suc, ◌+◌, ◌≤◌, ◌≡◌, refl, ◌∙◌, inl, inr, Option, none, some, ℤ, ◌≤ℤ◌, arith, before,
  here, after, trichotomy, ap, lt-or-ge, eq_of_parts,
}
use parcoach_rma.Avl.{
  Tree, null, node, Keys, count_nodes, new_tree, left_rotate, right_rotate, insert, settle_insert,
  settle_delete, bring_up, delete_top, delete, find, min_value_node, free_rounds, free_tree,
}
use parcoach_rma.Avl.Settle.{settled, settle_insert-either, settle_delete-either}
use parcoach_rma.Avl.Steps.{
  delete_before, delete_after, delete_here, find_before, find_after, find_here,
}
use parcoach_rma.Avl.Entries.{All-min_value_node}
use parcoach_rma.Avl.Order.{IsOrdered, Before}
use parcoach_rma.Avl.Search.{delete-IsOrdered}

-- 1 for a hit and 0 for a miss.
abbrev pub found {ℓ} : {A : Type ℓ} → Option A → ℕ
found none = 0
found (some _) = 1

module _ {E : Type 0} where
  count-right_rotate : (t : Tree E) → count_nodes (right_rotate t) ≡ count_nodes t
  unfolding right_rotate
  count-right_rotate null = refl
  count-right_rotate (node y null right h size) = refl
  count-right_rotate (node y (node x l t2 hx sx) right h size) = omega arith

  count-left_rotate : (t : Tree E) → count_nodes (left_rotate t) ≡ count_nodes t
  unfolding left_rotate
  count-left_rotate null = refl
  count-left_rotate (node x left null h size) = refl
  count-left_rotate (node x left (node y t2 right hy sy) h size) = omega arith

module _ {E : Type 0} (keys : Keys E) where
  open keys use {key}

  abbrev Counts : ℕ → Tree E → Type 0
  Counts n t = count_nodes t ≡ n

  count-settle_insert :
      (itv top : E) (left right : Tree E) (size : ℕ)
      → count_nodes (settle_insert keys itv top left right size)
        ≡ suc (count_nodes left + count_nodes right)
  count-settle_insert itv top left right size =
      settle_insert-either keys (Counts (suc (count_nodes left + count_nodes right))) itv top left
        right size (λ s. refl) (λ s. count-right_rotate (settled keys top left right s))
        (λ s. count-left_rotate (settled keys top left right s))
        (λ h s. omega (
          arith,
          count-right_rotate (node top (left_rotate left) right h s),
          count-left_rotate left,
        ))
        (λ h s. omega (
          arith,
          count-left_rotate (node top left (right_rotate right) h s),
          count-right_rotate right,
        ))

  count-settle_delete :
      (top : E) (left right : Tree E) (size : ℕ)
      → count_nodes (settle_delete keys top left right size)
        ≡ suc (count_nodes left + count_nodes right)
  count-settle_delete top left right size =
      settle_delete-either keys (Counts (suc (count_nodes left + count_nodes right))) top left right
        size (λ s. refl) (λ s. count-right_rotate (settled keys top left right s))
        (λ s. count-left_rotate (settled keys top left right s))
        (λ h s. omega (
          arith,
          count-right_rotate (node top (left_rotate left) right h s),
          count-left_rotate left,
        ))
        (λ h s. omega (
          arith,
          count-left_rotate (node top left (right_rotate right) h s),
          count-right_rotate right,
        ))

  -- An insertion adds one node.
  pub count-insert : (t : Tree E) (itv : E) → count_nodes (insert keys t itv) ≡ suc (count_nodes t)
  unfolding insert new_tree
  count-insert null itv = refl
  count-insert (node top left right h size) itv = ground (
    arith,
    count-settle_insert itv top (insert keys left itv) right size,
    count-settle_insert itv top left (insert keys right itv) size,
    count-insert left itv,
    count-insert right itv,
  )

  count-bring_up : (t : Tree E) → count_nodes (bring_up keys t) ≡ count_nodes t
  unfolding bring_up
  count-bring_up null = refl
  count-bring_up (node top left right h size) = count-settle_delete top left right size

  -- The key of the leftmost content is found from the top.
  find-min_value_node :
      (top : E) (left right : Tree E) (h size : ℕ)
      → Before keys ◌≤ℤ◌ top left
      → IsOrdered keys left
      → found (find keys (node top left right h size) (key (min_value_node top left))) ≡ 1
  unfolding min_value_node
  find-min_value_node top null right h size b o =
      ap found (find_here keys top null right h size (key top) refl)
  find-min_value_node top (node x l r hx sx) right h size (xt, lt, rt) (bx, ax, ol, or) =
      let k = key (min_value_node x l) in
      let on_left = find-min_value_node x l r hx sx bx ol in
      let below : k ≤ℤ key top = All-min_value_node (λ e. key e ≤ℤ key top) x l xt lt in
      elim (lt-or-ge k (key top)) [
        | inl lt ↦ ap found (find_before keys top (node x l r hx sx) right h size k lt) ∙ on_left
        | inr ge ↦ ap found (
            find_here keys top (node x l r hx sx) right h size k
              (eq_of_parts k (key top) (omega arith)))
      ]

  count-delete_top :
      (left right : Tree E) (size : ℕ) (rest : ℤ → Tree E)
      → IsOrdered keys right
      → ((k : ℤ) → count_nodes (rest k) + found (find keys right k) ≡ count_nodes right)
      → count_nodes (delete_top keys left right size rest) ≡ count_nodes left + count_nodes right
  unfolding delete_top
  count-delete_top null right size rest o drops = omega (arith, count-bring_up right)
  count-delete_top (node l ll lr lh ls) null size rest o drops =
      omega (arith, count-bring_up (node l ll lr lh ls))
  count-delete_top (node l ll lr lh ls) (node r rl rr rh rs) size rest (b, a, ol, or) drops =
      let least = min_value_node r rl in
      omega (
        arith,
        count-settle_delete least (node l ll lr lh ls) (rest (key least)) size,
        drops (key least),
        find-min_value_node r rl rr rh rs b ol,
      )

  -- A deletion from a tree in weak search order takes one node away if the search finds the key,
  -- and none otherwise.
  pub count-delete :
      (t : Tree E) (k : ℤ)
      → IsOrdered keys t
      → count_nodes (delete keys t k) + found (find keys t k) ≡ count_nodes t
  unfolding delete find
  count-delete null k o = refl
  count-delete (node top left right h size) k (b, a, ol, or) = elim (trichotomy k (key top)) [
    | before lt ↦
        rw
          (
            delete_before keys top left right h size k lt,
            find_before keys top left right h size k lt,
          )
          (omega (
            arith,
            count-settle_delete top (delete keys left k) right size,
            count-delete left k ol,
          ))
    | here eq ↦
        rw (delete_here keys top left right h size k eq, find_here keys top left right h size k eq)
          (omega (
            arith,
            count-delete_top left right size (delete keys right) or (λ j. count-delete right j or),
          ))
    | after gt ↦
        rw
          (delete_after keys top left right h size k gt, find_after keys top left right h size k gt)
          (omega (
            arith,
            count-settle_delete top left (delete keys right k) size,
            count-delete right k or,
          ))
  ]

  free_rounds-eq-null :
      (fuel : ℕ) (t : Tree E)
      → count_nodes t ≤ fuel
      → IsOrdered keys t
      → free_rounds keys fuel t ≡ null
  unfolding free_rounds
  free_rounds-eq-null zero null h o = refl
  free_rounds-eq-null zero (node top left right h' size) h o = absurd (omega arith)
  free_rounds-eq-null (suc fuel) null h o = refl
  free_rounds-eq-null (suc fuel) (node top left right h' size) h o =
      let t = node top left right h' size in
      free_rounds-eq-null fuel (delete keys t (key top))
        (omega (
          arith,
          count-delete t (key top) o,
          ap found (find_here keys top left right h' size (key top) refl),
        ))
        (delete-IsOrdered keys t (key top) o)

  -- The loop that frees a tree in weak search order ends with NULL, within one round for each
  -- node.
  pub free_tree-eq-null : (t : Tree E) → IsOrdered keys t → free_tree keys t ≡ null
  unfolding free_tree
  free_tree-eq-null t o = free_rounds-eq-null (count_nodes t) t (omega arith) o
