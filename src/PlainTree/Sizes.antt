-- ===== src/PlainTree/Sizes.antt =====
-- The sizes that a plain tree keeps.
use native.Mathlib.Decide.{dec_lt}
use parcoach_rma.Common.{ℕ, ◌+◌, ◌<◌, ◌≤◌, ◌%◌, ◌^◌, ◌≡◌, refl, max, arith}
use parcoach_rma.Interval.{Interval}
use parcoach_rma.Avl.{null, node, height, count_nodes, new_tree}
use parcoach_rma.IntervalTree.{IntervalTree}
use parcoach_rma.PlainTree.{insert_plain_tree}

-- Every node keeps the length of its longest branch and its number of nodes, as an unsigned long.
abbrev pub IsExact : IntervalTree → Type 0
IsExact null = Unit
IsExact (node itv left right h size) =
    (h ≡ 1 + max (height left) (height right))
    × (size ≡ (count_nodes left + count_nodes right + 1) % 2 ^ 64)
    × IsExact left
    × IsExact right

abbrev Grown : IntervalTree → IntervalTree → Type 0
Grown t t' = IsExact t' × (height t ≤ height t') × (count_nodes t' ≡ count_nodes t + 1)

module _ (itv : Interval) (left right : IntervalTree) (h size : ℕ) (i : Interval) where
  plain_left :
      i.low_bound < itv.low_bound
      → insert_plain_tree (node itv left right h size) i
        ≡ node itv
            (insert_plain_tree left i)
            right
            (max h (height (insert_plain_tree left i) + 1))
            ((size + 1) % 2 ^ 64)
  unfolding insert_plain_tree
  plain_left lt = ground arith

  plain_right :
      itv.low_bound ≤ i.low_bound
      → insert_plain_tree (node itv left right h size) i
        ≡ node itv left
            (insert_plain_tree right i)
            (max h (height (insert_plain_tree right i) + 1))
            ((size + 1) % 2 ^ 64)
  unfolding insert_plain_tree
  plain_right le = ground arith

insert_plain_tree-Grown :
    (t : IntervalTree) (i : Interval) → IsExact t → Grown t (insert_plain_tree t i)
unfolding insert_plain_tree new_tree
insert_plain_tree-Grown null i e = ((refl, refl, tt, tt), omega arith, refl)
insert_plain_tree-Grown (node itv left right h size) i (eh, es, el, er) =
    elim (dec_lt i.low_bound itv.low_bound) [
      | yes lt ↦
          let (exact, higher, more) = insert_plain_tree-Grown left i el in
          rw (plain_left itv left right h size i lt)
            ((omega arith, omega arith, exact, er), omega arith, omega arith)
      | no ge ↦
          let (exact, higher, more) = insert_plain_tree-Grown right i er in
          rw (plain_right itv left right h size i (omega arith))
            ((omega arith, omega arith, el, exact), omega arith, omega arith)
    ]

-- A plain insertion adds one node and keeps every height the length of the longest branch, and every
-- size the number of nodes, as an unsigned long.
pub insert_plain_tree-IsExact :
    (t : IntervalTree) (i : Interval)
    → IsExact t
    → IsExact (insert_plain_tree t i) × (count_nodes (insert_plain_tree t i) ≡ count_nodes t + 1)
insert_plain_tree-IsExact t i e =
    let (exact, higher, more) = insert_plain_tree-Grown t i e in (exact, more)
