-- ===== src/IntervalTree.antt =====
-- src/core/interval_avl_tree.c: the AVL tree of intervals, ordered by their low bounds.
pub mod Overlap
pub mod Missed
pub mod Removal
use parcoach_rma.Common.{
  ℕ, ◌+◌, ◌-◌, ◌%◌, ◌^◌, true, false, Option, none, some, ℤ, pos, pos_part, ltb, if◌then◌else◌,
}
use parcoach_rma.Interval.{Interval, get_low_bound, if_intersects}
use parcoach_rma.Avl.{Tree, null, node, Keys, insert, delete, free_tree}

abbrev pub IntervalTree : Type 0
IntervalTree = Tree Interval

-- A low bound is a `uint64_t`, so the bounds of a missing child wrap around. A deletion leaves
-- `tree_size` alone.
abbrev pub interval_keys : Keys Interval
interval_keys = record {
  key = λ itv. pos (get_low_bound itv);
  above = λ k. pos ((pos_part k + 1) % 2 ^ 64);
  below = λ k. pos ((pos_part k + 2 ^ 64 - 1) % 2 ^ 64);
  resize = λ size. size;
}

unfoldable pub insert_interval_tree : IntervalTree → Interval → IntervalTree
insert_interval_tree root itv = insert interval_keys root itv

unfoldable pub delete_interval_tree : IntervalTree → Interval → IntervalTree
delete_interval_tree root itv = delete interval_keys root (pos (get_low_bound itv))

unfoldable pub free_interval_tree : IntervalTree → IntervalTree
free_interval_tree root = free_tree interval_keys root

unfoldable pub overlap_search : IntervalTree → Interval → Option Interval
overlap_search null i = none
overlap_search (node top left right h size) i = elim (if_intersects top i) [
  | true ↦ some top
  | false ↦ elim (ltb (get_low_bound i) (get_low_bound top)) [
    | true ↦ overlap_search left i
    | false ↦ elim (ltb (get_low_bound top) (get_low_bound i)) [
      | true ↦ overlap_search right i
      | false ↦ none
    ]
  ]
]
