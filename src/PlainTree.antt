-- ===== src/PlainTree.antt =====
-- src/core/interval_tree.c: the search tree of intervals that is not balanced, an alternative to
-- src/core/interval_avl_tree.c that the build leaves out.
pub mod Contents
pub mod Sizes
pub mod Bag
use parcoach_rma.Common.{ℕ, ◌+◌, ◌%◌, ◌^◌, max, true, false, Option, none, some, ltb}
use parcoach_rma.Interval.{Interval, get_low_bound, if_intersects}
use parcoach_rma.Avl.{Tree, null, node, height, new_tree}
use parcoach_rma.IntervalTree.{IntervalTree}

-- `max` takes `unsigned long` there; the height of a node is an `int`.
unfoldable pub insert_plain_tree : IntervalTree → Interval → IntervalTree
insert_plain_tree null i = new_tree i
insert_plain_tree (node itv left right h size) i =
    elim (ltb (get_low_bound i) (get_low_bound itv)) [
      | true ↦
          let left' = insert_plain_tree left i in
          node itv left' right (max h (height left' + 1)) ((size + 1) % 2 ^ 64)
      | false ↦
          let right' = insert_plain_tree right i in
          node itv left right' (max h (height right' + 1)) ((size + 1) % 2 ^ 64)
    ]

unfoldable pub overlap_search_plain : IntervalTree → Interval → Option Interval
overlap_search_plain null i = none
overlap_search_plain (node itv left right h size) i = elim (if_intersects itv i) [
  | true ↦ some itv
  | false ↦ elim (ltb (get_low_bound i) (get_low_bound itv)) [
    | true ↦ overlap_search_plain left i
    | false ↦ elim (ltb (get_low_bound itv) (get_low_bound i)) [
      | true ↦ overlap_search_plain right i
      | false ↦ none
    ]
  ]
]

-- Its `free` releases the nodes, and the return is NULL.
unfoldable pub free_plain_tree : IntervalTree → IntervalTree
free_plain_tree null = null
free_plain_tree (node itv left right h size) =
    let left' = free_plain_tree left in let right' = free_plain_tree right in null
