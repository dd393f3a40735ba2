-- ===== src/IntervalTree/Missed.antt =====
-- A conflict that the search by low bounds does not see: the tree keeps no upper bound of a
-- subtree, so an interval that reaches over its parent is passed by.
use parcoach_rma.Common.{◌≤◌, ◌<◌, ◌≡◌, ◌∙◌, ap, true, none, arith}
use parcoach_rma.Interval.{Interval, if_intersects, check_access_rights}
use parcoach_rma.Avl.{null, node, insert, new_tree}
use parcoach_rma.Avl.Steps.{insert_before}
use parcoach_rma.Avl.Balance.Cases.{settle_insert-Close}
use parcoach_rma.IntervalTree.{interval_keys, insert_interval_tree, overlap_search}

-- `a` is inserted, then `b`, which begins before `a` and reaches over it.
two_intervals-eq :
    (a b : Interval)
    → b.low_bound < a.low_bound
    → insert_interval_tree (insert_interval_tree null a) b ≡ node a (node b null null 1 1) null 2 2
unfolding insert_interval_tree insert new_tree
two_intervals-eq a b lt =
    insert_before interval_keys a null null 1 1 b (omega arith)
    ∙ settle_insert-Close interval_keys b a 1 (node b null null 1 1) null (omega arith)

-- Let `a` be inserted first and then `b`, which begins before `a`, into the empty tree. The
-- search for a proper interval `q` that lies behind the proper `a` and begins within `b`, with
-- accesses of `b` and `q` that race, finds nothing, though `b` and `q` conflict.
pub overlap_search_misses :
    (a b q : Interval)
    → b.low_bound < a.low_bound
    → a.low_bound ≤ a.up_bound
    → a.up_bound < q.low_bound
    → q.low_bound ≤ b.up_bound
    → q.low_bound ≤ q.up_bound
    → check_access_rights b q ≡ true
    → (overlap_search (insert_interval_tree (insert_interval_tree null a) b) q ≡ none)
      × (if_intersects b q ≡ true)
unfolding overlap_search if_intersects
overlap_search_misses a b q ba pa aq qb pq r =
    (ap (λ t. overlap_search t q) (two_intervals-eq a b ba) ∙ ground arith, ground arith)
