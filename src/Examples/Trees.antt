-- ===== src/Examples/Trees.antt =====
-- Small trees and lists of intervals, and the properties of the trees, the list and the conflict
-- test applied to them.
use parcoach_rma.Common.{
  ℕ, ◌+◌, ◌≤◌, ◌<◌, ◌≡◌, ◌≢◌, refl, ap, pos_part, true, none, some, [], ◌∷◌, ℤ, pos, ◌↔◌, arith,
  eqb_ℤ, if◌then◌else◌,
}
use parcoach_rma.Interval.{
  AccessType, local_read, local_write, rma_write, Interval, check_access_rights, if_intersects,
}
use parcoach_rma.Interval.Conflict.{Covers, Races, if_intersects_iff}
use parcoach_rma.Avl.{null, node, height, count_nodes, insert, delete, free_tree}
use parcoach_rma.Avl.Order.{IsOrdered, IsStrict}
use parcoach_rma.Avl.Count.{free_tree-eq-null}
use parcoach_rma.Avl.Contents.{to_list}
use parcoach_rma.Avl.Sorted.{insert_sorted, remove_key}
use parcoach_rma.Avl.Refine.{to_list-insert, to_list-delete}
use parcoach_rma.Avl.Find.{Holds}
use parcoach_rma.Avl.Balance.{IsBalanced}
use parcoach_rma.Avl.Balance.Insert.{insert-IsBalanced}
use parcoach_rma.Avl.Balance.Delete.{delete-IsBalanced}
use parcoach_rma.Avl.Equal.{insert_times, insert_times-height}
use parcoach_rma.IntervalTree.{IntervalTree, interval_keys, overlap_search, insert_interval_tree}
use parcoach_rma.IntervalTree.Overlap.{
  NoConflict, overlap_search_sound, overlap_search-rma_write_iff,
}
use parcoach_rma.IntervalTree.Missed.{overlap_search_misses}
use parcoach_rma.NotifTree.{NotifTree, insert_notif_tree, find_interval_from_notif}
use parcoach_rma.NotifTree.Laws.{find_interval-insert}
use parcoach_rma.IntervalList.{if_intersects_interval_list}
use parcoach_rma.IntervalList.Laws.{Meets, if_intersects_interval_list_iff}

abbrev access : ℕ → ℕ → AccessType → ℤ → Interval
access low up type id = record {
  access_type = type;
  low_bound = low;
  up_bound = up;
  notification_id = id;
  line = pos 1;
  filename = [];
}

abbrev pub first : Interval
first = access 0 9 local_read (pos 1)

abbrev pub second : Interval
second = access 10 19 local_write (pos 2)

abbrev pub third : Interval
third = access 20 29 local_read (pos 3)

abbrev written : Interval
written = access 15 24 rma_write (pos 4)

abbrev far : Interval
far = access 40 49 rma_write (pos 5)

abbrev two_intervals : IntervalTree
two_intervals = node second (node first null null 1 1) null 2 2

abbrev three_intervals : IntervalTree
three_intervals = node second (node first null null 1 1) (node third null null 1 1) 2 3

two_intervals-IsOrdered : IsOrdered interval_keys two_intervals
two_intervals-IsOrdered = ((omega arith, tt, tt), tt, (tt, tt, tt, tt), tt)

three_intervals-IsStrict : IsStrict interval_keys three_intervals
three_intervals-IsStrict =
    ((omega arith, tt, tt), (omega arith, tt, tt), (tt, tt, tt, tt), (tt, tt, tt, tt))

-- Tests of the model.
overlap_test : overlap_search three_intervals written ≡ some second
unfolding overlap_search if_intersects check_access_rights
overlap_test = refl

no_overlap_test : overlap_search three_intervals far ≡ none
unfolding overlap_search if_intersects check_access_rights
no_overlap_test = refl

to_list-insert_example :
    to_list (insert interval_keys two_intervals third)
    ≡ insert_sorted interval_keys third (to_list two_intervals)
to_list-insert_example = to_list-insert interval_keys two_intervals third two_intervals-IsOrdered

to_list-delete_example :
    to_list (delete interval_keys three_intervals (pos 10))
    ≡ remove_key interval_keys (pos 10) (to_list three_intervals)
to_list-delete_example =
    to_list-delete interval_keys three_intervals (pos 10) three_intervals-IsStrict

free_tree-eq-null_example : free_tree interval_keys two_intervals ≡ null
free_tree-eq-null_example = free_tree-eq-null interval_keys two_intervals two_intervals-IsOrdered

two_intervals-IsBalanced : IsBalanced two_intervals
two_intervals-IsBalanced =
    (refl, (omega arith, omega arith), (refl, (omega arith, omega arith), tt, tt), tt)

ne_third : (n : ℕ) → n < 20 → pos n ≢ pos 20
ne_third n lt e = omega (arith, ap pos_part e)

insert-IsBalanced_example :
    IsBalanced (insert interval_keys two_intervals third)
    × (2 ≤ height (insert interval_keys two_intervals third))
    × (height (insert interval_keys two_intervals third) ≤ 2 + 1)
insert-IsBalanced_example =
    insert-IsBalanced interval_keys two_intervals third two_intervals-IsBalanced
      (ne_third 10 (omega arith), (ne_third 0 (omega arith), tt, tt), tt)

delete-IsBalanced_example :
    IsBalanced (delete interval_keys two_intervals (pos 10))
    × (2 ≤ height (delete interval_keys two_intervals (pos 10)) + 1)
    × (height (delete interval_keys two_intervals (pos 10)) ≤ 2)
delete-IsBalanced_example =
    delete-IsBalanced interval_keys two_intervals (pos 10) two_intervals-IsBalanced

if_intersects_iff_example :
    (if_intersects second written ≡ true)
    ↔ (((x : ℕ) × Covers second x × Covers written x) × Races local_write rma_write)
if_intersects_iff_example = if_intersects_iff second written (omega arith) (omega arith)

overlap_search_sound_example : Holds second three_intervals × (if_intersects second written ≡ true)
overlap_search_sound_example = overlap_search_sound three_intervals written overlap_test

overlap_search-rma_write_iff_example :
    (overlap_search three_intervals far ≡ none) ↔ NoConflict far three_intervals
overlap_search-rma_write_iff_example =
    overlap_search-rma_write_iff three_intervals far
      (
        omega arith,
        (omega arith, tt, tt),
        (omega arith, tt, tt),
        (omega arith, tt, tt, tt, tt),
        (omega arith, tt, tt, tt, tt),
      )
      (omega arith) refl

race_of_writes :
    check_access_rights (access 5 100 rma_write (pos 6)) (access 60 60 rma_write (pos 7)) ≡ true
unfolding check_access_rights
race_of_writes = refl

-- A write of the addresses 5 to 100, and one of the address 60, behind an access of 10 to 19.
overlap_search_misses_example :
    (overlap_search
        (insert_interval_tree (insert_interval_tree null second) (access 5 100 rma_write (pos 6)))
        (access 60 60 rma_write (pos 7))
      ≡ none)
    × (if_intersects (access 5 100 rma_write (pos 6)) (access 60 60 rma_write (pos 7)) ≡ true)
overlap_search_misses_example =
    overlap_search_misses second (access 5 100 rma_write (pos 6)) (access 60 60 rma_write (pos 7))
      (omega arith) (omega arith) (omega arith) (omega arith) (omega arith) race_of_writes

abbrev notifications : NotifTree
notifications = node (record { notif_id = pos 1; itv = first }) null null 1 1

find_interval-insert_example :
    find_interval_from_notif (insert_notif_tree notifications second) (pos 2) ≡ (
      if eqb_ℤ (pos 2) (pos 2) then some second else find_interval_from_notif notifications (pos 2))
find_interval-insert_example =
    find_interval-insert notifications second (pos 2) (tt, tt, tt, tt)
      ((λ e. omega (arith, ap pos_part e)), tt, tt)

if_intersects_interval_list_iff_example :
    (if_intersects_interval_list written (first ∷ second ∷ []) ≡ true)
    ↔ Meets written (first ∷ second ∷ [])
if_intersects_interval_list_iff_example =
    if_intersects_interval_list_iff written (first ∷ second ∷ [])

insert_times-height_example :
    (height (insert_times interval_keys second 5) ≡ 5)
    × (count_nodes (insert_times interval_keys second 5) ≡ 5)
insert_times-height_example = insert_times-height interval_keys second 5
