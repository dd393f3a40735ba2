-- ===== src/NotifTree/Laws.antt =====
-- The notification tree as a map from notification ids to intervals.
use mathlib.Core.Option
use parcoach_rma.Common.{◌≡◌, ◌∙◌, ap, none, some, ℤ, arith, eqb_ℤ, if◌then◌else◌}
use parcoach_rma.Interval.{Interval, get_notif_id}
use parcoach_rma.Avl.Order.{IsStrict}
use parcoach_rma.Avl.Search.{Fresh}
use parcoach_rma.Avl.Map.{find-insert, find-delete}
use parcoach_rma.NotifTree.{
  NotifTree, notif_keys, new_notif, insert_notif_tree, delete_notif_tree, find_interval_from_notif,
}

-- After the insertion of an interval into a tree with strictly ordered ids that does not have its
-- notification id, the search for the id finds the interval, and every other search finds what it
-- found before.
pub find_interval-insert :
    (t : NotifTree) (itv : Interval) (k : ℤ)
    → IsStrict notif_keys t
    → Fresh notif_keys (get_notif_id itv) t
    → find_interval_from_notif (insert_notif_tree t itv) k
      ≡ (if eqb_ℤ k (get_notif_id itv) then some itv else find_interval_from_notif t k)
unfolding find_interval_from_notif insert_notif_tree new_notif
find_interval-insert t itv k o f =
    ap (Option.map (λ n. n.itv)) (find-insert notif_keys t (new_notif itv) k o f) ∙ ground arith

-- After a deletion from a tree with strictly ordered ids the search for the deleted id finds
-- nothing, and every other search finds what it found before.
pub find_interval-delete :
    (t : NotifTree) (j k : ℤ)
    → IsStrict notif_keys t
    → find_interval_from_notif (delete_notif_tree t j) k
      ≡ (if eqb_ℤ k j then none else find_interval_from_notif t k)
unfolding find_interval_from_notif delete_notif_tree
find_interval-delete t j k o =
    ap (Option.map (λ n. n.itv)) (find-delete notif_keys t j k o) ∙ ground arith
