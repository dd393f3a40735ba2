-- ===== src/PlainTree/Bag.antt =====
-- The intervals that a tree holds after insertions, in whatever order they come.
use mathlib.Core.Quot
use mathlib.Core.List.Perm
use mathlib.Core.List.{Perm}
use parcoach_rma.Common.{◌≡◌, refl, sym, ◌∙◌, ap, List, [], ◌∷◌}
use parcoach_rma.Interval.{Interval}
use parcoach_rma.Avl.Bag.{Bag, bag_of, put, bag_of-insert, insert_sorted-Perm}
use parcoach_rma.Avl.Contents.{to_list}
use parcoach_rma.IntervalTree.{interval_keys, insert_interval_tree}
use parcoach_rma.PlainTree.Contents.{
  plain_tree_of, avl_tree_of, avl_tree_of-IsOrdered, to_list-avl_insert, to_list-plain_tree_of,
}

bag_of-insert_interval_tree :
    (is : List Interval) (i : Interval)
    → bag_of (insert_interval_tree (avl_tree_of is) i) ≡ put i (bag_of (avl_tree_of is))
unfolding insert_interval_tree
bag_of-insert_interval_tree is i =
    bag_of-insert interval_keys (avl_tree_of is) i (avl_tree_of-IsOrdered is)

-- The bag of an AVL tree is that of the intervals inserted.
pub bag_of-avl_tree_of :
    (is : List Interval) → ◌≡◌ {A = Bag Interval} (bag_of (avl_tree_of is)) (Quot.mk is)
unfolding put
bag_of-avl_tree_of [] = refl
bag_of-avl_tree_of (i ∷ is) = bag_of-insert_interval_tree is i ∙ ap (put i) (bag_of-avl_tree_of is)

pub to_list-Perm : (is : List Interval) → Perm (to_list (avl_tree_of is)) is
to_list-Perm [] = Perm.rfl
to_list-Perm (i ∷ is) = rw (to_list-avl_insert (avl_tree_of is) i (avl_tree_of-IsOrdered is)) (
    Perm.trans (insert_sorted-Perm interval_keys i (to_list (avl_tree_of is)))
      (Perm.cons i (to_list-Perm is)))

-- The order in which intervals are inserted has no effect on which intervals the AVL tree and the
-- plain tree hold, and how often: after the insertions of two lists that are permutations of each
-- other, both trees hold the same bag of intervals.
pub bag_of-tree_of :
    (is js : List Interval)
    → Perm is js
    → (bag_of (avl_tree_of is) ≡ bag_of (avl_tree_of js))
      × (bag_of (plain_tree_of is) ≡ bag_of (avl_tree_of js))
bag_of-tree_of is js p =
    let same = bag_of-avl_tree_of is ∙ Quot.sound p ∙ sym (bag_of-avl_tree_of js) in
    (same, ap (λ (l : List Interval). Quot.mk l) (to_list-plain_tree_of is) ∙ same)
