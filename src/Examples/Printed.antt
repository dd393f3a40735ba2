-- ===== src/Examples/Printed.antt =====
-- What small trees print, and the properties of the contents and of the printing of the trees applied
-- to them.
use mathlib.Core.List.Perm
use mathlib.Core.List.{Perm, flat_map}
use parcoach_rma.Common.{◌≡◌, refl, true, false, [], ◌∷◌, List, pos, length, arith}
use parcoach_rma.Interval.{Interval}
use parcoach_rma.Avl.{null, count_nodes, new_tree}
use parcoach_rma.Avl.Bag.{bag_of}
use parcoach_rma.PlainTree.{insert_plain_tree, free_plain_tree}
use parcoach_rma.PlainTree.Contents.{plain_tree_of, avl_tree_of}
use parcoach_rma.PlainTree.Bag.{bag_of-tree_of}
use parcoach_rma.Printing.{
  literal, unsigned, signed, log, print_interval, print_interval_list, in_order_print_interval_tree,
  in_order_print_plain_tree, print_tree_stats,
}
use parcoach_rma.Printing.Order.{Ascending, interval_text, bounds_text, print_trees_of}
use parcoach_rma.Printing.Stats.{
  stats, longest_branch, print_tree_stats-plain_tree_of, print_tree_stats-avl_tree_of,
}
use parcoach_rma.Examples.Trees.{first, second, third}

printed_interval :
    print_interval true first
    ≡ literal "Interval = ["
      ∷ unsigned 0
      ∷ literal " ,"
      ∷ unsigned 9
      ∷ literal "] "
      ∷ literal "notif_id "
      ∷ signed (pos 1)
      ∷ literal " "
      ∷ literal "LOCAL READ\n"
      ∷ []
unfolding print_interval log
printed_interval = refl

printed_empty_list :
    print_interval_list true [] ≡ literal "rien à afficher la liste est vide\n" ∷ []
unfolding print_interval_list log
printed_empty_list = refl

freed_plain_tree : free_plain_tree (plain_tree_of (second ∷ first ∷ [])) ≡ null
unfolding free_plain_tree insert_plain_tree new_tree
freed_plain_tree = refl

bag_of-tree_of_example :
    (bag_of (avl_tree_of (third ∷ first ∷ second ∷ []))
      ≡ bag_of (avl_tree_of (first ∷ third ∷ second ∷ [])))
    × (bag_of (plain_tree_of (third ∷ first ∷ second ∷ []))
        ≡ bag_of (avl_tree_of (first ∷ third ∷ second ∷ [])))
bag_of-tree_of_example =
    bag_of-tree_of (third ∷ first ∷ second ∷ []) (first ∷ third ∷ second ∷ [])
      (Perm.swap first third (second ∷ []))

print_trees_of_example :
    ((l : List Interval) × Perm l (third ∷ first ∷ second ∷ [])
      × (in_order_print_interval_tree true (avl_tree_of (third ∷ first ∷ second ∷ []))
          ≡ flat_map interval_text l))
    × (in_order_print_interval_tree false (avl_tree_of (third ∷ first ∷ second ∷ [])) ≡ [])
    × ((l : List Interval) × Perm l (third ∷ first ∷ second ∷ [])
        × Ascending l
        × (in_order_print_plain_tree (plain_tree_of (third ∷ first ∷ second ∷ []))
            ≡ flat_map bounds_text l))
print_trees_of_example = print_trees_of (third ∷ first ∷ second ∷ [])

print_tree_stats-plain_tree_of_example :
    print_tree_stats 40 (plain_tree_of (third ∷ second ∷ first ∷ []))
    ≡ stats 40
        (length (third ∷ second ∷ first ∷ []))
        (longest_branch (plain_tree_of (third ∷ second ∷ first ∷ [])))
print_tree_stats-plain_tree_of_example =
    print_tree_stats-plain_tree_of 40 third (second ∷ first ∷ [])

print_tree_stats-avl_tree_of_example :
    (print_tree_stats 40 (avl_tree_of (third ∷ second ∷ first ∷ [])) ≡ stats 40 2 2)
    × (count_nodes (avl_tree_of (third ∷ second ∷ first ∷ [])) ≡ 3)
print_tree_stats-avl_tree_of_example =
    print_tree_stats-avl_tree_of 40 first second third (omega arith) (omega arith)
