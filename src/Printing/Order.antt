-- ===== src/Printing/Order.antt =====
-- The order in which the printing functions of the trees write the intervals.
use Prim.Native.String.{String}
use mathlib.Core.List.Perm
use mathlib.Core.List.{Perm, perm_middle, append_assoc, map-append, flat_map}
use parcoach_rma.Common.{true, false}
use parcoach_rma.Printing.{Output, literal, unsigned, signed, log, access_text}
use parcoach_rma.Common.{◌≤◌, arith, ◌≡◌, refl, sym, ◌∙◌, ap, Bool, List, [], ◌∷◌, ◌++◌, map}
use parcoach_rma.Interval.{AccessType, local_read, local_write, rma_read, rma_write, Interval}
use parcoach_rma.Avl.{Tree, null, node}
use parcoach_rma.Avl.Entries.{All-imp}
use parcoach_rma.Avl.Order.{IsOrdered}
use parcoach_rma.Avl.Sorted.{Every, Every-append, Every-imp}
use parcoach_rma.Avl.Refine.{Every-to_list}
use parcoach_rma.Avl.Contents.{to_list}
use parcoach_rma.IntervalTree.{IntervalTree, interval_keys}
use parcoach_rma.NotifTree.{Notif, NotifTree}
use parcoach_rma.PlainTree.Contents.{
  plain_tree_of, avl_tree_of, plain_tree_of-IsOrdered, to_list-plain_tree_of,
}
use parcoach_rma.PlainTree.Bag.{to_list-Perm}
use parcoach_rma.Printing.{
  print_interval, print_links, in_order_print_interval_tree, in_order_print_notif_tree,
  print_bounds, in_order_print_plain_tree,
}

module _ {E : Type 0} where
  -- The contents, every node before those of its subtrees.
  abbrev pub pre_order : Tree E → List E
  pre_order null = []
  pre_order (node itv left right h size) = itv ∷ (pre_order left ++ pre_order right)

  pub pre_order-Perm : (t : Tree E) → Perm (pre_order t) (to_list t)
  pre_order-Perm null = Perm.rfl
  pre_order-Perm (node itv left right h size) =
      Perm.trans (Perm.cons itv (Perm.append (pre_order-Perm left) (pre_order-Perm right)))
        (Perm.symm (perm_middle (to_list left) (to_list right)))

module _ (debug : Bool) where
  print_links-append :
      (xs ys : List Interval)
      → print_links debug (xs ++ ys) ≡ print_links debug xs ++ print_links debug ys
  unfolding print_links
  print_links-append [] ys = refl
  print_links-append (x ∷ xs) ys =
      ap (λ l. print_interval debug x ++ l) (print_links-append xs ys)
      ∙ sym (append_assoc (print_interval debug x) (print_links debug xs) (print_links debug ys))

  print_interval_tree-pre_order :
      (t : IntervalTree) → in_order_print_interval_tree debug t ≡ print_links debug (pre_order t)
  unfolding in_order_print_interval_tree print_links
  print_interval_tree-pre_order null = refl
  print_interval_tree-pre_order (node itv left right h size) = cc (
    print_interval_tree-pre_order left,
    print_interval_tree-pre_order right,
    print_links-append (pre_order left) (pre_order right),
    append_assoc (print_interval debug itv) (print_links debug (pre_order left))
        (print_links debug (pre_order right)),
  )

  print_notif_tree-pre_order :
      (t : NotifTree)
      → in_order_print_notif_tree debug t ≡ print_links debug (map (λ n. n.itv) (pre_order t))
  unfolding in_order_print_notif_tree print_links
  print_notif_tree-pre_order null = refl
  print_notif_tree-pre_order (node notif left right h size) = cc (
    print_notif_tree-pre_order left,
    print_notif_tree-pre_order right,
    map-append (λ (n : Notif). n.itv) (pre_order left) (pre_order right),
    print_links-append (map (λ n. n.itv) (pre_order left)) (map (λ n. n.itv) (pre_order right)),
    append_assoc (print_interval debug notif.itv)
        (print_links debug (map (λ n. n.itv) (pre_order left)))
        (print_links debug (map (λ n. n.itv) (pre_order right))),
  )

-- The low bounds of the list never fall.
abbrev pub Ascending : List Interval → Type 0
Ascending [] = Unit
Ascending (x ∷ xs) = Every (λ e. x.low_bound ≤ e.low_bound) xs × Ascending xs

Ascending-middle :
    (xs ys : List Interval) (itv : Interval)
    → Every (λ e. e.low_bound ≤ itv.low_bound) xs
    → Every (λ e. itv.low_bound ≤ e.low_bound) ys
    → Ascending xs
    → Ascending ys
    → Ascending (xs ++ (itv ∷ ys))
Ascending-middle [] ys itv below above ax ay = (above, ay)
Ascending-middle (x ∷ xs) ys itv (b, below) above (a, ax) ay = (
  Every-append (λ e. x.low_bound ≤ e.low_bound) xs (itv ∷ ys) a
      (b, Every-imp (λ e p. omega arith) ys above),
  Ascending-middle xs ys itv below above ax ay,
)

to_list-Ascending : (t : IntervalTree) → IsOrdered interval_keys t → Ascending (to_list t)
to_list-Ascending null o = tt
to_list-Ascending (node itv left right h size) (b, a, ol, or) =
    Ascending-middle (to_list left) (to_list right) itv
      (Every-to_list (λ e. e.low_bound ≤ itv.low_bound) left (All-imp (λ e p. omega arith) left b))
      (Every-to_list (λ e. itv.low_bound ≤ e.low_bound) right
        (All-imp (λ e p. omega arith) right a))
      (to_list-Ascending left ol) (to_list-Ascending right or)

print_bounds-append :
    (xs ys : List Interval)
    → flat_map print_bounds (xs ++ ys) ≡ flat_map print_bounds xs ++ flat_map print_bounds ys
unfolding flat_map
print_bounds-append [] ys = refl
print_bounds-append (x ∷ xs) ys = cc (
  print_bounds-append xs ys,
  append_assoc (print_bounds x) (flat_map print_bounds xs) (flat_map print_bounds ys),
)

print_plain_tree-to_list :
    (t : IntervalTree) → in_order_print_plain_tree t ≡ flat_map print_bounds (to_list t)
unfolding in_order_print_plain_tree flat_map
print_plain_tree-to_list null = refl
print_plain_tree-to_list (node itv left right h size) = cc (
  print_plain_tree-to_list left,
  print_plain_tree-to_list right,
  print_bounds-append (to_list left) (itv ∷ to_list right),
  append_assoc (flat_map print_bounds (to_list left)) (print_bounds itv)
      (flat_map print_bounds (to_list right)),
)

-- What is to be printed of an interval with LOG on: its bounds, its notification id and its kind of
-- access.
abbrev kind_text : AccessType → String
kind_text local_read = "LOCAL READ\n"
kind_text local_write = "LOCAL WRITE\n"
kind_text rma_read = "RMA READ\n"
kind_text rma_write = "RMA WRITE\n"

abbrev pub interval_text : Interval → Output
interval_text itv =
    literal "Interval = ["
    ∷ unsigned itv.low_bound
    ∷ literal " ,"
    ∷ unsigned itv.up_bound
    ∷ literal "] "
    ∷ literal "notif_id "
    ∷ signed itv.notification_id
    ∷ literal " "
    ∷ literal (kind_text itv.access_type)
    ∷ []

-- What is to be printed of an interval of the plain tree: its bounds.
abbrev pub bounds_text : Interval → Output
bounds_text itv =
    literal "[" ∷ unsigned itv.low_bound ∷ literal ", " ∷ unsigned itv.up_bound ∷ literal "]\n" ∷ []

access_text-eq : (a : AccessType) → access_text a ≡ kind_text a
access_text-eq local_read = refl
access_text-eq local_write = refl
access_text-eq rma_read = refl
access_text-eq rma_write = refl

print_interval-text : (itv : Interval) → print_interval true itv ≡ interval_text itv
unfolding print_interval log
print_interval-text itv = rw (access_text-eq itv.access_type) refl

print_links-text : (l : List Interval) → print_links true l ≡ flat_map interval_text l
unfolding print_links flat_map
print_links-text [] = refl
print_links-text (itv ∷ l) = cc (print_interval-text itv, print_links-text l)

print_links-silent : (l : List Interval) → print_links false l ≡ []
unfolding print_links print_interval log
print_links-silent [] = refl
print_links-silent (itv ∷ l) = print_links-silent l

-- After the insertions of a list of intervals, the printing function of the AVL tree writes with
-- LOG on the bounds, the notification id and the kind of access of each of these intervals, in
-- some order, and with LOG off nothing. The one of the plain tree writes the bounds of each, with
-- low bounds that never fall.
pub print_trees_of :
    (is : List Interval)
    → ((l : List Interval) × Perm l is
        × (in_order_print_interval_tree true (avl_tree_of is) ≡ flat_map interval_text l))
      × (in_order_print_interval_tree false (avl_tree_of is) ≡ [])
      × ((l : List Interval) × Perm l is
          × Ascending l
          × (in_order_print_plain_tree (plain_tree_of is) ≡ flat_map bounds_text l))
print_trees_of is =
    let t = avl_tree_of is in
    let plain = plain_tree_of is in
    (
      (
        pre_order t,
        Perm.trans (pre_order-Perm t) (to_list-Perm is),
        print_interval_tree-pre_order true t ∙ print_links-text (pre_order t),
      ),
      print_interval_tree-pre_order false t ∙ print_links-silent (pre_order t),
      (
        to_list plain,
        rw (to_list-plain_tree_of is) (to_list-Perm is),
        to_list-Ascending plain (plain_tree_of-IsOrdered is),
        print_plain_tree-to_list plain,
      ),
    )
