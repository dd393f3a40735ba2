-- ===== src/PlainTree/Contents.antt =====
-- The plain tree and the AVL tree hold the same contents in the same order, and the height of a
-- plain tree is that of its longest branch.
use native.Mathlib.Decide.{dec_lt}
use parcoach_rma.Common.{
  ℕ, ◌+◌, ◌<◌, ◌≤◌, ◌%◌, ◌^◌, ◌≡◌, refl, sym, ◌∙◌, ap, max, true, false, List, [], ◌∷◌, ◌++◌, ◌≤ℤ◌,
  pos, arith, ltb,
}
use parcoach_rma.Interval.{Interval, get_low_bound}
use parcoach_rma.Avl.{null, node, height, new_tree}
use parcoach_rma.Avl.Entries.{All, All-imp}
use parcoach_rma.Avl.Order.{IsOrdered}
use parcoach_rma.Avl.Search.{insert-IsOrdered}
use parcoach_rma.Avl.Contents.{to_list}
use parcoach_rma.Avl.Sorted.{insert_sorted, insert_sorted-append, insert_sorted-behind}
use parcoach_rma.Avl.Refine.{Every-to_list, to_list-insert}
use parcoach_rma.IntervalTree.{IntervalTree, interval_keys, insert_interval_tree}
use parcoach_rma.PlainTree.{insert_plain_tree}

All-insert_plain_tree :
    (P : Interval → Type 0) (t : IntervalTree) (i : Interval)
    → P i
    → All P t
    → All P (insert_plain_tree t i)
unfolding insert_plain_tree new_tree
All-insert_plain_tree P null i p a = (p, tt, tt)
All-insert_plain_tree P (node itv left right h size) i p (q, al, ar) =
    elim (ltb (get_low_bound i) (get_low_bound itv))
      as (λ b. All P (elim b [
        | true ↦
            let left' = insert_plain_tree left i in
            node itv left' right (max h (height left' + 1)) ((size + 1) % 2 ^ 64)
        | false ↦
            let right' = insert_plain_tree right i in
            node itv left right' (max h (height right' + 1)) ((size + 1) % 2 ^ 64)
      ])) [
        | true ↦ (q, All-insert_plain_tree P left i p al, ar)
        | false ↦ (q, al, All-insert_plain_tree P right i p ar)
      ]

-- A plain insertion keeps the search order.
insert_plain_tree-IsOrdered :
    (t : IntervalTree) (i : Interval)
    → IsOrdered interval_keys t
    → IsOrdered interval_keys (insert_plain_tree t i)
unfolding insert_plain_tree new_tree
insert_plain_tree-IsOrdered null i o = (tt, tt, tt, tt)
insert_plain_tree-IsOrdered (node itv left right h size) i (b, a, ol, or) = ground (
  arith,
  λ (p : i.low_bound < itv.low_bound).
      All-insert_plain_tree (λ e. pos e.low_bound ≤ℤ pos itv.low_bound) left i (omega arith) b,
  λ (p : itv.low_bound ≤ i.low_bound).
      All-insert_plain_tree (λ e. pos itv.low_bound ≤ℤ pos e.low_bound) right i (omega arith) a,
  insert_plain_tree-IsOrdered left i ol,
  insert_plain_tree-IsOrdered right i or,
)

module _ (itv : Interval) (left right : IntervalTree) (h size : ℕ) (i : Interval) where
  plain_before :
      i.low_bound < itv.low_bound
      → to_list (insert_plain_tree (node itv left right h size) i)
        ≡ to_list (insert_plain_tree left i) ++ (itv ∷ to_list right)
  unfolding insert_plain_tree
  plain_before lt = ground arith

  plain_after :
      itv.low_bound ≤ i.low_bound
      → to_list (insert_plain_tree (node itv left right h size) i)
        ≡ to_list left ++ (itv ∷ to_list (insert_plain_tree right i))
  unfolding insert_plain_tree
  plain_after le = ground arith

sorted_after :
    (itv i : Interval) (right : List Interval)
    → itv.low_bound ≤ i.low_bound
    → insert_sorted interval_keys i (itv ∷ right) ≡ itv ∷ insert_sorted interval_keys i right
unfolding insert_sorted
sorted_after itv i right le = ground arith

to_list-insert_plain_tree :
    (t : IntervalTree) (i : Interval)
    → IsOrdered interval_keys t
    → to_list (insert_plain_tree t i) ≡ insert_sorted interval_keys i (to_list t)
unfolding insert_plain_tree new_tree insert_sorted
to_list-insert_plain_tree null i o = refl
to_list-insert_plain_tree (node itv left right h size) i (b, a, ol, or) =
    elim (dec_lt i.low_bound itv.low_bound) [
      | yes lt ↦
          plain_before itv left right h size i lt
          ∙ ap (λ l. l ++ (itv ∷ to_list right)) (to_list-insert_plain_tree left i ol)
          ∙ sym (
              insert_sorted-append interval_keys i itv (to_list left) (to_list right) (omega arith))
      | no ge ↦
          plain_after itv left right h size i (omega arith)
          ∙ ap (λ l. to_list left ++ (itv ∷ l)) (to_list-insert_plain_tree right i or)
          ∙ sym (
              insert_sorted-behind interval_keys i (to_list left) (itv ∷ to_list right) (
                Every-to_list (λ e. pos e.low_bound ≤ℤ pos i.low_bound) left
                  (All-imp (λ e p. omega arith) left b))
              ∙ ap (λ l. to_list left ++ l) (sorted_after itv i (to_list right) (omega arith)))
    ]

-- The trees after the insertion of the intervals of a list, the last one first.
abbrev pub plain_tree_of : List Interval → IntervalTree
plain_tree_of [] = null
plain_tree_of (i ∷ is) = insert_plain_tree (plain_tree_of is) i

abbrev pub avl_tree_of : List Interval → IntervalTree
avl_tree_of [] = null
avl_tree_of (i ∷ is) = insert_interval_tree (avl_tree_of is) i

pub plain_tree_of-IsOrdered : (is : List Interval) → IsOrdered interval_keys (plain_tree_of is)
plain_tree_of-IsOrdered [] = tt
plain_tree_of-IsOrdered (i ∷ is) =
    insert_plain_tree-IsOrdered (plain_tree_of is) i (plain_tree_of-IsOrdered is)

pub avl_tree_of-IsOrdered : (is : List Interval) → IsOrdered interval_keys (avl_tree_of is)
unfolding insert_interval_tree
avl_tree_of-IsOrdered [] = tt
avl_tree_of-IsOrdered (i ∷ is) =
    insert-IsOrdered interval_keys (avl_tree_of is) i (avl_tree_of-IsOrdered is)

pub to_list-avl_insert :
    (t : IntervalTree) (i : Interval)
    → IsOrdered interval_keys t
    → to_list (insert_interval_tree t i) ≡ insert_sorted interval_keys i (to_list t)
unfolding insert_interval_tree
to_list-avl_insert t i o = to_list-insert interval_keys t i o

-- After the same insertions the plain tree and the AVL tree hold the same intervals in the same
-- order.
pub to_list-plain_tree_of :
    (is : List Interval) → to_list (plain_tree_of is) ≡ to_list (avl_tree_of is)
to_list-plain_tree_of [] = refl
to_list-plain_tree_of (i ∷ is) =
    to_list-insert_plain_tree (plain_tree_of is) i (plain_tree_of-IsOrdered is)
    ∙ ap (insert_sorted interval_keys i) (to_list-plain_tree_of is)
    ∙ sym (to_list-avl_insert (avl_tree_of is) i (avl_tree_of-IsOrdered is))
