-- ===== src/IntervalTree/Removal.antt =====
-- src/core/interval_avl_tree.c: which interval a deletion by low bound takes out of the tree.
use parcoach_rma.Common.{◌≡◌, refl, ◌∙◌, ap, List, [], ◌∷◌, ◌++◌, ◌<◌, ◌≢◌, pos, pos_part, arith}
use mathlib.Core.Path.{subst}
use parcoach_rma.Interval.{Interval}
use parcoach_rma.Avl.{
  null, node, new_tree, insert, settle_insert, child_key, get_balance, delete, delete_top, bring_up,
  settle_delete,
}
use parcoach_rma.Avl.Entries.{All-imp}
use parcoach_rma.Avl.Order.{IsStrict}
use parcoach_rma.Avl.Contents.{to_list}
use parcoach_rma.Avl.Sorted.{
  Every, Every-append, Every-imp, remove_key, remove_key-behind, remove_key_head,
}
use parcoach_rma.Avl.Refine.{Every-to_list, to_list-delete}
use parcoach_rma.IntervalTree.{
  IntervalTree, interval_keys, insert_interval_tree, delete_interval_tree,
}

-- The low bounds of the list rise.
abbrev Rising : List Interval → Type 0
Rising [] = Unit
Rising (x ∷ xs) = Every (λ e. x.low_bound < e.low_bound) xs × Rising xs

Rising-middle :
    (xs ys : List Interval) (itv : Interval)
    → Every (λ e. e.low_bound < itv.low_bound) xs
    → Every (λ e. itv.low_bound < e.low_bound) ys
    → Rising xs
    → Rising ys
    → Rising (xs ++ (itv ∷ ys))
Rising-middle [] ys itv below above ax ay = (above, ay)
Rising-middle (x ∷ xs) ys itv (b, below) above (a, ax) ay = (
  Every-append (λ e. x.low_bound < e.low_bound) xs (itv ∷ ys) a
      (b, Every-imp (λ e p. omega arith) ys above),
  Rising-middle xs ys itv below above ax ay,
)

to_list-Rising : (t : IntervalTree) → IsStrict interval_keys t → Rising (to_list t)
to_list-Rising null o = tt
to_list-Rising (node itv left right h size) (b, a, ol, or) =
    Rising-middle (to_list left) (to_list right) itv
      (Every-to_list (λ e. e.low_bound < itv.low_bound) left (All-imp (λ e p. omega arith) left b))
      (Every-to_list (λ e. itv.low_bound < e.low_bound) right
        (All-imp (λ e p. omega arith) right a))
      (to_list-Rising left ol) (to_list-Rising right or)

Every-middle :
    (P : Interval → Type 0) (xs ys : List Interval) (itv : Interval)
    → Every P (xs ++ (itv ∷ ys))
    → P itv
Every-middle P [] ys itv (p, a) = p
Every-middle P (x ∷ xs) ys itv (p, a) = Every-middle P xs ys itv a

others_differ :
    (xs ys : List Interval) (itv : Interval)
    → Rising (xs ++ (itv ∷ ys))
    → Every (λ e. pos e.low_bound ≢ pos itv.low_bound) xs
others_differ [] ys itv r = tt
others_differ (x ∷ xs) ys itv (a, r) = (
  (λ e.
      let lt = Every-middle (λ e. x.low_bound < e.low_bound) xs ys itv a in
      omega (arith, ap pos_part e, lt)),
  others_differ xs ys itv r,
)

-- A deletion from a tree that holds no low bound twice takes out the interval itself.
pub to_list-delete_interval_tree :
    (t : IntervalTree) (before : List Interval) (itv : Interval) (after : List Interval)
    → IsStrict interval_keys t
    → to_list t ≡ before ++ (itv ∷ after)
    → to_list (delete_interval_tree t itv) ≡ before ++ after
unfolding delete_interval_tree
to_list-delete_interval_tree t before itv after o e =
    to_list-delete interval_keys t (pos itv.low_bound) o
    ∙ ap (remove_key interval_keys (pos itv.low_bound)) e
    ∙ remove_key-behind interval_keys (pos itv.low_bound) before (itv ∷ after)
        (others_differ before after itv (subst Rising e (to_list-Rising t o)))
    ∙ ap (λ l. before ++ l) (remove_key_head interval_keys (pos itv.low_bound) itv after refl)

inserted_two :
    (a b : Interval)
    → a.low_bound ≡ b.low_bound
    → insert_interval_tree (insert_interval_tree null a) b ≡ node a null (node b null null 1 1) 2 2
unfolding insert_interval_tree insert new_tree settle_insert child_key get_balance
inserted_two a b e = ground arith

deleted_two :
    (a b : Interval)
    → a.low_bound ≡ b.low_bound
    → to_list (delete_interval_tree (node a null (node b null null 1 1) 2 2) b) ≡ b ∷ []
unfolding delete_interval_tree delete delete_top bring_up settle_delete get_balance
deleted_two a b e = ground arith

-- Of two intervals with one low bound, a deletion by the second takes out the first.
pub delete_interval_tree_of_two :
    (a b : Interval)
    → a.low_bound ≡ b.low_bound
    → to_list (delete_interval_tree (insert_interval_tree (insert_interval_tree null a) b) b)
      ≡ b ∷ []
delete_interval_tree_of_two a b e =
    ap (λ t. to_list (delete_interval_tree t b)) (inserted_two a b e) ∙ deleted_two a b e
