-- ===== src/Avl/Refine.antt =====
-- The trees refine sorted lists: an insertion into an ordered tree is the insertion into the sorted
-- list of its contents, and a deletion from a strict one takes the key's content out of it.
use mathlib.Core.List.{append_assoc, append-nil}
use parcoach_rma.Common.{
  ℕ, ◌≡◌, refl, sym, ◌∙◌, ap, inl, inr, List, ◌∷◌, ◌++◌, ℤ, ◌≤ℤ◌, ◌<ℤ◌, arith, lt-or-ge, before,
  here, after, trichotomy, ◌≢◌, <ℤ_trans, ne_of_lt,
}
use parcoach_rma.Avl.{
  Tree, null, node, Keys, insert, bring_up, delete_top, delete, min_value_node, new_tree,
}
use parcoach_rma.Avl.Steps.{insert_before, insert_after, delete_before, delete_after, delete_here}
use parcoach_rma.Avl.Entries.{All, All-imp}
use parcoach_rma.Avl.Order.{IsOrdered, IsStrict}
use parcoach_rma.Avl.Contents.{to_list, to_list-settle_insert, to_list-settle_delete}
use parcoach_rma.Avl.Sorted.{
  Every, Every-append, insert_sorted, remove_key, insert_sorted-append, insert_sorted-behind,
  remove_key-append, remove_key-behind, remove_key_head, remove_key_ne,
}

module _ {E : Type 0} where
  pub Every-to_list : (P : E → Type 0) (t : Tree E) → All P t → Every P (to_list t)
  Every-to_list P null a = tt
  Every-to_list P (node top left right h size) (p, al, ar) =
      Every-append P (to_list left) (top ∷ to_list right) (Every-to_list P left al)
        (p, Every-to_list P right ar)

  -- The leftmost content heads the list.
  rest_of_list : (top : E) (left : Tree E) → List E → List E
  rest_of_list top null ys = ys
  rest_of_list top (node x l r h size) ys = rest_of_list x l (to_list r ++ (top ∷ ys))

  min_value_node-head :
      (top : E) (left : Tree E) (ys : List E)
      → to_list left ++ (top ∷ ys) ≡ min_value_node top left ∷ rest_of_list top left ys
  unfolding min_value_node rest_of_list
  min_value_node-head top null ys = refl
  min_value_node-head top (node x l r h size) ys =
      append_assoc (to_list l) (x ∷ to_list r) (top ∷ ys)
      ∙ min_value_node-head x l (to_list r ++ (top ∷ ys))

module _ {E : Type 0} (keys : Keys E) where
  open keys use {key}

  -- Insertion into a tree in weak search order is insertion into the sorted list of its contents,
  -- behind the contents with the same key.
  pub to_list-insert :
      (t : Tree E) (itv : E)
      → IsOrdered keys t
      → to_list (insert keys t itv) ≡ insert_sorted keys itv (to_list t)
  unfolding insert new_tree insert_sorted
  to_list-insert null itv o = refl
  to_list-insert (node top left right h size) itv (b, a, ol, or) =
      elim (lt-or-ge (key itv) (key top)) [
        | inl lt ↦
            ap to_list (insert_before keys top left right h size itv lt)
            ∙ to_list-settle_insert keys itv top (insert keys left itv) right size
            ∙ ap (λ l. l ++ (top ∷ to_list right)) (to_list-insert left itv ol)
            ∙ sym (insert_sorted-append keys itv top (to_list left) (to_list right) lt)
        | inr ge ↦
            ap to_list (insert_after keys top left right h size itv ge)
            ∙ to_list-settle_insert keys itv top left (insert keys right itv) size
            ∙ ap (λ l. to_list left ++ (top ∷ l)) (to_list-insert right itv or)
            ∙ sym (
                insert_sorted-behind keys itv (to_list left) (top ∷ to_list right) (
                  Every-to_list (λ e. key e ≤ℤ key itv) left (All-imp (λ e p. le_le e p ge) left b))
                ∙ ap (λ l. to_list left ++ l) (skip ge))
      ]
    where
      le_le : (e : E) → key e ≤ℤ key top → key top ≤ℤ key itv → key e ≤ℤ key itv
      le_le e p q = omega arith

      skip :
          key top ≤ℤ key itv
          → insert_sorted keys itv (top ∷ to_list right)
            ≡ top ∷ insert_sorted keys itv (to_list right)
      skip ge = ground arith

  to_list-bring_up : (t : Tree E) → to_list (bring_up keys t) ≡ to_list t
  unfolding bring_up
  to_list-bring_up null = refl
  to_list-bring_up (node top left right h size) = to_list-settle_delete keys top left right size

  to_list-delete_top :
      (left right : Tree E) (size : ℕ) (rest : ℤ → Tree E)
      → ((k : ℤ) → to_list (rest k) ≡ remove_key keys k (to_list right))
      → to_list (delete_top keys left right size rest) ≡ to_list left ++ to_list right
  unfolding delete_top
  to_list-delete_top null right size rest drops = to_list-bring_up right
  to_list-delete_top (node l ll lr lh ls) null size rest drops =
      to_list-bring_up (node l ll lr lh ls) ∙ sym (append-nil (to_list (node l ll lr lh ls)))
  to_list-delete_top (node l ll lr lh ls) (node r rl rr rh rs) size rest drops =
      let least = min_value_node r rl in
      let tail = rest_of_list r rl (to_list rr) in
      to_list-settle_delete keys least (node l ll lr lh ls) (rest (key least)) size
      ∙ ap (λ xs. to_list (node l ll lr lh ls) ++ xs)
          (ap (λ xs. least ∷ xs)
              (drops (key least)
                ∙ ap (remove_key keys (key least)) (min_value_node-head r rl (to_list rr))
                ∙ remove_key_head keys (key least) least tail refl)
            ∙ sym (min_value_node-head r rl (to_list rr)))

  -- Deletion from a tree with strictly ordered keys takes the content with the key, if there is
  -- one, out of the sorted list of the contents, and leaves the others in their order.
  pub to_list-delete :
      (t : Tree E) (k : ℤ)
      → IsStrict keys t
      → to_list (delete keys t k) ≡ remove_key keys k (to_list t)
  unfolding delete remove_key
  to_list-delete null k o = refl
  to_list-delete (node top left right h size) k (b, a, ol, or) = elim (trichotomy k (key top)) [
    | before lt ↦
        ap to_list (delete_before keys top left right h size k lt)
        ∙ to_list-settle_delete keys top (delete keys left k) right size
        ∙ ap (λ l. l ++ (top ∷ to_list right)) (to_list-delete left k ol)
        ∙ sym (
            remove_key-append keys k (to_list left) (top ∷ to_list right) (
              ne_after lt,
              Every-to_list (λ e. key e ≢ k) right
                  (All-imp (λ e p. ne_after (<ℤ_trans k (key top) (key e) lt p)) right a),
            ))
    | here eq ↦
        ap to_list (delete_here keys top left right h size k eq)
        ∙ to_list-delete_top left right size (delete keys right) (λ j. to_list-delete right j or)
        ∙ sym (
            remove_key-behind keys k (to_list left) (top ∷ to_list right)
              (Every-to_list (λ e. key e ≢ k) left (All-imp (λ e p. ne_before e eq p) left b))
            ∙ ap (λ l. to_list left ++ l) (remove_key_head keys k top (to_list right) eq))
    | after gt ↦
        ap to_list (delete_after keys top left right h size k gt)
        ∙ to_list-settle_delete keys top left (delete keys right k) size
        ∙ ap (λ l. to_list left ++ (top ∷ l)) (to_list-delete right k or)
        ∙ sym (
            remove_key-behind keys k (to_list left) (top ∷ to_list right) (
              Every-to_list (λ e. key e ≢ k) left
                (All-imp (λ e p. ne_of_lt (key e) k (<ℤ_trans (key e) (key top) k p gt)) left b))
            ∙ ap (λ l. to_list left ++ l)
                (remove_key_ne keys k top (to_list right) (λ e. ne_of_lt (key top) k gt (sym e))))
  ]
    where
      ne_after : {j : ℤ} → k <ℤ j → j ≢ k
      ne_after {j} lt e = ne_of_lt k j lt (sym e)

      ne_before : (e : E) → k ≡ key top → key e <ℤ key top → key e ≢ k
      ne_before e eq p q = ne_of_lt (key e) (key top) p (q ∙ eq)
