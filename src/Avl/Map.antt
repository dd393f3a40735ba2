-- ===== src/Avl/Map.antt =====
-- A tree with distinct keys as a map: what a search finds after an insertion and after a deletion.
use parcoach_rma.Common.{
  ◌≡◌, refl, sym, ◌∙◌, ap, Option, none, some, List, [], ◌∷◌, ◌++◌, ℤ, ◌<ℤ◌, ◌≢◌, eqb_ℤ, arith,
  if◌then◌else◌, before, here, after, trichotomy, eq_of_parts, ne_of_lt, <ℤ_trans, pos_part,
  neg_part,
}
use parcoach_rma.Avl.{Tree, null, node, Keys, insert, delete, find}
use parcoach_rma.Avl.Entries.{All-imp}
use parcoach_rma.Avl.Steps.{find_before, find_after, find_here}
use parcoach_rma.Avl.Order.{IsStrict}
use parcoach_rma.Avl.Search.{Fresh, insert-IsStrict}
use parcoach_rma.Avl.Distinct.{IsStrict-IsOrdered, delete-Fresh, delete-IsStrict}
use parcoach_rma.Avl.Find.{find-Fresh}
use parcoach_rma.Avl.Contents.{to_list}
use parcoach_rma.Avl.Sorted.{Every, insert_sorted, remove_key}
use parcoach_rma.Avl.Refine.{Every-to_list, to_list-insert, to_list-delete}

module _ {E : Type 0} (keys : Keys E) where
  open keys use {key}

  -- The first item of the list whose key is `k`.
  find_key : ℤ → List E → Option E
  find_key k [] = none
  find_key k (x ∷ xs) = if eqb_ℤ k (key x) then some x else find_key k xs

  find_key_behind :
      (k : ℤ) (xs ys : List E) → Every (λ e. key e ≢ k) xs → find_key k (xs ++ ys) ≡ find_key k ys
  unfolding find_key
  find_key_behind k [] ys a = refl
  find_key_behind k (x ∷ xs) ys (n, a) =
      ground (arith, find_key_behind k xs ys a, eq_of_parts (key x) k)

  find_key-none : (k : ℤ) (xs : List E) → Every (λ e. key e ≢ k) xs → find_key k xs ≡ none
  unfolding find_key
  find_key-none k [] a = refl
  find_key-none k (x ∷ xs) (n, a) = ground (arith, find_key-none k xs a, eq_of_parts (key x) k)

  find_key_before :
      (k : ℤ) (xs ys : List E) → Every (λ e. key e ≢ k) ys → find_key k (xs ++ ys) ≡ find_key k xs
  unfolding find_key
  find_key_before k [] ys a = find_key-none k ys a
  find_key_before k (x ∷ xs) ys a = ground (arith, find_key_before k xs ys a)

  find_key_head : (k : ℤ) (x : E) (xs : List E) → k ≡ key x → find_key k (x ∷ xs) ≡ some x
  unfolding find_key
  find_key_head k x xs e = ground (arith, ap pos_part e, ap neg_part e)

  find_key_ne : (k : ℤ) (x : E) (xs : List E) → k ≢ key x → find_key k (x ∷ xs) ≡ find_key k xs
  unfolding find_key
  find_key_ne k x xs n = ground (arith, eq_of_parts k (key x))

  find-to_list : (t : Tree E) (k : ℤ) → IsStrict keys t → find keys t k ≡ find_key k (to_list t)
  unfolding find find_key
  find-to_list null k o = refl
  find-to_list (node top left right h size) k (b, a, ol, or) = elim (trichotomy k (key top)) [
    | before lt ↦
        find_before keys top left right h size k lt
        ∙ find-to_list left k ol
        ∙ sym (
            find_key_before k (to_list left) (top ∷ to_list right) (
              above top lt,
              Every-to_list (λ e. key e ≢ k) right
                  (All-imp (λ e p. above e (<ℤ_trans k (key top) (key e) lt p)) right a),
            ))
    | here eq ↦
        find_here keys top left right h size k eq
        ∙ sym (
            find_key_behind k (to_list left) (top ∷ to_list right) (
              Every-to_list (λ e. key e ≢ k) left
                (All-imp (λ e p q. ne_of_lt (key e) (key top) p (q ∙ eq)) left b))
            ∙ find_key_head k top (to_list right) eq)
    | after gt ↦
        find_after keys top left right h size k gt
        ∙ find-to_list right k or
        ∙ sym (
            find_key_behind k (to_list left) (top ∷ to_list right) (
              Every-to_list (λ e. key e ≢ k) left
                (All-imp (λ e p. ne_of_lt (key e) k (<ℤ_trans (key e) (key top) k p gt)) left b))
            ∙ find_key_ne k top (to_list right) (λ e. ne_of_lt (key top) k gt (sym e)))
  ]
    where
      above : (e : E) → k <ℤ key e → key e ≢ k
      above e lt q = ne_of_lt k (key e) lt (sym q)

  find_key-insert_sorted :
      (k : ℤ) (itv : E) (xs : List E)
      → Every (λ e. key e ≢ key itv) xs
      → find_key k (insert_sorted keys itv xs)
        ≡ (if eqb_ℤ k (key itv) then some itv else find_key k xs)
  unfolding find_key insert_sorted
  find_key-insert_sorted k itv [] a = refl
  find_key-insert_sorted k itv (x ∷ xs) (n, a) =
      ground (arith, find_key-insert_sorted k itv xs a, eq_of_parts (key x) (key itv))

  find_key-remove_key :
      (k j : ℤ) (xs : List E) → k ≢ j → find_key k (remove_key keys j xs) ≡ find_key k xs
  unfolding find_key remove_key
  find_key-remove_key k j [] n = refl
  find_key-remove_key k j (x ∷ xs) n = ground (arith, find_key-remove_key k j xs n, eq_of_parts k j)

  -- After the insertion of a new key the search for it finds what was inserted, and every other
  -- search finds what it found before.
  pub find-insert :
      (t : Tree E) (itv : E) (k : ℤ)
      → IsStrict keys t
      → Fresh keys (key itv) t
      → find keys (insert keys t itv) k ≡ (if eqb_ℤ k (key itv) then some itv else find keys t k)
  find-insert t itv k o f =
      find-to_list (insert keys t itv) k (insert-IsStrict keys t itv o f)
      ∙ ap (find_key k) (to_list-insert keys t itv (IsStrict-IsOrdered keys t o))
      ∙ find_key-insert_sorted k itv (to_list t) (Every-to_list (λ e. key e ≢ key itv) t f)
      ∙ ap (λ r. if eqb_ℤ k (key itv) then some itv else r) (sym (find-to_list t k o))

  -- After a deletion the search for the key finds nothing, and every other search finds what it
  -- found before.
  pub find-delete :
      (t : Tree E) (j k : ℤ)
      → IsStrict keys t
      → find keys (delete keys t j) k ≡ (if eqb_ℤ k j then none else find keys t k)
  find-delete t j k o = elim (trichotomy k j) [
    | before lt ↦ other (ne_of_lt k j lt) ∙ ground arith
    | here eq ↦
        find-Fresh keys (delete keys t j) k (rw eq (delete-Fresh keys t j o))
        ∙ ground (arith, ap pos_part eq, ap neg_part eq)
    | after gt ↦ other (λ e. ne_of_lt j k gt (sym e)) ∙ ground arith
  ]
    where
      other : k ≢ j → find keys (delete keys t j) k ≡ find keys t k
      other n =
          find-to_list (delete keys t j) k (delete-IsStrict keys t j o)
          ∙ ap (find_key k) (to_list-delete keys t j o)
          ∙ find_key-remove_key k j (to_list t) n
          ∙ sym (find-to_list t k o)
