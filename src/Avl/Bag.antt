-- ===== src/Avl/Bag.antt =====
-- The trees up to the order of their contents: a quotient of lists, in which the order of insertions
-- is forgotten.
use mathlib.Core.Quot
use mathlib.Core.Quot.{Quot, Quot-set}
use mathlib.Core.List.Perm
use mathlib.Core.List.{Perm}
use parcoach_rma.Common.{◌≡◌, ◌∙◌, ap, List, [], true, false, ◌∷◌, ltb_ℤ, if◌then◌else◌}
use parcoach_rma.Avl.{Tree, Keys, insert}
use parcoach_rma.Avl.Order.{IsOrdered}
use parcoach_rma.Avl.Contents.{to_list}
use parcoach_rma.Avl.Sorted.{insert_sorted}
use parcoach_rma.Avl.Refine.{to_list-insert}

-- Lists up to permutation.
abbrev pub Bag : Type 0 → Type 0
Bag E = Quot (Perm {A = E})

module _ {E : Type 0} where
  unfoldable pub put : E → Bag E → Bag E
  put itv = Quot.lift Quot-set (λ xs. Quot.mk (itv ∷ xs)) (λ xs ys p. Quot.sound (Perm.cons itv p))

  -- The contents of a tree as a bag.
  abbrev pub bag_of : Tree E → Bag E
  bag_of t = Quot.mk (to_list t)

module _ {E : Type 0} (keys : Keys E) where
  pub insert_sorted-Perm : (itv : E) (xs : List E) → Perm (insert_sorted keys itv xs) (itv ∷ xs)
  unfolding insert_sorted
  insert_sorted-Perm itv [] = Perm.rfl
  insert_sorted-Perm itv (x ∷ xs) =
      elim (ltb_ℤ (keys.key itv) (keys.key x))
        as (λ b.
          Perm (if b then itv ∷ (x ∷ xs) else x ∷ insert_sorted keys itv xs) (itv ∷ x ∷ xs)) [
            | true ↦ Perm.rfl
            | false ↦ Perm.trans (Perm.cons x (insert_sorted-Perm itv xs)) (Perm.swap itv x xs)
          ]

  -- An insertion into an ordered tree puts the new content into the bag of the contents.
  pub bag_of-insert :
      (t : Tree E) (itv : E) → IsOrdered keys t → bag_of (insert keys t itv) ≡ put itv (bag_of t)
  unfolding put
  bag_of-insert t itv o =
      ap (λ (l : List E). Quot.mk l) (to_list-insert keys t itv o)
      ∙ Quot.sound (insert_sorted-Perm itv (to_list t))
