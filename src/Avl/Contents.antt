-- ===== src/Avl/Contents.antt =====
-- The tree as the list of its contents from left to right: rotations keep it.
use mathlib.Core.List.{append_assoc}
use parcoach_rma.Common.{ℕ, ◌≡◌, refl, sym, ◌∙◌, ap, List, [], ◌∷◌, ◌++◌}
use parcoach_rma.Avl.{
  Tree, null, node, Keys, left_rotate, right_rotate, settle_insert, settle_delete,
}
use parcoach_rma.Avl.Settle.{settled, settle_insert-either, settle_delete-either}

module _ {E : Type 0} where
  -- The contents of the nodes from left to right.
  abbrev pub to_list : Tree E → List E
  to_list null = []
  to_list (node itv left right h size) = to_list left ++ (itv ∷ to_list right)

  -- A right rotation keeps the order of the contents.
  pub to_list-right_rotate : (t : Tree E) → to_list (right_rotate t) ≡ to_list t
  unfolding right_rotate
  to_list-right_rotate null = refl
  to_list-right_rotate (node y null right h size) = refl
  to_list-right_rotate (node y (node x a b hx sx) right h size) =
      sym (append_assoc (to_list a) (x ∷ to_list b) (y ∷ to_list right))

  -- A left rotation keeps the order of the contents.
  pub to_list-left_rotate : (t : Tree E) → to_list (left_rotate t) ≡ to_list t
  unfolding left_rotate
  to_list-left_rotate null = refl
  to_list-left_rotate (node x left null h size) = refl
  to_list-left_rotate (node x left (node y b c hy sy) h size) =
      append_assoc (to_list left) (x ∷ to_list b) (y ∷ to_list c)

module _ {E : Type 0} (keys : Keys E) where
  open keys use {key}

  pub to_list-settle_insert :
      (itv top : E) (left right : Tree E) (size : ℕ)
      → to_list (settle_insert keys itv top left right size) ≡ to_list left ++ (top ∷ to_list right)
  to_list-settle_insert itv top left right size =
      settle_insert-either keys (λ t. to_list t ≡ to_list left ++ (top ∷ to_list right)) itv top
        left right size (λ s. refl) (λ s. to_list-right_rotate (settled keys top left right s))
        (λ s. to_list-left_rotate (settled keys top left right s))
        (λ h s.
          to_list-right_rotate (node top (left_rotate left) right h s)
          ∙ ap (λ l. l ++ (top ∷ to_list right)) (to_list-left_rotate left))
        (λ h s.
          to_list-left_rotate (node top left (right_rotate right) h s)
          ∙ ap (λ l. to_list left ++ (top ∷ l)) (to_list-right_rotate right))

  pub to_list-settle_delete :
      (top : E) (left right : Tree E) (size : ℕ)
      → to_list (settle_delete keys top left right size) ≡ to_list left ++ (top ∷ to_list right)
  to_list-settle_delete top left right size =
      settle_delete-either keys (λ t. to_list t ≡ to_list left ++ (top ∷ to_list right)) top left
        right size (λ s. refl) (λ s. to_list-right_rotate (settled keys top left right s))
        (λ s. to_list-left_rotate (settled keys top left right s))
        (λ h s.
          to_list-right_rotate (node top (left_rotate left) right h s)
          ∙ ap (λ l. l ++ (top ∷ to_list right)) (to_list-left_rotate left))
        (λ h s.
          to_list-left_rotate (node top left (right_rotate right) h s)
          ∙ ap (λ l. to_list left ++ (top ∷ l)) (to_list-right_rotate right))
