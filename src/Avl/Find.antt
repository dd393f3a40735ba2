-- ===== src/Avl/Find.antt =====
-- `find` against the contents of an ordered tree.
use parcoach_rma.Common.{
  ◌≡◌, refl, sym, ◌∙◌, ◌⊎◌, inl, inr, none, some, ℤ, ◌≤ℤ◌, ◌<ℤ◌, arith, before, here, after,
  trichotomy, ne_of_lt, ap, pos_part, neg_part,
}
use parcoach_rma.Avl.{Tree, null, node, Keys, find}
use parcoach_rma.Avl.Entries.{All, All-imp}
use parcoach_rma.Avl.Order.{IsOrdered}
use parcoach_rma.Avl.Search.{Fresh}
use parcoach_rma.Avl.Steps.{find_before, find_after, find_here}

module _ {E : Type 0} where
  -- The content `e` stands at a node of the tree.
  abbrev pub Holds : E → Tree E → Type 0
  Holds e null = ⊥
  Holds e (node top left right h size) = (e ≡ top) ⊎ Holds e left ⊎ Holds e right

module _ {E : Type 0} (keys : Keys E) where
  open keys use {key}

  -- What is found stands in the tree under the key that was asked for.
  pub find_sound : (t : Tree E) (k : ℤ) {e : E} → find keys t k ≡ some e → (key e ≡ k) × Holds e t
  unfolding find
  find_sound null k q = cc
  find_sound (node top left right h size) k {e} q = elim (trichotomy k (key top)) [
    | before lt ↦
        let (same, held) =
          find_sound left k (sym (find_before keys top left right h size k lt) ∙ q) in
        (same, inr (inl held))
    | here eq ↦
        let found : e ≡ top = cc (find_here keys top left right h size k eq) in
        (ap key found ∙ sym eq, inl found)
    | after gt ↦
        let (same, held) =
          find_sound right k (sym (find_after keys top left right h size k gt) ∙ q) in
        (same, inr (inr held))
  ]

  ne_below : (k j : ℤ) (t : Tree E) → k <ℤ j → All (λ e. j ≤ℤ key e) t → Fresh keys k t
  ne_below k j t lt a = All-imp (λ e p q. absurd (omega (arith, ap pos_part q, ap neg_part q))) t a

  ne_above : (k j : ℤ) (t : Tree E) → j <ℤ k → All (λ e. key e ≤ℤ j) t → Fresh keys k t
  ne_above k j t lt a = All-imp (λ e p q. absurd (omega (arith, ap pos_part q, ap neg_part q))) t a

  -- In an ordered tree, nothing is found only where no content has the key.
  pub find_complete :
      (t : Tree E) (k : ℤ) → IsOrdered keys t → find keys t k ≡ none → Fresh keys k t
  find_complete null k o q = tt
  find_complete (node top left right h size) k (b, a, ol, or) q = elim (trichotomy k (key top)) [
    | before lt ↦ (
      (λ e. ne_of_lt k (key top) lt (sym e)),
      find_complete left k ol (sym (find_before keys top left right h size k lt) ∙ q),
      ne_below k (key top) right lt a,
    )
    | here eq ↦ cc (find_here keys top left right h size k eq)
    | after gt ↦ (
      ne_of_lt (key top) k gt,
      ne_above k (key top) left gt b,
      find_complete right k or (sym (find_after keys top left right h size k gt) ∙ q),
    )
  ]

  -- Where no content has the key, nothing is found.
  pub find-Fresh : (t : Tree E) (k : ℤ) → Fresh keys k t → find keys t k ≡ none
  unfolding find
  find-Fresh null k f = refl
  find-Fresh (node top left right h size) k (ne, fl, fr) = elim (trichotomy k (key top)) [
    | before lt ↦ find_before keys top left right h size k lt ∙ find-Fresh left k fl
    | here eq ↦ absurd (ne (sym eq))
    | after gt ↦ find_after keys top left right h size k gt ∙ find-Fresh right k fr
  ]
