-- ===== src/Avl/Balance/Insert.antt =====
-- An insertion of a new key keeps every tree balanced.
use native.Mathlib.Decide.{dec_lt}
use parcoach_rma.Common.{
  ℕ, ◌+◌, ◌≤◌, ◌≡◌, max, inl, inr, ◌⊎◌, arith, refl, ◌<ℤ◌, pos_part, neg_part, before, here, after,
  trichotomy, lt-or-ge, lt_of_le_ne, ap,
}
use parcoach_rma.Avl.{Tree, null, node, Keys, height, settle_insert, insert, new_tree}
use parcoach_rma.Avl.Settle.{settled}
use parcoach_rma.Avl.Steps.{insert_before, insert_after}
use parcoach_rma.Avl.Search.{Fresh}
use parcoach_rma.Avl.Balance.{
  IsBalanced, right_rotate-IsBalanced, left_rotate-IsBalanced, left_right_rotate-IsBalanced,
  right_left_rotate-IsBalanced,
}
use parcoach_rma.Avl.Balance.Cases.{
  settle_insert-Close, new_size, settle_insert_left_outer, settle_insert_left_inner,
  settle_insert_right_outer, settle_insert_right_inner,
}

module _ {E : Type 0} (keys : Keys E) (itv : E) where
  open keys use {key}

  -- The tree is a leaf, or its side on which the key of `itv` falls is the higher one.
  abbrev Leans : Tree E → Type 0
  Leans null = ⊥
  Leans (node x a b h s) =
      ((height a ≡ 0) × (height b ≡ 0))
      ⊎ ((key itv <ℤ key x) × (height a ≡ height b + 1))
      ⊎ ((key x <ℤ key itv) × (height b ≡ height a + 1))

  -- The tree is balanced and its height `n`, or `n + 1` towards the new key.
  abbrev Grows : ℕ → Tree E → Type 0
  Grows n t = IsBalanced t × ((height t ≡ n) ⊎ ((height t ≡ n + 1) × Leans t))

-- Where a side that was no higher than one above the other has grown by one, the node's height
-- stays, or grows by one with that side the higher one.
grown :
    (n l r : ℕ)
    → n ≤ l
    → l ≤ n + 1
    → l ≤ r + 1
    → r ≤ n + 1
    → (1 + max l r ≡ 1 + max n r) ⊎ ((1 + max l r ≡ 1 + max n r + 1) × (l ≡ r + 1))
grown n l r p q c d = elim (dec_lt (max n r) (max l r)) [
  | yes lt ↦ inr (omega arith, omega arith)
  | no le ↦ inl (omega arith)
]

module _ {E : Type 0} (keys : Keys E) (itv top : E) (size : ℕ) where
  open keys use {key}

  -- The left child stood at height `n` under a node of height `1 + max n (height right)`.
  settle_left-Grows :
      (n : ℕ) (left right : Tree E)
      → Grows keys itv n left
      → IsBalanced right
      → (n ≤ height right + 1) × (height right ≤ n + 1)
      → key itv <ℤ key top
      → Grows keys itv (1 + max n (height right)) (settle_insert keys itv top left right size)
  settle_left-Grows n null right (bl, g) br c lt =
      rw (settle_insert-Close keys itv top size null right (omega arith, omega arith))
        ((refl, omega arith, tt, br), inl (omega arith))
  settle_left-Grows n (node x a b hx sx) right (bl, g) br c lt =
      elim (dec_lt (height right + 1) hx) [
        | yes heavy ↦
            let hs = 1 + max hx (height right) in
            let s = new_size keys itv top size in
            let e : hx ≡ height right + 2 = omega arith in
            elim (trichotomy (key itv) (key x)) [
              | before outer ↦
                  let (bal, eq) =
                    right_rotate-IsBalanced top x a b right hx sx hs s bl br e (omega arith) in
                  rw (settle_insert_left_outer keys itv top size x a b hx sx right e outer)
                    (bal, inl (omega arith))
              | here same ↦ absurd (omega (arith, ap pos_part same, ap neg_part same))
              | after inner ↦
                  let (bal, eq) =
                    left_right_rotate-IsBalanced top x a b right hx sx hs s bl br e (omega arith) in
                  rw (settle_insert_left_inner keys itv top size x a b hx sx right e inner)
                    (bal, inl (omega arith))
            ]
        | no light ↦
            rw
              (settle_insert-Close keys itv top size (node x a b hx sx) right
                (omega arith, omega arith))
              (
                (refl, (omega arith, omega arith), bl, br),
                leaning (
                    grown n hx (height right) (omega arith) (omega arith) (omega arith)
                      (omega arith)),
              )
      ]
    where
      leaning :
          (1 + max hx (height right) ≡ 1 + max n (height right))
            ⊎ ((1 + max hx (height right) ≡ 1 + max n (height right) + 1) × (hx ≡ height right + 1))
          → (1 + max hx (height right) ≡ 1 + max n (height right))
            ⊎ ((1 + max hx (height right) ≡ 1 + max n (height right) + 1)
                × Leans keys itv
                    (settled keys top (node x a b hx sx) right (new_size keys itv top size)))
      leaning (inl same) = inl same
      leaning (inr (more, higher)) = inr (more, inr (inl (lt, higher)))

  -- The same with the right child.
  settle_right-Grows :
      (n : ℕ) (left right : Tree E)
      → Grows keys itv n right
      → IsBalanced left
      → (n ≤ height left + 1) × (height left ≤ n + 1)
      → key top <ℤ key itv
      → Grows keys itv (1 + max (height left) n) (settle_insert keys itv top left right size)
  settle_right-Grows n left null (br, g) bl c gt =
      rw (settle_insert-Close keys itv top size left null (omega arith, omega arith))
        ((refl, omega arith, bl, tt), inl (omega arith))
  settle_right-Grows n left (node x a b hx sx) (br, g) bl c gt =
      elim (dec_lt (height left + 1) hx) [
        | yes heavy ↦
            let hs = 1 + max (height left) hx in
            let s = new_size keys itv top size in
            let e : hx ≡ height left + 2 = omega arith in
            elim (trichotomy (key itv) (key x)) [
              | before inner ↦
                  let (bal, eq) =
                    right_left_rotate-IsBalanced top x left a b hx sx hs s bl br e (omega arith) in
                  rw (settle_insert_right_inner keys itv top size x a b hx sx left e inner)
                    (bal, inl (omega arith))
              | here same ↦ absurd (omega (arith, ap pos_part same, ap neg_part same))
              | after outer ↦
                  let (bal, eq) =
                    left_rotate-IsBalanced top x left a b hx sx hs s bl br e (omega arith) in
                  rw (settle_insert_right_outer keys itv top size x a b hx sx left e outer)
                    (bal, inl (omega arith))
            ]
        | no light ↦
            rw
              (settle_insert-Close keys itv top size left (node x a b hx sx)
                (omega arith, omega arith))
              (
                (refl, (omega arith, omega arith), bl, br),
                leaning (
                    grown n hx (height left) (omega arith) (omega arith) (omega arith)
                      (omega arith)),
              )
      ]
    where
      leaning :
          (1 + max hx (height left) ≡ 1 + max n (height left))
            ⊎ ((1 + max hx (height left) ≡ 1 + max n (height left) + 1) × (hx ≡ height left + 1))
          → (1 + max (height left) hx ≡ 1 + max (height left) n)
            ⊎ ((1 + max (height left) hx ≡ 1 + max (height left) n + 1)
                × Leans keys itv
                    (settled keys top left (node x a b hx sx) (new_size keys itv top size)))
      leaning (inl same) = inl (omega arith)
      leaning (inr (more, higher)) = inr (omega arith, inr (inr (gt, higher)))

module _ {E : Type 0} (keys : Keys E) where
  open keys use {key}

  insert-Grows :
      (t : Tree E) (itv : E)
      → IsBalanced t
      → Fresh keys (key itv) t
      → Grows keys itv (height t) (insert keys t itv)
  unfolding insert new_tree
  insert-Grows null itv b f =
      ((refl, (omega arith, omega arith), tt, tt), inr (omega arith, inl (refl, refl)))
  insert-Grows (node top left right h size) itv (e, c, bl, br) (ne, fl, fr) =
      elim (lt-or-ge (key itv) (key top)) [
        | inl lt ↦
            rw (e, insert_before keys top left right h size itv lt)
              (settle_left-Grows keys itv top size (height left) (insert keys left itv) right
                (insert-Grows left itv bl fl) br c lt)
        | inr ge ↦
            rw (e, insert_after keys top left right h size itv ge)
              (settle_right-Grows keys itv top size (height right) left (insert keys right itv)
                (insert-Grows right itv br fr) bl (c.1, c.0)
                (lt_of_le_ne (key top) (key itv) ge ne))
      ]

  -- An insertion into a balanced tree, of a key that it does not have, keeps it balanced, does
  -- not lower it and raises its height by one at most.
  pub insert-IsBalanced :
      (t : Tree E) (itv : E)
      → IsBalanced t
      → Fresh keys (key itv) t
      → IsBalanced (insert keys t itv)
        × (height t ≤ height (insert keys t itv))
        × (height (insert keys t itv) ≤ height t + 1)
  insert-IsBalanced t itv b f =
      let (bal, grows) = insert-Grows t itv b f in (bal, omega arith, omega arith)
