-- ===== src/Avl/Equal.antt =====
-- Insertions of equal keys: the four cases of an insertion compare keys strictly, so a tree of equal
-- keys is never rotated.
use parcoach_rma.Common.{ℕ, zero, suc, ◌+◌, ◌%◌, ◌≡◌, refl, ap, max, ◌≤ℤ◌, arith}
use parcoach_rma.Avl.{
  Tree, null, node, Keys, height, count_nodes, insert, new_tree, settle_insert, child_key,
  get_balance, ulong_mod,
}
use parcoach_rma.Avl.Steps.{insert_after}

module _ {E : Type 0} (keys : Keys E) (itv : E) where
  open keys use {key}

  -- A path of `n` nodes to the right, whose keys are those of `itv`.
  abbrev pub IsPath : Tree E → ℕ → Type 0
  IsPath null zero = Unit
  IsPath null (suc n) = ⊥
  IsPath (node top left right h size) zero = ⊥
  IsPath (node top left right h size) (suc n) =
      (key top ≡ key itv) × (left ≡ null) × (h ≡ suc n) × IsPath right n

  settle_insert_equal :
      (top x : E) (a b : Tree E) (hx sx size : ℕ)
      → key x ≡ key itv
      → settle_insert keys itv top null (node x a b hx sx) size
        ≡ node top null (node x a b hx sx) (1 + max 0 hx) ((1 + size) % ulong_mod)
  unfolding settle_insert child_key get_balance
  settle_insert_equal top x a b hx sx size e = rw e (ground arith)

  settle_insert-IsPath :
      (top : E) (right : Tree E) (n size : ℕ)
      → key top ≡ key itv
      → IsPath right (suc n)
      → IsPath (settle_insert keys itv top null right size) (suc (suc n))
  settle_insert-IsPath top null n size e p = absurd p
  settle_insert-IsPath top (node x a b hx sx) n size e (ex, l, h, p) =
      rw (settle_insert_equal top x a b hx sx size ex) (e, refl, omega arith, (ex, l, h, p))

  insert-IsPath : (t : Tree E) (n : ℕ) → IsPath t n → IsPath (insert keys t itv) (suc n)
  unfolding insert new_tree
  insert-IsPath null zero p = (refl, refl, refl, tt)
  insert-IsPath null (suc n) p = absurd p
  insert-IsPath (node top left right h size) zero p = absurd p
  insert-IsPath (node top left right h size) (suc n) (e, l, eh, p) =
      let le : key top ≤ℤ key itv = rw e (omega arith) in
      rw (insert_after keys top left right h size itv le, l)
        (settle_insert-IsPath top (insert keys right itv) n size e (insert-IsPath right n p))

  -- The tree after `n` insertions of `itv` into the empty tree.
  abbrev pub insert_times : ℕ → Tree E
  insert_times zero = null
  insert_times (suc n) = insert keys (insert_times n) itv

  insert_times-IsPath : (n : ℕ) → IsPath (insert_times n) n
  insert_times-IsPath zero = tt
  insert_times-IsPath (suc n) = insert-IsPath (insert_times n) n (insert_times-IsPath n)

  path_size : (t : Tree E) (n : ℕ) → IsPath t n → (height t ≡ n) × (count_nodes t ≡ n)
  path_size null zero p = (refl, refl)
  path_size null (suc n) p = absurd p
  path_size (node top left right h size) zero p = absurd p
  path_size (node top left right h size) (suc n) (e, l, eh, p) =
      (eh, omega (arith, ap count_nodes l, (path_size right n p).1))

  -- After `n` insertions of one key into the empty tree, the tree has `n` nodes and is `n` high.
  pub insert_times-height :
      (n : ℕ) → (height (insert_times n) ≡ n) × (count_nodes (insert_times n) ≡ n)
  insert_times-height n = path_size (insert_times n) n (insert_times-IsPath n)
