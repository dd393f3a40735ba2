-- ===== src/Avl.antt =====
-- The AVL tree that src/core/interval_avl_tree.c and src/core/notif_avl_tree.c both spell out, over
-- the type `E` of what a node holds. A node owns its children, so the functions that relink nodes
-- are functions from trees to trees; `null` is the pointer NULL.
pub mod Settle
pub mod Steps
pub mod Entries
pub mod Order
pub mod Search
pub mod Distinct
pub mod Balance
pub mod Find
pub mod Count
pub mod Contents
pub mod Sorted
pub mod Refine
pub mod Bag
pub mod Map
pub mod Equal
use parcoach_rma.Common.{
  ℕ, zero, suc, ◌+◌, ◌%◌, ◌^◌, max, true, false, ◌&&◌, ℤ, pos, negsuc, sub_ℕ, ltb_ℤ, leb_ℤ, eqb_ℤ,
  Option, none, some, if◌then◌else◌,
}

-- `struct Interval_tree`, `struct Notif_tree`: `height` is an `int`, `tree_size` an `unsigned long`.
pub data Tree (E : Type 0) : Type 0 where
  null : Tree E
  node : (itv : E) (left right : Tree E) (height tree_size : ℕ) → Tree E

-- What the two files write differently: the key of a node (`low_bound`, `notif_id`), the bounds
-- that stand for a missing child's key (`key + 1`, `key - 1`), and the last change that a deletion
-- makes to `tree_size`.
pub record Keys (E : Type 0) : Type 0 where
  pub key : E → ℤ
  pub above : ℤ → ℤ
  pub below : ℤ → ℤ
  pub resize : ℕ → ℕ

abbrev pub ulong_mod : ℕ
ulong_mod = 2 ^ 64

module _ {E : Type 0} where
  abbrev pub height : Tree E → ℕ
  height null = 0
  height (node itv left right h size) = h

  unfoldable pub new_tree : E → Tree E
  new_tree itv = node itv null null 1 1

  unfoldable pub right_rotate : Tree E → Tree E
  right_rotate null = null
  right_rotate (node y null right h size) = node y null right h size
  right_rotate (node y (node x left t2 hx size_x) right h size) =
      let hy = max (height t2) (height right) + 1 in
      node x left (node y t2 right hy size) (max (height left) hy + 1) size_x

  unfoldable pub left_rotate : Tree E → Tree E
  left_rotate null = null
  left_rotate (node x left null h size) = node x left null h size
  left_rotate (node x left (node y t2 right hy size_y) h size) =
      let hx = max (height left) (height t2) + 1 in
      node y (node x left t2 hx size) right (max hx (height right) + 1) size_y

  unfoldable pub get_balance : Tree E → ℤ
  get_balance null = pos 0
  get_balance (node itv left right h size) = sub_ℕ (height left) (height right)

  -- The walk of `minValueNode` from a node with this content and this left child: the content of
  -- the leftmost node.
  unfoldable pub min_value_node : E → Tree E → E
  min_value_node itv null = itv
  min_value_node itv (node x left right h size) = min_value_node x left

  -- The number of nodes.
  abbrev pub count_nodes : Tree E → ℕ
  count_nodes null = 0
  count_nodes (node itv left right h size) = suc (count_nodes left + count_nodes right)

module _ {E : Type 0} (keys : Keys E) where
  open keys use {key, above, below, resize}

  -- The key of a child, or a bound where there is no child.
  unfoldable pub child_key : Tree E → ℤ → ℤ
  child_key null bound = bound
  child_key (node itv left right h size) bound = key itv

  -- The end of an insertion of `itv` under a node with these fields, whose child has been replaced.
  unfoldable pub settle_insert : E → E → Tree E → Tree E → ℕ → Tree E
  settle_insert itv top left right size =
      let size' = (1 + size) % ulong_mod in
      let h = 1 + max (height left) (height right) in
      let settled = node top left right h size' in
      let balance = get_balance settled in
      let key_left = child_key left (above (key itv)) in
      let key_right = child_key right (below (key itv)) in
      if ltb_ℤ (pos 1) balance && ltb_ℤ (key itv) key_left
      then right_rotate settled
      else if ltb_ℤ balance (negsuc 0) && ltb_ℤ key_right (key itv)
      then left_rotate settled
      else if ltb_ℤ (pos 1) balance && ltb_ℤ key_left (key itv)
      then right_rotate (node top (left_rotate left) right h size')
      else if ltb_ℤ balance (negsuc 0) && ltb_ℤ (key itv) key_right
      then left_rotate (node top left (right_rotate right) h size')
      else settled

  unfoldable pub insert : Tree E → E → Tree E
  insert null itv = new_tree itv
  insert (node top left right h size) itv = elim (ltb_ℤ (key itv) (key top)) [
    | true ↦ settle_insert itv top (insert left itv) right size
    | false ↦ settle_insert itv top left (insert right itv) size
  ]

  -- The end of a deletion, at a node with these fields.
  unfoldable pub settle_delete : E → Tree E → Tree E → ℕ → Tree E
  settle_delete top left right size =
      let h = 1 + max (height left) (height right) in
      let settled = node top left right h size in
      let balance = get_balance settled in
      if ltb_ℤ (pos 1) balance && leb_ℤ (pos 0) (get_balance left)
      then right_rotate settled
      else if ltb_ℤ (pos 1) balance && ltb_ℤ (get_balance left) (pos 0)
      then right_rotate (node top (left_rotate left) right h size)
      else if ltb_ℤ balance (negsuc 0) && leb_ℤ (get_balance right) (pos 0)
      then left_rotate settled
      else if ltb_ℤ balance (negsuc 0) && ltb_ℤ (pos 0) (get_balance right)
      then left_rotate (node top left (right_rotate right) h size)
      else node top left right h (resize size)

  -- Where a subtree is brought up in place of the node, it is settled again with its own fields.
  unfoldable pub bring_up : Tree E → Tree E
  bring_up null = null
  bring_up (node top left right h size) = settle_delete top left right size

  -- The deletion of a node with these children; `delete_right` deletes from the right one.
  unfoldable pub delete_top : Tree E → Tree E → ℕ → (ℤ → Tree E) → Tree E
  delete_top null right size delete_right = bring_up right
  delete_top (node l ll lr lh ls) null size delete_right = bring_up (node l ll lr lh ls)
  delete_top (node l ll lr lh ls) (node r rl rr rh rs) size delete_right =
      let least = min_value_node r rl in
      settle_delete least (node l ll lr lh ls) (delete_right (key least)) size

  unfoldable pub delete : Tree E → ℤ → Tree E
  delete null k = null
  delete (node top left right h size) k = elim (ltb_ℤ k (key top)) [
    | true ↦ settle_delete top (delete left k) right size
    | false ↦ elim (ltb_ℤ (key top) k) [
      | true ↦ settle_delete top left (delete right k) size
      | false ↦ delete_top left right size (delete right)
    ]
  ]

  -- `while (NULL != temp) temp = delete(temp, key of temp)`, with fuel for each round.
  unfoldable pub free_rounds : ℕ → Tree E → Tree E
  free_rounds zero root = root
  free_rounds (suc fuel) null = null
  free_rounds (suc fuel) (node top left right h size) =
      free_rounds fuel (delete (node top left right h size) (key top))

  unfoldable pub free_tree : Tree E → Tree E
  free_tree root = free_rounds (count_nodes root) root

  -- The first node on the way down whose key is `k`.
  unfoldable pub find : Tree E → ℤ → Option E
  find null k = none
  find (node top left right h size) k = elim (eqb_ℤ k (key top)) [
    | true ↦ some top
    | false ↦ elim (ltb_ℤ k (key top)) [
      | true ↦ find left k
      | false ↦ elim (ltb_ℤ (key top) k) [ true ↦ find right k | false ↦ none ]
    ]
  ]
