-- ===== src/Printing/Stats.antt =====
-- What the statistics of the trees say.
use native.Mathlib.Nat.{add-mul-mod_self_left, mod-add-div}
use parcoach_rma.Common.{
  ℕ, suc, ◌+◌, ◌*◌, ◌/◌, ◌%◌, ◌<◌, ◌≡◌, refl, sym, ◌∙◌, ap, max, List, [], ◌∷◌, length, pos, arith,
}
use parcoach_rma.Interval.{Interval}
use parcoach_rma.Avl.{
  null, node, height, count_nodes, ulong_mod, insert, settle_insert, new_tree, child_key,
  get_balance, left_rotate,
}
use parcoach_rma.IntervalTree.{IntervalTree, insert_interval_tree}
use parcoach_rma.PlainTree.Sizes.{IsExact, insert_plain_tree-IsExact}
use parcoach_rma.PlainTree.Contents.{plain_tree_of, avl_tree_of}
use parcoach_rma.Printing.{Output, literal, unsigned, signed, print_tree_stats}

-- The number of nodes on the longest branch.
abbrev pub longest_branch : IntervalTree → ℕ
longest_branch null = 0
longest_branch (node itv left right h size) = 1 + max (longest_branch left) (longest_branch right)

height-longest_branch : (t : IntervalTree) → IsExact t → height t ≡ longest_branch t
height-longest_branch null e = refl
height-longest_branch (node itv left right h size) (eh, es, el, er) =
    omega (arith, eh, height-longest_branch left el, height-longest_branch right er)

-- The statistics of a tree with `count` nodes and branches of `depth` nodes at most.
abbrev pub stats : (sizeof_tree count depth : ℕ) → Output
stats sizeof_tree count depth =
    literal "Tree statistics:\n"
    ∷ literal "Number of nodes in the tree: "
    ∷ unsigned (count % ulong_mod)
    ∷ literal " \n"
    ∷ literal "Size of the tree: "
    ∷ unsigned ((count * sizeof_tree) % ulong_mod)
    ∷ literal " \n"
    ∷ literal "Depth of the longest branch of the tree: "
    ∷ signed (pos depth)
    ∷ literal " \n"
    ∷ []

plain_tree_of-IsExact :
    (is : List Interval) → IsExact (plain_tree_of is) × (count_nodes (plain_tree_of is) ≡ length is)
plain_tree_of-IsExact [] = (tt, refl)
plain_tree_of-IsExact (i ∷ is) =
    let (exact, count) = plain_tree_of-IsExact is in
    let (exact', count') = insert_plain_tree-IsExact (plain_tree_of is) i exact in
    (exact', count' ∙ omega (arith, count))

mod-mul-mod : (n s m : ℕ) → (n % m * s) % m ≡ (n * s) % m
mod-mul-mod n s m =
    sym (add-mul-mod_self_left (n % m * s) m (n / m * s))
    ∙ ap (λ k. k % m) (omega (arith, ap (λ k. k * s) (mod-add-div n m)))

print_tree_stats-IsExact :
    (sizeof_tree count : ℕ) (t : IntervalTree)
    → IsExact t
    → count_nodes t ≡ suc count
    → print_tree_stats sizeof_tree t ≡ stats sizeof_tree (suc count) (longest_branch t)
unfolding print_tree_stats
print_tree_stats-IsExact sizeof_tree count null e c = ground arith
print_tree_stats-IsExact sizeof_tree count (node itv left right h size) e c =
    let nodes : size ≡ suc count % ulong_mod = e.1 ∙ ap (λ k. k % ulong_mod) (omega (arith, c)) in
    let bytes = mod-mul-mod (suc count) sizeof_tree ulong_mod in
    let depth = height-longest_branch (node itv left right h size) e in cc (nodes, bytes, depth)

-- After the insertions of a list, not empty, of intervals, the statistics of the plain tree give
-- their number and the size of as many nodes, both as unsigned longs, and the length of the longest
-- branch.
pub print_tree_stats-plain_tree_of :
    (sizeof_tree : ℕ) (i : Interval) (is : List Interval)
    → print_tree_stats sizeof_tree (plain_tree_of (i ∷ is))
      ≡ stats sizeof_tree (length (i ∷ is)) (longest_branch (plain_tree_of (i ∷ is)))
print_tree_stats-plain_tree_of sizeof_tree i is =
    let (exact, count) = plain_tree_of-IsExact (i ∷ is) in
    print_tree_stats-IsExact sizeof_tree (length is) (plain_tree_of (i ∷ is)) exact count

-- After the insertions of three intervals with rising low bounds an AVL tree has three nodes, but
-- its statistics give two.
pub print_tree_stats-avl_tree_of :
    (sizeof_tree : ℕ) (a b c : Interval)
    → a.low_bound < b.low_bound
    → b.low_bound < c.low_bound
    → (print_tree_stats sizeof_tree (avl_tree_of (c ∷ b ∷ a ∷ [])) ≡ stats sizeof_tree 2 2)
      × (count_nodes (avl_tree_of (c ∷ b ∷ a ∷ [])) ≡ 3)
unfolding print_tree_stats insert_interval_tree insert settle_insert new_tree child_key get_balance
    left_rotate
print_tree_stats-avl_tree_of sizeof_tree a b c ab bc = ground arith
