-- ===== src/NotifTree.antt =====
-- src/core/notif_avl_tree.c: the AVL tree of notified intervals, ordered by notification id.
pub mod Laws
use mathlib.Core.Option
use parcoach_rma.Common.{ℕ, ◌+◌, ◌-◌, ◌%◌, ◌^◌, Option, ℤ, pos, ◌+ℤ◌, ◌-ℤ◌}
use parcoach_rma.Interval.{Interval, get_notif_id}
use parcoach_rma.Avl.{Tree, Keys, insert, delete, free_tree, find}

-- The fields `notif_id` and `itv` of a node, which the code copies together.
pub record Notif : Type 0 where
  pub notif_id : ℤ
  pub itv : Interval

abbrev pub NotifTree : Type 0
NotifTree = Tree Notif

-- The bounds of a missing child, `notif_id + 1` and `notif_id - 1`, are without wrap: an `int`
-- that overflows has no defined value. A deletion counts `tree_size` down where it does not rotate.
abbrev pub notif_keys : Keys Notif
notif_keys = record {
  key = λ n. n.notif_id;
  above = λ k. k +ℤ pos 1;
  below = λ k. k -ℤ pos 1;
  resize = λ size. (size + 2 ^ 64 - 1) % 2 ^ 64;
}

unfoldable pub new_notif : Interval → Notif
new_notif itv = record { notif_id = get_notif_id itv; itv = itv }

unfoldable pub insert_notif_tree : NotifTree → Interval → NotifTree
unfolding new_notif
insert_notif_tree root itv = insert notif_keys root (new_notif itv)

unfoldable pub delete_notif_tree : NotifTree → ℤ → NotifTree
delete_notif_tree root notif_id = delete notif_keys root notif_id

unfoldable pub free_notif_tree : NotifTree → NotifTree
free_notif_tree root = free_tree notif_keys root

unfoldable pub find_interval_from_notif : NotifTree → ℤ → Option Interval
find_interval_from_notif root notif_id = Option.map (λ n. n.itv) (find notif_keys root notif_id)
