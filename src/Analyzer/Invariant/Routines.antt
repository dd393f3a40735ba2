-- ===== src/Analyzer/Invariant/Routines.antt =====
-- The routines that save and delete intervals keep every property of states that insertions into
-- their trees and deletions from them keep.
use parcoach_rma.Common.{ℕ, Bool, Option, none, some, List, [], ◌∷◌, ℤ}
use parcoach_rma.Interval.{AccessType, Interval}
use parcoach_rma.Avl.{null, node}
use parcoach_rma.IntervalTree.{IntervalTree, insert_interval_tree, delete_interval_tree}
use parcoach_rma.NotifTree.{insert_notif_tree, delete_notif_tree}
use parcoach_rma.Analyzer.State.{WinState, StateTable}
use parcoach_rma.Analyzer.Save.{
  rma_analyzer_is_active_epoch, insert_unless_overlap, delete_from_state, rma_analyzer_save_notif,
  rma_analyzer_save_interval, save_interval_wins, rma_analyzer_save_interval_all_wins,
  rma_analyzer_delete_interval, rma_analyzer_clear_from_notif_id,
}
use parcoach_rma.Analyzer.Invariant.{Keeps, bind-Keeps, put_state-Keeps, keeps_rules}

-- A property of states that the operations on their trees keep.
pub record KeepsTrees (R : WinState → Type 0) : Type 0 where
  pub with_interval :
      (x : WinState)
      → R x
      → (itv : Interval) → R (record x { local_tree = insert_interval_tree x.local_tree itv })
  pub without_interval :
      (x : WinState)
      → R x
      → (itv : Interval) → R (record x { local_tree = delete_interval_tree x.local_tree itv })
  pub with_null : (x : WinState) → R x → R (record x { local_tree = null })
  pub with_notif :
      (x : WinState)
      → R x
      → (itv : Interval) → R (record x { notif_tree = insert_notif_tree x.notif_tree itv })
  pub without_notif :
      (x : WinState)
      → R x
      → (k : ℤ) → R (record x { notif_tree = delete_notif_tree x.notif_tree k })

module _ {table : StateTable} {R : WinState → Type 0} (trees : KeepsTrees R) (notified : Bool) where
  open trees use {with_interval, without_interval, with_null, with_notif, without_notif}

  pub is_active_epoch-Keeps : (win : ℕ) → Keeps R (rma_analyzer_is_active_epoch {table = table} win)
  unfolding rma_analyzer_is_active_epoch
  is_active_epoch-Keeps win = search keeps_rules

  save_notif-Keeps :
      (itv : Interval) (win : ℕ)
      → Keeps R (rma_analyzer_save_notif {table = table} notified itv win)
  unfolding rma_analyzer_save_notif
  save_notif-Keeps itv win = search (keeps_rules, with_notif)

  insert_unless_overlap-Keeps :
      (x : WinState) (itv : Interval) (win : ℕ) (o : Option Interval)
      → R x
      → Keeps R (insert_unless_overlap {table = table} notified x itv win o)
  unfolding insert_unless_overlap
  insert_unless_overlap-Keeps x itv win (some overlap) s = search keeps_rules
  insert_unless_overlap-Keeps x itv win none s =
      search (keeps_rules, with_interval, save_notif-Keeps)

  pub save_interval-Keeps :
      (itv : Interval) (win : ℕ)
      → Keeps R (rma_analyzer_save_interval {table = table} notified itv win)
  unfolding rma_analyzer_save_interval
  save_interval-Keeps itv win = search (keeps_rules, insert_unless_overlap-Keeps)

  save_interval_wins-Keeps :
      (address size : ℕ) (access : AccessType) (line : ℤ) (name : Option (List ℕ)) (wins : List ℕ)
      → Keeps R (save_interval_wins {table = table} notified address size access line name wins)
  unfolding save_interval_wins
  save_interval_wins-Keeps address size access line name [] = search keeps_rules
  save_interval_wins-Keeps address size access line name (win ∷ rest) =
      let later = save_interval_wins-Keeps address size access line name rest in
      bind-Keeps _ _ (is_active_epoch-Keeps win)
        (λ active. bind-Keeps _ _ (search (keeps_rules, save_interval-Keeps)) (λ _. later))

  pub save_interval_all_wins-Keeps :
      (address size : ℕ) (access : AccessType) (line : ℤ) (name : Option (List ℕ))
      → Keeps R (
          rma_analyzer_save_interval_all_wins {table = table} notified address size access line
            name)
  unfolding rma_analyzer_save_interval_all_wins
  save_interval_all_wins-Keeps address size access line name =
      search (keeps_rules, save_interval_wins-Keeps)

  delete_from_state-Keeps :
      (x : WinState) (itv : Option Interval)
      → R x
      → Keeps R (delete_from_state {table = table} notified x itv x.local_tree)
  unfolding delete_from_state
  delete_from_state-Keeps x (some itv) s = search (keeps_rules, without_interval)
  delete_from_state-Keeps x none s = null_interval x.local_tree
    where
      null_interval :
          (t : IntervalTree) → Keeps R (delete_from_state {table = table} notified x none t)
      null_interval null = put_state-Keeps _ (with_null x s)
      null_interval (node _ _ _ _ _) = search keeps_rules

  delete_interval-Keeps :
      (itv : Option Interval) (win : ℕ)
      → Keeps R (rma_analyzer_delete_interval {table = table} notified itv win)
  unfolding rma_analyzer_delete_interval
  delete_interval-Keeps itv win = search (keeps_rules, delete_from_state-Keeps)

  pub clear_from_notif_id-Keeps :
      (win : ℕ) (k : ℤ) → Keeps R (rma_analyzer_clear_from_notif_id {table = table} notified win k)
  unfolding rma_analyzer_clear_from_notif_id
  clear_from_notif_id-Keeps win k =
      search (keeps_rules, delete_interval-Keeps, without_notif) depth 9
