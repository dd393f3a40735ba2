-- ===== src/Analyzer/Save.antt =====
-- src/core/rma_analyzer.c: saving, filtering and deleting intervals, and the notified ones.
use parcoach_rma.Common.{
  ℕ, ◌+◌, ◌%◌, ◌^◌, Bool, true, false, not, ◌&&◌, ◌||◌, Option, none, some, List, [], ◌∷◌, ℤ, pos,
  negsuc, ltb, leb, ltb_ℤ, if◌then◌else◌,
}
use parcoach_rma.Interval.{AccessType, Interval, get_low_bound, get_up_bound, create_interval}
use parcoach_rma.Avl.{null, node}
use parcoach_rma.IntervalTree.{
  IntervalTree, overlap_search, insert_interval_tree, delete_interval_tree,
}
use parcoach_rma.NotifTree.{insert_notif_tree, delete_notif_tree, find_interval_from_notif}
use parcoach_rma.Analyzer.State.{WinState, StateTable, race, null_dereference, M}
use parcoach_rma.Analyzer.Monad.{
  pure, fail, ◌>>=◌, ◌>>◌, put_state, rma_analyzer_get_state, gets, get_wins,
}

-- The interval lies in the window, or the filter is off.
unfoldable pub is_saved_in : Bool → WinState → Interval → Bool
is_saved_in filter_window state itv =
    not filter_window
    || (leb state.win_base (get_low_bound itv)
        && ltb (get_up_bound itv) ((state.win_base + state.win_size) % 2 ^ 64))

module _ {table : StateTable} where
  unfoldable pub rma_analyzer_is_active_epoch : ℕ → M table Bool
  rma_analyzer_is_active_epoch win = do
    state ← rma_analyzer_get_state win
    pure (ltb 0 state.active_epoch)

-- `notified` says whether the library is built with the support of notified communication, which
-- defines the weak symbol `rma_analyzer_save_notif`.
module _ {table : StateTable} (notified : Bool) where
  unfoldable pub rma_analyzer_save_notif : Interval → ℕ → M table (Unit {0})
  rma_analyzer_save_notif itv win = if ltb_ℤ itv.notification_id (pos 0) then pure tt else do
    state ← rma_analyzer_get_state win
    put_state (record state { notif_tree = insert_notif_tree state.notif_tree itv })

  -- Where no interval of the tree conflicts, the interval is inserted.
  unfoldable pub insert_unless_overlap : WinState → Interval → ℕ → Option Interval → M table Bool
  insert_unless_overlap state itv win (some overlap) = fail (race itv overlap)
  insert_unless_overlap state itv win none = do
    put_state (record state { local_tree = insert_interval_tree state.local_tree itv })
    (if notified then rma_analyzer_save_notif itv win else pure tt)
    pure true

  -- `MPI_Abort` does not return. The result says whether the interval has been saved.
  unfoldable pub rma_analyzer_save_interval : Interval → ℕ → M table Bool
  rma_analyzer_save_interval itv win = do
    state ← rma_analyzer_get_state win
    filter ← gets (λ w. w.filter_window)
    if is_saved_in filter state itv
        then insert_unless_overlap state itv win (overlap_search state.local_tree itv)
        else pure false

  -- The loop of `rma_analyzer_save_interval_all_wins` over the windows of the table.
  unfoldable pub save_interval_wins :
      ℕ → ℕ → AccessType → ℤ → Option (List ℕ) → List ℕ → M table (Unit {0})
  save_interval_wins address size access_type fileline filename [] = pure tt
  save_interval_wins address size access_type fileline filename (win ∷ rest) = do
    active ← rma_analyzer_is_active_epoch win
    (if active
        then (do
          _ ←
              rma_analyzer_save_interval
                (create_interval address ((address + size) % 2 ^ 64) access_type (negsuc 0) fileline
                  filename)
                win
          pure tt)
        else pure tt)
    save_interval_wins address size access_type fileline filename rest

  unfoldable pub rma_analyzer_save_interval_all_wins :
      ℕ → ℕ → AccessType → ℤ → Option (List ℕ) → M table (Unit {0})
  rma_analyzer_save_interval_all_wins address size access_type fileline filename = do
    wins ← get_wins
    save_interval_wins address size access_type fileline filename wins

  -- `delete_interval_tree` reads the interval's low bound unless the tree is empty; a NULL interval
  -- is `none`.
  unfoldable pub delete_from_state : WinState → Option Interval → IntervalTree → M table (Unit {0})
  delete_from_state state (some itv) tree =
      put_state (record state { local_tree = delete_interval_tree tree itv })
  delete_from_state state none null = put_state (record state { local_tree = null })
  delete_from_state state none (node _ _ _ _ _) = fail null_dereference

  unfoldable pub rma_analyzer_delete_interval : Option Interval → ℕ → M table (Unit {0})
  rma_analyzer_delete_interval itv win = do
    state ← rma_analyzer_get_state win
    delete_from_state state itv state.local_tree

  unfoldable pub rma_analyzer_clear_from_notif_id : ℕ → ℤ → M table (Unit {0})
  rma_analyzer_clear_from_notif_id win notif_id = if ltb_ℤ notif_id (pos 0) then pure tt else do
    state ← rma_analyzer_get_state win
    rma_analyzer_delete_interval (find_interval_from_notif state.notif_tree notif_id) win
    -- The state that `state` points to, after the deletion.
    after ← rma_analyzer_get_state win
    put_state (record after { notif_tree = delete_notif_tree after.notif_tree notif_id })
