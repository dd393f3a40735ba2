-- ===== src/Examples/Notifications.antt =====
-- The end of notified accesses, applied to windows that hold one and two intervals.
use parcoach_rma.Common.{◌≡◌, ◌⊎◌, refl, inl, none, some, true, [], ◌∷◌, pos}
use parcoach_rma.Interval.{Interval}
use parcoach_rma.Avl.{null, node, find}
use parcoach_rma.IntervalTree.{insert_interval_tree}
use parcoach_rma.NotifTree.{find_interval_from_notif}
use parcoach_rma.Analyzer.State.{WinState, fault, null_dereference}
use parcoach_rma.Analyzer.Save.{rma_analyzer_clear_from_notif_id}
use parcoach_rma.Analyzer.Forgotten.{Forgotten, clear_from_notif_id_lem, clear_from_notif_id_other}
use parcoach_rma.Examples.Table.{list_table, find_state}
use parcoach_rma.Examples.State.{window, with_window}
use parcoach_rma.Examples.Trees.{first}

abbrev shorter : Interval
shorter = record first { up_bound = 3; notification_id = pos 6 }

-- A window with one notified interval.
abbrev one_window : WinState
one_window = record window {
  local_tree = node first null null 1 1;
  notif_tree = node (record { notif_id = pos 1; itv = first }) null null 1 1;
}

found_one_window : list_table.find (with_window one_window).state_htbl 7 ≡ some one_window
unfolding find_state
found_one_window = refl

finds_first : find_interval_from_notif one_window.notif_tree (pos 1) ≡ some first
unfolding find_interval_from_notif find
finds_first = refl

clear_from_notif_id_lem_example :
    ((find_interval_from_notif one_window.notif_tree (pos 1) ≡ some first)
      × Forgotten {table = list_table} true 7 one_window (with_window one_window) (pos 1) [] (
          rma_analyzer_clear_from_notif_id {table = list_table} true 7
            (pos 1)
            (with_window one_window)))
    ⊎ ((find_interval_from_notif one_window.notif_tree (pos 1) ≡ none)
        × (rma_analyzer_clear_from_notif_id {table = list_table} true 7
              (pos 1)
              (with_window one_window)
            ≡ fault null_dereference))
clear_from_notif_id_lem_example =
    clear_from_notif_id_lem true 7 one_window (with_window one_window) (pos 1) [] first [] refl
      found_one_window (tt, tt, tt, tt) (tt, tt, tt, tt) refl (inl finds_first)

-- A window with two reads from one address, the second of them notified.
abbrev two_window : WinState
two_window = record window {
  local_tree = insert_interval_tree (insert_interval_tree null first) shorter;
  notif_tree = node (record { notif_id = pos 6; itv = shorter }) null null 1 1;
}

found_two_window : list_table.find (with_window two_window).state_htbl 7 ≡ some two_window
unfolding find_state
found_two_window = refl

finds_shorter : find_interval_from_notif two_window.notif_tree (pos 6) ≡ some shorter
unfolding find_interval_from_notif find
finds_shorter = refl

clear_from_notif_id_other_example :
    Forgotten {table = list_table} true 7 two_window
      (with_window two_window)
      (pos 6)
      (shorter ∷ [])
      (rma_analyzer_clear_from_notif_id {table = list_table} true 7
        (pos 6)
        (with_window two_window))
clear_from_notif_id_other_example =
    clear_from_notif_id_other true 7 two_window (with_window two_window) (pos 6) first shorter refl
      found_two_window (tt, tt, tt, tt) refl refl finds_shorter
