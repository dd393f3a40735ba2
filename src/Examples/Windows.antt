-- ===== src/Examples/Windows.antt =====
-- The properties of saving, receiving, sending and tags, and of the end of an epoch, applied to a
-- window.
use parcoach_rma.Common.{
  ◌-◌, ◌≡◌, ◌≢◌, refl, true, false, none, [], ◌∷◌, pos, negsuc, ◌+ℤ◌, arith, replicate,
}
use parcoach_rma.Interval.{rma_read, rma_write}
use parcoach_rma.Avl.{null}
use parcoach_rma.Analyzer.State.{c, World, ok, base_mpi_tag, max_epoch_number}
use parcoach_rma.Analyzer.Save.{rma_analyzer_save_interval}
use parcoach_rma.Analyzer.Thread.{thread_exited, rma_analyzer_comm_check_thread}
use parcoach_rma.Analyzer.Epoch.{rma_analyzer_clear_comm_check_thread}
use parcoach_rma.Analyzer.Window.{
  tag_of_range, rma_analyzer_get_tag_range_id, rma_analyzer_free_tag_range,
  rma_analyzer_update_on_comm_send, rma_analyzer_start, first_free, new_state, same_language,
}
use parcoach_rma.Analyzer.Invariant.{Lands, Everywhere}
use parcoach_rma.Analyzer.Invariant.Sound.{IsSound}
use parcoach_rma.Analyzer.Protocol.{Settles}
use parcoach_rma.Analyzer.Protocol.Saving.{Saved, Reported, save_interval_lem}
use parcoach_rma.Analyzer.Protocol.Reception.{Conflict, Ended, comm_check_thread_lem}
use parcoach_rma.Analyzer.Protocol.Closing.{
  Closed, clear_comm_check_thread_lem, clear_comm_check_thread_blocks,
}
use parcoach_rma.Analyzer.Sending.{Announced, update_on_comm_send_lem}
use parcoach_rma.Analyzer.Tags.{free_tag_range_exhausted, tag_of_range_ne}
use parcoach_rma.Analyzer.Run.{begin, next, window_start, initial_world}
use parcoach_rma.Analyzer.Run.Sound.{Reach-Everywhere}
use parcoach_rma.Examples.Table.{list_table, find_state, add_state}
use parcoach_rma.Examples.State.{
  read, window, ending, with_window, found_window, found_ending, window-Everywhere,
}

save_interval_lem_example :
    Settles
      (Saved true read 7 window (with_window window) found_window)
      (Reported true read 7 window (with_window window) found_window)
      (rma_analyzer_save_interval true read 7 (with_window window))
save_interval_lem_example = save_interval_lem true read 7 window (with_window window) found_window

comm_check_thread_lem_example :
    Settles
      (Ended true 7 ending (thread_exited []))
      Conflict
      (rma_analyzer_comm_check_thread true 7 (read ∷ []) (with_window ending))
comm_check_thread_lem_example =
    comm_check_thread_lem true 7 (read ∷ []) 1 ending (with_window ending) found_ending refl refl

clear_comm_check_thread_lem_example :
    Settles
      (λ _ w. Closed true 1 (read ∷ []) 7 window w)
      Conflict
      (rma_analyzer_clear_comm_check_thread true true 1 (read ∷ []) 7 (with_window window))
clear_comm_check_thread_lem_example =
    clear_comm_check_thread_lem true 1 (read ∷ []) 7 window (with_window window) 1 found_window
      window-Everywhere refl (omega arith)

clear_comm_check_thread_blocks_example :
    Lands
      (λ _ _. ⊥)
      (rma_analyzer_clear_comm_check_thread true true 2 (read ∷ []) 7 (with_window window))
clear_comm_check_thread_blocks_example =
    clear_comm_check_thread_blocks true 2 (read ∷ []) 7 window (with_window window) 2 found_window
      window-Everywhere refl (omega arith)

update_on_comm_send_lem_example :
    Settles
      (λ _ w.
        Announced true 7 500 8 16 8 1 rma_read rma_write
          (negsuc 0)
          (pos 0)
          none
          window
          (with_window window)
          0
          w)
      Conflict
      (rma_analyzer_update_on_comm_send true 500 8 16 8 1 rma_read rma_write
        (negsuc 0)
        (pos 0)
        none
        7
        (with_window window))
update_on_comm_send_lem_example =
    update_on_comm_send_lem true 7 500 8 16 8 1 rma_read rma_write (negsuc 0) (pos 0) none window
      (with_window window) 0 found_window refl

free_tag_range_exhausted_example :
    (tag_of_range (rma_analyzer_get_tag_range_id (1 ∷ [])).0
      ≡ pos (base_mpi_tag - max_epoch_number))
    × ((rma_analyzer_get_tag_range_id (1 ∷ [])).1 ≡ 1 ∷ [])
    × (rma_analyzer_free_tag_range
          (rma_analyzer_get_tag_range_id (1 ∷ [])).1
          (tag_of_range (rma_analyzer_get_tag_range_id (1 ∷ [])).0)
        ≡ none)
free_tag_range_exhausted_example = free_tag_range_exhausted (1 ∷ []) ((λ e. omega arith), tt)

tag_of_range_ne_example : tag_of_range (pos 0) +ℤ pos 1023 ≢ tag_of_range (pos 1) +ℤ pos 0
tag_of_range_ne_example = tag_of_range_ne 0 1 1023 0 (λ e. omega arith) (omega arith) (omega arith)

-- The state after the start of a window.
abbrev started : World list_table
started = record {
  state_htbl =
      record window { local_tree = null; count_epoch = 0; active_epoch = 0; running = false } ∷ [];
  win_mpi_tag_id = 1 ∷ replicate 31 0;
  language_program = c;
  filter_window = true;
  sent = [];
}

start_test :
    rma_analyzer_start true 100 50 1 2 (0 ∷ 0 ∷ []) 7 c none (initial_world list_table)
    ≡ ok (tt, started)
unfolding rma_analyzer_start rma_analyzer_get_tag_range_id first_free tag_of_range new_state
    same_language add_state
start_test = refl

start_new : list_table.find [] 7 ≡ none
unfolding find_state
start_new = refl

Reach-Everywhere_example : Everywhere IsSound started
Reach-Everywhere_example =
    Reach-Everywhere true
      (next begin (window_start 100 50 1 2 (0 ∷ 0 ∷ []) 7 c none refl start_new start_test))
