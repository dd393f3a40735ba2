-- ===== src/Examples/Epochs.antt =====
-- The properties of all windows, of fences and of the counters, applied to a window.
use parcoach_rma.Common.{ℕ, ◌≡◌, refl, true, none, some, [], ◌∷◌, pos, arith, if◌then◌else◌}
use parcoach_rma.Interval.{local_write}
use parcoach_rma.Analyzer.State.{WinState}
use parcoach_rma.Analyzer.Save.{rma_analyzer_save_interval_all_wins}
use parcoach_rma.Analyzer.Epoch.{rma_analyzer_init_comm_check_thread_all_wins}
use parcoach_rma.Analyzer.Protocol.{Settles}
use parcoach_rma.Analyzer.Protocol.Reception.{Conflict}
use parcoach_rma.Analyzer.Restart.{restart, is_among, NoReport, init_all_wins_lem, AllFound}
use parcoach_rma.Analyzer.Broadcast.{accessed, with_access, AllDistinct, save_interval_all_wins_lem}
use parcoach_rma.Overload.{mpi_win_fence}
use parcoach_rma.Overload.Fence.{Fenced, mpi_win_fence_lem}
use parcoach_rma.Examples.Table.{state_wins, list_table}
use parcoach_rma.Examples.State.{
  read, window, with_window, found_window, window-Everywhere, idle, found_idle,
}

idle-AllFound : AllFound true (with_window idle) (list_table.wins (with_window idle).state_htbl)
unfolding state_wins
idle-AllFound = ((idle, found_idle), tt)

init_all_wins_lem_example :
    Settles
      (λ _ w'.
        (v : ℕ) (x : WinState)
        → list_table.find (with_window idle).state_htbl v ≡ some x
        → list_table.find w'.state_htbl v
          ≡ some
              (if is_among v (list_table.wins (with_window idle).state_htbl) then restart x else x))
      NoReport
      (rma_analyzer_init_comm_check_thread_all_wins true (with_window idle))
init_all_wins_lem_example = init_all_wins_lem true (with_window idle) idle-AllFound

window-AllFound :
    AllFound true (with_window window) (list_table.wins (with_window window).state_htbl)
unfolding state_wins
window-AllFound = ((window, found_window), tt)

window-AllDistinct : AllDistinct (list_table.wins (with_window window).state_htbl)
unfolding state_wins is_among
window-AllDistinct = (refl, tt)

save_interval_all_wins_lem_example :
    Settles
      (λ _ u.
        (v : ℕ) (x : WinState)
        → list_table.find (with_window window).state_htbl v ≡ some x
        → list_table.find u.state_htbl v
          ≡ some (
              if is_among v (list_table.wins (with_window window).state_htbl)
              then with_access true true (accessed 120 7 local_write (pos 4) none) x
              else x))
      Conflict
      (rma_analyzer_save_interval_all_wins true 120 7 local_write (pos 4) none (with_window window))
save_interval_all_wins_lem_example =
    save_interval_all_wins_lem true 120 7 local_write (pos 4) none (with_window window)
      window-AllFound window-AllDistinct

mpi_win_fence_lem_example :
    Settles
      (Fenced true 0 1 (read ∷ []) 7 window)
      Conflict
      (mpi_win_fence true 0 1 (read ∷ []) 7 (with_window window))
mpi_win_fence_lem_example =
    mpi_win_fence_lem true 0 1 (read ∷ []) 7 window (with_window window) 1 found_window
      window-Everywhere refl (omega arith)
