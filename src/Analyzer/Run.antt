-- ===== src/Analyzer/Run.antt =====
-- The calls of src/core/rma_analyzer.c that one process makes, as steps from a state of the analyzer
-- to the next one. The thread of a window takes the lock of the tree for each interval that it
-- saves, so the calls of the program and the receptions of the threads are steps in any order.
pub mod Sound
use parcoach_rma.Common.{ℕ, ◌≡◌, Bool, true, Option, none, List, [], ℤ, length, replicate}
use parcoach_rma.Interval.{AccessType, Interval}
use parcoach_rma.Analyzer.State.{
  Lang, no_language, WinState, StateTable, Outcome, ok, World, M, max_win,
}
use parcoach_rma.Analyzer.Monad.{pure, ◌>>=◌}
use parcoach_rma.Analyzer.Save.{
  rma_analyzer_save_interval, rma_analyzer_save_interval_all_wins, rma_analyzer_delete_interval,
  rma_analyzer_clear_from_notif_id,
}
use parcoach_rma.Analyzer.Thread.{
  Reception, rma_analyzer_check_communication, after_reception, ThreadEnd, thread_waiting,
}
use parcoach_rma.Analyzer.Epoch.{
  rma_analyzer_init_comm_check_thread, rma_analyzer_clear_comm_check_thread,
  rma_analyzer_init_comm_check_thread_all_wins, rma_analyzer_clear_comm_check_thread_all_wins,
}
use parcoach_rma.Analyzer.Window.{
  rma_analyzer_start, rma_analyzer_stop, rma_analyzer_update_on_comm_send,
}

-- The globals before the first call.
abbrev pub initial_world : (table : StateTable) → World table
initial_world table = record {
  state_htbl = table.nothing;
  win_mpi_tag_id = replicate max_win 0;
  language_program = no_language;
  filter_window = true;
  sent = [];
}

module _ {table : StateTable} (notified : Bool) where
  -- One round of a thread, with the messages that wait for it.
  unfoldable pub receive_one : ℕ → List Interval → M table ThreadEnd
  receive_one win incoming = do
    reception ← rma_analyzer_check_communication notified win incoming
    after_reception notified win incoming (pure thread_waiting) reception

  -- A call that returns. A window that is started is a new one.
  pub data Step : World table → World table → Type 0 where
    local_access :
        {w w' : World table} (address size : ℕ) (access : AccessType) (line : ℤ)
        (name : Option (List ℕ))
        → rma_analyzer_save_interval_all_wins notified address size access line name w ≡ ok (tt, w')
        → Step w w'
    communication :
        {w w' : World table} (local_address local_size disp size rank : ℕ) (here there : AccessType)
        (id line : ℤ) (name : Option (List ℕ)) (win : ℕ)
        → rma_analyzer_update_on_comm_send notified local_address local_size disp size rank here
            there id line name win w
          ≡ ok (tt, w')
        → Step w w'
    reception :
        {w w' : World table} (win : ℕ) (incoming : List Interval) (end : ThreadEnd)
        → receive_one win incoming w ≡ ok (end, w')
        → Step w w'
    epoch_begin :
        {w w' : World table} (win : ℕ)
        → rma_analyzer_init_comm_check_thread notified win w ≡ ok (tt, w')
        → Step w w'
    epoch_end :
        {w w' : World table} (do_reduce : Bool) (total : ℕ) (incoming : List Interval) (win : ℕ)
        → rma_analyzer_clear_comm_check_thread notified do_reduce total incoming win w ≡ ok (tt, w')
        → Step w w'
    all_begin :
        {w w' : World table}
        → rma_analyzer_init_comm_check_thread_all_wins notified w ≡ ok (tt, w')
        → Step w w'
    all_end :
        {w w' : World table} (do_reduce : Bool) (totals : ℕ → ℕ) (incomings : ℕ → List Interval)
        → rma_analyzer_clear_comm_check_thread_all_wins notified do_reduce totals incomings w
          ≡ ok (tt, w')
        → Step w w'
    window_start :
        {w w' : World table} (base size comm size_comm : ℕ) (array : List ℕ) (win : ℕ) (lang : Lang)
        (env : Option ℤ)
        → length array ≡ size_comm
        → table.find w.state_htbl win ≡ none
        → rma_analyzer_start notified base size comm size_comm array win lang env w ≡ ok (tt, w')
        → Step w w'
    window_stop :
        {w w' : World table} (win : ℕ) → rma_analyzer_stop notified win w ≡ ok (tt, w') → Step w w'
    notification :
        {w w' : World table} (win : ℕ) (id : ℤ)
        → rma_analyzer_clear_from_notif_id notified win id w ≡ ok (tt, w')
        → Step w w'

  -- A state that calls lead to.
  pub data Reach : World table → Type 0 where
    begin : Reach (initial_world table)
    next : {w w' : World table} → Reach w → Step w w' → Reach w'
