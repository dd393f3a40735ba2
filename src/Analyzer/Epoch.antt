-- ===== src/Analyzer/Epoch.antt =====
-- src/core/rma_analyzer.c: the beginning and the end of an epoch, on one window and on all.
use parcoach_rma.Common.{
  ℕ, ◌+◌, Bool, true, false, not, ◌&&◌, List, [], ◌∷◌, replicate, ◌==◌, if◌then◌else◌,
}
use parcoach_rma.Interval.{Interval}
use parcoach_rma.IntervalTree.{free_interval_tree}
use parcoach_rma.NotifTree.{free_notif_tree}
use parcoach_rma.Analyzer.State.{StateTable, join_blocked, M}
use parcoach_rma.Analyzer.Monad.{
  pure, fail, ◌>>=◌, ◌>>◌, put_state, rma_analyzer_get_state, get_wins,
}
use parcoach_rma.Analyzer.Save.{rma_analyzer_is_active_epoch}
use parcoach_rma.Analyzer.Thread.{
  ThreadEnd, thread_exited, thread_waiting, rma_analyzer_comm_check_thread,
}

module _ {table : StateTable} (notified : Bool) where
  -- The array of `size_comm` counters is set to zero. The model has one thread for a window: a call
  -- while one runs starts a second thread in the code.
  unfoldable pub rma_analyzer_init_comm_check_thread : ℕ → M table (Unit {0})
  rma_analyzer_init_comm_check_thread win = do
    state ← rma_analyzer_get_state win
    put_state (record state {
      array = replicate state.size_comm 0;
      thread_end = 0;
      count_epoch = state.count_epoch + 1;
      active_epoch = 1;
      running = true;
    })

  -- What follows the call of pthread_join, which returns if the thread has exited.
  unfoldable pub after_join : ℕ → ThreadEnd → M table (Unit {0})
  after_join win thread_waiting = fail join_blocked
  after_join win (thread_exited _) = do
    state ← rma_analyzer_get_state win
    put_state (record state {
      running = false;
      count = 0;
      active_epoch = 0;
      local_tree = free_interval_tree state.local_tree;
      notif_tree = if notified then free_notif_tree state.notif_tree else state.notif_tree;
    })

  -- The end of an epoch of a window for which a thread has been started; to join another is not
  -- defined. `total` is what the calls of MPI_Reduce leave in this process, the number
  -- of intervals that were sent to it; `incoming` are the messages that arrive for its thread.
  unfoldable pub rma_analyzer_clear_comm_check_thread :
      Bool → ℕ → List Interval → ℕ → M table (Unit {0})
  rma_analyzer_clear_comm_check_thread do_reduce total incoming win = do
    state ← rma_analyzer_get_state win
    put_state (record state { value = if do_reduce then total else 0; thread_end = 1 })
    end ← rma_analyzer_comm_check_thread notified win incoming
    after_join win end

  unfoldable pub init_wins : List ℕ → M table (Unit {0})
  init_wins [] = pure tt
  init_wins (win ∷ rest) = do
    active ← rma_analyzer_is_active_epoch win
    state ← rma_analyzer_get_state win
    (if not active && (state.from_sync == 1)
        then rma_analyzer_init_comm_check_thread win
        else pure tt)
    init_wins rest

  unfoldable pub rma_analyzer_init_comm_check_thread_all_wins : M table (Unit {0})
  rma_analyzer_init_comm_check_thread_all_wins = do wins ← get_wins; init_wins wins

  -- `totals` and `incomings` give for each window what arrives at this process.
  unfoldable pub clear_wins : Bool → (ℕ → ℕ) → (ℕ → List Interval) → List ℕ → M table (Unit {0})
  clear_wins do_reduce totals incomings [] = pure tt
  clear_wins do_reduce totals incomings (win ∷ rest) = do
    active ← rma_analyzer_is_active_epoch win
    (if active
        then (do
          rma_analyzer_clear_comm_check_thread do_reduce (totals win) (incomings win) win
          state ← rma_analyzer_get_state win
          put_state (record state { from_sync = 1 }))
        else pure tt)
    clear_wins do_reduce totals incomings rest

  unfoldable pub rma_analyzer_clear_comm_check_thread_all_wins :
      Bool → (ℕ → ℕ) → (ℕ → List Interval) → M table (Unit {0})
  rma_analyzer_clear_comm_check_thread_all_wins do_reduce totals incomings = do
    wins ← get_wins
    clear_wins do_reduce totals incomings wins
