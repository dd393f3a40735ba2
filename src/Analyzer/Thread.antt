-- ===== src/Analyzer/Thread.antt =====
-- src/core/rma_analyzer.c: the thread that receives the intervals of other processes. It runs over
-- the list of the messages that arrive for it; where the list is at its end, it waits.
use parcoach_rma.Common.{ℕ, ◌+◌, ◌%◌, ◌^◌, Bool, ◌&&◌, some, List, [], ◌∷◌, ◌==◌, if◌then◌else◌}
use parcoach_rma.Interval.{
  Interval, get_low_bound, get_up_bound, get_access_type, get_notif_id, get_fileline, get_filename,
  create_interval,
}
use parcoach_rma.Analyzer.State.{WinState, StateTable, M}
use parcoach_rma.Analyzer.Monad.{pure, ◌>>=◌, ◌>>◌, put_state, rma_analyzer_get_state}
use parcoach_rma.Analyzer.Save.{rma_analyzer_save_interval}

-- How a wait for a message ends: the thread exits, or has received an interval and others are left
-- to arrive, or waits on.
pub data Reception : Type 0 where
  exited : Reception
  received : Interval → List Interval → Reception
  waiting : Reception

-- How the thread stands after the messages: it has exited, with some not received, or it waits.
pub data ThreadEnd : Type 0 where
  thread_exited : List Interval → ThreadEnd
  thread_waiting : ThreadEnd

-- The test by which the thread ends, and its loop over MPI_Test.
unfoldable pub is_finished : WinState → Bool
is_finished state = (state.thread_end == 1) && (state.count == state.value)

-- The received interval counts from the start of the window.
unfoldable pub shift_interval : ℕ → Interval → Interval
shift_interval win_base itv =
    create_interval ((get_low_bound itv + win_base) % 2 ^ 64)
      ((get_up_bound itv + win_base) % 2 ^ 64) (get_access_type itv) (get_notif_id itv)
      (get_fileline itv) (some (get_filename itv))

module _ {table : StateTable} (notified : Bool) where
  -- The test for a message, where the thread has not to end.
  unfoldable pub test_message : WinState → List Interval → M table Reception
  test_message state [] = pure waiting
  test_message state (itv ∷ rest) = do
    put_state (record state { count = state.count + 1 })
    pure (received itv rest)

  unfoldable pub rma_analyzer_check_communication : ℕ → List Interval → M table Reception
  rma_analyzer_check_communication win incoming = do
    state ← rma_analyzer_get_state win
    if is_finished state
        then (do put_state (record state { count = 0 }); pure exited)
        else test_message state incoming

  -- What the thread does with an interval that it has received.
  unfoldable pub save_received : ℕ → Interval → M table (Unit {0})
  save_received win itv = do
    state ← rma_analyzer_get_state win
    _ ← rma_analyzer_save_interval notified (shift_interval state.win_base itv) win
    pure tt

  -- One round of the thread's loop after the wait; `next` is the rest of the loop.
  unfoldable pub after_reception :
      ℕ → List Interval → M table ThreadEnd → Reception → M table ThreadEnd
  after_reception win incoming next exited = pure (thread_exited incoming)
  after_reception win incoming next (received itv rest) = do save_received win itv; next
  after_reception win incoming next waiting = pure thread_waiting

  -- The code writes the first round out before the loop; the rounds are alike.
  unfoldable pub rma_analyzer_comm_check_thread : ℕ → List Interval → M table ThreadEnd
  rma_analyzer_comm_check_thread win [] = do
    reception ← rma_analyzer_check_communication win []
    after_reception win [] (pure thread_waiting) reception
  rma_analyzer_comm_check_thread win (itv ∷ rest) = do
    reception ← rma_analyzer_check_communication win (itv ∷ rest)
    after_reception win (itv ∷ rest) (rma_analyzer_comm_check_thread win rest) reception
