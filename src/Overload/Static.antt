-- ===== src/Overload/Static.antt =====
-- src/static/lib/rma_analyzer_mpi_c_overload.c: the routines that the instrumentation calls in place
-- of those of MPI, with the file and line of the call, notified communication and the barrier.
use parcoach_rma.Common.{
  ℕ, ◌+◌, ◌*◌, ◌%◌, ◌^◌, Bool, true, false, Option, none, List, ℤ, pos, negsuc, ltb, ◌==◌,
  if◌then◌else◌,
}
use parcoach_rma.Interval.{rma_read, rma_write, Interval}
use parcoach_rma.Analyzer.State.{c, StateTable, M}
use parcoach_rma.Analyzer.Monad.{◌>>=◌, ◌>>◌, pure, put_state, rma_analyzer_get_state}
use parcoach_rma.Analyzer.Save.{rma_analyzer_clear_from_notif_id}
use parcoach_rma.Analyzer.Epoch.{
  rma_analyzer_init_comm_check_thread, rma_analyzer_clear_comm_check_thread,
  rma_analyzer_init_comm_check_thread_all_wins, rma_analyzer_clear_comm_check_thread_all_wins,
}
use parcoach_rma.Analyzer.Window.{
  rma_analyzer_start, rma_analyzer_stop, rma_analyzer_update_on_comm_send,
}

-- `ret` is what the routine of MPI returns that an overload ends with.
module _ {table : StateTable} (notified : Bool) (ret : ℕ) where
  unfoldable pub new_win_create : ℕ → ℕ → ℕ → ℕ → List ℕ → ℕ → Option ℤ → M table ℕ
  new_win_create base size comm size_comm array win env = do
    rma_analyzer_start notified base size comm size_comm array win c env
    pure ret

  unfoldable pub new_win_allocate : ℕ → ℕ → ℕ → ℕ → List ℕ → ℕ → Option ℤ → M table ℕ
  new_win_allocate baseptr size comm size_comm array win env = do
    rma_analyzer_start notified baseptr size comm size_comm array win c env
    pure ret

  unfoldable pub new_win_lock_all : ℕ → M table ℕ
  new_win_lock_all win = do rma_analyzer_init_comm_check_thread notified win; pure ret

  unfoldable pub new_win_lock : ℕ → M table ℕ
  new_win_lock win = do rma_analyzer_init_comm_check_thread notified win; pure ret

  unfoldable pub new_win_fence : ℕ → List Interval → ℕ → M table ℕ
  new_win_fence total incoming win = do
    state ← rma_analyzer_get_state win
    (if ltb 0 state.count_fence
        then rma_analyzer_clear_comm_check_thread notified true total incoming win
        else pure tt)
    after ← rma_analyzer_get_state win
    put_state (record after { count_fence = after.count_fence + 1 })
    rma_analyzer_init_comm_check_thread notified win
    pure ret

  unfoldable pub new_win_start : ℕ → M table ℕ
  new_win_start win = do rma_analyzer_init_comm_check_thread notified win; pure ret

  unfoldable pub new_win_post : ℕ → M table ℕ
  new_win_post win = do rma_analyzer_init_comm_check_thread notified win; pure ret

  unfoldable pub new_put : ℕ → ℕ → ℕ → ℕ → ℕ → ℕ → ℕ → ℕ → Option (List ℕ) → ℤ → M table ℕ
  new_put origin_addr origin_count origin_size target_rank target_disp target_count target_size win
        filename line =
      do
        rma_analyzer_update_on_comm_send notified origin_addr
            ((origin_size * origin_count) % 2 ^ 64) target_disp
            ((target_size * target_count) % 2 ^ 64) target_rank rma_read rma_write (negsuc 0) line
            filename win
        pure ret

  unfoldable pub new_get : ℕ → ℕ → ℕ → ℕ → ℕ → ℕ → ℕ → ℕ → Option (List ℕ) → ℤ → M table ℕ
  new_get origin_addr origin_count origin_size target_rank target_disp target_count target_size win
        filename line =
      do
        rma_analyzer_update_on_comm_send notified origin_addr
            ((origin_size * origin_count) % 2 ^ 64) target_disp
            ((target_size * target_count) % 2 ^ 64) target_rank rma_write rma_read (negsuc 0) line
            filename win
        pure ret

  -- The file and the line of the call are not handed on.
  unfoldable pub new_accumulate : ℕ → ℕ → ℕ → ℕ → ℕ → ℕ → ℕ → ℕ → M table ℕ
  new_accumulate origin_addr origin_count origin_size target_rank target_disp target_count
        target_size win =
      do
        rma_analyzer_update_on_comm_send notified origin_addr
            ((origin_size * origin_count) % 2 ^ 64) target_disp
            ((target_size * target_count) % 2 ^ 64) target_rank rma_read rma_write (negsuc 0)
            (pos 0) none win
        pure ret

  unfoldable pub new_win_create_notify : ℕ → ℕ → ℕ → ℕ → List ℕ → ℕ → Option ℤ → M table ℕ
  new_win_create_notify base size comm size_comm array win env = do
    rma_analyzer_start notified base size comm size_comm array win c env
    pure ret

  unfoldable pub new_win_allocate_notify : ℕ → ℕ → ℕ → ℕ → List ℕ → ℕ → Option ℤ → M table ℕ
  new_win_allocate_notify baseptr size comm size_comm array win env = do
    rma_analyzer_start notified baseptr size comm size_comm array win c env
    pure ret

  unfoldable pub new_put_notify :
      ℕ → ℕ → ℕ → ℕ → ℕ → ℕ → ℕ → ℕ → ℤ → Option (List ℕ) → ℤ → M table ℕ
  new_put_notify origin_addr origin_count origin_size target_rank target_disp target_count
        target_size win notification_id filename line =
      do
        rma_analyzer_update_on_comm_send notified origin_addr
            ((origin_size * origin_count) % 2 ^ 64) target_disp
            ((target_size * target_count) % 2 ^ 64) target_rank rma_read rma_write notification_id
            line filename win
        pure ret

  unfoldable pub new_get_notify :
      ℕ → ℕ → ℕ → ℕ → ℕ → ℕ → ℕ → ℕ → ℤ → Option (List ℕ) → ℤ → M table ℕ
  new_get_notify origin_addr origin_count origin_size target_rank target_disp target_count
        target_size win notification_id filename line =
      do
        rma_analyzer_update_on_comm_send notified origin_addr
            ((origin_size * origin_count) % 2 ^ 64) target_disp
            ((target_size * target_count) % 2 ^ 64) target_rank rma_write rma_read notification_id
            line filename win
        pure ret

  unfoldable pub new_win_wait_notify : ℕ → ℤ → M table ℕ
  new_win_wait_notify win notification_id = do
    rma_analyzer_clear_from_notif_id notified win notification_id
    pure ret

  -- `flag` is what MPI writes there: whether the notification has come.
  unfoldable pub new_win_test_notify : ℕ → ℤ → ℕ → M table ℕ
  new_win_test_notify win notification_id flag = do
    (if flag == 0 then pure tt else rma_analyzer_clear_from_notif_id notified win notification_id)
    pure ret

  unfoldable pub new_win_unlock_all : ℕ → List Interval → ℕ → M table ℕ
  new_win_unlock_all total incoming win = do
    rma_analyzer_clear_comm_check_thread notified true total incoming win
    pure ret

  unfoldable pub new_win_unlock : ℕ → List Interval → ℕ → M table ℕ
  new_win_unlock total incoming win = do
    rma_analyzer_clear_comm_check_thread notified true total incoming win
    pure ret

  unfoldable pub new_win_complete : ℕ → List Interval → ℕ → M table ℕ
  new_win_complete total incoming win = do
    rma_analyzer_clear_comm_check_thread notified true total incoming win
    pure ret

  unfoldable pub new_win_wait : ℕ → List Interval → ℕ → M table ℕ
  new_win_wait total incoming win = do
    rma_analyzer_clear_comm_check_thread notified true total incoming win
    pure ret

  unfoldable pub new_win_free : List Interval → ℕ → M table ℕ
  new_win_free incoming win = do
    state ← rma_analyzer_get_state win
    (if ltb 0 state.count_fence
        then rma_analyzer_clear_comm_check_thread notified false 0 incoming win
        else pure tt)
    rma_analyzer_stop notified win
    pure ret

  -- `totals` and `incomings` give for each window what arrives at this process.
  unfoldable pub new_barrier : (ℕ → ℕ) → (ℕ → List Interval) → M table ℕ
  new_barrier totals incomings = do
    rma_analyzer_clear_comm_check_thread_all_wins notified true totals incomings
    rma_analyzer_init_comm_check_thread_all_wins notified
    pure ret
