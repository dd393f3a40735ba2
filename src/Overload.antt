-- ===== src/Overload.antt =====
-- The routines that an instrumented program calls in place of loads, stores and the routines of MPI:
-- src/static/lib/rma_analyzer_load_store_overload.c and src/dynamic/rma_analyzer_mpi_c_overload.c.
pub mod Fence
pub mod Static
pub mod Barrier
pub mod Free
pub mod Fortran
use parcoach_rma.Common.{
  ℕ, ◌+◌, ◌-◌, ◌*◌, ◌/◌, ◌%◌, ◌^◌, Bool, true, false, Option, none, List, ℤ, pos, negsuc, ltb,
  if◌then◌else◌,
}
use parcoach_rma.Interval.{AccessType, local_read, local_write, rma_read, rma_write, Interval}
use parcoach_rma.Analyzer.State.{Lang, c, WinState, StateTable, M}
use parcoach_rma.Analyzer.Monad.{◌>>=◌, ◌>>◌, pure, put_state, rma_analyzer_get_state}
use parcoach_rma.Analyzer.Save.{rma_analyzer_save_interval_all_wins}
use parcoach_rma.Analyzer.Epoch.{
  rma_analyzer_init_comm_check_thread, rma_analyzer_clear_comm_check_thread,
}
use parcoach_rma.Analyzer.Window.{
  rma_analyzer_start, rma_analyzer_stop, rma_analyzer_update_on_comm_send,
}

-- The sizes are in bits; `uint64_t` wraps around below a byte.
module _ {table : StateTable} (notified : Bool) where
  unfoldable pub store : ℕ → ℕ → ℤ → Option (List ℕ) → M table (Unit {0})
  store addr size line filename =
      rma_analyzer_save_interval_all_wins notified addr ((size / 8 + 2 ^ 64 - 1) % 2 ^ 64)
        local_write line filename

  unfoldable pub load : ℕ → ℕ → ℤ → Option (List ℕ) → M table (Unit {0})
  load addr size line filename =
      rma_analyzer_save_interval_all_wins notified addr ((size / 8 + 2 ^ 64 - 1) % 2 ^ 64)
        local_read line filename

-- `ret` is what the routine of MPI returns that an overload ends with. It has no part in the state
-- of the analyzer.
module _ {table : StateTable} (notified : Bool) (ret : ℕ) where
  -- `win` is the window that MPI has created, `size_comm` the size of its communicator, `array` what
  -- `malloc` returns, and `env` the setting of the filter.
  unfoldable pub mpi_win_create : ℕ → ℕ → ℕ → ℕ → List ℕ → ℕ → Option ℤ → M table ℕ
  mpi_win_create base size comm size_comm array win env = do
    rma_analyzer_start notified base size comm size_comm array win c env
    pure ret

  -- `baseptr` is the address at which MPI stores the base of the window.
  unfoldable pub mpi_win_allocate : ℕ → ℕ → ℕ → ℕ → List ℕ → ℕ → Option ℤ → M table ℕ
  mpi_win_allocate baseptr size comm size_comm array win env = do
    rma_analyzer_start notified baseptr size comm size_comm array win c env
    pure ret

  -- MPI_Win_lock_all, MPI_Win_lock, MPI_Win_start and MPI_Win_post.
  unfoldable pub mpi_win_lock_all : ℕ → M table ℕ
  mpi_win_lock_all win = do rma_analyzer_init_comm_check_thread notified win; pure ret

  unfoldable pub mpi_win_lock : ℕ → M table ℕ
  mpi_win_lock win = do rma_analyzer_init_comm_check_thread notified win; pure ret

  unfoldable pub mpi_win_start : ℕ → M table ℕ
  mpi_win_start win = do rma_analyzer_init_comm_check_thread notified win; pure ret

  unfoldable pub mpi_win_post : ℕ → M table ℕ
  mpi_win_post win = do rma_analyzer_init_comm_check_thread notified win; pure ret

  -- The second part of MPI_Win_fence: `state->count_fence++` and the start of an epoch.
  unfoldable pub begin_fence : ℕ → M table ℕ
  begin_fence win = do
    state ← rma_analyzer_get_state win
    put_state (record state { count_fence = state.count_fence + 1 })
    rma_analyzer_init_comm_check_thread notified win
    pure ret

  -- A fence after the first one ends the epoch that the fence before it began.
  unfoldable pub mpi_win_fence : ℕ → List Interval → ℕ → M table ℕ
  mpi_win_fence total incoming win = do
    state ← rma_analyzer_get_state win
    (if ltb 0 state.count_fence
        then rma_analyzer_clear_comm_check_thread notified true total incoming win
        else pure tt)
    begin_fence win

  -- `origin_size` and `target_size` are the sizes of the datatypes.
  unfoldable pub mpi_put : ℕ → ℕ → ℕ → ℕ → ℕ → ℕ → ℕ → ℕ → M table ℕ
  mpi_put origin_addr origin_count origin_size target_rank target_disp target_count target_size
        win =
      do
        rma_analyzer_update_on_comm_send notified origin_addr
            ((origin_size * origin_count) % 2 ^ 64) target_disp
            ((target_size * target_count) % 2 ^ 64) target_rank rma_read rma_write (negsuc 0)
            (pos 0) none win
        pure ret

  unfoldable pub mpi_get : ℕ → ℕ → ℕ → ℕ → ℕ → ℕ → ℕ → ℕ → M table ℕ
  mpi_get origin_addr origin_count origin_size target_rank target_disp target_count target_size
        win =
      do
        rma_analyzer_update_on_comm_send notified origin_addr
            ((origin_size * origin_count) % 2 ^ 64) target_disp
            ((target_size * target_count) % 2 ^ 64) target_rank rma_write rma_read (negsuc 0)
            (pos 0) none win
        pure ret

  unfoldable pub mpi_accumulate : ℕ → ℕ → ℕ → ℕ → ℕ → ℕ → ℕ → ℕ → M table ℕ
  mpi_accumulate origin_addr origin_count origin_size target_rank target_disp target_count
        target_size win =
      do
        rma_analyzer_update_on_comm_send notified origin_addr
            ((origin_size * origin_count) % 2 ^ 64) target_disp
            ((target_size * target_count) % 2 ^ 64) target_rank rma_read rma_write (negsuc 0)
            (pos 0) none win
        pure ret

  -- MPI_Win_unlock_all, MPI_Win_unlock, MPI_Win_complete and MPI_Win_wait.
  unfoldable pub mpi_win_unlock_all : ℕ → List Interval → ℕ → M table ℕ
  mpi_win_unlock_all total incoming win = do
    rma_analyzer_clear_comm_check_thread notified true total incoming win
    pure ret

  unfoldable pub mpi_win_unlock : ℕ → List Interval → ℕ → M table ℕ
  mpi_win_unlock total incoming win = do
    rma_analyzer_clear_comm_check_thread notified true total incoming win
    pure ret

  unfoldable pub mpi_win_complete : ℕ → List Interval → ℕ → M table ℕ
  mpi_win_complete total incoming win = do
    rma_analyzer_clear_comm_check_thread notified true total incoming win
    pure ret

  unfoldable pub mpi_win_wait : ℕ → List Interval → ℕ → M table ℕ
  mpi_win_wait total incoming win = do
    rma_analyzer_clear_comm_check_thread notified true total incoming win
    pure ret

  -- After fences the last thread is ended without a reduction.
  unfoldable pub mpi_win_free : List Interval → ℕ → M table ℕ
  mpi_win_free incoming win = do
    state ← rma_analyzer_get_state win
    (if ltb 0 state.count_fence
        then rma_analyzer_clear_comm_check_thread notified false 0 incoming win
        else pure tt)
    rma_analyzer_stop notified win
    pure ret
