-- ===== src/Overload/Fortran.antt =====
-- src/static/lib/rma_analyzer_mpi_fort_overload.c: the routines that an instrumented program in
-- Fortran calls. Its arguments are passed by reference.
pub mod Arguments
use parcoach_rma.Common.{
  ℕ, ◌+◌, ◌*◌, ◌%◌, ◌^◌, Bool, true, false, Option, none, some, List, ℤ, pos, negsuc, ltb, ◌==◌,
  if◌then◌else◌,
}
use parcoach_rma.Interval.{AccessType, rma_read, rma_write, Interval}
use parcoach_rma.Analyzer.State.{fort, StateTable, Outcome, ok, fault, M}
use parcoach_rma.Analyzer.Monad.{◌>>=◌, ◌>>◌, pure, fail, put_state, rma_analyzer_get_state}
use parcoach_rma.Analyzer.Save.{rma_analyzer_clear_from_notif_id}
use parcoach_rma.Analyzer.Epoch.{
  rma_analyzer_init_comm_check_thread, rma_analyzer_clear_comm_check_thread,
  rma_analyzer_init_comm_check_thread_all_wins, rma_analyzer_clear_comm_check_thread_all_wins,
}
use parcoach_rma.Analyzer.Window.{
  rma_analyzer_start, rma_analyzer_stop, rma_analyzer_update_on_comm_send,
}

-- A pointer `int *` that the program passes: the address of a variable, and what it holds,
-- which is not negative and has no bound in the model.
pub record Ref (A : Type 0) : Type 0 where
  pub address : ℕ
  pub content : A

-- `win_f2c` is MPI_Win_f2c. `ret` is what the routine of MPI leaves in the variable `ret` that an
-- overload ends with.
module _ {table : StateTable} (notified : Bool) (win_f2c : ℕ → ℕ) (ret : ℕ) where
  -- The size of the window is the pointer to it, and its communicator is the pointer to its handle.
  unfoldable pub new_win_create_ : ℕ → Ref ℕ → Ref ℕ → ℕ → List ℕ → Ref ℕ → Option ℤ → M table ℕ
  new_win_create_ base size comm size_comm array win env = do
    rma_analyzer_start notified base size.address comm.address size_comm array (win_f2c win.content)
        fort env
    pure ret

  unfoldable pub new_win_allocate_ : Ref ℕ → Ref ℕ → ℕ → ℕ → List ℕ → Ref ℕ → Option ℤ → M table ℕ
  new_win_allocate_ size comm baseptr size_comm array win env = do
    rma_analyzer_start notified baseptr size.address comm.address size_comm array
        (win_f2c win.content) fort env
    pure ret

  unfoldable pub new_win_lock_all_ : Ref ℕ → M table ℕ
  new_win_lock_all_ win = do
    rma_analyzer_init_comm_check_thread notified (win_f2c win.content)
    pure ret

  unfoldable pub new_win_lock_ : Ref ℕ → M table ℕ
  new_win_lock_ win = do
    rma_analyzer_init_comm_check_thread notified (win_f2c win.content)
    pure ret

  -- A call of MPI that returns its code, or does not return.
  unfoldable pub mpi_call : Outcome ℕ → M table ℕ
  mpi_call (ok code) = pure code
  mpi_call (fault f) = fail f

  -- `mpi_fence` is mpi_win_fence_ at a pointer to the assertion, which is NULL between two epochs.
  unfoldable pub new_win_fence_ :
      (Option (Ref ℤ) → Outcome ℕ) → Ref ℤ → ℕ → List Interval → Ref ℕ → M table ℕ
  new_win_fence_ mpi_fence assert total incoming win = do
    state ← rma_analyzer_get_state (win_f2c win.content)
    (if ltb 0 state.count_fence
        then (do
          rma_analyzer_clear_comm_check_thread notified true total incoming (win_f2c win.content)
          _ ← mpi_call (mpi_fence none)
          pure tt)
        else pure tt)
    after ← rma_analyzer_get_state (win_f2c win.content)
    put_state (record after { count_fence = after.count_fence + 1 })
    rma_analyzer_init_comm_check_thread notified (win_f2c win.content)
    mpi_call (mpi_fence (some assert))

  unfoldable pub new_win_start_ : Ref ℕ → M table ℕ
  new_win_start_ win = do
    rma_analyzer_init_comm_check_thread notified (win_f2c win.content)
    pure ret

  unfoldable pub new_win_post_ : Ref ℕ → M table ℕ
  new_win_post_ win = do
    rma_analyzer_init_comm_check_thread notified (win_f2c win.content)
    pure ret

  -- The count of the origin is the pointer to it. `origin_size` and `target_size` are the sizes of
  -- the datatypes.
  unfoldable pub new_put_ : ℕ → Ref ℕ → ℕ → Ref ℕ → Ref ℕ → Ref ℕ → ℕ → Ref ℕ → M table ℕ
  new_put_ origin_addr origin_count origin_size target_rank target_disp target_count target_size
        win =
      do
        rma_analyzer_update_on_comm_send notified origin_addr
            ((origin_size * origin_count.address) % 2 ^ 64) target_disp.content
            ((target_size * target_count.content) % 2 ^ 64) target_rank.content rma_read rma_write
            (negsuc 0) (pos 0) none (win_f2c win.content)
        pure ret

  -- The count and the displacement of the target are the pointers to them.
  unfoldable pub new_get_ : ℕ → Ref ℕ → ℕ → Ref ℕ → Ref ℕ → Ref ℕ → ℕ → Ref ℕ → M table ℕ
  new_get_ origin_addr origin_count origin_size target_rank target_disp target_count target_size
        win =
      do
        rma_analyzer_update_on_comm_send notified origin_addr
            ((origin_size * origin_count.address) % 2 ^ 64) target_disp.address
            ((target_size * target_count.address) % 2 ^ 64) target_rank.content rma_write rma_read
            (negsuc 0) (pos 0) none (win_f2c win.content)
        pure ret

  unfoldable pub new_accumulate_ : ℕ → Ref ℕ → ℕ → Ref ℕ → Ref ℕ → Ref ℕ → ℕ → Ref ℕ → M table ℕ
  new_accumulate_ origin_addr origin_count origin_size target_rank target_disp target_count
        target_size win =
      do
        rma_analyzer_update_on_comm_send notified origin_addr
            ((origin_size * origin_count.address) % 2 ^ 64) target_disp.address
            ((target_size * target_count.address) % 2 ^ 64) target_rank.content rma_read rma_write
            (negsuc 0) (pos 0) none (win_f2c win.content)
        pure ret

  unfoldable pub new_win_unlock_all_ : ℕ → List Interval → Ref ℕ → M table ℕ
  new_win_unlock_all_ total incoming win = do
    rma_analyzer_clear_comm_check_thread notified true total incoming (win_f2c win.content)
    pure ret

  unfoldable pub new_win_unlock_ : ℕ → List Interval → Ref ℕ → M table ℕ
  new_win_unlock_ total incoming win = do
    rma_analyzer_clear_comm_check_thread notified true total incoming (win_f2c win.content)
    pure ret

  unfoldable pub new_win_complete_ : ℕ → List Interval → Ref ℕ → M table ℕ
  new_win_complete_ total incoming win = do
    rma_analyzer_clear_comm_check_thread notified true total incoming (win_f2c win.content)
    pure ret

  unfoldable pub new_win_wait_ : ℕ → List Interval → Ref ℕ → M table ℕ
  new_win_wait_ total incoming win = do
    rma_analyzer_clear_comm_check_thread notified true total incoming (win_f2c win.content)
    pure ret

  unfoldable pub new_win_free_ : List Interval → Ref ℕ → M table ℕ
  new_win_free_ incoming win = do
    state ← rma_analyzer_get_state (win_f2c win.content)
    (if ltb 0 state.count_fence
        then rma_analyzer_clear_comm_check_thread notified false 0 incoming (win_f2c win.content)
        else pure tt)
    rma_analyzer_stop notified (win_f2c win.content)
    pure ret

  -- The analyzer has no part in a flush.
  unfoldable pub new_win_flush_ : M table ℕ
  new_win_flush_ = pure ret

  unfoldable pub new_barrier_ : (ℕ → ℕ) → (ℕ → List Interval) → M table ℕ
  new_barrier_ totals incomings = do
    rma_analyzer_clear_comm_check_thread_all_wins notified true totals incomings
    rma_analyzer_init_comm_check_thread_all_wins notified
    pure ret

  -- Each routine of notified communication is a weak symbol; `linked` says that it is there.
  module _ (linked : Bool) where
    unfoldable pub new_win_create_notify_ :
        ℕ → Ref ℕ → Ref ℕ → ℕ → List ℕ → Ref ℕ → Option ℤ → M table ℕ
    new_win_create_notify_ base size comm size_comm array win env =
        if linked then new_win_create_ base size comm size_comm array win env else pure 0

    unfoldable pub new_put_notify_ :
        ℕ → Ref ℕ → ℕ → Ref ℕ → Ref ℕ → Ref ℕ → ℕ → Ref ℕ → Ref ℤ → M table ℕ
    new_put_notify_ origin_addr origin_count origin_size target_rank target_disp target_count
          target_size win notification_id =
        if linked
        then (do
          rma_analyzer_update_on_comm_send notified origin_addr
              ((origin_size * origin_count.address) % 2 ^ 64) target_disp.content
              ((target_size * target_count.content) % 2 ^ 64) target_rank.content rma_read rma_write
              notification_id.content (pos 0) none (win_f2c win.content)
          pure ret)
        else pure 0

    unfoldable pub new_get_notify_ :
        ℕ → Ref ℕ → ℕ → Ref ℕ → Ref ℕ → Ref ℕ → ℕ → Ref ℕ → Ref ℤ → M table ℕ
    new_get_notify_ origin_addr origin_count origin_size target_rank target_disp target_count
          target_size win notification_id =
        if linked
        then (do
          rma_analyzer_update_on_comm_send notified origin_addr
              ((origin_size * origin_count.address) % 2 ^ 64) target_disp.address
              ((target_size * target_count.address) % 2 ^ 64) target_rank.content rma_write rma_read
              notification_id.content (pos 0) none (win_f2c win.content)
          pure ret)
        else pure 0

    unfoldable pub new_win_wait_notify_ : Ref ℕ → Ref ℤ → M table ℕ
    new_win_wait_notify_ win notification_id =
        if linked
        then (do
          rma_analyzer_clear_from_notif_id notified (win_f2c win.content) notification_id.content
          pure ret)
        else pure 0

    -- `flag` holds what MPI writes there.
    unfoldable pub new_win_test_notify_ : Ref ℕ → Ref ℤ → Ref ℕ → M table ℕ
    new_win_test_notify_ win notification_id flag =
        if linked
        then (do
          (if flag.content == 0
              then pure tt
              else rma_analyzer_clear_from_notif_id notified (win_f2c win.content)
                  notification_id.content)
          pure ret)
        else pure 0
