-- ===== src/Instrument/Tables.antt =====
-- src/static/src/parcoachRMA.cpp: its static counters, and its chains of comparisons with the names
-- of functions, in their order.
use Prim.Native.String.{String}
use text.Mathlib.Text.{◌==◌ as str_eq}
use parcoach_rma.Common.{ℕ, ◌+◌, Option, none, some, List, [], ◌∷◌, if◌then◌else◌}

pub record Counts : Type 0 where
  pub get : ℕ
  pub put : ℕ
  pub acc : ℕ
  pub win : ℕ
  pub free : ℕ
  pub fence : ℕ
  pub flush : ℕ
  pub lock : ℕ
  pub lockall : ℕ
  pub unlock : ℕ
  pub unlockall : ℕ
  pub barrier : ℕ
  pub mpi : ℕ
  pub mpix : ℕ
  pub loads : ℕ
  pub stores : ℕ
  pub put_notify : ℕ
  pub get_notify : ℕ
  pub wait_notify : ℕ
  pub test_notify : ℕ
  pub win_notify : ℕ

abbrev pub initial_counts : Counts
initial_counts = record {
  get = 0;
  put = 0;
  acc = 0;
  win = 0;
  free = 0;
  fence = 0;
  flush = 0;
  lock = 0;
  lockall = 0;
  unlock = 0;
  unlockall = 0;
  barrier = 0;
  mpi = 0;
  mpix = 0;
  loads = 0;
  stores = 0;
  put_notify = 0;
  get_notify = 0;
  wait_notify = 0;
  test_notify = 0;
  win_notify = 0;
}

pub data Counter : Type 0 where
  count_get count_put count_acc count_win count_free count_fence count_flush : Counter
  count_lock count_lockall count_unlock count_unlockall count_barrier count_mpi : Counter
  count_mpix count_load count_store count_put_notify count_get_notify : Counter
  count_wait_notify count_test_notify count_win_notify : Counter

unfoldable pub raise : Counter → Counts → Counts
raise count_get c = record c { get = c.get + 1 }
raise count_put c = record c { put = c.put + 1 }
raise count_acc c = record c { acc = c.acc + 1 }
raise count_win c = record c { win = c.win + 1 }
raise count_free c = record c { free = c.free + 1 }
raise count_fence c = record c { fence = c.fence + 1 }
raise count_flush c = record c { flush = c.flush + 1 }
raise count_lock c = record c { lock = c.lock + 1 }
raise count_lockall c = record c { lockall = c.lockall + 1 }
raise count_unlock c = record c { unlock = c.unlock + 1 }
raise count_unlockall c = record c { unlockall = c.unlockall + 1 }
raise count_barrier c = record c { barrier = c.barrier + 1 }
raise count_mpi c = record c { mpi = c.mpi + 1 }
raise count_mpix c = record c { mpix = c.mpix + 1 }
raise count_load c = record c { loads = c.loads + 1 }
raise count_store c = record c { stores = c.stores + 1 }
raise count_put_notify c = record c { put_notify = c.put_notify + 1 }
raise count_get_notify c = record c { get_notify = c.get_notify + 1 }
raise count_wait_notify c = record c { wait_notify = c.wait_notify + 1 }
raise count_test_notify c = record c { test_notify = c.test_notify + 1 }
raise count_win_notify c = record c { win_notify = c.win_notify + 1 }

-- What a branch does: it replaces the call by one with the file and the line (`ReplaceCallInst`),
-- renames the function (`setName`), or only counts.
pub data Branch : Type 0 where
  replace : String → Counter → Branch
  rename : String → Counter → Branch
  rename_uncounted : String → Branch
  count_only : Counter → Branch

-- A chain of comparisons with names.
abbrev pub Chain : Type 0
Chain = List (String × Branch)

-- The first branch whose name is the one tested.
unfoldable pub first_match : String → Chain → Option Branch
first_match name [] = none
first_match name ((n, branch) ∷ rest) =
    let later = first_match name rest in if str_eq name n then some branch else later

-- The operands of bit casts, for programs in Fortran.
abbrev pub fort_overloads : Chain
fort_overloads =
    ("mpi_put_", rename "new_put_" count_put)
    ∷ ("mpi_get_", rename "new_get_" count_get)
    ∷ ("mpi_accumulate_", rename "new_accumulate_" count_acc)
    ∷ ("mpi_win_create_", rename "new_win_create_" count_win)
    ∷ ("mpi_win_free_", rename "new_win_free_" count_free)
    ∷ ("mpi_fence_", rename "new_fence_" count_fence)
    ∷ ("mpi_win_unlock_all_", rename "new_win_unlock_all_" count_unlockall)
    ∷ ("mpi_win_unlock_", rename "new_win_unlock_" count_unlock)
    ∷ ("mpi_win_lock_", rename "new_win_lock_" count_lock)
    ∷ ("mpi_win_lock_all_", rename "new_win_lock_all_" count_lockall)
    ∷ ("mpi_win_flush_", rename "new_win_flush_" count_flush)
    ∷ ("mpi_barrier_", rename "new_barrier_" count_barrier)
    ∷ []

-- The branches that follow the test of the prefix "mpix_" where it fails.
abbrev pub fort_notify_overloads : Chain
fort_notify_overloads =
    ("mpix_put_notify_", rename_uncounted "new_put_notify_")
    ∷ ("mpix_win_create_notify_", rename "new_win_create_notify_" count_win_notify)
    ∷ ("mpix_win_wait_notify_", rename "new_win_wait_notify_" count_win)
    ∷ []

-- The functions that a program in C calls.
abbrev pub c_overloads : Chain
c_overloads =
    ("MPI_Get", replace "new_Get" count_get)
    ∷ ("MPI_Put", replace "new_Put" count_put)
    ∷ ("MPI_Win_create", rename "new_Win_create" count_win)
    ∷ ("MPI_Accumulate", rename "new_Accumulate" count_acc)
    ∷ ("MPI_Win_fence", count_only count_fence)
    ∷ ("MPI_Win_lock", rename "new_Win_lock" count_lock)
    ∷ ("MPI_Win_unlock", rename "new_Win_unlock" count_unlock)
    ∷ ("MPI_Win_unlock_all", rename "new_Win_unlock_all" count_unlockall)
    ∷ ("MPI_Win_lock_all", rename "new_Win_lock_all" count_lockall)
    ∷ ("MPI_Win_free", rename "new_Win_free" count_free)
    ∷ ("MPI_Barrier", rename "new_Barrier" count_barrier)
    ∷ []

abbrev pub c_notify_overloads : Chain
c_notify_overloads =
    ("MPIX_Put_notify", replace "new_Put_notify" count_put_notify)
    ∷ ("MPIX_Get_notify", replace "new_Get_notify" count_get_notify)
    ∷ ("MPIX_Win_create_notify", rename "new_Win_create_notify" count_win_notify)
    ∷ ("MPIX_Win_wait_notify", rename "new_Win_wait_notify" count_wait_notify)
    ∷ ("MPIX_Win_test_notify", rename "new_Win_test_notify" count_test_notify)
    ∷ []
