-- ===== src/Analyzer/State.antt =====
-- include/rma_analyzer.h and the globals of src/core/rma_analyzer.c: the state of a window, the
-- state of the analyzer in one process, and the ways in which a call can end.
use mathlib.Core.Option
use parcoach_rma.Common.{ℕ, ◌≡◌, ◌≢◌, Option, none, some, List, ℤ, Bool}
use parcoach_rma.Interval.{Interval}
use parcoach_rma.IntervalTree.{IntervalTree}
use parcoach_rma.NotifTree.{NotifTree}

-- `Lang`. The enumeration's `NONE` is the initial value of `language_program`.
pub data Lang : Type 0 where
  no_language c fort : Lang

abbrev pub base_mpi_tag : ℕ
base_mpi_tag = 65535

abbrev pub max_epoch_number : ℕ
max_epoch_number = 1024

abbrev pub max_win : ℕ
max_win = 32

-- `struct rma_analyzer_state`. Handles of MPI are numbers. The counters only count up from 0, and
-- are numbers without the bound of an `int`. `running` says that the thread `threadId` has been
-- created and not been joined; the mutexes have no content.
pub record WinState : Type 0 where
  pub state_win : ℕ
  pub win_base : ℕ  -- uint64_t
  pub win_size : ℕ  -- size_t
  pub win_comm : ℕ
  pub local_tree : IntervalTree
  pub notif_tree : NotifTree
  pub size_comm : ℕ
  pub mpi_tag : ℤ
  pub array : List ℕ
  pub value : ℕ
  pub thread_end : ℕ
  pub count_epoch : ℕ
  pub count_fence : ℕ
  pub count : ℕ
  pub active_epoch : ℕ
  pub from_sync : ℕ
  pub running : Bool

-- What the macros of uthash do with `state_htbl`, whose keys are distinct, and a write through a pointer to a state in it.
pub record StateTable : Type 1 where
  pub Store : Type 0
  pub nothing : Store
  -- HASH_FIND_PTR
  pub find : Store → ℕ → Option WinState
  -- HASH_ADD_PTR
  pub add : Store → WinState → Store
  -- HASH_DEL
  pub del : Store → ℕ → Store
  -- The keys in the order of HASH_ITER.
  pub wins : Store → List ℕ
  -- An assignment to fields of the state found under its window.
  pub write : Store → WinState → Store
  pub find-nothing : (w : ℕ) → find nothing w ≡ none
  pub state_win-find : (s : Store) (w : ℕ) {x : WinState} → find s w ≡ some x → x.state_win ≡ w
  pub find-add :
      (s : Store) (x : WinState) → find s x.state_win ≡ none → find (add s x) x.state_win ≡ some x
  pub find-add_ne :
      (s : Store) (x : WinState) (w : ℕ) → w ≢ x.state_win → find (add s x) w ≡ find s w
  pub find-del : (s : Store) (w : ℕ) → find (del s w) w ≡ none
  pub find-del_ne : (s : Store) (w v : ℕ) → v ≢ w → find (del s w) v ≡ find s v
  pub find-write :
      (s : Store) (x : WinState)
      → find (write s x) x.state_win ≡ Option.map (λ _. x) (find s x.state_win)
  pub find-write_ne :
      (s : Store) (x : WinState) (w : ℕ) → w ≢ x.state_win → find (write s x) w ≡ find s w
  pub wins-write : (s : Store) (x : WinState) → wins (write s x) ≡ wins s

-- An interval sent to another process by `MPI_Send`.
pub record Message : Type 0 where
  pub target_rank : ℕ
  pub tag : ℤ
  pub comm : ℕ
  pub content : Interval

-- Why a call does not return.
pub data Fault : Type 0 where
  exit_failure : Fault  -- exit(EXIT_FAILURE)
  assertion_failed : Fault
  race : (inserted overlap : Interval) → Fault  -- MPI_Abort, after the report of two accesses
  null_dereference : Fault
  out_of_bounds : Fault  -- an access outside of an array, which has no defined effect
  join_blocked : Fault  -- pthread_join waits for a thread that receives no more

pub data Outcome (A : Type 0) : Type 0 where
  ok : A → Outcome A
  fault : Fault → Outcome A

module _ (table : StateTable) where
  -- The analyzer's globals, and the messages that the process has sent, the last one first.
  pub record World : Type 0 where
    pub state_htbl : table.Store
    pub win_mpi_tag_id : List ℕ
    pub language_program : Lang
    pub filter_window : Bool
    pub sent : List Message

  abbrev pub M : Type 0 → Type 0
  M A = World → Outcome (A × World)
