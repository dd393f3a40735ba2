-- ===== src/Analyzer/Window.antt =====
-- src/core/rma_analyzer.c: tag ranges, the start and the stop of the analysis of a window, and the
-- announcement of a one-sided communication.
use parcoach_rma.Common.{
  ℕ, suc, ◌+◌, ◌-◌, ◌*◌, ◌/◌, ◌%◌, ◌^◌, Bool, true, false, not, Option, none, some, List, [], ◌∷◌,
  ℤ, pos, negsuc, ◌+ℤ◌, ◌-ℤ◌, get_elem?, set, length, ltb, ◌==◌, eqb_ℤ, if◌then◌else◌,
}
use parcoach_rma.Interval.{AccessType, create_interval}
use parcoach_rma.Avl.{null}
use parcoach_rma.Analyzer.State.{
  Lang, no_language, c, fort, base_mpi_tag, max_epoch_number, WinState, StateTable, Message,
  assertion_failed, out_of_bounds, ok, fault, M,
}
use parcoach_rma.Analyzer.Monad.{fail, ◌>>=◌, ◌>>◌, rma_analyzer_get_state, put_state, gets, modify}
use parcoach_rma.Analyzer.Save.{rma_analyzer_save_interval}

-- The first free entry of `win_mpi_tag_id`, from the entry with this index on.
unfoldable pub first_free : ℕ → List ℕ → Option ℕ
first_free i [] = none
first_free i (used ∷ rest) = if used == 0 then some i else first_free (suc i) rest

-- `-1` where every range is in use.
unfoldable pub rma_analyzer_get_tag_range_id : List ℕ → ℤ × List ℕ
rma_analyzer_get_tag_range_id ids = elim (first_free 0 ids) [
  | some i ↦ (pos i, set ids i 1)
  | none ↦ (negsuc 0, ids)
]

-- The tag of a window with this tag range.
unfoldable pub tag_of_range : ℤ → ℤ
tag_of_range (pos n) = pos (base_mpi_tag + max_epoch_number * n)
tag_of_range (negsuc n) = pos base_mpi_tag -ℤ pos (max_epoch_number * suc n)

-- A division of `int`s, by a positive number: towards zero.
unfoldable pub div_int : ℤ → ℕ → ℤ
div_int (pos n) d = pos (n / d)
div_int (negsuc n) d = pos 0 -ℤ pos (suc n / d)

-- `none` where the index is outside of the array.
unfoldable pub rma_analyzer_free_tag_range : List ℕ → ℤ → Option (List ℕ)
unfolding div_int
rma_analyzer_free_tag_range ids tag = elim (div_int (tag -ℤ pos base_mpi_tag) max_epoch_number) [
  | pos i ↦ if ltb i (length ids) then some (set ids i 0) else none
  | negsuc _ ↦ none
]

unfoldable pub same_language : Lang → Lang → Bool
same_language no_language no_language = true
same_language c c = true
same_language fort fort = true
same_language _ _ = false

-- The state of a new window. `array` is what stands in the `malloc`ed array of `size_comm`
-- counters, which is not set before the first epoch.
unfoldable pub new_state : ℕ → ℕ → ℕ → ℕ → List ℕ → ℕ → ℤ → WinState
new_state base size comm size_comm array win mpi_tag = record {
  state_win = win;
  win_base = base;
  win_size = size;
  win_comm = comm;
  local_tree = null;
  notif_tree = null;
  size_comm = size_comm;
  mpi_tag = mpi_tag;
  array = array;
  value = 0;
  thread_end = 0;
  count_epoch = 0;
  count_fence = 0;
  count = 0;
  active_epoch = 0;
  from_sync = 0;
  running = false;
}

module _ {table : StateTable} (notified : Bool) where
  -- `filter_env` is the value of RMA_ANALYZER_FILTER_WINDOW as an `int`, where it is set, and
  -- `size_comm` the size of the communicator.
  unfoldable pub rma_analyzer_start :
      ℕ → ℕ → ℕ → ℕ → List ℕ → ℕ → Lang → Option ℤ → M table (Unit {0})
  rma_analyzer_start base size comm size_comm array win language filter_env w =
      let language' =
        if same_language w.language_program no_language then language else w.language_program in
      let filter' : Bool = elim filter_env [
        | none ↦ w.filter_window
        | some v ↦ not (eqb_ℤ v (pos 0))
      ] in
      let (tag_id, ids) = rma_analyzer_get_tag_range_id w.win_mpi_tag_id in
      if same_language language' language
      then ok (
        tt,
        record w {
          state_htbl =
              table.add w.state_htbl
                (new_state base size comm size_comm array win (tag_of_range tag_id));
          win_mpi_tag_id = ids;
          language_program = language';
          filter_window = filter';
        },
      )
      else fault assertion_failed

  -- What follows the release of the tag range.
  unfoldable pub remove_window : ℕ → Option (List ℕ) → M table (Unit {0})
  remove_window win none = fail out_of_bounds
  remove_window win (some ids) =
      modify (λ w. record w { state_htbl = table.del w.state_htbl win; win_mpi_tag_id = ids })

  unfoldable pub rma_analyzer_stop : ℕ → M table (Unit {0})
  rma_analyzer_stop win = do
    state ← rma_analyzer_get_state win
    ids ← gets (λ w. w.win_mpi_tag_id)
    remove_window win (rma_analyzer_free_tag_range ids state.mpi_tag)

  -- `MPI_Send` of an interval to another process.
  unfoldable pub send : Message → M table (Unit {0})
  send m = modify (λ w. record w { sent = m ∷ w.sent })

  -- `state->array[target_rank]++` for a rank that is not negative, with the old entry of the array.
  unfoldable pub increment : WinState → ℕ → Option ℕ → M table (Unit {0})
  increment state target_rank none = fail out_of_bounds
  increment state target_rank (some n) =
      put_state (record state { array = set state.array target_rank (n + 1) })

  unfoldable pub count_send : ℕ → ℕ → M table (Unit {0})
  count_send target_rank win = do
    state ← rma_analyzer_get_state win
    increment state target_rank (get_elem? state.array target_rank)

  unfoldable pub rma_analyzer_update_on_comm_send :
      ℕ → ℕ → ℕ → ℕ → ℕ → AccessType → AccessType → ℤ → ℤ → Option (List ℕ) → ℕ → M table (Unit {0})
  rma_analyzer_update_on_comm_send local_address local_size target_disp target_size target_rank
        local_access_type target_access_type notif_id fileline filename win =
      do
        state ← rma_analyzer_get_state win
        let local_itv =
            create_interval local_address ((local_address + local_size + 2 ^ 64 - 1) % 2 ^ 64)
              local_access_type (negsuc 0) fileline filename
        _ ← rma_analyzer_save_interval notified local_itv win
        let target_itv =
            create_interval target_disp ((target_disp + target_size + 2 ^ 64 - 1) % 2 ^ 64)
              target_access_type notif_id fileline filename
        send (record {
          target_rank = target_rank;
          tag = state.mpi_tag +ℤ pos state.count_epoch;
          comm = state.win_comm;
          content = target_itv;
        })
        count_send target_rank win
