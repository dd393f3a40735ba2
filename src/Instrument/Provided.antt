-- ===== src/Instrument/Provided.antt =====
-- The routines that src/static/lib defines.
use Prim.Native.String.{String}
use text.Mathlib.Text.{◌==◌ as str_eq}
use parcoach_rma.Common.{Bool, true, false, List, [], ◌∷◌, ◌++◌, if◌then◌else◌}

abbrev pub listed : String → List String → Bool
listed name [] = false
listed name (n ∷ rest) = let later = listed name rest in if str_eq name n then true else later

-- The routines that src/static/lib/rma_analyzer_mpi_c_overload.c defines.
abbrev pub c_provided : List String
c_provided =
    "new_Win_create" ∷ "new_Win_allocate" ∷ "new_Win_lock_all" ∷ "new_Win_lock" ∷ "new_Win_fence"
    ∷ "new_Win_start" ∷ "new_Win_post" ∷ "new_Put" ∷ "new_Get" ∷ "new_Accumulate"
    ∷ "new_Win_create_notify" ∷ "new_Win_allocate_notify" ∷ "new_Put_notify" ∷ "new_Get_notify"
    ∷ "new_Win_wait_notify" ∷ "new_Win_test_notify" ∷ "new_Win_unlock_all" ∷ "new_Win_unlock"
    ∷ "new_Win_complete" ∷ "new_Win_wait" ∷ "new_Win_free" ∷ "new_Barrier" ∷ []

-- The routines that src/static/lib/rma_analyzer_mpi_fort_overload.c defines.
abbrev pub fort_provided : List String
fort_provided =
    "new_win_create_" ∷ "new_win_allocate_" ∷ "new_win_lock_all_" ∷ "new_win_lock_"
    ∷ "new_win_fence_" ∷ "new_win_start_" ∷ "new_win_post_" ∷ "new_put_" ∷ "new_get_"
    ∷ "new_accumulate_" ∷ "new_win_create_notify_" ∷ "new_put_notify_" ∷ "new_get_notify_"
    ∷ "new_win_wait_notify_" ∷ "new_win_test_notify_" ∷ "new_win_unlock_all_" ∷ "new_win_unlock_"
    ∷ "new_win_complete_" ∷ "new_win_wait_" ∷ "new_win_free_" ∷ "new_win_flush_" ∷ "new_barrier_"
    ∷ []

-- The routines that src/static/lib defines for C and Fortran.
abbrev pub provided : List String
provided = c_provided ++ fort_provided
