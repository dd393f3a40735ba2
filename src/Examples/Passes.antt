-- ===== src/Examples/Passes.antt =====
-- The properties of the instrumentation and of the lifetime of a window, applied.
use Prim.Native.String.{String}
use parcoach_rma.Common.{
  false, ◌+◌, ◌++◌, ℕ, ◌≡◌, refl, arith, none, some, List, [], ◌∷◌, true, ◌==◌, if◌then◌else◌,
}
use parcoach_rma.Analyzer.State.{c}
use parcoach_rma.Analyzer.Monad.{◌>>◌}
use parcoach_rma.Analyzer.Window.{rma_analyzer_start, rma_analyzer_stop}
use parcoach_rma.Analyzer.Protocol.{Settles}
use parcoach_rma.Analyzer.Restart.{NoReport}
use parcoach_rma.Analyzer.Lifetime.{Restored, stop-start}
use parcoach_rma.Printing.{literal, unsigned}
use parcoach_rma.Instrument.Statistics.{Function, run_on_function, run_on_functions}
use parcoach_rma.Instrument.Totals.{
  call_counts, notify_counts, loads_of, loads_in, stores_of, stores_in, run_on_function-statistics,
}
use parcoach_rma.Instrument.Tables.{initial_counts}
use parcoach_rma.Instrument.{
  Located, bit_cast, call, store, load, kept, State, instrument_mem_accesses, call_step,
}
use parcoach_rma.Instrument.Provided.{listed, provided}
use parcoach_rma.Instrument.Overloads.{Named}
use parcoach_rma.Instrument.Names.{AllLeft, instrument_mem_accesses-Named}
use parcoach_rma.Instrument.Missed.{Untouched, call_step-c_missed}
use parcoach_rma.Instrument.Execution.{
  run_reports, save_accesses, run_reports-instrument_mem_accesses,
}
use parcoach_rma.Examples.Table.{list_table, find_state}
use parcoach_rma.Examples.State.{window, with_window}

-- The functions 1 to 4 of a module.
abbrev module_names : ℕ → String
module_names v =
    if v == 1
    then "MPI_Put"
    else if v == 2
    then "MPI_Win_fence"
    else if v == 3
    then "mpix_put_notify_"
    else "MPI_Barrier"

abbrev module_state : State
module_state = record { names = module_names; counts = initial_counts }

abbrev program : List Located
program =
    (call (some 2) (0 ∷ 9 ∷ []), some (3, "main.c"))
    ∷ (store 800 32, some (4, "main.c"))
    ∷ (call (some 1) (800 ∷ 9 ∷ []), some (5, "main.c"))
    ∷ (load 800 64, none)
    ∷ (call (some 4) [], none)
    ∷ (bit_cast 3, none)
    ∷ []

instrument_mem_accesses-Named_example :
    AllLeft module_names program (instrument_mem_accesses program module_state).0
    × Named module_names (instrument_mem_accesses program module_state).1.names
    × (listed "new_fence_" provided ≡ false)
instrument_mem_accesses-Named_example = instrument_mem_accesses-Named program module_state

run_reports-instrument_mem_accesses_example :
    run_reports {table = list_table} true (instrument_mem_accesses program module_state).0
    ≡ save_accesses true program
run_reports-instrument_mem_accesses_example =
    run_reports-instrument_mem_accesses true program module_state
      (omega arith, omega arith, (omega arith, omega arith, tt))

call_step-c_missed_example :
    Untouched
      (kept (call (some 2) (0 ∷ 9 ∷ [])))
      module_state
      (call_step 2 (0 ∷ 9 ∷ []) none module_state)
call_step-c_missed_example = call_step-c_missed 2 (0 ∷ 9 ∷ []) none module_state refl

no_window : list_table.find (with_window window).state_htbl 9 ≡ none
unfolding find_state
no_window = refl

stop-start_example :
    Settles
      (λ _ u. Restored true 4096 64 1 2 (5 ∷ 6 ∷ []) 9 c none 1 (with_window window) u)
      NoReport
      ((do rma_analyzer_start true 4096 64 1 2 (5 ∷ 6 ∷ []) 9 c none; rma_analyzer_stop true 9)
        (with_window window))
stop-start_example =
    stop-start true 4096 64 1 2 (5 ∷ 6 ∷ []) 9 c none 1 (with_window window)
      (λ e. omega arith, refl) tt no_window

-- The function `main` behind a function `helper` that loads once.
abbrev helper : Function
helper = ("helper", (load 16 32, none) ∷ [])

run_on_function-statistics_example :
    (run_on_function ("main", program) (run_on_functions (helper ∷ []) module_state)).2
    ≡ call_counts "main"
        (instrument_mem_accesses program (run_on_functions (helper ∷ []) module_state)).1.counts
      ++ (literal "PARCOACH STATISTICS (function "
          ∷ literal "main"
          ∷ literal "): "
          ∷ unsigned (0 + loads_of (helper ∷ []) + loads_in program)
          ∷ literal " LOAD and "
          ∷ unsigned (0 + stores_of (helper ∷ []) + stores_in program)
          ∷ literal " STORE\n"
          ∷ [])
      ++ notify_counts "main"
          (instrument_mem_accesses program (run_on_functions (helper ∷ []) module_state)).1.counts
run_on_function-statistics_example =
    run_on_function-statistics (helper ∷ []) ("main", program) module_state
