-- ===== src/Instrument/Statistics.antt =====
-- src/static/src/parcoachRMA.cpp: the run of the pass on the functions of a module, and the
-- statistics that it prints. The counters are static, so they go on from function to function.
use Prim.Native.String.{String}
use parcoach_rma.Common.{List, [], ◌∷◌}
use parcoach_rma.Printing.{Output, literal, unsigned}
use parcoach_rma.Instrument.Tables.{Counts}
use parcoach_rma.Instrument.{Located, Emitted, State, instrument_mem_accesses}

-- `CyanErr() << ...`, for a function with this name.
unfoldable pub statistics : String → Counts → Output
statistics name c =
    literal "PARCOACH STATISTICS (function "
    ∷ literal name
    ∷ literal "): "
    ∷ unsigned c.mpi
    ∷ literal " MPI functions including "
    ∷ unsigned c.get
    ∷ literal " MPI_Get, "
    ∷ unsigned c.put
    ∷ literal " MPI_Put, "
    ∷ unsigned c.acc
    ∷ literal " MPI_Accumulate, "
    ∷ unsigned c.fence
    ∷ literal " MPI_Win_fence, "
    ∷ unsigned c.lock
    ∷ literal " MPI_Lock, "
    ∷ unsigned c.lockall
    ∷ literal " MPI_Lockall "
    ∷ unsigned c.unlock
    ∷ literal " MPI_Unlock, "
    ∷ unsigned c.unlockall
    ∷ literal " MPI_Unlockall, "
    ∷ unsigned c.free
    ∷ literal " MPI_Win_free, "
    ∷ unsigned c.barrier
    ∷ literal " MPI_Barrier, "
    ∷ unsigned c.win
    ∷ literal " MPI_Win_create \n"
    ∷ literal "PARCOACH STATISTICS (function "
    ∷ literal name
    ∷ literal "): "
    ∷ unsigned c.loads
    ∷ literal " LOAD and "
    ∷ unsigned c.stores
    ∷ literal " STORE\n"
    ∷ literal "PARCOACH STATISTICS (function "
    ∷ literal name
    ∷ literal "): "
    ∷ unsigned c.mpix
    ∷ literal " MPIX functions including "
    ∷ unsigned c.put_notify
    ∷ literal " MPIX_Put_notify, "
    ∷ unsigned c.get_notify
    ∷ literal " MPIX_Get_notify, "
    ∷ unsigned c.wait_notify
    ∷ literal " MPIX_Win_wait_notify, "
    ∷ unsigned c.test_notify
    ∷ literal " MPIX_Win_test_notify, "
    ∷ unsigned c.win_notify
    ∷ literal " MPIX_Win_create_notify \n"
    ∷ []

-- A function of the module: its name and its instructions.
abbrev pub Function : Type 0
Function = String × List Located

-- The instructions after the pass, the state and what is printed.
unfoldable pub run_on_function : Function → State → List Emitted × State × Output
run_on_function (name, is) s =
    let (es, s') = instrument_mem_accesses is s in (es, s', statistics name s'.counts)

-- The state after the pass has run on functions, one after another, as LLVM runs it.
unfoldable pub run_on_functions : List Function → State → State
run_on_functions [] s = s
run_on_functions (f ∷ fs) s = let (es, s', out) = run_on_function f s in run_on_functions fs s'
