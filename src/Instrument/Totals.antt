-- ===== src/Instrument/Totals.antt =====
-- What the statistics of the pass say of loads and stores.
use Prim.Native.String.{String}
use parcoach_rma.Common.{ℕ, ◌+◌, ◌++◌, sym, ◌≡◌, refl, none, some, List, [], ◌∷◌, arith}
use parcoach_rma.Printing.{Output, literal, unsigned}
use parcoach_rma.Instrument.Tables.{Counts, raise}
use parcoach_rma.Instrument.{
  bit_cast, call, store, load, other, Located, State, instrument_one, instrument_mem_accesses,
}
use parcoach_rma.Instrument.Statistics.{Function, statistics, run_on_function, run_on_functions}
use parcoach_rma.Instrument.Calls.{call_step-Keeps, bit_cast_step-Keeps}

-- The numbers of loads and stores among instructions.
abbrev pub loads_in : List Located → ℕ
loads_in [] = 0
loads_in ((load address size, dbg) ∷ is) = 1 + loads_in is
loads_in ((store address size, dbg) ∷ is) = loads_in is
loads_in ((bit_cast operand, dbg) ∷ is) = loads_in is
loads_in ((call callee args, dbg) ∷ is) = loads_in is
loads_in ((other, dbg) ∷ is) = loads_in is

abbrev pub stores_in : List Located → ℕ
stores_in [] = 0
stores_in ((store address size, dbg) ∷ is) = 1 + stores_in is
stores_in ((load address size, dbg) ∷ is) = stores_in is
stores_in ((bit_cast operand, dbg) ∷ is) = stores_in is
stores_in ((call callee args, dbg) ∷ is) = stores_in is
stores_in ((other, dbg) ∷ is) = stores_in is

abbrev pub loads_of : List Function → ℕ
loads_of [] = 0
loads_of ((name, is) ∷ fs) = loads_in is + loads_of fs

abbrev pub stores_of : List Function → ℕ
stores_of [] = 0
stores_of ((name, is) ∷ fs) = stores_in is + stores_of fs

-- The state has counted this many loads and stores more.
abbrev Counted : (loads stores : ℕ) → State → State → Type 0
Counted loads stores s s' =
    (s'.counts.loads ≡ s.counts.loads + loads) × (s'.counts.stores ≡ s.counts.stores + stores)

instrument_one-Counted :
    (i : Located) (s : State)
    → Counted (loads_in (i ∷ [])) (stores_in (i ∷ [])) s (instrument_one i s).1
unfolding instrument_one raise
instrument_one-Counted (bit_cast operand, dbg) s =
    let (l, t) = bit_cast_step-Keeps operand dbg s in (omega (arith, l), omega (arith, t))
instrument_one-Counted (call none args, dbg) s = (omega arith, omega arith)
instrument_one-Counted (call (some callee) args, dbg) s =
    let (l, t) = call_step-Keeps callee args dbg s in (omega (arith, l), omega (arith, t))
instrument_one-Counted (store address size, dbg) s = (omega arith, omega arith)
instrument_one-Counted (load address size, dbg) s = (omega arith, omega arith)
instrument_one-Counted (other, dbg) s = (omega arith, omega arith)

counts-cons :
    (i : Located) (is : List Located)
    → (loads_in (i ∷ is) ≡ loads_in (i ∷ []) + loads_in is)
      × (stores_in (i ∷ is) ≡ stores_in (i ∷ []) + stores_in is)
counts-cons (bit_cast operand, dbg) is = (omega arith, omega arith)
counts-cons (call callee args, dbg) is = (omega arith, omega arith)
counts-cons (store address size, dbg) is = (omega arith, omega arith)
counts-cons (load address size, dbg) is = (omega arith, omega arith)
counts-cons (other, dbg) is = (omega arith, omega arith)

instrument_mem_accesses-Counted :
    (is : List Located) (s : State)
    → Counted (loads_in is) (stores_in is) s (instrument_mem_accesses is s).1
unfolding instrument_mem_accesses
instrument_mem_accesses-Counted [] s = (omega arith, omega arith)
instrument_mem_accesses-Counted (i ∷ rest) s =
    let (l, t) = instrument_one-Counted i s in
    let (ls, ts) = instrument_mem_accesses-Counted rest (instrument_one i s).1 in
    let (lc, tc) = counts-cons i rest in (omega (arith, l, ls, lc), omega (arith, t, ts, tc))

run_on_functions-Counted :
    (fs : List Function) (s : State)
    → Counted (loads_of fs) (stores_of fs) s (run_on_functions fs s)
unfolding run_on_functions run_on_function
run_on_functions-Counted [] s = (omega arith, omega arith)
run_on_functions-Counted ((name, is) ∷ fs) s =
    let (l, t) = instrument_mem_accesses-Counted is s in
    let (ls, ts) = run_on_functions-Counted fs (instrument_mem_accesses is s).1 in
    (omega (arith, l, ls), omega (arith, t, ts))

-- The line about calls of MPI, and that about notified communication.
abbrev pub call_counts : String → Counts → Output
call_counts name c =
    literal "PARCOACH STATISTICS (function "
    ∷ literal name
    ∷ literal "): "
    ∷ unsigned c.mpi
    ∷ literal " MPI functions including "
    ∷ unsigned c.get
    ∷ literal " MPI_Get, "
    ∷ unsigned c.put
    ∷ literal " MPI_Put, "
    ∷ unsigned c.acc
    ∷ literal " MPI_Accumulate, "
    ∷ unsigned c.fence
    ∷ literal " MPI_Win_fence, "
    ∷ unsigned c.lock
    ∷ literal " MPI_Lock, "
    ∷ unsigned c.lockall
    ∷ literal " MPI_Lockall "
    ∷ unsigned c.unlock
    ∷ literal " MPI_Unlock, "
    ∷ unsigned c.unlockall
    ∷ literal " MPI_Unlockall, "
    ∷ unsigned c.free
    ∷ literal " MPI_Win_free, "
    ∷ unsigned c.barrier
    ∷ literal " MPI_Barrier, "
    ∷ unsigned c.win
    ∷ literal " MPI_Win_create \n"
    ∷ []

abbrev pub notify_counts : String → Counts → Output
notify_counts name c =
    literal "PARCOACH STATISTICS (function "
    ∷ literal name
    ∷ literal "): "
    ∷ unsigned c.mpix
    ∷ literal " MPIX functions including "
    ∷ unsigned c.put_notify
    ∷ literal " MPIX_Put_notify, "
    ∷ unsigned c.get_notify
    ∷ literal " MPIX_Get_notify, "
    ∷ unsigned c.wait_notify
    ∷ literal " MPIX_Win_wait_notify, "
    ∷ unsigned c.test_notify
    ∷ literal " MPIX_Win_test_notify, "
    ∷ unsigned c.win_notify
    ∷ literal " MPIX_Win_create_notify \n"
    ∷ []

-- After the pass has run on some functions, it prints three lines for the next one under that one's
-- name. The first and the third give the counts of calls as the counters then are. The second
-- gives the number of the loads, and behind that of the stores, of all these functions and of this
-- one, with those counted before.
pub run_on_function-statistics :
    (fs : List Function) (f : Function) (s : State)
    → (run_on_function f (run_on_functions fs s)).2
      ≡ call_counts f.0 (instrument_mem_accesses f.1 (run_on_functions fs s)).1.counts
        ++ (literal "PARCOACH STATISTICS (function "
            ∷ literal f.0
            ∷ literal "): "
            ∷ unsigned (s.counts.loads + loads_of fs + loads_in f.1)
            ∷ literal " LOAD and "
            ∷ unsigned (s.counts.stores + stores_of fs + stores_in f.1)
            ∷ literal " STORE\n"
            ∷ [])
        ++ notify_counts f.0 (instrument_mem_accesses f.1 (run_on_functions fs s)).1.counts
unfolding run_on_function statistics
run_on_function-statistics fs (name, is) s =
    let before = run_on_functions fs s in
    let (l, t) = run_on_functions-Counted fs s in
    let (ls, ts) = instrument_mem_accesses-Counted is before in
    let c = (instrument_mem_accesses is before).1.counts in
    let loads : c.loads ≡ s.counts.loads + loads_of fs + loads_in is = omega (arith, l, ls) in
    let stores : c.stores ≡ s.counts.stores + stores_of fs + stores_in is = omega (arith, t, ts) in
    rw (sym loads) (rw (sym stores) refl)
