-- ===== src/Instrument.antt =====
-- src/static/src/parcoachRMA.cpp: the pass that has a program call the overloads. What LLVM does
-- with names and instructions is that a name set is the name read, and that an instruction is
-- inserted before the one at hand.
pub mod Tables
pub mod Provided
pub mod Given
pub mod Overloads
pub mod Names
pub mod Missed
pub mod Accesses
pub mod Execution
pub mod Statistics
pub mod Calls
pub mod Totals
use Prim.Native.String.{String}
use text.Mathlib.Text.{starts_with}
use parcoach_rma.Common.{
  ℕ, ◌+◌, ◌==◌, Bool, true, false, Option, none, some, List, [], ◌∷◌, ◌++◌, if◌then◌else◌,
}
use parcoach_rma.Instrument.Tables.{
  Counts, Counter, count_mpi, count_mpix, count_store, count_load, Chain, raise, Branch, replace,
  rename, rename_uncounted, count_only, first_match, fort_overloads, fort_notify_overloads,
  c_overloads, c_notify_overloads,
}

-- The instructions that the pass tells apart. Functions and other values are numbers; `callee` is
-- none for an indirect call. A size is that of the accessed type in bits.
pub data Instruction : Type 0 where
  bit_cast : (operand : ℕ) → Instruction
  call : (callee : Option ℕ) (args : List ℕ) → Instruction
  store : (address size : ℕ) → Instruction
  load : (address size : ℕ) → Instruction
  other : Instruction

-- An instruction with its line and file, where debug information gives them.
abbrev pub Located : Type 0
Located = Instruction × Option (ℕ × String)

-- The instructions after the pass: those that it keeps, and calls that it inserts.
pub data Emitted : Type 0 where
  kept : Instruction → Emitted
  handler : (name : String) (address size line : ℕ) (file : String) → Emitted
  replaced : (name : String) (args : List ℕ) (file : String) (line : ℕ) → Emitted

-- The names of the values of the module, and the static counters.
pub record State : Type 0 where
  pub names : ℕ → String
  pub counts : Counts

abbrev pub set_name : ℕ → String → State → State
set_name v name s = record s { names = λ u. if u == v then name else s.names u }

abbrev pub count : Counter → State → State
count k s = record s { counts = raise k s.counts }

unfoldable pub line_of : Option (ℕ × String) → ℕ
line_of none = 0
line_of (some (line, file)) = line

unfoldable pub file_of : Option (ℕ × String) → String
file_of none = ""
file_of (some (line, file)) = file

-- A branch at the value whose name is tested. A call that is replaced is deleted in the end, which
-- leaves the new one in its place.
unfoldable pub take_branch :
    ℕ → List ℕ → Option (ℕ × String) → Option Branch → Emitted × State → Emitted × State
take_branch v args dbg none (e, s) = (e, s)
take_branch v args dbg (some (replace name k)) (e, s) =
    (replaced name args (file_of dbg) (line_of dbg), count k s)
take_branch v args dbg (some (rename name k)) (e, s) = (e, count k (set_name v name s))
take_branch v args dbg (some (rename_uncounted name)) (e, s) = (e, set_name v name s)
take_branch v args dbg (some (count_only k)) (e, s) = (e, count k s)

-- The second chain of comparisons with the name of an operand, which follows a test of a prefix.
unfoldable pub notify_branch : ℕ → Option (ℕ × String) → Emitted × State → Emitted × State
notify_branch operand dbg (e, s) =
    if starts_with (s.names operand) "mpix_"
    then (e, count count_mpix s)
    else take_branch operand [] dbg (first_match (s.names operand) fort_notify_overloads) (e, s)

unfoldable pub bit_cast_step : ℕ → Option (ℕ × String) → State → Emitted × State
bit_cast_step operand dbg s =
    let s1 = if starts_with (s.names operand) "mpi_" then count count_mpi s else s in
    notify_branch operand dbg (
      take_branch operand [] dbg (first_match (s1.names operand) fort_overloads)
        (kept (bit_cast operand), s1))

-- The tests behind a prefix of the function's name.
unfoldable pub take_prefix :
    String → Counter → Chain → ℕ → List ℕ → Option (ℕ × String) → Emitted × State → Emitted × State
take_prefix prefix k chain callee args dbg (e, s) =
    if starts_with (s.names callee) prefix
    then take_branch callee args dbg (first_match (s.names callee) chain) (e, count k s)
    else (e, s)

unfoldable pub call_step : ℕ → List ℕ → Option (ℕ × String) → State → Emitted × State
call_step callee args dbg s =
    take_prefix "MPIX_" count_mpix c_notify_overloads callee args dbg
      (take_prefix "MPI_" count_mpi c_overloads callee args dbg (kept (call (some callee) args), s))

unfoldable pub instrument_one : Located → State → List Emitted × State
instrument_one (bit_cast operand, dbg) s = let (e, s') = bit_cast_step operand dbg s in (e ∷ [], s')
instrument_one (call none args, dbg) s = (kept (call none args) ∷ [], s)
instrument_one (call (some callee) args, dbg) s =
    let (e, s') = call_step callee args dbg s in (e ∷ [], s')
instrument_one (store address size, dbg) s = (
  handler "STORE" address size (line_of dbg) (file_of dbg) ∷ kept (store address size) ∷ [],
  count count_store s,
)
instrument_one (load address size, dbg) s = (
  handler "LOAD" address size (line_of dbg) (file_of dbg) ∷ kept (load address size) ∷ [],
  count count_load s,
)
instrument_one (other, dbg) s = (kept other ∷ [], s)

unfoldable pub instrument_mem_accesses : List Located → State → List Emitted × State
instrument_mem_accesses [] s = ([], s)
instrument_mem_accesses (i ∷ rest) s =
    let (here, s1) = instrument_one i s in
    let (there, s2) = instrument_mem_accesses rest s1 in (here ++ there, s2)
