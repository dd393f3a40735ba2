-- ===== src/Instrument/Accesses.antt =====
-- The pass has each load and store reported, in their order, and inserts no other report.
use Prim.Native.String.{String}
use text.Mathlib.Text.{starts_with}
use parcoach_rma.Common.{
  ℕ, ◌≡◌, refl, sym, ◌∙◌, ap, Option, Bool, true, false, none, some, List, [], ◌∷◌, ◌++◌,
  if◌then◌else◌,
}
use parcoach_rma.Instrument.Tables.{
  Branch, replace, rename, rename_uncounted, count_only, Counter, Chain, c_overloads,
  c_notify_overloads, count_mpi, count_mpix,
}
use parcoach_rma.Instrument.{
  bit_cast, call, store, load, other, Located, Emitted, kept, handler, replaced, State, line_of,
  file_of, count, take_branch, take_prefix, call_step, notify_branch, bit_cast_step, instrument_one,
  instrument_mem_accesses,
}

-- What concerns memory of the instructions after the pass: reports, loads and stores.
unfoldable pub memory_part : List Emitted → List Emitted
memory_part [] = []
memory_part (handler n a s l f ∷ es) = handler n a s l f ∷ memory_part es
memory_part (kept (store a s) ∷ es) = kept (store a s) ∷ memory_part es
memory_part (kept (load a s) ∷ es) = kept (load a s) ∷ memory_part es
memory_part (kept (bit_cast v) ∷ es) = memory_part es
memory_part (kept (call f args) ∷ es) = memory_part es
memory_part (kept other ∷ es) = memory_part es
memory_part (replaced n args f l ∷ es) = memory_part es

-- Each load and store behind its report.
unfoldable pub reports : List Located → List Emitted
reports [] = []
reports ((store a s, dbg) ∷ is) =
    handler "STORE" a s (line_of dbg) (file_of dbg) ∷ kept (store a s) ∷ reports is
reports ((load a s, dbg) ∷ is) =
    handler "LOAD" a s (line_of dbg) (file_of dbg) ∷ kept (load a s) ∷ reports is
reports ((bit_cast v, dbg) ∷ is) = reports is
reports ((call f args, dbg) ∷ is) = reports is
reports ((other, dbg) ∷ is) = reports is

memory_part-append :
    (es fs : List Emitted) → memory_part (es ++ fs) ≡ memory_part es ++ memory_part fs
unfolding memory_part
memory_part-append [] fs = refl
memory_part-append (handler n a s l f ∷ es) fs =
    ap (λ r. handler n a s l f ∷ r) (memory_part-append es fs)
memory_part-append (kept (store a s) ∷ es) fs =
    ap (λ r. kept (store a s) ∷ r) (memory_part-append es fs)
memory_part-append (kept (load a s) ∷ es) fs =
    ap (λ r. kept (load a s) ∷ r) (memory_part-append es fs)
memory_part-append (kept (bit_cast v) ∷ es) fs = memory_part-append es fs
memory_part-append (kept (call f args) ∷ es) fs = memory_part-append es fs
memory_part-append (kept other ∷ es) fs = memory_part-append es fs
memory_part-append (replaced n args f l ∷ es) fs = memory_part-append es fs

-- No load, store or report.
abbrev IsSilent : Emitted → Type 0
IsSilent e = memory_part (e ∷ []) ≡ []

take_branch-IsSilent :
    (v : ℕ) (args : List ℕ) (dbg : Option (ℕ × String)) (b : Option Branch) (r : Emitted × State)
    → IsSilent r.0
    → IsSilent (take_branch v args dbg b r).0
unfolding take_branch memory_part
take_branch-IsSilent v args dbg none (e, s) h = h
take_branch-IsSilent v args dbg (some (replace n k)) (e, s) h = refl
take_branch-IsSilent v args dbg (some (rename n k)) (e, s) h = h
take_branch-IsSilent v args dbg (some (rename_uncounted n)) (e, s) h = h
take_branch-IsSilent v args dbg (some (count_only k)) (e, s) h = h

if-IsSilent :
    (b : Bool) (r r' : Emitted × State)
    → IsSilent r.0
    → IsSilent r'.0
    → IsSilent (if b then r else r').0
if-IsSilent true r r' h h' = h
if-IsSilent false r r' h h' = h'

take_prefix-IsSilent :
    (prefix : String) (k : Counter) (chain : Chain) (callee : ℕ) (args : List ℕ)
    (dbg : Option (ℕ × String)) (r : Emitted × State)
    → IsSilent r.0
    → IsSilent (take_prefix prefix k chain callee args dbg r).0
unfolding take_prefix
take_prefix-IsSilent prefix k chain callee args dbg (e, s) h =
    if-IsSilent (starts_with (s.names callee) prefix) _ _
      (take_branch-IsSilent callee args dbg _ (e, count k s) h) h

call_step-IsSilent :
    (callee : ℕ) (args : List ℕ) (dbg : Option (ℕ × String)) (s : State)
    → IsSilent (call_step callee args dbg s).0
unfolding call_step memory_part
call_step-IsSilent callee args dbg s =
    take_prefix-IsSilent "MPIX_" count_mpix c_notify_overloads callee args dbg _
      (take_prefix-IsSilent "MPI_" count_mpi c_overloads callee args dbg _ refl)

notify_branch-IsSilent :
    (operand : ℕ) (dbg : Option (ℕ × String)) (r : Emitted × State)
    → IsSilent r.0
    → IsSilent (notify_branch operand dbg r).0
unfolding notify_branch
notify_branch-IsSilent operand dbg (e, s) h =
    if-IsSilent (starts_with (s.names operand) "mpix_") _ _ h
      (take_branch-IsSilent operand [] dbg _ (e, s) h)

bit_cast_step-IsSilent :
    (operand : ℕ) (dbg : Option (ℕ × String)) (s : State) → IsSilent (bit_cast_step operand dbg s).0
unfolding bit_cast_step memory_part
bit_cast_step-IsSilent operand dbg s =
    notify_branch-IsSilent operand dbg _ (take_branch-IsSilent operand [] dbg _ _ refl)

instrument_one-reports :
    (i : Located) (s : State) → memory_part (instrument_one i s).0 ≡ reports (i ∷ [])
unfolding instrument_one memory_part reports
instrument_one-reports (bit_cast operand, dbg) s = bit_cast_step-IsSilent operand dbg s
instrument_one-reports (call none args, dbg) s = refl
instrument_one-reports (call (some callee) args, dbg) s = call_step-IsSilent callee args dbg s
instrument_one-reports (store address size, dbg) s = refl
instrument_one-reports (load address size, dbg) s = refl
instrument_one-reports (other, dbg) s = refl

reports-cons : (i : Located) (is : List Located) → reports (i ∷ is) ≡ reports (i ∷ []) ++ reports is
unfolding reports
reports-cons (bit_cast operand, dbg) is = refl
reports-cons (call f args, dbg) is = refl
reports-cons (store address size, dbg) is = refl
reports-cons (load address size, dbg) is = refl
reports-cons (other, dbg) is = refl

-- Of the instructions after the pass, the loads, the stores and the reports of them are those of
-- the program, in their order, each load and store directly behind its report.
pub memory_part-instrument_mem_accesses :
    (is : List Located) (s : State) → memory_part (instrument_mem_accesses is s).0 ≡ reports is
unfolding instrument_mem_accesses memory_part reports
memory_part-instrument_mem_accesses [] s = refl
memory_part-instrument_mem_accesses (i ∷ rest) s =
    memory_part-append (instrument_one i s).0 _
    ∙ ap (λ l. l ++ memory_part (instrument_mem_accesses rest (instrument_one i s).1).0)
        (instrument_one-reports i s)
    ∙ ap (λ l. reports (i ∷ []) ++ l)
        (memory_part-instrument_mem_accesses rest (instrument_one i s).1)
    ∙ sym (reports-cons i rest)
