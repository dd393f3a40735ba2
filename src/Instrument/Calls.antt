-- ===== src/Instrument/Calls.antt =====
-- The branches of the pass at calls leave its counts of loads and stores as they are.
use Prim.Native.String.{String}
use text.Mathlib.Text.{starts_with}
use parcoach_rma.Common.{
  ℕ, ◌≡◌, refl, ◌∙◌, Option, Bool, true, false, none, some, List, [], ◌∷◌, if◌then◌else◌,
}
use text.Mathlib.Text.{◌==◌ as str_eq}
use parcoach_rma.Instrument.Tables.{
  Counts, Branch, replace, rename, rename_uncounted, count_only, first_match, fort_overloads,
  fort_notify_overloads, c_overloads, c_notify_overloads, Counter, Chain, raise, count_mpi,
  count_mpix,
}
use parcoach_rma.Instrument.{
  bit_cast, call, Emitted, kept, State, count, take_branch, take_prefix, call_step, notify_branch,
  bit_cast_step,
}

-- The counter is one of the calls, not of the accesses to memory.
abbrev OfCalls : Counter → Type 0
OfCalls k = (c : Counts) → ((raise k c).loads ≡ c.loads) × ((raise k c).stores ≡ c.stores)

abbrev BranchOfCalls : Option Branch → Type 0
BranchOfCalls none = Unit
BranchOfCalls (some (replace name k)) = OfCalls k
BranchOfCalls (some (rename name k)) = OfCalls k
BranchOfCalls (some (rename_uncounted name)) = Unit
BranchOfCalls (some (count_only k)) = OfCalls k

abbrev ChainOfCalls : Chain → Type 0
ChainOfCalls [] = Unit
ChainOfCalls ((name, branch) ∷ rest) = BranchOfCalls (some branch) × ChainOfCalls rest

-- A counter of calls has no part in the numbers of loads and stores.
unchanged : (c : Counts) → (c.loads ≡ c.loads) × (c.stores ≡ c.stores)
unchanged c = (refl, refl)

fort_of_calls : ChainOfCalls fort_overloads
unfolding raise
fort_of_calls = (
  unchanged,
  (
    unchanged,
    (
      unchanged,
      (
        unchanged,
        (
          unchanged,
          (
            unchanged,
            (unchanged, (unchanged, (unchanged, (unchanged, (unchanged, (unchanged, tt)))))),
          ),
        ),
      ),
    ),
  ),
)

fort_notify_of_calls : ChainOfCalls fort_notify_overloads
unfolding raise
fort_notify_of_calls = (tt, (unchanged, (unchanged, tt)))

c_of_calls : ChainOfCalls c_overloads
unfolding raise
c_of_calls = (
  unchanged,
  (
    unchanged,
    (
      unchanged,
      (
        unchanged,
        (
          unchanged,
          (unchanged, (unchanged, (unchanged, (unchanged, (unchanged, (unchanged, tt)))))),
        ),
      ),
    ),
  ),
)

c_notify_of_calls : ChainOfCalls c_notify_overloads
unfolding raise
c_notify_of_calls = (unchanged, (unchanged, (unchanged, (unchanged, (unchanged, tt)))))

first_match-OfCalls :
    (name : String) (chain : Chain) → ChainOfCalls chain → BranchOfCalls (first_match name chain)
unfolding first_match
first_match-OfCalls name [] a = tt
first_match-OfCalls name ((n, b) ∷ rest) (q, a) =
    elim (str_eq name n) as (λ t. BranchOfCalls (if t then some b else first_match name rest)) [
      | true ↦ q
      | false ↦ first_match-OfCalls name rest a
    ]

-- The step counts neither loads nor stores.
abbrev pub Keeps : State → State → Type 0
Keeps s s' = (s'.counts.loads ≡ s.counts.loads) × (s'.counts.stores ≡ s.counts.stores)

if-Keeps :
    (s : State) (b : Bool) (r r' : Emitted × State)
    → Keeps s r.1
    → Keeps s r'.1
    → Keeps s (if b then r else r').1
if-Keeps s true r r' h h' = h
if-Keeps s false r r' h h' = h'

take_branch-Keeps :
    (v : ℕ) (args : List ℕ) (dbg : Option (ℕ × String)) (b : Option Branch) (r : Emitted × State)
    → BranchOfCalls b
    → Keeps r.1 (take_branch v args dbg b r).1
unfolding take_branch
take_branch-Keeps v args dbg none (e, s) h = (refl, refl)
take_branch-Keeps v args dbg (some (replace n k)) (e, s) h = h s.counts
take_branch-Keeps v args dbg (some (rename n k)) (e, s) h = h s.counts
take_branch-Keeps v args dbg (some (rename_uncounted n)) (e, s) h = (refl, refl)
take_branch-Keeps v args dbg (some (count_only k)) (e, s) h = h s.counts

take_prefix-Keeps :
    (prefix : String) (k : Counter) (chain : Chain) (callee : ℕ) (args : List ℕ)
    (dbg : Option (ℕ × String)) (r : Emitted × State)
    → OfCalls k
    → ChainOfCalls chain
    → Keeps r.1 (take_prefix prefix k chain callee args dbg r).1
unfolding take_prefix
take_prefix-Keeps prefix k chain callee args dbg (e, s) q a =
    if-Keeps s (starts_with (s.names callee) prefix)
      (take_branch callee args dbg (first_match (s.names callee) chain) (e, count k s)) (e, s)
      (let counted = q s.counts in
        let kept =
          take_branch-Keeps callee args dbg _ (e, count k s)
            (first_match-OfCalls (s.names callee) chain a) in
        (kept.0 ∙ counted.0, kept.1 ∙ counted.1))
      (refl, refl)

pub call_step-Keeps :
    (callee : ℕ) (args : List ℕ) (dbg : Option (ℕ × String)) (s : State)
    → Keeps s (call_step callee args dbg s).1
unfolding call_step raise
call_step-Keeps callee args dbg s =
    let r =
      take_prefix "MPI_" count_mpi c_overloads callee args dbg
        (kept (call (some callee) args), s) in
    let first =
      take_prefix-Keeps "MPI_" count_mpi c_overloads callee args dbg
        (kept (call (some callee) args), s) unchanged c_of_calls in
    let second =
      take_prefix-Keeps "MPIX_" count_mpix c_notify_overloads callee args dbg r unchanged
        c_notify_of_calls in
    (second.0 ∙ first.0, second.1 ∙ first.1)

notify_branch-Keeps :
    (operand : ℕ) (dbg : Option (ℕ × String)) (r : Emitted × State)
    → Keeps r.1 (notify_branch operand dbg r).1
unfolding notify_branch raise
notify_branch-Keeps operand dbg (e, s) =
    if-Keeps s (starts_with (s.names operand) "mpix_") (e, count count_mpix s) _ (refl, refl)
      (take_branch-Keeps operand [] dbg _ (e, s)
        (first_match-OfCalls (s.names operand) fort_notify_overloads fort_notify_of_calls))

if_counted-Keeps : (b : Bool) (s : State) → Keeps s (if b then count count_mpi s else s)
unfolding raise
if_counted-Keeps true s = (refl, refl)
if_counted-Keeps false s = (refl, refl)

pub bit_cast_step-Keeps :
    (operand : ℕ) (dbg : Option (ℕ × String)) (s : State) → Keeps s (bit_cast_step operand dbg s).1
unfolding bit_cast_step
bit_cast_step-Keeps operand dbg s =
    let s1 = if starts_with (s.names operand) "mpi_" then count count_mpi s else s in
    let r =
      take_branch operand [] dbg (first_match (s1.names operand) fort_overloads)
        (kept (bit_cast operand), s1) in
    let counted = if_counted-Keeps (starts_with (s.names operand) "mpi_") s in
    let taken =
      take_branch-Keeps operand [] dbg (first_match (s1.names operand) fort_overloads)
        (kept (bit_cast operand), s1)
        (first_match-OfCalls (s1.names operand) fort_overloads fort_of_calls) in
    let notified = notify_branch-Keeps operand dbg r in
    (notified.0 ∙ taken.0 ∙ counted.0, notified.1 ∙ taken.1 ∙ counted.1)
