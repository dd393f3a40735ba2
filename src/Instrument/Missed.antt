-- ===== src/Instrument/Missed.antt =====
-- Routines with an overload that the pass leaves a program to call.
use Prim.Native.String.{String}
use mathlib.Core.Bool.{true≢false}
use mathlib.Core.Path.{subst}
use text.Mathlib.Text.{starts_with, ◌==◌ as str_eq}
use text.Mathlib.TextEquality.{eq_iff}
use parcoach_rma.Common.{
  ℕ, ◌≡◌, refl, sym, ◌∙◌, ap, Bool, Bool-cases, inl, inr, true, false, Option, none, some, List, [],
  ◌∷◌, if◌then◌else◌,
}
use parcoach_rma.Instrument.Tables.{
  Counter, Branch, replace, rename, rename_uncounted, count_only, Chain, first_match,
  fort_overloads, c_overloads, c_notify_overloads, count_mpi, count_mpix,
}
use parcoach_rma.Instrument.{
  bit_cast, call, Emitted, kept, State, count, take_branch, notify_branch, bit_cast_step,
  take_prefix, call_step,
}
use parcoach_rma.Instrument.Provided.{listed}

-- The branch neither replaces a call nor renames.
abbrev IsQuiet : Option Branch → Type 0
IsQuiet none = Unit
IsQuiet (some (replace n k)) = ⊥
IsQuiet (some (rename n k)) = ⊥
IsQuiet (some (rename_uncounted n)) = ⊥
IsQuiet (some (count_only k)) = Unit

-- The instruction is kept, and so are the names.
abbrev pub Untouched : Emitted → State → Emitted × State → Type 0
Untouched e s (e', s') = (e' ≡ e) × (s'.names ≡ s.names)

take_branch-Untouched :
    (v : ℕ) (args : List ℕ) (dbg : Option (ℕ × String)) (b : Option Branch) (e : Emitted)
    (s s' : State)
    → IsQuiet b
    → s'.names ≡ s.names
    → Untouched e s (take_branch v args dbg b (e, s'))
unfolding take_branch
take_branch-Untouched v args dbg none e s s' q h = (refl, h)
take_branch-Untouched v args dbg (some (replace n k)) e s s' q h = absurd q
take_branch-Untouched v args dbg (some (rename n k)) e s s' q h = absurd q
take_branch-Untouched v args dbg (some (rename_uncounted n)) e s s' q h = absurd q
take_branch-Untouched v args dbg (some (count_only k)) e s s' q h = (refl, h)

take_prefix-Untouched :
    (prefix : String) (k : Counter) (chain : Chain) (callee : ℕ) (args : List ℕ)
    (dbg : Option (ℕ × String)) (e : Emitted) (s : State) (r : Emitted × State)
    → IsQuiet (first_match (s.names callee) chain)
    → Untouched e s r
    → Untouched e s (take_prefix prefix k chain callee args dbg r)
unfolding take_prefix
take_prefix-Untouched prefix k chain callee args dbg e s (e', s') q (c, h) =
    go (starts_with (s'.names callee) prefix)
  where
    go :
        (t : Bool)
        → Untouched e s (
            if t
            then take_branch callee args dbg (first_match (s'.names callee) chain) (e', count k s')
            else (e', s'))
    go true =
        let (d, m) =
          take_branch-Untouched callee args dbg (first_match (s'.names callee) chain) e' s
            (count k s')
            (subst (λ (f : ℕ → String). IsQuiet (first_match (f callee) chain)) (sym h) q) h in
        (d ∙ c, m)
    go false = (c, h)

-- Routines of MPI of which src/static/lib/rma_analyzer_mpi_c_overload.c has an overload.
abbrev pub c_missed : List String
c_missed =
    "MPI_Win_fence" ∷ "MPI_Win_allocate" ∷ "MPI_Win_start" ∷ "MPI_Win_post" ∷ "MPI_Win_complete"
    ∷ "MPI_Win_wait" ∷ "MPIX_Win_allocate_notify" ∷ []

abbrev AllQuiet : List String → Type 0
AllQuiet [] = Unit
AllQuiet (n ∷ ns) =
    (IsQuiet (first_match n c_overloads) × IsQuiet (first_match n c_notify_overloads)) × AllQuiet ns

listed-IsQuiet :
    (name : String) (ns : List String)
    → listed name ns ≡ true
    → AllQuiet ns
    → IsQuiet (first_match name c_overloads) × IsQuiet (first_match name c_notify_overloads)
listed-IsQuiet name [] l a = cc
listed-IsQuiet name (n ∷ ns) l (q, a) = elim (Bool-cases (str_eq name n)) [
  | inl e ↦
      subst (λ m. IsQuiet (first_match m c_overloads) × IsQuiet (first_match m c_notify_overloads))
        (sym ((eq_iff name n).0 e)) q
  | inr e ↦ listed-IsQuiet name ns (sym (ap (λ b. if b then true else listed name ns) e) ∙ l) a
]

c_missed-AllQuiet : AllQuiet c_missed
unfolding first_match
c_missed-AllQuiet =
    ((tt, tt), ((tt, tt), ((tt, tt), ((tt, tt), ((tt, tt), ((tt, tt), ((tt, tt), tt)))))))

-- A call of MPI_Win_fence, MPI_Win_allocate, MPI_Win_start, MPI_Win_post, MPI_Win_complete,
-- MPI_Win_wait or MPIX_Win_allocate_notify is kept, and the function keeps its name, though the
-- static library has an overload of each.
pub call_step-c_missed :
    (callee : ℕ) (args : List ℕ) (dbg : Option (ℕ × String)) (s : State)
    → listed (s.names callee) c_missed ≡ true
    → Untouched (kept (call (some callee) args)) s (call_step callee args dbg s)
unfolding call_step
call_step-c_missed callee args dbg s l =
    let (q, r) = listed-IsQuiet (s.names callee) c_missed l c_missed-AllQuiet in
    take_prefix-Untouched "MPIX_" count_mpix c_notify_overloads callee args dbg _ s _ r (
      take_prefix-Untouched "MPI_" count_mpi c_overloads callee args dbg _ s
        (kept (call (some callee) args), s) q (refl, refl))

-- No name that is compared has the prefix.
abbrev NoneStarts : String → Chain → Type 0
NoneStarts prefix [] = Unit
NoneStarts prefix ((n, b) ∷ rest) = (starts_with n prefix ≡ false) × NoneStarts prefix rest

first_match-none :
    (name prefix : String) (chain : Chain)
    → starts_with name prefix ≡ true
    → NoneStarts prefix chain
    → first_match name chain ≡ none
unfolding first_match
first_match-none name prefix [] p a = refl
first_match-none name prefix ((n, b) ∷ rest) p (d, a) = elim (Bool-cases (str_eq name n)) [
  | inl e ↦ absurd (true≢false (sym p ∙ ap (λ m. starts_with m prefix) ((eq_iff name n).0 e) ∙ d))
  | inr e ↦
      ap (λ t. if t then some b else first_match name rest) e
      ∙ first_match-none name prefix rest p a
]

fort_overloads-NoneStarts : NoneStarts "mpix_" fort_overloads
fort_overloads-NoneStarts = (
  refl,
  (refl, (refl, (refl, (refl, (refl, (refl, (refl, (refl, (refl, (refl, (refl, tt))))))))))),
)

notify_branch_mpix :
    (operand : ℕ) (dbg : Option (ℕ × String)) (e : Emitted) (s : State)
    → starts_with (s.names operand) "mpix_" ≡ true
    → notify_branch operand dbg (e, s) ≡ (e, count count_mpix s)
unfolding notify_branch
notify_branch_mpix operand dbg e s p = rw p refl

take_branch-unmatched :
    (v : ℕ) (dbg : Option (ℕ × String)) (chain : Chain) (r : Emitted × State)
    → first_match (r.1.names v) chain ≡ none
    → take_branch v [] dbg (first_match (r.1.names v) chain) r ≡ r
unfolding take_branch
take_branch-unmatched v dbg chain (e, s) q = ap (λ b. take_branch v [] dbg b (e, s)) q

-- A bit cast of a function whose name starts with mpix_, as those of notified communication in
-- Fortran do, leaves every name as it is: the comparisons with these names follow a test of the
-- prefix and are only made where it fails.
pub bit_cast_step_mpix :
    (operand : ℕ) (dbg : Option (ℕ × String)) (s : State)
    → starts_with (s.names operand) "mpix_" ≡ true
    → Untouched (kept (bit_cast operand)) s (bit_cast_step operand dbg s)
unfolding bit_cast_step
bit_cast_step_mpix operand dbg s p =
    go (if starts_with (s.names operand) "mpi_" then count count_mpi s else s)
      (counted (starts_with (s.names operand) "mpi_"))
  where
    counted : (t : Bool) → (if t then count count_mpi s else s).names ≡ s.names
    counted true = refl
    counted false = refl

    go :
        (s1 : State)
        → s1.names ≡ s.names
        → Untouched (kept (bit_cast operand)) s (
            notify_branch operand dbg (
              take_branch operand [] dbg
                (first_match (s1.names operand) fort_overloads)
                (kept (bit_cast operand), s1)))
    go s1 h =
        let starts = ap (λ (f : ℕ → String). starts_with (f operand) "mpix_") h ∙ p in
        let first =
          take_branch-unmatched operand dbg fort_overloads (kept (bit_cast operand), s1)
            (first_match-none (s1.names operand) "mpix_" fort_overloads starts
              fort_overloads-NoneStarts) in
        subst (Untouched (kept (bit_cast operand)) s)
          (sym (
            ap (notify_branch operand dbg) first
            ∙ notify_branch_mpix operand dbg (kept (bit_cast operand)) s1 starts))
          (refl, h)
