-- ===== src/Instrument/Overloads.antt =====
-- What the pass does to the call of a function and to the names of functions.
use Prim.Native.String.{String}
use mathlib.Core.Path.{subst}
use mathlib.Core.Bool.{false≢true}
use mathlib.Core.Option.{some-ne-none}
use text.Mathlib.Text.{starts_with}
use parcoach_rma.Common.{
  ℕ, ◌≡◌, refl, sym, ◌∙◌, ap, ◌⊎◌, inl, inr, ◌==◌, Bool, true, false, Option, none, some, List,
  if◌then◌else◌, arith,
}
use parcoach_rma.Instrument.Tables.{
  Counter, Branch, replace, rename, rename_uncounted, count_only, Chain, first_match, c_overloads,
  c_notify_overloads, count_mpi, count_mpix,
}
use parcoach_rma.Instrument.{
  call, Emitted, kept, handler, replaced, State, set_name, count, line_of, file_of, take_branch,
  take_prefix, call_step,
}
use parcoach_rma.Instrument.Provided.{listed}
use parcoach_rma.Instrument.Given.{
  replaced_routines, replaced_routines-cases, overload_of, Renamed, Replaced, Gives, OnlyRenames,
  AllBranches, May, first_match-May, c_given, c_notify_given, Renamed-plain,
}

-- Each value has the name that it had, or the name of the overload of the routine that it named.
abbrev pub Named : (ℕ → String) → (ℕ → String) → Type 0
Named old new = (v : ℕ) → (new v ≡ old v) ⊎ Renamed (old v) (new v)

module _ (old : ℕ → String) where
  abbrev pub ReplacedCall : ℕ → List ℕ → Option (ℕ × String) → Emitted → Type 0
  ReplacedCall callee args dbg e =
      (n : String) × Replaced (old callee) n × (e ≡ replaced n args (file_of dbg) (line_of dbg))

  -- A call of a function is replaced by one of the overload of the routine that the function named,
  -- with the same arguments and with the file and the line. It is kept if calls of that routine are
  -- not replaced.
  abbrev pub Called : ℕ → List ℕ → Option (ℕ × String) → Emitted → Type 0
  Called callee args dbg e =
      ((e ≡ kept (call (some callee) args)) × (listed (old callee) replaced_routines ≡ false))
      ⊎ ReplacedCall callee args dbg e

  -- The same without a word on which calls are kept.
  abbrev pub MayCalled : ℕ → List ℕ → Option (ℕ × String) → Emitted → Type 0
  MayCalled callee args dbg e =
      (e ≡ kept (call (some callee) args)) ⊎ ReplacedCall callee args dbg e

  -- A name that has an overload is still the one that the value had.
  first_name :
      (new : ℕ → String) (v : ℕ) (n : String)
      → Named old new
      → overload_of (new v) ≡ some n
      → new v ≡ old v
  first_name new v n h o = elim (h v) [
    | inl e ↦ e
    | inr r ↦ absurd (some-ne-none n (sym o ∙ Renamed-plain (old v) (new v) r))
  ]

  set_name-Named :
      (v : ℕ) (n : String) (s : State)
      → Renamed (s.names v) n
      → Named old s.names
      → Named old (set_name v n s).names
  set_name-Named v n s r h u = go (u == v) (λ e. ground (arith, e))
    where
      renamed : Renamed (old v) n
      renamed = subst (λ name. Renamed name n) (first_name s.names v n h r.0) r

      go :
          (t : Bool)
          → (t ≡ true → u ≡ v)
          → ((if t then n else s.names u) ≡ old u) ⊎ Renamed (old u) (if t then n else s.names u)
      go true e = inr (subst (λ x. Renamed (old x) n) (sym (e refl)) renamed)
      go false e = h u

  pub take_branch-Named :
      (v : ℕ) (args : List ℕ) (dbg : Option (ℕ × String)) (b : Option Branch) (r : Emitted × State)
      → May Gives (r.1.names v) b
      → Named old r.1.names
      → Named old (take_branch v args dbg b r).1.names
  unfolding take_branch
  take_branch-Named v args dbg none (e, s) m h = h
  take_branch-Named v args dbg (some (replace n k)) (e, s) m h = h
  take_branch-Named v args dbg (some (rename n k)) (e, s) m h = set_name-Named v n s m h
  take_branch-Named v args dbg (some (rename_uncounted n)) (e, s) m h = set_name-Named v n s m h
  take_branch-Named v args dbg (some (count_only k)) (e, s) m h = h

  pub take_branch-kept :
      (v : ℕ) (args : List ℕ) (dbg : Option (ℕ × String)) (b : Option Branch) (r : Emitted × State)
      → May OnlyRenames (r.1.names v) b
      → (take_branch v args dbg b r).0 ≡ r.0
  unfolding take_branch
  take_branch-kept v args dbg none (e, s) m = refl
  take_branch-kept v args dbg (some (replace n k)) (e, s) m = absurd m
  take_branch-kept v args dbg (some (rename n k)) (e, s) m = refl
  take_branch-kept v args dbg (some (rename_uncounted n)) (e, s) m = refl
  take_branch-kept v args dbg (some (count_only k)) (e, s) m = refl

  take_branch-MayCalled :
      (v : ℕ) (args : List ℕ) (dbg : Option (ℕ × String)) (b : Option Branch) (r : Emitted × State)
      → May Gives (r.1.names v) b
      → Named old r.1.names
      → MayCalled v args dbg r.0
      → MayCalled v args dbg (take_branch v args dbg b r).0
  unfolding take_branch
  take_branch-MayCalled v args dbg none (e, s) m h c = c
  take_branch-MayCalled v args dbg (some (replace n k)) (e, s) (o, l) h c =
      inr (n, (subst (λ name. overload_of name ≡ some n) (first_name s.names v n h o) o, l), refl)
  take_branch-MayCalled v args dbg (some (rename n k)) (e, s) m h c = c
  take_branch-MayCalled v args dbg (some (rename_uncounted n)) (e, s) m h c = c
  take_branch-MayCalled v args dbg (some (count_only k)) (e, s) m h c = c

  -- What a step does to a call, and to the names.
  abbrev pub Good : ℕ → List ℕ → Option (ℕ × String) → Emitted × State → Type 0
  Good callee args dbg (e, s) = MayCalled callee args dbg e × Named old s.names

  take_prefix-Good :
      (prefix : String) (k : Counter) (chain : Chain) (callee : ℕ) (args : List ℕ)
      (dbg : Option (ℕ × String)) (r : Emitted × State)
      → AllBranches Gives chain
      → Good callee args dbg r
      → Good callee args dbg (take_prefix prefix k chain callee args dbg r)
  unfolding take_prefix
  take_prefix-Good prefix k chain callee args dbg (e, s) a (c, h) =
      go (starts_with (s.names callee) prefix)
    where
      m : May Gives (s.names callee) (first_match (s.names callee) chain)
      m = first_match-May Gives (s.names callee) chain a

      go :
          (t : Bool)
          → Good callee args dbg (
              if t
              then take_branch callee args dbg (first_match (s.names callee) chain) (e, count k s)
              else (e, s))
      go true = (
        take_branch-MayCalled callee args dbg _ (e, count k s) m h c,
        take_branch-Named callee args dbg _ (e, count k s) m h,
      )
      go false = (c, h)

  pub call_step-Good :
      (callee : ℕ) (args : List ℕ) (dbg : Option (ℕ × String)) (s : State)
      → Named old s.names
      → Good callee args dbg (call_step callee args dbg s)
  unfolding call_step
  call_step-Good callee args dbg s h =
      take_prefix-Good "MPIX_" count_mpix c_notify_overloads callee args dbg _ c_notify_given
        (take_prefix-Good "MPI_" count_mpi c_overloads callee args dbg _ c_given (inl refl, h))

  -- A routine of which calls are replaced keeps its name.
  kept_name :
      (new : ℕ → String) (v : ℕ)
      → Named old new
      → listed (old v) replaced_routines ≡ true
      → new v ≡ old v
  kept_name new v h l = elim (h v) [ inl e ↦ e | inr r ↦ absurd (false≢true (sym r.2 ∙ l)) ]

  abbrev IsReplaced : Emitted → Type 0
  IsReplaced (kept i) = ⊥
  IsReplaced (handler n a s l f) = Unit
  IsReplaced (replaced n args f l) = Unit

  module _ (callee : ℕ) (args : List ℕ) (dbg : Option (ℕ × String)) (s : State) where
    call_step-get : s.names callee ≡ "MPI_Get" → IsReplaced (call_step callee args dbg s).0
    unfolding call_step take_prefix take_branch first_match
    call_step-get e = rw e (rw e tt)

    call_step-put : s.names callee ≡ "MPI_Put" → IsReplaced (call_step callee args dbg s).0
    unfolding call_step take_prefix take_branch first_match
    call_step-put e = rw e (rw e tt)

    call_step-put_notify :
        s.names callee ≡ "MPIX_Put_notify" → IsReplaced (call_step callee args dbg s).0
    unfolding call_step take_prefix take_branch first_match
    call_step-put_notify e = rw e (rw e tt)

    call_step-get_notify :
        s.names callee ≡ "MPIX_Get_notify" → IsReplaced (call_step callee args dbg s).0
    unfolding call_step take_prefix take_branch first_match
    call_step-get_notify e = rw e (rw e tt)

    call_step-IsReplaced :
        listed (s.names callee) replaced_routines ≡ true
        → IsReplaced (call_step callee args dbg s).0
    call_step-IsReplaced l = elim (replaced_routines-cases (s.names callee) l) [
      | inl e ↦ call_step-get e
      | inr (inl e) ↦ call_step-put e
      | inr (inr (inl e)) ↦ call_step-put_notify e
      | inr (inr (inr e)) ↦ call_step-get_notify e
    ]

    pub call_step-Called :
        Named old s.names → Called callee args dbg (call_step callee args dbg s).0
    call_step-Called h =
        go (listed (old callee) replaced_routines) refl (call_step-Good callee args dbg s h).0
      where
        e : Emitted
        e = (call_step callee args dbg s).0

        go :
            (t : Bool)
            → listed (old callee) replaced_routines ≡ t
            → MayCalled callee args dbg e
            → Called callee args dbg e
        go t p (inr r) = inr r
        go false p (inl k) = inl (k, p)
        go true p (inl k) = absurd (
            subst IsReplaced k (
              call_step-IsReplaced
                (ap (λ n. listed n replaced_routines) (kept_name s.names callee h p) ∙ p)))
