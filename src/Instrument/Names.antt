-- ===== src/Instrument/Names.antt =====
-- What the pass leaves of a program: the overload of a routine of MPI stands for it.
use Prim.Native.String.{String}
use text.Mathlib.Text.{starts_with}
use parcoach_rma.Common.{
  ℕ, ◌≡◌, refl, ◌∙◌, ap, inl, Bool, true, false, Option, none, some, List, [], ◌∷◌, ◌++◌,
  if◌then◌else◌,
}
use parcoach_rma.Instrument.Tables.{
  Chain, first_match, fort_overloads, fort_notify_overloads, count_mpi, count_mpix,
}
use parcoach_rma.Instrument.{
  bit_cast, call, store, load, other, Located, Emitted, kept, handler, State, count, line_of,
  file_of, take_branch, notify_branch, bit_cast_step, instrument_one, instrument_mem_accesses,
}
use parcoach_rma.Instrument.Provided.{listed, provided}
use parcoach_rma.Instrument.Given.{
  Gives, OnlyRenames, AllBranches, first_match-May, fort_given, fort_notify_given, fort_renames,
  fort_notify_renames,
}
use parcoach_rma.Instrument.Overloads.{
  Named, Called, take_branch-Named, take_branch-kept, call_step-Good, call_step-Called,
}

module _ (old : ℕ → String) where
  -- What the pass leaves of an instruction: a call as above, a load or a store behind its handler,
  -- and anything else as it was.
  abbrev pub Left : Located → List Emitted → Type 0
  Left (bit_cast v, dbg) es = es ≡ kept (bit_cast v) ∷ []
  Left (call none args, dbg) es = es ≡ kept (call none args) ∷ []
  Left (call (some callee) args, dbg) es =
      (e : Emitted) × (es ≡ e ∷ []) × Called old callee args dbg e
  Left (store address size, dbg) es =
      es ≡ handler "STORE" address size (line_of dbg) (file_of dbg) ∷ kept (store address size) ∷ []
  Left (load address size, dbg) es =
      es ≡ handler "LOAD" address size (line_of dbg) (file_of dbg) ∷ kept (load address size) ∷ []
  Left (other, dbg) es = es ≡ kept other ∷ []

  -- What it leaves of the instructions, one after another.
  abbrev pub AllLeft : List Located → List Emitted → Type 0
  AllLeft [] es = es ≡ []
  AllLeft (i ∷ is) es =
      (here : List Emitted) × (there : List Emitted) × (es ≡ here ++ there)
      × Left i here
      × AllLeft is there

  -- A bit cast is kept.
  abbrev Cast : ℕ → Emitted × State → Type 0
  Cast operand (e, s) = (e ≡ kept (bit_cast operand)) × Named old s.names

  take_branch-Cast :
      (operand : ℕ) (dbg : Option (ℕ × String)) (chain : Chain) (r : Emitted × State)
      → AllBranches Gives chain
      → AllBranches OnlyRenames chain
      → Cast operand r
      → Cast operand (take_branch operand [] dbg (first_match (r.1.names operand) chain) r)
  take_branch-Cast operand dbg chain (e, s) a b (c, h) = (
    take_branch-kept old operand [] dbg _ (e, s)
          (first_match-May OnlyRenames (s.names operand) chain b)
        ∙ c,
    take_branch-Named old operand [] dbg _ (e, s) (first_match-May Gives (s.names operand) chain a)
        h,
  )

  notify_branch-Cast :
      (operand : ℕ) (dbg : Option (ℕ × String)) (r : Emitted × State)
      → Cast operand r
      → Cast operand (notify_branch operand dbg r)
  unfolding notify_branch
  notify_branch-Cast operand dbg (e, s) (c, h) = go (starts_with (s.names operand) "mpix_")
    where
      go :
          (t : Bool)
          → Cast operand (
              if t
              then (e, count count_mpix s)
              else take_branch operand [] dbg
                  (first_match (s.names operand) fort_notify_overloads)
                  (e, s))
      go true = (c, h)
      go false =
          take_branch-Cast operand dbg fort_notify_overloads (e, s) fort_notify_given
            fort_notify_renames (c, h)

  bit_cast_step-Cast :
      (operand : ℕ) (dbg : Option (ℕ × String)) (s : State)
      → Named old s.names
      → Cast operand (bit_cast_step operand dbg s)
  unfolding bit_cast_step
  bit_cast_step-Cast operand dbg s h =
      let s1 = if starts_with (s.names operand) "mpi_" then count count_mpi s else s in
      notify_branch-Cast operand dbg _ (
        take_branch-Cast operand dbg fort_overloads (kept (bit_cast operand), s1) fort_given
          fort_renames (refl, counted (starts_with (s.names operand) "mpi_")))
    where
      counted : (t : Bool) → Named old (if t then count count_mpi s else s).names
      counted true = h
      counted false = h

  instrument_one-Left :
      (i : Located) (s : State)
      → Named old s.names
      → Left i (instrument_one i s).0 × Named old (instrument_one i s).1.names
  unfolding instrument_one
  instrument_one-Left (bit_cast operand, dbg) s h =
      let (c, k) = bit_cast_step-Cast operand dbg s h in (ap (λ e. e ∷ []) c, k)
  instrument_one-Left (call none args, dbg) s h = (refl, h)
  instrument_one-Left (call (some callee) args, dbg) s h = (
    (_, refl, call_step-Called old callee args dbg s h),
    (call_step-Good old callee args dbg s h).1,
  )
  instrument_one-Left (store address size, dbg) s h = (refl, h)
  instrument_one-Left (load address size, dbg) s h = (refl, h)
  instrument_one-Left (other, dbg) s h = (refl, h)

  instrument_mem_accesses-Left :
      (is : List Located) (s : State)
      → Named old s.names
      → AllLeft is (instrument_mem_accesses is s).0
        × Named old (instrument_mem_accesses is s).1.names
  unfolding instrument_mem_accesses
  instrument_mem_accesses-Left [] s h = (refl, h)
  instrument_mem_accesses-Left (i ∷ rest) s h =
      let (c, k) = instrument_one-Left i s h in
      let (d, l) = instrument_mem_accesses-Left rest (instrument_one i s).1 k in
      ((_, _, refl, c, d), l)

-- Of the program that the pass leaves, a call of a function that was named MPI_Get, MPI_Put,
-- MPIX_Put_notify or MPIX_Get_notify is replaced by one of the overload, which has that name with
-- `new_` for the prefix and which src/static/lib defines for C. Another call is kept, or replaced
-- by one of the overload in that sense. A load or a store stands behind its handler, and anything
-- else is as it was. Each function keeps its name or gets that of the overload of the routine that
-- it named, which src/static/lib defines unless the routine is mpi_fence_; nothing there defines
-- new_fence_.
pub instrument_mem_accesses-Named :
    (is : List Located) (s : State)
    → AllLeft s.names is (instrument_mem_accesses is s).0
      × Named s.names (instrument_mem_accesses is s).1.names
      × (listed "new_fence_" provided ≡ false)
instrument_mem_accesses-Named is s =
    let (c, h) = instrument_mem_accesses-Left s.names is s (λ v. inl refl) in (c, h, refl)
