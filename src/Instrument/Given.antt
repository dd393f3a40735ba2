-- ===== src/Instrument/Given.antt =====
-- The names that the chains of the pass give: the overload of
-- the routine whose name is compared.
use Prim.Native.String.{String}
use Prim.Native.String.{◌++◌ as str_append}
use mathlib.Core.Path.{subst}
use mathlib.Core.Bool.{false≢true}
use mathlib.Core.Option.{some-injective}
use text.Mathlib.Text.{◌==◌ as str_eq, starts_with}
use text.Mathlib.TextEquality.{eq_iff}
use parcoach_rma.Common.{
  ℕ, zero, suc, ◌≡◌, ◌⊎◌, refl, sym, ◌∙◌, ap, ◌||◌, ◌&&◌, arith, Bool, true, false, Option, none,
  some, List, [], ◌∷◌, if◌then◌else◌,
}
use parcoach_rma.Instrument.Tables.{
  Branch, replace, rename, rename_uncounted, count_only, Chain, first_match, fort_overloads,
  fort_notify_overloads, c_overloads, c_notify_overloads,
}
use parcoach_rma.Instrument.Provided.{listed, c_provided, provided}

abbrev drop : ℕ → String → String
drop zero s = s
drop (suc n) String.[] = String.[]
drop (suc n) (String.◌∷◌ c s) = drop n s

-- The name of the overload of a routine of MPI: `new_` in place of the prefix.
abbrev pub overload_of : String → Option String
overload_of name =
    if starts_with name "MPI_" || starts_with name "mpi_"
    then some (str_append "new_" (drop 4 name))
    else if starts_with name "MPIX_" || starts_with name "mpix_"
    then some (str_append "new_" (drop 5 name))
    else none

-- The routines of which calls are replaced.
abbrev pub replaced_routines : List String
replaced_routines = "MPI_Get" ∷ "MPI_Put" ∷ "MPIX_Put_notify" ∷ "MPIX_Get_notify" ∷ []

-- The second name is that of the overload of the first, of which no calls are replaced, and
-- src/static/lib defines it, unless the first is mpi_fence_.
abbrev pub Renamed : String → String → Type 0
Renamed name n =
    (overload_of name ≡ some n)
    × ((listed n provided || str_eq name "mpi_fence_") ≡ true)
    × (listed name replaced_routines ≡ false)

-- The second name is that of the overload of the first, in C.
abbrev pub Replaced : String → String → Type 0
Replaced name n = (overload_of name ≡ some n) × (listed n c_provided ≡ true)

-- What a branch gives to a function with this name.
abbrev pub Gives : String → Branch → Type 0
Gives name (replace n k) = Replaced name n
Gives name (rename n k) = Renamed name n
Gives name (rename_uncounted n) = Renamed name n
Gives name (count_only k) = Unit

-- The branch replaces no call.
abbrev pub OnlyRenames : String → Branch → Type 0
OnlyRenames name (replace n k) = ⊥
OnlyRenames name (rename n k) = Unit
OnlyRenames name (rename_uncounted n) = Unit
OnlyRenames name (count_only k) = Unit

module _ (P : String → Branch → Type 0) where
  abbrev pub AllBranches : Chain → Type 0
  AllBranches [] = Unit
  AllBranches ((n, b) ∷ rest) = P n b × AllBranches rest

  abbrev pub May : String → Option Branch → Type 0
  May name none = Unit
  May name (some b) = P name b

  pub first_match-May :
      (name : String) (chain : Chain) → AllBranches chain → May name (first_match name chain)
  unfolding first_match
  first_match-May name [] a = tt
  first_match-May name ((n, b) ∷ rest) (g, a) =
      go (str_eq name n) (λ e. subst (λ m. P m b) (sym ((eq_iff name n).0 e)) g)
        (first_match-May name rest a)
    where
      go :
          (t : Bool)
          → (t ≡ true → P name b)
          → May name (first_match name rest)
          → May name (if t then some b else first_match name rest)
      go true p m = p refl
      go false p m = m

pub fort_given : AllBranches Gives fort_overloads
fort_given = (
  (refl, refl, refl),
  (
    (refl, refl, refl),
    (
      (refl, refl, refl),
      (
        (refl, refl, refl),
        (
          (refl, refl, refl),
          (
            (refl, refl, refl),
            (
              (refl, refl, refl),
              (
                (refl, refl, refl),
                (
                  (refl, refl, refl),
                  ((refl, refl, refl), ((refl, refl, refl), ((refl, refl, refl), tt))),
                ),
              ),
            ),
          ),
        ),
      ),
    ),
  ),
)

pub fort_notify_given : AllBranches Gives fort_notify_overloads
fort_notify_given = ((refl, refl, refl), ((refl, refl, refl), ((refl, refl, refl), tt)))

pub c_given : AllBranches Gives c_overloads
c_given = (
  (refl, refl),
  (
    (refl, refl),
    (
      (refl, refl, refl),
      (
        (refl, refl, refl),
        (
          tt,
          (
            (refl, refl, refl),
            (
              (refl, refl, refl),
              (
                (refl, refl, refl),
                ((refl, refl, refl), ((refl, refl, refl), ((refl, refl, refl), tt))),
              ),
            ),
          ),
        ),
      ),
    ),
  ),
)

pub c_notify_given : AllBranches Gives c_notify_overloads
c_notify_given = (
  (refl, refl),
  ((refl, refl), ((refl, refl, refl), ((refl, refl, refl), ((refl, refl, refl), tt)))),
)

pub fort_renames : AllBranches OnlyRenames fort_overloads
fort_renames = (tt, (tt, (tt, (tt, (tt, (tt, (tt, (tt, (tt, (tt, (tt, (tt, tt))))))))))))

pub fort_notify_renames : AllBranches OnlyRenames fort_notify_overloads
fort_notify_renames = (tt, (tt, (tt, tt)))

abbrev is_none : Option String → Bool
is_none none = true
is_none (some n) = false

abbrev all_plain : List String → Bool
all_plain [] = true
all_plain (n ∷ l) = is_none (overload_of n) && all_plain l

is_none-and : (o : Option String) (b : Bool) → (is_none o && b) ≡ true → (o ≡ none) × (b ≡ true)
is_none-and none b e = (refl, e)
is_none-and (some n) b e = absurd (false≢true e)

-- No overload has an overload itself.
listed-plain :
    (l : List String) → all_plain l ≡ true → (n : String) → listed n l ≡ true → overload_of n ≡ none
listed-plain [] a n e = absurd (false≢true e)
listed-plain (m ∷ l) pa n e =
    let (p, a) = is_none-and (overload_of m) (all_plain l) pa in
    go (str_eq n m) (λ q. ap overload_of ((eq_iff n m).0 q) ∙ p) (listed-plain l a n) e
  where
    go :
        (t : Bool)
        → (t ≡ true → overload_of n ≡ none)
        → (listed n l ≡ true → overload_of n ≡ none)
        → (if t then true else listed n l) ≡ true
        → overload_of n ≡ none
    go true f g e = f refl
    go false f g e = g e

provided-plain : all_plain provided ≡ true
provided-plain = refl

pub Renamed-plain : (name n : String) → Renamed name n → overload_of n ≡ none
Renamed-plain name n (o, l, r) =
    go (listed n provided) (str_eq name "mpi_fence_") (listed-plain provided provided-plain n)
      (λ q.
        let name_eq = (eq_iff name "mpi_fence_").0 q in
        ap overload_of (sym (some-injective "new_fence_" n (ap overload_of (sym name_eq) ∙ o))))
      l
  where
    go :
        (t u : Bool)
        → (t ≡ true → overload_of n ≡ none)
        → (u ≡ true → overload_of n ≡ none)
        → (t || u) ≡ true
        → overload_of n ≡ none
    go true u f g e = f refl
    go false u f g e = g e

pub replaced_routines-cases :
    (name : String)
    → listed name replaced_routines ≡ true
    → (name ≡ "MPI_Get")
      ⊎ ((name ≡ "MPI_Put") ⊎ ((name ≡ "MPIX_Put_notify") ⊎ (name ≡ "MPIX_Get_notify")))
replaced_routines-cases name e = ground (
  arith,
  e,
  eq_iff name "MPI_Get",
  eq_iff name "MPI_Put",
  eq_iff name "MPIX_Put_notify",
  eq_iff name "MPIX_Get_notify",
)
