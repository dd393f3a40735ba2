-- ===== src/Analyzer/Tags.antt =====
-- The tags of src/core/rma_analyzer.c: which range a window gets, and when it is given back.
use parcoach_rma.Common.{
  ℕ, zero, suc, ◌+◌, ◌-◌, ◌*◌, ◌/◌, ◌<◌, ◌≡◌, ◌≢◌, refl, sym, ◌∙◌, ap, none, some, List, [], ◌∷◌,
  pos, negsuc, ◌+ℤ◌, ◌-ℤ◌, pos_part, length, set, arith,
}
use parcoach_rma.Analyzer.State.{base_mpi_tag, max_epoch_number}
use parcoach_rma.Analyzer.Window.{
  first_free, rma_analyzer_get_tag_range_id, tag_of_range, div_int, rma_analyzer_free_tag_range,
}

-- Every entry is in use.
abbrev pub AllUsed : List ℕ → Type 0
AllUsed [] = Unit
AllUsed (used ∷ rest) = (used ≢ 0) × AllUsed rest

-- The range with this index is the first one that is not in use.
abbrev pub FirstFree : List ℕ → ℕ → Type 0
FirstFree [] i = ⊥
FirstFree (used ∷ rest) zero = used ≡ 0
FirstFree (used ∷ rest) (suc i) = (used ≢ 0) × FirstFree rest i

first_free-none : (i : ℕ) (ids : List ℕ) → AllUsed ids → first_free i ids ≡ none
unfolding first_free
first_free-none i [] a = refl
first_free-none i (used ∷ rest) (n, a) = ground (arith, first_free-none (suc i) rest a)

first_free-some : (i j : ℕ) (ids : List ℕ) → FirstFree ids j → first_free i ids ≡ some (i + j)
unfolding first_free
first_free-some i zero [] f = absurd f
first_free-some i (suc j) [] f = absurd f
first_free-some i zero (used ∷ rest) f = ground arith
first_free-some i (suc j) (used ∷ rest) (n, f) = ground (arith, first_free-some (suc i) j rest f)

first_free_lem : (ids : List ℕ) (i : ℕ) → FirstFree ids i → first_free 0 ids ≡ some i
first_free_lem ids i f = first_free-some 0 i ids f ∙ ap some (omega arith)

set_restores : (ids : List ℕ) (i : ℕ) → FirstFree ids i → set (set ids i 1) i 0 ≡ ids
set_restores [] i f = refl
set_restores (used ∷ rest) zero f = ap (λ u. u ∷ rest) (sym f)
set_restores (used ∷ rest) (suc i) (n, f) = ap (λ l. used ∷ l) (set_restores rest i f)

FirstFree-lt : (ids : List ℕ) (i : ℕ) → FirstFree ids i → i < length (set ids i 1)
FirstFree-lt [] i f = absurd f
FirstFree-lt (used ∷ rest) zero f = omega arith
FirstFree-lt (used ∷ rest) (suc i) (n, f) = omega (arith, FirstFree-lt rest i f)

quotient : (i : ℕ) → (base_mpi_tag + max_epoch_number * i - base_mpi_tag) / max_epoch_number ≡ i
quotient i = omega arith

range_of_tag : (i : ℕ) → div_int (tag_of_range (pos i) -ℤ pos base_mpi_tag) max_epoch_number ≡ pos i
unfolding div_int tag_of_range
range_of_tag i = ground (arith, quotient i)

pub freed_range :
    (ids : List ℕ) (i : ℕ)
    → i < length ids
    → rma_analyzer_free_tag_range ids (tag_of_range (pos i)) ≡ some (set ids i 0)
unfolding rma_analyzer_free_tag_range
freed_range ids i lt = rw (range_of_tag i, rma_analyzer_free_tag_range) (ground arith)

freed :
    (ids : List ℕ) (i : ℕ)
    → FirstFree ids i
    → rma_analyzer_free_tag_range (set ids i 1) (tag_of_range (pos i)) ≡ some ids
unfolding rma_analyzer_free_tag_range
freed ids i f =
    rw (range_of_tag i, rma_analyzer_free_tag_range)
      (ground (arith, FirstFree-lt ids i f, set_restores ids i f))

-- The first range that is not in use is taken, and giving back the tag of its window restores the
-- array.
pub free_tag_range-get_tag_range_id :
    (ids : List ℕ) (i : ℕ)
    → FirstFree ids i
    → (rma_analyzer_get_tag_range_id ids ≡ (pos i, set ids i 1))
      × (rma_analyzer_free_tag_range (set ids i 1) (tag_of_range (pos i)) ≡ some ids)
unfolding rma_analyzer_get_tag_range_id rma_analyzer_free_tag_range
free_tag_range-get_tag_range_id ids i f =
    (rw (first_free_lem ids i f, rma_analyzer_get_tag_range_id) refl, freed ids i f)

below_ranges : (ids : List ℕ) → rma_analyzer_free_tag_range ids (tag_of_range (negsuc 0)) ≡ none
unfolding rma_analyzer_free_tag_range tag_of_range div_int
below_ranges ids = refl

-- With every range in use, a window gets the tag that lies a range below the first one, the array
-- is left alone, and giving the tag back writes outside of the array.
pub free_tag_range_exhausted :
    (ids : List ℕ)
    → AllUsed ids
    → let (id, after) = rma_analyzer_get_tag_range_id ids in
      (tag_of_range id ≡ pos (base_mpi_tag - max_epoch_number))
      × (after ≡ ids)
      × (rma_analyzer_free_tag_range after (tag_of_range id) ≡ none)
unfolding rma_analyzer_get_tag_range_id rma_analyzer_free_tag_range tag_of_range
free_tag_range_exhausted ids a =
    rw (first_free-none 0 ids a, rma_analyzer_get_tag_range_id) (refl, refl, below_ranges ids)

-- Windows with different ranges use different tags, in epochs whose numbers are below 1024.
pub tag_of_range_ne :
    (i j d e : ℕ)
    → i ≢ j
    → d < max_epoch_number
    → e < max_epoch_number
    → tag_of_range (pos i) +ℤ pos d ≢ tag_of_range (pos j) +ℤ pos e
unfolding tag_of_range
tag_of_range_ne i j d e n ld le same =
    let parts : base_mpi_tag + max_epoch_number * i + d ≡ base_mpi_tag + max_epoch_number * j + e =
      ground (arith, ap pos_part same) in
    n (omega arith)
