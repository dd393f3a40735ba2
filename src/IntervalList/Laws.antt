-- ===== src/IntervalList/Laws.antt =====
-- What the operations of the list do, and what the search through it reports.
use parcoach_rma.Common.{
  ◌≡◌, refl, ap, true, ◌↔◌, ◌⊎◌, inl, inr, List, [], ◌∷◌, ◌++◌, arith, Bool-cases,
}
use parcoach_rma.Interval.{Interval, if_intersects}
use parcoach_rma.IntervalList.{
  live, remove_interval_tail, cut_last, free_interval_list, if_intersects_interval_list,
}

-- A link of the list intersects the interval.
abbrev pub Meets : Interval → List Interval → Type 0
Meets itv [] = ⊥
Meets itv (link ∷ rest) = (if_intersects itv link ≡ true) ⊎ Meets itv rest

-- The search reports an interval exactly if one of the list's intervals conflicts with it.
pub if_intersects_interval_list_iff :
    (itv : Interval) (list : List Interval)
    → (if_intersects_interval_list itv list ≡ true) ↔ Meets itv list
unfolding if_intersects_interval_list
if_intersects_interval_list_iff itv [] = ((λ h. cc), λ h. absurd h)
if_intersects_interval_list_iff itv (link ∷ rest) =
    let (there, back) = if_intersects_interval_list_iff itv rest in
    elim (Bool-cases (if_intersects itv link)) [
      | inl hit ↦ ((λ h. inl hit), λ h. ground arith)
      | inr miss ↦ ((λ h. inr (there (ground arith))), λ h. ground (arith, back))
    ]

cut_last_lem :
    (link : Interval) (rest : List Interval) (last : Interval)
    → cut_last link (rest ++ (last ∷ [])) ≡ link ∷ rest
unfolding cut_last
cut_last_lem link [] last = refl
cut_last_lem link (next ∷ rest) last = ap (λ l. link ∷ l) (cut_last_lem next rest last)

-- Removing the tail of a list of two links or more takes its last link away.
pub remove_interval_tail_lem :
    (first : Interval) (middle : List Interval) (last : Interval)
    → remove_interval_tail (first ∷ (middle ++ (last ∷ []))) ≡ live (first ∷ middle)
unfolding remove_interval_tail
remove_interval_tail_lem first [] last = refl
remove_interval_tail_lem first (next ∷ rest) last =
    ap (λ l. live (first ∷ l)) (cut_last_lem next rest last)

-- Freeing ends with the empty list.
pub free_interval_list-eq-nil : (list : List Interval) → free_interval_list list ≡ []
unfolding free_interval_list
free_interval_list-eq-nil [] = refl
free_interval_list-eq-nil (itv ∷ next) = free_interval_list-eq-nil next
