-- ===== src/IntervalTree/Overlap.antt =====
-- What `overlap_search` finds, when it finds every conflict, and which conflicts it misses.
use parcoach_rma.Common.{
  ℕ, ◌<◌, ◌≡◌, refl, sym, ◌∙◌, true, false, ◌⊎◌, ◌↔◌, inl, inr, none, some, arith, Bool-cases,
}
use native.Mathlib.Decide.{dec_lt}
use parcoach_rma.Interval.{rma_write, Interval, if_intersects, check_access_rights}
use parcoach_rma.Interval.Conflict.{IsProper, check_access_rights_iff}
use parcoach_rma.Avl.{null, node}
use parcoach_rma.Avl.Entries.{All, All-imp}
use parcoach_rma.Avl.Find.{Holds}
use parcoach_rma.IntervalTree.{IntervalTree, overlap_search}

module _ (top : Interval) (left right : IntervalTree) (h size : ℕ) (i : Interval) where
  search_hit : if_intersects top i ≡ true → overlap_search (node top left right h size) i ≡ some top
  unfolding overlap_search
  search_hit e = ground arith

  search_left :
      if_intersects top i ≡ false
      → i.low_bound < top.low_bound
      → overlap_search (node top left right h size) i ≡ overlap_search left i
  unfolding overlap_search
  search_left e lt = ground arith

  search_right :
      if_intersects top i ≡ false
      → top.low_bound < i.low_bound
      → overlap_search (node top left right h size) i ≡ overlap_search right i
  unfolding overlap_search
  search_right e gt = ground arith

  search_same :
      if_intersects top i ≡ false
      → top.low_bound ≡ i.low_bound
      → overlap_search (node top left right h size) i ≡ none
  unfolding overlap_search
  search_same e same = ground arith

-- What the search finds stands in the tree and conflicts with the interval.
pub overlap_search_sound :
    (t : IntervalTree) (i : Interval) {j : Interval}
    → overlap_search t i ≡ some j
    → Holds j t × (if_intersects j i ≡ true)
unfolding overlap_search
overlap_search_sound null i e = cc
overlap_search_sound (node top left right h size) i {j} e =
    elim (Bool-cases (if_intersects top i)) [
      | inl hit ↦
          let same : j ≡ top = cc (search_hit top left right h size i hit) in
          (inl same, rw same hit)
      | inr miss ↦ elim (dec_lt i.low_bound top.low_bound) [
        | yes lt ↦
            let (held, meets) =
              overlap_search_sound left i (sym (search_left top left right h size i miss lt) ∙ e) in
            (inr (inl held), meets)
        | no ge ↦ elim (dec_lt top.low_bound i.low_bound) [
          | yes gt ↦
              let (held, meets) =
                overlap_search_sound right i
                  (sym (search_right top left right h size i miss gt) ∙ e) in
              (inr (inr held), meets)
          | no le ↦ cc (search_same top left right h size i miss (omega arith))
        ]
      ]
    ]

-- The intervals of the tree are proper, and each ends before the next one begins.
abbrev pub IsApart : IntervalTree → Type 0
IsApart null = Unit
IsApart (node top left right h size) =
    IsProper top
    × All (λ e. e.up_bound < top.low_bound) left
    × All (λ e. top.up_bound < e.low_bound) right
    × IsApart left
    × IsApart right

-- Every access of the tree races with one of the type of `i` where they share an address.
abbrev pub AllRace : Interval → IntervalTree → Type 0
AllRace i t = All (λ e. check_access_rights e i ≡ true) t

-- No interval of the tree conflicts with `i`.
abbrev pub NoConflict : Interval → IntervalTree → Type 0
NoConflict i t = All (λ e. if_intersects e i ≡ false) t

beyond : (i e : Interval) → i.up_bound < e.low_bound → if_intersects e i ≡ false
unfolding if_intersects
beyond i e lt = ground arith

behind : (i e : Interval) → e.up_bound < i.low_bound → if_intersects e i ≡ false
unfolding if_intersects
behind i e lt = ground arith

-- Where the access rights race, a miss says that the intervals lie apart.
apart_of_miss :
    (top i : Interval)
    → check_access_rights top i ≡ true
    → if_intersects top i ≡ false
    → (i.up_bound < top.low_bound) ⊎ (top.up_bound < i.low_bound)
unfolding if_intersects
apart_of_miss top i r miss = ground arith

-- In a tree of proper intervals that lie apart, the search for a proper interval whose access
-- races with every access of the tree finds nothing only if no interval of the tree conflicts
-- with it.
pub overlap_search_complete :
    (t : IntervalTree) (i : Interval)
    → IsApart t
    → AllRace i t
    → IsProper i
    → overlap_search t i ≡ none
    → NoConflict i t
overlap_search_complete null i a r p e = tt
overlap_search_complete (node top left right h size) i (pt, b, f, al, ar) (rt, rl, rr) p e =
    elim (Bool-cases (if_intersects top i)) [
      | inl hit ↦ cc (search_hit top left right h size i hit)
      | inr miss ↦ elim (apart_of_miss top i rt miss) [
        | inl below ↦ (
          miss,
          overlap_search_complete left i al rl p
              (sym (search_left top left right h size i miss (omega arith)) ∙ e),
          All-imp (λ x q. beyond i x (omega arith)) right f,
        )
        | inr above ↦ (
          miss,
          All-imp (λ x q. behind i x (omega arith)) left b,
          overlap_search_complete right i ar rr p
              (sym (search_right top left right h size i miss (omega arith)) ∙ e),
        )
      ]
    ]

AllRace-rma_write : (i : Interval) (t : IntervalTree) → i.access_type ≡ rma_write → AllRace i t
AllRace-rma_write i null e = tt
AllRace-rma_write i (node top left right h size) e = (
  (check_access_rights_iff top i).1 (rw e (inr tt), rw e (inr tt)),
  AllRace-rma_write i left e,
  AllRace-rma_write i right e,
)

NoConflict-search : (t : IntervalTree) (i : Interval) → NoConflict i t → overlap_search t i ≡ none
unfolding overlap_search
NoConflict-search null i n = refl
NoConflict-search (node top left right h size) i (miss, nl, nr) =
    elim (dec_lt i.low_bound top.low_bound) [
      | yes lt ↦ search_left top left right h size i miss lt ∙ NoConflict-search left i nl
      | no ge ↦ elim (dec_lt top.low_bound i.low_bound) [
        | yes gt ↦ search_right top left right h size i miss gt ∙ NoConflict-search right i nr
        | no le ↦ search_same top left right h size i miss (omega arith)
      ]
    ]

-- In a tree of proper intervals that lie apart, the search for a proper interval with a remote
-- write finds nothing exactly if no interval of the tree conflicts with it.
pub overlap_search-rma_write_iff :
    (t : IntervalTree) (i : Interval)
    → IsApart t
    → IsProper i
    → i.access_type ≡ rma_write
    → (overlap_search t i ≡ none) ↔ NoConflict i t
overlap_search-rma_write_iff t i a p w =
    (overlap_search_complete t i a (AllRace-rma_write i t w) p, NoConflict-search t i)
