-- ===== src/IntervalList.antt =====
-- src/core/interval_list.c: the linked list of intervals, the alternative to the tree.
pub mod Laws
use parcoach_rma.Common.{ℕ, suc, ◌+◌, Bool, true, false, List, [], ◌∷◌, if◌then◌else◌}
use parcoach_rma.Interval.{Interval, if_intersects}

-- What the variable that holds the list's head points to after an operation that frees links.
pub data Head : Type 0 where
  live : List Interval → Head
  dangling : Head

unfoldable pub create_interval_list : List Interval
create_interval_list = []

unfoldable pub is_empty_list : List Interval → Bool
is_empty_list [] = true
is_empty_list (itv ∷ next) = false

unfoldable pub interval_list_size : List Interval → ℕ
interval_list_size [] = 0
interval_list_size (itv ∷ next) = 1 + interval_list_size next

unfoldable pub insert_interval_head : List Interval → Interval → List Interval
insert_interval_head list itv = itv ∷ list

unfoldable pub remove_interval_head : List Interval → List Interval
remove_interval_head [] = []
remove_interval_head (itv ∷ next) = next

-- `while(*li_inter != NULL) remove_interval_head(li_inter)`.
unfoldable pub free_interval_list : List Interval → List Interval
free_interval_list [] = []
free_interval_list (itv ∷ next) = free_interval_list next

-- The list up to its second last link, from a link and those behind it.
unfoldable pub cut_last : Interval → List Interval → List Interval
cut_last link [] = []
cut_last link (next ∷ rest) = link ∷ cut_last next rest

-- A single link is freed, and the head is left pointing to it.
unfoldable pub remove_interval_tail : List Interval → Head
unfolding cut_last
remove_interval_tail [] = live []
remove_interval_tail (itv ∷ []) = dangling
remove_interval_tail (itv ∷ next ∷ rest) = live (itv ∷ cut_last next rest)

unfoldable pub if_intersects_interval_list : Interval → List Interval → Bool
if_intersects_interval_list itv [] = false
if_intersects_interval_list itv (link ∷ rest) =
    if if_intersects itv link then true else if_intersects_interval_list itv rest
