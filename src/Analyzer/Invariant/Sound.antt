-- ===== src/Analyzer/Invariant/Sound.antt =====
-- The invariant of a window's state: its trees are in search order, and it has a counter for each
-- process.
use parcoach_rma.Common.{◌≡◌, ℤ, length}
use parcoach_rma.Interval.{Interval}
use parcoach_rma.Avl.{null}
use parcoach_rma.Avl.Order.{IsOrdered}
use parcoach_rma.Avl.Search.{insert-IsOrdered, delete-IsOrdered}
use parcoach_rma.IntervalTree.{interval_keys, insert_interval_tree, delete_interval_tree}
use parcoach_rma.NotifTree.{notif_keys, new_notif, insert_notif_tree, delete_notif_tree}
use parcoach_rma.Analyzer.State.{WinState}
use parcoach_rma.Analyzer.Invariant.Routines.{KeepsTrees}

-- Both trees of a window are in search order, and there is a counter for each process.
pub record IsSound (x : WinState) : Type 0 where
  pub ordered : IsOrdered interval_keys x.local_tree
  pub notified : IsOrdered notif_keys x.notif_tree
  pub counters : length x.array ≡ x.size_comm

-- A sound state with other trees is sound.
module _ {x : WinState} (s : IsSound x) where
  with_notif :
      (itv : Interval) → IsSound (record x { notif_tree = insert_notif_tree x.notif_tree itv })
  unfolding insert_notif_tree
  with_notif itv = record {
    ordered = s.ordered;
    notified = insert-IsOrdered notif_keys x.notif_tree (new_notif itv) s.notified;
    counters = s.counters;
  }

  with_interval :
      (itv : Interval) → IsSound (record x { local_tree = insert_interval_tree x.local_tree itv })
  unfolding insert_interval_tree
  with_interval itv = record {
    ordered = insert-IsOrdered interval_keys x.local_tree itv s.ordered;
    notified = s.notified;
    counters = s.counters;
  }

  without_interval :
      (itv : Interval) → IsSound (record x { local_tree = delete_interval_tree x.local_tree itv })
  unfolding delete_interval_tree
  without_interval itv = record {
    ordered = delete-IsOrdered interval_keys x.local_tree _ s.ordered;
    notified = s.notified;
    counters = s.counters;
  }

  without_notif : (k : ℤ) → IsSound (record x { notif_tree = delete_notif_tree x.notif_tree k })
  unfolding delete_notif_tree
  without_notif k = record {
    ordered = s.ordered;
    notified = delete-IsOrdered notif_keys x.notif_tree k s.notified;
    counters = s.counters;
  }

  with_null : IsSound (record x { local_tree = null })
  with_null = record { ordered = tt; notified = s.notified; counters = s.counters }

pub sound_trees : KeepsTrees IsSound
sound_trees = record {
  with_interval = λ x s itv. with_interval s itv;
  without_interval = λ x s itv. without_interval s itv;
  with_null = λ x s. with_null s;
  with_notif = λ x s itv. with_notif s itv;
  without_notif = λ x s k. without_notif s k;
}
