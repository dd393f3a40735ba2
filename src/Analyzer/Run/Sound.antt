-- ===== src/Analyzer/Run/Sound.antt =====
-- Every state that calls lead to has search trees and one counter for each process.
use mathlib.Core.Path.{subst}
use parcoach_rma.Common.{ℕ, ◌≡◌, Bool, List}
use parcoach_rma.Interval.{Interval}
use parcoach_rma.Analyzer.State.{StateTable, Outcome, ok, World, M}
use parcoach_rma.Analyzer.Thread.{thread_waiting}
use parcoach_rma.Analyzer.Invariant.{Lands, Everywhere, Keeps, bind-Keeps, pure-Keeps}
use parcoach_rma.Analyzer.Invariant.Sound.{IsSound, sound_trees}
use parcoach_rma.Analyzer.Invariant.Routines.{
  save_interval_all_wins-Keeps, clear_from_notif_id-Keeps,
}
use parcoach_rma.Analyzer.Invariant.Epochs.{
  init-Keeps, clear-Keeps, check_communication-Keeps, after_reception-Keeps,
}
use parcoach_rma.Analyzer.Invariant.Windows.{
  init_all_wins-Keeps, clear_all_wins-Keeps, update_on_comm_send-Keeps, start-Lands, stop-Keeps,
}
use parcoach_rma.Analyzer.Run.{
  receive_one, Step, Reach, local_access, communication, reception, epoch_begin, epoch_end,
  all_begin, all_end, window_start, window_stop, notification, begin, next,
}

module _ {table : StateTable} where
  landed :
      {A : Type 0} (P : A → World table → Type 0) {o : Outcome (A × World table)} {a : A}
      {w : World table}
      → Lands P o
      → o ≡ ok (a, w)
      → P a w
  landed P l e = subst (Lands P) e l

  pub kept :
      {A : Type 0} {m : M table A} {a : A} {w w' : World table}
      → Keeps IsSound m
      → m w ≡ ok (a, w')
      → Everywhere IsSound w
      → Everywhere IsSound w'
  kept k e v = landed (λ _ w. Everywhere IsSound w) (k.at _ v) e

module _ {table : StateTable} (notified : Bool) where
  pub receive_one-Keeps :
      (win : ℕ) (incoming : List Interval)
      → Keeps IsSound (receive_one {table = table} notified win incoming)
  unfolding receive_one
  receive_one-Keeps win incoming =
      bind-Keeps _ _ (check_communication-Keeps notified win incoming)
        (λ r. after_reception-Keeps notified win incoming _ r (pure-Keeps thread_waiting))

  Step-Everywhere :
      {w w' : World table} → Step notified w w' → Everywhere IsSound w → Everywhere IsSound w'
  Step-Everywhere (local_access address size access line name e) =
      kept (save_interval_all_wins-Keeps sound_trees notified address size access line name) e
  Step-Everywhere (communication a s d z r here there id line name win e) =
      kept (update_on_comm_send-Keeps notified a s d z r here there id line name win) e
  Step-Everywhere (reception win incoming end e) = kept (receive_one-Keeps win incoming) e
  Step-Everywhere (epoch_begin win e) = kept (init-Keeps notified win) e
  Step-Everywhere (epoch_end do_reduce total incoming win e) =
      kept (clear-Keeps notified do_reduce total incoming win) e
  Step-Everywhere (all_begin e) = kept (init_all_wins-Keeps notified) e
  Step-Everywhere (all_end do_reduce totals incomings e) =
      kept (clear_all_wins-Keeps notified do_reduce totals incomings) e
  Step-Everywhere (window_start base size comm size_comm array win lang env l new e) = λ v.
      landed (λ _ w. Everywhere IsSound w)
        (start-Lands notified base size comm size_comm array win lang env _ l new v) e
  Step-Everywhere (window_stop win e) = kept (stop-Keeps notified win) e
  Step-Everywhere (notification win id e) =
      kept (clear_from_notif_id-Keeps sound_trees notified win id) e

  -- Whatever calls return in whatever order from the initial state on, if each window that is
  -- started is a new one, both trees of every window are in search order and there is a counter
  -- for each process.
  pub Reach-Everywhere : {w : World table} → Reach notified w → Everywhere IsSound w
  Reach-Everywhere begin = λ win x e. cc (table.find-nothing win)
  Reach-Everywhere (next r s) = Step-Everywhere s (Reach-Everywhere r)
