-- ===== src/Overload/Barrier.antt =====
-- What the overload of MPI_Barrier does to all windows.
use mathlib.Core.Path.{subst}
use parcoach_rma.Common.{
  ℕ, ◌≡◌, refl, ◌∙◌, ap, some, Bool, true, false, ◌&&◌, List, ltb, if◌then◌else◌,
}
use parcoach_rma.Interval.{Interval}
use parcoach_rma.Analyzer.State.{WinState, StateTable, World}
use parcoach_rma.Analyzer.Monad.{pure}
use parcoach_rma.Analyzer.Invariant.{Everywhere}
use parcoach_rma.Analyzer.Invariant.Sound.{IsSound}
use parcoach_rma.Analyzer.Broadcast.{AllDistinct}
use parcoach_rma.Analyzer.Restart.{begun, restart, is_among, AllFound, init_all_wins_lem}
use parcoach_rma.Analyzer.Barrier.{Synchronized}
use parcoach_rma.Analyzer.Barrier.Loop.{AllArrive, clear_all_wins_lem, AllFound-cleared}
use parcoach_rma.Analyzer.Protocol.{Settles, bind-Settles}
use parcoach_rma.Analyzer.Protocol.Reception.{Conflict}
use parcoach_rma.Analyzer.Protocol.Closing.{closed}
use parcoach_rma.Overload.Static.{new_barrier}

module _ {table : StateTable} (notified : Bool) (ret : ℕ) (totals : ℕ → ℕ)
    (incomings : ℕ → List Interval) where
  -- The window after a barrier, by whether it had an active epoch.
  abbrev pub Passed : Bool → ℕ → WinState → World table → Type 0
  Passed true v x w =
      (y : WinState) × (table.find w.state_htbl v
        ≡ some (begun (record (closed notified (totals v) x y) { from_sync = 1 })))
  Passed false v x w = table.find w.state_htbl v ≡ some (restart x)

  passed :
      (b : Bool) (v : ℕ) (x : WinState) (w u : World table)
      → ((z : WinState)
          → table.find w.state_htbl v ≡ some z
          → table.find u.state_htbl v ≡ some (restart z))
      → Synchronized notified totals incomings b v x w
      → Passed b v x u
  unfolding restart
  passed true v x w u k (y, f) = (y, k _ f)
  passed false v x w u k f = k x f

  -- On a sound table with a state for each of its distinct keys, let all intervals that were sent to
  -- this process for windows with an active epoch arrive. Then a barrier returns what MPI returns,
  -- with the epoch of each of these windows ended and the next one begun, and each other window
  -- started again if a synchronization has ended an epoch of it before and left alone if not, or it
  -- reports two intervals that conflict. It ends in no other way.
  pub new_barrier_lem :
      (w : World table)
      → AllFound notified w (table.wins w.state_htbl)
      → AllDistinct (table.wins w.state_htbl)
      → Everywhere IsSound w
      → AllArrive notified totals incomings w (table.wins w.state_htbl)
      → Settles
          (λ r u.
            (r ≡ ret)
            × ((v : ℕ) (x : WinState)
                → is_among v (table.wins w.state_htbl) ≡ true
                → table.find w.state_htbl v ≡ some x
                → Passed (ltb 0 x.active_epoch) v x u))
          Conflict
          (new_barrier notified ret totals incomings w)
  unfolding new_barrier pure
  new_barrier_lem w a d s h =
      bind-Settles _ _ w (clear_all_wins_lem notified totals incomings w a d s h) (λ i j k. k)
        (λ _ w' k.
          bind-Settles _ _ w'
            (init_all_wins_lem notified w'
              (AllFound-cleared notified totals incomings w w' k.0 k.1 a))
            (λ i j q. absurd q)
            (λ _ u q. record {
              ends = (
                refl,
                λ v x among e.
                    passed (ltb 0 x.active_epoch) v x w' u
                      (λ z f.
                        q v z f
                        ∙ ap (λ b. some (if b then restart z else z)) (ap (is_among v) k.1 ∙ among))
                      (subst
                        (λ b.
                          Synchronized notified totals incomings (b && ltb 0 x.active_epoch) v x w')
                        among (k.0 v x e)),
              );
            }))
