-- ===== src/Analyzer/Barrier.antt =====
-- src/core/rma_analyzer.c: what a synchronization of the processes does to all windows.
pub mod Loop
use mathlib.Core.Bool.{true≢false}
use mathlib.Core.Path.{subst}
use mathlib.Core.Option.{some-injective}
use native.Mathlib.Decide.{ℕ_discrete}
use parcoach_rma.Common.{
  ℕ, ◌+◌, ◌-◌, ◌≤◌, ◌≡◌, ◌≢◌, refl, sym, ◌∙◌, ap, some, Bool, true, false, ◌&&◌, List, [], ◌∷◌,
  length, ltb, arith, if◌then◌else◌,
}
use parcoach_rma.Interval.{Interval}
use parcoach_rma.Analyzer.State.{WinState, StateTable, World}
use parcoach_rma.Analyzer.Monad.{◌>>=◌, ◌>>◌, pure, put_state, gets, rma_analyzer_get_state}
use parcoach_rma.Analyzer.Epoch.{
  rma_analyzer_clear_comm_check_thread, clear_wins, rma_analyzer_clear_comm_check_thread_all_wins,
}
use parcoach_rma.Analyzer.Invariant.{Everywhere, put_state-Keeps}
use parcoach_rma.Analyzer.Invariant.Sound.{IsSound}
use parcoach_rma.Analyzer.Invariant.Epochs.{clear-Keeps, with_flags}
use parcoach_rma.Analyzer.Frame.{OthersSame, clear-Frames}
use parcoach_rma.Analyzer.Broadcast.{AllDistinct}
use parcoach_rma.Analyzer.Restart.{
  is_among, is_among_here, is_among_there, AllFound, is_active_epoch-eq,
}
use parcoach_rma.Analyzer.Protocol.{
  Settles, bind-Settles, get_state-Settles, find-written, find-written_ne, Settles-imp, if-Settles,
}
use parcoach_rma.Analyzer.Protocol.Reception.{Conflict, go_on}
use parcoach_rma.Analyzer.Protocol.Closing.{both, closed, Closed, clear_comm_check_thread_lem}

-- The intervals that were sent to this process for the window and not received yet all arrive.
abbrev pub Arrives : (ℕ → ℕ) → (ℕ → List Interval) → WinState → ℕ → Type 0
Arrives totals incomings x v = (x.count ≤ totals v) × (totals v ≤ x.count + length (incomings v))

module _ {table : StateTable} (notified : Bool) (totals : ℕ → ℕ)
    (incomings : ℕ → List Interval) where
  -- A window with an active epoch has been reset and marked, and any other left alone.
  abbrev pub Synchronized : Bool → ℕ → WinState → World table → Type 0
  Synchronized true v x w =
      (y : WinState) × (table.find w.state_htbl v
        ≡ some (record (closed notified (totals v) x y) { from_sync = 1 }))
  Synchronized false v x w = table.find w.state_htbl v ≡ some x

  abbrev pub Round : ℕ → WinState → World table → World table → Type 0
  Round win x w w' =
      Synchronized (ltb 0 x.active_epoch) win x w' × OthersSame win w w' × Everywhere IsSound w'

  module _ (win : ℕ) (x : WinState) (w : World table) (e : table.find w.state_htbl win ≡ some x)
      (v : Everywhere IsSound w) where
    cleared :
        Arrives totals incomings x win
        → Settles
            (λ _ w'.
              Closed notified (totals win) (incomings win) win x w'
              × OthersSame win w w'
              × Everywhere IsSound w')
            Conflict
            (rma_analyzer_clear_comm_check_thread notified true (totals win) (incomings win) win w)
    cleared (l, h) =
        Settles-imp (λ _ w' k. (k.0.0, k.0.1, k.1)) (λ i j k. k)
          (both _
            (both _
              (clear_comm_check_thread_lem notified (totals win) (incomings win) win x w
                (totals win - x.count) e v (omega arith) (omega arith))
              ((clear-Frames notified win true (totals win) (incomings win)).at w))
            ((clear-Keeps notified true (totals win) (incomings win) win).at w v))

    -- What follows in the loop: the mark.
    marked :
        (w' : World table)
        → Closed notified (totals win) (incomings win) win x w'
        → OthersSame win w w'
        → Everywhere IsSound w'
        → Settles
            (λ _ u. Synchronized true win x u × OthersSame win w u × Everywhere IsSound u)
            Conflict
            ((do state ← rma_analyzer_get_state win; put_state (record state { from_sync = 1 })) w')
    unfolding put_state
    marked w' (y, z, f, c) o s = get_state-Settles win _ w' z f (record {
      ends = (
        (
          y,
          find-written table w'.state_htbl win z _ f refl
              ∙ ap (λ (t : WinState). some (record t { from_sync = 1 })) c,
        ),
        (
          λ q n.
              find-written_ne table w'.state_htbl win z (record z { from_sync = 1 }) f refl q n
              ∙ o.0 q n,
          table.wins-write w'.state_htbl _ ∙ o.1,
          o.2,
        ),
        (put_state-Keeps (record z { from_sync = 1 })
              (with_flags (s win z f) z.value z.thread_end z.count 1)).at
            w' s,
      );
    })

    pub round :
        (ltb 0 x.active_epoch ≡ true → Arrives totals incomings x win)
        → Settles
            (λ _ w'. Round win x w w')
            Conflict
            ((if ltb 0 x.active_epoch
                then (do
                  rma_analyzer_clear_comm_check_thread notified true
                      (totals win)
                      (incomings win)
                      win
                  state ← rma_analyzer_get_state win
                  put_state (record state { from_sync = 1 }))
                else pure tt)
              w)
    unfolding pure
    round h =
        if-Settles (ltb 0 x.active_epoch) _ _ w
          (λ q.
            Settles-imp (λ _ u k. (subst (λ b. Synchronized b win x u) (sym q) k.0, k.1, k.2))
              (λ i j k. k)
              (bind-Settles _ _ w (cleared (h q)) (λ i j k. k) (λ _ w' k. marked w' k.0 k.1 k.2)))
          (λ q. record {
            ends = (subst (λ b. Synchronized b win x w) (sym q) e, (λ q n. refl, refl, refl), v);
          })
