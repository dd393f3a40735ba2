-- ===== src/Cluster/Rounds.antt =====
-- What one round of a thread does that receives a message during an epoch.
use parcoach_rma.Common.{ℕ, ◌+◌, ◌≡◌, refl, Bool, false, some, [], ◌∷◌, arith}
use parcoach_rma.Interval.{Interval}
use parcoach_rma.Analyzer.State.{WinState, StateTable, World}
use parcoach_rma.Analyzer.Monad.{pure}
use parcoach_rma.Analyzer.Thread.{received, is_finished, after_reception}
use parcoach_rma.Analyzer.Protocol.{Settles, bind-Settles, find-written}
use parcoach_rma.Analyzer.Protocol.Reception.{
  Conflict, Stands, check_received, save_received-Stands, go_on,
}
use parcoach_rma.Analyzer.Run.{receive_one}

not_finished : (x : WinState) → x.thread_end ≡ 0 → is_finished x ≡ false
unfolding is_finished
not_finished x e = ground arith

-- The thread counts one interval more, saves it and waits for the next one.
pub receive_one-Stands :
    {table : StateTable} (notified : Bool) (win : ℕ) (itv : Interval) (x : WinState)
    (w : World table)
    → table.find w.state_htbl win ≡ some x
    → x.thread_end ≡ 0
    → Settles
        (λ _ w'. Stands notified win (record x { count = x.count + 1 }) w')
        Conflict
        (receive_one {table = table} notified win (itv ∷ []) w)
unfolding receive_one after_reception pure
receive_one-Stands {table} notified win itv x w e t =
    go_on notified win _ _ w _ (received itv [])
      (check_received notified win x w e itv [] (not_finished x t))
      (bind-Settles _ _ _
        (save_received-Stands notified win itv (record x { count = x.count + 1 }) _
          (find-written table w.state_htbl win x _ e refl))
        (λ i j k. k) (λ _ w' h. record { ends = h }))
