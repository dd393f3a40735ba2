-- ===== src/Cluster/Fresh.antt =====
-- A cluster in which an epoch has just begun in every process.
use mathlib.Core.Path.{subst}
use parcoach_rma.Common.{
  ℕ, zero, suc, ◌+◌, ◌<◌, ◌≡◌, refl, sym, ◌∙◌, ap, Bool, none, some, [], ℤ, pos, ◌+ℤ◌, length,
  get_elem?, replicate, length-replicate, arith,
}
use parcoach_rma.Analyzer.State.{WinState, StateTable, World, ok}
use parcoach_rma.Analyzer.Epoch.{rma_analyzer_init_comm_check_thread}
use parcoach_rma.Analyzer.Run.Sound.{kept}
use parcoach_rma.Analyzer.Invariant.{Everywhere}
use parcoach_rma.Analyzer.Invariant.Sound.{IsSound}
use parcoach_rma.Analyzer.Invariant.Epochs.{init-Keeps}
use parcoach_rma.Analyzer.Protocol.{settled}
use parcoach_rma.Analyzer.Restart.{begun, init-Settles}
use parcoach_rma.Cluster.{Cluster, counted_for, received_by, state_in}
use parcoach_rma.Cluster.Sums.{sum, sum_zero}
use parcoach_rma.Cluster.Balance.{AllTagged, Conserves}

counted_for-begun : (x : WinState) (t : ℕ) → counted_for t (some (begun x)) ≡ 0
counted_for-begun x t = zeros x.size_comm t
  where
    zeros :
        (n i : ℕ)
        → (elim (get_elem? {A = ℕ} (replicate n 0) i) as (λ _. ℕ) [ none ↦ 0 | some k ↦ k ]) ≡ 0
    zeros zero i = refl
    zeros (suc n) zero = refl
    zeros (suc n) (suc i) = zeros n i

-- `before` are the worlds in which the epoch begins, and `state` the states of the window there.
module _ {table : StateTable} (notified : Bool) (size : ℕ) (win : ℕ → ℕ) (tag : ℤ)
    (c : Cluster table) (before : ℕ → World table) (state : (p : ℕ) → p < size → WinState)
    (found : (p : ℕ) (lt : p < size) → table.find (before p).state_htbl (win p) ≡ some (state p lt))
    (sound : (p : ℕ) → p < size → Everywhere IsSound (before p))
    (none_received : (p : ℕ) (lt : p < size) → (state p lt).count ≡ 0)
    (all_counted : (p : ℕ) (lt : p < size) → (state p lt).size_comm ≡ size)
    (same_tag : (p : ℕ) (lt : p < size)
      → (state p lt).mpi_tag +ℤ pos ((state p lt).count_epoch + 1) ≡ tag)
    (begins : (p : ℕ)
      → p < size
      → rma_analyzer_init_comm_check_thread notified (win p) (before p) ≡ ok (tt, c.process p))
    (none_in_flight : (p : ℕ) → p < size → c.in_flight p ≡ []) where
  begun_state : (p : ℕ) (lt : p < size) → state_in win c p ≡ some (begun (state p lt))
  begun_state p lt =
      (settled (init-Settles notified (win p) (state p lt) (before p) (found p lt)) (begins p lt)).0

  begun_balance :
      (t : ℕ)
      → t < size
      → sum size (λ p. counted_for t (state_in win c p))
        ≡ received_by (state_in win c t) + length (c.in_flight t)
  begun_balance t lt = omega (
    arith,
    sum_zero size (λ p. counted_for t (state_in win c p))
        (λ p l. ap (counted_for t) (begun_state p l) ∙ counted_for-begun (state p l) t),
    ap received_by (begun_state t lt),
    none_received t lt,
    ap length (none_in_flight t lt),
  )

  pub begun-Conserves : Conserves notified size win tag c
  begun-Conserves = record {
    active = λ p lt. (
      begun (state p lt),
      begun_state p lt,
      (
        refl,
        length-replicate (state p lt).size_comm 0 ∙ all_counted p lt,
        all_counted p lt,
        same_tag p lt,
      ),
    );
    sound = λ p lt. kept (init-Keeps notified (win p)) (begins p lt) (sound p lt);
    tagged = λ p lt. subst (AllTagged tag) (sym (none_in_flight p lt)) tt;
    balance = begun_balance;
  }
