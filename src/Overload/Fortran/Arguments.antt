-- ===== src/Overload/Fortran/Arguments.antt =====
-- What the overloads for Fortran do with arguments that are passed by reference.
use mathlib.Core.Path.{subst}
use parcoach_rma.Common.{
  ℕ, ◌+◌, ◌-◌, ◌*◌, ◌%◌, ◌^◌, ◌<◌, ◌≡◌, refl, sym, Bool, true, false, Option, none, some, List, ◌∷◌,
  ℤ, pos, ltb, get_elem?, arith, if◌then◌else◌,
}
use parcoach_rma.Interval.{AccessType, Interval, create_interval}
use parcoach_rma.Analyzer.State.{
  WinState, StateTable, Outcome, ok, fault, null_dereference, World, Message, M,
}
use parcoach_rma.Analyzer.Monad.{◌>>=◌, ◌>>◌, pure, fail}
use parcoach_rma.Analyzer.Window.{rma_analyzer_update_on_comm_send}
use parcoach_rma.Analyzer.Invariant.{Lands}
use parcoach_rma.Analyzer.Sending.{update_on_comm_send_lem}
use parcoach_rma.Analyzer.Protocol.{Settles, bind-Settles, get_state-eq}
use parcoach_rma.Analyzer.Protocol.Reception.{Conflict}
use parcoach_rma.Overload.Fortran.{
  Ref, new_put_, new_get_, new_accumulate_, new_put_notify_, new_get_notify_, new_win_fence_,
  mpi_call,
}

module _ {table : StateTable} where
  -- A routine that goes on with one that does not return does not return.
  bind-never :
      {A B : Type 0} (m : M table A) (f : A → M table B)
      → ((a : A) (w : World table) → Lands (λ _ _. ⊥) (f a w))
      → (w : World table) → Lands (λ _ _. ⊥) ((m >>= f) w)
  unfolding ◌>>=◌
  bind-never {A = A} {B = B} m f never w = go (m w)
    where
      go :
          (o : Outcome (A × World table))
          → Lands
              (λ _ _. ⊥)
              (elim o as (λ _. Outcome (B × World table)) [
                | ok (a, w') ↦ f a w'
                | fault e ↦ fault e
              ])
      go (ok (a, w')) = never a w'
      go (fault e) = tt

  never-bind :
      {A B : Type 0} (m : M table A) (f : A → M table B) (w : World table)
      → Lands (λ _ _. ⊥) (m w)
      → Lands (λ _ _. ⊥) ((m >>= f) w)
  unfolding ◌>>=◌
  never-bind {A = A} {B = B} m f w l = go (m w) l
    where
      go :
          (o : Outcome (A × World table))
          → Lands (λ _ _. ⊥) o
          → Lands
              (λ _ _. ⊥)
              (elim o as (λ _. Outcome (B × World table)) [
                | ok (a, w') ↦ f a w'
                | fault e ↦ fault e
              ])
      go (ok (a, w')) l = absurd l
      go (fault e) l = tt

  never-if :
      {A : Type 0} (b : Bool) (m n : M table A) (w : World table)
      → b ≡ true
      → Lands (λ _ _. ⊥) (m w)
      → Lands (λ _ _. ⊥) ((if b then m else n) w)
  never-if true m n w e l = l
  never-if false m n w e l = cc

module _ {table : StateTable} (notified : Bool) (win_f2c : ℕ → ℕ) (ret : ℕ) where
  null_fence :
      (mpi_fence : Option (Ref ℤ) → Outcome ℕ) (w : World table)
      → mpi_fence none ≡ fault null_dereference
      → Lands
          (λ _ _. ⊥)
          ((do _ ← mpi_call {table = table} notified win_f2c ret (mpi_fence none); pure (tt {0})) w)
  unfolding mpi_call ◌>>=◌ fail
  null_fence mpi_fence w e =
      subst
        (λ o.
          Lands (λ _ _. ⊥)
            ((do _ ← mpi_call {table = table} notified win_f2c ret o; pure (tt {0})) w))
        (sym e) tt

  -- The fence between two epochs hands NULL to MPI. Where the binding of MPI reads the assertion at
  -- that address, a fence on a window of the table that another fence has started does not return.
  pub new_win_fence_-null :
      (mpi_fence : Option (Ref ℤ) → Outcome ℕ) (assert : Ref ℤ) (total : ℕ)
      (incoming : List Interval) (win : Ref ℕ) (x : WinState) (w : World table)
      → mpi_fence none ≡ fault null_dereference
      → table.find w.state_htbl (win_f2c win.content) ≡ some x
      → 0 < x.count_fence
      → Lands
          (λ _ _. ⊥)
          (new_win_fence_ {table = table} notified win_f2c ret mpi_fence assert total incoming win
            w)
  unfolding new_win_fence_
  new_win_fence_-null mpi_fence assert total incoming win x w e f lt =
      subst (Lands (λ _ _. ⊥)) (sym (get_state-eq (win_f2c win.content) _ w x f)) (
        never-bind _ _ w (
          never-if (ltb 0 x.count_fence) _ _ w (ground arith)
            (bind-never _ _ (λ _ w'. null_fence mpi_fence w' e) w)))

  -- One message more has been sent, of `size` bytes from `disp` on.
  abbrev pub Announces : ℕ → ℕ → World table → World table → Type 0
  Announces disp size w w' =
      (m : Message) × (w'.sent ≡ m ∷ w.sent)
      × (m.content.low_bound ≡ disp)
      × (m.content.up_bound ≡ (disp + size + 2 ^ 64 - 1) % 2 ^ 64)

  announcing :
      (address local_size disp size rank : ℕ) (here there : AccessType) (id : ℤ) (win : ℕ)
      (x : WinState) (w : World table) (n : ℕ)
      → table.find w.state_htbl win ≡ some x
      → get_elem? x.array rank ≡ some n
      → Settles
          (λ _ w'. Announces disp size w w')
          Conflict
          ((do
            rma_analyzer_update_on_comm_send {table = table} notified address local_size disp size
                rank here there id
                (pos 0)
                none
                win
            pure ret)
            w)
  unfolding create_interval pure
  announcing address local_size disp size rank here there id win x w n e g =
      bind-Settles _ _ w
        (update_on_comm_send_lem notified win address local_size disp size rank here there id
          (pos 0) none x w n e g)
        (λ i j k. k) (λ _ w' h. record { ends = (_, h.0, refl, refl) })

  module _ (origin_addr : ℕ) (origin_count : Ref ℕ) (origin_size : ℕ)
      (target_rank target_disp target_count : Ref ℕ) (target_size : ℕ) (win : Ref ℕ) (id : Ref ℤ)
      (x : WinState) (w : World table) (n : ℕ) where
    -- What a call announces if it returns.
    abbrev pub Sends : ℕ → ℕ → M table ℕ → Type 0
    Sends disp count m =
        Settles (λ _ w'. Announces disp ((target_size * count) % 2 ^ 64) w w') Conflict (m w)

    -- On a window of the table, for a target with a counter, the overloads of MPI_Put and of
    -- MPI_Put_notify announce the bytes of the target that its displacement and count give, but
    -- those of MPI_Get, MPI_Accumulate and MPI_Get_notify announce bytes that the addresses of
    -- these two arguments give, whatever their values. Each call can also report two intervals
    -- that conflict, and ends in no other way.
    pub target_arguments :
        table.find w.state_htbl (win_f2c win.content) ≡ some x
        → get_elem? x.array target_rank.content ≡ some n
        → Sends target_disp.content target_count.content (
            new_put_ notified win_f2c ret origin_addr origin_count origin_size target_rank
              target_disp target_count target_size win)
          × Sends target_disp.content target_count.content (
              new_put_notify_ notified win_f2c ret true origin_addr origin_count origin_size
                target_rank target_disp target_count target_size win id)
          × Sends target_disp.address target_count.address (
              new_get_ notified win_f2c ret origin_addr origin_count origin_size target_rank
                target_disp target_count target_size win)
          × Sends target_disp.address target_count.address (
              new_accumulate_ notified win_f2c ret origin_addr origin_count origin_size target_rank
                target_disp target_count target_size win)
          × Sends target_disp.address target_count.address (
              new_get_notify_ notified win_f2c ret true origin_addr origin_count origin_size
                target_rank target_disp target_count target_size win id)
    unfolding new_put_ new_put_notify_ new_get_ new_accumulate_ new_get_notify_
    target_arguments e g = (
      announcing _ _ _ _ _ _ _ _ _ x w n e g,
      announcing _ _ _ _ _ _ _ _ _ x w n e g,
      announcing _ _ _ _ _ _ _ _ _ x w n e g,
      announcing _ _ _ _ _ _ _ _ _ x w n e g,
      announcing _ _ _ _ _ _ _ _ _ x w n e g,
    )
