-- ===== src/Analyzer/Protocol/Reception.antt =====
-- The thread of a window ends when it has received as many intervals as were sent to its process.
use parcoach_rma.Common.{
  ℕ, zero, suc, ◌+◌, ◌≡◌, refl, sym, ◌∙◌, ap, some, Bool, true, false, List, [], ◌∷◌, arith,
  if◌then◌else◌,
}
use mathlib.Core.Path.{subst}
use parcoach_rma.Interval.{Interval, if_intersects}
use parcoach_rma.IntervalTree.Overlap.{overlap_search_sound}
use parcoach_rma.Analyzer.State.{WinState, StateTable, ok, fault, World, M}
use parcoach_rma.Analyzer.Monad.{◌>>=◌, ◌>>◌, pure, put_state}
use parcoach_rma.Analyzer.Save.{rma_analyzer_save_interval}
use parcoach_rma.Analyzer.Thread.{
  exited, received, waiting, ThreadEnd, thread_exited, thread_waiting, is_finished, shift_interval,
  test_message, rma_analyzer_check_communication, save_received, after_reception,
  rma_analyzer_comm_check_thread,
}
use parcoach_rma.Analyzer.Protocol.{
  Settles, bind-Settles, get_state-eq, get_state-Settles, find-written, Settles-imp,
}
use parcoach_rma.Analyzer.Protocol.Saving.{with_saved, Saved, save_interval_lem}

-- The reported intervals conflict.
abbrev pub Conflict : Interval → Interval → Type 0
Conflict inserted overlap = if_intersects overlap inserted ≡ true

-- How a thread ends that has to receive `n` more intervals, by the messages that arrive for it.
abbrev pub end_after : ℕ → List Interval → ThreadEnd
end_after zero incoming = thread_exited incoming
end_after (suc n) [] = thread_waiting
end_after (suc n) (itv ∷ rest) = end_after n rest

-- The states differ in their trees and in the number of received intervals alone.
abbrev pub SameProtocol : WinState → WinState → Type 0
SameProtocol x y =
    y ≡ record x { count = y.count; local_tree = y.local_tree; notif_tree = y.notif_tree }

pub SameProtocol-trans : (x y z : WinState) → SameProtocol x y → SameProtocol y z → SameProtocol x z
SameProtocol-trans x y z p q =
    q
    ∙ ap
        (λ (s : WinState). record s {
          count = z.count;
          local_tree = z.local_tree;
          notif_tree = z.notif_tree;
        })
        p

module _ {table : StateTable} (notified : Bool) (win : ℕ) where
  -- The table has a state of the window that stands like `x`.
  abbrev pub Stands : WinState → World table → Type 0
  Stands x w =
      (y : WinState) × (table.find w.state_htbl win ≡ some y)
      × SameProtocol x y
      × (y.count ≡ x.count)

  -- What is reported by a saving of a received interval is a conflict, and the saving leaves the
  -- counters alone.
  pub saved-Stands :
      (itv : Interval) (x : WinState) (w : World table)
      → table.find w.state_htbl win ≡ some x
      → Settles (λ _ w'. Stands x w') Conflict (rma_analyzer_save_interval notified itv win w)
  saved-Stands itv x w e =
      Settles-imp stands (λ i j h. rw h.0 (overlap_search_sound x.local_tree itv h.1).1)
        (save_interval_lem notified itv win x w e)
    where
      stands : (b : Bool) (w' : World table) → Saved notified itv win x w e b w' → Stands x w'
      stands true w' h = (with_saved notified x itv, h.0, refl, refl)
      stands false w' h = (x, ap (λ v. table.find v.state_htbl win) h.0 ∙ e, refl, refl)

  pub save_received-Stands :
      (itv : Interval) (x : WinState) (w : World table)
      → table.find w.state_htbl win ≡ some x
      → Settles (λ _ w'. Stands x w') Conflict (save_received {table = table} notified win itv w)
  unfolding save_received pure
  save_received-Stands itv x w e = get_state-Settles win _ w x e (
      bind-Settles _ _ w (saved-Stands (shift_interval x.win_base itv) x w e) (λ i j c. c)
        (λ _ w' h. record { ends = h }))

  module _ (x : WinState) (w : World table) (e : table.find w.state_htbl win ≡ some x) where
    -- The table with another number of received intervals.
    abbrev pub counted : ℕ → World table
    counted n = record w { state_htbl = table.write w.state_htbl (record x { count = n }) }

    check_communication-eq :
        (incoming : List Interval)
        → rma_analyzer_check_communication {table = table} notified win incoming w
          ≡ (if is_finished x
                then (do put_state (record x { count = 0 }); pure exited)
                else test_message notified x incoming)
              w
    unfolding rma_analyzer_check_communication
    check_communication-eq incoming = get_state-eq win _ w x e

    check_finished :
        (incoming : List Interval)
        → is_finished x ≡ true
        → rma_analyzer_check_communication {table = table} notified win incoming w
          ≡ ok (exited, counted 0)
    unfolding ◌>>=◌ pure put_state
    check_finished incoming f = check_communication-eq incoming ∙ rw f refl

    check_waiting :
        is_finished x ≡ false
        → rma_analyzer_check_communication {table = table} notified win [] w ≡ ok (waiting, w)
    unfolding pure test_message
    check_waiting f = check_communication-eq [] ∙ rw f refl

    pub check_received :
        (itv : Interval) (rest : List Interval)
        → is_finished x ≡ false
        → rma_analyzer_check_communication {table = table} notified win (itv ∷ rest) w
          ≡ ok (received itv rest, counted (x.count + 1))
    unfolding ◌>>=◌ pure put_state test_message
    check_received itv rest f = check_communication-eq (itv ∷ rest) ∙ rw f refl

is_finished-true : (x : WinState) → x.thread_end ≡ 1 → x.count ≡ x.value → is_finished x ≡ true
unfolding is_finished
is_finished-true x e c = ground arith

is_finished-false : (x : WinState) (n : ℕ) → x.count + suc n ≡ x.value → is_finished x ≡ false
unfolding is_finished
is_finished-false x n c = ground arith

module _ {table : StateTable} (notified : Bool) (win : ℕ) where
  -- The thread has ended with `end` and the counters are those of `x`.
  abbrev pub Ended : WinState → ThreadEnd → ThreadEnd → World table → Type 0
  Ended x expected end w =
      (end ≡ expected)
      × ((y : WinState) × (table.find w.state_htbl win ≡ some y) × SameProtocol x y)

  pub go_on :
      {A B : Type 0} {P : B → World table → Type 0} {Q : Interval → Interval → Type 0}
      (m : M table A) (f : A → M table B) (w w' : World table) (a : A)
      → m w ≡ ok (a, w')
      → Settles P Q (f a w')
      → Settles P Q ((m >>= f) w)
  unfolding ◌>>=◌
  go_on {P = P} {Q = Q} m f w w' a e s =
      subst (λ o. Settles P Q (elim o [ ok (b, v) ↦ f b v | fault e ↦ fault e ])) (sym e) s

  -- On a window of the table with `thread_end` set, for which `n` intervals fewer than `value`
  -- have been received, the thread exits once it has received `n` more, with the messages behind
  -- them left, and waits on if fewer arrive; of the window's state it changes the trees and the
  -- count of received intervals alone. The races that it reports are conflicts, and it ends in no
  -- other way.
  pub comm_check_thread_lem :
      (incoming : List Interval) (n : ℕ) (x : WinState) (w : World table)
      → table.find w.state_htbl win ≡ some x
      → x.thread_end ≡ 1
      → x.count + n ≡ x.value
      → Settles
          (Ended x (end_after n incoming))
          Conflict
          (rma_analyzer_comm_check_thread {table = table} notified win incoming w)
  unfolding rma_analyzer_comm_check_thread after_reception pure
  comm_check_thread_lem [] zero x w e t c =
      go_on _ _ w _ exited
        (check_finished notified win x w e [] (is_finished-true x t (omega arith)))
        (record { ends = (refl, (_, find-written table w.state_htbl win x _ e refl, refl)) })
  comm_check_thread_lem (itv ∷ rest) zero x w e t c =
      go_on _ _ w _ exited
        (check_finished notified win x w e (itv ∷ rest) (is_finished-true x t (omega arith)))
        (record { ends = (refl, (_, find-written table w.state_htbl win x _ e refl, refl)) })
  comm_check_thread_lem [] (suc n) x w e t c =
      go_on _ _ w w waiting (check_waiting notified win x w e (is_finished-false x n c))
        (record { ends = (refl, (x, e, refl)) })
  comm_check_thread_lem (itv ∷ rest) (suc n) x w e t c =
      go_on _ _ w _ (received itv rest)
        (check_received notified win x w e itv rest (is_finished-false x n c))
        (bind-Settles _ _ _
          (save_received-Stands notified win itv (record x { count = x.count + 1 }) _
            (find-written table w.state_htbl win x _ e refl))
          (λ i j k. k)
          (λ _ w' h.
            Settles-imp (λ end v k. (k.0, (k.1.0, k.1.1, SameProtocol-trans x h.0 k.1.0 h.2 k.1.2)))
              (λ i j k. k)
              (comm_check_thread_lem rest n h.0 w' h.1 (ap (λ (y : WinState). y.thread_end) h.2 ∙ t)
                (omega (arith, h.3, ap (λ (y : WinState). y.value) h.2)))))
