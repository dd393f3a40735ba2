-- ===== src/Analyzer/Protocol/Closing.antt =====
-- The end of an epoch on a window: `rma_analyzer_clear_comm_check_thread` and the thread that it
-- waits for.
use mathlib.Core.Path.{subst}
use parcoach_rma.Common.{
  ℕ, zero, suc, ◌+◌, ◌≤◌, ◌<◌, ◌≡◌, refl, sym, ◌∙◌, ap, some, Bool, true, false, List, [], ◌∷◌,
  length, arith, if◌then◌else◌,
}
use parcoach_rma.Interval.{Interval}
use parcoach_rma.Avl.{null}
use parcoach_rma.NotifTree.{free_notif_tree}
use parcoach_rma.Analyzer.State.{WinState, StateTable, Outcome, ok, fault, World, M}
use parcoach_rma.Analyzer.Monad.{◌>>=◌, ◌>>◌, put_state, fail}
use parcoach_rma.Analyzer.Thread.{thread_exited, thread_waiting, rma_analyzer_comm_check_thread}
use parcoach_rma.Analyzer.Epoch.{after_join, rma_analyzer_clear_comm_check_thread}
use parcoach_rma.Analyzer.Invariant.{Lands, Everywhere, put_state-Keeps}
use parcoach_rma.Analyzer.Invariant.Sound.{IsSound}
use parcoach_rma.Analyzer.Invariant.Epochs.{
  comm_check_thread-Keeps, free_interval_tree-eq-null, free_notif_tree-eq-null, with_flags,
}
use parcoach_rma.Analyzer.Protocol.{
  Settles, bind-Settles, get_state-eq, get_state-Settles, find-written,
}
use parcoach_rma.Analyzer.Protocol.Reception.{
  Conflict, end_after, SameProtocol, Ended, comm_check_thread_lem,
}

end_after-enough :
    (n : ℕ) (incoming : List Interval)
    → n ≤ length incoming
    → (rest : List Interval) × (end_after n incoming ≡ thread_exited rest)
end_after-enough zero incoming le = (incoming, refl)
end_after-enough (suc n) [] le = absurd (omega arith)
end_after-enough (suc n) (itv ∷ rest) le = end_after-enough n rest (omega arith)

end_after-few :
    (n : ℕ) (incoming : List Interval) → length incoming < n → end_after n incoming ≡ thread_waiting
end_after-few zero incoming lt = absurd (omega arith)
end_after-few (suc n) [] lt = refl
end_after-few (suc n) (itv ∷ rest) lt = end_after-few n rest (omega arith)

-- A state of which the epoch has ended, with what a build without notified communication leaves in
-- the tree of notifications.
abbrev pub closed : Bool → ℕ → WinState → WinState → WinState
closed notified total x y = record x {
  value = total;
  thread_end = 1;
  running = false;
  count = 0;
  active_epoch = 0;
  local_tree = null;
  notif_tree = if notified then null else y.notif_tree;
}

module _ {table : StateTable} where
  pub both :
      {A : Type 0} {P R : A → World table → Type 0} {Q : Interval → Interval → Type 0}
      (o : Outcome (A × World table))
      → Settles P Q o
      → Lands R o
      → Settles (λ a w. P a w × R a w) Q o
  both (ok (a, w)) s l = record { ends = (s.ends, l) }
  both (fault f) s l = record { ends = s.ends }

  never-bind :
      {A B : Type 0} {P : A → World table → Type 0} {Q : Interval → Interval → Type 0}
      (m : M table A) (f : A → M table B) (w : World table)
      → Settles P Q (m w)
      → ((a : A) (w' : World table) → P a w' → Lands (λ _ _. ⊥) (f a w'))
      → Lands (λ _ _. ⊥) ((m >>= f) w)
  unfolding ◌>>=◌
  never-bind m f w s k = go (m w) f s k
    where
      go :
          {A B : Type 0} {P : A → World table → Type 0} {Q : Interval → Interval → Type 0}
          (o : Outcome (A × World table)) (f : A → M table B)
          → Settles P Q o
          → ((a : A) (w' : World table) → P a w' → Lands (λ _ _. ⊥) (f a w'))
          → Lands (λ _ _. ⊥) (elim o [ ok (b, v) ↦ f b v | fault e ↦ fault e ])
      go (ok (a, w)) f s k = k a w s.ends
      go (fault e) f s k = tt

free_notif-either :
    (notified : Bool) (y : WinState)
    → IsSound y
    → (if notified then free_notif_tree y.notif_tree else y.notif_tree)
      ≡ (if notified then null else y.notif_tree)
free_notif-either true y s = free_notif_tree-eq-null y.notif_tree s.notified
free_notif-either false y s = refl

module _ {table : StateTable} (notified : Bool) (total : ℕ) (incoming : List Interval)
    (win : ℕ) where
  -- The table has a state of the window whose epoch has ended.
  abbrev pub Closed : WinState → World table → Type 0
  Closed x w =
      (y : WinState) × (z : WinState) × (table.find w.state_htbl win ≡ some z)
      × (z ≡ closed notified total x y)

  module _ (x : WinState) (w : World table) (n : ℕ) (e : table.find w.state_htbl win ≡ some x)
      (v : Everywhere IsSound w) (c : x.count + n ≡ total) where
    abbrev asked : WinState
    asked = record x { value = total; thread_end = 1 }

    abbrev asked_world : World table
    asked_world = record w { state_htbl = table.write w.state_htbl asked }

    asked-Everywhere : Everywhere IsSound asked_world
    unfolding put_state
    asked-Everywhere =
        (put_state-Keeps asked (with_flags (v win x e) total 1 x.count x.from_sync)).at w v

    thread-ends :
        Settles
          (λ end w'. Ended notified win asked (end_after n incoming) end w' × Everywhere IsSound w')
          Conflict
          (rma_analyzer_comm_check_thread {table = table} notified win incoming asked_world)
    thread-ends =
        both _
          (comm_check_thread_lem notified win incoming n asked asked_world
            (find-written table w.state_htbl win x asked e refl) refl c)
          ((comm_check_thread-Keeps notified win incoming).at asked_world asked-Everywhere)

    after_join-Settles :
        (rest : List Interval) (y : WinState) (w' : World table)
        → table.find w'.state_htbl win ≡ some y
        → SameProtocol asked y
        → Everywhere IsSound w'
        → Settles
            (λ _ u. Closed x u)
            Conflict
            (after_join {table = table} notified win (thread_exited rest) w')
    unfolding after_join put_state
    after_join-Settles rest y w' f same s = get_state-Settles win _ w' y f (record {
      ends = (
        y,
        _,
        find-written table w'.state_htbl win y _ f refl,
        ap
              (λ t. record y {
                local_tree = t;
                notif_tree = if notified then free_notif_tree y.notif_tree else y.notif_tree;
                count = 0;
                active_epoch = 0;
                running = false;
              })
              (free_interval_tree-eq-null y.local_tree (s win y f).ordered)
            ∙ ap
                (λ t. record y {
                  local_tree = null;
                  notif_tree = t;
                  count = 0;
                  active_epoch = 0;
                  running = false;
                })
                (free_notif-either notified y (s win y f))
            ∙ ap
                (λ (t : WinState). record t {
                  local_tree = null;
                  notif_tree = if notified then null else y.notif_tree;
                  count = 0;
                  active_epoch = 0;
                  running = false;
                })
                same,
      );
    })

    join_thread : M table (Unit {0})
    join_thread = rma_analyzer_comm_check_thread notified win incoming >>= after_join notified win

    read_state :
        rma_analyzer_clear_comm_check_thread {table = table} notified true total incoming win w
        ≡ (put_state asked >> join_thread) w
    unfolding rma_analyzer_clear_comm_check_thread join_thread
    read_state = get_state-eq win _ w x e

    clear-eq :
        rma_analyzer_clear_comm_check_thread {table = table} notified true total incoming win w
        ≡ join_thread asked_world
    unfolding ◌>>=◌ put_state
    clear-eq = read_state

    join-Settles :
        (rest : List Interval)
        → end_after n incoming ≡ thread_exited rest
        → Settles (λ _ w'. Closed x w') Conflict (join_thread asked_world)
    unfolding join_thread
    join-Settles rest q =
        bind-Settles _ _ asked_world thread-ends (λ i j k. k)
          (λ end w' h.
            subst (λ d. Settles (λ _ u. Closed x u) Conflict (after_join notified win d w'))
              (sym (h.0.0 ∙ q)) (after_join-Settles rest h.0.1.0 w' h.0.1.1 h.0.1.2 h.1))

    -- On a sound table, let `total` intervals have been sent to the process for a window, and let
    -- the `n` that have not been received arrive. Then the end of its epoch, with the sum of
    -- MPI_Reduce, returns with the window's tree empty, the tree of notifications empty in a
    -- build with them, no thread, no interval counted as received, no active epoch, `value` the
    -- sum, `thread_end` set and the other fields as they were, or it reports two intervals that
    -- conflict. It ends in no other way.
    pub clear_comm_check_thread_lem :
        n ≤ length incoming
        → Settles
            (λ _ w'. Closed x w')
            Conflict
            (rma_analyzer_clear_comm_check_thread {table = table} notified true total incoming win
              w)
    clear_comm_check_thread_lem enough =
        let (rest, q) = end_after-enough n incoming enough in
        subst (Settles (λ _ w'. Closed x w') Conflict) (sym clear-eq) (join-Settles rest q)

    never-join : length incoming < n → Lands (λ _ _. ⊥) (join_thread asked_world)
    unfolding join_thread after_join fail
    never-join few = never-bind _ _ asked_world thread-ends (λ end w' h.
        subst (λ d. Lands (λ _ _. ⊥) (after_join {table = table} notified win d w'))
          (sym (h.0.0 ∙ end_after-few n incoming few)) tt)

    -- On a sound table, if `n` of the intervals that were sent to the process for a window have
    -- not been received and fewer than `n` arrive, the end of its epoch, with the sum of
    -- MPI_Reduce, does not return.
    pub clear_comm_check_thread_blocks :
        length incoming < n
        → Lands
            (λ _ _. ⊥)
            (rma_analyzer_clear_comm_check_thread {table = table} notified true total incoming win
              w)
    clear_comm_check_thread_blocks few = subst (Lands (λ _ _. ⊥)) (sym clear-eq) (never-join few)
