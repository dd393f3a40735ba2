-- ===== src/Analyzer/Restart.antt =====
-- src/core/rma_analyzer.c: which windows a synchronization of the processes starts again.
use parcoach_rma.Common.{
  ℕ, ◌+◌, ◌≡◌, ◌≢◌, refl, sym, ◌∙◌, ap, some, Bool, true, false, not, ◌&&◌, List, [], ◌∷◌, ltb,
  ◌==◌, replicate, arith, if◌then◌else◌,
}
use native.Mathlib.Decide.{ℕ_discrete}
use mathlib.Core.Option.{some-injective}
use parcoach_rma.Interval.{Interval}
use parcoach_rma.Analyzer.State.{WinState, StateTable, ok, World}
use parcoach_rma.Analyzer.Monad.{◌>>=◌, pure, gets, put_state}
use parcoach_rma.Analyzer.Save.{rma_analyzer_is_active_epoch}
use parcoach_rma.Analyzer.Epoch.{
  rma_analyzer_init_comm_check_thread, init_wins, rma_analyzer_init_comm_check_thread_all_wins,
}
use parcoach_rma.Analyzer.Protocol.{
  Settles, bind-Settles, get_state-eq, get_state-Settles, find-written, Settles-imp, if-Settles,
}
use parcoach_rma.Analyzer.Protocol.Reception.{go_on}

-- A state in which an epoch has begun.
abbrev pub begun : WinState → WinState
begun x = record x {
  array = replicate x.size_comm 0;
  thread_end = 0;
  count_epoch = x.count_epoch + 1;
  active_epoch = 1;
  running = true;
}

-- A window without an active epoch begins one if a synchronization has ever ended one of it.
unfoldable pub restart : WinState → WinState
restart x = if not (ltb 0 x.active_epoch) && (x.from_sync == 1) then begun x else x

unfoldable pub is_among : ℕ → List ℕ → Bool
is_among win [] = false
is_among win (v ∷ rest) = if win == v then true else is_among win rest

restart_then :
    (x : WinState) → (not (ltb 0 x.active_epoch) && (x.from_sync == 1)) ≡ true → restart x ≡ begun x
unfolding restart
restart_then x q = rw q refl

restart_else :
    (x : WinState) → (not (ltb 0 x.active_epoch) && (x.from_sync == 1)) ≡ false → restart x ≡ x
unfolding restart
restart_else x q = rw q refl

-- No race is reported.
abbrev pub NoReport : Interval → Interval → Type 0
NoReport i j = ⊥

restart_twice : (x : WinState) → restart (restart x) ≡ restart x
unfolding restart
restart_twice x = twice (not (ltb 0 x.active_epoch) && (x.from_sync == 1)) refl
  where
    twice :
        (b : Bool)
        → (not (ltb 0 x.active_epoch) && (x.from_sync == 1)) ≡ b
        → restart (if b then begun x else x) ≡ (if b then begun x else x)
    twice true e = refl
    twice false e = rw e refl

restart_either :
    (b : Bool) (x : WinState) → (if b then restart (restart x) else restart x) ≡ restart x
restart_either true x = restart_twice x
restart_either false x = refl

pub is_among_here : (v win : ℕ) (rest : List ℕ) → v ≡ win → is_among v (win ∷ rest) ≡ true
unfolding is_among
is_among_here v win rest e = ground arith

pub is_among_there :
    (v win : ℕ) (rest : List ℕ) → v ≢ win → is_among v (win ∷ rest) ≡ is_among v rest
unfolding is_among
is_among_there v win rest n = ground arith

module _ {table : StateTable} (notified : Bool) where
  -- The window has been started again if it was due, and the others are left alone.
  abbrev RestartedOne : ℕ → WinState → World table → World table → Type 0
  RestartedOne win x w w' =
      (table.find w'.state_htbl win ≡ some (restart x))
      × ((v : ℕ) → v ≢ win → table.find w'.state_htbl v ≡ table.find w.state_htbl v)

  pub init-Settles :
      (win : ℕ) (x : WinState) (w : World table)
      → table.find w.state_htbl win ≡ some x
      → Settles
          (λ _ w'.
            (table.find w'.state_htbl win ≡ some (begun x))
            × ((v : ℕ) → v ≢ win → table.find w'.state_htbl v ≡ table.find w.state_htbl v))
          NoReport
          (rma_analyzer_init_comm_check_thread {table = table} notified win w)
  unfolding rma_analyzer_init_comm_check_thread put_state
  init-Settles win x w e = get_state-Settles win _ w x e (record {
    ends = (
      find-written table w.state_htbl win x (begun x) e refl,
      λ v n.
          table.find-write_ne w.state_htbl (begun x) v
            (λ q. n (q ∙ table.state_win-find w.state_htbl win e)),
    );
  })

  due-Settles :
      (win : ℕ) (x : WinState) (w : World table)
      → table.find w.state_htbl win ≡ some x
      → Settles
          (λ _ w'. RestartedOne win x w w')
          NoReport
          ((if not (ltb 0 x.active_epoch) && (x.from_sync == 1)
              then rma_analyzer_init_comm_check_thread {table = table} notified win
              else pure tt)
            w)
  unfolding pure
  due-Settles win x w e =
      if-Settles (not (ltb 0 x.active_epoch) && (x.from_sync == 1)) _ _ w
        (λ q.
          Settles-imp (λ _ u k. (k.0 ∙ ap some (sym (restart_then x q)), k.1)) (λ i j k. k)
            (init-Settles win x w e))
        (λ q. record { ends = (e ∙ ap some (sym (restart_else x q)), λ v n. refl) })

  pub is_active_epoch-eq :
      (win : ℕ) (x : WinState) (w : World table)
      → table.find w.state_htbl win ≡ some x
      → rma_analyzer_is_active_epoch win w ≡ ok (ltb 0 x.active_epoch, w)
  unfolding rma_analyzer_is_active_epoch pure
  is_active_epoch-eq win x w e = get_state-eq win _ w x e

  -- Every window of the list has a state.
  abbrev pub AllFound : World table → List ℕ → Type 0
  AllFound w [] = Unit
  AllFound w (win ∷ rest) =
      ((x : WinState) × (table.find w.state_htbl win ≡ some x)) × AllFound w rest

  AllFound-restarted :
      (win : ℕ) (x : WinState) (w w' : World table) (wins : List ℕ)
      → table.find w.state_htbl win ≡ some x
      → RestartedOne win x w w'
      → AllFound w wins
      → AllFound w' wins
  AllFound-restarted win x w w' [] e h a = tt
  AllFound-restarted win x w w' (v ∷ rest) e h ((y, f), a) = (
    elim (ℕ_discrete v win) [
      | yes same ↦ (restart x, ap (table.find w'.state_htbl) same ∙ h.0)
      | no other ↦ (y, h.1 v other ∙ f)
    ],
    AllFound-restarted win x w w' rest e h a,
  )

  all_restarted :
      (win : ℕ) (rest : List ℕ) (x y : WinState) (w w' u : World table) (v : ℕ)
      → table.find w.state_htbl win ≡ some x
      → table.find w.state_htbl v ≡ some y
      → RestartedOne win x w w'
      → ((v : ℕ) (z : WinState)
          → table.find w'.state_htbl v ≡ some z
          → table.find u.state_htbl v ≡ some (if is_among v rest then restart z else z))
      → table.find u.state_htbl v ≡ some (if is_among v (win ∷ rest) then restart y else y)
  all_restarted win rest x y w w' u v e f h k = elim (ℕ_discrete v win) [
    | yes same ↦
        k v (restart x) (ap (table.find w'.state_htbl) same ∙ h.0)
        ∙ ap some (restart_either (is_among v rest) x)
        ∙ ap (λ z. some (restart z))
            (some-injective x y (sym e ∙ ap (table.find w.state_htbl) (sym same) ∙ f))
        ∙ ap (λ b. some (if b then restart y else y)) (sym (is_among_here v win rest same))
    | no other ↦
        k v y (h.1 v other ∙ f)
        ∙ ap (λ b. some (if b then restart y else y)) (sym (is_among_there v win rest other))
  ]

  init_wins_lem :
      (wins : List ℕ) (w : World table)
      → AllFound w wins
      → Settles
          (λ _ w'.
            (v : ℕ) (x : WinState)
            → table.find w.state_htbl v ≡ some x
            → table.find w'.state_htbl v ≡ some (if is_among v wins then restart x else x))
          NoReport
          (init_wins {table = table} notified wins w)
  unfolding init_wins is_among pure
  init_wins_lem [] w a = record { ends = λ v x e. e }
  init_wins_lem (win ∷ rest) w ((x, e), a) =
      go_on notified win _ _ w w (ltb 0 x.active_epoch) (is_active_epoch-eq win x w e) (
        get_state-Settles win _ w x e (
          bind-Settles _ _ w (due-Settles win x w e) (λ i j k. k)
            (λ _ w' h.
              Settles-imp (λ _ u k v y f. all_restarted win rest x y w w' u v e f h k) (λ i j k. k)
                (init_wins_lem rest w' (AllFound-restarted win x w w' rest e h a)))))

  -- Where the keys of the table have states, exactly those of the windows are started again that
  -- have no active epoch and of which a synchronization has ended an epoch before, and all others
  -- are left alone. The call always returns.
  pub init_all_wins_lem :
      (w : World table)
      → AllFound w (table.wins w.state_htbl)
      → Settles
          (λ _ w'.
            (v : ℕ) (x : WinState)
            → table.find w.state_htbl v ≡ some x
            → table.find w'.state_htbl v
              ≡ some (if is_among v (table.wins w.state_htbl) then restart x else x))
          NoReport
          (rma_analyzer_init_comm_check_thread_all_wins {table = table} notified w)
  unfolding rma_analyzer_init_comm_check_thread_all_wins ◌>>=◌ gets
  init_all_wins_lem w a = init_wins_lem (table.wins w.state_htbl) w a
