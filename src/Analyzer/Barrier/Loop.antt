-- ===== src/Analyzer/Barrier/Loop.antt =====
-- src/core/rma_analyzer.c: the loop of a synchronization over all windows.
use mathlib.Core.Bool.{true≢false}
use mathlib.Core.Path.{subst}
use mathlib.Core.Option.{some-injective}
use native.Mathlib.Decide.{ℕ_discrete}
use parcoach_rma.Common.{
  ℕ, ◌≡◌, ◌≢◌, refl, sym, ◌∙◌, ap, some, Bool, true, false, ◌&&◌, List, [], ◌∷◌, ltb,
}
use parcoach_rma.Interval.{Interval}
use parcoach_rma.Analyzer.State.{WinState, StateTable, World}
use parcoach_rma.Analyzer.Monad.{◌>>=◌, pure, gets}
use parcoach_rma.Analyzer.Epoch.{clear_wins, rma_analyzer_clear_comm_check_thread_all_wins}
use parcoach_rma.Analyzer.Invariant.{Everywhere}
use parcoach_rma.Analyzer.Invariant.Sound.{IsSound}
use parcoach_rma.Analyzer.Frame.{OthersSame}
use parcoach_rma.Analyzer.Broadcast.{AllDistinct}
use parcoach_rma.Analyzer.Restart.{
  is_among, is_among_here, is_among_there, AllFound, is_active_epoch-eq,
}
use parcoach_rma.Analyzer.Protocol.{Settles, bind-Settles, Settles-imp}
use parcoach_rma.Analyzer.Protocol.Reception.{Conflict, go_on}
use parcoach_rma.Analyzer.Barrier.{Arrives, Synchronized, Round, round}

distinct :
    (win v : ℕ) (rest : List ℕ) → is_among win rest ≡ false → is_among v rest ≡ true → v ≢ win
distinct win v rest once a e = absurd (true≢false (sym a ∙ ap (λ u. is_among u rest) e ∙ once))

module _ {table : StateTable} (notified : Bool) (totals : ℕ → ℕ)
    (incomings : ℕ → List Interval) where
  AllFound-other :
      (win : ℕ) (z : WinState) (w w' : World table) (wins : List ℕ)
      → table.find w'.state_htbl win ≡ some z
      → OthersSame win w w'
      → AllFound notified w wins
      → AllFound notified w' wins
  AllFound-other win z w w' [] f o a = tt
  AllFound-other win z w w' (v ∷ rest) f o ((y, e), a) = (
    elim (ℕ_discrete v win) [
      | yes here ↦ (z, ap (table.find w'.state_htbl) here ∙ f)
      | no other ↦ (y, o.0 v other ∙ e)
    ],
    AllFound-other win z w w' rest f o a,
  )

  -- Each window of the list that has an active epoch.
  abbrev pub AllArrive : World table → List ℕ → Type 0
  AllArrive w wins =
      (v : ℕ) (x : WinState)
      → is_among v wins ≡ true
      → table.find w.state_htbl v ≡ some x
      → ltb 0 x.active_epoch ≡ true
      → Arrives totals incomings x v

  -- What the loop over `wins` does to each window of the table.
  abbrev pub AllSynchronized : List ℕ → World table → World table → Type 0
  AllSynchronized wins w w' =
      (v : ℕ) (x : WinState)
      → table.find w.state_htbl v ≡ some x
      → Synchronized notified totals incomings (is_among v wins && ltb 0 x.active_epoch) v x w'

  after_round :
      (b : Bool) (win : ℕ) (x : WinState) (w : World table)
      → Synchronized notified totals incomings b win x w
      → (z : WinState) × (table.find w.state_htbl win ≡ some z)
        × ((u : World table)
            → table.find u.state_htbl win ≡ some z
            → Synchronized notified totals incomings b win x u)
  after_round true win x w (y, f) = (_, f, λ u g. (y, g))
  after_round false win x w f = (x, f, λ u g. g)

  AllArrive-rest :
      (win : ℕ) (rest : List ℕ) (w w' : World table)
      → is_among win rest ≡ false
      → OthersSame win w w'
      → AllArrive w (win ∷ rest)
      → AllArrive w' rest
  AllArrive-rest win rest w w' once o h v x a f =
      let other = distinct win v rest once a in
      h v x (is_among_there v win rest other ∙ a) (sym (o.0 v other) ∙ f)

  first-Synchronized :
      (win : ℕ) (rest : List ℕ) (x : WinState) (w w' u : World table)
      → is_among win rest ≡ false
      → Round notified totals incomings win x w w'
      → AllSynchronized rest w' u
      → Synchronized notified totals incomings
          (is_among win (win ∷ rest) && ltb 0 x.active_epoch)
          win
          x
          u
  first-Synchronized win rest x w w' u once (s, o, _) k =
      let (z, f, back) = after_round (ltb 0 x.active_epoch) win x w' s in
      subst (λ b. Synchronized notified totals incomings (b && ltb 0 x.active_epoch) win x u)
        (sym (is_among_here win win rest refl))
        (back u (
          subst (λ b. Synchronized notified totals incomings (b && ltb 0 z.active_epoch) win z u)
            once (k win z f)))

  all_synchronized :
      (win : ℕ) (rest : List ℕ) (x : WinState) (w w' u : World table)
      → is_among win rest ≡ false
      → table.find w.state_htbl win ≡ some x
      → Round notified totals incomings win x w w'
      → AllSynchronized rest w' u
      → AllSynchronized (win ∷ rest) w u
  all_synchronized win rest x w w' u once e (s, o, t) k v y f = elim (ℕ_discrete v win) [
    | yes here ↦
        subst
          (λ z.
            Synchronized notified totals incomings (is_among v (win ∷ rest) && ltb 0 z.active_epoch)
              v z u)
          (some-injective x y (sym e ∙ ap (table.find w.state_htbl) (sym here) ∙ f))
          (subst
            (λ q.
              Synchronized notified totals incomings
                (is_among q (win ∷ rest) && ltb 0 x.active_epoch) q x u)
            (sym here) (first-Synchronized win rest x w w' u once (s, o, t) k))
    | no other ↦
        subst (λ b. Synchronized notified totals incomings (b && ltb 0 y.active_epoch) v y u)
          (sym (is_among_there v win rest other)) (k v y (o.0 v other ∙ f))
  ]

  clear_wins_lem :
      (wins : List ℕ) (w : World table)
      → AllFound notified w wins
      → AllDistinct wins
      → Everywhere IsSound w
      → AllArrive w wins
      → Settles
          (λ _ w'. AllSynchronized wins w w' × (table.wins w'.state_htbl ≡ table.wins w.state_htbl))
          Conflict
          (clear_wins notified true totals incomings wins w)
  unfolding clear_wins is_among pure
  clear_wins_lem [] w a d v h = record { ends = (λ v x e. e, refl) }
  clear_wins_lem (win ∷ rest) w ((x, e), a) (once, d) v h =
      go_on notified win _ _ w w (ltb 0 x.active_epoch) (is_active_epoch-eq notified win x w e) (
        bind-Settles _ _ w
          (round notified totals incomings win x w e v
            (h win x (is_among_here win win rest refl) e))
          (λ i j k. k)
          (λ _ w' k.
            let (z, f, _) = after_round (ltb 0 x.active_epoch) win x w' k.0 in
            Settles-imp (λ _ u q. (all_synchronized win rest x w w' u once e k q.0, q.1 ∙ k.1.1))
              (λ i j q. q)
              (clear_wins_lem rest w' (AllFound-other win z w w' rest f k.1 a) d k.2
                (AllArrive-rest win rest w w' once k.1 h))))

  pub clear_all_wins_lem :
      (w : World table)
      → AllFound notified w (table.wins w.state_htbl)
      → AllDistinct (table.wins w.state_htbl)
      → Everywhere IsSound w
      → AllArrive w (table.wins w.state_htbl)
      → Settles
          (λ _ w'.
            AllSynchronized (table.wins w.state_htbl) w w'
            × (table.wins w'.state_htbl ≡ table.wins w.state_htbl))
          Conflict
          (rma_analyzer_clear_comm_check_thread_all_wins notified true totals incomings w)
  unfolding rma_analyzer_clear_comm_check_thread_all_wins ◌>>=◌ gets
  clear_all_wins_lem w a d v h = clear_wins_lem (table.wins w.state_htbl) w a d v h

  AllFound-synchronized :
      (wins keys : List ℕ) (w w' : World table)
      → AllSynchronized keys w w'
      → AllFound notified w wins
      → AllFound notified w' wins
  AllFound-synchronized [] keys w w' s a = tt
  AllFound-synchronized (v ∷ rest) keys w w' s ((x, e), a) =
      let (z, f, _) = after_round (is_among v keys && ltb 0 x.active_epoch) v x w' (s v x e) in
      ((z, f), AllFound-synchronized rest keys w w' s a)

  pub AllFound-cleared :
      (w w' : World table)
      → AllSynchronized (table.wins w.state_htbl) w w'
      → table.wins w'.state_htbl ≡ table.wins w.state_htbl
      → AllFound notified w (table.wins w.state_htbl)
      → AllFound notified w' (table.wins w'.state_htbl)
  AllFound-cleared w w' s e a =
      subst (AllFound notified w') (sym e)
        (AllFound-synchronized (table.wins w.state_htbl) (table.wins w.state_htbl) w w' s a)
