-- ===== src/Analyzer/Protocol.antt =====
-- How a routine ends on a window that the table has: it returns, or reports a race, and ends in no
-- other way.
pub mod Saving
pub mod Reception
pub mod Closing
use mathlib.Core.Option
use mathlib.Core.Path.{subst}
use parcoach_rma.Common.{
  ℕ, ◌≡◌, ◌≢◌, refl, sym, ◌∙◌, ap, Option, none, some, Bool, true, false, if◌then◌else◌,
}
use parcoach_rma.Interval.{Interval}
use parcoach_rma.Analyzer.State.{
  WinState, StateTable, Fault, exit_failure, assertion_failed, race, null_dereference,
  out_of_bounds, join_blocked, Outcome, ok, fault, World, M,
}
use parcoach_rma.Analyzer.Monad.{◌>>=◌, put_state, rma_analyzer_get_state}

-- A race is reported, and `Q` holds of its two intervals.
abbrev pub IsReport : (Interval → Interval → Type 0) → Fault → Type 0
IsReport Q (race i j) = Q i j
IsReport Q exit_failure = ⊥
IsReport Q assertion_failed = ⊥
IsReport Q null_dereference = ⊥
IsReport Q out_of_bounds = ⊥
IsReport Q join_blocked = ⊥

IsReport-imp :
    {Q Q' : Interval → Interval → Type 0} (f : Fault)
    → ((i j : Interval) → Q i j → Q' i j)
    → IsReport Q f
    → IsReport Q' f
IsReport-imp (race i j) g q = g i j q
IsReport-imp exit_failure g q = q
IsReport-imp assertion_failed g q = q
IsReport-imp null_dereference g q = q
IsReport-imp out_of_bounds g q = q
IsReport-imp join_blocked g q = q

module _ {table : StateTable} where
  abbrev pub Ends :
      {A : Type 0}
      → (A → World table → Type 0)
      → (Interval → Interval → Type 0)
      → Outcome (A × World table)
      → Type 0
  Ends P Q (ok (a, w)) = P a w
  Ends P Q (fault f) = IsReport Q f

  -- `P` holds of what is returned, `Q` of the two intervals of a race that is reported.
  pub record Settles {A : Type 0} (P : A → World table → Type 0) (Q : Interval → Interval → Type 0)
      (o : Outcome (A × World table)) : Type 0 where
    pub ends : Ends P Q o

  -- The states of other windows are the same, and so is what does not belong to a window.
  abbrev pub OthersKept : ℕ → World table → World table → Type 0
  OthersKept win w w' =
      ((v : ℕ) → v ≢ win → table.find w'.state_htbl v ≡ table.find w.state_htbl v)
      × (w'.sent ≡ w.sent)
      × (w'.filter_window ≡ w.filter_window)
      × (w'.win_mpi_tag_id ≡ w.win_mpi_tag_id)

  bind-ends :
      {A B : Type 0} {P : A → World table → Type 0} {Q : B → World table → Type 0}
      {C D : Interval → Interval → Type 0} (o : Outcome (A × World table)) (f : A → M table B)
      → Settles P C o
      → ((i j : Interval) → C i j → D i j)
      → ((a : A) (w : World table) → P a w → Settles Q D (f a w))
      → Settles Q D (elim o [ ok (a, w') ↦ f a w' | fault e ↦ fault e ])
  bind-ends (ok (a, w)) f p r k = k a w p.ends
  bind-ends (fault e) f p r k = record { ends = IsReport-imp e r p.ends }

  -- A routine that goes on with the result of another.
  pub bind-Settles :
      {A B : Type 0} {P : A → World table → Type 0} {Q : B → World table → Type 0}
      {C D : Interval → Interval → Type 0} (m : M table A) (f : A → M table B) (w : World table)
      → Settles P C (m w)
      → ((i j : Interval) → C i j → D i j)
      → ((a : A) (w' : World table) → P a w' → Settles Q D (f a w'))
      → Settles Q D ((m >>= f) w)
  unfolding ◌>>=◌
  bind-Settles m f w p r k = bind-ends (m w) f p r k

  -- What holds of a result that is returned.
  pub settled :
      {A : Type 0} {P : A → World table → Type 0} {Q : Interval → Interval → Type 0}
      {o : Outcome (A × World table)} {a : A} {w : World table}
      → Settles P Q o
      → o ≡ ok (a, w)
      → P a w
  settled {P = P} {Q = Q} s e = (subst (Settles P Q) e s).ends

  -- Weaker statements of both ends.
  pub Settles-imp :
      {A : Type 0} {P P' : A → World table → Type 0} {Q Q' : Interval → Interval → Type 0}
      {o : Outcome (A × World table)}
      → ((a : A) (w : World table) → P a w → P' a w)
      → ((i j : Interval) → Q i j → Q' i j)
      → Settles P Q o
      → Settles P' Q' o
  Settles-imp {o = ok (a, w)} f g s = record { ends = f a w s.ends }
  Settles-imp {o = fault e} f g s = record { ends = IsReport-imp e g s.ends }

  look_up :
      {B : Type 0}
      → (WinState → M table B)
      → World table
      → Option WinState
      → Outcome (B × World table)
  look_up f w o =
      elim (elim o as (λ _. Outcome (WinState × World table)) [
        | none ↦ fault exit_failure
        | some state ↦ ok (state, w)
      ]) [ ok (a, w') ↦ f a w' | fault e ↦ fault e ]

  -- A routine that reads the state of a window goes on with that state.
  pub get_state-eq :
      {B : Type 0} (win : ℕ) (f : WinState → M table B) (w : World table) (x : WinState)
      → table.find w.state_htbl win ≡ some x
      → (rma_analyzer_get_state win >>= f) w ≡ f x w
  unfolding ◌>>=◌ rma_analyzer_get_state look_up
  get_state-eq win f w x e = ap (look_up f w) e

  pub get_state-Settles :
      {B : Type 0} {P : B → World table → Type 0} {Q : Interval → Interval → Type 0} (win : ℕ)
      (f : WinState → M table B) (w : World table) (x : WinState)
      → table.find w.state_htbl win ≡ some x
      → Settles P Q (f x w)
      → Settles P Q ((rma_analyzer_get_state win >>= f) w)
  get_state-Settles {P = P} {Q = Q} win f w x e s =
      subst (Settles P Q) (sym (get_state-eq win f w x e)) s

  pub if-Settles :
      {A : Type 0} {P : A → World table → Type 0} {Q : Interval → Interval → Type 0} (b : Bool)
      (m n : M table A) (w : World table)
      → (b ≡ true → Settles P Q (m w))
      → (b ≡ false → Settles P Q (n w))
      → Settles P Q ((if b then m else n) w)
  if-Settles true m n w f g = f refl
  if-Settles false m n w f g = g refl

-- The state of the window after a write of it.
pub find-written :
    (table : StateTable) (s : table.Store) (win : ℕ) (x y : WinState)
    → table.find s win ≡ some x
    → y.state_win ≡ x.state_win
    → table.find (table.write s y) win ≡ some y
find-written table s win x y e same =
    let here : y.state_win ≡ win = same ∙ table.state_win-find s win e in
    ap (table.find (table.write s y)) (sym here)
    ∙ table.find-write s y
    ∙ ap (Option.map (λ _. y)) (ap (table.find s) here ∙ e)

-- A write of the state of a window leaves those of others alone.
pub find-written_ne :
    (table : StateTable) (s : table.Store) (win : ℕ) (x y : WinState)
    → table.find s win ≡ some x
    → y.state_win ≡ x.state_win
    → (v : ℕ) → v ≢ win
    → table.find (table.write s y) v ≡ table.find s v
find-written_ne table s win x y e same v n =
    table.find-write_ne s y v (λ q. n (q ∙ same ∙ table.state_win-find s win e))
