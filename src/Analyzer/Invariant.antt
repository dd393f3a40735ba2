-- ===== src/Analyzer/Invariant.antt =====
-- Invariants of the analyzer's table: a property that each state in it has, and the rules by which a
-- routine keeps it.
pub mod Routines
pub mod Sound
pub mod Epochs
pub mod Windows
use mathlib.Core.Option
use mathlib.Core.Option.{some-injective}
use mathlib.Core.Path.{subst}
use native.Mathlib.Decide.{ℕ_discrete}
use parcoach_rma.Common.{
  ℕ, ◌≡◌, ◌≢◌, refl, sym, ◌∙◌, ap, Bool, true, false, Option, none, some, length, Option-cases, inl,
  inr, if◌then◌else◌,
}
use parcoach_rma.Avl.Order.{IsOrdered}
use parcoach_rma.IntervalTree.{interval_keys}
use parcoach_rma.NotifTree.{notif_keys}
use parcoach_rma.Analyzer.State.{
  WinState, StateTable, Fault, exit_failure, Outcome, ok, fault, World, M,
}
use parcoach_rma.Analyzer.Monad.{pure, fail, ◌>>=◌, put_state, rma_analyzer_get_state, gets}

module _ {table : StateTable} where
  -- If the routine returns, `P` holds of what it returns.
  abbrev pub Lands : {A : Type 0} → (A → World table → Type 0) → Outcome (A × World table) → Type 0
  Lands P (ok (a, w)) = P a w
  Lands P (fault f) = Unit

  look : World table → Option WinState → Outcome (WinState × World table)
  look w o = elim o [ none ↦ fault exit_failure | some state ↦ ok (state, w) ]

module _ {table : StateTable} (R : WinState → Type 0) where
  -- Every state of the table has the property.
  abbrev pub Everywhere : World table → Type 0
  Everywhere w = (win : ℕ) (x : WinState) → table.find w.state_htbl win ≡ some x → R x

  -- If the routine starts from such a table and returns, it leaves such a table.
  pub record Keeps {A : Type 0} (m : M table A) : Type 0 where
    pub at : (w : World table) → Everywhere w → Lands (λ a w'. Everywhere w') (m w)

module _ {table : StateTable} {R : WinState → Type 0} where
  bind-Lands :
      {A B : Type 0} (f : A → M table B)
      → ((a : A) → Keeps R (f a))
      → (o : Outcome (A × World table)) → Lands (λ a w. Everywhere R w) o
      → Lands (λ b w. Everywhere R w) (elim o [ ok (a, w) ↦ f a w | fault e ↦ fault e ])
  bind-Lands f kf (ok (a, w)) v = (kf a).at w v
  bind-Lands f kf (fault e) l = tt

  -- The rules for the ways to build a routine.
  pub bind-Keeps :
      {A B : Type 0} (m : M table A) (f : A → M table B)
      → Keeps R m
      → ((a : A) → Keeps R (f a))
      → Keeps R (m >>= f)
  unfolding ◌>>=◌
  bind-Keeps m f km kf = record { at = λ w v. bind-Lands f kf (m w) (km.at w v) }

  pub pure-Keeps : {A : Type 0} (a : A) → Keeps {table = table} R (pure a)
  unfolding pure
  pure-Keeps a = record { at = λ w v. v }

  pub fail-Keeps : {A : Type 0} (e : Fault) → Keeps {table = table} R (fail {A = A} e)
  unfolding fail
  fail-Keeps e = record { at = λ w v. tt }

  pub gets-Keeps : {A : Type 0} (f : World table → A) → Keeps R (gets f)
  unfolding gets
  gets-Keeps f = record { at = λ w v. v }

  found-Lands :
      {B : Type 0} (win : ℕ) (f : WinState → M table B)
      → ((x : WinState) → R x → Keeps R (f x))
      → (w : World table) → Everywhere R w
      → (o : Option WinState) → table.find w.state_htbl win ≡ o
      → Lands
          (λ b w'. Everywhere R w')
          (elim (look w o) [ ok (a, w') ↦ f a w' | fault e ↦ fault e ])
  unfolding look
  found-Lands win f kf w v none e = tt
  found-Lands win f kf w v (some x) e = (kf x (v win x e)).at w v

  -- What follows the reading of a state may rely on the property.
  pub get_state-Keeps :
      {B : Type 0} (win : ℕ) (f : WinState → M table B)
      → ((x : WinState) → R x → Keeps R (f x))
      → Keeps R (rma_analyzer_get_state win >>= f)
  unfolding rma_analyzer_get_state ◌>>=◌ look
  get_state-Keeps win f kf = record {
    at = λ w v. found-Lands win f kf w v (table.find w.state_htbl win) refl;
  }

  pub put_state-Keeps : (x : WinState) → R x → Keeps {table = table} R (put_state x)
  unfolding put_state
  put_state-Keeps x s = record {
    at = λ w v win y e. elim (ℕ_discrete win x.state_win) [
      | yes here ↦ written (table.find w.state_htbl x.state_win) y (
          sym (table.find-write w.state_htbl x)
          ∙ ap (table.find (table.write w.state_htbl x)) (sym here)
          ∙ e)
      | no there ↦ v win y (sym (table.find-write_ne w.state_htbl x win there) ∙ e)
    ];
  }
    where
      written : (o : Option WinState) (y : WinState) → Option.map (λ _. x) o ≡ some y → R y
      written none y e = cc
      written (some z) y e = subst R (some-injective x y e) s

  pub if-Keeps :
      {A : Type 0} (b : Bool) (m n : M table A)
      → Keeps R m
      → Keeps R n
      → Keeps R (if b then m else n)
  if-Keeps true m n km kn = km
  if-Keeps false m n km kn = kn

pub ruleset keeps_rules =
    (get_state-Keeps, bind-Keeps, pure-Keeps, fail-Keeps, gets-Keeps, put_state-Keeps, if-Keeps)
