-- ===== src/Analyzer/Monad.antt =====
-- Routines as functions of the analyzer's globals that return, or end in a fault.
use parcoach_rma.Common.{ℕ, none, some, List}
use parcoach_rma.Analyzer.State.{WinState, StateTable, Fault, exit_failure, ok, fault, World, M}

module _ {table : StateTable} where
  unfoldable pub pure : {A : Type 0} → A → M table A
  pure a w = ok (a, w)

  unfoldable pub fail : {A : Type 0} → Fault → M table A
  fail f w = fault f

  infixl 5 ◌>>=◌ ◌>>◌
  unfoldable pub ◌>>=◌ : {A B : Type 0} → M table A → (A → M table B) → M table B
  ◌>>=◌ m f w = elim (m w) [ ok (a, w') ↦ f a w' | fault e ↦ fault e ]

  abbrev pub ◌>>◌ : {B : Type 0} → M table (Unit {0}) → M table B → M table B
  m >> k = m >>= λ _. k

  unfoldable pub gets : {A : Type 0} → (World table → A) → M table A
  gets f w = ok (f w, w)

  unfoldable pub modify : (World table → World table) → M table (Unit {0})
  modify f w = ok (tt, f w)

  -- Assignments to the fields of a state.
  unfoldable pub put_state : WinState → M table (Unit {0})
  put_state x w = ok (tt, record w { state_htbl = table.write w.state_htbl x })

  -- A state that is not found ends the program.
  unfoldable pub rma_analyzer_get_state : ℕ → M table WinState
  rma_analyzer_get_state win w = elim (table.find w.state_htbl win) [
    | none ↦ fault exit_failure
    | some state ↦ ok (state, w)
  ]

  -- The keys of the table, in the order in which it is walked through.
  abbrev pub get_wins : M table (List ℕ)
  get_wins = gets (λ w. table.wins w.state_htbl)
