-- ===== src/Examples/Table.antt =====
-- A table of states that the analyzer's tests run on: a list of the states, the newest one first.
use mathlib.Core.Option
use mathlib.Core.Option.{some-injective}
use parcoach_rma.Common.{
  ℕ, ◌≡◌, ◌≢◌, refl, sym, ◌∙◌, ap, Option, none, some, List, [], ◌∷◌, ◌==◌, arith, if◌then◌else◌,
  Bool-cases, inl, inr,
}
use parcoach_rma.Analyzer.State.{WinState, StateTable}

unfoldable pub find_state : List WinState → ℕ → Option WinState
find_state [] win = none
find_state (x ∷ xs) win = if x.state_win == win then some x else find_state xs win

unfoldable pub add_state : List WinState → WinState → List WinState
add_state xs x = x ∷ xs

unfoldable pub del_state : List WinState → ℕ → List WinState
del_state [] win = []
del_state (x ∷ xs) win =
    let rest = del_state xs win in if x.state_win == win then rest else x ∷ rest

unfoldable pub write_state : List WinState → WinState → List WinState
write_state [] y = []
write_state (x ∷ xs) y =
    let rest = write_state xs y in if x.state_win == y.state_win then y ∷ rest else x ∷ rest

unfoldable pub state_wins : List WinState → List ℕ
state_wins [] = []
state_wins (x ∷ xs) = x.state_win ∷ state_wins xs

pub state_win-find_state :
    (s : List WinState) (w : ℕ) {x : WinState} → find_state s w ≡ some x → x.state_win ≡ w
unfolding find_state
state_win-find_state [] w e = cc
state_win-find_state (y ∷ s) w {x} e = elim (Bool-cases (y.state_win == w)) [
  | inl h ↦
      let found : some y ≡ some x = sym (ap (λ b. if b then some y else find_state s w) h) ∙ e in
      ap (λ (z : WinState). z.state_win) (sym (some-injective y x found)) ∙ ground arith
  | inr h ↦ state_win-find_state s w (sym (ap (λ b. if b then some y else find_state s w) h) ∙ e)
]

pub find_state-nothing : (w : ℕ) → find_state [] w ≡ none
unfolding find_state
find_state-nothing w = refl

pub find_state-add :
    (s : List WinState) (x : WinState) → find_state (add_state s x) x.state_win ≡ some x
unfolding find_state add_state
find_state-add s x = ground arith

pub find_state-add_ne :
    (s : List WinState) (x : WinState) (w : ℕ)
    → w ≢ x.state_win
    → find_state (add_state s x) w ≡ find_state s w
unfolding find_state add_state
find_state-add_ne s x w n = ground arith

pub find_state-del : (s : List WinState) (w : ℕ) → find_state (del_state s w) w ≡ none
unfolding find_state del_state
find_state-del [] w = refl
find_state-del (x ∷ s) w = ground (arith, find_state-del s w)

pub find_state-del_ne :
    (s : List WinState) (w v : ℕ) → v ≢ w → find_state (del_state s w) v ≡ find_state s v
unfolding find_state del_state
find_state-del_ne [] w v n = refl
find_state-del_ne (x ∷ s) w v n = ground (arith, find_state-del_ne s w v n)

pub find_state-write :
    (s : List WinState) (x : WinState)
    → find_state (write_state s x) x.state_win ≡ Option.map (λ _. x) (find_state s x.state_win)
unfolding find_state write_state
find_state-write [] x = refl
find_state-write (y ∷ s) x = ground (arith, find_state-write s x)

pub find_state-write_ne :
    (s : List WinState) (x : WinState) (w : ℕ)
    → w ≢ x.state_win
    → find_state (write_state s x) w ≡ find_state s w
unfolding find_state write_state
find_state-write_ne [] x w n = refl
find_state-write_ne (y ∷ s) x w n = ground (arith, find_state-write_ne s x w n)

pub state_wins-write :
    (s : List WinState) (x : WinState) → state_wins (write_state s x) ≡ state_wins s
unfolding state_wins write_state
state_wins-write [] x = refl
state_wins-write (y ∷ s) x = ground (arith, state_wins-write s x)

abbrev pub list_table : StateTable
list_table = record {
  Store = List WinState;
  nothing = [];
  find = find_state;
  add = add_state;
  del = del_state;
  wins = state_wins;
  write = write_state;
  find-nothing = find_state-nothing;
  state_win-find = state_win-find_state;
  find-add = λ s x n. find_state-add s x;
  find-add_ne = find_state-add_ne;
  find-del = find_state-del;
  find-del_ne = find_state-del_ne;
  find-write = find_state-write;
  find-write_ne = find_state-write_ne;
  wins-write = state_wins-write;
}
