-- ===== src/Analyzer/Lifetime.antt =====
-- src/core/rma_analyzer.c: the start of the analysis of a window and its end.
use mathlib.Core.Path.{subst}
use native.Mathlib.Decide.{ℕ_discrete}
use parcoach_rma.Common.{
  ℕ, ◌≡◌, refl, sym, ◌∙◌, ap, Bool, true, not, Option, none, some, List, ℤ, pos, set, eqb_ℤ,
  if◌then◌else◌,
}
use parcoach_rma.Analyzer.State.{
  Lang, no_language, c, fort, WinState, StateTable, Outcome, ok, fault, assertion_failed, World,
}
use parcoach_rma.Analyzer.Monad.{◌>>=◌, ◌>>◌, gets, modify}
use parcoach_rma.Analyzer.Window.{
  same_language, new_state, tag_of_range, rma_analyzer_get_tag_range_id, rma_analyzer_start,
  remove_window, rma_analyzer_stop,
}
use parcoach_rma.Analyzer.Tags.{FirstFree, free_tag_range-get_tag_range_id}
use parcoach_rma.Analyzer.Protocol.{Settles, get_state-Settles}
use parcoach_rma.Analyzer.Protocol.Reception.{go_on}
use parcoach_rma.Analyzer.Restart.{NoReport}

-- A program that the analyzer has known as one in `old` starts a window in `language`.
abbrev pub Speaks : Lang → Lang → Type 0
Speaks no_language no_language = ⊥
Speaks no_language c = Unit
Speaks no_language fort = Unit
Speaks c c = Unit
Speaks c fort = ⊥
Speaks c no_language = ⊥
Speaks fort fort = Unit
Speaks fort c = ⊥
Speaks fort no_language = ⊥

spoken :
    (old language : Lang)
    → Speaks old language
    → ((if same_language old no_language then language else old) ≡ language)
      × (same_language language language ≡ true)
unfolding same_language
spoken no_language no_language s = absurd s
spoken no_language c s = (refl, refl)
spoken no_language fort s = (refl, refl)
spoken c c s = (refl, refl)
spoken c fort s = absurd s
spoken c no_language s = absurd s
spoken fort fort s = (refl, refl)
spoken fort c s = absurd s
spoken fort no_language s = absurd s

-- The value of the filter after the environment has been read.
abbrev pub filter_after : Option ℤ → Bool → Bool
filter_after env old = elim env as (λ _. Bool) [ none ↦ old | some v ↦ not (eqb_ℤ v (pos 0)) ]

module _ {table : StateTable} (notified : Bool) (base size comm size_comm : ℕ) (array : List ℕ)
    (win : ℕ) (language : Lang) (env : Option ℤ) (i : ℕ) (w : World table) where
  abbrev pub fresh : WinState
  fresh = new_state base size comm size_comm array win (tag_of_range (pos i))

  abbrev pub started : World table
  started = record w {
    state_htbl = table.add w.state_htbl fresh;
    win_mpi_tag_id = set w.win_mpi_tag_id i 1;
    language_program = language;
    filter_window = filter_after env w.filter_window;
  }

  -- The world after the start, by the language, the range of tags and the array of ranges.
  abbrev started_with : Lang → ℤ × List ℕ → World table
  started_with l (id, ids) = record w {
    state_htbl =
        table.add w.state_htbl (new_state base size comm size_comm array win (tag_of_range id));
    win_mpi_tag_id = ids;
    language_program = l;
    filter_window = filter_after env w.filter_window;
  }

  abbrev checked : Lang → ℤ × List ℕ → Outcome (Unit {0} × World table)
  checked l t =
      if same_language l language then ok (tt, started_with l t) else fault assertion_failed

  -- A window that starts gets the first free range of tags.
  pub start-eq :
      FirstFree w.win_mpi_tag_id i
      → Speaks w.language_program language
      → rma_analyzer_start notified base size comm size_comm array win language env w
        ≡ ok (tt, started)
  unfolding rma_analyzer_start
  start-eq f s =
      let (taken, _) = free_tag_range-get_tag_range_id w.win_mpi_tag_id i f in
      let (chosen, same) = spoken w.language_program language s in
      ap (λ l. checked l (rma_analyzer_get_tag_range_id w.win_mpi_tag_id)) chosen
      ∙ ap (checked language) taken
      ∙ ap
          (λ (b : Bool).
            if b
            then ok (tt, started_with language (pos i, set w.win_mpi_tag_id i 1))
            else fault assertion_failed)
          same

  find_fresh : table.find w.state_htbl win ≡ none → table.find started.state_htbl win ≡ some fresh
  unfolding new_state
  find_fresh n = table.find-add w.state_htbl fresh n

  -- The table finds for each window what it found before the start.
  find_stopped :
      table.find w.state_htbl win ≡ none
      → (v : ℕ) → table.find (table.del started.state_htbl win) v ≡ table.find w.state_htbl v
  unfolding new_state
  find_stopped n v = elim (ℕ_discrete v win) [
    | yes here ↦
        ap (table.find (table.del started.state_htbl win)) here
        ∙ table.find-del started.state_htbl win
        ∙ sym (ap (table.find w.state_htbl) here ∙ n)
    | no other ↦
        table.find-del_ne started.state_htbl win v other
        ∙ table.find-add_ne w.state_htbl fresh v other
  ]

  abbrev pub Restored : World table → Type 0
  Restored u =
      ((v : ℕ) → table.find u.state_htbl v ≡ table.find w.state_htbl v)
      × (u.win_mpi_tag_id ≡ w.win_mpi_tag_id)
      × (u.sent ≡ w.sent)
      × (u.language_program ≡ language)

  stop-Restored :
      FirstFree w.win_mpi_tag_id i
      → table.find w.state_htbl win ≡ none
      → Settles (λ _ u. Restored u) NoReport (rma_analyzer_stop notified win started)
  unfolding rma_analyzer_stop ◌>>=◌ gets remove_window modify new_state
  stop-Restored f n = get_state-Settles win _ started fresh (find_fresh n) (
      subst
        (λ o.
          Settles (λ _ u. Restored u) NoReport
            (remove_window {table = table} notified win o started))
        (sym (free_tag_range-get_tag_range_id w.win_mpi_tag_id i f).1)
        (record { ends = (find_stopped n, refl, refl, refl) }))

  -- While a range of tags is free, the start of a window that the table does not have, by a program
  -- in the language that the analyzer knows, if any, and the end of it leave the states of all
  -- windows, the ranges of tags and the sent messages as they were before. Both calls return.
  pub stop-start :
      FirstFree w.win_mpi_tag_id i
      → Speaks w.language_program language
      → table.find w.state_htbl win ≡ none
      → Settles
          (λ _ u. Restored u)
          NoReport
          ((do
            rma_analyzer_start notified base size comm size_comm array win language env
            rma_analyzer_stop notified win)
            w)
  stop-start f s n = go_on notified win _ _ w started tt (start-eq f s) (stop-Restored f n)
