-- ===== src/Analyzer/Invariant/Windows.antt =====
-- The routines over all windows, the announcement of a communication, and the start and stop of the
-- analysis of a window keep the invariant of the table.
use mathlib.Core.Path.{subst}
use mathlib.Core.Option.{some-injective}
use native.Mathlib.Decide.{ℕ_discrete}
use parcoach_rma.Common.{
  ℕ, ◌+◌, ◌≡◌, sym, ◌∙◌, ap, Bool, true, false, Option, none, some, List, [], ◌∷◌, ℤ, length, not,
  eqb_ℤ, pos, length-set, set, if◌then◌else◌,
}
use parcoach_rma.Interval.{AccessType, Interval}
use parcoach_rma.Analyzer.State.{
  Lang, WinState, StateTable, Message, World, Fault, ok, fault, no_language, assertion_failed,
}
use parcoach_rma.Analyzer.Monad.{pure, modify}
use parcoach_rma.Analyzer.Epoch.{
  init_wins, rma_analyzer_init_comm_check_thread_all_wins, clear_wins,
  rma_analyzer_clear_comm_check_thread_all_wins,
}
use parcoach_rma.Analyzer.Window.{
  same_language, new_state, tag_of_range, rma_analyzer_get_tag_range_id, rma_analyzer_start,
  remove_window, rma_analyzer_stop, increment, count_send, send, rma_analyzer_update_on_comm_send,
}
use parcoach_rma.Analyzer.Invariant.Epochs.{init-Keeps, clear-Keeps, with_flags, with_array}
use parcoach_rma.Analyzer.Invariant.{
  Lands, Everywhere, fail-Keeps, Keeps, bind-Keeps, get_state-Keeps, put_state-Keeps, if-Keeps,
  pure-Keeps, keeps_rules,
}
use parcoach_rma.Analyzer.Invariant.Sound.{IsSound, sound_trees}
use parcoach_rma.Analyzer.Invariant.Routines.{is_active_epoch-Keeps, save_interval-Keeps}

module _ {table : StateTable} (notified : Bool) where
  init_wins-Keeps : (wins : List ℕ) → Keeps IsSound (init_wins {table = table} notified wins)
  unfolding init_wins
  init_wins-Keeps [] = search keeps_rules
  init_wins-Keeps (win ∷ rest) =
      bind-Keeps _ _ (is_active_epoch-Keeps sound_trees notified win) (λ active.
        get_state-Keeps win _
          (λ x s. bind-Keeps _ _ (search (keeps_rules, init-Keeps)) (λ _. init_wins-Keeps rest)))

  pub init_all_wins-Keeps :
      Keeps IsSound (rma_analyzer_init_comm_check_thread_all_wins {table = table} notified)
  unfolding rma_analyzer_init_comm_check_thread_all_wins
  init_all_wins-Keeps = search (keeps_rules, init_wins-Keeps)

  clear_wins-Keeps :
      (do_reduce : Bool) (totals : ℕ → ℕ) (incomings : ℕ → List Interval) (wins : List ℕ)
      → Keeps IsSound (clear_wins {table = table} notified do_reduce totals incomings wins)
  unfolding clear_wins
  clear_wins-Keeps do_reduce totals incomings [] = search keeps_rules
  clear_wins-Keeps do_reduce totals incomings (win ∷ rest) =
      bind-Keeps _ _ (is_active_epoch-Keeps sound_trees notified win) (λ active.
        bind-Keeps _ _
          (if-Keeps active _ (pure tt)
            (bind-Keeps _ _ (clear-Keeps notified do_reduce (totals win) (incomings win) win)
              (λ _. get_state-Keeps win _ (λ x s. put_state-Keeps _ (with_flags s _ _ _ _))))
            (pure-Keeps tt))
          (λ _. clear_wins-Keeps do_reduce totals incomings rest))

  pub clear_all_wins-Keeps :
      (do_reduce : Bool) (totals : ℕ → ℕ) (incomings : ℕ → List Interval)
      → Keeps IsSound (
          rma_analyzer_clear_comm_check_thread_all_wins {table = table} notified do_reduce totals
            incomings)
  unfolding rma_analyzer_clear_comm_check_thread_all_wins
  clear_all_wins-Keeps do_reduce totals incomings = search (keeps_rules, clear_wins-Keeps)

  increment-Keeps :
      (x : WinState) (rank : ℕ) (o : Option ℕ)
      → IsSound x
      → Keeps IsSound (increment {table = table} notified x rank o)
  unfolding increment
  increment-Keeps x rank none s = search keeps_rules
  increment-Keeps x rank (some n) s =
      put_state-Keeps _
        (with_array s (set x.array rank (n + 1)) (length-set x.array rank (n + 1) ∙ s.counters))

  count_send-Keeps : (rank win : ℕ) → Keeps IsSound (count_send {table = table} notified rank win)
  unfolding count_send
  count_send-Keeps rank win = search (keeps_rules, increment-Keeps)

  send-Keeps : (m : Message) → Keeps IsSound (send {table = table} notified m)
  unfolding send modify
  send-Keeps m = record { at = λ w v. v }

  pub update_on_comm_send-Keeps :
      (local_address local_size target_disp target_size rank : ℕ) (here there : AccessType)
      (notif_id line : ℤ) (name : Option (List ℕ)) (win : ℕ)
      → Keeps IsSound (
          rma_analyzer_update_on_comm_send {table = table} notified local_address local_size
            target_disp target_size rank here there notif_id line name win)
  unfolding rma_analyzer_update_on_comm_send
  update_on_comm_send-Keeps local_address local_size target_disp target_size rank here there
        notif_id line name win =
      get_state-Keeps win _ (λ x s.
        bind-Keeps _ _ (save_interval-Keeps sound_trees notified _ win)
          (λ saved. bind-Keeps _ _ (send-Keeps _) (λ _. count_send-Keeps rank win)))

new_state-IsSound :
    (base size comm size_comm : ℕ) (array : List ℕ) (win : ℕ) (tag : ℤ)
    → length array ≡ size_comm
    → IsSound (new_state base size comm size_comm array win tag)
unfolding new_state
new_state-IsSound base size comm size_comm array win tag e = record {
  ordered = tt;
  notified = tt;
  counters = e;
}

add-Everywhere :
    (table : StateTable) (s : table.Store) (x : WinState)
    → table.find s x.state_win ≡ none
    → IsSound x
    → ((win : ℕ) (y : WinState) → table.find s win ≡ some y → IsSound y)
    → (win : ℕ) (y : WinState) → table.find (table.add s x) win ≡ some y
    → IsSound y
add-Everywhere table s x new sound all win y e = elim (ℕ_discrete win x.state_win) [
  | yes here ↦
      subst IsSound
        (some-injective x y
          (sym (table.find-add s x new) ∙ ap (table.find (table.add s x)) (sym here) ∙ e))
        sound
  | no there ↦ all win y (sym (table.find-add_ne s x win there) ∙ e)
]

if-Lands :
    {table : StateTable} (b : Bool) {A : Type 0} (P : A → World table → Type 0) (a : A)
    (w : World table) (f : Fault)
    → P a w
    → Lands P (if b then ok (a, w) else fault f)
if-Lands true P a w f p = p
if-Lands false P a w f p = tt

module _ {table : StateTable} (notified : Bool) where
  -- Starting the analysis of a window that is not in the table keeps the invariant.
  pub start-Lands :
      (base size comm size_comm : ℕ) (array : List ℕ) (win : ℕ) (lang : Lang) (env : Option ℤ)
      (w : World table)
      → length array ≡ size_comm
      → table.find w.state_htbl win ≡ none
      → Everywhere IsSound w
      → Lands
          (λ _ w'. Everywhere IsSound w')
          (rma_analyzer_start {table = table} notified base size comm size_comm array win lang env
            w)
  unfolding rma_analyzer_start new_state
  start-Lands base size comm size_comm array win lang env w e new v =
      if-Lands
        (same_language
          (if same_language w.language_program no_language then lang else w.language_program) lang)
        (λ _ w'. Everywhere IsSound w') tt
        (record w {
          state_htbl = table.add w.state_htbl (
              new_state base size comm size_comm array win
                (tag_of_range (rma_analyzer_get_tag_range_id w.win_mpi_tag_id).0));
          win_mpi_tag_id = (rma_analyzer_get_tag_range_id w.win_mpi_tag_id).1;
          language_program =
              if same_language w.language_program no_language then lang else w.language_program;
          filter_window = elim env [ none ↦ w.filter_window | some v ↦ not (eqb_ℤ v (pos 0)) ];
        })
        assertion_failed
        (add-Everywhere table w.state_htbl
          (new_state base size comm size_comm array win
            (tag_of_range (rma_analyzer_get_tag_range_id w.win_mpi_tag_id).0))
          new (new_state-IsSound base size comm size_comm array win _ e) v)

  remove_window-Keeps :
      (win : ℕ) (ids : Option (List ℕ))
      → Keeps IsSound (remove_window {table = table} notified win ids)
  unfolding remove_window modify
  remove_window-Keeps win none = fail-Keeps _
  remove_window-Keeps win (some ids) = record {
    at = λ w v k y e. elim (ℕ_discrete k win) [
      | yes here ↦ cc (table.find-del w.state_htbl win)
      | no there ↦ v k y (sym (table.find-del_ne w.state_htbl win k there) ∙ e)
    ];
  }

  pub stop-Keeps : (win : ℕ) → Keeps IsSound (rma_analyzer_stop {table = table} notified win)
  unfolding rma_analyzer_stop
  stop-Keeps win = search (keeps_rules, remove_window-Keeps)
