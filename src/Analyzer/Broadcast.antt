-- ===== src/Analyzer/Broadcast.antt =====
-- src/core/rma_analyzer.c: a load or a store is an access to every window with an active epoch.
use mathlib.Core.Option.{some-injective}
use native.Mathlib.Decide.{ℕ_discrete}
use mathlib.Core.Path.{subst}
use parcoach_rma.Common.{
  ℕ, ◌+◌, ◌%◌, ◌^◌, ◌≡◌, refl, sym, ◌∙◌, ap, Option, some, Bool, true, false, ◌&&◌, List, [], ◌∷◌,
  ℤ, negsuc, ltb, if◌then◌else◌,
}
use parcoach_rma.Interval.{AccessType, Interval, create_interval}
use parcoach_rma.IntervalTree.Overlap.{overlap_search_sound}
use parcoach_rma.Analyzer.State.{WinState, StateTable, World}
use parcoach_rma.Analyzer.Monad.{◌>>=◌, gets, pure}
use parcoach_rma.Analyzer.Save.{
  is_saved_in, rma_analyzer_save_interval, save_interval_wins, rma_analyzer_save_interval_all_wins,
}
use parcoach_rma.Analyzer.Protocol.{Settles, bind-Settles, Settles-imp, if-Settles, OthersKept}
use parcoach_rma.Analyzer.Protocol.Saving.{with_saved, Saved, save_interval_lem}
use parcoach_rma.Analyzer.Protocol.Reception.{Conflict, go_on}
use parcoach_rma.Analyzer.Restart.{
  is_among, is_among_here, is_among_there, AllFound, is_active_epoch-eq,
}

-- No window stands twice in the list.
abbrev pub AllDistinct : List ℕ → Type 0
AllDistinct [] = Unit
AllDistinct (win ∷ rest) = (is_among win rest ≡ false) × AllDistinct rest

-- The state of a window after an access of the process: the interval is in the trees of a window
-- with an active epoch that the filter lets it pass to.
unfoldable pub with_access : Bool → Bool → Interval → WinState → WinState
with_access notified filter itv x =
    if ltb 0 x.active_epoch && is_saved_in filter x itv then with_saved notified x itv else x

with_access_then :
    (notified filter : Bool) (itv : Interval) (x : WinState)
    → ltb 0 x.active_epoch ≡ true
    → is_saved_in filter x itv ≡ true
    → with_access notified filter itv x ≡ with_saved notified x itv
unfolding with_access
with_access_then notified filter itv x a s = rw (a, s) refl

with_access_outside :
    (notified filter : Bool) (itv : Interval) (x : WinState)
    → ltb 0 x.active_epoch ≡ true
    → is_saved_in filter x itv ≡ false
    → with_access notified filter itv x ≡ x
unfolding with_access
with_access_outside notified filter itv x a s = rw (a, s) refl

with_access_idle :
    (notified filter : Bool) (itv : Interval) (x : WinState)
    → ltb 0 x.active_epoch ≡ false
    → with_access notified filter itv x ≡ x
unfolding with_access
with_access_idle notified filter itv x a = rw a refl

-- What `rma_analyzer_save_interval_all_wins` saves.
abbrev pub accessed : ℕ → ℕ → AccessType → ℤ → Option (List ℕ) → Interval
accessed address size access line name =
    create_interval address ((address + size) % 2 ^ 64) access (negsuc 0) line name

module _ {table : StateTable} (notified : Bool) (itv : Interval) where
  abbrev SavedOne : ℕ → WinState → World table → World table → Type 0
  SavedOne win x w w' =
      (table.find w'.state_htbl win ≡ some (with_access notified w.filter_window itv x))
      × OthersKept win w w'

  same_world : (win : ℕ) (w : World table) {w' : World table} → w ≡ w' → OthersKept win w w'
  same_world win w q = subst (λ u. OthersKept win w u) q ((λ v n. refl), refl, refl, refl)

  saved-SavedOne :
      (win : ℕ) (x : WinState) (w : World table)
      → table.find w.state_htbl win ≡ some x
      → ltb 0 x.active_epoch ≡ true
      → Settles
          (λ _ w'. SavedOne win x w w')
          Conflict
          (rma_analyzer_save_interval notified itv win w)
  saved-SavedOne win x w e active =
      Settles-imp one (λ i j h. rw h.0 (overlap_search_sound x.local_tree itv h.1).1)
        (save_interval_lem notified itv win x w e)
    where
      one : (b : Bool) (w' : World table) → Saved notified itv win x w e b w' → SavedOne win x w w'
      one true w' h =
          (h.0 ∙ ap some (sym (with_access_then notified w.filter_window itv x active h.1)), h.3)
      one false w' h = (
        ap (λ u. table.find u.state_htbl win) h.0
            ∙ e
            ∙ ap some (sym (with_access_outside notified w.filter_window itv x active h.1)),
        same_world win w (sym h.0),
      )

  round-SavedOne :
      (win : ℕ) (x : WinState) (w : World table)
      → table.find w.state_htbl win ≡ some x
      → Settles
          (λ _ w'. SavedOne win x w w')
          Conflict
          ((if ltb 0 x.active_epoch
              then (do _ ← rma_analyzer_save_interval notified itv win; pure tt)
              else pure tt)
            w)
  unfolding pure
  round-SavedOne win x w e =
      if-Settles (ltb 0 x.active_epoch) _ _ w
        (λ q.
          bind-Settles _ _ w (saved-SavedOne win x w e q) (λ i j k. k)
            (λ _ w' h. record { ends = h }))
        (λ q. record {
          ends = (
            e ∙ ap some (sym (with_access_idle notified w.filter_window itv x q)),
            ((λ v n. refl), refl, refl, refl),
          );
        })

  -- `x` is the state of the first window before its round, `w` the table before it.
  module _ (win : ℕ) (rest : List ℕ) (x : WinState) (w w' : World table)
      (e : table.find w.state_htbl win ≡ some x) (h : SavedOne win x w w') where
    AllFound-saved : (wins : List ℕ) → AllFound notified w wins → AllFound notified w' wins
    AllFound-saved [] a = tt
    AllFound-saved (v ∷ wins) ((y, f), a) = (
      elim (ℕ_discrete v win) [
        | yes same ↦ (_, ap (table.find w'.state_htbl) same ∙ h.0)
        | no other ↦ (y, h.1.0 v other ∙ f)
      ],
      AllFound-saved wins a,
    )

    all_saved :
        (u : World table) (v : ℕ) (y : WinState)
        → table.find w.state_htbl v ≡ some y
        → is_among win rest ≡ false
        → ((v : ℕ) (z : WinState)
            → table.find w'.state_htbl v ≡ some z
            → table.find u.state_htbl v
              ≡ some (if is_among v rest then with_access notified w'.filter_window itv z else z))
        → table.find u.state_htbl v
          ≡ some (if is_among v (win ∷ rest) then with_access notified w.filter_window itv y else y)
    all_saved u v y f once k = elim (ℕ_discrete v win) [
      | yes same ↦
          k v (with_access notified w.filter_window itv x)
            (ap (table.find w'.state_htbl) same ∙ h.0)
          ∙ ap
              (λ b. some (
                if b
                then with_access notified w'.filter_window itv
                    (with_access notified w.filter_window itv x)
                else with_access notified w.filter_window itv x))
              (ap (λ n. is_among n rest) same ∙ once)
          ∙ ap (λ z. some (with_access notified w.filter_window itv z))
              (some-injective x y (sym e ∙ ap (table.find w.state_htbl) (sym same) ∙ f))
          ∙ ap (λ b. some (if b then with_access notified w.filter_window itv y else y))
              (sym (is_among_here v win rest same))
      | no other ↦
          k v y (h.1.0 v other ∙ f)
          ∙ ap (λ g. some (if is_among v rest then with_access notified g itv y else y)) h.1.2
          ∙ ap (λ b. some (if b then with_access notified w.filter_window itv y else y))
              (sym (is_among_there v win rest other))
    ]

module _ {table : StateTable} (notified : Bool) (address size : ℕ) (access : AccessType) (line : ℤ)
    (name : Option (List ℕ)) where
  save_interval_wins_lem :
      (wins : List ℕ) (w : World table)
      → AllFound notified w wins
      → AllDistinct wins
      → Settles
          (λ _ u.
            (v : ℕ) (x : WinState)
            → table.find w.state_htbl v ≡ some x
            → table.find u.state_htbl v
              ≡ some (
                  if is_among v wins
                  then with_access notified w.filter_window
                      (accessed address size access line name)
                      x
                  else x))
          Conflict
          (save_interval_wins {table = table} notified address size access line name wins w)
  unfolding save_interval_wins is_among pure
  save_interval_wins_lem [] w a d = record { ends = λ v x e. e }
  save_interval_wins_lem (win ∷ rest) w ((x, e), a) (once, d) =
      go_on notified win _ _ w w (ltb 0 x.active_epoch) (is_active_epoch-eq notified win x w e) (
        bind-Settles _ _ w
          (round-SavedOne notified (accessed address size access line name) win x w e) (λ i j k. k)
          (λ _ w' h.
            Settles-imp
              (λ _ u k v y f.
                all_saved notified (accessed address size access line name) win rest x w w' e h u v
                  y f once k)
              (λ i j k. k)
              (save_interval_wins_lem rest w'
                (AllFound-saved notified (accessed address size access line name) win rest x w w' e
                  h rest a)
                d)))

  -- Where the keys of the table are distinct and have states, a local access is saved in exactly
  -- those of the windows that have an active epoch and that the filter lets it pass to, and all
  -- others are left alone, or the call reports two intervals that conflict. It ends in no other way.
  pub save_interval_all_wins_lem :
      (w : World table)
      → AllFound notified w (table.wins w.state_htbl)
      → AllDistinct (table.wins w.state_htbl)
      → Settles
          (λ _ u.
            (v : ℕ) (x : WinState)
            → table.find w.state_htbl v ≡ some x
            → table.find u.state_htbl v
              ≡ some (
                  if is_among v (table.wins w.state_htbl)
                  then with_access notified w.filter_window
                      (accessed address size access line name)
                      x
                  else x))
          Conflict
          (rma_analyzer_save_interval_all_wins notified address size access line name w)
  unfolding rma_analyzer_save_interval_all_wins ◌>>=◌ gets
  save_interval_all_wins_lem w a d = save_interval_wins_lem (table.wins w.state_htbl) w a d
