-- ===== src/Examples/Ends.antt =====
-- The properties of a barrier and of the end of a window, applied.
use mathlib.Core.Path.{subst}
use mathlib.Core.Option.{some-injective}
use parcoach_rma.Common.{
  ℕ, ◌≡◌, refl, arith, none, some, Bool, true, false, List, [], ◌∷◌, ltb, ◌==◌, if◌then◌else◌, pos,
}
use parcoach_rma.Interval.{Interval}
use parcoach_rma.Analyzer.State.{WinState}
use parcoach_rma.Analyzer.Window.{tag_of_range}
use parcoach_rma.Analyzer.Broadcast.{AllDistinct}
use parcoach_rma.Analyzer.Barrier.{Arrives}
use parcoach_rma.Analyzer.Barrier.Loop.{AllArrive}
use parcoach_rma.Analyzer.Restart.{is_among, AllFound}
use parcoach_rma.Analyzer.Protocol.{Settles}
use parcoach_rma.Analyzer.Protocol.Reception.{Conflict}
use parcoach_rma.Overload.{mpi_win_free}
use parcoach_rma.Overload.Static.{new_barrier, new_win_free}
use parcoach_rma.Overload.Fortran.{Ref, new_win_free_}
use parcoach_rma.Overload.Barrier.{Passed, new_barrier_lem}
use parcoach_rma.Overload.Free.{Stopped, LastConflict, win_free_lem}
use parcoach_rma.Examples.Table.{list_table, find_state, state_wins}
use parcoach_rma.Examples.State.{
  read, window, with_window, found_window, window-Everywhere, fenced_window, found_fenced_window,
  fenced_window-Everywhere,
}

-- One interval has been sent to this process for the window, and arrives.
abbrev one_total : ℕ → ℕ
one_total v = 1

abbrev one_incoming : ℕ → List Interval
one_incoming v = read ∷ []

keys-AllFound : AllFound true (with_window window) (list_table.wins (with_window window).state_htbl)
unfolding state_wins
keys-AllFound = ((window, found_window), tt)

keys-AllDistinct : AllDistinct (list_table.wins (with_window window).state_htbl)
unfolding state_wins is_among
keys-AllDistinct = (refl, tt)

window-Arrives :
    (b : Bool) (v : ℕ) (x : WinState)
    → (if b then some window else none) ≡ some x
    → Arrives one_total one_incoming x v
window-Arrives true v x e =
    subst (λ y. Arrives one_total one_incoming y v) (some-injective window x e)
      (omega arith, omega arith)
window-Arrives false v x e = cc

keys-AllArrive :
    AllArrive {table = list_table} true one_total one_incoming
      (with_window window)
      (list_table.wins (with_window window).state_htbl)
unfolding find_state
keys-AllArrive v x _ e _ = window-Arrives (7 == v) v x e

new_barrier_lem_example :
    Settles
      (λ r u.
        (r ≡ 0)
        × ((v : ℕ) (x : WinState)
            → is_among v (list_table.wins (with_window window).state_htbl) ≡ true
            → list_table.find (with_window window).state_htbl v ≡ some x
            → Passed true 0 one_total one_incoming (ltb 0 x.active_epoch) v x u))
      Conflict
      (new_barrier true 0 one_total one_incoming (with_window window))
new_barrier_lem_example =
    new_barrier_lem true 0 one_total one_incoming (with_window window) keys-AllFound
      keys-AllDistinct window-Everywhere keys-AllArrive

abbrev freed_ref : Ref ℕ
freed_ref = record { address = 1032; content = 7 }

fenced_tag : fenced_window.mpi_tag ≡ tag_of_range (pos 0)
unfolding tag_of_range
fenced_tag = refl

win_free_lem_example :
    Settles
      (Stopped true 0 [] 7 0 (with_window fenced_window) fenced_window)
      (LastConflict true 0 [] 7 0 (with_window fenced_window) fenced_window)
      (mpi_win_free true 0 [] 7 (with_window fenced_window))
    × Settles
        (Stopped true 0 [] 7 0 (with_window fenced_window) fenced_window)
        (LastConflict true 0 [] 7 0 (with_window fenced_window) fenced_window)
        (new_win_free true 0 [] 7 (with_window fenced_window))
    × Settles
        (Stopped true 0 [] 7 0 (with_window fenced_window) fenced_window)
        (LastConflict true 0 [] 7 0 (with_window fenced_window) fenced_window)
        (new_win_free_ true (λ h. h) 0 [] freed_ref (with_window fenced_window))
win_free_lem_example =
    win_free_lem true 0 [] 7 0 (with_window fenced_window) fenced_window (λ h. h) freed_ref
      found_fenced_window fenced_window-Everywhere refl fenced_tag (omega arith) refl
