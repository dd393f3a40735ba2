-- ===== src/Analyzer/Protocol/Saving.antt =====
-- Every branch of `rma_analyzer_save_interval` on a window of the table.
use parcoach_rma.Common.{
  ◌∙◌, ℕ, ◌≡◌, refl, Option, none, some, Bool, true, false, not, ◌&&◌, if◌then◌else◌, pos, ltb_ℤ,
}
use parcoach_rma.Interval.{Interval}
use parcoach_rma.IntervalTree.{overlap_search, insert_interval_tree}
use parcoach_rma.NotifTree.{insert_notif_tree}
use parcoach_rma.Analyzer.State.{WinState, StateTable, World}
use parcoach_rma.Analyzer.Monad.{◌>>=◌, pure, gets, fail, put_state}
use parcoach_rma.Analyzer.Save.{
  is_saved_in, insert_unless_overlap, rma_analyzer_save_notif, rma_analyzer_save_interval,
}
use parcoach_rma.Analyzer.Protocol.{
  Settles, bind-Settles, get_state-Settles, find-written, find-written_ne, OthersKept, if-Settles,
}

-- The state with the interval in its trees: a notified interval is in both.
abbrev pub with_saved : Bool → WinState → Interval → WinState
with_saved notified x itv = record x {
  local_tree = insert_interval_tree x.local_tree itv;
  notif_tree =
      if notified && not (ltb_ℤ itv.notification_id (pos 0))
      then insert_notif_tree x.notif_tree itv
      else x.notif_tree;
}

module _ {table : StateTable} (notified : Bool) (itv : Interval) (win : ℕ) where
  -- The window's state in the table.
  abbrev pub Holding : WinState → World table → Type 0
  Holding x w = table.find w.state_htbl win ≡ some x

  module _ (x : WinState) (w : World table) (e : table.find w.state_htbl win ≡ some x) where
    -- The call saved the interval and returned true, or left the table alone and returned false.
    abbrev pub Saved : Bool → World table → Type 0
    Saved true w' =
        Holding (with_saved notified x itv) w'
        × (is_saved_in w.filter_window x itv ≡ true)
        × (overlap_search x.local_tree itv ≡ none)
        × OthersKept win w w'
    Saved false w' = (w' ≡ w) × (is_saved_in w.filter_window x itv ≡ false)

    -- The reported race is one that the search found.
    abbrev pub Reported : Interval → Interval → Type 0
    Reported i j =
        (i ≡ itv)
        × (overlap_search x.local_tree itv ≡ some j)
        × (is_saved_in w.filter_window x itv ≡ true)

    abbrev with_interval : WinState
    with_interval = record x { local_tree = insert_interval_tree x.local_tree itv }

    abbrev written : World table
    written = record w { state_htbl = table.write w.state_htbl with_interval }

    saved-now : Holding with_interval written
    saved-now = find-written table w.state_htbl win x with_interval e refl

    written-OthersKept : OthersKept win w written
    written-OthersKept =
        (find-written_ne table w.state_htbl win x with_interval e refl, refl, refl, refl)

    notif-Settles :
        (b : Bool)
        → Settles
            (λ _ w'. Holding (with_saved b x itv) w' × OthersKept win w w')
            (λ _ _. ⊥)
            ((if b then rma_analyzer_save_notif {table = table} notified itv win else pure tt)
              written)
    unfolding rma_analyzer_save_notif pure put_state
    notif-Settles false = record { ends = (saved-now, written-OthersKept) }
    notif-Settles true =
        if-Settles (ltb_ℤ itv.notification_id (pos 0)) _ _ written
          (λ q. record { ends = rw q (saved-now, written-OthersKept) })
          (λ q. get_state-Settles win _ written with_interval saved-now (record {
            ends = rw q (
              find-written table (table.write w.state_htbl with_interval) win with_interval _
                  saved-now refl,
              (
                λ v n.
                    find-written_ne table written.state_htbl win with_interval _ saved-now refl v n
                    ∙ find-written_ne table w.state_htbl win x with_interval e refl v n,
                refl,
                refl,
                refl,
              ),
            );
          }))

    insert-Settles :
        is_saved_in w.filter_window x itv ≡ true
        → (o : Option Interval) → overlap_search x.local_tree itv ≡ o
        → Settles Saved Reported (insert_unless_overlap {table = table} notified x itv win o w)
    unfolding insert_unless_overlap fail ◌>>=◌ put_state pure
    insert-Settles inside (some j) f = record { ends = (refl, f, inside) }
    insert-Settles inside none f =
        bind-Settles {Q = Saved} {D = Reported}
          (if notified then rma_analyzer_save_notif notified itv win else pure tt) (λ _. pure true)
          written (notif-Settles notified) (λ i j c. absurd c)
          (λ _ w' h. record { ends = (h.0, inside, f, h.1) })

    -- On a window of the table the call saves an interval that the filter lets pass and that the
    -- search finds no conflict for, in the tree of notifications too if it is notified, leaves
    -- other windows, the sent messages, the filter and the tag ranges alone, and returns true. It
    -- reports the conflict that the search finds. It leaves everything alone and returns false
    -- where the filter holds the interval back. It ends in no other way.
    pub save_interval_lem : Settles Saved Reported (rma_analyzer_save_interval notified itv win w)
    unfolding rma_analyzer_save_interval ◌>>=◌ gets pure
    save_interval_lem = get_state-Settles win _ w x e (
        if-Settles (is_saved_in w.filter_window x itv) _ _ w
          (λ q. insert-Settles q (overlap_search x.local_tree itv) refl)
          (λ q. record { ends = (refl, q) }))
