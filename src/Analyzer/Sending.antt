-- ===== src/Analyzer/Sending.antt =====
-- src/core/rma_analyzer.c: what the announcement of a one-sided communication does to its window.
use parcoach_rma.Common.{
  ℕ, ◌+◌, ◌-◌, ◌%◌, ◌^◌, ◌≡◌, refl, sym, ◌∙◌, ap, Option, some, Bool, true, false, List, ◌∷◌, ℤ,
  pos, ◌+ℤ◌, get_elem?, set,
}
use mathlib.Core.Path.{subst}
use parcoach_rma.Interval.{Interval, AccessType, create_interval}
use parcoach_rma.IntervalTree.Overlap.{overlap_search_sound}
use parcoach_rma.Analyzer.State.{WinState, StateTable, World, Message}
use parcoach_rma.Analyzer.Monad.{◌>>=◌, ◌>>◌, put_state, modify}
use parcoach_rma.Analyzer.Save.{rma_analyzer_save_interval}
use parcoach_rma.Analyzer.Window.{send, increment, count_send, rma_analyzer_update_on_comm_send}
use parcoach_rma.Analyzer.Protocol.{
  Settles, bind-Settles, get_state-Settles, find-written, Settles-imp,
}
use parcoach_rma.Analyzer.Protocol.Saving.{with_saved, Saved, save_interval_lem}
use parcoach_rma.Analyzer.Protocol.Reception.{Conflict, SameProtocol, Stands}

module _ {table : StateTable} (notified : Bool) (win : ℕ) where
  saved-sent :
      (itv : Interval) (x : WinState) (w : World table)
      → table.find w.state_htbl win ≡ some x
      → Settles
          (λ _ w'. Stands notified win x w' × (w'.sent ≡ w.sent))
          Conflict
          (rma_analyzer_save_interval notified itv win w)
  saved-sent itv x w e =
      Settles-imp stands (λ i j h. rw h.0 (overlap_search_sound x.local_tree itv h.1).1)
        (save_interval_lem notified itv win x w e)
    where
      stands :
          (b : Bool) (w' : World table)
          → Saved notified itv win x w e b w'
          → Stands notified win x w' × (w'.sent ≡ w.sent)
      stands true w' h = ((with_saved notified x itv, h.0, refl, refl), h.3.1)
      stands false w' h =
          ((x, ap (λ v. table.find v.state_htbl win) h.0 ∙ e, refl, refl), ap (λ v. v.sent) h.0)

  module _ (local_address local_size disp size rank : ℕ) (here there : AccessType) (id line : ℤ)
      (name : Option (List ℕ)) (x : WinState) (w : World table) (n : ℕ) where
    -- The message for the target: the accessed bytes of its window, with the tag of the epoch.
    abbrev pub announced : Message
    announced = record {
      target_rank = rank;
      tag = x.mpi_tag +ℤ pos x.count_epoch;
      comm = x.win_comm;
      content = create_interval disp ((disp + size + 2 ^ 64 - 1) % 2 ^ 64) there id line name;
    }

    -- One message more is sent and counted for its target.
    abbrev pub Announced : World table → Type 0
    Announced w' =
        (w'.sent ≡ announced ∷ w.sent)
        × ((y : WinState) × (table.find w'.state_htbl win ≡ some y)
            × SameProtocol (record x { array = set x.array rank (n + 1) }) y
            × (y.count ≡ x.count))

    counted :
        (w' : World table) (y : WinState)
        → table.find w'.state_htbl win ≡ some y
        → SameProtocol x y
        → y.count ≡ x.count
        → w'.sent ≡ announced ∷ w.sent
        → Settles
            (λ _ u. Announced u)
            Conflict
            (increment {table = table} notified y rank (some n) w')
    unfolding increment put_state
    counted w' y f same c s = record {
      ends = (
        s,
        (
          _,
          find-written table w'.state_htbl win y _ f refl,
          ap (λ (z : WinState). record z { array = set z.array rank (n + 1) }) same,
          c,
        ),
      );
    }

    count_send-Announced :
        (w' : World table)
        → Stands notified win x w'
        → w'.sent ≡ announced ∷ w.sent
        → get_elem? x.array rank ≡ some n
        → Settles (λ _ u. Announced u) Conflict (count_send {table = table} notified rank win w')
    unfolding count_send
    count_send-Announced w' (y, f, same, c) s g = get_state-Settles win _ w' y f (
        subst
          (λ o.
            Settles (λ _ u. Announced u) Conflict (increment {table = table} notified y rank o w'))
          (sym (ap (λ (z : WinState). get_elem? z.array rank) same ∙ g)) (counted w' y f same c s))

    send-Announced :
        (w' : World table)
        → Stands notified win x w'
        → w'.sent ≡ w.sent
        → get_elem? x.array rank ≡ some n
        → Settles
            (λ _ u. Announced u)
            Conflict
            ((send {table = table} notified announced >> count_send notified rank win) w')
    unfolding ◌>>=◌ send modify
    send-Announced w' h s g =
        count_send-Announced (record w' { sent = announced ∷ w'.sent }) h
          (ap (λ l. announced ∷ l) s) g

    -- For a target with a counter `n` in the array of a window of the table, an announcement
    -- sends one message more, with the accessed part of the target's window under the tag of the
    -- epoch, sets the counter to `n + 1` and leaves all else of the window's state but its trees
    -- alone, or it reports two intervals that conflict. It ends in no other way.
    pub update_on_comm_send_lem :
        table.find w.state_htbl win ≡ some x
        → get_elem? x.array rank ≡ some n
        → Settles
            (λ _ w'. Announced w')
            Conflict
            (rma_analyzer_update_on_comm_send notified local_address local_size disp size rank here
              there id line name win w)
    unfolding rma_analyzer_update_on_comm_send
    update_on_comm_send_lem e g = get_state-Settles win _ w x e (
        bind-Settles _ _ w (saved-sent _ x w e) (λ i j k. k)
          (λ _ w' h. send-Announced w' h.0 h.1 g))
