-- ===== src/Analyzer/Notified.antt =====
-- src/core/rma_analyzer.c: what `rma_analyzer_clear_from_notif_id` and
-- `rma_analyzer_update_on_comm_send` do to a window of the table.
use mathlib.Core.Path.{subst}
use parcoach_rma.Common.{ℕ, ◌≡◌, refl, sym, ◌∙◌, ap, Option, none, some, Bool, false, ℤ, pos, ltb_ℤ}
use parcoach_rma.Interval.{Interval}
use parcoach_rma.Avl.{null, node}
use parcoach_rma.IntervalTree.{IntervalTree, delete_interval_tree}
use parcoach_rma.NotifTree.{delete_notif_tree, find_interval_from_notif}
use parcoach_rma.Analyzer.State.{
  WinState, StateTable, Outcome, ok, fault, World, M, null_dereference,
}
use parcoach_rma.Analyzer.Monad.{◌>>=◌, ◌>>◌, fail, put_state, rma_analyzer_get_state}
use parcoach_rma.Analyzer.Save.{
  rma_analyzer_clear_from_notif_id, rma_analyzer_delete_interval, delete_from_state,
}
use parcoach_rma.Analyzer.Protocol.{get_state-eq, find-written}

module _ {table : StateTable} (notified : Bool) (win : ℕ) (x : WinState) (w : World table) where
  -- What a call of `rma_analyzer_clear_from_notif_id` leads to, by the interval found for the id and
  -- the window's tree.
  abbrev pub Cleared :
      ℤ → Option Interval → IntervalTree → Outcome (Unit {0} × World table) → Type 0
  Cleared id (some itv) tree o =
      (w' : World table) × (o ≡ ok (tt, w'))
      × (table.find w'.state_htbl win
          ≡ some (record x {
            local_tree = delete_interval_tree tree itv;
            notif_tree = delete_notif_tree x.notif_tree id;
          }))
  Cleared id none null o =
      (w' : World table) × (o ≡ ok (tt, w'))
      × (table.find w'.state_htbl win
          ≡ some (record x { local_tree = null; notif_tree = delete_notif_tree x.notif_tree id }))
  Cleared id none (node _ _ _ _ _) o = o ≡ fault null_dereference

  -- The end of the routine.
  forget : ℤ → M table (Unit {0})
  forget id = do
    after ← rma_analyzer_get_state win
    put_state (record after { notif_tree = delete_notif_tree after.notif_tree id })

  module _ (id : ℤ) (e : table.find w.state_htbl win ≡ some x) where
    delete_interval-eq :
        (o : Option Interval)
        → rma_analyzer_delete_interval {table = table} notified o win w
          ≡ delete_from_state notified x o x.local_tree w
    unfolding rma_analyzer_delete_interval
    delete_interval-eq o = get_state-eq win _ w x e

    delete-forget :
        (o : Option Interval)
        → (rma_analyzer_delete_interval {table = table} notified o win >> forget id) w
          ≡ (delete_from_state notified x o x.local_tree >> forget id) w
    unfolding ◌>>=◌
    delete-forget o =
        ap (λ out. elim out [ ok (a, v) ↦ forget id v | fault f ↦ fault f ]) (delete_interval-eq o)

    clear-eq :
        ltb_ℤ id (pos 0) ≡ false
        → rma_analyzer_clear_from_notif_id {table = table} notified win id w
          ≡ (delete_from_state notified x (find_interval_from_notif x.notif_tree id) x.local_tree
                >> forget id)
              w
    unfolding rma_analyzer_clear_from_notif_id forget
    clear-eq p =
        rw p (get_state-eq win _ w x e ∙ delete-forget (find_interval_from_notif x.notif_tree id))

    written : IntervalTree → World table
    written t = record w { state_htbl = table.write w.state_htbl (record x { local_tree = t }) }

    find-forget :
        (t : IntervalTree)
        → (w' : World table) × (forget id (written t) ≡ ok (tt, w'))
          × (table.find w'.state_htbl win
              ≡ some (record x { local_tree = t; notif_tree = delete_notif_tree x.notif_tree id }))
    unfolding forget written put_state
    find-forget t =
        let y : WinState = record x { local_tree = t } in
        let here = find-written table w.state_htbl win x y e refl in
        (_, get_state-eq win _ (written t) y here, find-written table _ win y _ here refl)

    Cleared-cases :
        (o : Option Interval) (t : IntervalTree)
        → Cleared id o t ((delete_from_state notified x o t >> forget id) w)
    unfolding delete_from_state ◌>>=◌ put_state fail written
    Cleared-cases (some itv) t = find-forget (delete_interval_tree t itv)
    Cleared-cases none null = find-forget null
    Cleared-cases none (node _ _ _ _ _) = refl

    -- The outcome, by the interval found for the id and by the window's tree.
    pub clear_from_notif_id-Cleared :
        ltb_ℤ id (pos 0) ≡ false
        → Cleared id
            (find_interval_from_notif x.notif_tree id)
            x.local_tree
            (rma_analyzer_clear_from_notif_id notified win id w)
    clear_from_notif_id-Cleared p =
        subst (Cleared id (find_interval_from_notif x.notif_tree id) x.local_tree)
          (sym (clear-eq p)) (Cleared-cases (find_interval_from_notif x.notif_tree id) x.local_tree)
