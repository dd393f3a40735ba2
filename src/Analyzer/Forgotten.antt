-- ===== src/Analyzer/Forgotten.antt =====
-- src/core/rma_analyzer.c: which interval `rma_analyzer_clear_from_notif_id` deletes.
use mathlib.Core.Path.{subst}
use parcoach_rma.Common.{
  ◌≡◌, refl, ◌∙◌, ap, ◌⊎◌, inl, inr, none, some, Bool, false, List, [], ◌∷◌, ◌++◌, ℕ, ℤ, pos, ltb_ℤ,
  eqb_ℤ, if◌then◌else◌, length, arith,
}
use parcoach_rma.Interval.{Interval}
use parcoach_rma.Avl.{null, node}
use parcoach_rma.Avl.Order.{IsStrict}
use parcoach_rma.Avl.Contents.{to_list}
use parcoach_rma.IntervalTree.{
  IntervalTree, interval_keys, insert_interval_tree, delete_interval_tree,
}
use parcoach_rma.IntervalTree.Removal.{to_list-delete_interval_tree, delete_interval_tree_of_two}
use parcoach_rma.NotifTree.{notif_keys, find_interval_from_notif}
use parcoach_rma.NotifTree.Laws.{find_interval-delete}
use parcoach_rma.Analyzer.State.{WinState, StateTable, Outcome, ok, fault, World, null_dereference}
use parcoach_rma.Analyzer.Save.{rma_analyzer_clear_from_notif_id}
use parcoach_rma.Analyzer.Notified.{Cleared, clear_from_notif_id-Cleared}

module _ {table : StateTable} (notified : Bool) (win : ℕ) (x : WinState) (w : World table)
    (id : ℤ) where
  -- The call returns, and the window's tree then holds these intervals, and the tree of
  -- notifications finds for another id what it found, and nothing for this one. The other fields
  -- of the window's state are as before.
  abbrev pub Forgotten : List Interval → Outcome (Unit {0} × World table) → Type 0
  Forgotten left o =
      (w' : World table) × (y : WinState) × (o ≡ ok (tt, w'))
      × (table.find w'.state_htbl win ≡ some y)
      × (y ≡ record x { local_tree = y.local_tree; notif_tree = y.notif_tree })
      × (to_list y.local_tree ≡ left)
      × ((k : ℤ)
          → find_interval_from_notif y.notif_tree k
            ≡ (if eqb_ℤ k id then none else find_interval_from_notif x.notif_tree k))

  found-Forgotten :
      (itv : Interval) (left : List Interval) (o : Outcome (Unit {0} × World table))
      → IsStrict notif_keys x.notif_tree
      → to_list (delete_interval_tree x.local_tree itv) ≡ left
      → Cleared {table = table} notified win x w id (some itv) x.local_tree o
      → Forgotten left o
  found-Forgotten itv left o strict e (w', q, f) =
      (w', _, q, f, refl, e, λ k. find_interval-delete x.notif_tree id k strict)

  not_found :
      (t : IntervalTree) (before after : List Interval) (itv : Interval)
      (o : Outcome (Unit {0} × World table))
      → to_list t ≡ before ++ (itv ∷ after)
      → Cleared {table = table} notified win x w id none t o
      → o ≡ fault null_dereference
  not_found null [] after itv o e c = absurd (omega (arith, ap length e))
  not_found null (i ∷ before) after itv o e c = absurd (omega (arith, ap length e))
  not_found (node _ _ _ _ _) before after itv o e c = c

  -- On a window of the table whose trees hold no low bound and no id twice, for an id that is not
  -- negative and an interval in the window's tree: if it is the one found for the id, the call
  -- returns, and takes it out of the window's tree, where all others stay, and the id out of the
  -- tree of notifications, and the window's state is otherwise as before. If none is found for the id, the call dereferences NULL.
  pub clear_from_notif_id_lem :
      (before : List Interval) (itv : Interval) (after : List Interval)
      → ltb_ℤ id (pos 0) ≡ false
      → table.find w.state_htbl win ≡ some x
      → IsStrict interval_keys x.local_tree
      → IsStrict notif_keys x.notif_tree
      → to_list x.local_tree ≡ before ++ (itv ∷ after)
      → (find_interval_from_notif x.notif_tree id ≡ some itv)
        ⊎ (find_interval_from_notif x.notif_tree id ≡ none)
      → ((find_interval_from_notif x.notif_tree id ≡ some itv)
          × Forgotten
              (before ++ after)
              (rma_analyzer_clear_from_notif_id {table = table} notified win id w))
        ⊎ ((find_interval_from_notif x.notif_tree id ≡ none)
            × (rma_analyzer_clear_from_notif_id {table = table} notified win id w
                ≡ fault null_dereference))
  clear_from_notif_id_lem before itv after p e strict strict' contents found =
      let run = rma_analyzer_clear_from_notif_id {table = table} notified win id w in
      let cleared = clear_from_notif_id-Cleared notified win x w id e p in
      elim found [
        | inl f ↦ inl (
          f,
          found-Forgotten itv (before ++ after) run strict'
              (to_list-delete_interval_tree x.local_tree before itv after strict contents)
              (subst (λ o. Cleared {table = table} notified win x w id o x.local_tree run) f
                cleared),
        )
        | inr f ↦ inr (
          f,
          not_found x.local_tree before after itv run contents (
              subst (λ o. Cleared {table = table} notified win x w id o x.local_tree run) f
                cleared),
        )
      ]

  -- A window's tree can hold two intervals with one low bound, and then the call deletes the wrong
  -- one: with the second of them found for the id, the first is taken out and the second stays.
  pub clear_from_notif_id_other :
      (a b : Interval)
      → ltb_ℤ id (pos 0) ≡ false
      → table.find w.state_htbl win ≡ some x
      → IsStrict notif_keys x.notif_tree
      → a.low_bound ≡ b.low_bound
      → x.local_tree ≡ insert_interval_tree (insert_interval_tree null a) b
      → find_interval_from_notif x.notif_tree id ≡ some b
      → Forgotten (b ∷ []) (rma_analyzer_clear_from_notif_id {table = table} notified win id w)
  clear_from_notif_id_other a b p e strict same tree f =
      let run = rma_analyzer_clear_from_notif_id {table = table} notified win id w in
      found-Forgotten b (b ∷ []) run strict
        (ap (λ t. to_list (delete_interval_tree t b)) tree ∙ delete_interval_tree_of_two a b same)
        (subst (λ o. Cleared {table = table} notified win x w id o x.local_tree run) f
          (clear_from_notif_id-Cleared notified win x w id e p))
