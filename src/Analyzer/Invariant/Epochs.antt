-- ===== src/Analyzer/Invariant/Epochs.antt =====
-- The thread, the epochs and the announcement of a communication keep the invariant of the table.
use parcoach_rma.Common.{
  ℕ, ◌+◌, ◌≡◌, Bool, true, false, List, [], ◌∷◌, length, replicate, length-replicate, if◌then◌else◌,
}
use parcoach_rma.Interval.{Interval}
use parcoach_rma.Avl.{null}
use parcoach_rma.Avl.Order.{IsOrdered}
use parcoach_rma.Avl.Count.{free_tree-eq-null}
use parcoach_rma.IntervalTree.{IntervalTree, interval_keys, free_interval_tree}
use parcoach_rma.NotifTree.{NotifTree, notif_keys, free_notif_tree}
use parcoach_rma.Analyzer.State.{WinState, StateTable, M}
use parcoach_rma.Analyzer.Thread.{
  Reception, exited, received, waiting, ThreadEnd, thread_exited, thread_waiting, test_message,
  rma_analyzer_check_communication, save_received, after_reception, rma_analyzer_comm_check_thread,
}
use parcoach_rma.Analyzer.Epoch.{
  rma_analyzer_init_comm_check_thread, after_join, rma_analyzer_clear_comm_check_thread,
}
use parcoach_rma.Analyzer.Invariant.{
  Keeps, bind-Keeps, get_state-Keeps, put_state-Keeps, keeps_rules,
}
use parcoach_rma.Analyzer.Invariant.Sound.{IsSound, sound_trees}
use parcoach_rma.Analyzer.Invariant.Routines.{save_interval-Keeps}

-- A freed tree is empty, if it was in order.
pub free_interval_tree-eq-null :
    (t : IntervalTree) → IsOrdered interval_keys t → free_interval_tree t ≡ null
unfolding free_interval_tree
free_interval_tree-eq-null t o = free_tree-eq-null interval_keys t o

pub free_notif_tree-eq-null : (t : NotifTree) → IsOrdered notif_keys t → free_notif_tree t ≡ null
unfolding free_notif_tree
free_notif_tree-eq-null t o = free_tree-eq-null notif_keys t o

module _ {x : WinState} (s : IsSound x) where
  cleared :
      (notified : Bool)
      → IsSound (record x {
        running = false;
        count = 0;
        active_epoch = 0;
        local_tree = free_interval_tree x.local_tree;
        notif_tree = if notified then free_notif_tree x.notif_tree else x.notif_tree;
      })
  cleared true = record {
    ordered = rw (free_interval_tree-eq-null x.local_tree s.ordered) tt;
    notified = rw (free_notif_tree-eq-null x.notif_tree s.notified) tt;
    counters = s.counters;
  }
  cleared false = record {
    ordered = rw (free_interval_tree-eq-null x.local_tree s.ordered) tt;
    notified = s.notified;
    counters = s.counters;
  }

  pub with_array : (a : List ℕ) → length a ≡ x.size_comm → IsSound (record x { array = a })
  with_array a e = record { ordered = s.ordered; notified = s.notified; counters = e }

  started : IsSound (record x {
    array = replicate x.size_comm 0;
    thread_end = 0;
    count_epoch = x.count_epoch + 1;
    active_epoch = 1;
    running = true;
  })
  started = record {
    ordered = s.ordered;
    notified = s.notified;
    counters = length-replicate x.size_comm 0;
  }

  -- A write of other fields.
  pub with_flags :
      (value thread_end count from_sync : ℕ)
      → IsSound (record x {
        value = value;
        thread_end = thread_end;
        count = count;
        from_sync = from_sync;
      })
  with_flags value thread_end count from_sync = record {
    ordered = s.ordered;
    notified = s.notified;
    counters = s.counters;
  }

module _ {table : StateTable} (notified : Bool) where
  pub init-Keeps :
      (win : ℕ) → Keeps IsSound (rma_analyzer_init_comm_check_thread {table = table} notified win)
  unfolding rma_analyzer_init_comm_check_thread
  init-Keeps win = search (keeps_rules, started)

  test_message-Keeps :
      (x : WinState) (incoming : List Interval)
      → IsSound x
      → Keeps IsSound (test_message {table = table} notified x incoming)
  unfolding test_message
  test_message-Keeps x [] s = search keeps_rules
  test_message-Keeps x (itv ∷ rest) s =
      bind-Keeps _ _ (put_state-Keeps _ (with_flags s _ _ _ _)) (λ _. search keeps_rules)

  pub check_communication-Keeps :
      (win : ℕ) (incoming : List Interval)
      → Keeps IsSound (rma_analyzer_check_communication {table = table} notified win incoming)
  unfolding rma_analyzer_check_communication
  check_communication-Keeps win incoming =
      search (keeps_rules, test_message-Keeps, with_flags) depth 8

  save_received-Keeps :
      (win : ℕ) (itv : Interval) → Keeps IsSound (save_received {table = table} notified win itv)
  unfolding save_received
  save_received-Keeps win itv = search (keeps_rules, save_interval-Keeps sound_trees notified)

  pub after_reception-Keeps :
      (win : ℕ) (incoming : List Interval) (next : M table ThreadEnd) (r : Reception)
      → Keeps IsSound next
      → Keeps IsSound (after_reception {table = table} notified win incoming next r)
  unfolding after_reception
  after_reception-Keeps win incoming next exited k = search keeps_rules
  after_reception-Keeps win incoming next (received itv rest) k =
      bind-Keeps _ _ (save_received-Keeps win itv) (λ _. k)
  after_reception-Keeps win incoming next waiting k = search keeps_rules

  pub comm_check_thread-Keeps :
      (win : ℕ) (incoming : List Interval)
      → Keeps IsSound (rma_analyzer_comm_check_thread {table = table} notified win incoming)
  unfolding rma_analyzer_comm_check_thread
  comm_check_thread-Keeps win [] =
      bind-Keeps _ _ (check_communication-Keeps win [])
        (λ r. after_reception-Keeps win [] _ r (search keeps_rules))
  comm_check_thread-Keeps win (itv ∷ rest) =
      bind-Keeps _ _ (check_communication-Keeps win (itv ∷ rest))
        (λ r. after_reception-Keeps win (itv ∷ rest) _ r (comm_check_thread-Keeps win rest))

  after_join-Keeps :
      (win : ℕ) (end : ThreadEnd) → Keeps IsSound (after_join {table = table} notified win end)
  unfolding after_join
  after_join-Keeps win thread_waiting = search keeps_rules
  after_join-Keeps win (thread_exited rest) =
      get_state-Keeps win _ (λ x s. put_state-Keeps _ (cleared s notified))

  pub clear-Keeps :
      (do_reduce : Bool) (total : ℕ) (incoming : List Interval) (win : ℕ)
      → Keeps IsSound (
          rma_analyzer_clear_comm_check_thread {table = table} notified do_reduce total incoming
            win)
  unfolding rma_analyzer_clear_comm_check_thread
  clear-Keeps do_reduce total incoming win = get_state-Keeps win _ (λ x s.
      bind-Keeps _ _ (put_state-Keeps _ (with_flags s _ _ _ _)) (λ _.
        bind-Keeps _ _ (comm_check_thread-Keeps win incoming) (λ end. after_join-Keeps win end)))
