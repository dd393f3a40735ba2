-- ===== src/Cluster/Closing.antt =====
-- The messages of epochs from the begin in all processes to the end in one, and in all.
use parcoach_rma.Common.{
  ℕ, suc, negsuc, ◌+◌, ◌<◌, ◌≡◌, refl, ◌∙◌, ap, Bool, true, some, List, [], ◌∷◌, ℤ, pos, ◌+ℤ◌,
  length, arith,
}
use parcoach_rma.Analyzer.State.{WinState, StateTable, Message}
use parcoach_rma.Analyzer.Epoch.{rma_analyzer_clear_comm_check_thread}
use parcoach_rma.Analyzer.Run.Sound.{kept}
use parcoach_rma.Analyzer.Invariant.Epochs.{clear-Keeps}
use parcoach_rma.Analyzer.Protocol.{Settles, settled}
use parcoach_rma.Analyzer.Protocol.Reception.{Conflict}
use parcoach_rma.Analyzer.Protocol.Closing.{Closed, clear_comm_check_thread_lem}
use parcoach_rma.Cluster.{
  Cluster, Restarts, Reach, begin, next, again, contents, counted_for, received_by, state_in,
}
use parcoach_rma.Cluster.Sums.{sum}
use parcoach_rma.Cluster.Balance.{Conserves}
use parcoach_rma.Cluster.Steps.{Step-Conserves}
use parcoach_rma.Cluster.Fresh.{begun-Conserves}

length-contents : (ms : List Message) → length (contents ms) ≡ length ms
unfolding contents
length-contents [] = refl
length-contents (m ∷ ms) = ap suc (length-contents ms)

next_tag : (a : ℤ) (n : ℕ) → a +ℤ pos (n + 1) ≡ (a +ℤ pos n) +ℤ pos 1
next_tag (pos a) n = ground arith
next_tag (negsuc a) n = ground arith

module _ {table : StateTable} (notified : Bool) (size : ℕ) (win : ℕ → ℕ) where
  -- What all processes have counted for a process.
  abbrev pub counted_by_all : Cluster table → ℕ → ℕ
  counted_by_all c p = sum size (λ q. counted_for p (state_in win c q))

  clear-Closed :
      (tag : ℤ) (c : Cluster table) (p : ℕ) (x : WinState)
      → Conserves notified size win tag c
      → p < size
      → state_in win c p ≡ some x
      → Settles
          (λ _ w'. Closed notified (counted_by_all c p) (contents (c.in_flight p)) (win p) x w')
          Conflict
          (rma_analyzer_clear_comm_check_thread notified true
            (counted_by_all c p)
            (contents (c.in_flight p))
            (win p)
            (c.process p))
  clear-Closed tag c p x v lt e =
      clear_comm_check_thread_lem notified (counted_by_all c p) (contents (c.in_flight p)) (win p) x
        (c.process p) (length (c.in_flight p)) e (v.sound p lt)
        (omega (arith, v.balance p lt, ap received_by e))
        (omega (arith, length-contents (c.in_flight p)))

  module _ (tag : ℤ) (c d : Cluster table) (v : Conserves notified size win tag c)
      (r : Restarts notified size win c d) where
    last : (p : ℕ) → p < size → WinState
    last p lt = (v.active p lt).0

    ended-Closed :
        (p : ℕ) (lt : p < size)
        → Closed notified
            (counted_by_all c p)
            (contents (c.in_flight p))
            (win p)
            (last p lt)
            (r.between p)
    unfolding last
    ended-Closed p lt =
        settled (clear-Closed tag c p (v.active p lt).0 v lt (v.active p lt).1) (r.ended p lt)

    again-Conserves : Conserves notified size win (tag +ℤ pos 1) d
    unfolding last
    again-Conserves =
        begun-Conserves notified size win (tag +ℤ pos 1) d r.between (λ p lt. (ended-Closed p lt).1)
          (λ p lt. (ended-Closed p lt).2)
          (λ p lt.
            kept (clear-Keeps notified true (counted_by_all c p) (contents (c.in_flight p)) (win p))
              (r.ended p lt) (v.sound p lt))
          (λ p lt. ap (λ (z : WinState). z.count) (ended-Closed p lt).3)
          (λ p lt. ap (λ (z : WinState). z.size_comm) (ended-Closed p lt).3 ∙ (v.active p lt).2.2)
          (λ p lt.
            ap (λ (z : WinState). z.mpi_tag +ℤ pos (z.count_epoch + 1)) (ended-Closed p lt).3
            ∙ next_tag (last p lt).mpi_tag (last p lt).count_epoch
            ∙ ap (λ t. t +ℤ pos 1) (v.active p lt).2.3)
          r.begun r.none_in_flight

  -- After an epoch of the window has begun in all processes, whatever local accesses and
  -- communications on it return, whatever messages in flight are received, in whatever order, and
  -- however often all processes end the epoch and begin the next one: in each process the window has
  -- its state, with a counter for each process, `thread_end` not set and the tag of the epoch, on a
  -- sound table; the messages in flight have that tag; and what all processes have counted for a
  -- process is what it has received and what is in flight to it.
  pub Reach-Conserves :
      {tag : ℤ} {c : Cluster table}
      → Reach notified size win tag c
      → Conserves notified size win tag c
  Reach-Conserves (begin {tag = tag} {c = c} b) =
      begun-Conserves notified size win tag c b.before (λ p lt. b.state p) b.found b.sound
        b.none_received b.all_counted b.same_tag b.begun b.none_in_flight
  Reach-Conserves (next {tag = tag} r s) =
      Step-Conserves notified size win tag s (Reach-Conserves r)
  Reach-Conserves (again {tag = tag} {c = c} {d = d} r s) =
      again-Conserves tag c d (Reach-Conserves r) s

  -- After an epoch of the window has begun in all processes, whatever local accesses and
  -- communications on it return, whatever messages in flight are received, in whatever order, and
  -- however often all processes end the epoch and begin the next one: the end of the epoch in one
  -- process, with the sum of what all have counted for it and with the messages in flight to it,
  -- returns and resets the window, or reports two intervals that conflict. It ends in no other way.
  pub Reach-Closed :
      (tag : ℤ) (c : Cluster table) (p : ℕ) (x : WinState)
      → Reach notified size win tag c
      → p < size
      → state_in win c p ≡ some x
      → Settles
          (λ _ w'. Closed notified (counted_by_all c p) (contents (c.in_flight p)) (win p) x w')
          Conflict
          (rma_analyzer_clear_comm_check_thread notified true
            (counted_by_all c p)
            (contents (c.in_flight p))
            (win p)
            (c.process p))
  Reach-Closed tag c p x r lt e = clear-Closed tag c p x (Reach-Conserves r) lt e
