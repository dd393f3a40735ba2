-- ===== src/Cluster.antt =====
-- The processes of a communicator and the messages between them, during epochs of a window: each
-- process runs the routines of src/core/rma_analyzer.c on its own state, and a message is in flight
-- from MPI_Send until the thread of its target receives it. Any order of steps is possible.
pub mod Sums
pub mod Rounds
pub mod Balance
pub mod Messages
pub mod Steps
pub mod Fresh
pub mod Closing
use parcoach_rma.Common.{
  ℕ, ◌+◌, ◌<◌, ◌≡◌, Bool, Option, none, some, List, [], ◌∷◌, ◌++◌, ℤ, pos, ◌+ℤ◌, get_elem?, map,
  ◌==◌, true, if◌then◌else◌,
}
use parcoach_rma.Interval.{AccessType, Interval}
use parcoach_rma.Analyzer.State.{WinState, StateTable, World, Message, Outcome, ok}
use parcoach_rma.Analyzer.Save.{rma_analyzer_save_interval}
use parcoach_rma.Analyzer.Thread.{ThreadEnd, thread_waiting}
use parcoach_rma.Analyzer.Epoch.{
  rma_analyzer_init_comm_check_thread, rma_analyzer_clear_comm_check_thread,
}
use parcoach_rma.Cluster.Sums.{sum}
use parcoach_rma.Analyzer.Window.{rma_analyzer_update_on_comm_send}
use parcoach_rma.Analyzer.Invariant.{Everywhere}
use parcoach_rma.Analyzer.Invariant.Sound.{IsSound}
use parcoach_rma.Analyzer.Run.{receive_one}

-- `in_flight` has the messages to each process.
pub record Cluster (table : StateTable) : Type 0 where
  pub process : ℕ → World table
  pub in_flight : ℕ → List Message

abbrev pub update_at {ℓ} : {A : Type ℓ} → (ℕ → A) → ℕ → A → ℕ → A
update_at f i a j = if j == i then a else f j

-- The counter for the process `target` in the state of a window.
abbrev pub counted_for : ℕ → Option WinState → ℕ
counted_for target none = 0
counted_for target (some x) = elim (get_elem? x.array target) [ none ↦ 0 | some n ↦ n ]

abbrev pub received_by : Option WinState → ℕ
received_by none = 0
received_by (some x) = x.count

-- The state of the window in a process.
abbrev pub state_in : {table : StateTable} → (ℕ → ℕ) → Cluster table → ℕ → Option WinState
state_in {table} win c p = table.find (c.process p).state_htbl (win p)

-- The intervals of messages.
unfoldable pub contents : List Message → List Interval
contents ms = map (λ (m : Message). m.content) ms

module _ {table : StateTable} (notified : Bool) (size : ℕ) (win : ℕ → ℕ) where
  -- The epoch begins in every process, with the same tag, on a sound table, with no received
  -- interval counted and no message in flight. `before` are the states before it.
  pub record Begins (tag : ℤ) (c : Cluster table) : Type 0 where
    pub before : ℕ → World table
    pub state : ℕ → WinState
    pub found : (p : ℕ) → p < size → table.find (before p).state_htbl (win p) ≡ some (state p)
    pub sound : (p : ℕ) → p < size → Everywhere IsSound (before p)
    pub none_received : (p : ℕ) → p < size → (state p).count ≡ 0
    pub all_counted : (p : ℕ) → p < size → (state p).size_comm ≡ size
    pub same_tag : (p : ℕ) → p < size → (state p).mpi_tag +ℤ pos ((state p).count_epoch + 1) ≡ tag
    pub begun :
        (p : ℕ)
        → p < size
        → rma_analyzer_init_comm_check_thread notified (win p) (before p) ≡ ok (tt, c.process p)
    pub none_in_flight : (p : ℕ) → p < size → c.in_flight p ≡ []

  -- A call that returns in one of the processes.
  pub data Step (c d : Cluster table) : Type 0 where
    -- A local access, as far as this window is concerned.
    local_access :
        (p : ℕ) (itv : Interval) (saved : Bool) (w' : World table)
        → p < size
        → rma_analyzer_save_interval notified itv (win p) (c.process p) ≡ ok (saved, w')
        → d ≡ record c { process = update_at c.process p w' }
        → Step c d
    -- A communication: what MPI_Send adds to the sent messages is in flight to its target.
    communication :
        (p local_address local_size disp target_size target : ℕ) (here there : AccessType)
        (id line : ℤ) (name : Option (List ℕ)) (m : Message) (w' : World table)
        → p < size
        → target < size
        → rma_analyzer_update_on_comm_send notified local_address local_size disp target_size target
            here there id line name
            (win p)
            (c.process p)
          ≡ ok (tt, w')
        → w'.sent ≡ m ∷ (c.process p).sent
        → d ≡ record {
          process = update_at c.process p w';
          in_flight = update_at c.in_flight m.target_rank (c.in_flight m.target_rank ++ (m ∷ []));
        }
        → Step c d
    -- The thread of a process receives a message that has its tag, whichever comes first.
    reception :
        (p : ℕ) (x : WinState) (earlier later : List Message) (m : Message) (w' : World table)
        → p < size
        → c.in_flight p ≡ earlier ++ (m ∷ later)
        → table.find (c.process p).state_htbl (win p) ≡ some x
        → m.tag ≡ x.mpi_tag +ℤ pos x.count_epoch
        → receive_one notified (win p) (m.content ∷ []) (c.process p) ≡ ok (thread_waiting, w')
        → d ≡ record {
          process = update_at c.process p w';
          in_flight = update_at c.in_flight p (earlier ++ later);
        }
        → Step c d

  -- All processes end the epoch, with what MPI_Reduce sums up and the messages in flight, and begin
  -- the next one.
  pub record Restarts (c d : Cluster table) : Type 0 where
    pub between : ℕ → World table
    pub ended :
        (p : ℕ)
        → p < size
        → rma_analyzer_clear_comm_check_thread notified true
            (sum size (λ q. counted_for p (state_in win c q)))
            (contents (c.in_flight p))
            (win p)
            (c.process p)
          ≡ ok (tt, between p)
    pub begun :
        (p : ℕ)
        → p < size
        → rma_analyzer_init_comm_check_thread notified (win p) (between p) ≡ ok (tt, d.process p)
    pub none_in_flight : (p : ℕ) → p < size → d.in_flight p ≡ []

  -- What steps lead to from the begin of an epoch on, through any number of epochs.
  pub data Reach : ℤ → Cluster table → Type 0 where
    begin : {tag : ℤ} {c : Cluster table} → Begins tag c → Reach tag c
    next : {tag : ℤ} {c d : Cluster table} → Reach tag c → Step c d → Reach tag d
    again : {tag : ℤ} {c d : Cluster table} → Reach tag c → Restarts c d → Reach (tag +ℤ pos 1) d
