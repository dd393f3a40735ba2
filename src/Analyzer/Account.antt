-- ===== src/Analyzer/Account.antt =====
-- The counters of a window against the messages of its epoch, in one process and in all processes of
-- the communicator.
use native.Mathlib.Decide.{ℕ_discrete}
use mathlib.Core.Option.{some-injective}
use parcoach_rma.Common.{
  ℕ, zero, suc, ◌+◌, ◌≡◌, refl, sym, ◌∙◌, ap, Option, none, some, Bool, true, List, [], ◌∷◌, ◌++◌,
  ℤ, length, get_elem?, get_elem?-set_ne, set, replicate, ◌==◌, arith, if◌then◌else◌,
}
use parcoach_rma.Interval.{Interval, AccessType}
use parcoach_rma.Analyzer.State.{WinState, StateTable, World, Message}
use parcoach_rma.Analyzer.Window.{rma_analyzer_update_on_comm_send}
use parcoach_rma.Analyzer.Epoch.{
  rma_analyzer_init_comm_check_thread, rma_analyzer_clear_comm_check_thread,
}
use parcoach_rma.Analyzer.Invariant.{Everywhere}
use parcoach_rma.Analyzer.Invariant.Sound.{IsSound}
use parcoach_rma.Analyzer.Protocol.{Settles, Settles-imp, get_state-Settles, find-written}
use parcoach_rma.Analyzer.Protocol.Reception.{Conflict}
use parcoach_rma.Analyzer.Protocol.Closing.{Closed, clear_comm_check_thread_lem}
use parcoach_rma.Analyzer.Monad.{put_state}
use parcoach_rma.Analyzer.Restart.{begun}
use parcoach_rma.Analyzer.Sending.{announced, update_on_comm_send_lem}

-- The number of messages to a process.
unfoldable pub count_for : ℕ → List Message → ℕ
count_for rank [] = 0
count_for rank (m ∷ rest) =
    let n = count_for rank rest in if m.target_rank == rank then suc n else n

-- Each counter is the number of messages to its process.
abbrev pub IsAccount : List ℕ → List Message → Type 0
IsAccount array messages =
    (rank n : ℕ) → get_elem? array rank ≡ some n → n ≡ count_for rank messages

get_elem?-set : (xs : List ℕ) (i v n : ℕ) → get_elem? (set xs i v) i ≡ some n → n ≡ v
get_elem?-set [] i v n e = cc
get_elem?-set (x ∷ xs) zero v n e = sym (some-injective v n e)
get_elem?-set (x ∷ xs) (suc i) v n e = get_elem?-set xs i v n e

-- One message more for a process, and one more on its counter.
pub IsAccount-set :
    (array : List ℕ) (messages : List Message) (m : Message) (n : ℕ)
    → IsAccount array messages
    → get_elem? array m.target_rank ≡ some n
    → IsAccount (set array m.target_rank (n + 1)) (m ∷ messages)
unfolding count_for
IsAccount-set array messages m n account e rank k q = elim (ℕ_discrete rank m.target_rank) [
  | yes same ↦
      let at : k ≡ n + 1 =
        get_elem?-set array m.target_rank (n + 1) k
          (ap (get_elem? (set array m.target_rank (n + 1))) (sym same) ∙ q) in
      let before : n ≡ count_for rank messages = account rank n (ap (get_elem? array) same ∙ e) in
      ground arith
  | no other ↦
      let before : k ≡ count_for rank messages =
        account rank k (sym (get_elem?-set_ne array m.target_rank rank (n + 1) other) ∙ q) in
      ground arith
]

pub IsAccount-replicate : (n : ℕ) → IsAccount (replicate n 0) []
unfolding count_for
IsAccount-replicate zero rank k e = cc
IsAccount-replicate (suc n) zero k e = sym (some-injective 0 k e)
IsAccount-replicate (suc n) (suc rank) k e = IsAccount-replicate n rank k e

module _ {table : StateTable} (notified : Bool) (win : ℕ) where
  -- The messages that were sent since `old` are those that the window's counters count.
  abbrev pub Accounted : List Message → World table → Type 0
  Accounted old w =
      (messages : List Message) × (y : WinState) × (w.sent ≡ messages ++ old)
      × (table.find w.state_htbl win ≡ some y)
      × IsAccount y.array messages

  -- After the begin of an epoch on a window of the table, its counters count the messages that were
  -- sent since then, and the call returns.
  pub init_comm_check_thread-Accounted :
      (x : WinState) (w : World table)
      → table.find w.state_htbl win ≡ some x
      → Settles
          (λ _ w'. Accounted w.sent w')
          (λ _ _. ⊥)
          (rma_analyzer_init_comm_check_thread notified win w)
  unfolding rma_analyzer_init_comm_check_thread put_state
  init_comm_check_thread-Accounted x w e = get_state-Settles win _ w x e (record {
    ends = (
      [],
      begun x,
      refl,
      find-written table w.state_htbl win x (begun x) e refl,
      IsAccount-replicate x.size_comm,
    );
  })

  -- If the counters of a window of the table count the messages that were sent since some time, an
  -- announcement on it keeps it so, for a target with a counter, or reports two intervals that
  -- conflict. It ends in no other way.
  pub update_on_comm_send-Accounted :
      (local_address local_size disp size rank : ℕ) (here there : AccessType) (id line : ℤ)
      (name : Option (List ℕ)) (x : WinState) (w : World table) (n : ℕ)
      (messages old : List Message)
      → table.find w.state_htbl win ≡ some x
      → w.sent ≡ messages ++ old
      → IsAccount x.array messages
      → get_elem? x.array rank ≡ some n
      → Settles
          (λ _ w'. Accounted old w')
          Conflict
          (rma_analyzer_update_on_comm_send notified local_address local_size disp size rank here
            there id line name win w)
  update_on_comm_send-Accounted a s d z rank here there id line name x w n messages old e sent
        account g =
      Settles-imp
        (λ _ w' h. (
          announced notified win a s d z rank here there id line name x w n ∷ messages,
          h.1.0,
          h.0
              ∙ ap (λ l. announced notified win a s d z rank here there id line name x w n ∷ l)
                  sent,
          h.1.1,
          rw (ap (λ (z : WinState). z.array) h.1.2) (
              IsAccount-set x.array messages
                (announced notified win a s d z rank here there id line name x w n) n account g),
        ))
        (λ i j k. k)
        (update_on_comm_send_lem notified win a s d z rank here there id line name x w n e g)

-- The processes of a communicator, each with its counters for a window and the messages that it has
-- sent in the epoch.
abbrev pub messages_of : List (List ℕ × List Message) → List Message
messages_of [] = []
messages_of ((array, messages) ∷ rest) = messages ++ messages_of rest

-- Every process has a counter for `rank`, and its counters count its messages.
abbrev pub AllAccount : ℕ → List (List ℕ × List Message) → Type 0
AllAccount rank [] = Unit
AllAccount rank ((array, messages) ∷ rest) =
    ((n : ℕ) × (get_elem? array rank ≡ some n)) × IsAccount array messages × AllAccount rank rest

abbrev counter : Option ℕ → ℕ
counter none = 0
counter (some n) = n

-- The sum that MPI_Reduce leaves in the process `rank`.
unfoldable pub reduced : ℕ → List (List ℕ × List Message) → ℕ
reduced rank [] = 0
reduced rank ((array, messages) ∷ rest) = counter (get_elem? array rank) + reduced rank rest

count_for-append :
    (rank : ℕ) (ms ns : List Message)
    → count_for rank (ms ++ ns) ≡ count_for rank ms + count_for rank ns
unfolding count_for
count_for-append rank [] ns = omega arith
count_for-append rank (m ∷ ms) ns = ground (arith, count_for-append rank ms ns)

reduced_lem :
    (rank : ℕ) (processes : List (List ℕ × List Message))
    → AllAccount rank processes
    → reduced rank processes ≡ count_for rank (messages_of processes)
unfolding reduced count_for
reduced_lem rank [] a = refl
reduced_lem rank ((array, messages) ∷ rest) ((n, e), account, a) = omega (
  arith,
  ap counter e,
  account rank n e,
  reduced_lem rank rest a,
  count_for-append rank messages (messages_of rest),
)

-- Let the counters of every process count the messages that it has sent in the epoch, and let each
-- message to this process either have been received or arrive. Then the end of the epoch, with the
-- sum of the counters as MPI_Reduce leaves it, returns and resets the window, or reports two
-- intervals that conflict. It ends in no other way.
pub clear_comm_check_thread-reduced :
    {table : StateTable} (notified : Bool) (rank win : ℕ) (processes : List (List ℕ × List Message))
    (incoming : List Interval) (x : WinState) (w : World table)
    → AllAccount rank processes
    → table.find w.state_htbl win ≡ some x
    → Everywhere IsSound w
    → x.count + length incoming ≡ count_for rank (messages_of processes)
    → Settles
        (λ _ w'. Closed notified (reduced rank processes) incoming win x w')
        Conflict
        (rma_analyzer_clear_comm_check_thread notified true (reduced rank processes) incoming win w)
clear_comm_check_thread-reduced notified rank win processes incoming x w a e v c =
    clear_comm_check_thread_lem notified (reduced rank processes) incoming win x w (length incoming)
      e v (c ∙ sym (reduced_lem rank processes a)) (omega arith)
