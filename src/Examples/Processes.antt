-- ===== src/Examples/Processes.antt =====
-- Two processes in an epoch, one of which announces a communication to the other.
use parcoach_rma.Common.{ℕ, ◌≡◌, refl, true, none, some, List, [], ◌∷◌, pos, negsuc, arith}
use parcoach_rma.Interval.{rma_read, rma_write, create_interval}
use parcoach_rma.Analyzer.State.{World, Message, ok}
use parcoach_rma.Analyzer.Monad.{◌>>=◌, pure, put_state, gets, modify, rma_analyzer_get_state}
use parcoach_rma.Analyzer.Save.{rma_analyzer_save_interval, is_saved_in}
use parcoach_rma.Analyzer.Epoch.{
  rma_analyzer_init_comm_check_thread, rma_analyzer_clear_comm_check_thread,
}
use parcoach_rma.Analyzer.Window.{rma_analyzer_update_on_comm_send, send, count_send, increment}
use parcoach_rma.Analyzer.Protocol.{Settles}
use parcoach_rma.Analyzer.Protocol.Reception.{Conflict}
use parcoach_rma.Analyzer.Protocol.Closing.{Closed}
use parcoach_rma.Analyzer.Restart.{begun}
use parcoach_rma.Cluster.{
  Cluster, Begins, Reach, begin, next, communication, update_at, counted_for, state_in, contents,
}
use parcoach_rma.Cluster.Sums.{sum}
use parcoach_rma.Cluster.Balance.{Conserves}
use parcoach_rma.Cluster.Closing.{Reach-Conserves, Reach-Closed}
use parcoach_rma.Examples.Table.{list_table, find_state, write_state}
use parcoach_rma.Examples.State.{idle, with_window, found_idle, idle-Everywhere}

-- Both processes after the begin of the epoch.
abbrev both_begun : Cluster list_table
both_begun = record { process = λ _. with_window (begun idle); in_flight = λ _. [] }

init_idle :
    rma_analyzer_init_comm_check_thread true 7 (with_window idle)
    ≡ ok (tt, with_window (begun idle))
unfolding rma_analyzer_init_comm_check_thread ◌>>=◌ put_state rma_analyzer_get_state find_state
    write_state
init_idle = refl

both_begun-Begins : Begins true 2 (λ _. 7) (pos 65537) both_begun
both_begun-Begins = record {
  before = λ _. with_window idle;
  state = λ _. idle;
  found = λ _ _. found_idle;
  sound = λ _ _. idle-Everywhere;
  none_received = λ _ _. refl;
  all_counted = λ _ _. refl;
  same_tag = λ _ _. refl;
  begun = λ _ _. init_idle;
  none_in_flight = λ _ _. refl;
}

abbrev put_message : Message
put_message = record {
  target_rank = 1;
  tag = pos 65537;
  comm = 1;
  content = create_interval 16 23 rma_write (negsuc 0) (pos 0) none;
}

abbrev after_put : World list_table
after_put = record (with_window (record (begun idle) { array = 0 ∷ 1 ∷ [] })) {
  sent = put_message ∷ [];
}

-- A put from 8 bytes outside of the window of process 0 to the offset 16 in that of process 1.
put_returns :
    rma_analyzer_update_on_comm_send true 500 8 16 8 1 rma_read rma_write
      (negsuc 0)
      (pos 0)
      none
      7
      (with_window (begun idle))
    ≡ ok (tt, after_put)
unfolding rma_analyzer_update_on_comm_send ◌>>=◌ pure put_state gets modify rma_analyzer_get_state
    find_state write_state rma_analyzer_save_interval is_saved_in send count_send increment
    create_interval
put_returns = refl

abbrev in_flight_after_put : ℕ → List Message
in_flight_after_put = update_at (λ _. []) 1 (put_message ∷ [])

abbrev put_announced : Cluster list_table
put_announced = record {
  process = update_at (λ _. with_window (begun idle)) 0 after_put;
  in_flight = in_flight_after_put;
}

put_announced-Reach : Reach true 2 (λ _. 7) (pos 65537) put_announced
put_announced-Reach = next (begin both_begun-Begins) (
    communication 0 500 8 16 8 1 rma_read rma_write (negsuc 0) (pos 0) none put_message after_put
      (omega arith) (omega arith) put_returns refl refl)

Reach-Conserves_example : Conserves true 2 (λ _. 7) (pos 65537) put_announced
Reach-Conserves_example = Reach-Conserves true 2 (λ _. 7) put_announced-Reach

put_announced-state : state_in (λ _. 7) put_announced 1 ≡ some (begun idle)
unfolding find_state
put_announced-state = refl

Reach-Closed_example :
    Settles
      (λ _ w'.
        Closed true
          (sum 2 (λ q. counted_for 1 (state_in (λ _. 7) put_announced q)))
          (contents (put_announced.in_flight 1))
          7
          (begun idle)
          w')
      Conflict
      (rma_analyzer_clear_comm_check_thread true true
        (sum 2 (λ q. counted_for 1 (state_in (λ _. 7) put_announced q)))
        (contents (put_announced.in_flight 1))
        7
        (put_announced.process 1))
Reach-Closed_example =
    Reach-Closed true 2 (λ _. 7) (pos 65537) put_announced 1 (begun idle) put_announced-Reach
      (omega arith) put_announced-state
