-- ===== src/Analyzer/Frame.antt =====
-- The end of an epoch on a window touches no state of another window.
use parcoach_rma.Common.{
  ℕ, ◌≡◌, ◌≢◌, refl, ◌∙◌, Bool, true, false, Option, none, some, List, [], ◌∷◌, if◌then◌else◌,
}
use parcoach_rma.Interval.{Interval}
use parcoach_rma.Analyzer.State.{
  WinState, StateTable, Fault, exit_failure, Outcome, ok, fault, World, M,
}
use parcoach_rma.Analyzer.Monad.{◌>>=◌, pure, fail, gets, put_state, rma_analyzer_get_state}
use parcoach_rma.Analyzer.Save.{
  insert_unless_overlap, rma_analyzer_save_notif, rma_analyzer_save_interval,
}
use parcoach_rma.Analyzer.Thread.{
  Reception, exited, received, waiting, ThreadEnd, thread_exited, thread_waiting, test_message,
  rma_analyzer_check_communication, save_received, after_reception, rma_analyzer_comm_check_thread,
}
use parcoach_rma.Analyzer.Epoch.{
  rma_analyzer_init_comm_check_thread, after_join, rma_analyzer_clear_comm_check_thread,
}
use parcoach_rma.Analyzer.Invariant.{Lands}

module _ {table : StateTable} (win : ℕ) where
  -- The table finds for other windows what it found before and has the same keys, and the same
  -- ranges of tags are in use.
  abbrev pub OthersSame : World table → World table → Type 0
  OthersSame w w' =
      ((v : ℕ) → v ≢ win → table.find w'.state_htbl v ≡ table.find w.state_htbl v)
      × (table.wins w'.state_htbl ≡ table.wins w.state_htbl)
      × (w'.win_mpi_tag_id ≡ w.win_mpi_tag_id)

  -- If the routine returns, it has left all that alone.
  pub record Frames {A : Type 0} (m : M table A) : Type 0 where
    pub at : (w : World table) → Lands (λ _ w'. OthersSame w w') (m w)

module _ {table : StateTable} where
  look : World table → Option WinState → Outcome (WinState × World table)
  look w o = elim o [ none ↦ fault exit_failure | some state ↦ ok (state, w) ]

module _ {table : StateTable} {win : ℕ} where
  bind-Frames-at :
      {A B : Type 0} (f : A → M table B) (w : World table)
      → ((a : A) → Frames win (f a))
      → (o : Outcome (A × World table)) → Lands (λ _ w'. OthersSame win w w') o
      → Lands (λ _ w'. OthersSame win w w') (elim o [ ok (a, w') ↦ f a w' | fault e ↦ fault e ])
  bind-Frames-at {A = A} {B = B} f w kf (ok (a, w')) h = go (f a w') ((kf a).at w')
    where
      go :
          (o : Outcome (B × World table))
          → Lands (λ _ u. OthersSame win w' u) o
          → Lands (λ _ u. OthersSame win w u) o
      go (ok (b, u)) k = (λ v n. k.0 v n ∙ h.0 v n, k.1 ∙ h.1, k.2 ∙ h.2)
      go (fault e) k = tt
  bind-Frames-at {A = A} {B = B} f w kf (fault e) h = tt

  pub bind-Frames :
      {A B : Type 0} (m : M table A) (f : A → M table B)
      → Frames win m
      → ((a : A) → Frames win (f a))
      → Frames win (m >>= f)
  unfolding ◌>>=◌
  bind-Frames m f km kf = record { at = λ w. bind-Frames-at f w kf (m w) (km.at w) }

  pub pure-Frames : {A : Type 0} (a : A) → Frames {table = table} win (pure a)
  unfolding pure
  pure-Frames a = record { at = λ w. (λ v n. refl, refl, refl) }

  pub fail-Frames : {A : Type 0} (e : Fault) → Frames {table = table} win (fail {A = A} e)
  unfolding fail
  fail-Frames e = record { at = λ w. tt }

  pub gets-Frames : {A : Type 0} (f : World table → A) → Frames win (gets f)
  unfolding gets
  gets-Frames f = record { at = λ w. (λ v n. refl, refl, refl) }

  found-Frames :
      {B : Type 0} (f : WinState → M table B)
      → ((x : WinState) → x.state_win ≡ win → Frames win (f x))
      → (w : World table) (o : Option WinState) → table.find w.state_htbl win ≡ o
      → Lands
          (λ _ w'. OthersSame win w w')
          (elim (look w o) [ ok (a, w') ↦ f a w' | fault e ↦ fault e ])
  unfolding look
  found-Frames f kf w none e = tt
  found-Frames f kf w (some x) e = (kf x (table.state_win-find w.state_htbl win e)).at w

  -- The state that is read is one of the window.
  pub get_state-Frames :
      {B : Type 0} (f : WinState → M table B)
      → ((x : WinState) → x.state_win ≡ win → Frames win (f x))
      → Frames win (rma_analyzer_get_state win >>= f)
  unfolding rma_analyzer_get_state ◌>>=◌ look
  get_state-Frames f kf = record {
    at = λ w. found-Frames f kf w (table.find w.state_htbl win) refl;
  }

  pub put_state-Frames :
      (x : WinState) → x.state_win ≡ win → Frames {table = table} win (put_state x)
  unfolding put_state
  put_state-Frames x e = record {
    at = λ w. (
      λ v n. table.find-write_ne w.state_htbl x v (λ q. n (q ∙ e)),
      table.wins-write w.state_htbl x,
      refl,
    );
  }

  pub if-Frames :
      {A : Type 0} (b : Bool) (m n : M table A)
      → Frames win m
      → Frames win n
      → Frames win (if b then m else n)
  if-Frames true m n km kn = km
  if-Frames false m n km kn = kn

ruleset frames_rules = (
  get_state-Frames, bind-Frames, pure-Frames, fail-Frames, gets-Frames, put_state-Frames, if-Frames,
)

module _ {table : StateTable} (notified : Bool) (win : ℕ) where
  save_notif-Frames :
      (itv : Interval) → Frames {table = table} win (rma_analyzer_save_notif notified itv win)
  unfolding rma_analyzer_save_notif
  save_notif-Frames itv = search frames_rules

  insert_unless_overlap-Frames :
      (x : WinState) (itv : Interval) (o : Option Interval)
      → x.state_win ≡ win
      → Frames {table = table} win (insert_unless_overlap notified x itv win o)
  unfolding insert_unless_overlap
  insert_unless_overlap-Frames x itv (some overlap) s = search frames_rules
  insert_unless_overlap-Frames x itv none s = search (frames_rules, save_notif-Frames)

  save_interval-Frames :
      (itv : Interval) → Frames {table = table} win (rma_analyzer_save_interval notified itv win)
  unfolding rma_analyzer_save_interval
  save_interval-Frames itv = search (frames_rules, insert_unless_overlap-Frames)

  test_message-Frames :
      (x : WinState) (incoming : List Interval)
      → x.state_win ≡ win
      → Frames {table = table} win (test_message notified x incoming)
  unfolding test_message
  test_message-Frames x [] s = search frames_rules
  test_message-Frames x (itv ∷ rest) s = search frames_rules

  check_communication-Frames :
      (incoming : List Interval)
      → Frames {table = table} win (rma_analyzer_check_communication notified win incoming)
  unfolding rma_analyzer_check_communication
  check_communication-Frames incoming = search (frames_rules, test_message-Frames)

  save_received-Frames :
      (itv : Interval) → Frames {table = table} win (save_received notified win itv)
  unfolding save_received
  save_received-Frames itv = search (frames_rules, save_interval-Frames)

  after_reception-Frames :
      (incoming : List Interval) (next : M table ThreadEnd) (r : Reception)
      → Frames win next
      → Frames win (after_reception notified win incoming next r)
  unfolding after_reception
  after_reception-Frames incoming next exited k = search frames_rules
  after_reception-Frames incoming next (received itv rest) k =
      bind-Frames _ _ (save_received-Frames itv) (λ _. k)
  after_reception-Frames incoming next waiting k = search frames_rules

  comm_check_thread-Frames :
      (incoming : List Interval)
      → Frames {table = table} win (rma_analyzer_comm_check_thread notified win incoming)
  unfolding rma_analyzer_comm_check_thread
  comm_check_thread-Frames [] =
      bind-Frames _ _ (check_communication-Frames [])
        (λ r. after_reception-Frames [] _ r (search frames_rules))
  comm_check_thread-Frames (itv ∷ rest) =
      bind-Frames _ _ (check_communication-Frames (itv ∷ rest))
        (λ r. after_reception-Frames (itv ∷ rest) _ r (comm_check_thread-Frames rest))

  after_join-Frames : (end : ThreadEnd) → Frames {table = table} win (after_join notified win end)
  unfolding after_join
  after_join-Frames thread_waiting = search frames_rules
  after_join-Frames (thread_exited rest) = search frames_rules

  -- The end of an epoch leaves the states of other windows alone.
  pub clear-Frames :
      (do_reduce : Bool) (total : ℕ) (incoming : List Interval)
      → Frames {table = table} win
          (rma_analyzer_clear_comm_check_thread notified do_reduce total incoming win)
  unfolding rma_analyzer_clear_comm_check_thread
  clear-Frames do_reduce total incoming =
      search (frames_rules, comm_check_thread-Frames, after_join-Frames)

  pub init-Frames : Frames {table = table} win (rma_analyzer_init_comm_check_thread notified win)
  unfolding rma_analyzer_init_comm_check_thread
  init-Frames = search frames_rules
