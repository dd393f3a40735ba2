-- ===== src/Overload/Free.antt =====
-- What the overloads of MPI_Win_free do: the analysis of the window ends.
use mathlib.Core.Path.{subst}
use parcoach_rma.Common.{
  ℕ, ◌<◌, ◌≡◌, ◌≢◌, ◌⊎◌, inl, inr, refl, sym, ◌∙◌, ap, none, some, Bool, false, List, length, ltb,
  pos, set, arith, if◌then◌else◌,
}
use parcoach_rma.Interval.{Interval}
use parcoach_rma.Analyzer.State.{WinState, StateTable, World, ok}
use parcoach_rma.Analyzer.Monad.{◌>>=◌, pure, gets, modify}
use parcoach_rma.Analyzer.Epoch.{rma_analyzer_clear_comm_check_thread}
use parcoach_rma.Analyzer.Window.{
  rma_analyzer_free_tag_range, tag_of_range, remove_window, rma_analyzer_stop,
}
use parcoach_rma.Analyzer.Tags.{freed_range}
use parcoach_rma.Analyzer.Frame.{OthersSame, clear-Frames}
use parcoach_rma.Analyzer.Invariant.{Everywhere}
use parcoach_rma.Analyzer.Invariant.Sound.{IsSound}
use parcoach_rma.Analyzer.Protocol.{
  Settles, bind-Settles, get_state-Settles, get_state-eq, Settles-imp, if-Settles,
}
use parcoach_rma.Analyzer.Protocol.Reception.{Conflict}
use parcoach_rma.Analyzer.Protocol.Closing.{both, Closed, clear_comm_check_thread_lem}
use parcoach_rma.Overload.{mpi_win_free}
use parcoach_rma.Overload.Static.{new_win_free}
use parcoach_rma.Overload.Fortran.{Ref, new_win_free_}

module _ {table : StateTable} (notified : Bool) (ret : ℕ) (incoming : List Interval) (win i : ℕ)
    (w : World table) where
  -- The table has no state of the window any more, the states of others are as before, and the
  -- window's range of tags is free.
  abbrev pub Freed : ℕ → World table → Type 0
  Freed r u =
      (r ≡ ret)
      × (table.find u.state_htbl win ≡ none)
      × ((v : ℕ) → v ≢ win → table.find u.state_htbl v ≡ table.find w.state_htbl v)
      × (u.win_mpi_tag_id ≡ set w.win_mpi_tag_id i 0)

  -- The window's state before `rma_analyzer_stop` has the tag that it had.
  abbrev Ready : World table → Type 0
  Ready u =
      ((z : WinState) × (table.find u.state_htbl win ≡ some z) × (z.mpi_tag ≡ tag_of_range (pos i)))
      × OthersSame win w u

  -- The end of the window after the last thread of its fences, if there were any: `u` is what
  -- `rma_analyzer_stop` finds.
  abbrev pub Stopped : WinState → ℕ → World table → Type 0
  Stopped x r v =
      Freed r v
      × ((u : World table) × (((0 < x.count_fence) × Closed notified 0 incoming win x u)
            ⊎ ((x.count_fence ≡ 0) × (u ≡ w)))
          × (rma_analyzer_stop notified win u ≡ ok (tt, v)))

  -- A conflict that the last thread of the fences finds.
  abbrev pub LastConflict : WinState → Interval → Interval → Type 0
  LastConflict x i j = Conflict i j × (0 < x.count_fence)

  -- What `rma_analyzer_stop` finds.
  abbrev Reached : WinState → World table → Type 0
  Reached x u =
      Ready u
      × (((0 < x.count_fence) × Closed notified 0 incoming win x u)
          ⊎ ((x.count_fence ≡ 0) × (u ≡ w)))

  stop-eq :
      (u : World table)
      → i < length w.win_mpi_tag_id
      → Ready u
      → (v : World table) × (rma_analyzer_stop notified win u ≡ ok (tt, v)) × Freed ret v
  unfolding rma_analyzer_stop ◌>>=◌ gets remove_window modify
  stop-eq u lt ((z, f, t), o) =
      let freed_ids =
        ap (rma_analyzer_free_tag_range u.win_mpi_tag_id) t
        ∙ freed_range u.win_mpi_tag_id i (omega (arith, lt, ap length o.2)) in
      (
        _,
        get_state-eq win _ u z f
            ∙ ap (λ ids. remove_window {table = table} notified win ids u) freed_ids,
        (
          refl,
          table.find-del u.state_htbl win,
          (λ v n. table.find-del_ne u.state_htbl win v n ∙ o.0 v n),
          ap (λ l. set l i 0) o.2,
        ),
      )

  ended :
      (x : WinState)
      → table.find w.state_htbl win ≡ some x
      → Everywhere IsSound w
      → x.count ≡ 0
      → Settles
          (λ _ u. Closed notified 0 incoming win x u × OthersSame win w u)
          Conflict
          (rma_analyzer_clear_comm_check_thread notified false 0 incoming win w)
  unfolding rma_analyzer_clear_comm_check_thread
  ended x e v c =
      both _
        (clear_comm_check_thread_lem notified 0 incoming win x w 0 e v (omega arith) (omega arith))
        ((clear-Frames notified win false 0 incoming).at w)

  last_thread :
      (x : WinState)
      → table.find w.state_htbl win ≡ some x
      → Everywhere IsSound w
      → x.count ≡ 0
      → x.mpi_tag ≡ tag_of_range (pos i)
      → Settles
          (λ _ u. Reached x u)
          (LastConflict x)
          ((if ltb 0 x.count_fence
              then rma_analyzer_clear_comm_check_thread notified false 0 incoming win
              else pure tt)
            w)
  unfolding pure
  last_thread x e v c t =
      if-Settles (ltb 0 x.count_fence) _ _ w
        (λ p.
          Settles-imp
            (λ _ u k. (
              ((k.0.1, k.0.2, ap (λ (z : WinState). z.mpi_tag) k.0.3 ∙ t), k.1),
              inl (ground (arith, p), k.0),
            ))
            (λ i j q. (q, ground (arith, p))) (ended x e v c))
        (λ p. record {
          ends = (((x, e, t), (λ v n. refl, refl, refl)), inr (ground (arith, p), refl));
        })

  after-stop :
      (x : WinState) (u : World table)
      → i < length w.win_mpi_tag_id
      → Reached x u
      → Settles
          (Stopped x)
          (LastConflict x)
          ((rma_analyzer_stop {table = table} notified win >>= λ _. pure ret) u)
  unfolding pure
  after-stop x u lt (ready, last) =
      let (v, e, freed) = stop-eq u lt ready in
      bind-Settles _ _ u
        (subst (λ o. Settles (λ _ w'. Stopped x ret w') (LastConflict x) o) (sym e)
          (record { ends = (freed, (u, last, e)) }))
        (λ i j q. q) (λ _ u' q. record { ends = q })

  -- On a sound table, for a window that has its range of tags in the array and has counted no
  -- received interval, the overload of MPI_Win_free in each library returns what MPI returns, with
  -- the window out of the table, its range of tags free and the states of other windows as they
  -- were. If there were fences, it ends the epoch of the last one before it stops the analysis:
  -- `rma_analyzer_stop` is called where that end leads to, with no thread, an empty tree and no
  -- active epoch, or the end of that epoch reports two intervals that conflict. Without fences,
  -- `rma_analyzer_stop` is called where the overload starts, and nothing is reported. It ends in
  -- no other way.
  pub win_free_lem :
      (x : WinState) (win_f2c : ℕ → ℕ) (win_ref : Ref ℕ)
      → table.find w.state_htbl win ≡ some x
      → Everywhere IsSound w
      → x.count ≡ 0
      → x.mpi_tag ≡ tag_of_range (pos i)
      → i < length w.win_mpi_tag_id
      → win_f2c win_ref.content ≡ win
      → Settles (Stopped x) (LastConflict x) (mpi_win_free notified ret incoming win w)
        × Settles (Stopped x) (LastConflict x) (new_win_free notified ret incoming win w)
        × Settles
            (Stopped x)
            (LastConflict x)
            (new_win_free_ notified win_f2c ret incoming win_ref w)
  unfolding mpi_win_free new_win_free new_win_free_ pure
  win_free_lem x win_f2c win_ref e v c t lt same = (freed, freed, rw same freed)
    where
      freed : Settles (Stopped x) (LastConflict x) (mpi_win_free notified ret incoming win w)
      freed =
          get_state-Settles win _ w x e
            (bind-Settles _ _ w (last_thread x e v c t) (λ i j k. k) (λ _ u k. after-stop x u lt k))
