-- ===== src/Overload/Fence.antt =====
-- What a fence does to its window: it ends an epoch, if a fence has begun one, and begins the next.
use parcoach_rma.Common.{
  ℕ, ◌+◌, ◌≤◌, ◌≡◌, refl, ◌∙◌, ap, some, Bool, true, List, length, replicate, ltb, if◌then◌else◌,
}
use parcoach_rma.Interval.{Interval}
use parcoach_rma.Analyzer.State.{WinState, StateTable, World}
use parcoach_rma.Analyzer.Monad.{◌>>=◌, ◌>>◌, pure, put_state}
use parcoach_rma.Analyzer.Epoch.{
  rma_analyzer_init_comm_check_thread, rma_analyzer_clear_comm_check_thread,
}
use parcoach_rma.Analyzer.Invariant.{Everywhere}
use parcoach_rma.Analyzer.Invariant.Sound.{IsSound}
use parcoach_rma.Analyzer.Protocol.{
  Settles, bind-Settles, get_state-Settles, find-written, Settles-imp, if-Settles,
}
use parcoach_rma.Analyzer.Protocol.Reception.{Conflict}
use parcoach_rma.Analyzer.Protocol.Closing.{closed, clear_comm_check_thread_lem}
use parcoach_rma.Overload.{begin_fence, mpi_win_fence}

-- A state in which a fence has begun an epoch.
abbrev pub fenced : WinState → WinState
fenced x = record x {
  array = replicate x.size_comm 0;
  thread_end = 0;
  count_epoch = x.count_epoch + 1;
  count_fence = x.count_fence + 1;
  active_epoch = 1;
  running = true;
}

module _ {table : StateTable} (notified : Bool) (ret total : ℕ) (incoming : List Interval)
    (win : ℕ) where
  -- The window's state after a fence, by the state before it.
  abbrev pub Fenced : WinState → ℕ → World table → Type 0
  Fenced x r w =
      (r ≡ ret)
      × ((y : WinState) × (table.find w.state_htbl win
            ≡ some (fenced (if ltb 0 x.count_fence then closed notified total x y else x))))

  module _ (z : WinState) (w : World table) (e : table.find w.state_htbl win ≡ some z) where
    abbrev counted : WinState
    counted = record z { count_fence = z.count_fence + 1 }

    abbrev counted_world : World table
    counted_world = record w { state_htbl = table.write w.state_htbl counted }

    find-counted : table.find counted_world.state_htbl win ≡ some counted
    find-counted = find-written table w.state_htbl win z counted e refl

    init-Settles :
        Settles
          (λ _ u. table.find u.state_htbl win ≡ some (fenced z))
          Conflict
          (rma_analyzer_init_comm_check_thread {table = table} notified win counted_world)
    unfolding rma_analyzer_init_comm_check_thread put_state
    init-Settles = get_state-Settles win _ counted_world counted find-counted (record {
      ends = find-written table counted_world.state_htbl win counted _ find-counted refl;
    })

    return-Settles :
        Settles
          (λ r u. (r ≡ ret) × (table.find u.state_htbl win ≡ some (fenced z)))
          Conflict
          ((rma_analyzer_init_comm_check_thread {table = table} notified win >> pure ret)
            counted_world)
    unfolding pure
    return-Settles =
        bind-Settles _ _ counted_world init-Settles (λ i j k. k)
          (λ _ u h. record { ends = (refl, h) })

    count-Settles :
        Settles
          (λ r u. (r ≡ ret) × (table.find u.state_htbl win ≡ some (fenced z)))
          Conflict
          ((put_state counted
              >> (rma_analyzer_init_comm_check_thread {table = table} notified win >> pure ret))
            w)
    unfolding ◌>>=◌ put_state
    count-Settles = return-Settles

    begin_fence-Settles :
        Settles
          (λ r u. (r ≡ ret) × (table.find u.state_htbl win ≡ some (fenced z)))
          Conflict
          (begin_fence {table = table} notified ret win w)
    unfolding begin_fence
    begin_fence-Settles = get_state-Settles win _ w z e count-Settles

  end-Settles :
      (x : WinState) (w : World table) (n : ℕ)
      → table.find w.state_htbl win ≡ some x
      → Everywhere IsSound w
      → x.count + n ≡ total
      → n ≤ length incoming
      → Settles
          (λ _ u.
            (y : WinState) × (table.find u.state_htbl win
              ≡ some (if ltb 0 x.count_fence then closed notified total x y else x)))
          Conflict
          ((if ltb 0 x.count_fence
              then rma_analyzer_clear_comm_check_thread {table = table} notified true total incoming
                  win
              else pure tt)
            w)
  unfolding pure
  end-Settles x w n e v c enough =
      if-Settles (ltb 0 x.count_fence) _ _ w
        (λ q. rw q (
          Settles-imp (λ _ u k. (k.0, k.2 ∙ ap some k.3)) (λ i j k. k)
            (clear_comm_check_thread_lem notified total incoming win x w n e v c enough)))
        (λ q. rw q (record { ends = (x, e) }))

  -- On a sound table, let `total` intervals have been sent to the process for a window, and let the
  -- `n` that have not been received arrive. The first fence on the window begins an epoch and leaves
  -- the trees alone; a later fence also ends the epoch before and leaves the trees empty, or reports
  -- two intervals that conflict. A fence ends in no other way.
  pub mpi_win_fence_lem :
      (x : WinState) (w : World table) (n : ℕ)
      → table.find w.state_htbl win ≡ some x
      → Everywhere IsSound w
      → x.count + n ≡ total
      → n ≤ length incoming
      → Settles
          (Fenced x)
          Conflict
          (mpi_win_fence {table = table} notified ret total incoming win w)
  unfolding mpi_win_fence
  mpi_win_fence_lem x w n e v c enough = get_state-Settles win _ w x e (
      bind-Settles _ _ w (end-Settles x w n e v c enough) (λ i j k. k)
        (λ _ w' h.
          Settles-imp (λ r u k. (k.0, (h.0, k.1))) (λ i j k. k) (begin_fence-Settles _ w' h.1)))
