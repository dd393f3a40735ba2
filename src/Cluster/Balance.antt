-- ===== src/Cluster/Balance.antt =====
-- The account of the messages of an epoch: what the processes have counted for a process is what it
-- has received and what is in flight to it.
use native.Mathlib.Decide.{ℕ_discrete}
use mathlib.Core.Path.{subst}
use parcoach_rma.Common.{
  ℕ, ◌+◌, ◌<◌, ◌≡◌, ◌≢◌, sym, ◌∙◌, ap, Bool, Option, some, List, [], ◌∷◌, ℤ, pos, ◌+ℤ◌, length,
  ◌==◌, arith, if◌then◌else◌,
}
use parcoach_rma.Analyzer.State.{WinState, StateTable, World, Message}
use parcoach_rma.Analyzer.Invariant.{Everywhere}
use parcoach_rma.Analyzer.Invariant.Sound.{IsSound}
use parcoach_rma.Analyzer.Protocol.Reception.{Stands}
use parcoach_rma.Cluster.{Cluster, update_at, counted_for, received_by, state_in}
use parcoach_rma.Cluster.Sums.{sum, sum_raised}

pub update_at_here {ℓ} : {A : Type ℓ} (f : ℕ → A) (i : ℕ) (a : A) → update_at f i a i ≡ a
update_at_here f i a = ground arith

pub update_at_ne {ℓ} : {A : Type ℓ} (f : ℕ → A) (i j : ℕ) (a : A) → j ≢ i → update_at f i a j ≡ f j
update_at_ne f i j a n = ground arith

-- The messages have this tag.
abbrev pub AllTagged : ℤ → List Message → Type 0
AllTagged tag [] = Unit
AllTagged tag (m ∷ rest) = (m.tag ≡ tag) × AllTagged tag rest

-- The epoch goes on in this state: the thread has not to end, there is a counter for each process,
-- and messages are sent and received with the tag.
abbrev pub IsOpen : ℕ → ℤ → WinState → Type 0
IsOpen size tag x =
    (x.thread_end ≡ 0)
    × (length x.array ≡ size)
    × (x.size_comm ≡ size)
    × (x.mpi_tag +ℤ pos x.count_epoch ≡ tag)

pub if-here : (t p a b : ℕ) → t ≡ p → (if t == p then a else b) ≡ a
if-here t p a b e = ground arith

pub if-there : (t p a b : ℕ) → t ≢ p → (if t == p then a else b) ≡ b
if-there t p a b n = ground arith

module _ {table : StateTable} (notified : Bool) (size : ℕ) (win : ℕ → ℕ) (tag : ℤ) where
  pub record Conserves (c : Cluster table) : Type 0 where
    pub active :
        (p : ℕ) → p < size → (x : WinState) × (state_in win c p ≡ some x) × IsOpen size tag x
    pub sound : (p : ℕ) → p < size → Everywhere IsSound (c.process p)
    pub tagged : (p : ℕ) → p < size → AllTagged tag (c.in_flight p)
    pub balance :
        (t : ℕ)
        → t < size
        → sum size (λ p. counted_for t (state_in win c p))
          ≡ received_by (state_in win c t) + length (c.in_flight t)

  -- A step in the process `p` from the state `x` to one that stands like `x'`, with the messages `g`
  -- in flight after it. `k` more messages are counted for `t`.
  module _ (c : Cluster table) (p : ℕ) (x x' : WinState) (w' : World table) (g : ℕ → List Message)
      (lt : p < size) (e : state_in win c p ≡ some x) (s : Stands notified (win p) x' w')
      (o : IsOpen size tag x') where
    abbrev after : Cluster table
    after = record { process = update_at c.process p w'; in_flight = g }

    -- What changes for the target `t`.
    abbrev pub Shifts : ℕ → Type 0
    Shifts t =
        (k : ℕ) × (counted_for t (some x') ≡ counted_for t (some x) + k)
        × ((if t == p then x'.count else received_by (state_in win c t)) + length (g t)
            ≡ received_by (state_in win c t) + length (c.in_flight t) + k)

    state-here : state_in win after p ≡ some s.0
    state-here =
        ap (λ (w : World table). table.find w.state_htbl (win p)) (update_at_here c.process p w')
        ∙ s.1

    state-there : (q : ℕ) → q ≢ p → state_in win after q ≡ state_in win c q
    state-there q n =
        ap (λ (w : World table). table.find w.state_htbl (win q)) (update_at_ne c.process p q w' n)

    active-after :
        Conserves c
        → (q : ℕ) → q < size
        → (y : WinState) × (state_in win after q ≡ some y) × IsOpen size tag y
    active-after v q lq = elim (ℕ_discrete q p) [
      | yes here ↦ (
        s.0,
        ap (state_in win after) here ∙ state-here,
        (
          ap (λ (z : WinState). z.thread_end) s.2 ∙ o.0,
          ap (λ (z : WinState). length z.array) s.2 ∙ o.1,
          ap (λ (z : WinState). z.size_comm) s.2 ∙ o.2,
          ap (λ (z : WinState). z.mpi_tag +ℤ pos z.count_epoch) s.2 ∙ o.3,
        ),
      )
      | no other ↦ let (y, f, oy) = v.active q lq in (y, state-there q other ∙ f, oy)
    ]

    received-after :
        (t : ℕ)
        → received_by (state_in win after t)
          ≡ (if t == p then x'.count else received_by (state_in win c t))
    received-after t = elim (ℕ_discrete t p) [
      | yes here ↦
          ap received_by (ap (state_in win after) here ∙ state-here)
          ∙ s.3
          ∙ sym (if-here t p x'.count (received_by (state_in win c t)) here)
      | no other ↦
          ap received_by (state-there t other)
          ∙ sym (if-there t p x'.count (received_by (state_in win c t)) other)
    ]

    counted-here : (t : ℕ) → counted_for t (state_in win after p) ≡ counted_for t (some x')
    counted-here t =
        ap (counted_for t) state-here ∙ ap (λ (z : WinState). counted_for t (some z)) s.2

    balance-after :
        Conserves c
        → (t : ℕ) → t < size
        → Shifts t
        → sum size (λ q. counted_for t (state_in win after q))
          ≡ received_by (state_in win after t) + length (g t)
    balance-after v t l (k, more, moved) =
        let total =
          sum_raised size p k (λ q. counted_for t (state_in win c q))
            (λ q. counted_for t (state_in win after q)) lt
            (counted-here t ∙ more ∙ ap (λ (o : Option WinState). counted_for t o + k) (sym e))
            (λ i li n. ap (counted_for t) (state-there i n)) in
        let old = v.balance t l in let now = received-after t in omega arith

    -- The account stays balanced if it does for each target.
    pub after-Conserves :
        Conserves c
        → Everywhere IsSound w'
        → ((t : ℕ) → t < size → AllTagged tag (g t))
        → ((t : ℕ) → t < size → Shifts t)
        → Conserves after
    after-Conserves v sw tg sh = record {
      active = active-after v;
      sound = λ q lq. elim (ℕ_discrete q p) [
        | yes here ↦
            subst (Everywhere IsSound)
              (sym (ap (update_at c.process p w') here ∙ update_at_here c.process p w')) sw
        | no other ↦
            subst (Everywhere IsSound) (sym (update_at_ne c.process p q w' other)) (v.sound q lq)
      ];
      tagged = tg;
      balance = λ t l. balance-after v t l (sh t l);
    }
