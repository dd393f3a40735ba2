-- ===== src/Cluster/Steps.antt =====
-- Each step keeps the account of the messages of an epoch.
use native.Mathlib.Decide.{ℕ_discrete}
use mathlib.Core.Path.{subst}
use parcoach_rma.Common.{
  ℕ, ◌+◌, ◌<◌, ◌≡◌, sym, ◌∙◌, ap, Bool, Option, some, List, [], ◌∷◌, ◌++◌, ℤ, length, get_elem?,
  elem_at, set, length-set, ◌==◌, arith, if◌then◌else◌,
}
use parcoach_rma.Interval.{AccessType, Interval}
use parcoach_rma.Analyzer.State.{WinState, StateTable, World, Message, ok}
use parcoach_rma.Analyzer.Save.{rma_analyzer_save_interval}
use parcoach_rma.Analyzer.Thread.{thread_waiting}
use parcoach_rma.Analyzer.Window.{rma_analyzer_update_on_comm_send}
use parcoach_rma.Analyzer.Run.{receive_one}
use parcoach_rma.Analyzer.Run.Sound.{kept, receive_one-Keeps}
use parcoach_rma.Analyzer.Invariant.Sound.{sound_trees}
use parcoach_rma.Analyzer.Invariant.Routines.{save_interval-Keeps}
use parcoach_rma.Analyzer.Invariant.Windows.{update_on_comm_send-Keeps}
use parcoach_rma.Analyzer.Sending.{update_on_comm_send_lem}
use parcoach_rma.Analyzer.Protocol.{settled}
use parcoach_rma.Analyzer.Protocol.Reception.{saved-Stands}
use parcoach_rma.Cluster.{
  Cluster, Step, local_access, communication, reception, update_at, counted_for, received_by,
  state_in,
}
use parcoach_rma.Cluster.Rounds.{receive_one-Stands}
use parcoach_rma.Cluster.Balance.{
  AllTagged, Conserves, after-Conserves, update_at_here, update_at_ne, if-here, if-there,
}
use parcoach_rma.Cluster.Messages.{
  AllTagged-append, AllTagged-remove, length-remove, update_at-elim, length-sent_here, if-same,
  first, counted_for-set_here, counted_for-set_there,
}

module _ {table : StateTable} (notified : Bool) (size : ℕ) (win : ℕ → ℕ) (tag : ℤ) where
  module _ (c : Cluster table) (v : Conserves notified size win tag c) (p : ℕ) (lt : p < size) where
    received_here :
        (x : WinState)
        → state_in win c p ≡ some x
        → (t : ℕ) → t ≡ p
        → x.count ≡ received_by (state_in win c t)
    received_here x f t e = ap received_by (sym (ap (state_in win c) e ∙ f))

    access-Conserves :
        (itv : Interval) (saved : Bool) (w' : World table)
        → rma_analyzer_save_interval notified itv (win p) (c.process p) ≡ ok (saved, w')
        → Conserves notified size win tag (record c { process = update_at c.process p w' })
    access-Conserves itv saved w' e =
        let (x, f, o) = v.active p lt in
        after-Conserves notified size win tag c p x x w' c.in_flight lt f
          (settled (saved-Stands notified (win p) itv x (c.process p) f) e) o v
          (kept (save_interval-Keeps sound_trees notified itv (win p)) e (v.sound p lt)) v.tagged
          (λ t l. (0, omega arith, omega (arith, if-same t p x.count _ (received_here x f t))))

    module _ (address local_size disp target_size target : ℕ) (here there : AccessType)
        (id line : ℤ) (name : Option (List ℕ)) (m : Message) (w' : World table)
        (lt_target : target < size) where
      in_flight_after : ℕ → List Message
      in_flight_after = update_at c.in_flight m.target_rank (c.in_flight m.target_rank ++ (m ∷ []))

      sent_shift :
          (x : WinState) (n : ℕ)
          → state_in win c p ≡ some x
          → get_elem? x.array target ≡ some n
          → m.target_rank ≡ target
          → (t : ℕ)
          → (k : ℕ) × (counted_for t (some (record x { array = set x.array target (n + 1) }))
              ≡ counted_for t (some x) + k)
            × ((if t == p then x.count else received_by (state_in win c t))
                  + length (in_flight_after t)
                ≡ received_by (state_in win c t) + length (c.in_flight t) + k)
      unfolding in_flight_after
      sent_shift x n f q to t = elim (ℕ_discrete t target) [
        | yes at ↦ (
          1,
          counted_for-set_here x t target n at q,
          omega (
            arith,
            if-same t p x.count _ (received_here x f t),
            length-sent_here c.in_flight m.target_rank t m (at ∙ sym to),
          ),
        )
        | no other ↦ (
          0,
          omega (arith, counted_for-set_there x t target (n + 1) other),
          omega (
            arith,
            if-same t p x.count _ (received_here x f t),
            ap length (
                update_at_ne c.in_flight m.target_rank t (c.in_flight m.target_rank ++ (m ∷ []))
                  (λ e. other (e ∙ to))),
          ),
        )
      ]

      sending-Conserves :
          rma_analyzer_update_on_comm_send notified address local_size disp target_size target here
              there id line name
              (win p)
              (c.process p)
            ≡ ok (tt, w')
          → w'.sent ≡ m ∷ (c.process p).sent
          → Conserves notified size win tag (record {
            process = update_at c.process p w';
            in_flight = update_at c.in_flight m.target_rank (c.in_flight m.target_rank ++ (m ∷ []));
          })
      unfolding in_flight_after
      sending-Conserves e sent =
          let (x, f, o) = v.active p lt in
          let (n, q) = elem_at x.array target (omega (arith, o.1)) in
          let h =
            settled
              (update_on_comm_send_lem notified (win p) address local_size disp target_size target
                here there id line name x (c.process p) n f q)
              e in
          let same = ap (first m) (sym sent ∙ h.0) in
          after-Conserves notified size win tag c p x
            (record x { array = set x.array target (n + 1) }) w' in_flight_after lt f h.1
            (o.0, length-set x.array target (n + 1) ∙ o.1, o.2, o.3) v
            (kept
              (update_on_comm_send-Keeps notified address local_size disp target_size target here
                there id line name (win p))
              e (v.sound p lt))
            (λ t l.
              update_at-elim (AllTagged tag) c.in_flight m.target_rank _ t
                (λ at.
                  AllTagged-append tag (c.in_flight m.target_rank) (m ∷ [])
                    (subst (λ k. AllTagged tag (c.in_flight k)) at (v.tagged t l))
                    (ap (λ (k : Message). k.tag) same ∙ o.3, tt))
                (v.tagged t l))
            (λ t l. sent_shift x n f q (ap (λ (k : Message). k.target_rank) same) t)

    reception_shift :
        (x : WinState) (earlier later : List Message) (m : Message)
        → state_in win c p ≡ some x
        → c.in_flight p ≡ earlier ++ (m ∷ later)
        → (t : ℕ)
        → (k : ℕ) × (counted_for t (some (record x { count = x.count + 1 }))
            ≡ counted_for t (some x) + k)
          × ((if t == p then x.count + 1 else received_by (state_in win c t))
                + length (update_at c.in_flight p (earlier ++ later) t)
              ≡ received_by (state_in win c t) + length (c.in_flight t) + k)
    reception_shift x earlier later m f split t = elim (ℕ_discrete t p) [
      | yes at ↦ (
        0,
        omega arith,
        omega (
          arith,
          if-here t p (x.count + 1) (received_by (state_in win c t)) at,
          received_here x f t at,
          ap length (
              ap (update_at c.in_flight p (earlier ++ later)) at
              ∙ update_at_here c.in_flight p (earlier ++ later)),
          ap length (ap c.in_flight at ∙ split),
          length-remove earlier later m,
        ),
      )
      | no other ↦ (
        0,
        omega arith,
        omega (
          arith,
          if-there t p (x.count + 1) (received_by (state_in win c t)) other,
          ap length (update_at_ne c.in_flight p t (earlier ++ later) other),
        ),
      )
    ]

    reception-Conserves :
        (earlier later : List Message) (m : Message) (w' : World table)
        → c.in_flight p ≡ earlier ++ (m ∷ later)
        → receive_one notified (win p) (m.content ∷ []) (c.process p) ≡ ok (thread_waiting, w')
        → Conserves notified size win tag (record {
          process = update_at c.process p w';
          in_flight = update_at c.in_flight p (earlier ++ later);
        })
    reception-Conserves earlier later m w' split e =
        let (x, f, o) = v.active p lt in
        after-Conserves notified size win tag c p x (record x { count = x.count + 1 }) w'
          (update_at c.in_flight p (earlier ++ later)) lt f
          (settled (receive_one-Stands notified (win p) m.content x (c.process p) f o.0) e) o v
          (kept (receive_one-Keeps notified (win p) (m.content ∷ [])) e (v.sound p lt))
          (λ t l.
            update_at-elim (AllTagged tag) c.in_flight p _ t
              (λ at.
                AllTagged-remove tag earlier later m (subst (AllTagged tag) split (v.tagged p lt)))
              (v.tagged t l))
          (λ t l. reception_shift x earlier later m f split t)

  pub Step-Conserves :
      {c d : Cluster table}
      → Step notified size win c d
      → Conserves notified size win tag c
      → Conserves notified size win tag d
  Step-Conserves {c = c} (local_access p itv saved w' lt e q) v =
      subst (Conserves notified size win tag) (sym q) (access-Conserves c v p lt itv saved w' e)
  Step-Conserves {c = c}
        (communication p a s d z target here there id line name m w' lt lt_target e sent q) v =
      subst (Conserves notified size win tag) (sym q)
        (sending-Conserves c v p lt a s d z target here there id line name m w' lt_target e sent)
  Step-Conserves {c = c} (reception p x earlier later m w' lt split f t e q) v =
      subst (Conserves notified size win tag) (sym q)
        (reception-Conserves c v p lt earlier later m w' split e)
