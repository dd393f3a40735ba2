-- ===== src/Cluster/Sums.antt =====
-- Sums over the processes.
use native.Mathlib.Decide.{ℕ_discrete}
use parcoach_rma.Common.{ℕ, zero, suc, ◌+◌, ◌<◌, ◌≡◌, ◌≢◌, refl, arith}

-- f 0 + ... + f (n - 1).
unfoldable pub sum : ℕ → (ℕ → ℕ) → ℕ
sum zero f = 0
sum (suc n) f = sum n f + f n

pub sum_same : (n : ℕ) (f g : ℕ → ℕ) → ((i : ℕ) → i < n → f i ≡ g i) → sum n f ≡ sum n g
unfolding sum
sum_same zero f g same = refl
sum_same (suc n) f g same =
    omega (arith, sum_same n f g (λ i lt. same i (omega arith)), same n (omega arith))

-- One of the summands is larger by `k`.
pub sum_raised :
    (n p k : ℕ) (f g : ℕ → ℕ)
    → p < n
    → g p ≡ f p + k
    → ((i : ℕ) → i < n → i ≢ p → g i ≡ f i)
    → sum n g ≡ sum n f + k
unfolding sum
sum_raised zero p k f g lt raised same = absurd (omega arith)
sum_raised (suc n) p k f g lt raised same = elim (ℕ_discrete n p) [
  | yes here ↦
      let rest = sum_same n g f (λ i li. same i (omega arith) (λ e. omega arith)) in
      let top : g n ≡ f n + k = rw here raised in omega arith
  | no other ↦
      let rest =
        sum_raised n p k f g (omega (arith, λ (e : n ≡ p). other e)) raised
          (λ i li. same i (omega arith)) in
      let top = same n (omega arith) other in omega arith
]

pub sum_zero : (n : ℕ) (f : ℕ → ℕ) → ((i : ℕ) → i < n → f i ≡ 0) → sum n f ≡ 0
unfolding sum
sum_zero zero f z = refl
sum_zero (suc n) f z = omega (arith, sum_zero n f (λ i li. z i (omega arith)), z n (omega arith))
