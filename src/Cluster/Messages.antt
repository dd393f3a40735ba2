-- ===== src/Cluster/Messages.antt =====
-- Messages in flight and counters, as one message more or fewer changes them.
use native.Mathlib.Decide.{ℕ_discrete}
use mathlib.Core.Path.{subst}
use parcoach_rma.Common.{
  ℕ, zero, suc, ◌+◌, ◌<◌, ◌≡◌, ◌≢◌, sym, ◌∙◌, ap, Option, none, some, List, [], ◌∷◌, ◌++◌, ℤ,
  length, length-append, get_elem?, get_elem?-set_ne, get_elem?-set-some, set, ◌==◌, arith,
  if◌then◌else◌,
}
use parcoach_rma.Analyzer.State.{WinState, Message}
use parcoach_rma.Cluster.{update_at, counted_for}
use parcoach_rma.Cluster.Balance.{AllTagged, update_at_here, update_at_ne, if-here, if-there}

pub AllTagged-append :
    (tag : ℤ) (ms ns : List Message)
    → AllTagged tag ms
    → AllTagged tag ns
    → AllTagged tag (ms ++ ns)
AllTagged-append tag [] ns a b = b
AllTagged-append tag (m ∷ ms) ns (t, a) b = (t, AllTagged-append tag ms ns a b)

pub AllTagged-remove :
    (tag : ℤ) (ms ns : List Message) (m : Message)
    → AllTagged tag (ms ++ (m ∷ ns))
    → AllTagged tag (ms ++ ns)
AllTagged-remove tag [] ns m (t, a) = a
AllTagged-remove tag (k ∷ ms) ns m (t, a) = (t, AllTagged-remove tag ms ns m a)

pub length-remove {ℓ} :
    {A : Type ℓ} (xs ys : List A) (x : A) → length (xs ++ (x ∷ ys)) ≡ length (xs ++ ys) + 1
length-remove [] ys x = omega arith
length-remove (z ∷ xs) ys x = omega (arith, length-remove xs ys x)

-- What holds of the new value at `i` and of the old one elsewhere.
pub update_at-elim {ℓ ℓ'} :
    {A : Type ℓ} (P : A → Type ℓ') (f : ℕ → A) (i : ℕ) (a : A) (j : ℕ)
    → (j ≡ i → P a)
    → P (f j)
    → P (update_at f i a j)
update_at-elim P f i a j here there = elim (ℕ_discrete j i) [
  | yes same ↦ subst P (sym (ap (update_at f i a) same ∙ update_at_here f i a)) (here same)
  | no other ↦ subst P (sym (update_at_ne f i j a other)) there
]

-- The messages in flight to `t` once `m` has been sent.
pub length-sent_here :
    (f : ℕ → List Message) (i t : ℕ) (m : Message)
    → t ≡ i
    → length (update_at f i (f i ++ (m ∷ [])) t) ≡ length (f t) + 1
length-sent_here f i t m e = omega (
  arith,
  ap length (ap (update_at f i (f i ++ (m ∷ []))) e ∙ update_at_here f i (f i ++ (m ∷ []))),
  length-append (f i) (m ∷ []),
  ap (λ k. length (f k)) e,
)

pub if-same : (t p a r : ℕ) → (t ≡ p → a ≡ r) → (if t == p then a else r) ≡ r
if-same t p a r same = elim (ℕ_discrete t p) [
  | yes here ↦ if-here t p a r here ∙ same here
  | no other ↦ if-there t p a r other
]

abbrev pub first : Message → List Message → Message
first k [] = k
first k (m ∷ ms) = m

pub get_elem?-lt : (xs : List ℕ) (i n : ℕ) → get_elem? xs i ≡ some n → i < length xs
get_elem?-lt [] i n e = cc
get_elem?-lt (x ∷ xs) zero n e = omega arith
get_elem?-lt (x ∷ xs) (suc i) n e = omega (arith, get_elem?-lt xs i n e)

abbrev pub count_of : Option ℕ → ℕ
count_of o = elim o as (λ _. ℕ) [ none ↦ 0 | some k ↦ k ]

-- One message more for the target of a message.
pub counted_for-set_here :
    (x : WinState) (t s n : ℕ)
    → t ≡ s
    → get_elem? x.array s ≡ some n
    → counted_for t (some (record x { array = set x.array s (n + 1) })) ≡ counted_for t (some x) + 1
counted_for-set_here x t s n d e =
    ap count_of (
      ap (get_elem? (set x.array s (n + 1))) d
      ∙ get_elem?-set-some x.array s (n + 1) (get_elem?-lt x.array s n e))
    ∙ sym (ap (λ o. count_of o + 1) (ap (get_elem? x.array) d ∙ e))

pub counted_for-set_there :
    (x : WinState) (t s n : ℕ)
    → t ≢ s
    → counted_for t (some (record x { array = set x.array s n })) ≡ counted_for t (some x)
counted_for-set_there x t s n d = ap count_of (get_elem?-set_ne x.array s t n d)
