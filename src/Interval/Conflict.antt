-- ===== src/Interval/Conflict.antt =====
-- Which pairs of intervals `if_intersects` reports, against a description of races.
use Prim.Native.Nat.{bit_or}
use parcoach_rma.Common.{ℕ, ◌≤◌, ◌≡◌, refl, true, ◌↔◌, ◌⊎◌, arith, max, ◌==◌, ap}
use parcoach_rma.Interval.{
  AccessType, local_read, local_write, rma_read, rma_write, access_value, Interval,
  check_access_rights, if_intersects,
}

-- The access is made from another process, or for one.
abbrev pub IsRemote : AccessType → Type 0
IsRemote rma_read = Unit
IsRemote rma_write = Unit
IsRemote _ = ⊥

abbrev pub IsWrite : AccessType → Type 0
IsWrite local_write = Unit
IsWrite rma_write = Unit
IsWrite _ = ⊥

-- Two accesses to one place race if one of them is remote and one of them writes.
abbrev pub Races : AccessType → AccessType → Type 0
Races a b = (IsRemote a ⊎ IsRemote b) × (IsWrite a ⊎ IsWrite b)

abbrev Agrees : AccessType → AccessType → Type 0
Agrees a b = ((bit_or (access_value a) (access_value b) == 3) ≡ true) ↔ Races a b

agrees : (a b : AccessType) → Agrees a b
agrees local_read local_read = ground arith
agrees local_read _ = ground arith
agrees local_write local_read = ground arith
agrees local_write _ = ground arith
agrees rma_read local_read = ground arith
agrees rma_read _ = ground arith
agrees rma_write local_read = ground arith
agrees rma_write _ = ground arith

-- The test by a bitwise OR holds exactly of the pairs of accesses that race.
pub check_access_rights_iff :
    (a b : Interval) → (check_access_rights a b ≡ true) ↔ Races a.access_type b.access_type
unfolding check_access_rights
check_access_rights_iff a b = agrees a.access_type b.access_type

access_or_comm :
    (a b : AccessType)
    → bit_or (access_value a) (access_value b) ≡ bit_or (access_value b) (access_value a)
access_or_comm local_read local_read = refl
access_or_comm local_read _ = refl
access_or_comm local_write local_read = refl
access_or_comm local_write _ = refl
access_or_comm rma_read local_read = refl
access_or_comm rma_read _ = refl
access_or_comm rma_write local_read = refl
access_or_comm rma_write _ = refl

check_access_rights_comm : (a b : Interval) → check_access_rights a b ≡ check_access_rights b a
unfolding check_access_rights
check_access_rights_comm a b = ap (λ n. n == 3) (access_or_comm a.access_type b.access_type)

-- The interval is not empty, with its up bound taken as its last address.
abbrev pub IsProper : Interval → Type 0
IsProper a = a.low_bound ≤ a.up_bound

-- The address lies in the interval, both bounds included.
abbrev pub Covers : Interval → ℕ → Type 0
Covers a x = (a.low_bound ≤ x) × (x ≤ a.up_bound)

-- Two proper intervals are reported exactly if they share an address and their accesses race.
pub if_intersects_iff :
    (a b : Interval)
    → IsProper a
    → IsProper b
    → (if_intersects a b ≡ true)
      ↔ (((x : ℕ) × Covers a x × Covers b x) × Races a.access_type b.access_type)
unfolding if_intersects
if_intersects_iff a b pa pb = (
  (λ h. (
    (max a.low_bound b.low_bound, (ground arith, ground arith), (ground arith, ground arith)),
    (check_access_rights_iff a b).0 (ground arith),
  )),
  (λ h. ground (arith, (check_access_rights_iff a b).1 h.1, h.0.1, h.0.2)),
)

-- The report does not depend on the order of the two intervals.
pub if_intersects_comm : (a b : Interval) → if_intersects a b ≡ if_intersects b a
unfolding if_intersects
if_intersects_comm a b = ground (arith, check_access_rights_comm a b)
