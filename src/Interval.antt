-- ===== src/Interval.antt =====
-- include/core/interval.h and src/core/interval.c: access types, intervals, and the test that two
-- accesses race.
pub mod Conflict
use Prim.Native.Nat.{bit_or}
use parcoach_rma.Common.{
  ℕ, ◌+◌, ◌<◌, Bool, true, false, ◌||◌, List, [], Option, none, some, ℤ, length, ltb, ◌==◌,
  if◌then◌else◌,
}

-- `Access_type`, whose values are those of the enumeration (`access_value`).
pub data AccessType : Type 0 where
  local_read local_write rma_read rma_write : AccessType

abbrev pub access_value : AccessType → ℕ
access_value local_read = 0
access_value local_write = 1
access_value rma_read = 2
access_value rma_write = 3

-- `FILENAME_MAX_LENGTH`.
abbrev pub filename_max_length : ℕ
filename_max_length = 128

-- `struct Interval`. The file name is the text before the first zero byte of the buffer.
pub record Interval : Type 0 where
  pub access_type : AccessType
  pub low_bound : ℕ  -- uint64_t
  pub up_bound : ℕ  -- uint64_t
  pub notification_id : ℤ
  pub line : ℤ
  pub filename : List ℕ

unfoldable pub check_access_rights : Interval → Interval → Bool
check_access_rights a b = bit_or (access_value a.access_type) (access_value b.access_type) == 3

-- `strncpy` copies the name and fills the buffer up with zero bytes. A name of
-- `FILENAME_MAX_LENGTH` bytes or more leaves a last byte that is not zero, and is reset.
unfoldable pub copy_filename : Option (List ℕ) → List ℕ
copy_filename none = []
copy_filename (some name) = if ltb (length name) filename_max_length then name else []

unfoldable pub create_interval : ℕ → ℕ → AccessType → ℤ → ℤ → Option (List ℕ) → Interval
create_interval low_bound up_bound access_type notif_id line filename = record {
  access_type = access_type;
  low_bound = low_bound;
  up_bound = up_bound;
  notification_id = notif_id;
  line = line;
  filename = copy_filename filename;
}

-- The getters.
abbrev pub get_low_bound : Interval → ℕ
get_low_bound itv = itv.low_bound

abbrev pub get_up_bound : Interval → ℕ
get_up_bound itv = itv.up_bound

abbrev pub get_access_type : Interval → AccessType
get_access_type itv = itv.access_type

abbrev pub get_notif_id : Interval → ℤ
get_notif_id itv = itv.notification_id

abbrev pub get_fileline : Interval → ℤ
get_fileline itv = itv.line

abbrev pub get_filename : Interval → List ℕ
get_filename itv = itv.filename

unfoldable pub if_intersects : Interval → Interval → Bool
if_intersects a b =
    if ltb b.up_bound a.low_bound || ltb a.up_bound b.low_bound
    then false
    else check_access_rights a b
