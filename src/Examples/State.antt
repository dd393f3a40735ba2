-- ===== src/Examples/State.antt =====
-- A window of two processes with an access in its tree, at several points of its life.
use mathlib.Core.Path.{subst}
use mathlib.Core.Option.{some-injective}
use parcoach_rma.Common.{
  ◌≡◌, refl, true, false, Bool, none, some, [], ◌∷◌, pos, negsuc, ◌==◌, if◌then◌else◌,
}
use parcoach_rma.Interval.{rma_read, rma_write, Interval}
use parcoach_rma.Avl.{null, node}
use parcoach_rma.Analyzer.State.{no_language, WinState, World}
use parcoach_rma.Analyzer.Invariant.{Everywhere}
use parcoach_rma.Analyzer.Invariant.Sound.{IsSound}
use parcoach_rma.Examples.Table.{list_table, find_state}

abbrev pub written : Interval
written = record {
  access_type = rma_write;
  low_bound = 110;
  up_bound = 119;
  notification_id = pos 3;
  line = pos 8;
  filename = [];
}

abbrev pub read : Interval
read = record {
  access_type = rma_read;
  low_bound = 20;
  up_bound = 27;
  notification_id = negsuc 0;
  line = pos 9;
  filename = [];
}

-- One interval was saved, and none received.
abbrev pub window : WinState
window = record {
  state_win = 7;
  win_base = 100;
  win_size = 50;
  win_comm = 1;
  local_tree = node written null null 1 1;
  notif_tree = null;
  size_comm = 2;
  mpi_tag = pos 65535;
  array = 0 ∷ 0 ∷ [];
  value = 0;
  thread_end = 0;
  count_epoch = 1;
  count_fence = 0;
  count = 0;
  active_epoch = 1;
  from_sync = 0;
  running = true;
}

-- At the end of the epoch, with one interval to receive.
abbrev pub ending : WinState
ending = record window { value = 1; thread_end = 1 }

abbrev pub with_window : WinState → World list_table
with_window x = record {
  state_htbl = x ∷ [];
  win_mpi_tag_id = 1 ∷ 0 ∷ [];
  language_program = no_language;
  filter_window = true;
  sent = [];
}

pub found_window : list_table.find (with_window window).state_htbl 7 ≡ some window
unfolding find_state
found_window = refl

pub found_ending : list_table.find (with_window ending).state_htbl 7 ≡ some ending
unfolding find_state
found_ending = refl

pub window-IsSound : IsSound window
window-IsSound = record { ordered = (tt, tt, tt, tt); notified = tt; counters = refl }

only_state :
    (b : Bool) (y x : WinState) → IsSound y → (if b then some y else none) ≡ some x → IsSound x
only_state true y x v e = subst IsSound (some-injective y x e) v
only_state false y x v e = cc

pub window-Everywhere : Everywhere IsSound (with_window window)
unfolding find_state
window-Everywhere win x e = only_state (7 == win) window x window-IsSound e

-- The window after the end of its epoch, of which a synchronization had ended a part.
abbrev pub idle : WinState
idle = record window { active_epoch = 0; running = false; from_sync = 1 }

pub found_idle : list_table.find (with_window idle).state_htbl 7 ≡ some idle
unfolding find_state
found_idle = refl

idle-IsSound : IsSound idle
idle-IsSound = record { ordered = (tt, tt, tt, tt); notified = tt; counters = refl }

pub idle-Everywhere : Everywhere IsSound (with_window idle)
unfolding find_state
idle-Everywhere win x e = only_state (7 == win) idle x idle-IsSound e

-- The window after a fence.
abbrev pub fenced_window : WinState
fenced_window = record window { count_fence = 1 }

pub found_fenced_window :
    list_table.find (with_window fenced_window).state_htbl 7 ≡ some fenced_window
unfolding find_state
found_fenced_window = refl

fenced_window-IsSound : IsSound fenced_window
fenced_window-IsSound = record { ordered = (tt, tt, tt, tt); notified = tt; counters = refl }

pub fenced_window-Everywhere : Everywhere IsSound (with_window fenced_window)
unfolding find_state
fenced_window-Everywhere win x e = only_state (7 == win) fenced_window x fenced_window-IsSound e
