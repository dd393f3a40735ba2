-- ===== src/Instrument/Execution.antt =====
-- What the reports of an instrumented program do in the analyzer, by the routines LOAD and STORE of
-- src/static/lib/rma_analyzer_load_store_overload.c.
use Prim.Native.String.{String}
use Prim.Native.Char.{code}
use text.Mathlib.Text.{◌==◌ as str_eq}
use parcoach_rma.Common.{
  ℕ, ◌+◌, ◌-◌, ◌/◌, ◌%◌, ◌^◌, ◌<◌, ◌≤◌, ◌≡◌, refl, sym, ◌∙◌, ap, arith, Option, some, Bool, false,
  ℤ, List, [], ◌∷◌, pos, if◌then◌else◌,
}
use parcoach_rma.Interval.{
  AccessType, Interval, local_read, local_write, create_interval, if_intersects,
}
use parcoach_rma.Analyzer.Broadcast.{accessed}
use parcoach_rma.Analyzer.State.{StateTable, M}
use parcoach_rma.Analyzer.Monad.{◌>>◌, pure}
use parcoach_rma.Analyzer.Save.{rma_analyzer_save_interval_all_wins}
use parcoach_rma.Overload
use parcoach_rma.Instrument.{
  bit_cast, call, store, load, other, Located, Emitted, kept, handler, replaced, State, line_of,
  file_of, instrument_mem_accesses,
}
use parcoach_rma.Instrument.Accesses.{memory_part, reports, memory_part-instrument_mem_accesses}

abbrev pub codes : String → List ℕ
codes String.[] = []
codes (String.◌∷◌ c s) = code c ∷ codes s

module _ {table : StateTable} (notified : Bool) where
  -- The calls of STORE and LOAD among the instructions.
  unfoldable pub run_reports : List Emitted → M table (Unit {0})
  run_reports [] = pure tt
  run_reports (handler n a s l f ∷ es) =
      (if str_eq n "STORE"
        then Overload.store notified a s (pos l) (some (codes f))
        else Overload.load notified a s (pos l) (some (codes f)))
      >> run_reports es
  run_reports (kept i ∷ es) = run_reports es
  run_reports (replaced n args f l ∷ es) = run_reports es

  -- Each access of the program, of `size / 8` bytes, is saved in all windows.
  unfoldable pub save_accesses : List Located → M table (Unit {0})
  save_accesses [] = pure tt
  save_accesses ((store a s, dbg) ∷ is) =
      rma_analyzer_save_interval_all_wins notified a (s / 8 - 1) local_write (pos (line_of dbg))
        (some (codes (file_of dbg)))
      >> save_accesses is
  save_accesses ((load a s, dbg) ∷ is) =
      rma_analyzer_save_interval_all_wins notified a (s / 8 - 1) local_read (pos (line_of dbg))
        (some (codes (file_of dbg)))
      >> save_accesses is
  save_accesses ((bit_cast v, dbg) ∷ is) = save_accesses is
  save_accesses ((call f args, dbg) ∷ is) = save_accesses is
  save_accesses ((other, dbg) ∷ is) = save_accesses is

  run_reports-memory_part : (es : List Emitted) → run_reports (memory_part es) ≡ run_reports es
  unfolding run_reports memory_part
  run_reports-memory_part [] = refl
  run_reports-memory_part (handler n a s l f ∷ es) =
      ap
        (λ k.
          (if str_eq n "STORE"
            then Overload.store notified a s (pos l) (some (codes f))
            else Overload.load notified a s (pos l) (some (codes f)))
          >> k)
        (run_reports-memory_part es)
  run_reports-memory_part (kept (store a s) ∷ es) = run_reports-memory_part es
  run_reports-memory_part (kept (load a s) ∷ es) = run_reports-memory_part es
  run_reports-memory_part (kept (bit_cast v) ∷ es) = run_reports-memory_part es
  run_reports-memory_part (kept (call f args) ∷ es) = run_reports-memory_part es
  run_reports-memory_part (kept other ∷ es) = run_reports-memory_part es
  run_reports-memory_part (replaced n args f l ∷ es) = run_reports-memory_part es

-- The accesses are of one byte at least, with sizes of 64 bits.
abbrev pub AllSized : List Located → Type 0
AllSized [] = Unit
AllSized ((store a s, dbg) ∷ is) = (8 ≤ s) × (s < 2 ^ 64) × AllSized is
AllSized ((load a s, dbg) ∷ is) = (8 ≤ s) × (s < 2 ^ 64) × AllSized is
AllSized ((bit_cast v, dbg) ∷ is) = AllSized is
AllSized ((call f args, dbg) ∷ is) = AllSized is
AllSized ((other, dbg) ∷ is) = AllSized is

bytes_less_one : (s : ℕ) → 8 ≤ s → s < 2 ^ 64 → (s / 8 + 2 ^ 64 - 1) % 2 ^ 64 ≡ s / 8 - 1
bytes_less_one s l u = omega arith

module _ {table : StateTable} (notified : Bool) where
  run_reports-reports :
      (is : List Located)
      → AllSized is
      → run_reports {table = table} notified (reports is) ≡ save_accesses notified is
  unfolding run_reports reports save_accesses Overload.store Overload.load
  run_reports-reports [] a = refl
  run_reports-reports ((store a s, dbg) ∷ is) (l, u, z) =
      ap
        (λ n.
          rma_analyzer_save_interval_all_wins {table = table} notified a n local_write
            (pos (line_of dbg)) (some (codes (file_of dbg)))
          >> run_reports notified (reports is))
        (bytes_less_one s l u)
      ∙ ap
          (λ k.
            rma_analyzer_save_interval_all_wins {table = table} notified a (s / 8 - 1) local_write
              (pos (line_of dbg)) (some (codes (file_of dbg)))
            >> k)
          (run_reports-reports is z)
  run_reports-reports ((load a s, dbg) ∷ is) (l, u, z) =
      ap
        (λ n.
          rma_analyzer_save_interval_all_wins {table = table} notified a n local_read
            (pos (line_of dbg)) (some (codes (file_of dbg)))
          >> run_reports notified (reports is))
        (bytes_less_one s l u)
      ∙ ap
          (λ k.
            rma_analyzer_save_interval_all_wins {table = table} notified a (s / 8 - 1) local_read
              (pos (line_of dbg)) (some (codes (file_of dbg)))
            >> k)
          (run_reports-reports is z)
  run_reports-reports ((bit_cast v, dbg) ∷ is) z = run_reports-reports is z
  run_reports-reports ((call f args, dbg) ∷ is) z = run_reports-reports is z
  run_reports-reports ((other, dbg) ∷ is) z = run_reports-reports is z

  -- The reports of an instrumented program save each of its loads and stores, of one byte or more,
  -- in all windows: the bytes from its address on, as a read or a write, in the order of the program.
  pub run_reports-instrument_mem_accesses :
      (is : List Located) (s : State)
      → AllSized is
      → run_reports {table = table} notified (instrument_mem_accesses is s).0
        ≡ save_accesses notified is
  run_reports-instrument_mem_accesses is s a =
      sym (run_reports-memory_part notified (instrument_mem_accesses is s).0)
      ∙ ap (run_reports notified) (memory_part-instrument_mem_accesses is s)
      ∙ run_reports-reports is a

ends_before :
    (address size : ℕ)
    → size < 8
    → 0 < address
    → address < 2 ^ 64
    → (address + (size / 8 + 2 ^ 64 - 1) % 2 ^ 64) % 2 ^ 64 ≡ address - 1
ends_before address size s p u = omega arith

-- What LOAD and STORE save for an access narrower than a byte ends before it begins: it conflicts
-- with no interval that begins at its address or behind it.
pub if_intersects_narrow :
    (j : Interval) (address size : ℕ) (access : AccessType) (line : ℤ) (name : Option (List ℕ))
    → size < 8
    → 0 < address
    → address < 2 ^ 64
    → address ≤ j.low_bound
    → if_intersects j (accessed address ((size / 8 + 2 ^ 64 - 1) % 2 ^ 64) access line name) ≡ false
unfolding if_intersects create_interval
if_intersects_narrow j address size access line name s p u l =
    ground (arith, ends_before address size s p u)
