-- ===== src/Examples/Fortran.antt =====
-- The properties of the bindings of MPI and of the overloads for Fortran, applied.
use parcoach_rma.Common.{
  ℕ, ◌+◌, ◌-◌, ◌≡◌, refl, arith, Option, none, some, ℤ, pos, true, ◌==◌, if◌then◌else◌,
}
use parcoach_rma.Analyzer.State.{fort, null_dereference, Outcome, ok, fault}
use parcoach_rma.Analyzer.Bindings.{
  Mpi, fc_mpi_comm_size, fc_mpi_comm_rank, fc_mpi_send, fc_mpi_irecv, fc_mpi_reduce,
  same_communicator,
}
use parcoach_rma.Overload.Fortran.{
  Ref, new_put_, new_put_notify_, new_get_, new_accumulate_, new_get_notify_,
}
use parcoach_rma.Overload.Fortran.Arguments.{Sends, target_arguments}
use parcoach_rma.Examples.Table.{list_table}
use parcoach_rma.Examples.State.{window, with_window, found_window}

-- A library of which the routines leave the memory alone and return the last handle.
abbrev test_mpi : Mpi
test_mpi = record {
  Memory = ℕ → ℕ;
  read = λ m a. m a;
  comm_f2c = λ n. n - 1;
  comm_c2f = λ n. n + 1;
  comm_f2c-comm_c2f = λ n. omega arith;
  comm_size = λ comm size m. (comm, m);
  comm_rank = λ comm rank m. (comm, m);
  cancel = λ request m. (request, m);
  test = λ request flag status m. (request, m);
  send = λ buf count datatype dest tag comm m. (comm, m);
  irecv = λ buf count datatype source tag comm request m. (comm, m);
  reduce = λ sendbuf recvbuf count datatype op root comm m. (comm, m);
  type_contiguous = λ count oldtype newtype m. (count, m);
  type_commit = λ datatype m. (datatype, m);
  type_free = λ datatype m. (datatype, m);
}

-- The handle 6 of Fortran at the address 40.
abbrev test_memory : ℕ → ℕ
test_memory a = if a == 40 then 6 else 0

same_communicator_example :
    ((size : ℕ) → fc_mpi_comm_size test_mpi fort 40 size test_memory ≡ (5, test_memory))
    × ((rank : ℕ) → fc_mpi_comm_rank test_mpi fort 40 rank test_memory ≡ (5, test_memory))
    × ((buf count datatype dest : ℕ) (tag : ℤ)
        → fc_mpi_send test_mpi fort buf count datatype dest tag 40 test_memory ≡ (5, test_memory))
    × ((buf count datatype : ℕ) (source tag : ℤ) (request : ℕ)
        → fc_mpi_irecv test_mpi fort buf count datatype source tag 40 request test_memory
          ≡ (5, test_memory))
    × ((sendbuf recvbuf count datatype op root : ℕ)
        → fc_mpi_reduce test_mpi fort sendbuf recvbuf count datatype op root 40 test_memory
          ≡ (5, test_memory))
same_communicator_example = same_communicator test_mpi fort test_memory 40 5 refl

-- Variables at addresses from 1000 on.
abbrev at : ℕ → ℕ → Ref ℕ
at a v = record { address = a; content = v }

abbrev id_at : ℕ → ℤ → Ref ℤ
id_at a v = record { address = a; content = v }

target_arguments_example :
    Sends {table = list_table} true
      (λ h. h)
      0
      500
      (at 1000 2)
      4
      (at 1008 1)
      (at 1016 16)
      (at 1024 2)
      4
      (at 1032 7)
      (id_at 1040 (pos 3))
      window
      (with_window window)
      0
      16
      2
      (new_put_ true
        (λ h. h)
        0
        500
        (at 1000 2)
        4
        (at 1008 1)
        (at 1016 16)
        (at 1024 2)
        4
        (at 1032 7))
    × Sends {table = list_table} true
        (λ h. h)
        0
        500
        (at 1000 2)
        4
        (at 1008 1)
        (at 1016 16)
        (at 1024 2)
        4
        (at 1032 7)
        (id_at 1040 (pos 3))
        window
        (with_window window)
        0
        16
        2
        (new_put_notify_ true
          (λ h. h)
          0
          true
          500
          (at 1000 2)
          4
          (at 1008 1)
          (at 1016 16)
          (at 1024 2)
          4
          (at 1032 7)
          (id_at 1040 (pos 3)))
    × Sends {table = list_table} true
        (λ h. h)
        0
        500
        (at 1000 2)
        4
        (at 1008 1)
        (at 1016 16)
        (at 1024 2)
        4
        (at 1032 7)
        (id_at 1040 (pos 3))
        window
        (with_window window)
        0
        1016
        1024
        (new_get_ true
          (λ h. h)
          0
          500
          (at 1000 2)
          4
          (at 1008 1)
          (at 1016 16)
          (at 1024 2)
          4
          (at 1032 7))
    × Sends {table = list_table} true
        (λ h. h)
        0
        500
        (at 1000 2)
        4
        (at 1008 1)
        (at 1016 16)
        (at 1024 2)
        4
        (at 1032 7)
        (id_at 1040 (pos 3))
        window
        (with_window window)
        0
        1016
        1024
        (new_accumulate_ true
          (λ h. h)
          0
          500
          (at 1000 2)
          4
          (at 1008 1)
          (at 1016 16)
          (at 1024 2)
          4
          (at 1032 7))
    × Sends {table = list_table} true
        (λ h. h)
        0
        500
        (at 1000 2)
        4
        (at 1008 1)
        (at 1016 16)
        (at 1024 2)
        4
        (at 1032 7)
        (id_at 1040 (pos 3))
        window
        (with_window window)
        0
        1016
        1024
        (new_get_notify_ true
          (λ h. h)
          0
          true
          500
          (at 1000 2)
          4
          (at 1008 1)
          (at 1016 16)
          (at 1024 2)
          4
          (at 1032 7)
          (id_at 1040 (pos 3)))
target_arguments_example =
    target_arguments true (λ h. h) 0 500 (at 1000 2) 4 (at 1008 1) (at 1016 16) (at 1024 2) 4
      (at 1032 7) (id_at 1040 (pos 3)) window (with_window window) 0 found_window refl

-- MPI reads the assertion.
abbrev reading_fence : Option (Ref ℤ) → Outcome ℕ
reading_fence none = fault null_dereference
reading_fence (some assert) = ok 0
