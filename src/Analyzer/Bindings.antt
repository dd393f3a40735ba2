-- ===== src/Analyzer/Bindings.antt =====
-- The wrapper routines of src/core/rma_analyzer.c that call MPI for programs in C and in Fortran.
use parcoach_rma.Common.{ℕ, ◌≡◌, ◌∙◌, ap, Bool, true, false, ℤ, if◌then◌else◌}
use parcoach_rma.Analyzer.State.{Lang, no_language, c, fort}

-- The routines of MPI, on the memory and whatever else they change. Arguments are handles,
-- addresses and numbers; each returns its code.
pub record Mpi : Type 1 where
  pub Memory : Type 0
  -- The `int` at an address.
  pub read : Memory → ℕ → ℕ
  pub comm_f2c : ℕ → ℕ
  pub comm_c2f : ℕ → ℕ
  pub comm_f2c-comm_c2f : (comm : ℕ) → comm_f2c (comm_c2f comm) ≡ comm
  pub comm_size : (comm size : ℕ) → Memory → ℕ × Memory
  pub comm_rank : (comm rank : ℕ) → Memory → ℕ × Memory
  pub cancel : (request : ℕ) → Memory → ℕ × Memory
  pub test : (request flag status : ℕ) → Memory → ℕ × Memory
  pub send : (buf count datatype dest : ℕ) (tag : ℤ) (comm : ℕ) → Memory → ℕ × Memory
  pub irecv : (buf count datatype : ℕ) (source tag : ℤ) (comm request : ℕ) → Memory → ℕ × Memory
  pub reduce : (sendbuf recvbuf count datatype op root comm : ℕ) → Memory → ℕ × Memory
  pub type_contiguous : (count oldtype newtype : ℕ) → Memory → ℕ × Memory
  pub type_commit : (datatype : ℕ) → Memory → ℕ × Memory
  pub type_free : (datatype : ℕ) → Memory → ℕ × Memory

unfoldable pub is_c : Lang → Bool
is_c c = true
is_c fort = false
is_c no_language = false

-- A communicator of a program in Fortran is the address of its handle.
module _ (mpi : Mpi) (language_program : Lang) where
  unfoldable pub fc_mpi_comm_size : ℕ → ℕ → mpi.Memory → ℕ × mpi.Memory
  fc_mpi_comm_size comm size m =
      if is_c language_program
      then mpi.comm_size comm size m
      else let c_comm = mpi.comm_f2c (mpi.read m comm) in mpi.comm_size c_comm size m

  unfoldable pub fc_mpi_comm_rank : ℕ → ℕ → mpi.Memory → ℕ × mpi.Memory
  fc_mpi_comm_rank comm rank m =
      if is_c language_program
      then mpi.comm_rank comm rank m
      else let c_comm = mpi.comm_f2c (mpi.read m comm) in mpi.comm_rank c_comm rank m

  unfoldable pub fc_mpi_cancel : ℕ → mpi.Memory → ℕ × mpi.Memory
  fc_mpi_cancel request m = mpi.cancel request m

  unfoldable pub fc_mpi_test : ℕ → ℕ → ℕ → mpi.Memory → ℕ × mpi.Memory
  fc_mpi_test request flag status m = mpi.test request flag status m

  unfoldable pub fc_mpi_send : ℕ → ℕ → ℕ → ℕ → ℤ → ℕ → mpi.Memory → ℕ × mpi.Memory
  fc_mpi_send buf count datatype dest tag comm m =
      if is_c language_program
      then mpi.send buf count datatype dest tag comm m
      else let c_comm = mpi.comm_f2c (mpi.read m comm) in
        mpi.send buf count datatype dest tag c_comm m

  unfoldable pub fc_mpi_irecv : ℕ → ℕ → ℕ → ℤ → ℤ → ℕ → ℕ → mpi.Memory → ℕ × mpi.Memory
  fc_mpi_irecv buf count datatype source tag comm request m =
      if is_c language_program
      then mpi.irecv buf count datatype source tag comm request m
      else let c_comm = mpi.comm_f2c (mpi.read m comm) in
        mpi.irecv buf count datatype source tag c_comm request m

  unfoldable pub fc_mpi_reduce : ℕ → ℕ → ℕ → ℕ → ℕ → ℕ → ℕ → mpi.Memory → ℕ × mpi.Memory
  fc_mpi_reduce sendbuf recvbuf count datatype op root comm m =
      if is_c language_program
      then mpi.reduce sendbuf recvbuf count datatype op root comm m
      else let c_comm = mpi.comm_f2c (mpi.read m comm) in
        mpi.reduce sendbuf recvbuf count datatype op root c_comm m

  unfoldable pub fc_mpi_type_contiguous : ℕ → ℕ → ℕ → mpi.Memory → ℕ × mpi.Memory
  fc_mpi_type_contiguous count oldtype newtype m = mpi.type_contiguous count oldtype newtype m

  unfoldable pub fc_mpi_type_commit : ℕ → mpi.Memory → ℕ × mpi.Memory
  fc_mpi_type_commit datatype m = mpi.type_commit datatype m

  unfoldable pub fc_mpi_type_free : ℕ → mpi.Memory → ℕ × mpi.Memory
  fc_mpi_type_free datatype m = mpi.type_free datatype m

-- What the program hands over for a communicator: the handle itself, or the address of a handle of
-- Fortran.
abbrev pub StandsFor : (mpi : Mpi) → Lang → mpi.Memory → ℕ → ℕ → Type 0
StandsFor mpi c m comm k = comm ≡ k
StandsFor mpi fort m comm k = mpi.read m comm ≡ mpi.comm_c2f k
StandsFor mpi no_language m comm k = ⊥

-- Where the program, in C or in Fortran, hands over something that stands for a communicator, the
-- wrappers call MPI on that communicator.
pub same_communicator :
    (mpi : Mpi) (language_program : Lang) (m : mpi.Memory) (comm k : ℕ)
    → StandsFor mpi language_program m comm k
    → ((size : ℕ) → fc_mpi_comm_size mpi language_program comm size m ≡ mpi.comm_size k size m)
      × ((rank : ℕ) → fc_mpi_comm_rank mpi language_program comm rank m ≡ mpi.comm_rank k rank m)
      × ((buf count datatype dest : ℕ) (tag : ℤ)
          → fc_mpi_send mpi language_program buf count datatype dest tag comm m
            ≡ mpi.send buf count datatype dest tag k m)
      × ((buf count datatype : ℕ) (source tag : ℤ) (request : ℕ)
          → fc_mpi_irecv mpi language_program buf count datatype source tag comm request m
            ≡ mpi.irecv buf count datatype source tag k request m)
      × ((sendbuf recvbuf count datatype op root : ℕ)
          → fc_mpi_reduce mpi language_program sendbuf recvbuf count datatype op root comm m
            ≡ mpi.reduce sendbuf recvbuf count datatype op root k m)
unfolding is_c fc_mpi_comm_size fc_mpi_comm_rank fc_mpi_send fc_mpi_irecv fc_mpi_reduce
same_communicator mpi c m comm k e = (
  λ size. ap (λ v. mpi.comm_size v size m) e,
  λ rank. ap (λ v. mpi.comm_rank v rank m) e,
  λ buf count datatype dest tag. ap (λ v. mpi.send buf count datatype dest tag v m) e,
  λ buf count datatype source tag request.
      ap (λ v. mpi.irecv buf count datatype source tag v request m) e,
  λ sendbuf recvbuf count datatype op root.
      ap (λ v. mpi.reduce sendbuf recvbuf count datatype op root v m) e,
)
same_communicator mpi fort m comm k e =
    let q = ap mpi.comm_f2c e ∙ mpi.comm_f2c-comm_c2f k in
    (
      λ size. ap (λ v. mpi.comm_size v size m) q,
      λ rank. ap (λ v. mpi.comm_rank v rank m) q,
      λ buf count datatype dest tag. ap (λ v. mpi.send buf count datatype dest tag v m) q,
      λ buf count datatype source tag request.
          ap (λ v. mpi.irecv buf count datatype source tag v request m) q,
      λ sendbuf recvbuf count datatype op root.
          ap (λ v. mpi.reduce sendbuf recvbuf count datatype op root v m) q,
    )
same_communicator mpi no_language m comm k e = absurd e
