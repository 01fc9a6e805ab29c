-- ===== src/Io/File.antt =====
-- include/swiftlink/io/file.hpp and src/io/file.cpp: a file with a descriptor that may be absent. The
-- system calls are the interface `Posix`, where an offset is an off_t, of 64 bits and signed.
pub mod Reads
pub mod Writes
use swiftlink.Common.{
  ℕ, zero, suc, ◌+◌, ◌-◌, ◌%◌, ◌^◌, Bool, true, false, Option, none, some, List, [], ◌∷◌, ◌++◌,
  length, drop, ltb, if◌then◌else◌,
}
use swiftlink.Common.Signed.{ℤ, signed64}

-- What pread(2) gives: the bytes read, or -1 with errno EINTR, or -1 with another.
pub data ReadResult : Type 0 where
  read : List ℕ → ReadResult
  read_interrupted read_failed : ReadResult

-- Likewise pwrite(2): the number of bytes written.
pub data WriteResult : Type 0 where
  written : ℕ → WriteResult
  write_interrupted write_failed : WriteResult

pub record Posix : Type 1 where
  pub Kernel : Type 0
  pub Descriptor : Type 0
  -- O_RDONLY, and O_RDWR | O_CREAT | O_TRUNC
  pub open_rdonly : List ℕ → Kernel → Option Descriptor × Kernel
  pub open_truncated : List ℕ → Kernel → Option Descriptor × Kernel
  pub close_fd : Descriptor → Kernel → Kernel
  pub pread : Descriptor → ℕ → ℤ → Kernel → ReadResult × Kernel
  pub pwrite : Descriptor → List ℕ → ℤ → Kernel → WriteResult × Kernel
  pub fsync : Descriptor → Kernel → Bool × Kernel
  pub file_size : Descriptor → Kernel → Option ℕ

-- The value of a loop: what it returns, its -1, or that the rounds ran out.
pub data Finished (A : Type 0) : Type 0 where
  value : A → Finished A
  failed unfinished : Finished A

module _ (px : Posix) where
  -- the descriptor is left closed
  unfoldable pub close : Option px.Descriptor → px.Kernel → Option px.Descriptor × px.Kernel
  close none k = (none, k)
  close (some fd) k = (none, px.close_fd fd k)

  unfoldable pub open_read :
      Option px.Descriptor → List ℕ → px.Kernel → Option px.Descriptor × px.Kernel
  unfolding close
  open_read file path k = px.open_rdonly path (close file k).1

  unfoldable pub open_write :
      Option px.Descriptor → List ℕ → px.Kernel → Option px.Descriptor × px.Kernel
  unfolding close
  open_write file path k = px.open_truncated path (close file k).1

  unfoldable pub size : Option px.Descriptor → px.Kernel → Option ℕ
  size none k = none
  size (some fd) k = px.file_size fd k

  -- The loop of `read_at`, with the bytes read so far.
  unfoldable pub read_loop :
      ℕ → px.Descriptor → ℕ → ℕ → List ℕ → px.Kernel → Finished (List ℕ) × px.Kernel
  read_loop zero fd want offset out k = (unfinished, k)
  read_loop (suc fuel) fd want offset out k =
      let call = px.pread fd (want - length out) (signed64 ((offset + length out) % 2 ^ 64)) k in
      if ltb (length out) want
      then (elim call.0 [
        | read_interrupted ↦ read_loop fuel fd want offset out call.1
        | read_failed ↦ (failed, call.1)
        | read [] ↦ (value out, call.1)
        | read (b ∷ bs) ↦ read_loop fuel fd want offset (out ++ (b ∷ bs)) call.1
      ])
      else (value out, k)

  unfoldable pub read_at :
      ℕ → Option px.Descriptor → ℕ → ℕ → px.Kernel → Finished (List ℕ) × px.Kernel
  read_at fuel none want offset k = (failed, k)
  read_at fuel (some fd) want offset k = read_loop fuel fd want offset [] k

  -- The loop of `write_at`, with the number of bytes written so far.
  unfoldable pub write_loop :
      ℕ → px.Descriptor → List ℕ → ℕ → ℕ → px.Kernel → Finished ℕ × px.Kernel
  write_loop zero fd bytes offset done k = (unfinished, k)
  write_loop (suc fuel) fd bytes offset done k =
      let call = px.pwrite fd (drop done bytes) (signed64 ((offset + done) % 2 ^ 64)) k in
      if ltb done (length bytes)
      then (elim call.0 [
        | write_interrupted ↦ write_loop fuel fd bytes offset done call.1
        | write_failed ↦ (failed, call.1)
        | written zero ↦ (failed, call.1)
        | written (suc n) ↦ write_loop fuel fd bytes offset (done + suc n) call.1
      ])
      else (value done, k)

  unfoldable pub write_at :
      ℕ → Option px.Descriptor → List ℕ → ℕ → px.Kernel → Finished ℕ × px.Kernel
  write_at fuel none bytes offset k = (failed, k)
  write_at fuel (some fd) bytes offset k = write_loop fuel fd bytes offset 0 k

  unfoldable pub sync : Option px.Descriptor → px.Kernel → Bool × px.Kernel
  sync none k = (false, k)
  sync (some fd) k = px.fsync fd k
