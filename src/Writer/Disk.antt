-- ===== src/Writer/Disk.antt =====
-- What a writer of src/fls/block_writer.rs promises: bytes put at a position that moves on, with no
-- buffer, and zeros up to the alignment where direct I/O leaves a run of data.
use fls.Base.{
  ℕ, ◌+◌, ◌-◌, ◌%◌, ◌<◌, ◌≤◌, ◌≡◌, Bool, true, false, List, [], ◌∷◌, length, get_or, Bytes, u64_mod,
}
use fls.Writer.{
  File, Outcome, done, failed, out_of_fuel, overlay, BlockWriter, block_size, alignment,
  sync_interval, aligned_size, repeated, WriterCommand, write_data, seek_to, fill_with,
}

-- `direct` is whether it pads.
pub record Disk : Type 0 where
  pub bytes : ℕ → ℕ
  pub at : ℕ
  pub direct : Bool

abbrev pub put : Disk → Bytes → Disk
put d input = record d {
  bytes = overlay d.bytes d.at (length input) (λ i. get_or input i 0);
  at = d.at + length input;
}

abbrev pub pad : Bool → Disk → Disk
pad true d = record d {
  bytes = overlay d.bytes d.at (aligned_size d.at - d.at) (λ _. 0);
  at = aligned_size d.at;
}
pad false d = d

abbrev pub carry_out : Disk → WriterCommand → Disk
carry_out d (write_data input) = put d input
carry_out d (seek_to offset) = record (pad d.direct d) { at = offset }
carry_out d (fill_with pattern n) = put d (repeated pattern n)

abbrev pub carry_out_all : Disk → List WriterCommand → Disk
carry_out_all d [] = d
carry_out_all d (c ∷ cs) = carry_out_all (carry_out d c) cs

-- A fault is to come.
abbrev pub IsFaulty : List Bool → Type 0
IsFaulty [] = ⊥
IsFaulty (true ∷ r) = Unit
IsFaulty (false ∷ r) = IsFaulty r

-- `Fault` holds where an operation may fail.
module _ (Fault : Type 0) where
  -- The result is a value that meets `P`, or a failure that is excused: the fuel is enough.
  abbrev pub Yields {ℓ} : {A : Type ℓ} → (A → Type 0) → Outcome A → Type 0
  Yields P (done a) = P a
  Yields P failed = Fault
  Yields P out_of_fuel = ⊥

  -- The file and the buffer hold what the disk does. The buffer may be full.
  pub record Holds (w : BlockWriter) (d : Disk) : Type 0 where
    pub mode : w.use_direct_io ≡ d.direct
    pub pos_le : w.buffer_pos ≤ block_size
    pub at_is : w.file.at + w.buffer_pos ≡ d.at
    pub written : w.bytes_written ≡ d.at % u64_mod
    pub same : (i : ℕ) → overlay w.file.bytes w.file.at w.buffer_pos w.buffer i ≡ d.bytes i
    pub aligned : w.use_direct_io ≡ true → w.file.at % alignment ≡ 0
    pub synced : w.use_direct_io ≡ false → w.bytes_since_sync < sync_interval
    pub faults_are : IsFaulty w.file.faults → Fault

  -- between operations
  pub record Tracks (w : BlockWriter) (d : Disk) : Type 0 where
    pub holds : Holds w d
    pub pos_lt : w.buffer_pos < block_size

  -- After a flush all is in the file, which stands at the end of the padding.
  pub record Flushed (old w : BlockWriter) (d : Disk) : Type 0 where
    pub written : w.bytes_written ≡ old.bytes_written
    pub mode : w.use_direct_io ≡ old.use_direct_io
    pub empty : w.buffer_pos ≡ 0
    pub at_is : w.file.at ≡ d.at
    pub same : (i : ℕ) → w.file.bytes i ≡ d.bytes i
    pub aligned : w.use_direct_io ≡ true → w.file.at % alignment ≡ 0
    pub synced : w.use_direct_io ≡ false → w.bytes_since_sync < sync_interval
    pub faults_are : IsFaulty w.file.faults → Fault

  pub Yields-bind :
      {A B : Type 0} (P : A → Type 0) (Q : B → Type 0) (m : Outcome A) (f : A → Outcome B)
      → Yields P m
      → ((a : A) → P a → Yields Q (f a))
      → Yields Q (fls.Writer.◌>>=◌ m f)
  Yields-bind P Q (done a) f h k = k a h
  Yields-bind P Q failed f h k = h
  Yields-bind P Q out_of_fuel f h k = h
