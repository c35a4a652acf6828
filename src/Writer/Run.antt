-- ===== src/Writer/Run.antt =====
-- The commands of a writer's task, in src/fls/block_writer.rs, against the disk.
use mathlib.Core.Path.{subst}
use fls.Base.{
  ℕ, ◌%◌, ◌<◌, ◌≡◌, refl, ap, ◌∙◌, sym, arith, List, [], ◌∷◌, Bool, true, false, not, ◌&&◌, ◌==◌,
  u64_mod,
}
use fls.Writer.{
  overlay, File, BlockWriter, WriterCommand, write_data, seek_to, fill_with, new, attempt, seek,
  flush, flush_buffer, seek_file, execute, execute_all, run, alignment,
}
use fls.Writer.Disk.{
  Disk, pad, carry_out, carry_out_all, IsFaulty, Yields, Yields-bind, Tracks, Flushed,
}
use fls.Writer.Flush.{Attempted, attempt-Attempted, flush_buffer-Flushed}
use fls.Writer.Copy.{Yields-map, write-Tracks}
use fls.Writer.Fill.{write_fill_pattern-Tracks}

-- A seek goes to an offset that is a u64, and that direct I/O allows.
abbrev pub CanSeek : Bool → WriterCommand → Type 0
CanSeek direct (seek_to offset) = (offset < u64_mod) × (direct ≡ true → offset % alignment ≡ 0)
CanSeek direct _ = Unit

abbrev pub CanSeekAll : Bool → List WriterCommand → Type 0
CanSeekAll direct [] = Unit
CanSeekAll direct (c ∷ cs) = CanSeek direct c × CanSeekAll direct cs

seek_allowed :
    (direct : Bool) (offset : ℕ)
    → (direct ≡ true → offset % alignment ≡ 0)
    → (direct && not (offset % alignment == 0)) ≡ false
seek_allowed true offset h = ground (arith, h refl)
seek_allowed false offset h = refl

abbrev padded : Disk → Disk
padded d = pad d.direct d

carry_out_direct : (d : Disk) (c : WriterCommand) → (carry_out d c).direct ≡ d.direct
carry_out_direct d (write_data input) = refl
carry_out_direct d (seek_to offset) = pad_direct d.direct d
  where
    pad_direct : (b : Bool) (d : Disk) → (pad b d).direct ≡ d.direct
    pad_direct true d = refl
    pad_direct false d = refl
carry_out_direct d (fill_with p n) = refl

-- What the task leaves and returns.
pub record IsWritten (d : Disk) (r : BlockWriter × ℕ) : Type 0 where
  pub same : (i : ℕ) → r.0.file.bytes i ≡ (padded d).bytes i
  pub returned : r.1 ≡ d.at % u64_mod

module _ (Fault : Type 0) where
  flush_buffer-padded :
      (w : BlockWriter) (d : Disk)
      → Tracks Fault w d
      → Yields Fault (λ v. Flushed Fault w v (padded d)) (flush_buffer w)
  flush_buffer-padded w d t =
      Yields-map Fault _ _ (flush_buffer w)
        (λ v f. subst (λ b. Flushed Fault w v (pad b d)) t.holds.mode f)
        (flush_buffer-Flushed Fault w d t.holds)

  seek-Tracks :
      (w : BlockWriter) (d : Disk) (offset : ℕ)
      → offset < u64_mod
      → (d.direct ≡ true → offset % alignment ≡ 0)
      → Tracks Fault w d
      → Yields Fault (λ v. Tracks Fault v (record (padded d) { at = offset })) (seek w offset)
  unfolding seek
  seek-Tracks w d offset small aligned t =
      rw (seek_allowed w.use_direct_io offset (λ e. aligned (sym t.holds.mode ∙ e))) (
        Yields-bind Fault _ _ (flush_buffer w) _ (flush_buffer-padded w d t) (λ v f.
          Yields-bind Fault
            (λ g. (g.bytes ≡ v.file.bytes) × (g.at ≡ offset) × (IsFaulty g.faults → Fault)) _
            (seek_file v.file offset) _
            (Yields-bind Fault (Attempted Fault v.file) _ (attempt v.file) _
              (attempt-Attempted Fault v.file f.faults_are)
              (λ g a. (a.bytes_are, refl, a.faults_are)))
            (λ g (bytes, at, faults). record {
              holds = record {
                mode = f.mode ∙ t.holds.mode ∙ sym (carry_out_direct d (seek_to offset));
                pos_le = omega (arith, f.empty);
                at_is = omega (arith, f.empty, at);
                written = omega (arith, small);
                same = λ i.
                    elim_empty g.bytes v.buffer g.at v.buffer_pos i f.empty
                    ∙ ap (λ h. h i) bytes
                    ∙ f.same i;
                aligned = λ e. rw at (aligned (sym t.holds.mode ∙ sym f.mode ∙ e));
                synced = f.synced;
                faults_are = faults;
              };
              pos_lt = omega (arith, f.empty);
            })))
    where
      elim_empty : (under over : ℕ → ℕ) (at n i : ℕ) → n ≡ 0 → overlay under at n over i ≡ under i
      elim_empty under over at n i e = ground arith

  execute-Tracks :
      (w : BlockWriter) (d : Disk) (c : WriterCommand)
      → CanSeek d.direct c
      → Tracks Fault w d
      → Yields Fault (λ v. Tracks Fault v (carry_out d c)) (execute w c)
  unfolding execute
  execute-Tracks w d (write_data input) can t = write-Tracks Fault w d input t
  execute-Tracks w d (seek_to offset) can t = seek-Tracks w d offset can.0 can.1 t
  execute-Tracks w d (fill_with p n) can t = write_fill_pattern-Tracks Fault w d p n t

  execute_all-Tracks :
      (w : BlockWriter) (d : Disk) (cs : List WriterCommand)
      → CanSeekAll d.direct cs
      → Tracks Fault w d
      → Yields Fault (λ v. Tracks Fault v (carry_out_all d cs)) (execute_all w cs)
  unfolding execute_all
  execute_all-Tracks w d [] can t = t
  execute_all-Tracks w d (c ∷ cs) can t =
      Yields-bind Fault _ _ (execute w c) _ (execute-Tracks w d c can.0 t) (λ v tv.
        execute_all-Tracks v (carry_out d c) cs
          (subst (λ b. CanSeekAll b cs) (sym (carry_out_direct d c)) can.1) tv)

  flush-IsWritten :
      (w : BlockWriter) (d : Disk)
      → Tracks Fault w d
      → Yields Fault (λ v. IsWritten d (v, v.bytes_written)) (flush w)
  unfolding flush
  flush-IsWritten w d t =
      Yields-bind Fault _ _ (flush_buffer w) _ (flush_buffer-padded w d t) (λ v f.
        Yields-bind Fault (Attempted Fault v.file) _ (attempt v.file) _
          (attempt-Attempted Fault v.file f.faults_are)
          (λ g a.
            Yields-bind Fault (Attempted Fault g) _ (attempt g) _
              (attempt-Attempted Fault g a.faults_are)
              (λ h b. record {
                same = λ i. ap (λ k. k i) b.bytes_are ∙ ap (λ k. k i) a.bytes_are ∙ f.same i;
                returned = f.written ∙ t.holds.written;
              })))

  pub run-Yields :
      (w : BlockWriter) (d : Disk) (cs : List WriterCommand)
      → CanSeekAll d.direct cs
      → Tracks Fault w d
      → Yields Fault (IsWritten (carry_out_all d cs)) (run w cs)
  unfolding run
  run-Yields w d cs can t =
      Yields-bind Fault _ _ (execute_all w cs) _ (execute_all-Tracks w d cs can t) (λ v tv.
        Yields-bind Fault (λ u. IsWritten (carry_out_all d cs) (u, u.bytes_written)) _ (flush v) _
          (flush-IsWritten v (carry_out_all d cs) tv) (λ u written. written))

-- The disk that a file at its start is.
abbrev pub disk_of : File → Bool → Disk
disk_of f direct = record { bytes = f.bytes; at = f.at; direct = direct }

-- The task of the writer on an open file, at its start, with direct I/O or without: any commands
-- whose seeks it allows (u64, and on the alignment under direct I/O) leave in the file what an
-- unbuffered writer leaves: each write and fill at the position, each seek a new position, and
-- under direct I/O zeros up to the alignment before a seek and at the end. The position is
-- returned, modulo 2 ^ 64. The task ends, and fails only if an operation on the file does.
pub run-carry_out :
    (f : File) (direct : Bool) (cs : List WriterCommand)
    → f.at ≡ 0
    → CanSeekAll direct cs
    → Yields
        (IsFaulty f.faults)
        (IsWritten (carry_out_all (disk_of f direct) cs))
        (run (new f direct) cs)
run-carry_out f direct cs start can =
    run-Yields (IsFaulty f.faults) (new f direct) (disk_of f direct) cs can (record {
      holds = record {
        mode = refl;
        pos_le = omega arith;
        at_is = omega arith;
        written = omega (arith, start);
        same = λ i. ground arith;
        aligned = λ e. omega (arith, start);
        synced = λ e. omega arith;
        faults_are = λ x. x;
      };
      pos_lt = omega arith;
    })
