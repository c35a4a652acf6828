-- ===== src/Flash/Image.antt =====
-- `flash_from_url` of src/fls/from_url.rs on a sparse image: what the device holds in the end.
use mathlib.Core.List.{flatten}
use mathlib.Core.Path.{subst}
use fls.Base.{ℕ, ◌≡◌, refl, ap, ◌∙◌, sym, Bool, true, List, [], ◌++◌, arith, Bytes, append_assoc}
use fls.Simg.Format.{image_size, parse_header, ok}
use fls.Simg.Format.Header.{image_size-lt, make_header, parse_header-make_header}
use fls.Simg.Parser.{WriteCommand}
use fls.Simg.Image.{Image, IsImage, encode, encode_chunks, events, image_events}
use fls.Simg.Image.Stream.{process_all-encode}
use fls.Detect.Exact.{IsWaiting}
use fls.Writer.{File, BlockWriter, run, new}
use fls.Writer.Disk.{Disk, Yields, IsFaulty, carry_out_all}
use fls.Writer.Run.{IsWritten, disk_of, run-carry_out}
use fls.Flash.{Task, Outcome, done, run_task, start, flash}
use fls.Flash.Send.{taking, translate}
use fls.Flash.Known.{listened, sparse_task}
use fls.Flash.Start.{Told, IsParsed, run_task-waiting}
use fls.Writer.Copy.{Yields-map}
use fls.Flash.Restore.{
  Same, Same-trans, Same-sym, CanGo, restore, disk_events, carry_out_all-events, CanSeekAll-events,
}
use fls.Flash.Chunks.{
  IsAligned, pad_aligned, restore-events, chunk_events-CanGo, restore_at, output-IsAligned,
  restore_direct,
}

-- What a writer leaves that has restored an image, and the size that it returns.
pub record IsRestored (i : Image) (d : Disk) (r : BlockWriter × ℕ) : Type 0 where
  pub same : (j : ℕ) → r.0.file.bytes j ≡ (restore i.header.block_size d i.chunks).bytes j
  pub returned : r.1 ≡ image_size i.header

-- The task on the data of an image.
pub record IsSent (i : Image) (o : Outcome Task) : Type 0 where
  pub task : Task
  pub commands : List WriteCommand
  pub is_done : o ≡ done task
  pub sent : task.channel ≡ taking (translate commands)
  pub asked : events commands ≡ image_events i

pub start-IsWaiting : IsWaiting fls.Detect.new
start-IsWaiting = record { not_complete = refl; few = omega arith }

pub encode_parses :
    (i : Image) (trailing : Bytes) → IsImage i → parse_header (encode i ++ trailing) ≡ ok i.header
encode_parses i trailing image =
    ap parse_header (
      append_assoc (make_header i.minor i.header) (encode_chunks i.header.block_size i.chunks)
        trailing)
    ∙ parse_header-make_header i.minor i.header
        (encode_chunks i.header.block_size i.chunks ++ trailing) image.header_fits

run_task-IsSent :
    (i : Image) (pieces : List Bytes) (trailing : Bytes)
    → IsImage i
    → flatten pieces ≡ encode i ++ trailing
    → IsSent i (run_task (start (taking [])) (listened pieces))
run_task-IsSent i pieces trailing image bytes =
    let told =
      subst (λ r. Told [] (flatten pieces) r (run_task (start (taking [])) (listened pieces)))
        (ap parse_header bytes ∙ encode_parses i trailing image)
        (run_task-waiting pieces fls.Detect.new [] start-IsWaiting) in
    sent told
  where
    sent :
        IsParsed [] (flatten pieces) (run_task (start (taking [])) (listened pieces))
        → IsSent i (run_task (start (taking [])) (listened pieces))
    sent t =
        let (p, cs, e, c, asked) = process_all-encode i t.pieces trailing image (t.all ∙ bytes) in
        record {
          task = sparse_task t.detector p (translate cs);
          commands = cs;
          is_done = t.outcome ∙ ap (fls.Flash.Known.outcome_of t.detector []) e;
          sent = refl;
          asked = asked;
        }

-- the disk that the commands leave is the restored one
restored :
    (i : Image) (d : Disk) (cs : List WriteCommand)
    → IsImage i
    → d.at ≡ 0
    → IsAligned d.direct i.header.block_size
    → events cs ≡ image_events i
    → Same (restore i.header.block_size d i.chunks) (carry_out_all d (translate cs))
restored i d cs image at_start aligned asked =
    Same-trans
      (Same-sym (
        restore-events i.header.block_size i.chunks d 0 image.chunks_fit aligned (λ x. omega arith)
          at_start))
      (subst (λ es. Same (disk_events d es) (carry_out_all d (translate cs))) asked
        (carry_out_all-events d cs))

IsWritten-IsRestored :
    (i : Image) (d : Disk) (cs : List WriteCommand) (r : BlockWriter × ℕ)
    → IsImage i
    → d.at ≡ 0
    → IsAligned d.direct i.header.block_size
    → events cs ≡ image_events i
    → IsWritten (carry_out_all d (translate cs)) r
    → IsRestored i d r
IsWritten-IsRestored i d cs r image at_start aligned asked w =
    let s = restored i d cs image at_start aligned asked in
    let e = carry_out_all d (translate cs) in
    let at_size : e.at ≡ image_size i.header = omega (
      arith,
      s.at_is,
      restore_at i.header.block_size i.chunks d image.chunks_fit,
      image.size_is,
      at_start,
    ) in
    let full : IsAligned e.direct e.at = λ x. omega (
      arith,
      at_size,
      image.size_is,
      output-IsAligned d.direct i.header.block_size i.chunks aligned (restore_mode s x),
    ) in
    record {
      same = λ j. w.same j ∙ pad_aligned e.direct e full j ∙ sym (s.bytes_are j);
      returned = omega (arith, w.returned, at_size, image_size-lt i.header image.header_fits);
    }
  where
    restore_mode :
        Same (restore i.header.block_size d i.chunks) (carry_out_all d (translate cs))
        → (carry_out_all d (translate cs)).direct ≡ true
        → d.direct ≡ true
    restore_mode s x = sym (restore_direct i.header.block_size i.chunks d) ∙ s.mode ∙ x

-- A sparse image, however its data is cut into pieces and whatever follows it, flashed to an open
-- file at its start (under direct I/O with a block size on the alignment of 4096), while someone
-- takes the progress: the task succeeds, and where no operation on the file fails the writer ends,
-- the file holds each RAW chunk's data and each FILL chunk's pattern in its place and its old
-- content at DONT_CARE chunks and behind the image, and the size returned is the header's.
pub flash-encode :
    (i : Image) (pieces : List Bytes) (trailing : Bytes) (f : File) (direct : Bool)
    → IsImage i
    → flatten pieces ≡ encode i ++ trailing
    → f.at ≡ 0
    → IsAligned direct i.header.block_size
    → (o : fls.Writer.Outcome (BlockWriter × ℕ)) × (flash f direct (listened pieces) ≡ done o)
      × Yields (IsFaulty f.faults) (IsRestored i (disk_of f direct)) o
unfolding flash
flash-encode i pieces trailing f direct image bytes at_start aligned =
    let s = run_task-IsSent i pieces trailing image bytes in
    let can = CanSeekAll-events direct s.commands (
      subst (CanGo direct) (sym s.asked) (
        chunk_events-CanGo direct i.header.block_size i.chunks 0 aligned (λ x. omega arith)
          (omega (arith, image.size_is, image_size-lt i.header image.header_fits)))) in
    (
      run (new f direct) (translate s.commands),
      rw s.is_done (ap (λ c. done (run (new f direct) c.sent)) s.sent),
      Yields-map (IsFaulty f.faults) _ _ (run (new f direct) (translate s.commands))
          (λ r w.
            IsWritten-IsRestored i (disk_of f direct) s.commands r image at_start aligned s.asked w)
          (run-carry_out f direct (translate s.commands) at_start can),
    )
