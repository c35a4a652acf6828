-- ===== src/Oci/Write.antt =====
-- src/fls/oci/from_oci.rs: the functions that write decompressed data to the device, which stand
-- beside those of the same names in src/fls/from_url.rs (`Flash`), and the two tasks that call them,
-- of `setup_tar_processing_pipeline` and `setup_inprocess_decompression_pipeline`.
pub mod Same
pub mod Tests
use fls.Base.{ℕ, Bool, true, false, List, [], ◌∷◌, Option, none, some, Bytes, length, take, drop}
use fls.Simg.Parser.{SparseParser, WriteCommand, Processed}
use fls.Detect.{
  FileFormat, sparse_image, regular, DetectionResult, need_more_data, detected, corrupted, panicked,
  FormatDetector, finalize_at_eof,
}
use fls.Writer.{write_data, seek_to, fill_with, File, BlockWriter, run}
use fls.Flash.{
  TaskError, corrupted_header, Outcome, done, failed, panics, unfinished, ◌>>=◌, Channel, send,
  parsed,
}

unfoldable pub execute_write_commands : List WriteCommand → Channel → Outcome Channel
execute_write_commands [] c = done c
execute_write_commands (fls.Simg.Parser.write input ∷ commands) c = do
  c ← send c (write_data input)
  execute_write_commands commands c
execute_write_commands (fls.Simg.Parser.seek offset ∷ commands) c = do
  c ← send c (seek_to offset)
  execute_write_commands commands c
execute_write_commands (fls.Simg.Parser.fill_with pattern bytes ∷ commands) c = do
  c ← send c (fill_with pattern bytes)
  execute_write_commands commands c
execute_write_commands (fls.Simg.Parser.completed expected ∷ commands) c =
    execute_write_commands commands c

-- The parser and the channel after the data
unfoldable pub process_sparse_data :
    SparseParser → Bytes → Channel → Outcome (SparseParser × Channel)
unfolding execute_write_commands
process_sparse_data parser input c = do
  r ← parsed (fls.Simg.Parser.process parser input)
  c ← execute_write_commands r.commands c
  done (r.parser, c)

-- Data that is left of the buffer, where there is any
abbrev pub remaining_sparse : Bytes → SparseParser → Channel → Outcome (SparseParser × Channel)
remaining_sparse [] parser c = done (parser, c)
remaining_sparse (b ∷ remaining) parser c = process_sparse_data parser (b ∷ remaining) c

abbrev pub remaining_regular : Bytes → Channel → Outcome Channel
remaining_regular [] c = done c
remaining_regular (b ∷ remaining) c = send c (write_data (b ∷ remaining))

unfoldable pub handle_detected_format :
    FileFormat → Bytes → Bytes → Channel → Outcome (Option SparseParser × Channel)
unfolding process_sparse_data
handle_detected_format sparse_image consumed_bytes remaining c = do
  r ← process_sparse_data fls.Simg.Parser.new consumed_bytes c
  s ← remaining_sparse remaining r.0 r.1
  done (some s.0, s.1)
handle_detected_format regular consumed_bytes remaining c = do
  c ← send c (write_data consumed_bytes)
  c ← remaining_regular remaining c
  done (none, c)

-- The variables that the functions change
pub record Pipe : Type 0 where
  pub detector : FormatDetector
  pub parser : Option SparseParser
  pub format_determined : Bool
  pub writer : Channel

unfoldable pub on_detection_result :
    Bytes → ℕ → Pipe → FormatDetector × DetectionResult → Outcome Pipe
unfolding handle_detected_format
on_detection_result buffer n p (d, need_more_data) = done (record p { detector = d })
on_detection_result buffer n p (d, detected format consumed_bytes consumed_from_input) = do
  r ←
      handle_detected_format format consumed_bytes (drop consumed_from_input (take n buffer))
        p.writer
  done (record { detector = d; parser = r.0; format_determined = true; writer = r.1 })
on_detection_result buffer n p (d, corrupted e) = failed (corrupted_header e)
on_detection_result buffer n p (d, panicked) = panics

unfoldable pub after_detection : Bytes → Pipe → Option SparseParser → Outcome Pipe
unfolding process_sparse_data
after_detection input p (some parser) = do
  r ← process_sparse_data parser input p.writer
  done (record p { parser = some r.0; writer = r.1 })
after_detection input p none = do
  c ← send p.writer (write_data input)
  done (record p { writer = c })

unfoldable pub process_buffer_with_format_detection : Bytes → ℕ → Pipe → Outcome Pipe
unfolding on_detection_result after_detection
process_buffer_with_format_detection buffer n p = elim p.format_determined [
  | false ↦ on_detection_result buffer n p (fls.Detect.process p.detector (take n buffer))
  | true ↦ after_detection (take n buffer) p p.parser
]

abbrev pub write_buffered_data : Pipe → FormatDetector × Option Bytes → Outcome Pipe
write_buffered_data p (d, none) = done (record p { detector = d })
write_buffered_data p (d, some buffered_data) = do
  c ← send p.writer (write_data buffered_data)
  done (record p { detector = d; writer = c })

unfoldable pub finalize_format_at_eof : Pipe → Outcome Pipe
finalize_format_at_eof p = elim p.format_determined [
  | false ↦ write_buffered_data p (finalize_at_eof p.detector)
  | true ↦ done p
]

abbrev pub new_pipe : Channel → Pipe
new_pipe c = record {
  detector = fls.Detect.new;
  parser = none;
  format_determined = false;
  writer = c;
}

-- A read into the buffer: what the buffer holds then, how much of it was read, and whether someone
-- still takes the progress
pub record ReadInto : Type 0 where
  pub buffer : Bytes
  pub count : ℕ
  pub progress_taken : Bool

-- The loop of `setup_tar_processing_pipeline`; a read that fails, which ends it with its error, is left
-- out.
unfoldable pub write_from_decompressor : Pipe → List ReadInto → Outcome Pipe
unfolding process_buffer_with_format_detection finalize_format_at_eof
write_from_decompressor p [] = finalize_format_at_eof p
write_from_decompressor p (r ∷ reads) = elim r.progress_taken [
  | false ↦ done p
  | true ↦ process_buffer_with_format_detection r.buffer r.count p >>= λ q.
      write_from_decompressor q reads
]

-- The loop of `setup_inprocess_decompression_pipeline`
unfoldable pub write_from_channel : Pipe → List Bytes → Outcome Pipe
unfolding process_buffer_with_format_detection finalize_format_at_eof
write_from_channel p [] = finalize_format_at_eof p
write_from_channel p (input ∷ inputs) = do
  q ← process_buffer_with_format_detection input (length input) p
  write_from_channel q inputs

-- Each task with its writer on an open file, which works on what was sent and is waited for.
unfoldable pub flash_decompressed :
    File → Bool → List ReadInto → Outcome (fls.Writer.Outcome (BlockWriter × ℕ))
unfolding write_from_decompressor
flash_decompressed f direct reads = do
  p ← write_from_decompressor (new_pipe (record { sent = []; closes_after = none })) reads
  done (run (fls.Writer.new f direct) p.writer.sent)

-- The second waits for the task that reads and decompresses first: `none` where that failed.
abbrev pub close_if {ℓ} : {A : Type ℓ} → Bool → A → Option A
close_if true a = some a
close_if false a = none

unfoldable pub flash_in_process :
    File → Bool → List Bytes → Bool → Outcome (Option (fls.Writer.Outcome (BlockWriter × ℕ)))
unfolding write_from_channel
flash_in_process f direct inputs reader_succeeds = do
  p ← write_from_channel (new_pipe (record { sent = []; closes_after = none })) inputs
  done (close_if reader_succeeds (run (fls.Writer.new f direct) p.writer.sent))
