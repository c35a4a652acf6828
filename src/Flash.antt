-- ===== src/Flash.antt =====
-- src/fls/from_url.rs: the task of `flash_from_url` that takes decompressed data, tells its format,
-- and sends commands to the block writer; with `execute_write_commands`, `process_sparse_data`,
-- `write_regular_data` and `handle_detected_format`. Messages are left out. The channel to the
-- writer takes what is sent until the writer is gone.
pub mod Send
pub mod Known
pub mod Told
pub mod Start
pub mod Restore
pub mod Chunks
pub mod Image
pub mod Regular
pub mod Truncated
pub mod Tests
use fls.Base.{
  ℕ, zero, suc, Bool, true, false, List, [], ◌∷◌, ◌++◌, Option, none, some, Bytes, drop, length,
}
use fls.Simg.Format.{SparseError, Result, ok, err, panic, out_of_fuel}
use fls.Simg.Parser.{SparseParser, WriteCommand, Processed}
use fls.Detect.{
  FileFormat, sparse_image, regular, DetectionResult, need_more_data, detected, corrupted, panicked,
  FormatDetector, finalize_at_eof,
}
use fls.Writer.{WriterCommand, write_data, seek_to, fill_with, File, BlockWriter, run}

-- What the task's error is: `BrokenPipe`, or `InvalidData` with its cause.
pub data TaskError : Type 0 where
  broken_pipe : TaskError
  sparse_error : SparseError → TaskError
  corrupted_header : SparseError → TaskError

pub data Outcome {ℓ} (A : Type ℓ) : Type ℓ where
  done : A → Outcome A
  failed : TaskError → Outcome A
  panics : Outcome A
  unfinished : Outcome A

infixl 5 ◌>>=◌
abbrev pub ◌>>=◌ {ℓ κ} : {A : Type ℓ} {B : Type κ} → Outcome A → (A → Outcome B) → Outcome B
done a >>= f = f a
failed e >>= f = failed e
panics >>= f = panics
unfinished >>= f = unfinished

-- The channel to the writer: what was sent, and how many sends succeed before the writer is gone,
-- if it goes.
pub record Channel : Type 0 where
  pub sent : List WriterCommand
  pub closes_after : Option ℕ

abbrev pub send_if : Option ℕ → Channel → WriterCommand → Outcome Channel
send_if none c w = done (record c { sent = c.sent ++ w ∷ [] })
send_if (some zero) c w = failed broken_pipe
send_if (some (suc n)) c w = done (record { sent = c.sent ++ w ∷ []; closes_after = some n })

-- `AsyncBlockWriter::write`, `seek` and `fill`
unfoldable pub send : Channel → WriterCommand → Outcome Channel
send c w = send_if c.closes_after c w

-- One command of the loop
unfoldable pub execute_write_command : Channel → WriteCommand → Outcome Channel
execute_write_command c (fls.Simg.Parser.write input) = send c (write_data input)
execute_write_command c (fls.Simg.Parser.seek offset) = send c (seek_to offset)
execute_write_command c (fls.Simg.Parser.fill_with pattern bytes) = send c (fill_with pattern bytes)
execute_write_command c (fls.Simg.Parser.completed expected) = done c

unfoldable pub execute_write_commands : Channel → List WriteCommand → Outcome Channel
execute_write_commands c [] = done c
execute_write_commands c (cmd ∷ cs) = do
  c ← execute_write_command c cmd
  execute_write_commands c cs

-- `map_err` on the result of the parser
abbrev pub parsed : Result Processed → Outcome Processed
parsed (ok r) = done r
parsed (err e) = failed (sparse_error e)
parsed panic = panics
parsed out_of_fuel = unfinished

abbrev pub execute_parsed : Channel → Result Processed → Outcome (SparseParser × Channel)
execute_parsed c result = do
  r ← parsed result
  c ← execute_write_commands c r.commands
  done (r.parser, c)

unfoldable pub process_sparse_data :
    SparseParser → Bytes → Channel → Outcome (SparseParser × Channel)
process_sparse_data parser input c = execute_parsed c (fls.Simg.Parser.process parser input)

unfoldable pub write_regular_data : Bytes → Channel → Outcome Channel
write_regular_data input c = send c (write_data input)

unfoldable pub handle_detected_format :
    FileFormat → Bytes → Bytes → Channel → Outcome (Option SparseParser × Channel)
handle_detected_format sparse_image consumed_bytes [] c = do
  r ← process_sparse_data fls.Simg.Parser.new consumed_bytes c
  done (some r.0, r.1)
handle_detected_format sparse_image consumed_bytes (b ∷ rest) c = do
  r ← process_sparse_data fls.Simg.Parser.new consumed_bytes c
  s ← process_sparse_data r.0 (b ∷ rest) r.1
  done (some s.0, s.1)
handle_detected_format regular consumed_bytes [] c = do
  c ← write_regular_data consumed_bytes c
  done (none, c)
handle_detected_format regular consumed_bytes (b ∷ rest) c = do
  c ← write_regular_data consumed_bytes c
  c ← write_regular_data (b ∷ rest) c
  done (none, c)

-- The variables of the task.
pub record Task : Type 0 where
  pub detector : FormatDetector
  pub parser : Option SparseParser
  pub format_determined : Bool
  pub channel : Channel

abbrev pub start : Channel → Task
start c = record {
  detector = fls.Detect.new;
  parser = none;
  format_determined = false;
  channel = c;
}

-- `match detector.process(&data)`
unfoldable pub on_detection : Task → Bytes → FormatDetector × DetectionResult → Outcome Task
on_detection t input (d, need_more_data) = done (record t { detector = d })
on_detection t input (d, detected format consumed_bytes n) = do
  r ← handle_detected_format format consumed_bytes (drop n input) t.channel
  done (record { detector = d; parser = r.0; format_determined = true; channel = r.1 })
on_detection t input (d, corrupted e) = failed (corrupted_header e)
on_detection t input (d, panicked) = panics

-- Data after the format is known
unfoldable pub on_known : Task → Option SparseParser → Bytes → Outcome Task
on_known t (some p) input = do
  r ← process_sparse_data p input t.channel
  done (record t { parser = some r.0; channel = r.1 })
on_known t none input = do c ← write_regular_data input t.channel; done (record t { channel = c })

abbrev pub on_data_if : Bool → Task → Bytes → Outcome Task
on_data_if false t input = on_detection t input (fls.Detect.process t.detector input)
on_data_if true t input = on_known t t.parser input

-- A round of the loop, when data has come and its size could be sent as progress
unfoldable pub on_data : Task → Bytes → Outcome Task
on_data t input = on_data_if t.format_determined t input

-- The end of the data
abbrev pub write_buffered : Task → FormatDetector × Option Bytes → Outcome Task
write_buffered t (d, none) = done (record t { detector = d })
write_buffered t (d, some buffered) = do
  c ← write_regular_data buffered t.channel
  done (record t { detector = d; channel = c })

abbrev pub at_end_if : Bool → Task → Outcome Task
at_end_if true t = done t
at_end_if false t = write_buffered t (finalize_at_eof t.detector)

unfoldable pub at_end : Task → Outcome Task
at_end t = at_end_if t.format_determined t

-- The loop: the data that comes, each with whether someone still takes the progress.
unfoldable pub run_task : Task → List (Bytes × Bool) → Outcome Task
run_task t [] = at_end t
run_task t ((input, false) ∷ rest) = done t
run_task t ((input, true) ∷ rest) = do t ← on_data t input; run_task t rest

-- The task, and the writer on an open file: it works on what was sent, and the task waits for it.
unfoldable pub flash :
    File → Bool → List (Bytes × Bool) → Outcome (fls.Writer.Outcome (BlockWriter × ℕ))
flash f direct arrivals = do
  t ← run_task (start (record { sent = []; closes_after = none })) arrivals
  done (run (fls.Writer.new f direct) t.channel.sent)
