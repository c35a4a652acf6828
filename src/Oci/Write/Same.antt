-- ===== src/Oci/Write/Same.antt =====
-- The tasks of src/fls/oci/from_oci.rs that write, beside the one of src/fls/from_url.rs.
use fls.Base.{
  ℕ, ◌≡◌, refl, ap, sym, ◌∙◌, Bool, true, false, List, [], ◌∷◌, Option, none, some, Bytes, length,
  take, drop, take_all, arith,
}
use fls.Simg.Parser.{SparseParser, WriteCommand, Processed}
use fls.Detect.{
  FileFormat, sparse_image, regular, FormatDetector, DetectionResult, need_more_data, detected,
  corrupted, panicked, finalize_at_eof,
}
use fls.Writer.{write_data, seek_to, fill_with, File, BlockWriter, run}
use fls.Flash.{
  Outcome, done, failed, panics, unfinished, ◌>>=◌, Channel, send, parsed, Task, run_task, on_data,
  on_known, at_end, flash, write_regular_data,
}
use fls.Flash.Known.{listened}
use fls.Oci.Write.{
  execute_write_commands, process_sparse_data, handle_detected_format, Pipe, on_detection_result,
  after_detection, process_buffer_with_format_detection, write_buffered_data,
  finalize_format_at_eof, new_pipe, ReadInto, write_from_decompressor, write_from_channel,
  flash_decompressed, close_if, flash_in_process,
}

module _ {A B : Type 0} where
  bind_same : (m : Outcome A) (f g : A → Outcome B) → ((a : A) → f a ≡ g a) → (m >>= f) ≡ (m >>= g)
  bind_same (done a) f g e = e a
  bind_same (failed x) f g e = refl
  bind_same panics f g e = refl
  bind_same unfinished f g e = refl

module _ {A B C : Type 0} where
  bind_assoc :
      (m : Outcome A) (f : A → Outcome B) (g : B → Outcome C)
      → ((m >>= f) >>= g) ≡ (m >>= λ a. f a >>= g)
  bind_assoc (done a) f g = refl
  bind_assoc (failed x) f g = refl
  bind_assoc panics f g = refl
  bind_assoc unfinished f g = refl

execute_same :
    (commands : List WriteCommand) (c : Channel)
    → execute_write_commands commands c ≡ fls.Flash.execute_write_commands c commands
unfolding execute_write_commands fls.Flash.execute_write_commands fls.Flash.execute_write_command
execute_same [] c = refl
execute_same (fls.Simg.Parser.write input ∷ cs) c =
    bind_same (send c (write_data input)) _ _ (execute_same cs)
execute_same (fls.Simg.Parser.seek offset ∷ cs) c =
    bind_same (send c (seek_to offset)) _ _ (execute_same cs)
execute_same (fls.Simg.Parser.fill_with pattern bytes ∷ cs) c =
    bind_same (send c (fill_with pattern bytes)) _ _ (execute_same cs)
execute_same (fls.Simg.Parser.completed expected ∷ cs) c = execute_same cs c

process_same :
    (parser : SparseParser) (input : Bytes) (c : Channel)
    → process_sparse_data parser input c ≡ fls.Flash.process_sparse_data parser input c
unfolding process_sparse_data fls.Flash.process_sparse_data
process_same parser input c =
    bind_same (parsed (fls.Simg.Parser.process parser input)) _ _
      (λ r. ap (λ o. o >>= λ d. done (r.parser, d)) (execute_same r.commands c))

handle_same :
    (format : FileFormat) (consumed remaining : Bytes) (c : Channel)
    → handle_detected_format format consumed remaining c
      ≡ fls.Flash.handle_detected_format format consumed remaining c
unfolding handle_detected_format fls.Flash.handle_detected_format write_regular_data
handle_same sparse_image consumed [] c =
    ap (λ o. o >>= λ r. done (some r.0, r.1)) (process_same fls.Simg.Parser.new consumed c)
handle_same sparse_image consumed (b ∷ rest) c =
    ap (λ o. o >>= λ r. process_sparse_data r.0 (b ∷ rest) r.1 >>= λ s. done (some s.0, s.1))
      (process_same fls.Simg.Parser.new consumed c)
    ∙ bind_same (fls.Flash.process_sparse_data fls.Simg.Parser.new consumed c) _ _
        (λ r. ap (λ o. o >>= λ s. done (some s.0, s.1)) (process_same r.0 (b ∷ rest) r.1))
handle_same regular consumed [] c = refl
handle_same regular consumed (b ∷ rest) c = refl

-- The same variables
abbrev pub task_of : Pipe → Task
task_of p = record {
  detector = p.detector;
  parser = p.parser;
  format_determined = p.format_determined;
  channel = p.writer;
}

abbrev as_task : Outcome Pipe → Outcome Task
as_task o = o >>= λ p. done (task_of p)

buffer_same :
    (buffer : Bytes) (n : ℕ) (p : Pipe)
    → as_task (process_buffer_with_format_detection buffer n p)
      ≡ on_data (task_of p) (take n buffer)
unfolding process_buffer_with_format_detection on_data fls.Flash.on_detection on_known
    write_regular_data
buffer_same buffer n p = by p.format_determined
  where
    input : Bytes
    input = take n buffer

    detected_same :
        (r : FormatDetector × DetectionResult)
        → as_task (on_detection_result buffer n p r) ≡ fls.Flash.on_detection (task_of p) input r
    detected_same (d, need_more_data) = refl
    detected_same (d, detected format consumed k) =
        bind_assoc (handle_detected_format format consumed (drop k input) p.writer) _ _
        ∙ ap
            (λ o. o >>= λ r.
              done (record { detector = d; parser = r.0; format_determined = true; channel = r.1 }))
            (handle_same format consumed (drop k input) p.writer)
    detected_same (d, corrupted e) = refl
    detected_same (d, panicked) = refl

    known_same :
        (o : Option SparseParser)
        → as_task (after_detection input p o) ≡ on_known (task_of p) o input
    known_same (some parser) =
        bind_assoc (process_sparse_data parser input p.writer) _ _
        ∙ ap (λ o. o >>= λ r. done (record (task_of p) { parser = some r.0; channel = r.1 }))
            (process_same parser input p.writer)
    known_same none = bind_assoc (send p.writer (write_data input)) _ _

    by :
        (b : Bool)
        → as_task (elim b [
          | false ↦ on_detection_result buffer n p (fls.Detect.process p.detector input)
          | true ↦ after_detection input p p.parser
        ])
          ≡ fls.Flash.on_data_if b (task_of p) input
    by false = detected_same (fls.Detect.process p.detector input)
    by true = known_same p.parser

end_same : (p : Pipe) → as_task (finalize_format_at_eof p) ≡ at_end (task_of p)
unfolding finalize_format_at_eof at_end write_regular_data
end_same p = by p.format_determined
  where
    buffered_same :
        (r : FormatDetector × Option Bytes)
        → as_task (write_buffered_data p r) ≡ fls.Flash.write_buffered (task_of p) r
    buffered_same (d, none) = refl
    buffered_same (d, some buffered) = bind_assoc (send p.writer (write_data buffered)) _ _

    by :
        (b : Bool)
        → as_task
            (elim b [ false ↦ write_buffered_data p (finalize_at_eof p.detector) | true ↦ done p ])
          ≡ fls.Flash.at_end_if b (task_of p)
    by false = buffered_same (finalize_at_eof p.detector)
    by true = refl

-- What is read, as the other task takes it
abbrev pub arrivals : List ReadInto → List (Bytes × Bool)
arrivals [] = []
arrivals (r ∷ reads) = (take r.count r.buffer, r.progress_taken) ∷ arrivals reads

decompressor_same :
    (reads : List ReadInto) (p : Pipe)
    → as_task (write_from_decompressor p reads) ≡ run_task (task_of p) (arrivals reads)
unfolding write_from_decompressor run_task
decompressor_same [] p = end_same p
decompressor_same (r ∷ reads) p = by r.progress_taken (λ q. decompressor_same reads q)
  where
    by :
        (b : Bool)
        → ((q : Pipe)
            → as_task (write_from_decompressor q reads) ≡ run_task (task_of q) (arrivals reads))
        → as_task (elim b [
          | false ↦ done p
          | true ↦ process_buffer_with_format_detection r.buffer r.count p >>= λ q.
              write_from_decompressor q reads
        ])
          ≡ run_task (task_of p) ((take r.count r.buffer, b) ∷ arrivals reads)
    by false more = refl
    by true more =
        bind_assoc (process_buffer_with_format_detection r.buffer r.count p) _ _
        ∙ bind_same (process_buffer_with_format_detection r.buffer r.count p) _ _ more
        ∙ sym (
            bind_assoc (process_buffer_with_format_detection r.buffer r.count p)
              (λ q. done (task_of q)) _)
        ∙ ap (λ o. o >>= λ t. run_task t (arrivals reads)) (buffer_same r.buffer r.count p)

channel_same :
    (inputs : List Bytes) (p : Pipe)
    → as_task (write_from_channel p inputs) ≡ run_task (task_of p) (listened inputs)
unfolding write_from_channel run_task
channel_same [] p = end_same p
channel_same (input ∷ inputs) p =
    bind_assoc (process_buffer_with_format_detection input (length input) p) _ _
    ∙ bind_same (process_buffer_with_format_detection input (length input) p) _ _
        (channel_same inputs)
    ∙ sym (
        bind_assoc (process_buffer_with_format_detection input (length input) p)
          (λ q. done (task_of q)) _)
    ∙ ap (λ o. o >>= λ t. run_task t (listened inputs))
        (buffer_same input (length input) p
          ∙ ap (on_data (task_of p)) (take_all (length input) input (omega arith)))

-- On the same data, both tasks that write what comes from a registry do what the task for a URL does:
-- the first on each part of its buffer that was read, while the progress is taken; the second on what
-- comes through its channel, and where the data could not be read or decompressed to its end it fails
-- after that.
pub flash_decompressed-flash :
    (f : File) (direct : Bool) (reads : List ReadInto) (inputs : List Bytes)
    (reader_succeeds : Bool)
    → (flash_decompressed f direct reads ≡ flash f direct (arrivals reads))
      × (flash_in_process f direct inputs reader_succeeds
          ≡ (flash f direct (listened inputs) >>= λ r. done (close_if reader_succeeds r)))
unfolding flash_decompressed flash_in_process flash
flash_decompressed-flash f direct reads inputs reader_succeeds = (
  sym (bind_assoc (write_from_decompressor p reads) (λ q. done (task_of q)) _)
      ∙ ap (λ o. o >>= λ t. done (run (fls.Writer.new f direct) t.channel.sent))
          (decompressor_same reads p),
  sym (bind_assoc (write_from_channel p inputs) (λ q. done (task_of q)) _)
      ∙ ap
          (λ o. o >>= λ t.
            done (close_if reader_succeeds (run (fls.Writer.new f direct) t.channel.sent)))
          (channel_same inputs p)
      ∙ sym (bind_assoc (run_task (task_of p) (listened inputs)) _ _),
)
  where
    p : Pipe
    p = new_pipe (record { sent = []; closes_after = none })
