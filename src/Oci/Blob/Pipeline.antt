-- ===== src/Oci/Blob/Pipeline.antt =====
-- src/fls/oci/from_oci.rs: `run_blob_pipeline` and `stream_blob_to_file`. The decompressor is another
-- program, a parameter: what it prints of what it was sent, and whether it exits well. The writer task
-- copies all that is printed to the file, or fails.
pub mod Streamed
pub mod File
use mathlib.Core.List.{flatten}
use fls.Base.{ℕ, Bool, true, false, Option, none, some, List, [], ◌∷◌, Bytes, if◌then◌else◌}
use fls.Download.{Answer, Download}
use fls.Magic.{Compression}
use fls.Oci.Blob.{
  Detected, BlobEnd, completed, consumer_done, downloading, retries_failed, resume_failed,
  range_refused, Fetched, fetched, fetch_failed, empty_stream, fetch_stuck, fetching,
  fetch_blob_with_detection, retry_download_loop,
}

-- What a task that is joined comes to
pub data Joined {ℓ} (A : Type ℓ) : Type ℓ where
  ended_well : A → Joined A
  ended_badly task_panicked : Joined A

pub data Pipeline {ℓ} (A : Type ℓ) : Type ℓ where
  delivered : A → Pipeline A
  writer_panicked decompressor_writer_panicked : Pipeline A
  download_failed : BlobEnd → Pipeline A
  decompressor_failed writer_failed exited_badly : Pipeline A
  -- the start of the download failed
  not_started : Fetched → Pipeline A
  -- the model's answers have ended
  unfinished : Pipeline A

-- After a writer that failed: the errors in order, and the exit status last.
abbrev pub after_join {ℓ} : {A : Type ℓ} → Joined A → Bool → Pipeline A
after_join ended_badly status = writer_failed
after_join task_panicked status = writer_panicked
after_join (ended_well a) true = delivered a
after_join (ended_well a) false = exited_badly

abbrev pub after_download {ℓ} : {A : Type ℓ} → Joined A → Joined (Unit {0}) → Bool → Pipeline A
after_download writer ended_badly status = decompressor_failed
after_download writer task_panicked status = decompressor_writer_panicked
after_download writer (ended_well u) status = after_join writer status

-- `download_result?`
abbrev pub root_cause {ℓ} :
    {A : Type ℓ} → BlobEnd → Joined A → Joined (Unit {0}) → Bool → Pipeline A
root_cause (completed s) writer dw status = after_download writer dw status
root_cause (consumer_done s) writer dw status = after_download writer dw status
root_cause (downloading s) writer dw status = unfinished
root_cause (retries_failed e s) writer dw status = download_failed (retries_failed e s)
root_cause (resume_failed e s) writer dw status = download_failed (resume_failed e s)
root_cause (range_refused c s) writer dw status = download_failed (range_refused c s)

-- `if let Ok(result) = writer_result`
abbrev pub after_dw {ℓ} : {A : Type ℓ} → BlobEnd → Joined A → Joined (Unit {0}) → Bool → Pipeline A
after_dw end (ended_well a) dw status = delivered a
after_dw end ended_badly dw status = root_cause end ended_badly dw status
after_dw end task_panicked dw status = writer_panicked

unfoldable pub run_blob_pipeline {ℓ} :
    {A : Type ℓ} → BlobEnd → Joined A → Joined (Unit {0}) → Bool → Pipeline A
run_blob_pipeline (downloading s) writer dw status = unfinished
run_blob_pipeline end task_panicked dw status = writer_panicked
run_blob_pipeline end writer task_panicked status = decompressor_writer_panicked
run_blob_pipeline end writer dw status = after_dw end writer dw status

-- What was sent, however the download ended
abbrev pub sent_in : BlobEnd → List Bytes
sent_in (completed s) = s.sent
sent_in (consumer_done s) = s.sent
sent_in (downloading s) = s.sent
sent_in (retries_failed e s) = s.sent
sent_in (resume_failed e s) = s.sent
sent_in (range_refused c s) = s.sent

-- What the registry answers to the requests of the start, and to those that resume; how many chunks
-- the decompressor takes, if it ends before its input does; whether it could be written to, and
-- whether the file could.
pub record Conditions : Type 0 where
  pub max_retries : ℕ
  pub retry_delay_secs : ℕ
  pub starts : List Answer
  pub resumes : List (ℕ → Answer)
  pub closes_after : Option ℕ
  pub fed_well : Bool
  pub file_written : Bool

abbrev pub joined_if {ℓ} : {A : Type ℓ} → Bool → A → Joined A
joined_if true a = ended_well a
joined_if false a = ended_badly

module _ (process : Compression → Bytes → Bytes × Bool) where
  abbrev pub deliver : Conditions → Compression → BlobEnd → Pipeline Bytes
  deliver c compression end =
      let (out, status) = process compression (flatten (sent_in end)) in
      run_blob_pipeline end (joined_if c.file_written out) (joined_if c.fed_well tt) status

  abbrev pub on_fetched : Conditions → Fetched → Pipeline Bytes
  on_fetched c (fetched d) =
      deliver c d.compression
        (retry_download_loop c.max_retries c.retry_delay_secs c.closes_after d c.resumes)
  on_fetched c fetching = unfinished
  on_fetched c (fetch_failed e) = not_started (fetch_failed e)
  on_fetched c empty_stream = not_started empty_stream
  on_fetched c fetch_stuck = not_started fetch_stuck

  -- The content of the file
  unfoldable pub stream_blob_to_file : Conditions → Pipeline Bytes
  unfolding run_blob_pipeline retry_download_loop fetch_blob_with_detection
  stream_blob_to_file c =
      on_fetched c (fetch_blob_with_detection c.max_retries c.retry_delay_secs 0 c.starts)
