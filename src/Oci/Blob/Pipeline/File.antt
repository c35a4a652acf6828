-- ===== src/Oci/Blob/Pipeline/File.antt =====
-- What `stream_blob_to_file` of src/fls/oci/from_oci.rs leaves in the file.
use mathlib.Core.List.{flatten}
use mathlib.Core.Path.{subst, ap₂}
use fls.Base.{
  ◌+◌, ◌%◌, ◌≢◌, ◌==◌, leb, ℕ, ◌<◌, ◌≤◌, ◌≡◌, ◌⊎◌, inl, inr, refl, ◌∙◌, Bool, true, false, none,
  List, [], ◌∷◌, arith, Bytes, length, sym, take, length-take, append-nil, u64_mod, ltb,
}
use fls.Magic.Prefix.{detect_compression-take}
use fls.Magic.{Compression, detect_compression}
use fls.Download.{
  Download, Ending, DownloadError, stream_failed, Answer, response, is_retryable,
  handle_download_retry,
}
use fls.Oci.Blob.{
  Opened, opened, not_opened, get_blob_stream, Detected, BlobEnd, completed, consumer_done,
  downloading, retries_failed, resume_failed, range_refused, Fetched, fetched, fetch_failed,
  resumed, empty_stream, fetch_stuck, fetching, fetch_blob_with_detection, retry_download_loop,
}
use fls.Oci.Blob.Start.{FetchOf, fetch_blob_with_detection-FetchOf}
use fls.Oci.Blob.Arrives.{HonoursRanges, BlobArrives, retry_download_loop-BlobArrives}
use fls.Oci.Blob.Pipeline.{
  Pipeline, delivered, download_failed, decompressor_failed, writer_failed, exited_badly,
  writer_panicked, decompressor_writer_panicked, not_started, unfinished, run_blob_pipeline,
  sent_in, Conditions, joined_if, on_fetched, stream_blob_to_file,
}
use fls.Oci.Blob.Pipeline.Streamed.{AllStream, streamed-IsStart, streamed-compression}

abbrev pub HasFailed : BlobEnd → Type 0
HasFailed (completed s) = ⊥
HasFailed (consumer_done s) = ⊥
HasFailed (downloading s) = ⊥
HasFailed (retries_failed e s) = Unit
HasFailed (resume_failed e s) = Unit
HasFailed (range_refused status s) = Unit

abbrev pub HasEnded : BlobEnd → Type 0
HasEnded (completed s) = Unit
HasEnded (consumer_done s) = Unit
HasEnded (downloading s) = ⊥
HasEnded (retries_failed e s) = ⊥
HasEnded (resume_failed e s) = ⊥
HasEnded (range_refused status s) = ⊥

-- A blob whose download could not start
abbrev pub NotStarted : Fetched → Type 0
NotStarted (fetched d) = ⊥
NotStarted fetching = ⊥
NotStarted (fetch_failed e) = Unit
NotStarted empty_stream = Unit
NotStarted fetch_stuck = Unit

module _ (blob : Bytes) (process : Compression → Bytes → Bytes × Bool) (c : Conditions) where
  -- How the download of the blob ended
  abbrev pub IsDownload : BlobEnd → Type 0
  IsDownload end =
      (d : Detected) × (fetch_blob_with_detection c.max_retries c.retry_delay_secs 0 c.starts
        ≡ fetched d)
      × (end ≡ retry_download_loop c.max_retries c.retry_delay_secs c.closes_after d c.resumes)
      × BlobArrives blob c.max_retries end

  -- A file that is delivered is what the decompressor of the blob's compression prints of what the
  -- download sent. Each error has its cause.
  abbrev pub FileOf : Pipeline Bytes → Type 0
  FileOf (delivered out) =
      (end : BlobEnd) × IsDownload end
      × (out ≡ (process (detect_compression blob) (flatten (sent_in end))).0)
      × (c.file_written ≡ true)
  FileOf (download_failed end) = IsDownload end × HasFailed end × (c.file_written ≡ false)
  FileOf decompressor_failed =
      (end : BlobEnd) × IsDownload end
      × HasEnded end
      × (c.fed_well ≡ false)
      × (c.file_written ≡ false)
  FileOf writer_failed =
      (end : BlobEnd) × IsDownload end
      × HasEnded end
      × (c.fed_well ≡ true)
      × (c.file_written ≡ false)
  FileOf (not_started r) =
      (fetch_blob_with_detection c.max_retries c.retry_delay_secs 0 c.starts ≡ r) × NotStarted r
  FileOf exited_badly = ⊥
  FileOf writer_panicked = ⊥
  FileOf decompressor_writer_panicked = ⊥
  FileOf unfinished =
      (fetch_blob_with_detection c.max_retries c.retry_delay_secs 0 c.starts ≡ fetching)
      ⊎ ((s : Download) × IsDownload (downloading s))

  run_blob_pipeline-FileOf :
      (end : BlobEnd) (written fed : Bool)
      → c.file_written ≡ written
      → c.fed_well ≡ fed
      → IsDownload end
      → FileOf (
          run_blob_pipeline end
            (joined_if written (process (detect_compression blob) (flatten (sent_in end))).0)
            (joined_if fed tt)
            (process (detect_compression blob) (flatten (sent_in end))).1)
  unfolding run_blob_pipeline
  run_blob_pipeline-FileOf (downloading s) written fed e f b = inr (s, b)
  run_blob_pipeline-FileOf (completed s) true true e f b = (completed s, b, refl, e)
  run_blob_pipeline-FileOf (completed s) true false e f b = (completed s, b, refl, e)
  run_blob_pipeline-FileOf (completed s) false true e f b = (completed s, b, tt, f, e)
  run_blob_pipeline-FileOf (completed s) false false e f b = (completed s, b, tt, f, e)
  run_blob_pipeline-FileOf (consumer_done s) true true e f b = (consumer_done s, b, refl, e)
  run_blob_pipeline-FileOf (consumer_done s) true false e f b = (consumer_done s, b, refl, e)
  run_blob_pipeline-FileOf (consumer_done s) false true e f b = (consumer_done s, b, tt, f, e)
  run_blob_pipeline-FileOf (consumer_done s) false false e f b = (consumer_done s, b, tt, f, e)
  run_blob_pipeline-FileOf (retries_failed x s) true true e f b = (retries_failed x s, b, refl, e)
  run_blob_pipeline-FileOf (retries_failed x s) true false e f b = (retries_failed x s, b, refl, e)
  run_blob_pipeline-FileOf (retries_failed x s) false true e f b = (b, tt, e)
  run_blob_pipeline-FileOf (retries_failed x s) false false e f b = (b, tt, e)
  run_blob_pipeline-FileOf (resume_failed x s) true true e f b = (resume_failed x s, b, refl, e)
  run_blob_pipeline-FileOf (resume_failed x s) true false e f b = (resume_failed x s, b, refl, e)
  run_blob_pipeline-FileOf (resume_failed x s) false true e f b = (b, tt, e)
  run_blob_pipeline-FileOf (resume_failed x s) false false e f b = (b, tt, e)
  run_blob_pipeline-FileOf (range_refused n s) true true e f b = (range_refused n s, b, refl, e)
  run_blob_pipeline-FileOf (range_refused n s) true false e f b = (range_refused n s, b, refl, e)
  run_blob_pipeline-FileOf (range_refused n s) false true e f b = (b, tt, e)
  run_blob_pipeline-FileOf (range_refused n s) false false e f b = (b, tt, e)

  on_fetched-FileOf :
      (r : Fetched)
      → length blob < u64_mod
      → AllStream blob c.starts
      → HonoursRanges blob c.resumes
      → fetch_blob_with_detection c.max_retries c.retry_delay_secs 0 c.starts ≡ r
      → FetchOf c.max_retries 0 c.starts r
      → FileOf (on_fetched process c r)
  on_fetched-FileOf (fetched d) small streams ranges eq f =
      let end = retry_download_loop c.max_retries c.retry_delay_secs c.closes_after d c.resumes in
      subst
        (λ kind. FileOf (
          run_blob_pipeline end (joined_if c.file_written (process kind (flatten (sent_in end))).0)
            (joined_if c.fed_well tt) (process kind (flatten (sent_in end))).1))
        (sym (streamed-compression blob c.starts d streams f))
        (run_blob_pipeline-FileOf end c.file_written c.fed_well refl refl (
          d,
          eq,
          refl,
          retry_download_loop-BlobArrives blob c.max_retries c.retry_delay_secs c.closes_after d
              c.resumes small (streamed-IsStart blob c.starts d streams f) ranges,
        ))
  on_fetched-FileOf (fetch_failed e) small streams ranges eq f = (eq, tt)
  on_fetched-FileOf empty_stream small streams ranges eq f = (eq, tt)
  on_fetched-FileOf fetch_stuck small streams ranges eq f = (eq, tt)
  on_fetched-FileOf fetching small streams ranges eq f = inl eq

-- The file of a blob of less than 2 ^ 64 bytes, from a registry that streams the blob when it is asked
-- for it and keeps to the range in the answers with status 206, for each decompressor: where a file is
-- delivered, it is what the decompressor for the blob's own compression prints of what the download
-- sent, which is the whole blob if the download was complete, and a beginning of it otherwise. There
-- is an error only where the download did not start, or where the file could not be written, and
-- then a download that failed is told first. The function is unfinished only where the
-- download or its start is.
pub stream_blob_to_file-FileOf :
    (blob : Bytes) (process : Compression → Bytes → Bytes × Bool) (c : Conditions)
    → length blob < u64_mod
    → AllStream blob c.starts
    → HonoursRanges blob c.resumes
    → FileOf blob process c (stream_blob_to_file process c)
unfolding stream_blob_to_file
stream_blob_to_file-FileOf blob process c small streams ranges =
    on_fetched-FileOf blob process c
      (fetch_blob_with_detection c.max_retries c.retry_delay_secs 0 c.starts) small streams ranges
      refl (fetch_blob_with_detection-FetchOf c.max_retries c.retry_delay_secs 0 c.starts)

-- The answer to a request to go on that the download cannot go on with: an error, or a status that is
-- not 206
abbrev pub Refuses : Opened → Type 0
Refuses (not_opened e) = Unit
Refuses (opened status chunks ending) = status ≢ 206

abbrev pub breaking : Bytes → DownloadError → (ℕ → Answer) → ℕ → ℕ → Conditions
breaking part e answer max delay = record {
  max_retries = max;
  retry_delay_secs = delay;
  starts = response 200 none (part ∷ []) (stream_failed e) ∷ [];
  resumes = answer ∷ [];
  closes_after = none;
  fed_well = true;
  file_written = true;
}

refused-delivered :
    (process : Compression → Bytes → Bytes × Bool) (o : Opened) (s : Download)
    (next : List Bytes → Ending → BlobEnd) (kind : Compression)
    → Refuses o
    → run_blob_pipeline
        (resumed o s next)
        (joined_if true (process kind (flatten (sent_in (resumed o s next)))).0)
        (joined_if true tt)
        (process kind (flatten (sent_in (resumed o s next)))).1
      ≡ delivered (process kind (flatten s.sent)).0
unfolding run_blob_pipeline
refused-delivered process (not_opened e) s next kind h = refl
refused-delivered process (opened status chunks ending) s next kind h =
    let not_partial : status == 206 ≡ false = ground arith in rw not_partial refl

-- A blob's stream that breaks after at least six bytes, with an error that is tried again, and a
-- registry that refuses to go on from there or ignores the range: the download fails, yet the
-- function returns without an error, and the file is what the decompressor prints of those bytes,
-- even where it exits with an error.
pub stream_blob_to_file-delivered :
    (part : Bytes) (e : DownloadError) (answer : ℕ → Answer) (max delay : ℕ)
    (process : Compression → Bytes → Bytes × Bool)
    → 6 ≤ length part
    → is_retryable e ≡ true
    → 0 < max
    → Refuses (get_blob_stream (answer (length part % u64_mod)))
    → stream_blob_to_file process (breaking part e answer max delay)
      ≡ delivered (process (detect_compression part) part).0
unfolding stream_blob_to_file get_blob_stream handle_download_retry flatten
stream_blob_to_file-delivered part e answer max delay process six again some_retry refuses =
    let full : ltb (length (take 6 part)) 6 ≡ false = ground (arith, length-take 6 part, six) in
    let left : leb max 0 ≡ false = ground arith in
    let offset : length part % u64_mod ≡ (0 + length part) % u64_mod = omega arith in
    rw (full, again, left)
      (refused-delivered process (get_blob_stream (answer ((0 + length part) % u64_mod))) _ _
          (detect_compression (take 6 part))
          (subst (λ o. Refuses (get_blob_stream (answer o))) offset refuses)
        ∙ ap₂ (λ kind bytes. delivered (process kind bytes).0)
            (detect_compression-take part 6 (omega arith)) (append-nil part))
