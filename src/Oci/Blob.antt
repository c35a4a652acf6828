-- ===== src/Oci/Blob.antt =====
-- src/fls/oci/from_oci.rs: the download of a blob, `fetch_blob_with_detection`, `retry_download_loop`
-- and `run_blob_pipeline`, with `get_blob_stream_range` of src/fls/oci/registry.rs. What the registry
-- answers is a list, in the order of the requests; the errors and retries are `Download`'s.
pub mod FirstBytes
pub mod Start
pub mod Arrives
pub mod Pipeline
pub mod Tests
use fls.Base.{
  ℕ, zero, suc, ◌+◌, ◌-◌, ◌%◌, Bool, true, false, not, ◌&&◌, List, [], ◌∷◌, ◌++◌, Option, none,
  some, ltb, leb, ◌==◌, if◌then◌else◌, length, take, Bytes, u64_mod,
}
use fls.Download.{
  DownloadError, Ending, stream_ended, timed_out, stream_failed, timeout_error, Answer,
  request_failed, response, from_http_status, handle_download_retry, Download, accepted,
}
use fls.Magic.{Compression, detect_compression}

-- `get_blob_stream_range`: the error, or the status and the stream
pub data Opened : Type 0 where
  opened : ℕ → List Bytes → Ending → Opened
  not_opened : DownloadError → Opened

unfoldable pub get_blob_stream : Answer → Opened
unfolding from_http_status
get_blob_stream (request_failed e) = not_opened e
get_blob_stream (response status retry_after chunks ending) =
    if not (leb 200 status && ltb status 300) && not (status == 206)
    then not_opened (from_http_status status)
    else opened status chunks ending

-- The start of a stream: its first chunks, and what is left of it.
pub record Detected : Type 0 where
  pub initial_chunks : List Bytes
  pub rest : List Bytes
  pub ending : Ending
  pub compression : Compression

-- A read that waits for ever is `stuck`: here no read has a timeout.
pub data Gathered : Type 0 where
  gathered : Bytes → List Bytes → List Bytes → Ending → Gathered
  broken : DownloadError → Gathered
  stuck : Gathered

abbrev pub at_ending : Bytes → List Bytes → Ending → Gathered
at_ending prefix initial stream_ended = gathered prefix initial [] stream_ended
at_ending prefix initial (stream_failed e) = broken e
at_ending prefix initial timed_out = stuck

-- Chunks are read until there are six bytes.
unfoldable pub gather : Bytes → List Bytes → List Bytes → Ending → Gathered
gather prefix initial [] ending =
    if ltb (length prefix) 6
    then at_ending prefix initial ending
    else gathered prefix initial [] ending
gather prefix initial (chunk ∷ chunks) ending = elim (ltb (length prefix) 6) [
  | true ↦ gather (prefix ++ take (6 - length prefix) chunk) (initial ++ chunk ∷ []) chunks ending
  | false ↦ gathered prefix initial (chunk ∷ chunks) ending
]

pub data Fetched : Type 0 where
  fetched : Detected → Fetched
  fetch_failed : DownloadError → Fetched
  empty_stream fetch_stuck fetching : Fetched

abbrev pub detected_or_empty : Bytes → List Bytes → List Bytes → Ending → Fetched
detected_or_empty prefix [] rest ending = empty_stream
detected_or_empty prefix (c ∷ cs) rest ending = fetched (record {
  initial_chunks = c ∷ cs;
  rest = rest;
  ending = ending;
  compression = detect_compression prefix;
})

-- The retry of an error, with the count that is left
abbrev pub fetch_again : Option ℕ × ℕ → DownloadError → (ℕ → Fetched) → Fetched
fetch_again (none, n) e next = fetch_failed e
fetch_again (some delay, n) e next = next n

abbrev pub on_gathered : ℕ → ℕ → ℕ → Gathered → (ℕ → Fetched) → Fetched
on_gathered max delay count (gathered prefix initial rest ending) next =
    detected_or_empty prefix initial rest ending
on_gathered max delay count (broken e) next =
    fetch_again (handle_download_retry e count max delay) e next
on_gathered max delay count stuck next = fetch_stuck

abbrev pub on_opened : ℕ → ℕ → ℕ → Opened → (ℕ → Fetched) → Fetched
on_opened max delay count (not_opened e) next =
    fetch_again (handle_download_retry e count max delay) e next
on_opened max delay count (opened status chunks ending) next =
    on_gathered max delay count (gather [] [] chunks ending) next

-- `fetching` is an end of the model's answers.
unfoldable pub fetch_blob_with_detection : ℕ → ℕ → ℕ → List Answer → Fetched
unfolding gather get_blob_stream
fetch_blob_with_detection max delay count [] = fetching
fetch_blob_with_detection max delay count (a ∷ answers) =
    on_opened max delay count (get_blob_stream a)
      (λ n. fetch_blob_with_detection max delay n answers)

-- What the loop of the download comes to. `downloading` is an end of the model's answers.
pub data BlobEnd : Type 0 where
  completed consumer_done downloading : Download → BlobEnd
  retries_failed resume_failed : DownloadError → Download → BlobEnd
  range_refused : ℕ → Download → BlobEnd

-- A chunk for the buffer: its length is counted before it is sent at first, and after it later.
abbrev pub counted : Download → Bytes → Download
counted s chunk = record s { bytes_received = (s.bytes_received + length chunk) % u64_mod }

unfoldable pub seed : Download → List Bytes → (Download → BlobEnd) → BlobEnd
seed s [] next = next s
seed s (chunk ∷ chunks) next = elim s.closes_after [
  | none ↦ seed (record (accepted s chunk none) { retry_count = s.retry_count }) chunks next
  | some zero ↦ consumer_done (counted s chunk)
  | some (suc n) ↦
      seed (record (accepted s chunk (some n)) { retry_count = s.retry_count }) chunks next
]

-- The end of a stream, or of its consumer
pub data Pulled : Type 0 where
  pulled consumer_gone : Download → Pulled
  broke : DownloadError → Download → Pulled

abbrev pub pulled_ending : Ending → Download → Pulled
pulled_ending stream_ended s = pulled s
pulled_ending timed_out s = broke timeout_error s
pulled_ending (stream_failed e) s = broke e s

unfoldable pub pull : Download → List Bytes → Ending → Pulled
pull s [] ending = pulled_ending ending s
pull s (chunk ∷ chunks) ending = elim s.closes_after [
  | none ↦ pull (accepted s chunk none) chunks ending
  | some zero ↦ consumer_gone s
  | some (suc n) ↦ pull (accepted s chunk (some n)) chunks ending
]

-- The stream to go on with
abbrev pub resumed : Opened → Download → (List Bytes → Ending → BlobEnd) → BlobEnd
resumed (not_opened e) s next = resume_failed e s
resumed (opened status chunks ending) s next =
    if status == 206 then next chunks ending else range_refused status s

abbrev pub retried_blob : Option ℕ × ℕ → DownloadError → Download → (Download → BlobEnd) → BlobEnd
retried_blob (none, n) e s next = retries_failed e s
retried_blob (some delay, n) e s next =
    next (record s { retry_count = n; delays = s.delays ++ delay ∷ [] })

abbrev pub on_pulled : ℕ → ℕ → Pulled → (Download → BlobEnd) → BlobEnd
on_pulled max delay (pulled s) next = completed s
on_pulled max delay (consumer_gone s) next = consumer_done s
on_pulled max delay (broke e s) next =
    retried_blob (handle_download_retry e s.retry_count max delay) e s next

-- The loop, on a stream and what is answered to each offset that is asked for after it
unfoldable pub download_stream :
    ℕ → ℕ → Download → List Bytes → Ending → List (ℕ → Answer) → BlobEnd
unfolding pull get_blob_stream
download_stream max delay s chunks ending [] =
    on_pulled max delay (pull s chunks ending) downloading
download_stream max delay s chunks ending (a ∷ answers) =
    on_pulled max delay (pull s chunks ending) (λ t.
      resumed (get_blob_stream (a t.bytes_received)) t
        (λ cs e. download_stream max delay t cs e answers))

abbrev pub empty_buffer : Option ℕ → Download
empty_buffer closes_after = record {
  sent = [];
  closes_after = closes_after;
  bytes_received = 0;
  retry_count = 0;
  delays = [];
}

unfoldable pub retry_download_loop : ℕ → ℕ → Option ℕ → Detected → List (ℕ → Answer) → BlobEnd
unfolding seed download_stream
retry_download_loop max delay closes_after d answers =
    seed (empty_buffer closes_after) d.initial_chunks
      (λ s. download_stream max delay s d.rest d.ending answers)
