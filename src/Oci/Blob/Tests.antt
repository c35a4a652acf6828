-- ===== src/Oci/Blob/Tests.antt =====
-- Runs of the models of the download of a blob in src/fls/oci/from_oci.rs.
use mathlib.Core.List.{flatten}
use mathlib.Core.Path.{subst}
use fls.Base.{
  take, sym, ◌∙◌, append-nil, ℕ, ◌≡◌, refl, inl, inr, Bool, true, none, [], ◌∷◌, ◌++◌, drop, Bytes,
  arith,
}
use fls.Download.{
  Answer, response, stream_ended, stream_failed, other, timeout_error, from_http_status,
  is_retryable, handle_download_retry,
}
use fls.Magic.{Compression, no_compression, detect_compression}
use fls.Oci.Blob.{
  Detected, get_blob_stream, fetch_blob_with_detection, retry_download_loop, fetched,
}
use fls.Oci.Blob.Start.{FetchOf, fetch_blob_with_detection-FetchOf}
use fls.Oci.Blob.Arrives.{BlobArrives, IsStart, HonoursRanges, retry_download_loop-BlobArrives}
use fls.Oci.Blob.Pipeline.{Conditions, delivered, stream_blob_to_file}
use fls.Oci.Blob.Pipeline.Streamed.{AllStream, StreamsBlob}
use fls.Oci.Blob.Pipeline.File.{
  FileOf, stream_blob_to_file-FileOf, Refuses, breaking, stream_blob_to_file-delivered,
}

abbrev blob : Bytes
blob = 1 ∷ 2 ∷ 3 ∷ 4 ∷ 5 ∷ 6 ∷ 7 ∷ 8 ∷ 9 ∷ []

abbrev first_answer : Answer
first_answer =
    response 200 none ((1 ∷ 2 ∷ 3 ∷ []) ∷ (4 ∷ 5 ∷ 6 ∷ 7 ∷ []) ∷ []) (stream_failed other)

abbrev busy : Answer
busy = response 503 none [] stream_ended

abbrev resume : ℕ → Answer
resume k = response 206 none (drop k blob ∷ []) stream_ended

fetch_blob_with_detection-FetchOf_example :
    FetchOf 3 0
      (busy ∷ first_answer ∷ [])
      (fetch_blob_with_detection 3 1 0 (busy ∷ first_answer ∷ []))
fetch_blob_with_detection-FetchOf_example =
    fetch_blob_with_detection-FetchOf 3 1 0 (busy ∷ first_answer ∷ [])

abbrev begun : Detected
begun = record {
  initial_chunks = (1 ∷ 2 ∷ 3 ∷ []) ∷ (4 ∷ 5 ∷ 6 ∷ 7 ∷ []) ∷ [];
  rest = [];
  ending = stream_failed other;
  compression = no_compression;
}

begun_after_retry : fetch_blob_with_detection 3 1 0 (busy ∷ first_answer ∷ []) ≡ fetched begun
unfolding fetch_blob_with_detection handle_download_retry from_http_status detect_compression
begun_after_retry = refl

begun-IsStart : IsStart blob begun
unfolding flatten
begun-IsStart = record { left = 8 ∷ 9 ∷ []; part = refl; whole = λ e. absurd (ground (arith, e)) }

resume-HonoursRanges : HonoursRanges blob (resume ∷ [])
unfolding get_blob_stream flatten
resume-HonoursRanges =
    (λ k e. ([], append-nil (drop k blob ++ []) ∙ append-nil (drop k blob), λ e. refl), tt)

retry_download_loop-BlobArrives_example :
    BlobArrives blob 3 (retry_download_loop 3 1 none begun (resume ∷ []))
retry_download_loop-BlobArrives_example =
    retry_download_loop-BlobArrives blob 3 1 none begun (resume ∷ []) (omega arith) begun-IsStart
      resume-HonoursRanges

abbrev cat : Compression → Bytes → Bytes × Bool
cat kind bytes = (bytes, true)

abbrev resuming : Conditions
resuming = record {
  max_retries = 3;
  retry_delay_secs = 1;
  starts = busy ∷ first_answer ∷ [];
  resumes = resume ∷ [];
  closes_after = none;
  fed_well = true;
  file_written = true;
}

resuming-AllStream : AllStream blob (busy ∷ first_answer ∷ [])
unfolding get_blob_stream flatten
resuming-AllStream a (inl e) = subst (λ b. StreamsBlob blob (get_blob_stream b)) (sym e) tt
resuming-AllStream a (inr (inl e)) =
    subst (λ b. StreamsBlob blob (get_blob_stream b)) (sym e)
      (8 ∷ 9 ∷ [], refl, λ x. absurd (ground (arith, x)))
resuming-AllStream a (inr (inr z)) = absurd z

stream_blob_to_file-FileOf_example : FileOf blob cat resuming (stream_blob_to_file cat resuming)
stream_blob_to_file-FileOf_example =
    stream_blob_to_file-FileOf blob cat resuming (omega arith) resuming-AllStream
      resume-HonoursRanges

resumed_whole : stream_blob_to_file cat resuming ≡ delivered blob
unfolding stream_blob_to_file handle_download_retry flatten from_http_status detect_compression
resumed_whole = refl

-- a registry that answers with the whole blob again
abbrev whole_again : ℕ → Answer
whole_again k = response 200 none (blob ∷ []) stream_ended

whole_again-Refuses : Refuses (get_blob_stream (whole_again 7))
unfolding get_blob_stream
whole_again-Refuses = λ e. ground (arith, e)

stream_blob_to_file-delivered_example :
    stream_blob_to_file cat (breaking (take 7 blob) timeout_error whole_again 3 1)
    ≡ delivered (cat (detect_compression (take 7 blob)) (take 7 blob)).0
unfolding is_retryable
stream_blob_to_file-delivered_example =
    stream_blob_to_file-delivered (take 7 blob) timeout_error whole_again 3 1 cat (omega arith) refl
      (omega arith) whole_again-Refuses
