-- ===== src/Download/Tests.antt =====
-- Runs of the download loop of src/fls/from_url.rs.
use mathlib.Core.List.{flatten}
use fls.Base.{
  ap, ◌∙◌, append-nil, take, take-append-drop, true, ℕ, ◌≡◌, refl, ◌++◌, List, [], ◌∷◌, none, arith,
  Bytes, false, drop,
}
use fls.Download.{
  timed_out, take_chunks, handle_download_retry, timeout_error, connection_error, Attempt, Download,
  response, request_failed, stream_ended, stream_failed, start_download, finished, download,
  unwrap_or, is_retryable,
}
use fls.Download.Resume.{Honours, Arrives, fresh, download-Arrives}
use fls.Download.Limits.{IsFailing, GaveUp, attempt, download-GaveUp, download_ignored_range}

abbrev some_file : Bytes
some_file = 1 ∷ 2 ∷ 3 ∷ 4 ∷ []

-- a connection that breaks after two bytes, a time without a server, and the rest
abbrev broken_attempts : List Attempt
broken_attempts =
    record {
      finished_before = false;
      finished_after = false;
      answer = λ o.
          response 206 none (take 2 (drop (unwrap_or o 0) some_file) ∷ [])
            (stream_failed connection_error);
    }
    ∷ record {
      finished_before = false;
      finished_after = false;
      answer = λ o. request_failed timeout_error;
    }
    ∷ record {
      finished_before = false;
      finished_after = false;
      answer = λ o. response 206 none (drop (unwrap_or o 0) some_file ∷ []) stream_ended;
    }
    ∷ []

broken_attempts-Honours : Honours some_file broken_attempts
unfolding start_download flatten
broken_attempts-Honours = (
  λ o. (
    drop 2 (drop (unwrap_or o 0) some_file),
    ap (λ t. t ++ drop 2 (drop (unwrap_or o 0) some_file))
          (append-nil (take 2 (drop (unwrap_or o 0) some_file)))
        ∙ take-append-drop 2 (drop (unwrap_or o 0) some_file),
    λ x. absurd (ground arith),
  ),
  (
    (λ o. tt),
    (
      (λ o. (
        [],
        append-nil (drop (unwrap_or o 0) some_file ++ [])
            ∙ append-nil (drop (unwrap_or o 0) some_file),
        λ x. refl,
      )),
      tt,
    ),
  ),
)

download-Arrives_example : Arrives some_file 3 (download 3 5 (fresh none) broken_attempts)
download-Arrives_example =
    download-Arrives some_file broken_attempts 3 5 none (omega arith) broken_attempts-Honours

-- the delays and the chunks of that download
broken_download :
    download 3 5 (fresh none) broken_attempts
    ≡ finished (record {
      sent = (1 ∷ 2 ∷ []) ∷ (3 ∷ 4 ∷ []) ∷ [];
      closes_after = none;
      bytes_received = 4;
      retry_count = 0;
      delays = 5 ∷ 5 ∷ [];
    })
unfolding download start_download take_chunks handle_download_retry
broken_download = refl

abbrev failing_attempt : Attempt
failing_attempt = record {
  finished_before = false;
  finished_after = false;
  answer = λ o. request_failed timeout_error;
}

abbrev empty_attempt : Attempt
empty_attempt = record {
  finished_before = false;
  finished_after = false;
  answer = λ o. response 206 none [] timed_out;
}

no_data-IsFailing : IsFailing (failing_attempt ∷ empty_attempt ∷ [])
unfolding start_download
no_data-IsFailing = (
  (refl, refl, λ o. (timeout_error, refl, λ x. x)),
  ((refl, refl, λ o. (timeout_error, refl, λ x. x)), tt),
)

download-GaveUp_example :
    GaveUp 1 (fresh none) (download 1 5 (fresh none) (failing_attempt ∷ empty_attempt ∷ []))
download-GaveUp_example =
    download-GaveUp (failing_attempt ∷ empty_attempt ∷ []) 1 5 (fresh none) no_data-IsFailing
      (omega arith) (omega arith)

timeout_error-is_retryable : is_retryable timeout_error ≡ true
unfolding is_retryable
timeout_error-is_retryable = refl

download_ignored_range_example :
    (s : Download) × (download 3 5 (fresh none) (
        attempt ((1 ∷ 2 ∷ []) ∷ []) (stream_failed timeout_error)
        ∷ attempt (some_file ∷ []) stream_ended
        ∷ [])
      ≡ finished s)
    × (flatten s.sent ≡ (1 ∷ 2 ∷ []) ++ some_file)
download_ignored_range_example =
    download_ignored_range (1 ∷ 2 ∷ []) some_file timeout_error 3 5 timeout_error-is_retryable
      (omega arith)

abbrev not_found : ℕ
not_found = 404

abbrev rate_limit : ℕ
rate_limit = 429
