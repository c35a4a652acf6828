-- ===== src/Download.antt =====
-- The download loop of `flash_from_url` in src/fls/from_url.rs, with `start_download` of
-- src/fls/http.rs and the errors and retries of src/fls/download_error.rs. The server and the clock
-- are a list of attempts: what each answers to the offset that it is asked for. Texts are left out.
pub mod Retry
pub mod Resume
pub mod Limits
pub mod Tests
use fls.Base.{
  ℕ, zero, suc, ◌+◌, ◌%◌, Bool, true, false, not, ◌&&◌, List, [], ◌∷◌, ◌++◌, Option, none, some,
  ltb, leb, ◌==◌, if◌then◌else◌, length, Bytes, u64_mod,
}

pub data DownloadError : Type 0 where
  http_client_error http_server_error : ℕ → DownloadError
  http_rate_limited : Option ℕ → DownloadError
  tls_error dns_error connection_error timeout_error other : DownloadError

unfoldable pub from_http_status : ℕ → DownloadError
from_http_status code =
    if code == 429
    then http_rate_limited none
    else if leb 400 code && ltb code 500
    then http_client_error code
    else http_server_error code

-- `retry_after` is the header of that name, where it is a number.
unfoldable pub from_http_response : ℕ → Option ℕ → DownloadError
unfolding from_http_status
from_http_response code retry_after =
    if code == 429 then http_rate_limited retry_after else from_http_status code

unfoldable pub is_retryable : DownloadError → Bool
is_retryable (http_client_error _) = false
is_retryable tls_error = false
is_retryable (http_server_error _) = true
is_retryable (http_rate_limited _) = true
is_retryable dns_error = true
is_retryable connection_error = true
is_retryable timeout_error = true
is_retryable other = true

abbrev pub unwrap_or : Option ℕ → ℕ → ℕ
unwrap_or none d = d
unwrap_or (some a) d = a

unfoldable pub suggested_retry_delay : DownloadError → Option ℕ
suggested_retry_delay (http_rate_limited retry_after_secs) = some (unwrap_or retry_after_secs 60)
suggested_retry_delay _ = none

-- The delay in seconds, and the retry count that is left.
unfoldable pub handle_download_retry : DownloadError → ℕ → ℕ → ℕ → Option ℕ × ℕ
unfolding is_retryable suggested_retry_delay
handle_download_retry error retry_count max_retries default_secs =
    if not (is_retryable error)
    then (none, retry_count)
    else if leb max_retries retry_count
    then (none, retry_count)
    else (some (unwrap_or (suggested_retry_delay error) default_secs), retry_count + 1)

-- How a stream of chunks ends.
pub data Ending : Type 0 where
  stream_ended timed_out : Ending
  stream_failed : DownloadError → Ending

-- What a request comes to: an error of the client, or a status, a Retry-After, and the chunks.
pub data Answer : Type 0 where
  request_failed : DownloadError → Answer
  response : ℕ → Option ℕ → List Bytes → Ending → Answer

-- One round of the loop: whether the writer has finished at its start and after its stream, and
-- what is answered to an offset.
pub record Attempt : Type 0 where
  pub finished_before : Bool
  pub finished_after : Bool
  pub answer : Option ℕ → Answer

-- `start_download`: any success is taken, whatever was asked for.
pub data Started : Type 0 where
  stream : List Bytes → Ending → Started
  not_started : DownloadError → Started

unfoldable pub start_download : Answer → Started
unfolding from_http_response
start_download (request_failed e) = not_started e
start_download (response status retry_after chunks ending) =
    if not (leb 200 status && ltb status 300) && not (status == 206)
    then not_started (from_http_response status retry_after)
    else stream chunks ending

-- The variables of the loop: what is in the buffer's channel and how many sends succeed before its
-- receiver is gone, if it goes; the bytes received; the retries since the last data; the delays.
pub record Download : Type 0 where
  pub sent : List Bytes
  pub closes_after : Option ℕ
  pub bytes_received : ℕ
  pub retry_count : ℕ
  pub delays : List ℕ

abbrev pub accepted : Download → Bytes → Option ℕ → Download
accepted s chunk closes_after = record s {
  sent = s.sent ++ chunk ∷ [];
  closes_after = closes_after;
  bytes_received = (s.bytes_received + length chunk) % u64_mod;
  retry_count = 0;
}

abbrev pub ending_error : Ending → Option DownloadError
ending_error stream_ended = none
ending_error timed_out = some timeout_error
ending_error (stream_failed e) = some e

-- A chunk for the channel: the state after it, or none if the channel is closed.
abbrev pub send_chunk_if : Option ℕ → Download → Bytes → Option Download
send_chunk_if none s chunk = some (accepted s chunk none)
send_chunk_if (some zero) s chunk = none
send_chunk_if (some (suc n)) s chunk = some (accepted s chunk (some n))

abbrev pub after_send :
    Option Download
    → Download
    → (Download → Download × Option DownloadError)
    → Download × Option DownloadError
after_send none s next = (s, some other)
after_send (some t) s next = next t

-- The inner loop: the state, and `connection_error` where the connection broke.
unfoldable pub take_chunks : Download → List Bytes → Ending → Download × Option DownloadError
take_chunks s [] ending = (s, ending_error ending)
take_chunks s (chunk ∷ chunks) ending =
    after_send (send_chunk_if s.closes_after s chunk) s (λ t. take_chunks t chunks ending)

abbrev pub resume_from : Download → Option ℕ
resume_from s = if ltb 0 s.bytes_received then some s.bytes_received else none

-- `still_trying` is an end of the model's attempts.
pub data Downloaded : Type 0 where
  finished still_trying : Download → Downloaded
  gave_up : DownloadError → Download → Downloaded
  writer_terminated : Downloaded

abbrev pub retried : Option ℕ × ℕ → DownloadError → Download → (Download → Downloaded) → Downloaded
retried (none, n) e s next = gave_up e s
retried (some delay, n) e s next =
    next (record s { retry_count = n; delays = s.delays ++ delay ∷ [] })

-- After the stream of an attempt
abbrev pub after_stream :
    Bool → ℕ → ℕ → Download × Option DownloadError → (Download → Downloaded) → Downloaded
after_stream gone max_retries delay (s, none) next = finished s
after_stream true max_retries delay (s, some e) next = writer_terminated
after_stream false max_retries delay (s, some e) next =
    retried (handle_download_retry e s.retry_count max_retries delay) e s next

abbrev pub on_started : Bool → ℕ → ℕ → Download → Started → (Download → Downloaded) → Downloaded
on_started gone max_retries delay s (not_started e) next =
    retried (handle_download_retry e s.retry_count max_retries delay) e s next
on_started gone max_retries delay s (stream chunks ending) next =
    after_stream gone max_retries delay (take_chunks s chunks ending) next

unfoldable pub download : ℕ → ℕ → Download → List Attempt → Downloaded
download max_retries delay s [] = still_trying s
download max_retries delay s (a ∷ rest) = elim a.finished_before [
  | true ↦ writer_terminated
  | false ↦
      on_started a.finished_after max_retries delay s (start_download (a.answer (resume_from s)))
        (λ t. download max_retries delay t rest)
]
