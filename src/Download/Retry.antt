-- ===== src/Download/Retry.antt =====
-- Which errors of src/fls/download_error.rs are tried again, and how often.
use fls.Base.{
  ℕ, suc, ◌<◌, ◌≤◌, ◌≡◌, ◌≢◌, refl, ◌⊎◌, inl, inr, ◌↔◌, true, false, Bool-cases, Option, none, some,
  leb, arith,
}
use fls.Download.{
  http_client_error, http_server_error, http_rate_limited, tls_error, dns_error, connection_error,
  timeout_error, other, DownloadError, from_http_status, from_http_response, is_retryable,
  unwrap_or, suggested_retry_delay, handle_download_retry,
}

-- What the retry handler answers, by the test and the delay of the code
abbrev pub Handled : DownloadError → ℕ → ℕ → ℕ → Option ℕ × ℕ → Type 0
Handled e count max default (some delay, n) =
    (is_retryable e ≡ true)
    × (count < max)
    × (n ≡ suc count)
    × (delay ≡ unwrap_or (suggested_retry_delay e) default)
Handled e count max default (none, n) = (n ≡ count) × ((is_retryable e ≡ false) ⊎ (max ≤ count))

pub handle_download_retry-Handled :
    (e : DownloadError) (count max default : ℕ)
    → Handled e count max default (handle_download_retry e count max default)
unfolding handle_download_retry
handle_download_retry-Handled e count max default = elim (Bool-cases (is_retryable e)) [
  | inl again ↦ rw again (elim (Bool-cases (leb max count)) [
    | inl over ↦ rw over (refl, inr (ground arith))
    | inr under ↦ rw under (again, ground arith, omega arith, refl)
  ])
  | inr never ↦ rw never (refl, inl never)
]

-- The errors that another try does not help against: TLS, and the client's own, such as 404 and 403
abbrev pub IsFinal : DownloadError → Type 0
IsFinal (http_client_error code) = Unit
IsFinal (http_server_error code) = ⊥
IsFinal (http_rate_limited wait) = ⊥
IsFinal tls_error = Unit
IsFinal dns_error = ⊥
IsFinal connection_error = ⊥
IsFinal timeout_error = ⊥
IsFinal other = ⊥

pub is_retryable-IsFinal :
    (e : DownloadError)
    → ((is_retryable e ≡ true) × ¬ IsFinal e) ⊎ ((is_retryable e ≡ false) × IsFinal e)
unfolding is_retryable
is_retryable-IsFinal (http_client_error code) = inr (refl, tt)
is_retryable-IsFinal (http_server_error code) = inl (refl, λ x. x)
is_retryable-IsFinal (http_rate_limited wait) = inl (refl, λ x. x)
is_retryable-IsFinal tls_error = inr (refl, tt)
is_retryable-IsFinal dns_error = inl (refl, λ x. x)
is_retryable-IsFinal connection_error = inl (refl, λ x. x)
is_retryable-IsFinal timeout_error = inl (refl, λ x. x)
is_retryable-IsFinal other = inl (refl, λ x. x)

-- The seconds to wait
abbrev pub wait_for : DownloadError → ℕ → ℕ
wait_for (http_client_error code) configured = configured
wait_for (http_server_error code) configured = configured
wait_for (http_rate_limited (some asked)) configured = asked
wait_for (http_rate_limited none) configured = 60
wait_for tls_error configured = configured
wait_for dns_error configured = configured
wait_for connection_error configured = configured
wait_for timeout_error configured = configured
wait_for other configured = configured

-- Another try, after a delay and with a count; or none, and why.
abbrev pub RetryOf : DownloadError → ℕ → ℕ → ℕ → Option ℕ × ℕ → Type 0
RetryOf e count max configured (some delay, n) =
    (¬ IsFinal e) × (count < max) × (n ≡ suc count) × (delay ≡ wait_for e configured)
RetryOf e count max configured (none, n) = (n ≡ count) × (IsFinal e ⊎ (max ≤ count))

-- Of the statuses that a server answers with, all are tried again but the client errors, 400 to 499,
-- and of these 429 is.
from_http_response-is_retryable :
    (code : ℕ) (retry_after : Option ℕ)
    → (is_retryable (from_http_response code retry_after) ≡ false)
      ↔ ((400 ≤ code) × (code < 500) × (code ≢ 429))
unfolding from_http_response from_http_status is_retryable
from_http_response-is_retryable code retry_after = (λ e. ground arith, λ h. ground arith)
