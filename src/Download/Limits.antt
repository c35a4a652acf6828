-- ===== src/Download/Limits.antt =====
-- When the download loop of src/fls/from_url.rs gives up, and a server that does not resume.
use mathlib.Core.List.{flatten}
use fls.Base.{
  ℕ, suc, ◌+◌, ◌-◌, ◌<◌, ◌≤◌, ◌≡◌, refl, ap, ◌∙◌, ◌⊎◌, inl, inr, Bool, true, false, Option, none,
  some, List, [], ◌∷◌, ◌++◌, arith, Bytes, length, length-append, append-nil, leb,
}
use fls.Download.{
  DownloadError, stream_ended, stream_failed, Attempt, response, Started, stream, not_started,
  ending_error, start_download, Download, take_chunks, resume_from, Downloaded, finished, gave_up,
  on_started, handle_download_retry, download, is_retryable, retried,
}
use fls.Download.Retry.{IsFinal, is_retryable-IsFinal, Handled, handle_download_retry-Handled}
use fls.Download.Resume.{fresh}

-- A request that fails, or a stream that fails before its first byte
abbrev pub NoData : Started → DownloadError → Type 0
NoData (not_started x) e = x ≡ e
NoData (stream [] ending) e = ending_error ending ≡ some e
NoData (stream (chunk ∷ chunks) ending) e = ⊥

-- Attempts that fail without data, whatever offset is asked for, each with an error that may be tried
-- again, while the writer is there.
abbrev pub IsFailing : List Attempt → Type 0
IsFailing [] = Unit
IsFailing (a ∷ rest) =
    ((a.finished_before ≡ false)
      × (a.finished_after ≡ false)
      × ((o : Option ℕ)
          → (e : DownloadError) × NoData (start_download (a.answer o)) e × (¬ IsFinal e)))
    × IsFailing rest

-- The loop has given up with all retries used, and waited before each of them.
abbrev pub GaveUp : ℕ → Download → Downloaded → Type 0
GaveUp max s (gave_up e u) =
    (u.retry_count ≡ max)
    × (u.sent ≡ s.sent)
    × (length u.delays ≡ length s.delays + (max - s.retry_count))
GaveUp max s _ = ⊥

retried-GaveUp :
    (max delay : ℕ) (e : DownloadError) (s : Download) (next : Download → Downloaded)
    (r : Option ℕ × ℕ)
    → s.retry_count ≤ max
    → is_retryable e ≡ true
    → Handled e s.retry_count max delay r
    → ((u : Download)
        → u.retry_count ≡ suc s.retry_count
        → u.retry_count ≤ max
        → u.sent ≡ s.sent
        → length u.delays ≡ suc (length s.delays)
        → GaveUp max s (next u))
    → GaveUp max s (retried r e s next)
retried-GaveUp max delay e s next (some d, n) le again r k =
    k (record s { retry_count = n; delays = s.delays ++ d ∷ [] }) (omega (arith, r.2))
      (omega (arith, r.1, r.2)) refl (omega (arith, length-append s.delays (d ∷ [])))
retried-GaveUp max delay e s next (none, n) le again (same, why) k =
    (full why, refl, none_left (full why))
  where
    full : (is_retryable e ≡ false) ⊎ (max ≤ s.retry_count) → s.retry_count ≡ max
    full (inl never) = absurd (ground arith)
    full (inr over) = omega arith

    none_left : s.retry_count ≡ max → length s.delays ≡ length s.delays + (max - s.retry_count)
    none_left x = omega (arith, x)

GaveUp-step :
    (max : ℕ) (s u : Download) (r : Downloaded)
    → u.retry_count ≡ suc s.retry_count
    → u.retry_count ≤ max
    → u.sent ≡ s.sent
    → length u.delays ≡ suc (length s.delays)
    → GaveUp max u r
    → GaveUp max s r
GaveUp-step max s u (gave_up e v) one le same more (full, sent, waits) =
    (full, sent ∙ same, omega (arith, waits, more, one, le))
GaveUp-step max s u (finished v) one le same more g = g
GaveUp-step max s u (fls.Download.still_trying v) one le same more g = g
GaveUp-step max s u fls.Download.writer_terminated one le same more g = g

on_started-NoData :
    (gone : Bool) (max delay : ℕ) (s : Download) (o : Started) (next : Download → Downloaded)
    (e : DownloadError)
    → gone ≡ false
    → NoData o e
    → on_started gone max delay s o next
      ≡ retried (handle_download_retry e s.retry_count max delay) e s next
unfolding take_chunks
on_started-NoData gone max delay s (not_started x) next e here nothing = rw nothing refl
on_started-NoData gone max delay s (stream [] ending) next e here nothing = rw (here, nothing) refl
on_started-NoData gone max delay s (stream (chunk ∷ chunks) ending) next e here nothing =
    absurd nothing

retryable : (e : DownloadError) → ¬ IsFinal e → is_retryable e ≡ true
retryable e open_still = elim (is_retryable-IsFinal e) [
  | inl c ↦ c.0
  | inr c ↦ absurd (open_still c.1)
]

-- Where more attempts in a row than retries are left fail without data, in the request or in a
-- stream of no chunks, none with an error of TLS or of the client and all while the writer is there,
-- the loop gives up, after it has used and waited for each retry that was left, and nothing more is
-- sent: it neither tries for ever nor gives up early.
pub download-GaveUp :
    (attempts : List Attempt) (max delay : ℕ) (s : Download)
    → IsFailing attempts
    → s.retry_count ≤ max
    → max - s.retry_count < length attempts
    → GaveUp max s (download max delay s attempts)
unfolding download
download-GaveUp [] max delay s failing le many = absurd (omega arith)
download-GaveUp (a ∷ rest) max delay s failing le many =
    let (e, nothing, again) = failing.0.2 (resume_from s) in
    rw
      (
        failing.0.0,
        on_started-NoData a.finished_after max delay s (start_download (a.answer (resume_from s)))
            (λ t. download max delay t rest) e failing.0.1 nothing,
      )
      (retried-GaveUp max delay e s (λ t. download max delay t rest)
        (handle_download_retry e s.retry_count max delay) le (retryable e again)
        (handle_download_retry-Handled e s.retry_count max delay)
        (λ u one le' same more.
          GaveUp-step max s u (download max delay u rest) one le' same more
            (download-GaveUp rest max delay u failing.1 le' (omega arith))))

abbrev pub attempt : List Bytes → fls.Download.Ending → Attempt
attempt chunks ending = record {
  finished_before = false;
  finished_after = false;
  answer = λ _. response 200 none chunks ending;
}

-- A server that answers every request with status 200 and the whole file, whatever range is asked
-- for: when the connection breaks after some bytes, the second answer is taken for the rest, and
-- the download finishes with those bytes and then the whole file.
pub download_ignored_range :
    (part file : Bytes) (e : DownloadError) (max delay : ℕ)
    → is_retryable e ≡ true
    → 0 < max
    → (s : Download) × (download max delay
          (fresh none)
          (attempt (part ∷ []) (stream_failed e) ∷ attempt (file ∷ []) stream_ended ∷ [])
        ≡ finished s)
      × (flatten s.sent ≡ part ++ file)
unfolding download start_download take_chunks flatten handle_download_retry
download_ignored_range part file e max delay again some_retry =
    let left : leb max 0 ≡ false = ground arith in
    rw (again, left) (_, refl, ap (λ t. part ++ t) (append-nil file))
