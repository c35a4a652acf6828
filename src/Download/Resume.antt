-- ===== src/Download/Resume.antt =====
-- Broken downloads that are resumed, in src/fls/from_url.rs: what arrives is the file.
use mathlib.Core.List.{flatten}
use mathlib.Core.Path.{subst}
use fls.Base.{
  ℕ, zero, suc, ◌<◌, ◌≤◌, ◌≡◌, refl, ap, ◌∙◌, sym, ◌⊎◌, inl, inr, Bool, true, false, Option, none,
  some, List, [], ◌∷◌, ◌++◌, arith, Bytes, length, drop, drop-length, append_assoc, append-nil,
  length-append, ltb, Bool-cases, u64_mod,
}
use fls.Download.{
  DownloadError, Ending, stream_ended, timed_out, stream_failed, Attempt, Started, stream,
  not_started, start_download, Download, accepted, ending_error, after_send, send_chunk_if,
  take_chunks, resume_from, Downloaded, finished, still_trying, gave_up, writer_terminated,
  after_stream, on_started, handle_download_retry, download, is_retryable, retried, unwrap_or,
}
use fls.Download.Retry.{Handled, handle_download_retry-Handled}

pub flatten-snoc : (xs : List Bytes) (c : Bytes) → flatten (xs ++ c ∷ []) ≡ flatten xs ++ c
unfolding flatten
flatten-snoc [] c = append-nil c
flatten-snoc (x ∷ xs) c = ap (λ t. x ++ t) (flatten-snoc xs c) ∙ sym (append_assoc x (flatten xs) c)

-- A server that keeps to the range that it is asked for: what it streams is the file from there, and
-- all the rest of it where the stream ends without an error.
abbrev pub HonoursAt : Bytes → ℕ → Started → Type 0
HonoursAt file k (not_started e) = Unit
HonoursAt file k (stream chunks ending) =
    (rest : Bytes) × (flatten chunks ++ rest ≡ drop k file) × (ending ≡ stream_ended → rest ≡ [])

abbrev pub Honours : Bytes → List Attempt → Type 0
Honours file [] = Unit
Honours file (a ∷ rest) =
    ((o : Option ℕ) → HonoursAt file (unwrap_or o 0) (start_download (a.answer o)))
    × Honours file rest

module _ (file : Bytes) (max : ℕ) where
  -- What is in the channel, and what is left of the file.
  pub record OnTrack (s : Download) (rest : Bytes) : Type 0 where
    pub is_prefix : flatten s.sent ++ rest ≡ file
    pub received : s.bytes_received ≡ length (flatten s.sent)
    pub retries : s.retry_count ≤ max

  pub accepted-OnTrack :
      (s : Download) (chunk rest : Bytes) (closes : Option ℕ)
      → length file < u64_mod
      → OnTrack s (chunk ++ rest)
      → OnTrack (accepted s chunk closes) rest
  accepted-OnTrack s chunk rest closes small t = record {
    is_prefix =
        ap (λ b. b ++ rest) (flatten-snoc s.sent chunk)
        ∙ append_assoc (flatten s.sent) chunk rest
        ∙ t.is_prefix;
    received = omega (
      arith,
      t.received,
      ap length (flatten-snoc s.sent chunk),
      length-append (flatten s.sent) chunk,
      ap length t.is_prefix,
      length-append (flatten s.sent) (chunk ++ rest),
      length-append chunk rest,
      small,
    );
    retries = omega arith;
  }

  -- After a stream: still on track, and at its rest where it ended well.
  abbrev Took : Ending → Bytes → Download × Option DownloadError → Type 0
  Took ending rest (s, none) = (ending ≡ stream_ended) × OnTrack s rest
  Took ending rest (s, some e) = (left : Bytes) × OnTrack s left

  ended-Took :
      (s : Download) (ending : Ending) (rest : Bytes)
      → OnTrack s rest
      → Took ending rest (s, ending_error ending)
  ended-Took s stream_ended rest t = (refl, t)
  ended-Took s timed_out rest t = (rest, t)
  ended-Took s (stream_failed e) rest t = (rest, t)

  sent-Took :
      (closes : Option ℕ) (s : Download) (chunk : Bytes) (ending : Ending) (more rest : Bytes)
      (next : Download → Download × Option DownloadError)
      → length file < u64_mod
      → OnTrack s (chunk ++ more)
      → ((u : Download) → OnTrack u more → Took ending rest (next u))
      → Took ending rest (after_send (send_chunk_if closes s chunk) s next)
  sent-Took none s chunk ending more rest next small t k =
      k (accepted s chunk none) (accepted-OnTrack s chunk more none small t)
  sent-Took (some zero) s chunk ending more rest next small t k = (_, t)
  sent-Took (some (suc n)) s chunk ending more rest next small t k =
      k (accepted s chunk (some n)) (accepted-OnTrack s chunk more (some n) small t)

  take_chunks-Took :
      (chunks : List Bytes) (s : Download) (ending : Ending) (rest : Bytes)
      → length file < u64_mod
      → OnTrack s (flatten chunks ++ rest)
      → Took ending rest (take_chunks s chunks ending)
  unfolding take_chunks flatten
  take_chunks-Took [] s ending rest small t = ended-Took s ending rest t
  take_chunks-Took (chunk ∷ chunks) s ending rest small t =
      sent-Took s.closes_after s chunk ending (flatten chunks ++ rest) rest _ small
        (subst (OnTrack s) (append_assoc chunk (flatten chunks) rest) t)
        (λ u tu. take_chunks-Took chunks u ending rest small tu)

  -- What the loop comes to.
  abbrev pub Arrives : Downloaded → Type 0
  Arrives (finished s) = flatten s.sent ≡ file
  Arrives (still_trying s) = (left : Bytes) × OnTrack s left
  Arrives (gave_up e s) =
      ((left : Bytes) × OnTrack s left) × ((is_retryable e ≡ false) ⊎ (s.retry_count ≡ max))
  Arrives writer_terminated = Unit

  retried-Arrives :
      (delay : ℕ) (e : DownloadError) (s : Download) (left : Bytes) (next : Download → Downloaded)
      → OnTrack s left
      → ((u : Download) (left : Bytes) → OnTrack u left → Arrives (next u))
      → Arrives (retried (handle_download_retry e s.retry_count max delay) e s next)
  retried-Arrives delay e s left next t k =
      by (handle_download_retry e s.retry_count max delay)
        (handle_download_retry-Handled e s.retry_count max delay)
    where
      by : (r : Option ℕ × ℕ) → Handled e s.retry_count max delay r → Arrives (retried r e s next)
      by (some d, n) r = k _ left (record {
        is_prefix = t.is_prefix;
        received = t.received;
        retries = omega (arith, r.1, r.2);
      })
      by (none, n) r = ((left, t), why r.1)
        where
          why :
              (is_retryable e ≡ false) ⊎ (max ≤ s.retry_count)
              → (is_retryable e ≡ false) ⊎ (s.retry_count ≡ max)
          why (inl x) = inl x
          why (inr x) = inr (omega (arith, t.retries))

  after_stream-Arrives :
      (gone : Bool) (delay : ℕ) (ending : Ending) (rest : Bytes)
      (r : Download × Option DownloadError) (next : Download → Downloaded)
      → (ending ≡ stream_ended → rest ≡ [])
      → Took ending rest r
      → ((u : Download) (left : Bytes) → OnTrack u left → Arrives (next u))
      → Arrives (after_stream gone max delay r next)
  after_stream-Arrives gone delay ending rest (s, none) next whole t k =
      sym (append-nil (flatten s.sent))
      ∙ ap (λ b. flatten s.sent ++ b) (sym (whole t.0))
      ∙ t.1.is_prefix
  after_stream-Arrives true delay ending rest (s, some e) next whole t k = tt
  after_stream-Arrives false delay ending rest (s, some e) next whole t k =
      retried-Arrives delay e s t.0 next t.1 k

  on_started-Arrives :
      (gone : Bool) (delay : ℕ) (s : Download) (left : Bytes) (r : Started)
      (next : Download → Downloaded)
      → length file < u64_mod
      → OnTrack s left
      → HonoursAt file (length (flatten s.sent)) r
      → ((u : Download) (left : Bytes) → OnTrack u left → Arrives (next u))
      → Arrives (on_started gone max delay s r next)
  on_started-Arrives gone delay s left (not_started e) next small t h k =
      retried-Arrives delay e s left next t k
  on_started-Arrives gone delay s left (stream chunks ending) next small t (rest, range, whole) k =
      after_stream-Arrives gone delay ending rest (take_chunks s chunks ending) next whole
        (take_chunks-Took chunks s ending rest small (record {
          is_prefix =
              ap (λ b. flatten s.sent ++ b)
                (range
                  ∙ ap (drop (length (flatten s.sent))) (sym t.is_prefix)
                  ∙ drop-length (flatten s.sent) left)
              ∙ t.is_prefix;
          received = t.received;
          retries = t.retries;
        }))
        k

  resume_at :
      (s : Download) (left : Bytes)
      → OnTrack s left
      → unwrap_or (resume_from s) 0 ≡ length (flatten s.sent)
  resume_at s left t = elim (Bool-cases (ltb 0 s.bytes_received)) [
    | inl some_bytes ↦ rw some_bytes t.received
    | inr no_bytes ↦ rw no_bytes (ground (arith, t.received))
  ]

  pub download-OnTrack :
      (attempts : List Attempt) (delay : ℕ) (s : Download) (left : Bytes)
      → length file < u64_mod
      → Honours file attempts
      → OnTrack s left
      → Arrives (download max delay s attempts)
  unfolding download
  download-OnTrack [] delay s left small h t = (left, t)
  download-OnTrack (a ∷ rest) delay s left small h t = elim (Bool-cases a.finished_before) [
    | inl gone ↦ rw gone tt
    | inr here ↦ rw here (
        on_started-Arrives a.finished_after delay s left (start_download (a.answer (resume_from s)))
          _ small t
          (subst (λ k. HonoursAt file k (start_download (a.answer (resume_from s))))
            (resume_at s left t) (h.0 (resume_from s)))
          (λ u more tu. download-OnTrack rest delay u more small h.1 tu))
  ]

abbrev pub fresh : Option ℕ → Download
fresh closes_after = record {
  sent = [];
  closes_after = closes_after;
  bytes_received = 0;
  retry_count = 0;
  delays = [];
}

-- A download of a file of less than 2 ^ 64 bytes, however often the connection breaks, requests fail
-- or the buffer's channel closes, from a server whose streams keep to the range that is asked for and
-- end without an error only at the end of the file: when it finishes, the chunks in the channel are
-- the file, each byte once and in order. Where it gives up, or is still trying, they are a beginning
-- of the file, and it gives up only on an error that is not retryable or after all of the retries.
pub download-Arrives :
    (file : Bytes) (attempts : List Attempt) (max delay : ℕ) (closes_after : Option ℕ)
    → length file < u64_mod
    → Honours file attempts
    → Arrives file max (download max delay (fresh closes_after) attempts)
unfolding flatten
download-Arrives file attempts max delay closes_after small h =
    download-OnTrack file max attempts delay (fresh closes_after) file small h
      (record { is_prefix = refl; received = refl; retries = omega arith })
