-- ===== src/Oci/Blob/Arrives.antt =====
-- What `retry_download_loop` of src/fls/oci/from_oci.rs sends of a blob.
use mathlib.Core.List.{flatten}
use mathlib.Core.Path.{subst}
use fls.Base.{
  ℕ, zero, suc, ◌<◌, ◌≡◌, ◌≢◌, refl, ap, ◌∙◌, sym, ◌⊎◌, inl, inr, false, Option, none, some, List,
  [], ◌∷◌, ◌++◌, arith, Bytes, length, drop, drop-length, append_assoc, append-nil, Bool-cases,
  u64_mod, ◌==◌,
}
use fls.Download.{
  Ending, stream_ended, timed_out, stream_failed, Answer, is_retryable, handle_download_retry,
  Download, accepted,
}
use fls.Download.Retry.{Handled, handle_download_retry-Handled}
use fls.Download.Resume.{OnTrack, accepted-OnTrack}
use fls.Oci.Blob.{
  Opened, opened, not_opened, get_blob_stream, Detected, BlobEnd, completed, consumer_done,
  downloading, retries_failed, resume_failed, range_refused, counted, seed, Pulled, pulled,
  consumer_gone, broke, pulled_ending, pull, resumed, retried_blob, on_pulled, download_stream,
  empty_buffer, retry_download_loop,
}

module _ (blob : Bytes) where
  -- A registry whose answers with status 206 keep to the range that was asked for: they stream the
  -- blob from there, and all the rest of it where the stream ends without an error.
  abbrev pub HonoursRange : ℕ → Opened → Type 0
  HonoursRange k (not_opened e) = Unit
  HonoursRange k (opened status chunks ending) =
      status ≡ 206
      → (rest : Bytes) × (flatten chunks ++ rest ≡ drop k blob)
        × (ending ≡ stream_ended → rest ≡ [])

  abbrev pub HonoursRanges : List (ℕ → Answer) → Type 0
  HonoursRanges [] = Unit
  HonoursRanges (a ∷ answers) =
      ((k : ℕ) → HonoursRange k (get_blob_stream (a k))) × HonoursRanges answers

  -- A beginning of the blob was sent.
  abbrev pub IsPart : Download → Type 0
  IsPart s = (left : Bytes) × (flatten s.sent ++ left ≡ blob)

module _ (blob : Bytes) (max : ℕ) where
  abbrev pub BlobArrives : BlobEnd → Type 0
  BlobArrives (completed s) = flatten s.sent ≡ blob
  BlobArrives (consumer_done s) = IsPart blob s
  BlobArrives (downloading s) = IsPart blob s
  BlobArrives (retries_failed e s) =
      IsPart blob s × ((is_retryable e ≡ false) ⊎ (s.retry_count ≡ max))
  BlobArrives (resume_failed e s) = IsPart blob s
  BlobArrives (range_refused status s) = IsPart blob s × (status ≢ 206)

  seeded-OnTrack :
      (s : Download) (chunk rest : Bytes) (closes : Option ℕ)
      → length blob < u64_mod
      → OnTrack blob max s (chunk ++ rest)
      → OnTrack blob max (record (accepted s chunk closes) { retry_count = s.retry_count }) rest
  seeded-OnTrack s chunk rest closes small t =
      let a = accepted-OnTrack blob max s chunk rest closes small t in
      record { is_prefix = a.is_prefix; received = a.received; retries = t.retries }

  seed-BlobArrives :
      (chunks : List Bytes) (s : Download) (rest : Bytes) (next : Download → BlobEnd)
      → length blob < u64_mod
      → OnTrack blob max s (flatten chunks ++ rest)
      → ((u : Download) → OnTrack blob max u rest → BlobArrives (next u))
      → BlobArrives (seed s chunks next)
  unfolding seed flatten
  seed-BlobArrives [] s rest next small t k = k s t
  seed-BlobArrives (chunk ∷ chunks) s rest next small t k =
      by s.closes_after (λ u tu. seed-BlobArrives chunks u rest next small tu k)
        (subst (OnTrack blob max s) (append_assoc chunk (flatten chunks) rest) t)
    where
      by :
          (o : Option ℕ)
          → ((u : Download)
              → OnTrack blob max u (flatten chunks ++ rest)
              → BlobArrives (seed u chunks next))
          → OnTrack blob max s (chunk ++ (flatten chunks ++ rest))
          → BlobArrives (elim o [
            | none ↦
                seed (record (accepted s chunk none) { retry_count = s.retry_count }) chunks next
            | some zero ↦ consumer_done (counted s chunk)
            | some (suc n) ↦
                seed
                  (record (accepted s chunk (some n)) { retry_count = s.retry_count })
                  chunks
                  next
          ])
      by none more t = more _ (seeded-OnTrack s chunk (flatten chunks ++ rest) none small t)
      by (some zero) more t = (_, t.is_prefix)
      by (some (suc n)) more t =
          more _ (seeded-OnTrack s chunk (flatten chunks ++ rest) (some n) small t)

  -- After a stream
  abbrev PulledTo : Ending → Bytes → Pulled → Type 0
  PulledTo ending rest (pulled s) = (ending ≡ stream_ended) × OnTrack blob max s rest
  PulledTo ending rest (consumer_gone s) = IsPart blob s
  PulledTo ending rest (broke e s) = (left : Bytes) × OnTrack blob max s left

  pulled_ending-PulledTo :
      (ending : Ending) (s : Download) (rest : Bytes)
      → OnTrack blob max s rest
      → PulledTo ending rest (pulled_ending ending s)
  pulled_ending-PulledTo stream_ended s rest t = (refl, t)
  pulled_ending-PulledTo timed_out s rest t = (rest, t)
  pulled_ending-PulledTo (stream_failed e) s rest t = (rest, t)

  pull-PulledTo :
      (chunks : List Bytes) (s : Download) (ending : Ending) (rest : Bytes)
      → length blob < u64_mod
      → OnTrack blob max s (flatten chunks ++ rest)
      → PulledTo ending rest (pull s chunks ending)
  unfolding pull flatten
  pull-PulledTo [] s ending rest small t = pulled_ending-PulledTo ending s rest t
  pull-PulledTo (chunk ∷ chunks) s ending rest small t =
      by s.closes_after (λ u tu. pull-PulledTo chunks u ending rest small tu)
        (subst (OnTrack blob max s) (append_assoc chunk (flatten chunks) rest) t)
    where
      by :
          (o : Option ℕ)
          → ((u : Download)
              → OnTrack blob max u (flatten chunks ++ rest)
              → PulledTo ending rest (pull u chunks ending))
          → OnTrack blob max s (chunk ++ (flatten chunks ++ rest))
          → PulledTo ending rest (elim o [
            | none ↦ pull (accepted s chunk none) chunks ending
            | some zero ↦ consumer_gone s
            | some (suc n) ↦ pull (accepted s chunk (some n)) chunks ending
          ])
      by none more t =
          more _ (accepted-OnTrack blob max s chunk (flatten chunks ++ rest) none small t)
      by (some zero) more t = (_, t.is_prefix)
      by (some (suc n)) more t =
          more _ (accepted-OnTrack blob max s chunk (flatten chunks ++ rest) (some n) small t)

  on_pulled-BlobArrives :
      (delay : ℕ) (ending : Ending) (rest : Bytes) (p : Pulled) (next : Download → BlobEnd)
      → (ending ≡ stream_ended → rest ≡ [])
      → PulledTo ending rest p
      → ((u : Download) (left : Bytes) → OnTrack blob max u left → BlobArrives (next u))
      → BlobArrives (on_pulled max delay p next)
  on_pulled-BlobArrives delay ending rest (pulled s) next whole t k =
      sym (append-nil (flatten s.sent))
      ∙ ap (λ b. flatten s.sent ++ b) (sym (whole t.0))
      ∙ t.1.is_prefix
  on_pulled-BlobArrives delay ending rest (consumer_gone s) next whole t k = t
  on_pulled-BlobArrives delay ending rest (broke e s) next whole (left, t) k =
      by (handle_download_retry e s.retry_count max delay)
        (handle_download_retry-Handled e s.retry_count max delay)
    where
      by :
          (r : Option ℕ × ℕ)
          → Handled e s.retry_count max delay r
          → BlobArrives (retried_blob r e s next)
      by (some d, n) r = k _ left (record {
        is_prefix = t.is_prefix;
        received = t.received;
        retries = omega (arith, r.1, r.2);
      })
      by (none, n) (same, inl never) = ((left, t.is_prefix), inl never)
      by (none, n) (same, inr over) = ((left, t.is_prefix), inr (omega (arith, over, t.retries)))

  download_stream-BlobArrives :
      (answers : List (ℕ → Answer)) (delay : ℕ) (s : Download) (chunks : List Bytes)
      (ending : Ending) (rest : Bytes)
      → length blob < u64_mod
      → HonoursRanges blob answers
      → (ending ≡ stream_ended → rest ≡ [])
      → OnTrack blob max s (flatten chunks ++ rest)
      → BlobArrives (download_stream max delay s chunks ending answers)
  unfolding download_stream
  download_stream-BlobArrives [] delay s chunks ending rest small h whole t =
      on_pulled-BlobArrives delay ending rest (pull s chunks ending) downloading whole
        (pull-PulledTo chunks s ending rest small t) (λ u left tu. (left, tu.is_prefix))
  download_stream-BlobArrives (a ∷ answers) delay s chunks ending rest small h whole t =
      on_pulled-BlobArrives delay ending rest (pull s chunks ending) _ whole
        (pull-PulledTo chunks s ending rest small t)
        (λ u left tu.
          by u left tu (get_blob_stream (a u.bytes_received)) (h.0 u.bytes_received)
            (λ cs e more w tm.
              download_stream-BlobArrives answers delay u cs e more small h.1 w tm))
    where
      by :
          (u : Download) (left : Bytes)
          → OnTrack blob max u left
          → (o : Opened) → HonoursRange blob u.bytes_received o
          → ((cs : List Bytes) (e : Ending) (more : Bytes)
              → (e ≡ stream_ended → more ≡ [])
              → OnTrack blob max u (flatten cs ++ more)
              → BlobArrives (download_stream max delay u cs e answers))
          → BlobArrives (resumed o u (λ cs e. download_stream max delay u cs e answers))
      by u left tu (not_opened e) range k = (left, tu.is_prefix)
      by u left tu (opened status cs e) range k = elim (Bool-cases (status == 206)) [
        | inr other ↦ rw other ((left, tu.is_prefix), λ same. ground (arith, other, same))
        | inl partial ↦
            let (more, from, w) = range (ground (arith, partial)) in
            rw partial (
              k cs e more w (record {
                is_prefix =
                    ap (λ b. flatten u.sent ++ b)
                      (from
                        ∙ ap (λ n. drop n blob) tu.received
                        ∙ ap (drop (length (flatten u.sent))) (sym tu.is_prefix)
                        ∙ drop-length (flatten u.sent) left)
                    ∙ tu.is_prefix;
                received = tu.received;
                retries = tu.retries;
              }))
      ]

-- A start of the download that is on the blob.
pub record IsStart (blob : Bytes) (d : Detected) : Type 0 where
  pub left : Bytes
  pub part : (flatten d.initial_chunks ++ flatten d.rest) ++ left ≡ blob
  pub whole : d.ending ≡ stream_ended → left ≡ []

-- A download of a blob of less than 2 ^ 64 bytes, however often the connection breaks or is silent,
-- from a registry that keeps to the range that is asked for in the answers with status 206, whatever it
-- answers with another status: when it is complete, the chunks in the buffer are the blob, each byte
-- once and in order. Where it ends otherwise they are a beginning of the blob; retries are given up
-- only on an error that is not retryable or after all of them, and an answer with another status than
-- 206 is refused.
pub retry_download_loop-BlobArrives :
    (blob : Bytes) (max delay : ℕ) (closes_after : Option ℕ) (d : Detected)
    (answers : List (ℕ → Answer))
    → length blob < u64_mod
    → IsStart blob d
    → HonoursRanges blob answers
    → BlobArrives blob max (retry_download_loop max delay closes_after d answers)
unfolding retry_download_loop flatten
retry_download_loop-BlobArrives blob max delay closes_after d answers small start h =
    seed-BlobArrives blob max d.initial_chunks (empty_buffer closes_after)
      (flatten d.rest ++ start.left) _ small
      (record {
        is_prefix =
            sym (append_assoc (flatten d.initial_chunks) (flatten d.rest) start.left) ∙ start.part;
        received = refl;
        retries = omega arith;
      })
      (λ u tu.
        download_stream-BlobArrives blob max answers delay u d.rest d.ending start.left small h
          start.whole tu)
