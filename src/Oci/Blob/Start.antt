-- ===== src/Oci/Blob/Start.antt =====
-- What `fetch_blob_with_detection` of src/fls/oci/from_oci.rs keeps of the stream that it takes.
use mathlib.Core.List.{flatten}
use mathlib.Core.Path.{subst}
use fls.Base.{
  In, ℕ, suc, ◌+◌, ◌-◌, ◌<◌, ◌≤◌, ◌≡◌, refl, ap, ap, ◌∙◌, sym, ◌⊎◌, inl, inr, false, Option, none,
  some, List, [], ◌∷◌, ◌++◌, arith, Bytes, length, take, append-nil,
}
use fls.Magic.{detect_compression}
use fls.Magic.Prefix.{detect_compression-take}
use fls.Download.{DownloadError, Ending, stream_ended, Answer, is_retryable, handle_download_retry}
use fls.Download.Retry.{Handled, handle_download_retry-Handled}
use fls.Oci.Blob.{
  Opened, opened, not_opened, get_blob_stream, Detected, Gathered, gathered, broken, stuck, gather,
  Fetched, fetched, fetch_failed, empty_stream, fetch_stuck, fetching, detected_or_empty,
  fetch_again, on_gathered, on_opened, fetch_blob_with_detection,
}
use fls.Oci.Blob.FirstBytes.{take-append, Gathers, GathersOf, gather-GathersOf}

-- What the download is given: of an answer of the registry, all of its stream, cut behind six bytes at
-- least unless it ends before without an error, with the compression that its bytes tell.
abbrev pub StartOf : List Answer → Detected → Type 0
StartOf answers d =
    (a : Answer) × In a answers
    × (status : ℕ) × (chunks : List Bytes) × (get_blob_stream a ≡ opened status chunks d.ending)
    × (flatten d.initial_chunks ++ flatten d.rest ≡ flatten chunks)
    × (d.compression ≡ detect_compression (flatten chunks))
    × ((6 ≤ length (flatten d.initial_chunks)) ⊎ (d.ending ≡ stream_ended))

-- A stream of no bytes
abbrev pub EmptyOf : List Answer → Type 0
EmptyOf answers =
    (a : Answer) × In a answers
    × (status : ℕ) × (chunks : List Bytes) × (ending : Ending) × (get_blob_stream a
        ≡ opened status chunks ending)
    × (flatten chunks ≡ [])

abbrev pub FetchOf : ℕ → ℕ → List Answer → Fetched → Type 0
FetchOf max count answers (fetched d) = StartOf answers d
FetchOf max count answers (fetch_failed e) =
    (is_retryable e ≡ false) ⊎ (max < count + length answers)
FetchOf max count answers empty_stream = EmptyOf answers
FetchOf max count answers fetch_stuck = Unit
FetchOf max count answers fetching = Unit

later-FetchOf :
    (max count : ℕ) (a : Answer) (answers : List Answer) (r : Fetched)
    → FetchOf max (suc count) answers r
    → FetchOf max count (a ∷ answers) r
later-FetchOf max count a answers (fetched d) (b, among, st, ch, e, w, t, six) =
    (b, inr among, st, ch, e, w, t, six)
later-FetchOf max count a answers (fetch_failed e) (inl never) = inl never
later-FetchOf max count a answers (fetch_failed e) (inr over) = inr (omega (arith, over))
later-FetchOf max count a answers empty_stream (b, among, st, ch, en, e, f) =
    (b, inr among, st, ch, en, e, f)
later-FetchOf max count a answers fetch_stuck f = tt
later-FetchOf max count a answers fetching f = tt

fetch_again-FetchOf :
    (max delay count : ℕ) (a : Answer) (answers : List Answer) (e : DownloadError)
    (next : ℕ → Fetched) (r : Option ℕ × ℕ)
    → Handled e count max delay r
    → ((n : ℕ) → FetchOf max n answers (next n))
    → FetchOf max count (a ∷ answers) (fetch_again r e next)
fetch_again-FetchOf max delay count a answers e next (none, n) (same, inl never) k = inl never
fetch_again-FetchOf max delay count a answers e next (none, n) (same, inr over) k =
    inr (omega (arith, over))
fetch_again-FetchOf max delay count a answers e next (some d, n) r k =
    later-FetchOf max count a answers (next n)
      (subst (λ m. FetchOf max m answers (next n)) r.2 (k n))

detected-FetchOf :
    (max count : ℕ) (a : Answer) (answers : List Answer) (status : ℕ) (chunks : List Bytes)
    (ending ending' : Ending) (prefix : Bytes) (initial rest : List Bytes)
    → get_blob_stream a ≡ opened status chunks ending
    → Gathers (flatten chunks) ending ending' prefix initial rest
    → FetchOf max count (a ∷ answers) (detected_or_empty prefix initial rest ending')
unfolding flatten
detected-FetchOf max count a answers status chunks ending ending' prefix [] rest e g =
    (a, inl refl, status, chunks, ending, e, none_left g.enough)
  where
    none_left : (6 ≤ 0) ⊎ ((rest ≡ []) × (ending ≡ stream_ended)) → flatten chunks ≡ []
    none_left (inl six) = absurd (omega (arith, six))
    none_left (inr (r, ended)) = sym g.whole ∙ ap flatten r
detected-FetchOf max count a answers status chunks ending ending' prefix (c ∷ cs) rest e g = (
  a,
  inl refl,
  status,
  chunks,
  e ∙ ap (opened status chunks) (sym g.same_ending),
  g.whole,
  ap detect_compression g.first ∙ told g.enough,
  six_or_ended g.enough,
)
  where
    start_bytes : Bytes
    start_bytes = flatten (c ∷ cs)

    six_or_ended :
        (6 ≤ length start_bytes) ⊎ ((rest ≡ []) × (ending ≡ stream_ended))
        → (6 ≤ length start_bytes) ⊎ (ending' ≡ stream_ended)
    six_or_ended (inl six) = inl six
    six_or_ended (inr (r, ended)) = inr (g.same_ending ∙ ended)

    told :
        (6 ≤ length start_bytes) ⊎ ((rest ≡ []) × (ending ≡ stream_ended))
        → detect_compression (take 6 start_bytes) ≡ detect_compression (flatten chunks)
    told (inr (r, ended)) =
        detect_compression-take start_bytes 6 (omega arith)
        ∙ ap detect_compression
            (sym (append-nil start_bytes) ∙ ap (λ t. start_bytes ++ flatten t) (sym r) ∙ g.whole)
    told (inl six) =
        let none_more : 6 - length start_bytes ≡ 0 = omega (arith, six) in
        ap detect_compression (
          sym (
            ap (take 6) (sym g.whole)
            ∙ take-append 6 start_bytes (flatten rest)
            ∙ ap (λ k. take 6 start_bytes ++ take k (flatten rest)) none_more
            ∙ append-nil (take 6 start_bytes)))
        ∙ detect_compression-take (flatten chunks) 6 (omega arith)

on_opened-FetchOf :
    (max delay count : ℕ) (a : Answer) (answers : List Answer) (o : Opened) (next : ℕ → Fetched)
    → get_blob_stream a ≡ o
    → ((n : ℕ) → FetchOf max n answers (next n))
    → FetchOf max count (a ∷ answers) (on_opened max delay count o next)
unfolding flatten
on_opened-FetchOf max delay count a answers (not_opened e) next eq k =
    fetch_again-FetchOf max delay count a answers e next (handle_download_retry e count max delay)
      (handle_download_retry-Handled e count max delay) k
on_opened-FetchOf max delay count a answers (opened status chunks ending) next eq k =
    by (gather [] [] chunks ending) (gather-GathersOf chunks [] [] ending refl)
  where
    by :
        (g : Gathered)
        → GathersOf (flatten chunks) ending g
        → FetchOf max count (a ∷ answers) (on_gathered max delay count g next)
    by (gathered prefix initial rest ending') g =
        detected-FetchOf max count a answers status chunks ending ending' prefix initial rest eq g
    by (broken e) g =
        fetch_again-FetchOf max delay count a answers e next
          (handle_download_retry e count max delay)
          (handle_download_retry-Handled e count max delay) k
    by stuck g = tt

-- What the download is given to go on with is all of the stream of one answer, cut behind its first
-- six bytes at least unless it ends before without an error, with the compression that the whole
-- stream's bytes tell, whatever the chunks are. It fails only on an
-- error that is not retryable, or after more requests than the retries that are left, and is refused
-- as empty only where an answer has no bytes.
pub fetch_blob_with_detection-FetchOf :
    (max delay count : ℕ) (answers : List Answer)
    → FetchOf max count answers (fetch_blob_with_detection max delay count answers)
unfolding fetch_blob_with_detection
fetch_blob_with_detection-FetchOf max delay count [] = tt
fetch_blob_with_detection-FetchOf max delay count (a ∷ answers) =
    on_opened-FetchOf max delay count a answers (get_blob_stream a)
      (λ n. fetch_blob_with_detection max delay n answers) refl
      (λ n. fetch_blob_with_detection-FetchOf max delay n answers)
