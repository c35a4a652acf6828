-- ===== src/Oci/Blob/Pipeline/Streamed.antt =====
-- Answers that stream a blob, for `stream_blob_to_file` of src/fls/oci/from_oci.rs.
use mathlib.Core.List.{flatten}
use mathlib.Core.Path.{subst}
use fls.Base.{
  In, ◌≤◌, ◌≡◌, ap, ◌∙◌, List, [], ◌++◌, arith, Bytes, length, length-append, ◌-◌, sym, ◌⊎◌, inl,
  inr, take, append-nil,
}
use fls.Magic.Prefix.{detect_compression-take}
use fls.Magic.{detect_compression}
use fls.Download.{stream_ended, Answer}
use fls.Oci.Blob.{Opened, opened, not_opened, get_blob_stream, Detected}
use fls.Oci.Blob.FirstBytes.{take-append}
use fls.Oci.Blob.Start.{StartOf}
use fls.Oci.Blob.Arrives.{IsStart}

module _ (blob : Bytes) where
  -- Answers to requests for the blob stream it from its start, and to its end where they end without
  -- an error.
  abbrev pub StreamsBlob : Opened → Type 0
  StreamsBlob (not_opened e) = Unit
  StreamsBlob (opened status chunks ending) =
      (rest : Bytes) × (flatten chunks ++ rest ≡ blob) × (ending ≡ stream_ended → rest ≡ [])

  abbrev pub AllStream : List Answer → Type 0
  AllStream answers = (a : Answer) → In a answers → StreamsBlob (get_blob_stream a)

  pub streamed-IsStart :
      (answers : List Answer) (d : Detected)
      → AllStream answers
      → StartOf answers d
      → IsStart blob d
  streamed-IsStart answers d h (a, among, status, chunks, e, w, told, six) =
      by (subst StreamsBlob e (h a among))
    where
      by :
          (rest : Bytes) × (flatten chunks ++ rest ≡ blob) × (d.ending ≡ stream_ended → rest ≡ [])
          → IsStart blob d
      by (rest, part, whole) = record {
        left = rest;
        part = ap (λ t. t ++ rest) w ∙ part;
        whole = whole;
      }

  -- what is told of the stream is told of the blob
  pub streamed-compression :
      (answers : List Answer) (d : Detected)
      → AllStream answers
      → StartOf answers d
      → d.compression ≡ detect_compression blob
  streamed-compression answers d h (a, among, status, chunks, e, w, told, six) =
      told ∙ by six (subst StreamsBlob e (h a among))
    where
      by :
          (6 ≤ length (flatten d.initial_chunks)) ⊎ (d.ending ≡ stream_ended)
          → (rest : Bytes) × (flatten chunks ++ rest ≡ blob) × (d.ending ≡ stream_ended → rest ≡ [])
          → detect_compression (flatten chunks) ≡ detect_compression blob
      by (inr ended) (rest, part, whole) = ap detect_compression (
          sym (append-nil (flatten chunks))
          ∙ ap (λ t. flatten chunks ++ t) (sym (whole ended))
          ∙ part)
      by (inl more) (rest, part, whole) =
          let long : 6 ≤ length (flatten chunks) =
            omega (
              arith,
              more,
              ap length w,
              length-append (flatten d.initial_chunks) (flatten d.rest),
            ) in
          let none_more : 6 - length (flatten chunks) ≡ 0 = omega (arith, long) in
          sym (detect_compression-take (flatten chunks) 6 (omega arith))
          ∙ ap detect_compression (
              sym (
                ap (take 6) (sym part)
                ∙ take-append 6 (flatten chunks) rest
                ∙ ap (λ k. take 6 (flatten chunks) ++ take k rest) none_more
                ∙ append-nil (take 6 (flatten chunks))))
          ∙ detect_compression-take blob 6 (omega arith)
