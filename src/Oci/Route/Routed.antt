-- ===== src/Oci/Route/Routed.antt =====
-- Which way src/fls/oci/from_oci.rs sends a layer.
use mathlib.Core.List.{flatten}
use fls.Base.{
  ℕ, ◌<◌, ◌≤◌, ◌≡◌, refl, sym, ◌⊎◌, inl, inr, Bool, true, false, Bool-cases, List, [], ◌∷◌, ◌++◌,
  Option, arith, append_assoc, append-nil, Bytes, length, ltb, if◌then◌else◌,
}
use fls.Download.{DownloadError, Ending, stream_ended, timed_out, stream_failed, Answer}
use fls.Magic.{
  Compression, no_compression, gzip, xz, zstd, content_of, detect_compression, ContentType,
  raw_disk_image, tar_archive, Content, insufficient, content, detect_content_and_compression,
}
use fls.Oci.Text.{Text}
use fls.Oci.MediaType.{compression, is_flashable, LayerCompression}
use fls.Oci.Partition.{is_supported_compression}
use fls.Oci.Manifest.{Manifest, Layer, layer, no_layer, get_single_layer}
use fls.Oci.Blob.{Opened, opened, not_opened, get_blob_stream}
use fls.Oci.Route.{
  layer_error, not_flashable, unsupported_compression, detection_timeout, insufficient_data,
  blob_refused, detection_failed, Start, Route, directly, through_tar, stopped, detection_size,
  Head, head, no_head, head_ending, read_head, buffer_capacity, by_contents, on_head, on_blob,
  on_layer_chosen, choose_route,
}

-- A buffer and the rest of a stream are all of it, and the buffer is full or has it all.
pub record IsHead (all : Bytes) (ending : Ending) (buffer : Bytes) (rest : List Bytes)
    (last : Ending) : Type 0 where
  pub whole : buffer ++ flatten rest ≡ all
  pub full : (detection_size ≤ length buffer) ⊎ (rest ≡ [])
  pub same_ending : last ≡ ending

abbrev HeadOf : Bytes → Ending → Head → Type 0
HeadOf all ending (head buffer rest last) = IsHead all ending buffer rest last
HeadOf all ending (no_head e) =
    ((e ≡ detection_timeout) × (ending ≡ timed_out))
    ⊎ ((x : DownloadError) × (e ≡ detection_failed x) × (ending ≡ stream_failed x))

read_head-HeadOf :
    (chunks : List Bytes) (buffer : Bytes) (ending : Ending)
    → HeadOf (buffer ++ flatten chunks) ending (read_head buffer chunks ending)
unfolding read_head flatten
read_head-HeadOf [] buffer ending = by (ltb (length buffer) detection_size) ending
  where
    by :
        (b : Bool) (ending : Ending)
        → HeadOf
            (buffer ++ [])
            ending
            (if b then head_ending buffer ending else head buffer [] ending)
    by true stream_ended = record { whole = refl; full = inr refl; same_ending = refl }
    by true timed_out = inl (refl, refl)
    by true (stream_failed e) = inr (e, refl, refl)
    by false ending = record { whole = refl; full = inr refl; same_ending = refl }
read_head-HeadOf (chunk ∷ chunks) buffer ending =
    by (ltb (length buffer) detection_size) refl (read_head-HeadOf chunks (buffer ++ chunk) ending)
  where
    by :
        (b : Bool)
        → ltb (length buffer) detection_size ≡ b
        → HeadOf
            ((buffer ++ chunk) ++ flatten chunks)
            ending
            (read_head (buffer ++ chunk) chunks ending)
        → HeadOf (buffer ++ (chunk ++ flatten chunks)) ending (elim b [
          | true ↦ read_head (buffer ++ chunk) chunks ending
          | false ↦ head buffer (chunk ∷ chunks) ending
        ])
    by true e h = rw (sym (append_assoc buffer chunk (flatten chunks))) h
    by false e h = record { whole = refl; full = inl (ground arith); same_ending = refl }

module _ (gzip_sample xz_sample : Bytes → Option Bytes) (buffer_size_mb : ℕ) where
  -- A stream whose first bytes are of a type
  abbrev pub StartsAs : List Bytes → Ending → ContentType → Start → Type 0
  StartsAs chunks ending t s =
      IsHead (flatten chunks) ending s.content_detection_buffer s.rest s.ending
      × (detect_content_and_compression gzip_sample xz_sample s.content_detection_buffer
          ≡ content t s.compression_type)

  -- The way of a stream
  abbrev pub StreamRoute : LayerCompression → Opened → Route → Type 0
  StreamRoute c (not_opened e) r = r ≡ stopped (blob_refused e)
  StreamRoute c (opened status chunks ending) (directly s) = StartsAs chunks ending raw_disk_image s
  StreamRoute c (opened status chunks ending) (through_tar capacity s) =
      StartsAs chunks ending tar_archive s × (capacity ≡ buffer_capacity buffer_size_mb c)
  StreamRoute c (opened status chunks ending) (stopped e) =
      ((e ≡ insufficient_data) × (length (flatten chunks) < 16))
      ⊎ (((e ≡ detection_timeout) × (ending ≡ timed_out))
          ⊎ ((x : DownloadError) × (e ≡ detection_failed x) × (ending ≡ stream_failed x)))

  -- The way of the layer that is chosen
  abbrev pub LayerRoute : (Text → Answer) → Layer → Route → Type 0
  LayerRoute answer (no_layer e) r = r ≡ stopped (layer_error e)
  LayerRoute answer (layer l) r =
      ((is_flashable l.media_type ≡ false) × (r ≡ stopped not_flashable))
      ⊎ (((is_flashable l.media_type ≡ true)
            × (is_supported_compression (compression l.media_type) ≡ false)
            × (r ≡ stopped unsupported_compression))
          ⊎ ((is_flashable l.media_type ≡ true)
              × (is_supported_compression (compression l.media_type) ≡ true)
              × StreamRoute (compression l.media_type) (get_blob_stream (answer l.digest)) r))

  detect-insufficient :
      (buffer : Bytes)
      → detect_content_and_compression gzip_sample xz_sample buffer ≡ insufficient
      → length buffer < 16
  unfolding detect_content_and_compression content_of
  detect-insufficient buffer = by (ltb (length buffer) 16) (detect_compression buffer) refl
    where
      by :
          (b : Bool) (c : Compression)
          → ltb (length buffer) 16 ≡ b
          → (if b then insufficient else content_of gzip_sample xz_sample c buffer) ≡ insufficient
          → length buffer < 16
      by true c e h = ground arith
      by false gzip e h = ground arith
      by false xz e h = ground arith
      by false zstd e h = ground arith
      by false no_compression e h = ground arith

  by_contents-StreamRoute :
      (c : LayerCompression) (status : ℕ) (chunks : List Bytes) (ending : Ending) (buffer : Bytes)
      (rest : List Bytes) (last : Ending) (d : Content)
      → IsHead (flatten chunks) ending buffer rest last
      → detect_content_and_compression gzip_sample xz_sample buffer ≡ d
      → StreamRoute c
          (opened status chunks ending)
          (by_contents gzip_sample xz_sample buffer_size_mb c buffer rest last d)
  unfolding flatten
  by_contents-StreamRoute c status chunks ending buffer rest last insufficient h e =
      inl (refl, short h.full)
    where
      short : (detection_size ≤ length buffer) ⊎ (rest ≡ []) → length (flatten chunks) < 16
      short (inl full) = ground (arith, detect-insufficient buffer e)
      short (inr empty) = rw (sym h.whole, empty, append-nil buffer) (detect-insufficient buffer e)
  by_contents-StreamRoute c status chunks ending buffer rest last (content raw_disk_image t) h e =
      (h, e)
  by_contents-StreamRoute c status chunks ending buffer rest last (content tar_archive t) h e =
      ((h, e), refl)

  on_blob-StreamRoute :
      (c : LayerCompression) (o : Opened)
      → StreamRoute c o (on_blob gzip_sample xz_sample buffer_size_mb c o)
  on_blob-StreamRoute c (not_opened e) = refl
  on_blob-StreamRoute c (opened status chunks ending) =
      by (read_head [] chunks ending) (read_head-HeadOf chunks [] ending)
    where
      by :
          (h : Head)
          → HeadOf (flatten chunks) ending h
          → StreamRoute c
              (opened status chunks ending)
              (on_head gzip_sample xz_sample buffer_size_mb c h)
      by (no_head e) h = inr h
      by (head buffer rest last) h =
          by_contents-StreamRoute c status chunks ending buffer rest last
            (detect_content_and_compression gzip_sample xz_sample buffer) h refl

-- An image's layer goes to the device directly or through the reader of archives, as its first 2 MiB
-- or all of it say; what was read and what is left are together what the registry streams for its
-- digest. It does so only where its media type is a disk image's with a compression that is
-- supported. Otherwise nothing is sent on: there is no such layer, the registry answers with an
-- error, the stream breaks within the first bytes, or the layer has less than 16 bytes.
pub choose_route-LayerRoute :
    (gzip_sample xz_sample : Bytes → Option Bytes) (buffer_size_mb : ℕ) (m : Manifest)
    (answer : Text → Answer)
    → LayerRoute gzip_sample xz_sample buffer_size_mb answer
        (get_single_layer m)
        (choose_route gzip_sample xz_sample buffer_size_mb m answer)
unfolding choose_route
choose_route-LayerRoute gzip_sample xz_sample buffer_size_mb m answer = by (get_single_layer m)
  where
    by :
        (l : Layer)
        → LayerRoute gzip_sample xz_sample buffer_size_mb answer l
            (on_layer_chosen gzip_sample xz_sample buffer_size_mb answer l)
    by (no_layer e) = refl
    by (layer l) = elim (Bool-cases (is_flashable l.media_type)) [
      | inr f ↦ inl (f, rw f refl)
      | inl f ↦ elim (Bool-cases (is_supported_compression (compression l.media_type))) [
        | inr g ↦ inr (inl (f, g, rw (f, g) refl))
        | inl g ↦ inr (
            inr (
              f,
              g,
              rw (f, g)
                  (on_blob-StreamRoute gzip_sample xz_sample buffer_size_mb
                    (compression l.media_type) (get_blob_stream (answer l.digest))),
            ))
      ]
    ]
