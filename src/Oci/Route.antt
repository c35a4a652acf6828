-- ===== src/Oci/Route.antt =====
-- src/fls/oci/from_oci.rs: the part of `flash_from_oci` between the manifest and the tasks: the layer
-- that is asked for, its first bytes, and whether it goes to the device as it is or through the
-- reader of archives. How a sample decompresses is a parameter.
pub mod Routed
pub mod Tests
use fls.Base.{
  ℕ, ◌+◌, ◌*◌, ◌/◌, Bool, true, false, not, ◌&&◌, List, [], ◌∷◌, ◌++◌, Option, none, some, ltb, leb,
  if◌then◌else◌, Bytes, length,
}
use fls.Download.{DownloadError, Ending, stream_ended, timed_out, stream_failed, Answer}
use fls.Magic.{
  Compression, no_compression, gzip, xz, zstd, ContentType, raw_disk_image, tar_archive, Content,
  insufficient, content, detect_content_and_compression,
}
use fls.Oci.Text.{Text}
use fls.Oci.MediaType.{
  LayerCompression, uncompressed, gzip_layer, xz_layer, zstd_layer, compression, is_flashable,
}
use fls.Oci.Partition.{is_supported_compression}
use fls.Oci.Manifest.{Descriptor, Manifest, LayerError, Layer, layer, no_layer, get_single_layer}
use fls.Oci.Blob.{Opened, opened, not_opened, get_blob_stream}

pub data RouteError : Type 0 where
  layer_error : LayerError → RouteError
  not_flashable unsupported_compression detection_timeout insufficient_data : RouteError
  blob_refused detection_failed : DownloadError → RouteError

-- The first bytes, what is left of the stream, and its way
pub record Start : Type 0 where
  pub content_detection_buffer : Bytes
  pub rest : List Bytes
  pub ending : Ending
  pub compression_type : Compression

pub data Route : Type 0 where
  directly : Start → Route
  through_tar : ℕ → Start → Route
  stopped : RouteError → Route

abbrev pub detection_size : ℕ
detection_size = 2 * (1024 * 1024)

pub data Head : Type 0 where
  head : Bytes → List Bytes → Ending → Head
  no_head : RouteError → Head

abbrev pub head_ending : Bytes → Ending → Head
head_ending buffer stream_ended = head buffer [] stream_ended
head_ending buffer timed_out = no_head detection_timeout
head_ending buffer (stream_failed e) = no_head (detection_failed e)

-- The loop that fills the buffer
unfoldable pub read_head : Bytes → List Bytes → Ending → Head
read_head buffer [] ending =
    if ltb (length buffer) detection_size then head_ending buffer ending else head buffer [] ending
read_head buffer (chunk ∷ chunks) ending = elim (ltb (length buffer) detection_size) [
  | true ↦ read_head (buffer ++ chunk) chunks ending
  | false ↦ head buffer (chunk ∷ chunks) ending
]

abbrev pub at_least : ℕ → ℕ → ℕ
at_least n m = if ltb m n then n else m

abbrev pub is_compressed : LayerCompression → Bool
is_compressed uncompressed = false
is_compressed gzip_layer = true
is_compressed xz_layer = true
is_compressed zstd_layer = true

-- How many chunks the channels hold: a chunk is taken for 16 KB.
unfoldable pub buffer_capacity : ℕ → LayerCompression → ℕ
buffer_capacity buffer_size_mb c =
    let capacity = at_least 1000 ((buffer_size_mb * 1024) / 16) in
    if is_compressed c then at_least 10000 capacity else capacity

module _ (gzip_sample xz_sample : Bytes → Option Bytes) (buffer_size_mb : ℕ) where
  -- The branch for data in xz that is no archive comes after that for all that is no archive.
  abbrev pub by_contents : LayerCompression → Bytes → List Bytes → Ending → Content → Route
  by_contents c buffer rest ending insufficient = stopped insufficient_data
  by_contents c buffer rest ending (content raw_disk_image t) = directly (record {
    content_detection_buffer = buffer;
    rest = rest;
    ending = ending;
    compression_type = t;
  })
  by_contents c buffer rest ending (content tar_archive t) =
      through_tar (buffer_capacity buffer_size_mb c) (record {
        content_detection_buffer = buffer;
        rest = rest;
        ending = ending;
        compression_type = t;
      })

  abbrev pub on_head : LayerCompression → Head → Route
  on_head c (no_head e) = stopped e
  on_head c (head buffer rest ending) =
      by_contents c buffer rest ending (detect_content_and_compression gzip_sample xz_sample buffer)

  abbrev pub on_blob : LayerCompression → Opened → Route
  on_blob c (not_opened e) = stopped (blob_refused e)
  on_blob c (opened status chunks ending) = on_head c (read_head [] chunks ending)

  -- `answer` is what a request for the blob of a digest is answered with.
  abbrev pub on_layer_chosen : (Text → Answer) → Layer → Route
  on_layer_chosen answer (no_layer e) = stopped (layer_error e)
  on_layer_chosen answer (layer l) =
      if not (is_flashable l.media_type)
      then stopped not_flashable
      else if not (is_supported_compression (compression l.media_type))
      then stopped unsupported_compression
      else on_blob (compression l.media_type) (get_blob_stream (answer l.digest))

  unfoldable pub choose_route : Manifest → (Text → Answer) → Route
  unfolding get_single_layer read_head get_blob_stream
  choose_route m answer = on_layer_chosen answer (get_single_layer m)
