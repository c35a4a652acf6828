-- ===== src/Oci/Route/Tests.antt =====
-- Runs of the model of the way of a layer in src/fls/oci/from_oci.rs.
use fls.Base.{◌≡◌, refl, [], ◌∷◌, Option, none, some, Bytes}
use fls.Download.{Answer, response, stream_ended}
use fls.Magic.{gzip, detect_content_and_compression}
use fls.Oci.Partition.{is_supported_compression}
use fls.Oci.Text.{Text, codes}
use fls.Oci.MediaType.{
  media_type_of, automotive, disk_raw, gzip_layer, zstd_layer, is_flashable, compression,
}
use fls.Oci.Manifest.{Descriptor, Manifest, image, get_single_layer}
use fls.Oci.Route.{
  Start, directly, through_tar, stopped, unsupported_compression, buffer_capacity, choose_route,
}
use fls.Oci.Route.Routed.{LayerRoute, choose_route-LayerRoute}

abbrev layer_of : Text → Descriptor
layer_of media_type = record {
  media_type = media_type;
  digest = codes "sha256:1";
  size = 20;
  annotations = none;
  platform = none;
}

abbrev image_of : Text → Manifest
image_of media_type = image (record {
  schema_version = 2;
  media_type = none;
  artifact_type = none;
  config = layer_of [];
  layers = layer_of media_type ∷ [];
  annotations = none;
})

abbrev gzip_piece : Bytes
gzip_piece = 31 ∷ 139 ∷ 8 ∷ 0 ∷ 0 ∷ 0 ∷ 0 ∷ 0 ∷ 0 ∷ 3 ∷ []

abbrev two_pieces : Text → Answer
two_pieces d = response 200 none (gzip_piece ∷ gzip_piece ∷ []) stream_ended

-- A sample that is no archive, and one that cannot be read
abbrev some_zeros : Bytes → Option Bytes
some_zeros bytes = some (0 ∷ 0 ∷ [])

abbrev unreadable : Bytes → Option Bytes
unreadable bytes = none

choose_route-LayerRoute_example :
    LayerRoute some_zeros unreadable 128 two_pieces
      (get_single_layer (image_of (media_type_of automotive disk_raw gzip_layer)))
      (choose_route some_zeros unreadable 128
        (image_of (media_type_of automotive disk_raw gzip_layer))
        two_pieces)
choose_route-LayerRoute_example =
    choose_route-LayerRoute some_zeros unreadable 128
      (image_of (media_type_of automotive disk_raw gzip_layer)) two_pieces

-- A gzip layer goes to the device, or to the reader of archives where no sample can be read.
abbrev a_start : Start
a_start = record {
  content_detection_buffer =
      31 ∷ 139 ∷ 8 ∷ 0 ∷ 0 ∷ 0 ∷ 0 ∷ 0 ∷ 0 ∷ 3 ∷ 31 ∷ 139 ∷ 8 ∷ 0 ∷ 0 ∷ 0 ∷ 0 ∷ 0 ∷ 0 ∷ 3 ∷ [];
  rest = [];
  ending = stream_ended;
  compression_type = gzip;
}

gzip_directly :
    choose_route some_zeros unreadable 128
      (image_of (media_type_of automotive disk_raw gzip_layer))
      two_pieces
    ≡ directly a_start
unfolding choose_route is_flashable is_supported_compression compression
    detect_content_and_compression
gzip_directly = refl

gzip_through_tar :
    choose_route unreadable unreadable 128
      (image_of (media_type_of automotive disk_raw gzip_layer))
      two_pieces
    ≡ through_tar 10000 a_start
unfolding choose_route is_flashable is_supported_compression compression
    detect_content_and_compression buffer_capacity
gzip_through_tar = refl

zstd_stopped :
    choose_route unreadable unreadable 128
      (image_of (media_type_of automotive disk_raw zstd_layer))
      two_pieces
    ≡ stopped unsupported_compression
unfolding choose_route is_flashable is_supported_compression compression
zstd_stopped = refl
