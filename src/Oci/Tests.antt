-- ===== src/Oci/Tests.antt =====
-- Runs of the models of src/fls/oci/manifest.rs.
use fls.Base.{◌≡◌, refl, [], ◌∷◌, none, some}
use fls.Oci.MediaType.{
  automotive, disk_simg, xz_layer, from_media_type, compression, media_type_of,
  from_media_type-media_type_of, split_media_type, is_flashable, linux, arm64,
}
use fls.Oci.Manifest.{
  Descriptor, Manifest, image, layer, get_single_layer, find_platform, find_linux_manifest,
}

from_media_type-media_type_of_example :
    (from_media_type (media_type_of automotive disk_simg xz_layer) ≡ some disk_simg)
    × (compression (media_type_of automotive disk_simg xz_layer) ≡ xz_layer)
from_media_type-media_type_of_example = from_media_type-media_type_of automotive disk_simg xz_layer

abbrev other_layer : Descriptor
other_layer = record {
  media_type = 116 ∷ [];
  digest = [];
  size = 1;
  annotations = none;
  platform = none;
}

abbrev disk_layer : Descriptor
disk_layer = record other_layer { media_type = media_type_of automotive disk_simg xz_layer }

abbrev two_layers : Manifest
two_layers = image (record {
  schema_version = 2;
  media_type = none;
  artifact_type = none;
  config = other_layer;
  layers = other_layer ∷ disk_layer ∷ [];
  annotations = none;
})

disk_layer_chosen : get_single_layer two_layers ≡ layer disk_layer
unfolding get_single_layer is_flashable from_media_type split_media_type
disk_layer_chosen = refl

abbrev arm_manifest : Descriptor
arm_manifest = record other_layer {
  platform = some (record { architecture = arm64; os = linux; variant = none });
}

arm_found :
    find_linux_manifest (record {
      schema_version = 2;
      media_type = none;
      manifests = other_layer ∷ arm_manifest ∷ [];
    })
    ≡ some arm_manifest
unfolding find_linux_manifest find_platform
arm_found = refl
