-- ===== src/Oci/MediaType.antt =====
-- src/fls/oci/manifest.rs: media types of layers, their compression, and the disk images that can be
-- flashed.
use fls.Base.{
  ℕ, ◌≡◌, refl, Bool, true, false, ◌||◌, List, [], ◌∷◌, ◌++◌, ◌==◌, Option, none, some,
  if◌then◌else◌,
}
use fls.Oci.Text.{Text, split_once, same_text}

-- "application/vnd.docker.image.rootfs.diff.tar.gzip"
abbrev pub docker_layer : Text
docker_layer =
    97 ∷ 112 ∷ 112 ∷ 108 ∷ 105 ∷ 99 ∷ 97 ∷ 116 ∷ 105 ∷ 111 ∷ 110 ∷ 47 ∷ 118 ∷ 110 ∷ 100 ∷ 46 ∷ 100
    ∷ 111 ∷ 99 ∷ 107 ∷ 101 ∷ 114 ∷ 46 ∷ 105 ∷ 109 ∷ 97 ∷ 103 ∷ 101 ∷ 46 ∷ 114 ∷ 111 ∷ 111 ∷ 116
    ∷ 102 ∷ 115 ∷ 46 ∷ 100 ∷ 105 ∷ 102 ∷ 102 ∷ 46 ∷ 116 ∷ 97 ∷ 114 ∷ 46 ∷ 103 ∷ 122 ∷ 105 ∷ 112 ∷ []

-- "gzip"
abbrev pub gzip : Text
gzip = 103 ∷ 122 ∷ 105 ∷ 112 ∷ []

-- "zstd"
abbrev pub zstd : Text
zstd = 122 ∷ 115 ∷ 116 ∷ 100 ∷ []

-- "xz"
abbrev pub xz : Text
xz = 120 ∷ 122 ∷ []

-- "application/vnd.automotive.disk"
abbrev pub automotive_prefix : Text
automotive_prefix =
    97 ∷ 112 ∷ 112 ∷ 108 ∷ 105 ∷ 99 ∷ 97 ∷ 116 ∷ 105 ∷ 111 ∷ 110 ∷ 47 ∷ 118 ∷ 110 ∷ 100 ∷ 46 ∷ 97
    ∷ 117 ∷ 116 ∷ 111 ∷ 109 ∷ 111 ∷ 116 ∷ 105 ∷ 118 ∷ 101 ∷ 46 ∷ 100 ∷ 105 ∷ 115 ∷ 107 ∷ []

-- "application/vnd.embedded.disk"
abbrev pub embedded_prefix : Text
embedded_prefix =
    97 ∷ 112 ∷ 112 ∷ 108 ∷ 105 ∷ 99 ∷ 97 ∷ 116 ∷ 105 ∷ 111 ∷ 110 ∷ 47 ∷ 118 ∷ 110 ∷ 100 ∷ 46 ∷ 101
    ∷ 109 ∷ 98 ∷ 101 ∷ 100 ∷ 100 ∷ 101 ∷ 100 ∷ 46 ∷ 100 ∷ 105 ∷ 115 ∷ 107 ∷ []

-- ".raw"
abbrev pub raw_suffix : Text
raw_suffix = 46 ∷ 114 ∷ 97 ∷ 119 ∷ []

-- ".qcow2"
abbrev pub qcow2_suffix : Text
qcow2_suffix = 46 ∷ 113 ∷ 99 ∷ 111 ∷ 119 ∷ 50 ∷ []

-- ".simg"
abbrev pub simg_suffix : Text
simg_suffix = 46 ∷ 115 ∷ 105 ∷ 109 ∷ 103 ∷ []

-- "linux"
abbrev pub linux : Text
linux = 108 ∷ 105 ∷ 110 ∷ 117 ∷ 120 ∷ []

-- "arm64"
abbrev pub arm64 : Text
arm64 = 97 ∷ 114 ∷ 109 ∷ 54 ∷ 52 ∷ []

-- "amd64"
abbrev pub amd64 : Text
amd64 = 97 ∷ 109 ∷ 100 ∷ 54 ∷ 52 ∷ []

abbrev pub plus : ℕ
plus = 43

abbrev pub with_suffix : Text → Option (Text × Text) → Text × Option Text
with_suffix media_type none = (media_type, none)
with_suffix media_type (some (base, suffix)) = (base, some suffix)

-- The base media type, and the suffix of its compression
unfoldable pub split_media_type : Text → Text × Option Text
split_media_type media_type =
    if same_text media_type docker_layer
    then (media_type, some gzip)
    else with_suffix media_type (split_once plus media_type)

pub data LayerCompression : Type 0 where
  uncompressed gzip_layer xz_layer zstd_layer : LayerCompression

abbrev pub compression_of : Option Text → LayerCompression
compression_of none = uncompressed
compression_of (some s) =
    if same_text s gzip
    then gzip_layer
    else if same_text s zstd
    then zstd_layer
    else if same_text s xz
    then xz_layer
    else uncompressed

-- `Descriptor::compression`, on its media type
unfoldable pub compression : Text → LayerCompression
unfolding split_media_type
compression media_type = compression_of (split_media_type media_type).1

pub data FlashableArtifact : Type 0 where
  disk_raw disk_qcow2 disk_simg : FlashableArtifact

abbrev pub media_type_prefixes : List Text
media_type_prefixes = automotive_prefix ∷ embedded_prefix ∷ []

abbrev pub format_suffix : FlashableArtifact → Text
format_suffix disk_raw = raw_suffix
format_suffix disk_qcow2 = qcow2_suffix
format_suffix disk_simg = simg_suffix

abbrev pub strip_prefix : Text → Text → Option Text
strip_prefix [] s = some s
strip_prefix (p ∷ prefix) [] = none
strip_prefix (p ∷ prefix) (c ∷ s) = if p == c then strip_prefix prefix s else none

-- `find_map` over the prefixes
abbrev pub or_else : Option Text → Option Text → Option Text
or_else none later = later
or_else (some s) later = some s

abbrev pub find_format : List Text → Text → Option Text
find_format [] base = none
find_format (prefix ∷ rest) base = or_else (strip_prefix prefix base) (find_format rest base)

abbrev pub artifact_of : Option Text → Option FlashableArtifact
artifact_of none = none
artifact_of (some format) =
    if same_text format raw_suffix
    then some disk_raw
    else if same_text format qcow2_suffix
    then some disk_qcow2
    else if same_text format simg_suffix
    then some disk_simg
    else none

abbrev pub is_supported_suffix : Option Text → Bool
is_supported_suffix none = true
is_supported_suffix (some s) = same_text s gzip || (same_text s zstd || same_text s xz)

unfoldable pub from_media_type : Text → Option FlashableArtifact
unfolding split_media_type
from_media_type media_type =
    let (base, suffix) = split_media_type media_type in
    if is_supported_suffix suffix then artifact_of (find_format media_type_prefixes base) else none

abbrev pub is_some {ℓ} : {A : Type ℓ} → Option A → Bool
is_some none = false
is_some (some _) = true

unfoldable pub is_flashable : Text → Bool
unfolding from_media_type
is_flashable media_type = is_some (from_media_type media_type)

-- Each prefix with each format
abbrev pub types_of : Text → List Text
types_of prefix =
    (prefix ++ format_suffix disk_raw)
    ∷ (prefix ++ format_suffix disk_qcow2)
    ∷ (prefix ++ format_suffix disk_simg)
    ∷ []

abbrev pub supported_types : List Text
supported_types = types_of automotive_prefix ++ types_of embedded_prefix

-- the compression of a layer, as a suffix
abbrev pub suffix_of : LayerCompression → Text
suffix_of uncompressed = []
suffix_of gzip_layer = plus ∷ gzip
suffix_of xz_layer = plus ∷ xz
suffix_of zstd_layer = plus ∷ zstd

-- A prefix of the disk image media types
pub data Vendor : Type 0 where
  automotive embedded : Vendor

abbrev pub prefix_of : Vendor → Text
prefix_of automotive = automotive_prefix
prefix_of embedded = embedded_prefix

abbrev pub media_type_of : Vendor → FlashableArtifact → LayerCompression → Text
media_type_of v a c = prefix_of v ++ (format_suffix a ++ suffix_of c)

-- The media type of a disk image of either prefix, of any of the three formats, uncompressed or with
-- any of the three compressions, is read back: its format and its compression are told.
pub from_media_type-media_type_of :
    (v : Vendor) (a : FlashableArtifact) (c : LayerCompression)
    → (from_media_type (media_type_of v a c) ≡ some a) × (compression (media_type_of v a c) ≡ c)
unfolding from_media_type split_media_type compression
from_media_type-media_type_of automotive disk_raw uncompressed = (refl, refl)
from_media_type-media_type_of automotive disk_raw gzip_layer = (refl, refl)
from_media_type-media_type_of automotive disk_raw xz_layer = (refl, refl)
from_media_type-media_type_of automotive disk_raw zstd_layer = (refl, refl)
from_media_type-media_type_of automotive disk_qcow2 uncompressed = (refl, refl)
from_media_type-media_type_of automotive disk_qcow2 gzip_layer = (refl, refl)
from_media_type-media_type_of automotive disk_qcow2 xz_layer = (refl, refl)
from_media_type-media_type_of automotive disk_qcow2 zstd_layer = (refl, refl)
from_media_type-media_type_of automotive disk_simg uncompressed = (refl, refl)
from_media_type-media_type_of automotive disk_simg gzip_layer = (refl, refl)
from_media_type-media_type_of automotive disk_simg xz_layer = (refl, refl)
from_media_type-media_type_of automotive disk_simg zstd_layer = (refl, refl)
from_media_type-media_type_of embedded disk_raw uncompressed = (refl, refl)
from_media_type-media_type_of embedded disk_raw gzip_layer = (refl, refl)
from_media_type-media_type_of embedded disk_raw xz_layer = (refl, refl)
from_media_type-media_type_of embedded disk_raw zstd_layer = (refl, refl)
from_media_type-media_type_of embedded disk_qcow2 uncompressed = (refl, refl)
from_media_type-media_type_of embedded disk_qcow2 gzip_layer = (refl, refl)
from_media_type-media_type_of embedded disk_qcow2 xz_layer = (refl, refl)
from_media_type-media_type_of embedded disk_qcow2 zstd_layer = (refl, refl)
from_media_type-media_type_of embedded disk_simg uncompressed = (refl, refl)
from_media_type-media_type_of embedded disk_simg gzip_layer = (refl, refl)
from_media_type-media_type_of embedded disk_simg xz_layer = (refl, refl)
from_media_type-media_type_of embedded disk_simg zstd_layer = (refl, refl)
