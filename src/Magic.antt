-- ===== src/Magic.antt =====
-- src/fls/magic_bytes.rs and src/fls/compression.rs: compression and archives by their first bytes.
-- The decompressors of other packages are parameters: what a sample of the data comes to.
pub mod Prefix
pub mod Tests
use fls.Base.{
  ℕ, ◌+◌, Bool, true, false, not, ◌&&◌, List, [], ◌∷◌, Option, none, some, ltb, ◌==◌, if◌then◌else◌,
  length, take, drop, Bytes,
}

pub data Compression : Type 0 where
  no_compression gzip xz zstd : Compression

abbrev pub gzip_magic : Bytes
gzip_magic = 31 ∷ 139 ∷ []

abbrev pub xz_magic : Bytes
xz_magic = 253 ∷ 55 ∷ 122 ∷ 88 ∷ 90 ∷ 0 ∷ []

abbrev pub zstd_magic : Bytes
zstd_magic = 40 ∷ 181 ∷ 47 ∷ 253 ∷ []

-- `starts_with` of the standard library
abbrev pub begins_with : Bytes → Bytes → Bool
begins_with [] bytes = true
begins_with (m ∷ magic) [] = false
begins_with (m ∷ magic) (b ∷ bytes) = (m == b) && begins_with magic bytes

unfoldable pub detect_compression : Bytes → Compression
detect_compression bytes =
    if begins_with gzip_magic bytes
    then gzip
    else if begins_with xz_magic bytes
    then xz
    else if begins_with zstd_magic bytes
    then zstd
    else no_compression

abbrev pub tar_magic_offset : ℕ
tar_magic_offset = 257

-- "ustar" and a zero
abbrev pub tar_magic : Bytes
tar_magic = 117 ∷ 115 ∷ 116 ∷ 97 ∷ 114 ∷ 0 ∷ []

unfoldable pub is_tar_archive : Bytes → Bool
is_tar_archive bytes = begins_with tar_magic (drop tar_magic_offset bytes)

pub data ContentType : Type 0 where
  raw_disk_image tar_archive : ContentType

pub data Content : Type 0 where
  insufficient : Content
  content : ContentType → Compression → Content

unfoldable pub content_type : Bytes → ContentType
unfolding is_tar_archive
content_type bytes = if is_tar_archive bytes then tar_archive else raw_disk_image

unfoldable pub sampled : Option Bytes → ContentType
unfolding content_type
sampled none = tar_archive
sampled (some bytes) = content_type bytes

module _ (gzip_sample xz_sample : Bytes → Option Bytes) where
  unfoldable pub content_of : Compression → Bytes → Content
  unfolding sampled content_type
  content_of gzip bytes = content (sampled (gzip_sample bytes)) gzip
  content_of xz bytes = content (sampled (xz_sample bytes)) xz
  content_of zstd bytes = content tar_archive zstd
  content_of no_compression bytes = content (content_type bytes) no_compression

  unfoldable pub detect_content_and_compression : Bytes → Content
  unfolding detect_compression content_of
  detect_content_and_compression bytes =
      if ltb (length bytes) 16 then insufficient else content_of (detect_compression bytes) bytes
