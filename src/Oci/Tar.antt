-- ===== src/Oci/Tar.antt =====
-- src/fls/oci/from_oci.rs: which file of a tar archive is the disk image, and its way to the
-- decompressor. The archive, which another package reads, is the list of its entries.
pub mod Pattern
pub mod First
pub mod Peek
pub mod Tests
use fls.Base.{
  ℕ, zero, suc, Bool, true, false, not, ◌&&◌, ◌||◌, List, [], ◌∷◌, ◌++◌, Option, none, some, ◌==◌,
  if◌then◌else◌, Bytes,
}
use fls.Oci.Text.{Text, codes, split, same_text, starts_with, ends_with}
use fls.Oci.MediaType.{strip_prefix}
use fls.Oci.Partition.{is_empty}
use fls.Magic.{
  Compression, no_compression, gzip, xz, zstd, ContentType, raw_disk_image, tar_archive,
}

abbrev pub star : ℕ
star = 42

-- `strip_suffix` of the standard library, of one character
abbrev pub strip_last : ℕ → Text → Option Text
strip_last c [] = none
strip_last c (x ∷ []) = if x == c then some [] else none
strip_last c (x ∷ y ∷ s) = elim (strip_last c (y ∷ s)) [ none ↦ none | some t ↦ some (x ∷ t) ]

abbrev pub matches_prefix : Option Text → Text → Text → Bool
matches_prefix (some prefix) name pattern' = starts_with prefix name
matches_prefix none name pattern' = same_text name pattern'

abbrev pub matches_suffix : Option Text → Text → Text → Bool
matches_suffix (some suffix) name pattern' = ends_with suffix name
matches_suffix none name pattern' = matches_prefix (strip_last star pattern') name pattern'

unfoldable pub matches_pattern : Text → Text → Bool
matches_pattern name pattern' = matches_suffix (strip_prefix (star ∷ []) pattern') name pattern'

-- `Path::file_name`: the last part of a path, where that is a name
abbrev pub last_name : List Text → Option Text
last_name [] = none
last_name (part ∷ parts) = elim (last_name parts) [
  | some name ↦ some name
  | none ↦ if is_empty part || same_text part (codes ".") then none else some part
]

abbrev pub unless_parent : Option Text → Option Text
unless_parent none = none
unless_parent (some name) = if same_text name (codes "..") then none else some name

unfoldable pub file_name : Text → Option Text
file_name path = unless_parent (last_name (split 47 path))

abbrev pub disk_image_extensions : List Text
disk_image_extensions =
    codes ".img.xz"
    ∷ codes ".img.gz"
    ∷ codes ".img.bz2"
    ∷ codes ".raw.xz"
    ∷ codes ".raw.gz"
    ∷ codes ".raw.bz2"
    ∷ codes ".xz"
    ∷ codes ".gz"
    ∷ codes ".bz2"
    ∷ codes ".img"
    ∷ codes ".raw"
    ∷ []

abbrev pub has_extension : List Text → Text → Bool
has_extension [] name = false
has_extension (e ∷ extensions) name = ends_with e name || has_extension extensions name

unfoldable pub is_asked_for : Option Text → Text → Bool
unfolding matches_pattern
is_asked_for (some pattern') name = matches_pattern name pattern'
is_asked_for none name = has_extension disk_image_extensions name

unfoldable pub is_image_name : Option Text → Option Text → Bool
unfolding is_asked_for
is_image_name none pattern' = false
is_image_name (some name) pattern' =
    if starts_with (codes ".") name then false else is_asked_for pattern' name

unfoldable pub is_disk_image : Text → Option Text → Bool
unfolding file_name is_image_name
is_disk_image path pattern' = is_image_name (file_name path) pattern'

abbrev pub by_extension : Text → Text
by_extension pattern' =
    if ends_with (codes ".xz") pattern'
    then codes "disk.img.xz"
    else if ends_with (codes ".gz") pattern'
    then codes "disk.img.gz"
    else codes "disk.img"

abbrev pub by_content : ContentType → Compression → Text
by_content raw_disk_image kind = codes "disk.img.xz"
by_content tar_archive xz = codes "disk.img.xz"
by_content tar_archive gzip = codes "disk.img.gz"
by_content tar_archive zstd = codes "disk.img"
by_content tar_archive no_compression = codes "disk.img"

unfoldable pub get_decompressor_hint : ContentType → Compression → Option Text → Text
get_decompressor_hint content_type kind (some pattern') = by_extension pattern'
get_decompressor_hint content_type kind none = by_content content_type kind

-- An entry of the archive: an error of the archive or of the path, or a path and what the reads of its
-- content give until they are empty or fail.
pub data Entry : Type 0 where
  bad_entry bad_path : Entry
  entry : Text → List Bytes → Bool → Entry

pub data TarEnd : Type 0 where
  extracted : TarEnd
  tar_error path_error read_error channel_closed not_found : TarEnd

-- What was sent to the decompressor's channel, and how many sends succeed before it is closed
pub record TarChannel : Type 0 where
  pub sent : List Bytes
  pub closes_after : Option ℕ

abbrev pub sent_piece : TarChannel → Bytes → Option ℕ → TarChannel
sent_piece c piece closes = record { sent = c.sent ++ piece ∷ []; closes_after = closes }

-- The reads of the disk image
unfoldable pub send_content : List Bytes → Bool → TarChannel → TarEnd × TarChannel
send_content [] true c = (extracted, c)
send_content [] false c = (read_error, c)
send_content ([] ∷ pieces) ends_well c = (extracted, c)
send_content ((b ∷ piece) ∷ pieces) ends_well c = elim c.closes_after [
  | none ↦ send_content pieces ends_well (sent_piece c (b ∷ piece) none)
  | some zero ↦ (channel_closed, c)
  | some (suc n) ↦ send_content pieces ends_well (sent_piece c (b ∷ piece) (some n))
]

-- The loop over the entries of `extract_tar_stream_impl`
unfoldable pub extract_entries : Option Text → List Entry → TarChannel → TarEnd × TarChannel
unfolding is_disk_image send_content
extract_entries pattern' [] c = (not_found, c)
extract_entries pattern' (bad_entry ∷ entries) c = (tar_error, c)
extract_entries pattern' (bad_path ∷ entries) c = (path_error, c)
extract_entries pattern' (entry path pieces ends_well ∷ entries) c =
    elim (is_disk_image path pattern') [
      | true ↦ send_content pieces ends_well c
      | false ↦ extract_entries pattern' entries c
    ]
