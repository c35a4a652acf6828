-- ===== src/Oci/Tar/Tests.antt =====
-- Runs of the models of src/fls/oci/from_oci.rs that find the disk image of an archive.
use fls.Base.{◌≡◌, refl, true, false, List, [], ◌∷◌, ◌++◌, none, some, take}
use fls.Oci.Text.{codes}
use fls.Magic.{tar_archive, raw_disk_image, gzip}
use fls.Oci.Tar.{
  file_name, is_disk_image, get_decompressor_hint, Entry, entry, extracted, TarChannel,
  extract_entries,
}
use fls.Oci.Tar.First.{NoImage, FirstOf, extract_entries-FirstOf}
use fls.Oci.Tar.Peek.{Source, reader, peek_bytes, read_all}
use fls.Oci.Tar.Peek.Kept.{peek_bytes-read_all}
use fls.Oci.Tar.Peek.Remaining.{remaining}

names_told :
    (file_name (codes "./boot/disk.img") ≡ some (codes "disk.img"))
    × (file_name (codes "boot/") ≡ some (codes "boot"))
    × (file_name (codes "boot/..") ≡ none)
    × (file_name (codes ".") ≡ none)
unfolding file_name
names_told = (refl, refl, refl, refl)

images_told :
    (is_disk_image (codes "a/disk.raw.xz") none ≡ true)
    × (is_disk_image (codes "a/.disk.raw") none ≡ false)
    × (is_disk_image (codes "a/notes.txt") none ≡ false)
    × (is_disk_image (codes "a/notes.txt") (some (codes "notes*")) ≡ true)
unfolding is_disk_image
images_told = (refl, refl, refl, refl)

hints_told :
    (get_decompressor_hint tar_archive gzip none ≡ codes "disk.img.gz")
    × (get_decompressor_hint raw_disk_image gzip none ≡ codes "disk.img.xz")
    × (get_decompressor_hint tar_archive gzip (some (codes "*.xz")) ≡ codes "disk.img.xz")
unfolding get_decompressor_hint
hints_told = (refl, refl, refl)

abbrev archive : List Entry
archive =
    entry (codes "notes.txt") ((1 ∷ []) ∷ []) true
    ∷ entry (codes "disk.img") ((2 ∷ 3 ∷ []) ∷ (4 ∷ []) ∷ []) true
    ∷ entry (codes "other.img") ((5 ∷ []) ∷ []) true
    ∷ []

abbrev open_channel : TarChannel
open_channel = record { sent = []; closes_after = none }

extract_entries-FirstOf_example :
    (before : List Entry) × (after : List Entry) × (archive ≡ before ++ after)
    × NoImage none before
    × FirstOf none after open_channel (extract_entries none archive open_channel)
extract_entries-FirstOf_example = extract_entries-FirstOf none archive open_channel

image_sent :
    extract_entries none archive open_channel
    ≡ (extracted, record { sent = (2 ∷ 3 ∷ []) ∷ (4 ∷ []) ∷ []; closes_after = none })
unfolding extract_entries
image_sent = refl

abbrev slow : Source
slow = record { held = 1 ∷ 2 ∷ 3 ∷ 4 ∷ 5 ∷ 6 ∷ []; at_most = 0 ∷ 1 ∷ [] }

peek_bytes-read_all_example :
    ((peek_bytes 4 (reader slow)).0 ≡ take 4 slow.held)
    × ((read_all (2 ∷ 5 ∷ []) (peek_bytes 4 (reader slow)).1).0
          ++ remaining (read_all (2 ∷ 5 ∷ []) (peek_bytes 4 (reader slow)).1).1
        ≡ slow.held)
peek_bytes-read_all_example = peek_bytes-read_all slow 4 (2 ∷ 5 ∷ [])

read_again : (read_all (2 ∷ 5 ∷ 5 ∷ []) (peek_bytes 4 (reader slow)).1).0 ≡ slow.held
unfolding peek_bytes read_all
read_again = refl
