-- ===== src/Fastboot/Process.antt =====
-- Where the files that src/fls/fastboot.rs flashes come from: `process_oci_image_to_dir`,
-- `extract_files_by_auto_detection_to_dir` and `extract_files_by_patterns_to_dir`. The files that are
-- found in an archive are a map from names to paths, where that extraction succeeds.
pub mod Mapped
use fls.Base.{ℕ, Bool, true, false, List, [], ◌∷◌, Option, none, some, if◌then◌else◌}
use fls.Oci.Text.{Text}
use fls.Oci.Maps.{Map, get, insert}
use fls.Oci.Manifest.{Manifest}
use fls.Oci.Partition.{is_empty}
use fls.Oci.Extract.{ExtractError, Extracting, going, stopped, Extraction}
use fls.Oci.Extract.Whole.{extract_files}
use fls.Fastboot.{
  FastbootError, Session, Flashed, flashed, stopped_by, flash_partitions_with_fastboot_cli,
}

pub data Prepared : Type 0 where
  prepared : Map Text → Prepared
  annotations_failed : ExtractError → Prepared
  no_annotations no_archive missing_file no_files : Prepared

abbrev pub found_file : Option Text → Text → Map Text → (Map Text → Prepared) → Prepared
found_file none partition files next = missing_file
found_file (some path) partition files next = next (insert partition path files)

abbrev pub some_files : Map Text → Prepared
some_files [] = no_files
some_files (f ∷ files) = prepared (f ∷ files)

unfoldable pub map_patterns : Map Text → List (Text × Text) → Map Text → Prepared
map_patterns file_map [] files = some_files files
map_patterns file_map ((partition, pattern) ∷ mappings) files =
    found_file (get pattern file_map) partition files (λ fs. map_patterns file_map mappings fs)

-- `none` where the archive cannot be extracted
unfoldable pub extract_files_by_patterns_to_dir : Option (Map Text) → List (Text × Text) → Prepared
unfolding map_patterns
extract_files_by_patterns_to_dir none mappings = no_archive
extract_files_by_patterns_to_dir (some file_map) mappings = map_patterns file_map mappings []

abbrev pub auto_detected : Extracting (Option Extraction) → Prepared
auto_detected (stopped e) = annotations_failed e
auto_detected (going none) = no_annotations
auto_detected (going (some s)) =
    if is_empty s.partition_files then no_annotations else prepared s.partition_files

abbrev pub with_mappings :
    Extracting (Option Extraction) → Option (Map Text) → List (Text × Text) → Prepared
with_mappings (stopped e) archive mappings = annotations_failed e
with_mappings (going (some s)) archive mappings = prepared s.partition_files
with_mappings (going none) archive mappings = extract_files_by_patterns_to_dir archive mappings

unfoldable pub process_oci_image_to_dir :
    (ℕ → Bool) → Manifest → Option (Map Text) → List (Text × Text) → Prepared
unfolding extract_files_by_patterns_to_dir
process_oci_image_to_dir succeeds manifest archive [] =
    auto_detected (extract_files succeeds manifest [] [])
process_oci_image_to_dir succeeds manifest archive (m ∷ mappings) =
    with_mappings (extract_files succeeds manifest [] (m ∷ mappings)) archive (m ∷ mappings)
