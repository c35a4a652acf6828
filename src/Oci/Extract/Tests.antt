-- ===== src/Oci/Extract/Tests.antt =====
-- Runs of the models of the extraction in src/fls/oci/from_oci.rs.
use fls.Base.{ℕ, ◌≡◌, refl, Bool, true, List, [], ◌∷◌, Option, none, some}
use fls.Oci.Text.{Text, codes}
use fls.Oci.Maps.{Map}
use fls.Oci.Manifest.{Descriptor, Manifest, image}
use fls.Oci.Partition.{resolve_annotation_schema, title_key, generic_schema}
use fls.Oci.Extract.{Extracting, going, stopped, panicked, Extraction}
use fls.Oci.Extract.Whole.{extract_files}
use fls.Oci.Extract.Holds.{Ensures}
use fls.Oci.Extract.Right.{EndsFor, extract_files-EndsFor}

abbrev layer_of : Text → Map Text → Descriptor
layer_of digest annotations = record {
  media_type = codes "application/octet-stream";
  digest = digest;
  size = 1;
  annotations = some annotations;
  platform = none;
}

abbrev partition_key : Text
partition_key = generic_schema.partition_key

abbrev boot : Descriptor
boot =
    layer_of (codes "sha256:00001")
      ((title_key, codes "a.img") ∷ (partition_key, codes "boot") ∷ [])

abbrev root : Descriptor
root =
    layer_of (codes "sha256:00002")
      ((title_key, codes "b.img") ∷ (partition_key, codes "root") ∷ [])

abbrev manifest_of : List Descriptor → Manifest
manifest_of layers = image (record {
  schema_version = 2;
  media_type = none;
  artifact_type = none;
  config = boot;
  layers = layers;
  annotations = none;
})

abbrev overrides : List (Text × Text)
overrides = (codes "root", codes "a.img") ∷ (codes "data", codes "b.img") ∷ []

abbrev all_succeed : ℕ → Bool
all_succeed n = true

extract_files-EndsFor_example :
    Ensures
      (EndsFor all_succeed (manifest_of (boot ∷ root ∷ [])) [] overrides)
      (extract_files all_succeed (manifest_of (boot ∷ root ∷ [])) [] overrides)
unfolding resolve_annotation_schema
extract_files-EndsFor_example =
    extract_files-EndsFor all_succeed (manifest_of (boot ∷ root ∷ [])) [] overrides
      (refl, (refl, tt)) (refl, (refl, tt))

abbrev files_in : Extracting (Option Extraction) → Map Text
files_in (going (some s)) = s.partition_files
files_in (going none) = []
files_in (stopped e) = []

abbrev written_in : Extracting (Option Extraction) → Map Text
written_in (going (some s)) = s.written
written_in (going none) = []
written_in (stopped e) = []

overridden_files :
    files_in (extract_files all_succeed (manifest_of (boot ∷ root ∷ [])) [] overrides)
    ≡ (codes "boot", codes "boot.img")
      ∷ (codes "root", codes "boot.img")
      ∷ (codes "data", codes "data.img")
      ∷ []
unfolding extract_files
overridden_files = refl

overridden_written :
    written_in (extract_files all_succeed (manifest_of (boot ∷ root ∷ [])) [] overrides)
    ≡ (codes "boot.img", codes "sha256:00001") ∷ (codes "data.img", codes "sha256:00002") ∷ []
unfolding extract_files
overridden_written = refl

-- Two layers of one title: the first is kept by title, but the file of the second is what an override
-- of that title takes.
abbrev other : Descriptor
other =
    layer_of (codes "sha256:00003")
      ((title_key, codes "a.img") ∷ (partition_key, codes "root") ∷ [])

second_taken :
    files_in (
      extract_files all_succeed
        (manifest_of (boot ∷ other ∷ []))
        []
        ((codes "data", codes "a.img") ∷ []))
    ≡ (codes "boot", codes "boot.img")
      ∷ (codes "root", codes "root.img")
      ∷ (codes "data", codes "root.img")
      ∷ []
unfolding extract_files
second_taken = refl

-- A partition that is named twice: its file is written twice, and what was taken from it first is
-- another layer then.
overwritten :
    files_in (
      extract_files all_succeed
        (manifest_of (
          layer_of (codes "sha256:00001") ((title_key, codes "a.img") ∷ [])
          ∷ layer_of (codes "sha256:00002") ((title_key, codes "b.img") ∷ [])
          ∷ []))
        []
        ((codes "x", codes "a.img") ∷ (codes "x", codes "b.img") ∷ (codes "y", codes "a.img") ∷ []))
    ≡ (codes "x", codes "x.img") ∷ (codes "y", codes "x.img") ∷ []
unfolding extract_files
overwritten = refl

-- A digest of fewer than twelve bytes
short_digest :
    extract_files all_succeed
      (manifest_of (layer_of (codes "sha256:1") ((partition_key, codes "boot") ∷ []) ∷ []))
      []
      []
    ≡ stopped panicked
unfolding extract_files
short_digest = refl
