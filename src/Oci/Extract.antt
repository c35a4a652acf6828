-- ===== src/Oci/Extract.antt =====
-- src/fls/oci/from_oci.rs: `extract_files_by_annotations_with_overrides_to_dir`, which writes a file
-- for each partition, of the layer that an annotation or an override names. A path is its name in the
-- output directory, the content of a file is the digest of the blob that was written to it, and
-- whether a download succeeds is a function of how many came before. Texts of errors are left out.
pub mod Whole
pub mod Holds
pub mod Partitions
pub mod Layers
pub mod Overrides
pub mod Right
pub mod Tests
use fls.Base.{
  ℕ, zero, suc, min, ◌+◌, ◌-◌, Bool, true, false, ◌&&◌, ◌||◌, not, List, [], ◌∷◌, ◌++◌, map, Option,
  none, some, ltb, leb, ◌==◌, if◌then◌else◌,
}
use fls.Oci.Text.{Text, codes, same_text, utf8_width, utf8_length}
use fls.Oci.Maps.{Map, get, insert, has, insert_key}
use fls.Oci.MediaType.{compression}
use fls.Oci.Manifest.{Descriptor, Manifest, image, index}
use fls.Oci.Partition.{
  Named, named, not_named, NameError, AnnotationSchema, effective_schemas,
  resolve_annotation_schema, annotation, is_empty, title_key, looks_like_tar_layer,
  is_supported_compression, sanitize_partition_name, Defaults, no_defaults, empty_defaults,
  defaults, invalid_default, parse_default_partitions,
}

pub data ExtractError : Type 0 where
  needs_platform unsupported_compression download_failed empty_default_partitions
        no_partitions_found no_default_matched override_not_found :
      ExtractError
  invalid_default_partition invalid_annotation invalid_mapping : NameError → ExtractError
  -- a digest is cut where it is too short or within a character
  panicked : ExtractError

-- A step of the extraction, which may end it.
pub data Extracting {ℓ} (A : Type ℓ) : Type ℓ where
  stopped : ExtractError → Extracting A
  going : A → Extracting A

infixl 5 ◌>>=◌ ◌>>◌
abbrev pub ◌>>=◌ {ℓ κ} :
    {A : Type ℓ} {B : Type κ} → Extracting A → (A → Extracting B) → Extracting B
stopped cause >>= k = stopped cause
going r >>= k = k r

abbrev pub ◌>>◌ {ℓ} : {B : Type ℓ} → Extracting (Unit {0}) → Extracting B → Extracting B
m >> k = m >>= λ _. k

abbrev pub fail_if : Bool → ExtractError → Extracting (Unit {0})
fail_if true cause = stopped cause
fail_if false cause = going tt

abbrev pub name_or : Named → (NameError → ExtractError) → Extracting Text
name_or (named n) cause = going n
name_or (not_named e) cause = stopped (cause e)

-- The variables of the function, the files that are written, and how many downloads were made.
pub record Extraction : Type 0 where
  pub partition_files : Map Text
  pub title_to_layer : Map Descriptor
  pub title_to_path : Map Text
  pub has_partition_annotations : Bool
  pub available_partitions : List Text
  pub written : Map Text
  pub downloads : ℕ

abbrev pub begin : Extraction
begin = record {
  partition_files = [];
  title_to_layer = [];
  title_to_path = [];
  has_partition_annotations = false;
  available_partitions = [];
  written = [];
  downloads = 0;
}

-- What the loops read: whether a download succeeds, the key of partitions, those that are allowed,
-- and the overrides.
pub record Request : Type 0 where
  pub succeeds : ℕ → Bool
  pub partition_key : Option Text
  pub allowed : Option (List Text)
  pub overrides : List (Text × Text)

abbrev pub overridden : List (Text × Text) → List Text
overridden [] = []
overridden ((partition, filename) ∷ overrides) = partition ∷ overridden overrides

-- whether `&s[..n]` is in range and at a character's edge
abbrev pub can_slice : ℕ → Text → Bool
can_slice n [] = n == 0
can_slice n (c ∷ s) = (n == 0) || (leb (utf8_width c) n && can_slice (n - utf8_width c) s)

abbrev pub image_name : Text → Text
image_name partition = partition ++ codes ".img"

-- A call of `stream_blob_to_file`
abbrev pub stream_to : Bool → Text → Text → Extraction → Extracting Extraction
stream_to false digest path s = stopped download_failed
stream_to true digest path s =
    going (record s { written = insert path digest s.written; downloads = s.downloads + 1 })

abbrev pub keep_first : Option Descriptor → Text → Descriptor → Extraction → Extracting Extraction
keep_first none title layer s =
    going (record s { title_to_layer = insert title layer s.title_to_layer })
keep_first (some existing) title layer s =
    if can_slice (min 12 (utf8_length existing.digest)) existing.digest
      && can_slice (min 12 (utf8_length layer.digest)) layer.digest
    then going s
    else stopped panicked

-- The title of a layer
abbrev pub note_title : Option Text → Descriptor → Extraction → Extracting Extraction
note_title none layer s = going s
note_title (some title) layer s = keep_first (get title s.title_to_layer) title layer s

abbrev pub is_allowed : Option (List Text) → Text → Bool
is_allowed none partition = true
is_allowed (some allowed) partition = has partition allowed

abbrev pub insert_path : Option Text → Text → Map Text → Map Text
insert_path none path paths = paths
insert_path (some title) path paths = insert title path paths

abbrev pub extracted : Text → Option Text → Text → Extraction → Extraction
extracted name title path s = record s {
  partition_files = insert name path s.partition_files;
  title_to_path = insert_path title path s.title_to_path;
}

-- A layer for a partition that is extracted
unfoldable pub extract_layer : Request → Descriptor → Text → Extraction → Extracting Extraction
unfolding is_supported_compression sanitize_partition_name compression
extract_layer r layer partition s = do
  fail_if (not (is_supported_compression (compression layer.media_type))) unsupported_compression
  name ← name_or (sanitize_partition_name partition) invalid_annotation
  fail_if (not (can_slice 12 layer.digest)) panicked
  t ← stream_to (r.succeeds s.downloads) layer.digest (image_name name) s
  going (extracted name (annotation title_key layer.annotations) (image_name name) t)

abbrev pub annotated : Text → Extraction → Extraction
annotated partition s = record s {
  has_partition_annotations = true;
  available_partitions = insert_key partition s.available_partitions;
}

-- The partition of a layer
unfoldable pub on_partition :
    Request → Option Text → Descriptor → Extraction → Extracting Extraction
unfolding extract_layer
on_partition r none layer s = going s
on_partition r (some partition) layer s =
    if has partition (overridden r.overrides)
    then going (annotated partition s)
    else if not (is_allowed r.allowed partition)
    then going (annotated partition s)
    else extract_layer r layer partition (annotated partition s)

abbrev pub partition_of : Option Text → Descriptor → Option Text
partition_of none layer = none
partition_of (some key) layer = annotation key layer.annotations

unfoldable pub on_layer : Request → Descriptor → Extraction → Extracting Extraction
unfolding on_partition
on_layer r layer s = do
  t ← note_title (annotation title_key layer.annotations) layer s
  on_partition r (partition_of r.partition_key layer) layer t

unfoldable pub on_layers : Request → List Descriptor → Extraction → Extracting Extraction
unfolding on_layer
on_layers r [] s = going s
on_layers r (layer ∷ layers) s = on_layer r layer s >>= λ t. on_layers r layers t

abbrev pub layer_titled : Option Descriptor → Extracting Descriptor
layer_titled none = stopped override_not_found
layer_titled (some layer) = going layer

abbrev pub map_partition : Text → Text → Extraction → Extraction
map_partition name path s = record s { partition_files = insert name path s.partition_files }

-- An override, where a file with its title may have been written
unfoldable pub override_from :
    Request → Text → Text → Option Text → Extraction → Extracting Extraction
unfolding is_supported_compression compression
override_from r name filename (some path) s = going (map_partition name path s)
override_from r name filename none s = do
  layer ← layer_titled (get filename s.title_to_layer)
  fail_if (not (is_supported_compression (compression layer.media_type))) unsupported_compression
  t ← stream_to (r.succeeds s.downloads) layer.digest (image_name name) s
  going (extracted name (some filename) (image_name name) t)

unfoldable pub apply_override : Request → Text → Text → Extraction → Extracting Extraction
unfolding override_from sanitize_partition_name
apply_override r partition filename s = do
  name ← name_or (sanitize_partition_name partition) invalid_mapping
  override_from r name filename (get filename s.title_to_path) s

unfoldable pub apply_overrides : Request → List (Text × Text) → Extraction → Extracting Extraction
unfolding apply_override
apply_overrides r [] s = going s
apply_overrides r ((partition, filename) ∷ overrides) s =
    apply_override r partition filename s >>= λ t. apply_overrides r overrides t
