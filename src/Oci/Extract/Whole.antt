-- ===== src/Oci/Extract/Whole.antt =====
-- The whole of `extract_files_by_annotations_with_overrides_to_dir` in src/fls/oci/from_oci.rs: what
-- stands before and after the loops.
use fls.Base.{
  ℕ, Bool, true, false, ◌&&◌, ◌||◌, not, List, [], ◌∷◌, Option, none, some, if◌then◌else◌,
}
use fls.Oci.Text.{Text, same_text}
use fls.Oci.Manifest.{Descriptor, Manifest, image, index}
use fls.Oci.Partition.{
  AnnotationSchema, effective_schemas, resolve_annotation_schema, annotation, is_empty, title_key,
  looks_like_tar_layer, Defaults, no_defaults, empty_defaults, defaults, invalid_default,
  parse_default_partitions,
}
use fls.Oci.Extract.{
  ExtractError, needs_platform, empty_default_partitions, invalid_default_partition,
  no_partitions_found, no_default_matched, Extracting, going, stopped, ◌>>=◌, Extraction, begin,
  Request, on_layers, apply_overrides,
}

abbrev pub get_layers : Manifest → Extracting (List Descriptor)
get_layers (image m) = going m.layers
get_layers (index i) = stopped needs_platform

abbrev pub allowed_by : Defaults → Extracting (Option (List Text))
allowed_by no_defaults = going none
allowed_by empty_defaults = stopped empty_default_partitions
allowed_by (invalid_default e) = stopped (invalid_default_partition e)
allowed_by (defaults partitions) = going (some partitions)

unfoldable pub allowed_in : Manifest → Option AnnotationSchema → Extracting (Option (List Text))
unfolding parse_default_partitions
allowed_in m none = going none
allowed_in m (some schema) = allowed_by (parse_default_partitions m schema)

abbrev pub key_of : Option AnnotationSchema → Option Text
key_of none = none
key_of (some schema) = some schema.partition_key

-- a layer that is the only one and looks like a tar archive: its title
unfoldable pub single_tar_layer : List Descriptor → Option (Option Text)
unfolding looks_like_tar_layer
single_tar_layer [] = none
single_tar_layer (layer ∷ []) =
    if looks_like_tar_layer layer then some (annotation title_key layer.annotations) else none
single_tar_layer (layer ∷ other ∷ layers) = none

abbrev pub has_filename : Text → List (Text × Text) → Bool
has_filename title [] = false
has_filename title ((partition, filename) ∷ overrides) =
    same_text filename title || has_filename title overrides

abbrev pub names_other_files : Option (Option Text) → List (Text × Text) → Bool
names_other_files none overrides = false
names_other_files (some none) overrides = true
names_other_files (some (some title)) overrides = not (has_filename title overrides)

-- After the layers: whether the caller is to search the archive for the files instead
unfoldable pub falls_back : List Descriptor → List (Text × Text) → Extraction → Bool
unfolding single_tar_layer
falls_back layers overrides s =
    (not s.has_partition_annotations && is_empty s.title_to_layer)
    || (not s.has_partition_annotations
        && (not (is_empty overrides) && names_other_files (single_tar_layer layers) overrides))

abbrev pub none_extracted : Option (List Text) → ExtractError
none_extracted none = no_partitions_found
none_extracted (some allowed) = no_default_matched

-- The files, where there are any
abbrev pub files_of : Option (List Text) → Extraction → Extracting (Option Extraction)
files_of allowed s =
    if is_empty s.partition_files then stopped (none_extracted allowed) else going (some s)

unfoldable pub after_layers :
    Request → List Descriptor → Extraction → Extracting (Option Extraction)
unfolding apply_overrides falls_back
after_layers r layers s =
    if not s.has_partition_annotations && (is_empty s.title_to_layer && is_empty r.overrides)
    then stopped no_partitions_found
    else if falls_back layers r.overrides s
    then going none
    else apply_overrides r r.overrides s >>= files_of r.allowed

abbrev pub request :
    (ℕ → Bool) → Option AnnotationSchema → Option (List Text) → List (Text × Text) → Request
request succeeds schema allowed overrides = record {
  succeeds = succeeds;
  partition_key = key_of schema;
  allowed = allowed;
  overrides = overrides;
}

unfoldable pub extract_files :
    (ℕ → Bool)
    → Manifest
    → List AnnotationSchema
    → List (Text × Text)
    → Extracting (Option Extraction)
unfolding on_layers after_layers allowed_in resolve_annotation_schema
extract_files succeeds manifest custom overrides = do
  layers ← get_layers manifest
  let schema = resolve_annotation_schema layers (effective_schemas custom)
  allowed ← allowed_in manifest schema
  s ← on_layers (request succeeds schema allowed overrides) layers begin
  after_layers (request succeeds schema allowed overrides) layers s
