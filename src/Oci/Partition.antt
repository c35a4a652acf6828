-- ===== src/Oci/Partition.antt =====
-- src/fls/oci/from_oci.rs: names of partitions, and which layers are tar archives; and the schemas of
-- annotations in src/fls/annotation_schema.rs.
pub mod Safe
pub mod Tests
use fls.Base.{
  ℕ, Bool, true, false, ◌&&◌, ◌||◌, not, List, [], ◌∷◌, map, Option, none, some, leb, ◌==◌,
  if◌then◌else◌,
}
use fls.Oci.Text.{
  Text, codes, all, contains, contains_text, ends_with, split, trim, to_ascii_lowercase,
  starts_with,
}
use fls.Oci.Maps.{Map, get, insert_key}
use fls.Oci.MediaType.{
  LayerCompression, uncompressed, gzip_layer, xz_layer, zstd_layer, compression,
}
use fls.Oci.Manifest.{Descriptor, Manifest, image, index}

pub data NameError : Type 0 where
  empty_name absolute_path has_dot_dot has_separator has_invalid_character : NameError

pub data Named : Type 0 where
  named : Text → Named
  not_named : NameError → Named

-- `is_absolute` on Unix
abbrev pub is_absolute : Text → Bool
is_absolute [] = false
is_absolute (c ∷ s) = c == 47

abbrev pub is_ascii_alphanumeric : ℕ → Bool
is_ascii_alphanumeric c =
    (leb 48 c && leb c 57) || ((leb 65 c && leb c 90) || (leb 97 c && leb c 122))

-- letters, digits, '.', '_' and '-'
abbrev pub is_name_character : ℕ → Bool
is_name_character c = is_ascii_alphanumeric c || (c == 46 || (c == 95 || c == 45))

abbrev pub is_empty {ℓ} : {A : Type ℓ} → List A → Bool
is_empty [] = true
is_empty (x ∷ xs) = false

unfoldable pub sanitize_partition_name : Text → Named
sanitize_partition_name name =
    if is_empty name
    then not_named empty_name
    else if is_absolute name
    then not_named absolute_path
    else if contains_text (46 ∷ 46 ∷ []) name
    then not_named has_dot_dot
    else if contains 47 name || contains 92 name
    then not_named has_separator
    else if not (all is_name_character name)
    then not_named has_invalid_character
    else named name

pub record AnnotationSchema : Type 0 where
  pub name : Text
  pub partition_key : Text
  pub default_partitions_key : Text

abbrev pub automotive_schema : AnnotationSchema
automotive_schema = record {
  name = codes "automotive";
  partition_key = codes "automotive.sdv.cloud.redhat.com/partition";
  default_partitions_key = codes "automotive.sdv.cloud.redhat.com/default-partitions";
}

abbrev pub generic_schema : AnnotationSchema
generic_schema = record {
  name = codes "generic";
  partition_key = codes "dev.jumpstarter.fls/partition";
  default_partitions_key = codes "dev.jumpstarter.fls/default-partitions";
}

abbrev pub default_search_order : List AnnotationSchema
default_search_order = generic_schema ∷ automotive_schema ∷ []

abbrev pub effective_schemas : List AnnotationSchema → List AnnotationSchema
effective_schemas [] = default_search_order
effective_schemas (s ∷ custom) = s ∷ custom

-- `find` and `any` of the standard library
abbrev pub find_schema : (AnnotationSchema → Bool) → List AnnotationSchema → Option AnnotationSchema
find_schema p [] = none
find_schema p (s ∷ schemas) = if p s then some s else find_schema p schemas

abbrev pub any_layer : (Descriptor → Bool) → List Descriptor → Bool
any_layer p [] = false
any_layer p (l ∷ layers) = p l || any_layer p layers

-- a value among the annotations that a layer may have
abbrev pub annotation : Text → Option (Map Text) → Option Text
annotation key none = none
annotation key (some annotations) = get key annotations

abbrev pub is_given {ℓ} : {A : Type ℓ} → Option A → Bool
is_given none = false
is_given (some a) = true

unfoldable pub resolve_annotation_schema :
    List Descriptor → List AnnotationSchema → Option AnnotationSchema
resolve_annotation_schema layers schemas =
    find_schema (λ s. any_layer (λ l. is_given (annotation s.partition_key l.annotations)) layers)
      schemas

-- `parse_default_partitions`: no names, the names, an invalid entry, or an empty list.
pub data Defaults : Type 0 where
  no_defaults empty_defaults : Defaults
  defaults : List Text → Defaults
  invalid_default : NameError → Defaults

abbrev pub add_default : Named → List Text → (List Text → Defaults) → Defaults
add_default (named name) partitions next = next (insert_key name partitions)
add_default (not_named e) partitions next = invalid_default e

-- an entry of the list, and those after it
abbrev pub collected : List Text → Defaults
collected [] = empty_defaults
collected (p ∷ partitions) = defaults (p ∷ partitions)

unfoldable pub collect_defaults : List Text → List Text → Defaults
unfolding sanitize_partition_name
collect_defaults [] partitions = collected partitions
collect_defaults (entry ∷ entries) partitions = elim (is_empty (trim entry)) [
  | true ↦ collect_defaults entries partitions
  | false ↦
      add_default (sanitize_partition_name (trim entry)) partitions
        (λ ps. collect_defaults entries ps)
]

unfoldable pub defaults_of : Option Text → Defaults
unfolding collect_defaults
defaults_of none = no_defaults
defaults_of (some raw) = collect_defaults (split 44 raw) []

unfoldable pub parse_default_partitions : Manifest → AnnotationSchema → Defaults
unfolding defaults_of
parse_default_partitions (image m) schema =
    defaults_of (annotation schema.default_partitions_key m.annotations)
parse_default_partitions (index i) schema = no_defaults

abbrev pub title_key : Text
title_key = codes "org.opencontainers.image.title"

abbrev pub has_tar_extension : Text → Bool
has_tar_extension title =
    ends_with (codes ".tar") title
    || (ends_with (codes ".tar.gz") title
        || (ends_with (codes ".tgz") title
            || (ends_with (codes ".tar.xz") title || ends_with (codes ".tar.lz4") title)))

abbrev pub title_has_tar_extension : Option Text → Bool
title_has_tar_extension none = false
title_has_tar_extension (some title) = has_tar_extension (map to_ascii_lowercase title)

unfoldable pub looks_like_tar_layer : Descriptor → Bool
looks_like_tar_layer l =
    if contains_text (codes "tar") l.media_type
    then true
    else title_has_tar_extension (annotation title_key l.annotations)

-- `ensure_supported_layer_compression`, where it does not fail
unfoldable pub is_supported_compression : LayerCompression → Bool
is_supported_compression uncompressed = true
is_supported_compression gzip_layer = true
is_supported_compression xz_layer = true
is_supported_compression zstd_layer = false
