-- ===== src/Oci/Extract/Right.antt =====
-- The files that an extraction of src/fls/oci/from_oci.rs ends with.
use fls.Base.{
  ℕ, ◌≡◌, refl, Bool, true, false, not, ◌&&◌, ◌||◌, List, [], arith, Option, none, some,
  if◌then◌else◌,
}
use fls.Oci.Text.{Text}
use fls.Oci.Maps.{get, has}
use fls.Oci.Manifest.{Descriptor, Manifest, image, index}
use fls.Oci.Partition.{is_empty, AnnotationSchema, resolve_annotation_schema, effective_schemas}
use fls.Oci.Extract.{
  no_partitions_found, Extracting, going, stopped, ◌>>=◌, Extraction, begin, Request, overridden,
  apply_overrides, on_layers,
}
use fls.Oci.Extract.Whole.{
  names_other_files, single_tar_layer, extract_files, after_layers, files_of, none_extracted,
  request, allowed_in, key_of,
}
use fls.Oci.Extract.Holds.{Ensures, Distinct, Wanted, Holds}
use fls.Oci.Extract.Layers.{bind-Ensures, map-Ensures, AreFree, on_layers-Holds}
use fls.Oci.Extract.Partitions.{partitions}
use fls.Oci.Extract.Overrides.{Defined, AfterOverrides, apply_overrides-AfterOverrides}

module _ (r : Request) (all : List Descriptor) where
  -- The files of an extraction that ends well: there are some, each partition that an override names
  -- has one, and each file holds a layer that is wanted for its partition.
  pub record IsRight (s : Extraction) : Type 0 where
    pub nonempty : is_empty s.partition_files ≡ false
    pub mapped : (m : Text) → has m (overridden r.overrides) ≡ true → Defined m s.partition_files
    pub files :
        (name path : Text)
        → get name s.partition_files ≡ some path
        → (l : Descriptor) × Wanted r all name l × (get path s.written ≡ some l.digest)

  -- An extraction that leaves the search to its caller has overrides.
  abbrev pub Ends : Option Extraction → Type 0
  Ends none = is_empty r.overrides ≡ false
  Ends (some s) = IsRight s

  after_layers-Ends :
      (s : Extraction)
      → Distinct (overridden r.overrides)
      → Holds r all s
      → AreFree r all (overridden r.overrides) s
      → Ensures Ends (after_layers r all s)
  unfolding after_layers
  after_layers-Ends s d h free =
      by s.has_partition_annotations (is_empty s.title_to_layer) (is_empty r.overrides)
        (names_other_files (single_tar_layer all) r.overrides) refl
    where
      ended :
          (t : Extraction) (b : Bool)
          → AfterOverrides r all r.overrides s t
          → is_empty t.partition_files ≡ b
          → Ensures Ends (if b then stopped (none_extracted r.allowed) else going (some t))
      ended t true x e = tt
      ended t false (ht, named, more) e = record { nonempty = e; mapped = named; files = ht.files }

      carried : Ensures Ends (apply_overrides r r.overrides s >>= files_of r.allowed)
      carried =
          bind-Ensures (AfterOverrides r all r.overrides s) Ends (apply_overrides r r.overrides s)
            (files_of r.allowed)
            (apply_overrides-AfterOverrides r all r.overrides s (λ o x. x) d h free)
            (λ t x. ended t (is_empty t.partition_files) x refl)

      by :
          (a b o x : Bool)
          → is_empty r.overrides ≡ o
          → Ensures Ends (
              if not a && (b && o)
              then stopped no_partitions_found
              else if (not a && b) || (not a && (not o && x))
              then going none
              else (apply_overrides r r.overrides s >>= files_of r.allowed))
      by true b o x e = carried
      by false true true x e = tt
      by false true false x e = e
      by false false true x e = carried
      by false false false true e = e
      by false false false false e = carried

abbrev pub layers_of : Manifest → List Descriptor
layers_of (image m) = m.layers
layers_of (index i) = []

abbrev pub schema_of : Manifest → List AnnotationSchema → Option AnnotationSchema
schema_of manifest custom =
    resolve_annotation_schema (layers_of manifest) (effective_schemas custom)

abbrev pub EndsFor :
    (ℕ → Bool) → Manifest → List AnnotationSchema → List (Text × Text) → Option Extraction → Type 0
EndsFor succeeds manifest custom overrides o =
    (allowed : Option (List Text)) × (allowed_in manifest (schema_of manifest custom)
      ≡ going allowed)
    × Ends (request succeeds (schema_of manifest custom) allowed overrides) (layers_of manifest) o

-- Where no two layers are annotated with the same partition and no two overrides name the same one,
-- whichever downloads fail: when the extraction ends without an error and with files, there are some,
-- each partition that an override names has one, and the file of each partition holds the blob of a
-- layer of the title that its override names, or where it has no override, of a layer that is
-- annotated with the partition, among those that the default partitions allow. It leaves the search
-- for files to its caller only where there are overrides.
pub extract_files-EndsFor :
    (succeeds : ℕ → Bool) (manifest : Manifest) (custom : List AnnotationSchema)
    (overrides : List (Text × Text))
    → Distinct (partitions (key_of (schema_of manifest custom)) (layers_of manifest))
    → Distinct (overridden overrides)
    → Ensures
        (EndsFor succeeds manifest custom overrides)
        (extract_files succeeds manifest custom overrides)
unfolding extract_files
extract_files-EndsFor succeeds (index i) custom overrides dp do' = tt
extract_files-EndsFor succeeds (image m) custom overrides dp do' =
    by (allowed_in (image m) schema) refl
  where
    schema : Option AnnotationSchema
    schema = schema_of (image m) custom

    by :
        (a : Extracting (Option (List Text)))
        → allowed_in (image m) schema ≡ a
        → Ensures (EndsFor succeeds (image m) custom overrides) (
            a >>= λ allowed.
            on_layers (request succeeds schema allowed overrides) m.layers begin >>= λ s.
            after_layers (request succeeds schema allowed overrides) m.layers s)
    by (stopped cause) e = tt
    by (going allowed) e =
        let r = request succeeds schema allowed overrides in
        bind-Ensures (λ t. Holds r m.layers t × AreFree r m.layers (overridden overrides) t)
          (EndsFor succeeds (image m) custom overrides) (on_layers r m.layers begin)
          (λ s. after_layers r m.layers s)
          (on_layers-Holds r m.layers m.layers begin (λ l x. x) dp
            (record {
              layers = λ t l e. absurd (ground (arith, e));
              paths = λ t p e. absurd (ground (arith, e));
              files = λ t p e. absurd (ground (arith, e));
            })
            (λ n x. refl) (λ n x. refl))
          (λ t ht.
            map-Ensures (Ends r m.layers) (EndsFor succeeds (image m) custom overrides)
              (after_layers r m.layers t) (λ o x. (allowed, e, x))
              (after_layers-Ends r m.layers t do' ht.0 ht.1))
