-- ===== src/Fastboot/Process/Mapped.antt =====
-- Which files src/fls/fastboot.rs maps to partitions by their names.
use fls.Base.{
  ◌≡◌, refl, ap, ◌∙◌, ◌⊎◌, inl, inr, Bool, true, false, List, [], ◌∷◌, Option, none, some, arith,
  if◌then◌else◌,
}
use fls.Oci.Text.{Text, same_text}
use fls.Oci.Maps.{Map, get, insert, has, get-insert, get-insert_same}
use fls.Oci.Extract.{overridden}
use fls.Oci.Extract.Holds.{Distinct}
use fls.Oci.Partition.{is_empty}
use fls.Fastboot.Process.{
  Prepared, prepared, annotations_failed, no_annotations, no_archive, missing_file, no_files,
  found_file, some_files, map_patterns, extract_files_by_patterns_to_dir,
}

module _ (file_map : Map Text) where
  -- Each mapping has its file in the archive, and that is its partition's.
  abbrev pub MappedAll : List (Text × Text) → Map Text → Type 0
  MappedAll [] files = Unit
  MappedAll ((partition, pattern) ∷ mappings) files =
      ((path : Text) × (get pattern file_map ≡ some path) × (get partition files ≡ some path))
      × MappedAll mappings files

  -- A pattern without a file
  abbrev pub Missing : List (Text × Text) → Type 0
  Missing [] = ⊥
  Missing ((partition, pattern) ∷ mappings) = (get pattern file_map ≡ none) ⊎ Missing mappings

  abbrev pub Mapped : List (Text × Text) → Map Text → Prepared → Type 0
  Mapped mappings before (prepared files) =
      MappedAll mappings files
      × ((n : Text) → has n (overridden mappings) ≡ false → get n files ≡ get n before)
  Mapped mappings before missing_file = Missing mappings
  Mapped mappings before no_files = (mappings ≡ []) × (before ≡ [])
  Mapped mappings before _ = ⊥

  some_files-Mapped : (files : Map Text) → Mapped [] files (some_files files)
  some_files-Mapped [] = (refl, refl)
  some_files-Mapped (f ∷ files) = (tt, λ n e. refl)

  insert_nonempty : (k v : Text) (m : Map Text) → insert k v m ≡ [] → ⊥
  insert_nonempty k v [] e = ground (arith, ap is_empty e)
  insert_nonempty k v ((a, w) ∷ m) e = by (same_text a k) (ap is_empty e)
    where
      by : (b : Bool) → is_empty (if b then (a, v) ∷ m else (a, w) ∷ insert k v m) ≡ true → ⊥
      by true e = ground (arith, e)
      by false e = ground (arith, e)

  found-Mapped :
      (partition pattern path : Text) (mappings : List (Text × Text)) (before : Map Text)
      (r : Prepared)
      → get pattern file_map ≡ some path
      → has partition (overridden mappings) ≡ false
      → Mapped mappings (insert partition path before) r
      → Mapped ((partition, pattern) ∷ mappings) before r
  found-Mapped partition pattern path mappings before (prepared files) e d (all, kept) = (
    ((path, e, kept partition d ∙ get-insert_same partition path before), all),
    λ n h.
        let other : same_text partition n ≡ false = ground (arith, h) in
        let later : has n (overridden mappings) ≡ false = ground (arith, h) in
        kept n later ∙ get-insert partition n path before ∙ rw other refl,
  )
  found-Mapped partition pattern path mappings before missing_file e d m = inr m
  found-Mapped partition pattern path mappings before no_files e d m =
      absurd (insert_nonempty partition path before m.1)
  found-Mapped partition pattern path mappings before (annotations_failed _) e d m = absurd m
  found-Mapped partition pattern path mappings before no_annotations e d m = absurd m
  found-Mapped partition pattern path mappings before no_archive e d m = absurd m

  map_patterns-Mapped :
      (mappings : List (Text × Text)) (before : Map Text)
      → Distinct (overridden mappings)
      → Mapped mappings before (map_patterns file_map mappings before)
  unfolding map_patterns
  map_patterns-Mapped [] before d = some_files-Mapped before
  map_patterns-Mapped ((partition, pattern) ∷ mappings) before d =
      by (get pattern file_map) refl
        (λ path. map_patterns-Mapped mappings (insert partition path before) d.1)
    where
      by :
          (o : Option Text)
          → get pattern file_map ≡ o
          → ((path : Text)
              → Mapped mappings
                  (insert partition path before)
                  (map_patterns file_map mappings (insert partition path before)))
          → Mapped
              ((partition, pattern) ∷ mappings)
              before
              (found_file o partition before (λ fs. map_patterns file_map mappings fs))
      by none e k = inl e
      by (some path) e k = found-Mapped partition pattern path mappings before _ e d.0 (k path)

-- What the extraction by patterns comes to
abbrev pub MappedFrom : Option (Map Text) → List (Text × Text) → Prepared → Type 0
MappedFrom none mappings r = r ≡ no_archive
MappedFrom (some file_map) mappings r = Mapped file_map mappings [] r

-- Where no partition is mapped twice, the extraction by patterns ends well only where each mapping's
-- pattern names a file of the archive, and then that file is the partition's and no other partition has
-- one. Otherwise the archive could not be extracted, a pattern names no file of it, or there are no
-- mappings.
pub extract_files_by_patterns_to_dir-MappedFrom :
    (archive : Option (Map Text)) (mappings : List (Text × Text))
    → Distinct (overridden mappings)
    → MappedFrom archive mappings (extract_files_by_patterns_to_dir archive mappings)
unfolding extract_files_by_patterns_to_dir
extract_files_by_patterns_to_dir-MappedFrom none mappings d = refl
extract_files_by_patterns_to_dir-MappedFrom (some file_map) mappings d =
    map_patterns-Mapped file_map mappings [] d
