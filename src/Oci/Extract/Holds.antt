-- ===== src/Oci/Extract/Holds.antt =====
-- What holds of the files in the course of an extraction of src/fls/oci/from_oci.rs.
use fls.Base.{
  In, ℕ, ◌≡◌, refl, ap, sym, ◌∙◌, ◌⊎◌, inl, inr, true, false, List, [], ◌∷◌, arith, Bool-cases,
  Option, none, some, if◌then◌else◌,
}
use fls.Oci.Text.{Text, same_text}
use fls.Oci.Text.Equal.{same_text→eq}
use fls.Oci.Maps.{Map, get, insert, has, get-insert, get-insert_same, get-insert_all}
use fls.Oci.Manifest.{Descriptor}
use fls.Oci.Partition.{annotation, title_key}
use fls.Oci.Extract.{
  Extracting, going, stopped, Extraction, Request, overridden, is_allowed, insert_path, extracted,
  partition_of,
}

-- What a step leaves, where it goes on.
abbrev pub Ensures {ℓ κ} : {A : Type ℓ} → (A → Type κ) → Extracting A → Type κ
Ensures P (stopped cause) = Unit
Ensures P (going a) = P a

abbrev pub Distinct : List Text → Type 0
Distinct [] = Unit
Distinct (x ∷ xs) = (has x xs ≡ false) × Distinct xs

-- A file that was written is left by a write to another path that held nothing.
get-insert_kept :
    (path p d e : Text) (w : Map Text)
    → get path w ≡ none
    → get p w ≡ some e
    → get p (insert path d w) ≡ some e
get-insert_kept path p d e w fresh held = get-insert path p d w ∙ by (Bool-cases (same_text path p))
  where
    by :
        (same_text path p ≡ true) ⊎ (same_text path p ≡ false)
        → (if same_text path p then some d else get p w) ≡ some e
    by (inr other) = rw other held
    by (inl same) =
        let clash : none ≡ some e =
          sym fresh ∙ ap (λ t. get t w) (same_text→eq path p same) ∙ held in
        absurd (ground (arith, clash))

module _ (r : Request) (all : List Descriptor) where
  abbrev pub Titled : Text → Descriptor → Type 0
  Titled title l = In l all × (annotation title_key l.annotations ≡ some title)

  -- A layer that the request asks for as a partition: one of the title that an override names, or
  -- where no override names the partition, one with its annotation, where that is allowed.
  abbrev pub Wanted : Text → Descriptor → Type 0
  Wanted name l =
      ((filename : Text) × In (name, filename) r.overrides × Titled filename l)
      ⊎ (In l all
          × (partition_of r.partition_key l ≡ some name)
          × (has name (overridden r.overrides) ≡ false)
          × (is_allowed r.allowed name ≡ true))

  pub record Holds (s : Extraction) : Type 0 where
    pub layers :
        (title : Text) (l : Descriptor) → get title s.title_to_layer ≡ some l → Titled title l
    pub paths :
        (title path : Text)
        → get title s.title_to_path ≡ some path
        → (l : Descriptor) × Titled title l × (get path s.written ≡ some l.digest)
    pub files :
        (name path : Text)
        → get name s.partition_files ≡ some path
        → (l : Descriptor) × Wanted name l × (get path s.written ≡ some l.digest)

  -- A layer that is written to a new file, for a partition and under its title
  pub extracted-Holds :
      (s : Extraction) (l : Descriptor) (name path : Text) (n : ℕ)
      → Holds s
      → get path s.written ≡ none
      → In l all
      → Wanted name l
      → Holds (
          extracted name
            (annotation title_key l.annotations)
            path
            (record s { written = insert path l.digest s.written; downloads = n }))
  extracted-Holds s l name path n h fresh among wanted = record {
    layers = h.layers;
    paths = by (annotation title_key l.annotations) refl;
    files =
        get-insert_all (λ j p. (m : Descriptor) × Wanted j m × (get p now ≡ some m.digest)) name
          path s.partition_files (λ j p e. kept p (h.files j p e))
          (l, wanted, get-insert_same path l.digest s.written);
  }
    where
      now : Map Text
      now = insert path l.digest s.written

      kept :
          {Q : Descriptor → Type 0} (p : Text)
          → (m : Descriptor) × Q m × (get p s.written ≡ some m.digest)
          → (m : Descriptor) × Q m × (get p now ≡ some m.digest)
      kept p (m, q, e) = (m, q, get-insert_kept path p l.digest m.digest s.written fresh e)

      by :
          (o : Option Text)
          → annotation title_key l.annotations ≡ o
          → (title p : Text) → get title (insert_path o path s.title_to_path) ≡ some p
          → (m : Descriptor) × Titled title m × (get p now ≡ some m.digest)
      by none e title p found = kept p (h.paths title p found)
      by (some t) e title p found =
          get-insert_all (λ j p. (m : Descriptor) × Titled j m × (get p now ≡ some m.digest)) t path
            s.title_to_path (λ j p e. kept p (h.paths j p e))
            (l, (among, e), get-insert_same path l.digest s.written) title p found
