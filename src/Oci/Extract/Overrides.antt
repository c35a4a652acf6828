-- ===== src/Oci/Extract/Overrides.antt =====
-- The loop over the overrides of an extraction of src/fls/oci/from_oci.rs.
use mathlib.Core.Path.{subst}
use fls.Base.{
  In, ◌+◌, ◌≡◌, ◌≢◌, refl, ◌∙◌, ◌⊎◌, inl, inr, Bool, true, false, not, List, [], ◌∷◌, arith,
  Bool-cases, Option, none, some, if◌then◌else◌,
}
use fls.Oci.Text.{Text, same_text}
use fls.Oci.Text.Equal.{same_text→eq, same_text_refl}
use fls.Oci.Maps.{Map, get, insert, has, get-insert, get-insert_all, get-insert_same}
use fls.Oci.MediaType.{compression}
use fls.Oci.Manifest.{Descriptor}
use fls.Oci.Partition.{is_supported_compression}
use fls.Oci.Extract.{
  unsupported_compression, invalid_mapping, going, ◌>>=◌, ◌>>◌, fail_if, layer_titled,
  override_from, Extraction, Request, overridden, extracted, image_name, stream_to, apply_override,
  apply_overrides,
}
use fls.Oci.Extract.Holds.{Ensures, Distinct, Titled, Wanted, Holds, extracted-Holds}
use fls.Oci.Extract.Layers.{
  bind-Ensures, map-Ensures, fail_if-Ensures, sanitize-Ensures, IsFree, insert-IsFree, AreFree,
}

-- A partition has a file.
abbrev pub Defined : Text → Map Text → Type 0
Defined name files = (path : Text) × (get name files ≡ some path)

insert-Defined :
    (k path : Text) (files : Map Text) (m : Text)
    → Defined m files
    → Defined m (insert k path files)
insert-Defined k path files m (p, e) = by (Bool-cases (same_text k m)) (get-insert k m path files)
  where
    by :
        (same_text k m ≡ true) ⊎ (same_text k m ≡ false)
        → get m (insert k path files) ≡ (if same_text k m then some path else get m files)
        → Defined m (insert k path files)
    by (inl same) i = (path, i ∙ rw same refl)
    by (inr other) i = (p, i ∙ rw other e)

module _ (r : Request) (all : List Descriptor) where
  abbrev pub AfterOverride : Text → Extraction → Extraction → Type 0
  AfterOverride n s t =
      Holds r all t
      × Defined n t.partition_files
      × ((m : Text) → Defined m s.partition_files → Defined m t.partition_files)
      × ((m : Text) → n ≢ m → IsFree s m → IsFree t m)

  override_from-AfterOverride :
      (n f : Text) (o : Option Text) (s : Extraction)
      → get f s.title_to_path ≡ o
      → In (n, f) r.overrides
      → Holds r all s
      → IsFree s n
      → Ensures (AfterOverride n s) (override_from r n f o s)
  unfolding override_from
  override_from-AfterOverride n f (some path) s e asked h free =
      let (l, titled, held) = h.paths f path e in
      (
        record {
          layers = h.layers;
          paths = h.paths;
          files =
              get-insert_all
                (λ j p. (m : Descriptor) × Wanted r all j m × (get p s.written ≡ some m.digest)) n
                path s.partition_files h.files (l, inl (f, asked, titled), held);
        },
        (path, get-insert_same n path s.partition_files),
        insert-Defined n path s.partition_files,
        λ m other x. x,
      )
  override_from-AfterOverride n f none s e asked h free = by (get f s.title_to_layer) refl
    where
      streamed :
          (l : Descriptor)
          → Titled r all f l
          → (ok : Bool)
          → Ensures (AfterOverride n s) (
              stream_to ok l.digest (image_name n) s >>= λ t.
              going (extracted n (some f) (image_name n) t))
      streamed l titled false = tt
      streamed l titled true = (
        subst
            (λ title. Holds r all (
              extracted n title (image_name n) (record s {
                written = insert (image_name n) l.digest s.written;
                downloads = s.downloads + 1;
              })))
            titled.1
            (extracted-Holds r all s l n (image_name n) (s.downloads + 1) h free titled.0
              (inl (f, asked, titled))),
        (image_name n, get-insert_same n (image_name n) s.partition_files),
        insert-Defined n (image_name n) s.partition_files,
        λ m other x. insert-IsFree n m l.digest s (s.downloads + 1) other x,
      )

      by :
          (o : Option Descriptor)
          → get f s.title_to_layer ≡ o
          → Ensures (AfterOverride n s) (
              layer_titled o >>= λ l.
              fail_if
                (not (is_supported_compression (compression l.media_type)))
                unsupported_compression
              >> (stream_to (r.succeeds s.downloads) l.digest (image_name n) s >>= λ t.
                  going (extracted n (some f) (image_name n) t)))
      by none e = tt
      by (some l) e =
          fail_if-Ensures (AfterOverride n s) _ unsupported_compression _
            (streamed l (h.layers f l e) (r.succeeds s.downloads))

  apply_override-AfterOverride :
      (n f : Text) (s : Extraction)
      → In (n, f) r.overrides
      → Holds r all s
      → IsFree s n
      → Ensures (AfterOverride n s) (apply_override r n f s)
  unfolding apply_override
  apply_override-AfterOverride n f s asked h free =
      sanitize-Ensures (AfterOverride n s) n invalid_mapping
        (λ name. override_from r name f (get f s.title_to_path) s)
        (override_from-AfterOverride n f (get f s.title_to_path) s refl asked h free)

  abbrev pub AfterOverrides : List (Text × Text) → Extraction → Extraction → Type 0
  AfterOverrides overrides s t =
      Holds r all t
      × ((m : Text) → has m (overridden overrides) ≡ true → Defined m t.partition_files)
      × ((m : Text) → Defined m s.partition_files → Defined m t.partition_files)

  pub apply_overrides-AfterOverrides :
      (overrides : List (Text × Text)) (s : Extraction)
      → ((o : Text × Text) → In o overrides → In o r.overrides)
      → Distinct (overridden overrides)
      → Holds r all s
      → AreFree r all (overridden overrides) s
      → Ensures (AfterOverrides overrides s) (apply_overrides r overrides s)
  unfolding apply_overrides
  apply_overrides-AfterOverrides [] s sub d h free =
      (h, λ m e. absurd (ground (arith, e)), λ m x. x)
  apply_overrides-AfterOverrides ((n, f) ∷ rest) s sub d h free =
      bind-Ensures (AfterOverride n s) (AfterOverrides ((n, f) ∷ rest) s) (apply_override r n f s)
        (λ t. apply_overrides r rest t)
        (apply_override-AfterOverride n f s (sub (n, f) (inl refl)) h
          (free n (rw (same_text_refl n) refl)))
        (λ t (ht, own, kept, spared).
          map-Ensures (AfterOverrides rest t) (AfterOverrides ((n, f) ∷ rest) s)
            (apply_overrides r rest t)
            (λ u (hu, named, more). (
              hu,
              λ m e. defined t u m own named more e (Bool-cases (same_text n m)),
              λ m x. more m (kept m x),
            ))
            (apply_overrides-AfterOverrides rest t (λ o among. sub o (inr among)) d.1 ht
              (λ m among. spared m (differs m among) (free m (ground (arith, among))))))
    where
      differs : (m : Text) → has m (overridden rest) ≡ true → n ≢ m
      differs m among e =
          let gone = subst (λ x. has x (overridden rest) ≡ false) e d.0 in
          absurd (ground (arith, gone, among))

      defined :
          (t u : Extraction) (m : Text)
          → Defined n t.partition_files
          → ((m : Text) → has m (overridden rest) ≡ true → Defined m u.partition_files)
          → ((m : Text) → Defined m t.partition_files → Defined m u.partition_files)
          → has m (overridden ((n, f) ∷ rest)) ≡ true
          → (same_text n m ≡ true) ⊎ (same_text n m ≡ false)
          → Defined m u.partition_files
      defined t u m own named more e (inl same) =
          subst (λ x. Defined x u.partition_files) (same_text→eq n m same) (more n own)
      defined t u m own named more e (inr other) = named m (ground (arith, e, other))
