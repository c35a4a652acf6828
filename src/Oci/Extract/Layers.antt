-- ===== src/Oci/Extract/Layers.antt =====
-- The loop over the layers of an extraction of src/fls/oci/from_oci.rs.
use Prim.Native.Nat.{min}
use mathlib.Core.List.{append_cancel_right}
use mathlib.Core.Path.{subst}
use fls.Base.{
  In, ℕ, ◌+◌, ◌≡◌, ◌≢◌, refl, ap, sym, ◌∙◌, ◌⊎◌, inl, inr, Bool, true, false, ◌&&◌, List, [], ◌∷◌,
  arith, Bool-cases, Option, none, some, if◌then◌else◌,
}
use fls.Oci.Text.{Text, codes, same_text, utf8_length}
use fls.Oci.Text.Equal.{same_text→eq}
use fls.Oci.Maps.{get, insert, has, get-insert, get-insert_all}
use fls.Oci.Manifest.{Descriptor}
use fls.Oci.Partition.{
  annotation, title_key, Named, named, not_named, NameError, sanitize_partition_name,
}
use fls.Oci.Partition.Safe.{SanitizedTo, sanitize_partition_name-SanitizedTo}
use fls.Oci.Extract.{
  can_slice, ExtractError, unsupported_compression, panicked, invalid_annotation, Extracting, going,
  stopped, ◌>>=◌, ◌>>◌, fail_if, name_or, Extraction, Request, overridden, is_allowed, extracted,
  partition_of, image_name, stream_to, keep_first, note_title, extract_layer, annotated,
  on_partition, on_layer, on_layers,
}
use fls.Oci.Extract.Holds.{Ensures, Distinct, Titled, Holds, extracted-Holds}
use fls.Oci.Extract.Partitions.{
  partitions, with_partition-head, with_partition-tail, with_partition-has,
}

module _ {A : Type 0} (P P' : A → Type 0) where
  pub map-Ensures : (m : Extracting A) → ((a : A) → P a → P' a) → Ensures P m → Ensures P' m
  map-Ensures (stopped cause) f p = tt
  map-Ensures (going a) f p = f a p

module _ {A B : Type 0} (P : A → Type 0) (Q : B → Type 0) where
  pub bind-Ensures :
      (m : Extracting A) (k : A → Extracting B)
      → Ensures P m
      → ((a : A) → P a → Ensures Q (k a))
      → Ensures Q (m >>= k)
  bind-Ensures (stopped cause) k p q = tt
  bind-Ensures (going a) k p q = q a p

module _ {B : Type 0} (Q : B → Type 0) where
  pub fail_if-Ensures :
      (b : Bool) (cause : ExtractError) (k : Extracting B)
      → Ensures Q k
      → Ensures Q (fail_if b cause >> k)
  fail_if-Ensures true cause k q = tt
  fail_if-Ensures false cause k q = q

  -- An accepted name is the name that was given.
  pub sanitize-Ensures :
      (name : Text) (cause : NameError → ExtractError) (k : Text → Extracting B)
      → Ensures Q (k name)
      → Ensures Q (name_or (sanitize_partition_name name) cause >>= k)
  sanitize-Ensures name cause k q =
      by (sanitize_partition_name name) (sanitize_partition_name-SanitizedTo name)
    where
      by : (x : Named) → SanitizedTo name x → Ensures Q (name_or x cause >>= k)
      by (not_named e) t = tt
      by (named n) t = subst (λ m. Ensures Q (k m)) (sym t.0) q

abbrev pub IsFree : Extraction → Text → Type 0
IsFree s name = get (image_name name) s.written ≡ none

pub insert-IsFree :
    (n m digest : Text) (s : Extraction) (count : ℕ)
    → n ≢ m
    → IsFree s m
    → IsFree (record s { written = insert (image_name n) digest s.written; downloads = count }) m
insert-IsFree n m digest s count other free =
    get-insert (image_name n) (image_name m) digest s.written
    ∙ by (Bool-cases (same_text (image_name n) (image_name m)))
  where
    by :
        (same_text (image_name n) (image_name m) ≡ true)
          ⊎ (same_text (image_name n) (image_name m) ≡ false)
        → (if same_text (image_name n) (image_name m)
            then some digest
            else get (image_name m) s.written)
          ≡ none
    by (inr differs) = rw differs free
    by (inl same) = absurd (
        other (
          append_cancel_right n m (codes ".img") (same_text→eq (image_name n) (image_name m) same)))

module _ (r : Request) (all : List Descriptor) where
  -- A layer writes no file but that of its partition, and none where the partition is overridden.
  abbrev pub Spares : Descriptor → Text → Type 0
  Spares l m = partition_of r.partition_key l ≡ some m → has m (overridden r.overrides) ≡ false → ⊥

  abbrev pub AfterLayer : Descriptor → Extraction → Extraction → Type 0
  AfterLayer l s t = Holds r all t × ((m : Text) → Spares l m → IsFree s m → IsFree t m)

  note_title-Holds :
      (o : Option Text) (l : Descriptor) (s : Extraction)
      → annotation title_key l.annotations ≡ o
      → In l all
      → Holds r all s
      → Ensures (λ t. Holds r all t × (t.written ≡ s.written)) (note_title o l s)
  note_title-Holds none l s e among h = (h, refl)
  note_title-Holds (some title) l s e among h = by (get title s.title_to_layer)
    where
      cut :
          (b : Bool)
          → Ensures
              (λ t. Holds r all t × (t.written ≡ s.written))
              (if b then going s else stopped panicked)
      cut true = (h, refl)
      cut false = tt

      by :
          (o : Option Descriptor)
          → Ensures (λ t. Holds r all t × (t.written ≡ s.written)) (keep_first o title l s)
      by none = (
        record {
          layers = get-insert_all (Titled r all) title l s.title_to_layer h.layers (among, e);
          paths = h.paths;
          files = h.files;
        },
        refl,
      )
      by (some existing) = cut (
          can_slice (min 12 (utf8_length existing.digest)) existing.digest
          && can_slice (min 12 (utf8_length l.digest)) l.digest)

  on_partition-AfterLayer :
      (o : Option Text) (l : Descriptor) (s : Extraction)
      → partition_of r.partition_key l ≡ o
      → In l all
      → Holds r all s
      → ((n : Text)
          → partition_of r.partition_key l ≡ some n
          → has n (overridden r.overrides) ≡ false
          → IsFree s n)
      → Ensures (AfterLayer l s) (on_partition r o l s)
  unfolding on_partition
  on_partition-AfterLayer none l s e among h free = (h, λ m spares f. f)
  on_partition-AfterLayer (some n) l s e among h free =
      elim (Bool-cases (has n (overridden r.overrides))) [
        | inl over ↦ rw over (again, λ m spares f. f)
        | inr plain ↦ rw plain (elim (Bool-cases (is_allowed r.allowed n)) [
          | inr refused ↦ rw refused (again, λ m spares f. f)
          | inl allowed ↦ rw allowed (written plain allowed)
        ])
      ]
    where
      again : Holds r all (annotated n s)
      again = record { layers = h.layers; paths = h.paths; files = h.files }

      streamed :
          has n (overridden r.overrides) ≡ false
          → is_allowed r.allowed n ≡ true
          → (ok : Bool)
          → Ensures (AfterLayer l s) (
              stream_to ok l.digest (image_name n) (annotated n s) >>= λ t.
              going (extracted n (annotation title_key l.annotations) (image_name n) t))
      streamed plain allowed false = tt
      streamed plain allowed true = (
        extracted-Holds r all (annotated n s) l n (image_name n) (s.downloads + 1) again
            (free n e plain) among (inr (among, e, plain, allowed)),
        λ m spares f.
            insert-IsFree n m l.digest s (s.downloads + 1)
              (λ same.
                spares (e ∙ ap some same)
                  (subst (λ x. has x (overridden r.overrides) ≡ false) same plain))
              f,
      )

      written :
          has n (overridden r.overrides) ≡ false
          → is_allowed r.allowed n ≡ true
          → Ensures (AfterLayer l s) (extract_layer r l n (annotated n s))
      written plain allowed = fail_if-Ensures (AfterLayer l s) _ unsupported_compression _ (
          sanitize-Ensures (AfterLayer l s) n invalid_annotation _ (
            fail_if-Ensures (AfterLayer l s) _ panicked _
              (streamed plain allowed (r.succeeds s.downloads))))

  on_layer-AfterLayer :
      (l : Descriptor) (s : Extraction)
      → In l all
      → Holds r all s
      → ((n : Text)
          → partition_of r.partition_key l ≡ some n
          → has n (overridden r.overrides) ≡ false
          → IsFree s n)
      → Ensures (AfterLayer l s) (on_layer r l s)
  unfolding on_layer
  on_layer-AfterLayer l s among h free =
      bind-Ensures (λ t. Holds r all t × (t.written ≡ s.written)) (AfterLayer l s)
        (note_title (annotation title_key l.annotations) l s)
        (λ t. on_partition r (partition_of r.partition_key l) l t)
        (note_title-Holds (annotation title_key l.annotations) l s refl among h)
        (λ t ht.
          map-Ensures (AfterLayer l t) (AfterLayer l s)
            (on_partition r (partition_of r.partition_key l) l t)
            (λ u hu. (hu.0, λ m spares f. hu.1 m spares (ap (get (image_name m)) ht.1 ∙ f)))
            (on_partition-AfterLayer (partition_of r.partition_key l) l t refl among ht.0
              (λ n e plain. ap (get (image_name n)) ht.1 ∙ free n e plain)))

module _ (r : Request) (all : List Descriptor) where
  -- Files of partitions that are still to come
  abbrev pub AreFree : List Text → Extraction → Type 0
  AreFree names s = (m : Text) → has m names ≡ true → IsFree s m

  pub on_layers-Holds :
      (rest : List Descriptor) (s : Extraction)
      → ((l : Descriptor) → In l rest → In l all)
      → Distinct (partitions r.partition_key rest)
      → Holds r all s
      → AreFree (partitions r.partition_key rest) s
      → AreFree (overridden r.overrides) s
      → Ensures (λ t. Holds r all t × AreFree (overridden r.overrides) t) (on_layers r rest s)
  unfolding on_layers
  on_layers-Holds [] s sub d h free over = (h, over)
  on_layers-Holds (l ∷ rest) s sub d h free over =
      bind-Ensures (AfterLayer r all l s) (λ t. Holds r all t × AreFree (overridden r.overrides) t)
        (on_layer r l s) (λ t. on_layers r rest t)
        (on_layer-AfterLayer r all l s (sub l (inl refl)) h (λ n e plain.
          free n (with_partition-has (partition_of r.partition_key l) names n (inl e))))
        (λ t ht.
          on_layers-Holds rest t (λ m among. sub m (inr among))
            (with_partition-tail (partition_of r.partition_key l) names d) ht.0
            (λ m among.
              ht.1 m
                (λ e plain.
                  let gone = with_partition-head (partition_of r.partition_key l) names m d e in
                  absurd (ground (arith, gone, among)))
                (free m (with_partition-has (partition_of r.partition_key l) names m (inr among))))
            (λ m among. ht.1 m (λ e plain. ground (arith, plain, among)) (over m among)))
    where
      names : List Text
      names = partitions r.partition_key rest
