-- ===== src/Oci/Extract/Partitions.antt =====
-- The names of partitions that layers are annotated with, for src/fls/oci/from_oci.rs.
use mathlib.Core.Path.{subst}
use mathlib.Core.Option.{some-injective}
use fls.Base.{
  ◌≡◌, refl, ap, ◌∙◌, ◌⊎◌, inl, inr, true, false, List, [], ◌∷◌, arith, Option, none, some,
}
use fls.Oci.Text.{Text, same_text}
use fls.Oci.Text.Equal.{same_text_refl}
use fls.Oci.Maps.{has}
use fls.Oci.Manifest.{Descriptor}
use fls.Oci.Extract.{partition_of}
use fls.Oci.Extract.Holds.{Distinct}

abbrev pub with_partition : Option Text → List Text → List Text
with_partition none names = names
with_partition (some n) names = n ∷ names

-- The partitions that layers are annotated with.
abbrev pub partitions : Option Text → List Descriptor → List Text
partitions key [] = []
partitions key (l ∷ layers) = with_partition (partition_of key l) (partitions key layers)

pub with_partition-head :
    (o : Option Text) (names : List Text) (m : Text)
    → Distinct (with_partition o names)
    → o ≡ some m
    → has m names ≡ false
with_partition-head none names m d e = absurd (ground (arith, e))
with_partition-head (some n) names m d e =
    subst (λ x. has x names ≡ false) (some-injective n m e) (d.0)

pub with_partition-tail :
    (o : Option Text) (names : List Text) → Distinct (with_partition o names) → Distinct names
with_partition-tail none names d = d
with_partition-tail (some n) names d = d.1

pub with_partition-has :
    (o : Option Text) (names : List Text) (m : Text)
    → (o ≡ some m) ⊎ (has m names ≡ true)
    → has m (with_partition o names) ≡ true
with_partition-has none names m (inl e) = absurd (ground (arith, e))
with_partition-has none names m (inr h) = h
with_partition-has (some n) names m (inl e) =
    rw (ap (λ x. same_text x m) (some-injective n m e) ∙ same_text_refl m) refl
with_partition-has (some n) names m (inr h) = ground (arith, h)
