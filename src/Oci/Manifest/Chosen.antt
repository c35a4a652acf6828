-- ===== src/Oci/Manifest/Chosen.antt =====
-- Which layer of a manifest src/fls/oci/manifest.rs takes.
use fls.Base.{
  ◌≡◌, refl, ap, ◌⊎◌, inl, inr, Bool, true, false, Bool-cases, List, [], ◌∷◌, ◌++◌, Option, none,
  some,
}
use fls.Oci.Text.{Text}
use fls.Oci.Manifest.{
  Descriptor, Manifest, image, index, no_layers, no_disk_image, needs_platform, Layer, layer,
  no_layer, find, is_disk, matches,
}

-- No element of a list passes a test.
abbrev pub NoneOf : (Descriptor → Bool) → List Descriptor → Type 0
NoneOf p [] = Unit
NoneOf p (x ∷ xs) = (p x ≡ false) × NoneOf p xs

-- The first element that passes.
pub record IsFirst (p : Descriptor → Bool) (xs : List Descriptor) (x : Descriptor) : Type 0 where
  pub before : List Descriptor
  pub after : List Descriptor
  pub among : xs ≡ before ++ x ∷ after
  pub passes : p x ≡ true
  pub first : NoneOf p before

abbrev pub Found : (Descriptor → Bool) → List Descriptor → Option Descriptor → Type 0
Found p xs none = NoneOf p xs
Found p xs (some x) = IsFirst p xs x

pub find-Found : (p : Descriptor → Bool) (xs : List Descriptor) → Found p xs (find p xs)
find-Found p [] = tt
find-Found p (x ∷ xs) = elim (Bool-cases (p x)) [
  | inl passes ↦
      rw passes (record { before = []; after = xs; among = refl; passes = passes; first = tt })
  | inr fails ↦ rw fails (more (find p xs) fails (find-Found p xs))
]
  where
    more : (o : Option Descriptor) → p x ≡ false → Found p xs o → Found p (x ∷ xs) o
    more none fails none_of = (fails, none_of)
    more (some y) fails f = record {
      before = x ∷ f.before;
      after = f.after;
      among = ap (λ t. x ∷ t) f.among;
      passes = f.passes;
      first = (fails, f.first);
    }

-- What no layer matches, where an artifact type is set
abbrev pub NoMatch : Option Text → List Descriptor → Type 0
NoMatch none layers = Unit
NoMatch (some t) layers = NoneOf (matches t) layers

abbrev pub IsMatch : Option Text → List Descriptor → Descriptor → Type 0
IsMatch none layers l = ⊥
IsMatch (some t) layers l = IsFirst (matches t) layers l

-- Which of several layers is taken, or that none is.
abbrev pub ChosenAmong : Option Text → List Descriptor → Layer → Type 0
ChosenAmong t layers (layer l) = IsMatch t layers l ⊎ (NoMatch t layers × IsFirst is_disk layers l)
ChosenAmong t layers (no_layer no_disk_image) = NoneOf is_disk layers
ChosenAmong t layers (no_layer no_layers) = ⊥
ChosenAmong t layers (no_layer needs_platform) = ⊥

-- A layer that is alone is taken, whatever it is.
abbrev pub Chosen : Option Text → List Descriptor → Layer → Type 0
Chosen t [] o = o ≡ no_layer no_layers
Chosen t (l ∷ []) o = o ≡ layer l
Chosen t (l ∷ m ∷ rest) o = ChosenAmong t (l ∷ m ∷ rest) o

abbrev pub ChosenFrom : Manifest → Layer → Type 0
ChosenFrom (image m) l = Chosen m.artifact_type m.layers l
ChosenFrom (index i) l = l ≡ no_layer needs_platform
