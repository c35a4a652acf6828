-- ===== src/Oci/Manifest.antt =====
-- src/fls/oci/manifest.rs: manifests, and which layer or platform of one is taken. Reading JSON is
-- left out. Strings are texts, and a map of annotations is a list of pairs.
pub mod Chosen
use fls.Base.{ℕ, Bool, true, false, ◌&&◌, ◌||◌, List, [], ◌∷◌, Option, none, some, if◌then◌else◌}
use fls.Oci.Text.{Text, same_text}
use fls.Oci.MediaType.{split_media_type, is_flashable, linux, arm64, amd64}

pub record Platform : Type 0 where
  pub architecture : Text
  pub os : Text
  pub variant : Option Text

pub record Descriptor : Type 0 where
  pub media_type : Text
  pub digest : Text
  pub size : ℕ
  pub annotations : Option (List (Text × Text))
  pub platform : Option Platform

pub record ImageManifest : Type 0 where
  pub schema_version : ℕ
  pub media_type : Option Text
  pub artifact_type : Option Text
  pub config : Descriptor
  pub layers : List Descriptor
  pub annotations : Option (List (Text × Text))

pub record ImageIndex : Type 0 where
  pub schema_version : ℕ
  pub media_type : Option Text
  pub manifests : List Descriptor

pub data Manifest : Type 0 where
  image : ImageManifest → Manifest
  index : ImageIndex → Manifest

pub data LayerError : Type 0 where
  no_layers no_disk_image needs_platform : LayerError

pub data Layer : Type 0 where
  layer : Descriptor → Layer
  no_layer : LayerError → Layer

-- `find` of the standard library
abbrev pub find {ℓ} : {A : Type ℓ} → (A → Bool) → List A → Option A
find p [] = none
find p (x ∷ xs) = if p x then some x else find p xs

abbrev pub is_disk : Descriptor → Bool
is_disk l = is_flashable l.media_type

-- The layers that an artifact type asks for
abbrev pub matches : Text → Descriptor → Bool
matches artifact_type l =
    is_flashable l.media_type
    && (same_text l.media_type artifact_type
        || same_text (split_media_type l.media_type).0 (split_media_type artifact_type).0)

abbrev pub matching : Option Text → List Descriptor → Option Descriptor
matching none layers = none
matching (some artifact_type) layers = find (matches artifact_type) layers

-- the first disk image, where no layer matches
abbrev pub fall_back : Option Descriptor → Layer
fall_back none = no_layer no_disk_image
fall_back (some l) = layer l

abbrev pub matched_or : Option Descriptor → List Descriptor → Layer
matched_or (some l) layers = layer l
matched_or none layers = fall_back (find is_disk layers)

abbrev pub choose : Option Text → List Descriptor → Layer
choose artifact_type [] = no_layer no_layers
choose artifact_type (l ∷ []) = layer l
choose artifact_type (l ∷ m ∷ rest) =
    matched_or (matching artifact_type (l ∷ m ∷ rest)) (l ∷ m ∷ rest)

unfoldable pub get_single_layer : Manifest → Layer
get_single_layer (image m) = choose m.artifact_type m.layers
get_single_layer (index _) = no_layer needs_platform

abbrev pub has_platform : Text → Text → Option Platform → Bool
has_platform os arch none = false
has_platform os arch (some p) = same_text p.os os && same_text p.architecture arch

unfoldable pub find_platform : ImageIndex → Text → Text → Option Descriptor
find_platform i os arch = find (λ m. has_platform os arch m.platform) i.manifests

abbrev pub or_else_find : Option Descriptor → Option Descriptor → Option Descriptor
or_else_find none later = later
or_else_find (some d) later = some d

-- arm64 first
unfoldable pub find_linux_manifest : ImageIndex → Option Descriptor
unfolding find_platform
find_linux_manifest i = or_else_find (find_platform i linux arm64) (find_platform i linux amd64)
