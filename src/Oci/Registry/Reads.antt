-- ===== src/Oci/Registry/Reads.antt =====
-- What the responses of a registry say to src/fls/oci/registry.rs.
use fls.Base.{
  ◌≤◌, ◌<◌, ◌≡◌, ◌≢◌, refl, ◌⊎◌, inl, inr, Bool, true, false, Bool-cases, List, [], ◌∷◌, Option,
  none, some, arith,
}
use fls.Oci.Text.{Text}
use fls.Oci.MediaType.{linux, arm64, amd64}
use fls.Oci.Auth.{get_token}
use fls.Oci.Manifest.{
  Descriptor, ImageManifest, ImageIndex, Manifest, image, index, find, has_platform, find_platform,
  or_else_find, find_linux_manifest,
}
use fls.Oci.Manifest.Chosen.{NoneOf, IsFirst, Found, find-Found}
use fls.Oci.Registry.{
  HttpResponse, Header, Body, body_failed, not_utf8, body_text, Json, TokenResponse, RegistryError,
  request_failed, token_unread, no_token, manifest_not_utf8, manifest_unread, token_refused,
  manifest_refused, Outcome, ok, failed, is_success, or_fail, then_talk,
}
use fls.Oci.Registry.Client.{is_index_type, by_type, by_json, parse_manifest, manifest_in, token_in}

abbrev pub IsSuccess : HttpResponse → Type 0
IsSuccess s = (200 ≤ s.status) × (s.status < 300)

abbrev pub IsFailure : HttpResponse → Type 0
IsFailure s = (s.status < 200) ⊎ (300 ≤ s.status)

IsSuccess-or_IsFailure :
    (s : HttpResponse)
    → ((is_success s.status ≡ true) × IsSuccess s) ⊎ ((is_success s.status ≡ false) × IsFailure s)
IsSuccess-or_IsFailure s = elim (Bool-cases (is_success s.status)) [
  | inl e ↦ inl (e, ground arith)
  | inr e ↦ inr (e, ground arith)
]

-- The token of a response, or why it has none
abbrev pub TokenRead : Json → HttpResponse → Outcome Text → Type 0
TokenRead json s (ok t) =
    IsSuccess s
    × (v : TokenResponse) × (json.token_response s.content ≡ some v)
    × ((v.token ≡ some t) ⊎ ((v.token ≡ none) × (v.access_token ≡ some t)))
TokenRead json s (failed e) =
    (IsFailure s × (e ≡ token_refused s.status))
    ⊎ (IsSuccess s
        × (((json.token_response s.content ≡ none) × (e ≡ token_unread))
            ⊎ ((v : TokenResponse) × (json.token_response s.content ≡ some v)
                × (v.token ≡ none)
                × (v.access_token ≡ none)
                × (e ≡ no_token))))

pub token_in-TokenRead : (json : Json) (s : HttpResponse) → TokenRead json s (token_in json s []).0
token_in-TokenRead json s = elim (IsSuccess-or_IsFailure s) [
  | inl c ↦ rw (c.0) (read (json.token_response s.content) refl c.1)
  | inr c ↦ rw (c.0) (inl (c.1, refl))
]
  where
    tokens :
        (v : TokenResponse) (a b : Option Text)
        → json.token_response s.content ≡ some v
        → v.token ≡ a
        → v.access_token ≡ b
        → IsSuccess s
        → TokenRead json s (or_fail no_token (get_token a b) []).0
    tokens v (some a) b e f g c = (c, v, e, inl f)
    tokens v none (some b) e f g c = (c, v, e, inr (f, g))
    tokens v none none e f g c = inr (c, inr (v, e, f, g, refl))

    read :
        (o : Option TokenResponse)
        → json.token_response s.content ≡ o
        → IsSuccess s
        → TokenRead json s
            (then_talk
              (or_fail token_unread o [])
              (λ t. or_fail no_token (get_token t.token t.access_token))).0
    read none e c = inr (c, inl (e, refl))
    read (some v) e c = tokens v v.token v.access_token e refl refl c

-- The manifest in a text, with the type that the response gives it: an index that is not empty, or
-- else an image, or else an empty index where the type is that of one.
abbrev pub IsManifest : Json → Header → Text → Manifest → Type 0
IsManifest json content_type t (index i) =
    (json.image_index t ≡ some i)
    × ((i.manifests ≢ [])
        ⊎ ((i.manifests ≡ [])
            × (json.image_manifest t ≡ none)
            × (is_index_type content_type ≡ true)))
IsManifest json content_type t (image m) =
    (json.image_manifest t ≡ some m)
    × ((json.image_index t ≡ none)
        ⊎ ((i : ImageIndex) × (json.image_index t ≡ some i) × (i.manifests ≡ [])))

abbrev pub NoManifest : Json → Header → Text → Type 0
NoManifest json content_type t =
    (json.image_manifest t ≡ none)
    × ((json.image_index t ≡ none)
        ⊎ ((i : ImageIndex) × (json.image_index t ≡ some i)
            × (i.manifests ≡ [])
            × (is_index_type content_type ≡ false)))

abbrev pub BodyFault : Json → Header → Body → RegistryError → Type 0
BodyFault json content_type body_failed e = e ≡ request_failed
BodyFault json content_type not_utf8 e = e ≡ manifest_not_utf8
BodyFault json content_type (body_text t) e = (e ≡ manifest_unread) × NoManifest json content_type t

-- The manifest of a response, or why it has none
abbrev pub ManifestRead : Json → HttpResponse → Outcome Manifest → Type 0
ManifestRead json s (ok m) =
    IsSuccess s × (t : Text) × (s.content ≡ body_text t) × IsManifest json s.content_type t m
ManifestRead json s (failed e) =
    (IsFailure s × (e ≡ manifest_refused s.status))
    ⊎ (IsSuccess s × BodyFault json s.content_type s.content e)

-- What a text comes to
abbrev TextRead : Json → Header → Text → Option Manifest → Type 0
TextRead json content_type t none = NoManifest json content_type t
TextRead json content_type t (some m) = IsManifest json content_type t m

by_json-TextRead :
    (json : Json) (content_type : Header) (t : Text)
    → TextRead json content_type t
        (by_json content_type (json.image_index t) (json.image_manifest t))
by_json-TextRead json content_type t =
    by (json.image_index t) (json.image_manifest t) refl refl
      (Bool-cases (is_index_type content_type))
  where
    listed :
        (i : ImageIndex) (m : Option ImageManifest) (ds : List Descriptor)
        → json.image_index t ≡ some i
        → json.image_manifest t ≡ m
        → i.manifests ≡ ds
        → (is_index_type content_type ≡ true) ⊎ (is_index_type content_type ≡ false)
        → TextRead json content_type t
            (elim ds [ [] ↦ by_type content_type m (some i) | _ ∷ _ ↦ some (index i) ])
    listed i m (d ∷ ds) e f g c = (e, inl (λ h. cc))
    listed i (some m) [] e f g c = (f, inr (i, e, g))
    listed i none [] e f g (inl c) = rw c (e, inr (g, f, c))
    listed i none [] e f g (inr c) = rw c (f, inr (i, e, g, c))

    by :
        (o : Option ImageIndex) (m : Option ImageManifest)
        → json.image_index t ≡ o
        → json.image_manifest t ≡ m
        → (is_index_type content_type ≡ true) ⊎ (is_index_type content_type ≡ false)
        → TextRead json content_type t (by_json content_type o m)
    by none (some m) e f c = (f, inl e)
    by none none e f (inl c) = rw c (f, inl e)
    by none none e f (inr c) = rw c (f, inl e)
    by (some i) m e f c = listed i m i.manifests e f refl c

pub manifest_in-ManifestRead :
    (json : Json) (s : HttpResponse) → ManifestRead json s (manifest_in json s []).0
unfolding parse_manifest
manifest_in-ManifestRead json s = elim (IsSuccess-or_IsFailure s) [
  | inl c ↦ rw (c.0) (read s.content refl c.1)
  | inr c ↦ rw (c.0) (inl (c.1, refl))
]
  where
    text :
        (t : Text) (o : Option Manifest)
        → s.content ≡ body_text t
        → TextRead json s.content_type t o
        → IsSuccess s
        → ManifestRead json s (or_fail manifest_unread o []).0
    text t none e r c = inr (c, rw e (refl, r))
    text t (some m) e r c = (c, t, e, r)

    read :
        (b : Body)
        → s.content ≡ b
        → IsSuccess s
        → ManifestRead json s (parse_manifest json s.content_type b []).0
    read body_failed e c = inr (c, rw e refl)
    read not_utf8 e c = inr (c, rw e refl)
    read (body_text t) e c =
        text t (by_json s.content_type (json.image_index t) (json.image_manifest t)) e
          (by_json-TextRead json s.content_type t) c

-- The image of an index that is asked for: the first for arm64, or else the first for amd64.
abbrev pub is_for : Text → Descriptor → Bool
is_for arch d = has_platform linux arch d.platform

abbrev pub PlatformOf : ImageIndex → Option Descriptor → Type 0
PlatformOf i (some d) =
    IsFirst (is_for arm64) i.manifests d
    ⊎ (NoneOf (is_for arm64) i.manifests × IsFirst (is_for amd64) i.manifests d)
PlatformOf i none = NoneOf (is_for arm64) i.manifests × NoneOf (is_for amd64) i.manifests

pub find_linux_manifest-PlatformOf : (i : ImageIndex) → PlatformOf i (find_linux_manifest i)
unfolding find_linux_manifest find_platform
find_linux_manifest-PlatformOf i =
    by (find (is_for arm64) i.manifests) (find (is_for amd64) i.manifests)
      (find-Found (is_for arm64) i.manifests) (find-Found (is_for amd64) i.manifests)
  where
    by :
        (a b : Option Descriptor)
        → Found (is_for arm64) i.manifests a
        → Found (is_for amd64) i.manifests b
        → PlatformOf i (or_else_find a b)
    by (some a) b f g = inl f
    by none (some b) f g = inr (f, g)
    by none none f g = (f, g)
