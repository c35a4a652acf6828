-- ===== src/Oci/Registry/Protocol.antt =====
-- The requests that src/fls/oci/registry.rs sends, in their order, and what they come to.
use fls.Base.{◌≢◌, ◌⊎◌, ◌≡◌, List, [], ◌∷◌, ◌++◌, Option, none, some}
use fls.Oci.Text.{Text, codes}
use fls.Oci.Reference.{ImageReference, Parsed, parsed, rejected}
use fls.Oci.Manifest.{Descriptor, ImageManifest, ImageIndex, Manifest, image, index}
use fls.Oci.Auth.{Credentials, basic_auth, WwwAuthenticate, parse_www_authenticate, token_url}
use fls.Oci.Registry.Reads.{TokenRead, ManifestRead, PlatformOf}
use fls.Oci.Registry.{
  Header, absent, unreadable, request_failed, no_challenge, unreadable_challenge, no_realm,
  no_platform, unexpected_status, HttpRequest, HttpResponse, header_text, Server, Json, Outcome, ok,
  failed, RegistryClient, registry_url, reference_string, basic_header_of, bearer_or, bad_reference,
  RegistryError,
}
use fls.Oci.Registry.Client.{manifest_url, image_types, index_types, request_unmarked}

abbrev pub client : ImageReference → Credentials → Option Text → RegistryClient
client r k t = record { image_ref = r; credentials = k; token = t }

-- The first request, that for a token, and those for a manifest
unfoldable pub knock : ImageReference → HttpRequest
unfolding registry_url
knock r = request_unmarked (registry_url r ++ codes "/v2/")

unfoldable pub ask_token : ImageReference → Credentials → WwwAuthenticate → HttpRequest
unfolding token_url
ask_token r k w = record (request_unmarked (token_url w r.repository)) {
  authorization = basic_header_of (basic_auth k);
}

abbrev pub asking : ImageReference → Credentials → Option Text → List Text → Text → HttpRequest
asking r k t accept reference = record {
  url = manifest_url r reference;
  accept = accept;
  authorization = bearer_or t (basic_header_of (basic_auth k));
}

abbrev pub ask_manifest : ImageReference → Credentials → Option Text → HttpRequest
ask_manifest r k t = asking r k t (image_types ++ index_types) (reference_string r)

abbrev pub ask_image : ImageReference → Credentials → Option Text → Text → HttpRequest
ask_image r k t d = asking r k t image_types d

-- A response that asks for a token
pub record Challenges (s : HttpResponse) (w : WwwAuthenticate) : Type 0 where
  pub said : Text
  pub unauthorized : s.status ≡ 401
  pub has_said : s.www_authenticate ≡ header_text said
  pub understood : parse_www_authenticate said ≡ some w

-- A response to the first request that lets no one in and asks for no token
abbrev pub NoChallenge : Header → RegistryError → Type 0
NoChallenge absent e = e ≡ no_challenge
NoChallenge unreadable e = e ≡ unreadable_challenge
NoChallenge (header_text said) e = (parse_www_authenticate said ≡ none) × (e ≡ no_realm)

abbrev pub Unwelcome : HttpResponse → RegistryError → Type 0
Unwelcome s e =
    ((s.status ≢ 200) × (s.status ≢ 401) × (e ≡ unexpected_status s.status))
    ⊎ ((s.status ≡ 401) × NoChallenge s.www_authenticate e)

-- A request that is not answered, or with a response that has a fault
abbrev pub Fails : (HttpResponse → Type 0) → RegistryError → Option HttpResponse → Type 0
Fails Fault e none = e ≡ request_failed
Fails Fault e (some s) = Fault s

-- A response to a request for the manifest of a tag that no image comes of
abbrev pub NoImageIn : Json → RegistryError → HttpResponse → Type 0
NoImageIn json e s =
    ManifestRead json s (failed e)
    ⊎ ((i : ImageIndex) × ManifestRead json s (ok (index i))
        × PlatformOf i none
        × (e ≡ no_platform))

-- The requests up to where manifests can be asked for, and the token for them, if there is one
pub data Entry (json : Json) (server : Server) (r : ImageReference) (k : Credentials)
    : Option Text → List HttpRequest → Type 0 where
  let_in :
      (s : HttpResponse)
      → server [] (knock r) ≡ some s
      → s.status ≡ 200
      → Entry json server r k none (knock r ∷ [])
  granted :
      (s u : HttpResponse) (w : WwwAuthenticate) (t : Text)
      → server [] (knock r) ≡ some s
      → Challenges s w
      → server (knock r ∷ []) (ask_token r k w) ≡ some u
      → TokenRead json u (ok t)
      → Entry json server r k (some t) (knock r ∷ ask_token r k w ∷ [])

-- All requests, and what they come to
pub data Told (json : Json) (server : Server) (r : ImageReference) (k : Credentials)
    : Outcome (RegistryClient × Manifest) → List HttpRequest → Type 0 where
  turned_away :
      (e : RegistryError)
      → Fails (λ s. Unwelcome s e) e (server [] (knock r))
      → Told json server r k (failed e) (knock r ∷ [])
  not_granted :
      (e : RegistryError) (s : HttpResponse) (w : WwwAuthenticate)
      → server [] (knock r) ≡ some s
      → Challenges s w
      → Fails (λ u. TokenRead json u (failed e)) e (server (knock r ∷ []) (ask_token r k w))
      → Told json server r k (failed e) (knock r ∷ ask_token r k w ∷ [])
  no_manifest :
      (e : RegistryError) (t : Option Text) (before : List HttpRequest)
      → Entry json server r k t before
      → Fails (NoImageIn json e) e (server before (ask_manifest r k t))
      → Told json server r k (failed e) (before ++ ask_manifest r k t ∷ [])
  brought :
      (t : Option Text) (before : List HttpRequest) (s : HttpResponse) (m : ImageManifest)
      → Entry json server r k t before
      → server before (ask_manifest r k t) ≡ some s
      → ManifestRead json s (ok (image m))
      → Told json server r k (ok (client r k t, image m)) (before ++ ask_manifest r k t ∷ [])
  no_image :
      (e : RegistryError) (t : Option Text) (before : List HttpRequest) (s : HttpResponse)
      (i : ImageIndex) (d : Descriptor)
      → Entry json server r k t before
      → server before (ask_manifest r k t) ≡ some s
      → ManifestRead json s (ok (index i))
      → PlatformOf i (some d)
      → Fails
          (λ u. ManifestRead json u (failed e))
          e
          (server (before ++ ask_manifest r k t ∷ []) (ask_image r k t d.digest))
      → Told json server r k
          (failed e)
          ((before ++ ask_manifest r k t ∷ []) ++ ask_image r k t d.digest ∷ [])
  brought_image :
      (t : Option Text) (before : List HttpRequest) (s u : HttpResponse) (i : ImageIndex)
      (d : Descriptor) (m : Manifest)
      → Entry json server r k t before
      → server before (ask_manifest r k t) ≡ some s
      → ManifestRead json s (ok (index i))
      → PlatformOf i (some d)
      → server (before ++ ask_manifest r k t ∷ []) (ask_image r k t d.digest) ≡ some u
      → ManifestRead json u (ok m)
      → Told json server r k
          (ok (client r k t, m))
          ((before ++ ask_manifest r k t ∷ []) ++ ask_image r k t d.digest ∷ [])

-- An outcome with its requests
abbrev pub ToldIn :
    Json
    → Server
    → ImageReference
    → Credentials
    → Outcome (RegistryClient × Manifest) × List HttpRequest
    → Type 0
ToldIn json server r k (o, sent) = Told json server r k o sent

-- The requests and the outcome for what the name of an image is parsed to
abbrev pub ToldBy :
    Json
    → Server
    → Credentials
    → Parsed ImageReference
    → Outcome (RegistryClient × Manifest) × List HttpRequest
    → Type 0
ToldBy json server k (rejected e) o = o ≡ (failed bad_reference, [])
ToldBy json server k (parsed r) o = ToldIn json server r k o

-- What `authenticate` comes to
abbrev pub Entered :
    Json
    → Server
    → ImageReference
    → Credentials
    → Outcome RegistryClient × List HttpRequest
    → Type 0
Entered json server r k (failed e, sent) = Told json server r k (failed e) sent
Entered json server r k (ok c, sent) =
    (t : Option Text) × (c ≡ client r k t) × Entry json server r k t sent
