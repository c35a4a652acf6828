-- ===== src/Oci/Registry.antt =====
-- src/fls/oci/registry.rs: `RegistryClient`, its requests and their responses. The server is a
-- parameter: what it answers to a request after those before it, if it does. So are the readers of
-- JSON. `Authorization` has what is encoded for the header.
pub mod Client
pub mod Protocol
pub mod Reads
pub mod Silent
pub mod Entered
pub mod Told
pub mod Tests
use fls.Base.{
  ℕ, ◌≡◌, Bool, true, false, not, ◌&&◌, ◌||◌, List, [], ◌∷◌, ◌++◌, Option, none, some, ltb, leb,
  ◌==◌, if◌then◌else◌,
}
use fls.Oci.Text.{Text, codes, same_text, contains_text}
use fls.Oci.Reference.{
  ImageReference, Reference, tag, digest, docker_io, Parsed, parsed, rejected, parse,
}
use fls.Oci.Manifest.{
  Descriptor, ImageManifest, ImageIndex, Manifest, image, index, find_linux_manifest,
}
use fls.Oci.Auth.{
  Credentials, credentials, basic_auth, WwwAuthenticate, parse_www_authenticate, token_url,
  get_token,
}

pub data Authorization : Type 0 where
  bearer basic_header : Text → Authorization

pub record HttpRequest : Type 0 where
  pub url : Text
  pub accept : List Text
  pub authorization : Option Authorization

-- A header that is not there, or is no text
pub data Header : Type 0 where
  absent unreadable : Header
  header_text : Text → Header

-- A body that does not arrive whole, or is not UTF-8
pub data Body : Type 0 where
  body_failed not_utf8 : Body
  body_text : Text → Body

pub record HttpResponse : Type 0 where
  pub status : ℕ
  pub www_authenticate : Header
  pub content_type : Header
  pub content : Body

-- What the requests before one, and it, are answered with
abbrev pub Server : Type 0
Server = List HttpRequest → HttpRequest → Option HttpResponse

pub record TokenResponse : Type 0 where
  pub token : Option Text
  pub access_token : Option Text

-- serde_json, for the types that are read with it
pub record Json : Type 0 where
  pub token_response : Body → Option TokenResponse
  pub image_index : Text → Option ImageIndex
  pub image_manifest : Text → Option ImageManifest

pub data RegistryError : Type 0 where
  request_failed no_challenge unreadable_challenge no_realm token_unread no_token manifest_not_utf8
        manifest_unread no_platform bad_reference :
      RegistryError
  unexpected_status token_refused manifest_refused : ℕ → RegistryError

pub data Outcome {ℓ} (A : Type ℓ) : Type ℓ where
  ok : A → Outcome A
  failed : RegistryError → Outcome A

-- An outcome and all requests, in their order
abbrev pub Talk {ℓ} : Type ℓ → Type ℓ
Talk A = List HttpRequest → Outcome A × List HttpRequest

abbrev pub ok_of {ℓ} : {A : Type ℓ} → A → Talk A
ok_of a sent = (ok a, sent)

abbrev pub failed_with {ℓ} : {A : Type ℓ} → RegistryError → Talk A
failed_with e sent = (failed e, sent)

abbrev pub then_talk {ℓ κ} :
    {A : Type ℓ} {B : Type κ}
    → Outcome A × List HttpRequest
    → (A → Talk B)
    → Outcome B × List HttpRequest
then_talk (ok a, sent) f = f a sent
then_talk (failed e, sent) f = (failed e, sent)

infixl 5 ◌>>=◌
abbrev pub ◌>>=◌ {ℓ κ} : {A : Type ℓ} {B : Type κ} → Talk A → (A → Talk B) → Talk B
(m >>= f) sent = then_talk (m sent) f

abbrev pub or_fail {ℓ} : {A : Type ℓ} → RegistryError → Option A → Talk A
or_fail e none = failed_with e
or_fail e (some a) = ok_of a

-- `send`
unfoldable pub send_request : Server → HttpRequest → Talk HttpResponse
send_request server request sent =
    (or_fail request_failed (server sent request)) (sent ++ request ∷ [])

abbrev pub is_success : ℕ → Bool
is_success status = leb 200 status && ltb status 300

pub record RegistryClient : Type 0 where
  pub image_ref : ImageReference
  pub credentials : Credentials
  pub token : Option Text

unfoldable pub registry_url : ImageReference → Text
registry_url r =
    if same_text r.registry docker_io
    then codes "https://registry-1.docker.io"
    else codes "https://" ++ r.registry

-- `reference_string`
abbrev pub reference_string : ImageReference → Text
reference_string r = elim r.reference [ tag t ↦ t | digest d ↦ d ]

abbrev pub basic_header_of : Option Text → Option Authorization
basic_header_of none = none
basic_header_of (some user_and_password) = some (basic_header user_and_password)

abbrev pub bearer_or : Option Text → Option Authorization → Option Authorization
bearer_or (some t) otherwise = some (bearer t)
bearer_or none otherwise = otherwise

-- `add_auth`
unfoldable pub add_auth : RegistryClient → HttpRequest → HttpRequest
add_auth c request = record request {
  authorization = bearer_or c.token (basic_header_of (basic_auth c.credentials));
}
