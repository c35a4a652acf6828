-- ===== src/Oci/Registry/Client.antt =====
-- src/fls/oci/registry.rs: the operations of `RegistryClient`; `request_token` of src/fls/oci/auth.rs,
-- `Manifest::parse` of src/fls/oci/manifest.rs, and `resolve_manifest` and `connect_and_resolve` of
-- src/fls/oci/from_oci.rs.
use fls.Base.{Bool, false, ◌||◌, List, [], ◌∷◌, ◌++◌, Option, none, some, ◌==◌, if◌then◌else◌}
use fls.Oci.Text.{Text, codes, contains_text}
use fls.Oci.Reference.{ImageReference, Parsed, parsed, rejected, parse}
use fls.Oci.Manifest.{ImageManifest, ImageIndex, Manifest, image, index, find_linux_manifest}
use fls.Oci.Auth.{
  Credentials, credentials, basic_auth, WwwAuthenticate, parse_www_authenticate, token_url,
  get_token,
}
use fls.Oci.Registry.{
  HttpRequest, Header, Body, HttpResponse, Json, RegistryClient, Server, Talk, ok_of, failed_with,
  ◌>>=◌, or_fail, send_request, is_success, registry_url, reference_string, basic_header_of,
  add_auth, absent, unreadable, header_text, body_failed, not_utf8, body_text, request_failed,
  no_challenge, unreadable_challenge, no_realm, token_unread, no_token, manifest_not_utf8,
  manifest_unread, no_platform, bad_reference, unexpected_status, token_refused, manifest_refused,
}

-- `Manifest::parse`
abbrev pub is_index_type : Header → Bool
is_index_type absent = false
is_index_type unreadable = false
is_index_type (header_text t) = contains_text (codes "index") t || contains_text (codes "list") t

abbrev pub index_or : Option ImageIndex → Option Manifest
index_or none = none
index_or (some i) = some (index i)

-- By the type of the content, where the content is neither
abbrev pub by_type : Header → Option ImageManifest → Option ImageIndex → Option Manifest
by_type content_type (some m) i = some (image m)
by_type content_type none i = if is_index_type content_type then index_or i else none

abbrev pub by_json : Header → Option ImageIndex → Option ImageManifest → Option Manifest
by_json content_type none m = by_type content_type m none
by_json content_type (some i) m = elim i.manifests [
  | [] ↦ by_type content_type m (some i)
  | _ ∷ _ ↦ some (index i)
]

unfoldable pub parse_manifest : Json → Header → Body → Talk Manifest
parse_manifest json content_type body_failed = failed_with request_failed
parse_manifest json content_type not_utf8 = failed_with manifest_not_utf8
parse_manifest json content_type (body_text t) =
    or_fail manifest_unread (by_json content_type (json.image_index t) (json.image_manifest t))

abbrev pub manifest_url : ImageReference → Text → Text
manifest_url r reference =
    registry_url r ++ (codes "/v2/" ++ (r.repository ++ (codes "/manifests/" ++ reference)))

abbrev pub image_types : List Text
image_types =
    codes "application/vnd.oci.image.manifest.v1+json"
    ∷ codes "application/vnd.docker.distribution.manifest.v2+json"
    ∷ []

abbrev pub index_types : List Text
index_types =
    codes "application/vnd.oci.image.index.v1+json"
    ∷ codes "application/vnd.docker.distribution.manifest.list.v2+json"
    ∷ []

abbrev pub manifest_in : Json → HttpResponse → Talk Manifest
manifest_in json r =
    if is_success r.status
    then parse_manifest json r.content_type r.content
    else failed_with (manifest_refused r.status)

abbrev pub request_manifest : List Text → Text → RegistryClient → HttpRequest
request_manifest accept reference c =
    add_auth c
      (record { url = manifest_url c.image_ref reference; accept = accept; authorization = none })

unfoldable pub fetch_manifest : Json → Server → RegistryClient → Talk Manifest
unfolding send_request add_auth registry_url parse_manifest
fetch_manifest json server c =
    send_request server
      (request_manifest (image_types ++ index_types) (reference_string c.image_ref) c)
    >>= manifest_in json

unfoldable pub fetch_manifest_by_digest : Json → Server → Text → RegistryClient → Talk Manifest
unfolding send_request add_auth registry_url parse_manifest
fetch_manifest_by_digest json server d c =
    send_request server (request_manifest image_types d c) >>= manifest_in json

abbrev pub request_unmarked : Text → HttpRequest
request_unmarked url = record { url = url; accept = []; authorization = none }

abbrev pub token_in : Json → HttpResponse → Talk Text
token_in json r =
    if is_success r.status
    then (do
      t ← or_fail token_unread (json.token_response r.content)
      or_fail no_token (get_token t.token t.access_token))
    else failed_with (token_refused r.status)

unfoldable pub request_token : Json → Server → WwwAuthenticate → Text → Credentials → Talk Text
unfolding send_request token_url
request_token json server w repository c =
    send_request server (record (request_unmarked (token_url w repository)) {
      authorization = basic_header_of (basic_auth c);
    })
    >>= token_in json

abbrev pub challenge_in : Header → Talk WwwAuthenticate
challenge_in absent = failed_with no_challenge
challenge_in unreadable = failed_with unreadable_challenge
challenge_in (header_text t) = or_fail no_realm (parse_www_authenticate t)

abbrev pub on_knock : Json → Server → RegistryClient → HttpResponse → Talk RegistryClient
on_knock json server c r =
    if r.status == 200
    then ok_of c
    else if r.status == 401
    then (do
      w ← challenge_in r.www_authenticate
      t ← request_token json server w c.image_ref.repository c.credentials
      ok_of (record c { token = some t }))
    else failed_with (unexpected_status r.status)

unfoldable pub authenticate : Json → Server → RegistryClient → Talk RegistryClient
unfolding send_request registry_url request_token parse_www_authenticate
authenticate json server c =
    send_request server (request_unmarked (registry_url c.image_ref ++ codes "/v2/"))
    >>= on_knock json server c

-- The image of a platform, where the manifest is an index
abbrev pub resolved : Json → Server → RegistryClient → Manifest → Talk Manifest
resolved json server c (image m) = ok_of (image m)
resolved json server c (index i) = do
  platform ← or_fail no_platform (find_linux_manifest i)
  fetch_manifest_by_digest json server platform.digest c

unfoldable pub resolve_manifest : Json → Server → RegistryClient → Talk Manifest
unfolding fetch_manifest fetch_manifest_by_digest find_linux_manifest
resolve_manifest json server c = fetch_manifest json server c >>= resolved json server c

-- `RegistryClient::new`, where the HTTP client can be set up
abbrev pub new_client : ImageReference → Option Text → Option Text → RegistryClient
new_client r username password = record {
  image_ref = r;
  credentials = credentials username password;
  token = none;
}

abbrev pub connected :
    Json
    → Server
    → Option Text
    → Option Text
    → Parsed ImageReference
    → Talk (RegistryClient × Manifest)
connected json server username password (rejected _) = failed_with bad_reference
connected json server username password (parsed r) = do
  c ← authenticate json server (new_client r username password)
  m ← resolve_manifest json server c
  ok_of (c, m)

unfoldable pub connect_and_resolve :
    Json → Server → Option Text → Option Text → Text → Talk (RegistryClient × Manifest)
unfolding authenticate resolve_manifest parse
connect_and_resolve json server username password image_name =
    connected json server username password (parse image_name)
