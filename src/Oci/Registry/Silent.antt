-- ===== src/Oci/Registry/Silent.antt =====
-- What src/fls/oci/registry.rs reads in a response, where nothing is sent.
use fls.Base.{◌≡◌, refl, Bool, true, false, List, [], Option, none, some, if◌then◌else◌}
use fls.Oci.Auth.{get_token}
use fls.Oci.Registry.{
  HttpRequest, HttpResponse, Json, is_success, RegistryError, Talk, or_fail, failed_with, then_talk,
  token_unread, no_token, token_refused, manifest_unread, manifest_refused, TokenResponse, Body,
  body_failed, not_utf8, body_text,
}
use fls.Oci.Registry.Client.{manifest_in, token_in, parse_manifest, by_json}

-- A talk in which nothing is sent
abbrev pub IsSilent : {A : Type 0} → Talk A → Type 0
IsSilent m = (sent : List HttpRequest) → m sent ≡ ((m []).0, sent)

or_fail-IsSilent : {A : Type 0} (e : RegistryError) (o : Option A) → IsSilent (or_fail e o)
or_fail-IsSilent e none sent = refl
or_fail-IsSilent e (some a) sent = refl

if-IsSilent :
    {A : Type 0} (b : Bool) (m n : Talk A) → IsSilent m → IsSilent n → IsSilent (if b then m else n)
if-IsSilent true m n hm hn = hm
if-IsSilent false m n hm hn = hn

pub token_in-IsSilent : (json : Json) (s : HttpResponse) → IsSilent (token_in json s)
token_in-IsSilent json s =
    if-IsSilent (is_success s.status)
      (λ sent.
        then_talk (or_fail token_unread (json.token_response s.content) sent)
          (λ t. or_fail no_token (get_token t.token t.access_token)))
      (failed_with (token_refused s.status)) (by (json.token_response s.content)) (λ sent. refl)
  where
    by :
        (o : Option TokenResponse)
        → IsSilent (λ sent.
          then_talk
            (or_fail token_unread o sent)
            (λ t. or_fail no_token (get_token t.token t.access_token)))
    by none sent = refl
    by (some t) sent = or_fail-IsSilent no_token (get_token t.token t.access_token) sent

pub manifest_in-IsSilent : (json : Json) (s : HttpResponse) → IsSilent (manifest_in json s)
unfolding parse_manifest
manifest_in-IsSilent json s =
    if-IsSilent (is_success s.status) (parse_manifest json s.content_type s.content)
      (failed_with (manifest_refused s.status)) (by s.content) (λ sent. refl)
  where
    by : (b : Body) → IsSilent (parse_manifest json s.content_type b)
    by body_failed = λ sent. refl
    by not_utf8 = λ sent. refl
    by (body_text t) =
        or_fail-IsSilent manifest_unread
          (by_json s.content_type (json.image_index t) (json.image_manifest t))
