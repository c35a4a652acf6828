-- ===== src/Oci/Auth.antt =====
-- src/fls/oci/auth.rs: credentials, the header that asks for a token, and the URL that it is asked
-- from. The request itself is in `Oci/Registry`; base64, which is another package's, is left out.
pub mod Params
pub mod Encode
pub mod Tests
use fls.Base.{
  ℕ, ◌+◌, ◌/◌, ◌%◌, Bool, true, false, not, ◌&&◌, ◌||◌, List, [], ◌∷◌, ◌++◌, Option, none, some,
  ltb, leb, ◌==◌, if◌then◌else◌,
}
use fls.Oci.Text.{Text, codes, contains}
use fls.Oci.Maps.{Map, get, insert}
use fls.Oci.MediaType.{strip_prefix}
use fls.Oci.Partition.{is_empty, is_ascii_alphanumeric}

pub data Credentials : Type 0 where
  anonymous : Credentials
  basic : Text → Text → Credentials

abbrev pub credentials : Option Text → Option Text → Credentials
credentials (some username) (some password) = basic username password
credentials (some username) none = anonymous
credentials none password = anonymous

-- What is encoded for the header of basic authentication
abbrev pub basic_auth : Credentials → Option Text
basic_auth anonymous = none
basic_auth (basic username password) = some (username ++ 58 ∷ password)

-- The variables of `parse_auth_params`
pub record Scan : Type 0 where
  pub params : Map Text
  pub key : Text
  pub value : Text
  pub in_value : Bool
  pub in_quotes : Bool

abbrev pub scan_start : Scan
scan_start = record { params = []; key = []; value = []; in_value = false; in_quotes = false }

-- a value is complete
abbrev pub inserted : Scan → Scan
inserted s = record s {
  params = insert s.key s.value s.params;
  key = [];
  value = [];
  in_value = false;
}

abbrev pub at_quote : Bool → Scan → Scan
at_quote true s = record (inserted s) { in_quotes = false }
at_quote false s = record s { in_quotes = true }

abbrev pub at_comma : Scan → Scan
at_comma s = if s.in_value && not (is_empty s.value) then inserted s else s

-- One character
unfoldable pub scan_char : ℕ → Scan → Scan
scan_char c s =
    if (c == 61) && not s.in_value
    then record s { in_value = true }
    else if (c == 34) && s.in_value
    then at_quote s.in_quotes s
    else if (c == 44) && not s.in_quotes
    then at_comma s
    else if (c == 32) && (not s.in_quotes && not s.in_value)
    then s
    else if s.in_value
    then record s { value = s.value ++ c ∷ [] }
    else record s { key = s.key ++ c ∷ [] }

unfoldable pub scan_all : Text → Scan → Scan
unfolding scan_char
scan_all [] s = s
scan_all (c ∷ t) s = scan_all t (scan_char c s)

-- The last value, where it is not quoted
abbrev pub last_value : Scan → Map Text
last_value s =
    if s.in_value && not (is_empty s.value) then insert s.key s.value s.params else s.params

unfoldable pub parse_auth_params : Text → Map Text
unfolding scan_all
parse_auth_params t = last_value (scan_all t scan_start)

pub record WwwAuthenticate : Type 0 where
  pub realm : Text
  pub service : Option Text
  pub scope : Option Text

abbrev pub first_of : Option Text → Option Text → Text → Text
first_of (some a) b c = a
first_of none (some b) c = b
first_of none none c = c

abbrev pub params_text : Text → Text
params_text header =
    first_of (strip_prefix (codes "Bearer ") header) (strip_prefix (codes "bearer ") header) header

abbrev pub with_realm : Option Text → Map Text → Option WwwAuthenticate
with_realm none params = none
with_realm (some realm) params = some (record {
  realm = realm;
  service = get (codes "service") params;
  scope = get (codes "scope") params;
})

-- `WwwAuthenticate::parse`: none where the realm is missing
unfoldable pub parse_www_authenticate : Text → Option WwwAuthenticate
unfolding parse_auth_params
parse_www_authenticate header =
    let params = parse_auth_params (params_text header) in
    with_realm (get (codes "realm") params) params

-- letters, digits, '-', '_', '.' and '~'
abbrev pub is_unreserved : ℕ → Bool
is_unreserved c = is_ascii_alphanumeric c || (c == 45 || (c == 95 || (c == 46 || c == 126)))

-- The bytes of a character
abbrev pub utf8 : ℕ → List ℕ
utf8 c =
    if ltb c 128
    then c ∷ []
    else if ltb c 2048
    then (192 + c / 64) ∷ (128 + c % 64) ∷ []
    else if ltb c 65536
    then (224 + c / 4096) ∷ (128 + (c / 64) % 64) ∷ (128 + c % 64) ∷ []
    else (240 + c / 262144) ∷ (128 + (c / 4096) % 64) ∷ (128 + (c / 64) % 64) ∷ (128 + c % 64) ∷ []

abbrev pub hex_digit : ℕ → ℕ
hex_digit n = if ltb n 10 then 48 + n else 55 + n

-- `%{:02X}` of each byte
abbrev pub escape_all : List ℕ → Text
escape_all [] = []
escape_all (b ∷ bytes) = 37 ∷ hex_digit (b / 16) ∷ hex_digit (b % 16) ∷ escape_all bytes

abbrev pub encode_char : ℕ → Text
encode_char c =
    if is_unreserved c
    then c ∷ []
    else if c == 58
    then codes "%3A"
    else if c == 47
    then codes "%2F"
    else if c == 32
    then codes "%20"
    else escape_all (utf8 c)

unfoldable pub urlencoding_encode : Text → Text
urlencoding_encode [] = []
urlencoding_encode (c ∷ s) = encode_char c ++ urlencoding_encode s

abbrev pub scope_or : Option Text → Text → Text
scope_or (some scope) repository = scope
scope_or none repository = codes "repository:" ++ (repository ++ codes ":pull")

unfoldable pub service_param : Option Text → Text
unfolding urlencoding_encode
service_param none = []
service_param (some service) = codes "service=" ++ (urlencoding_encode service ++ codes "&")

unfoldable pub token_url : WwwAuthenticate → Text → Text
unfolding service_param
token_url w repository =
    w.realm
    ++ ((if contains 63 w.realm then 38 else 63)
        ∷ (service_param w.service
            ++ (codes "scope=" ++ urlencoding_encode (scope_or w.scope repository))))

-- `TokenResponse::get_token`
abbrev pub get_token : Option Text → Option Text → Option Text
get_token (some token) access_token = some token
get_token none access_token = access_token
