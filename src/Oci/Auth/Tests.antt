-- ===== src/Oci/Auth/Tests.antt =====
-- Runs of the models of src/fls/oci/auth.rs.
use mathlib.Core.List.{flatten}
use fls.Base.{◌≡◌, refl, [], ◌∷◌, some, true, map, arith}
use fls.Oci.Text.{Text, codes, all}
use fls.Oci.Maps.{Map}
use fls.Oci.Auth.{
  WwwAuthenticate, parse_www_authenticate, parse_auth_params, urlencoding_encode, token_url, utf8,
}
use fls.Oci.Auth.Encode.{is_query_safe, decode, decode-urlencoding_encode}
use fls.Oci.Auth.Params.{header, parse_www_authenticate-header}

abbrev asked : WwwAuthenticate
asked = record {
  realm = codes "https://auth.example.com/token";
  service = some (codes "registry");
  scope = some (codes "repository:a/b:pull,push");
}

parse_www_authenticate-header_example : parse_www_authenticate (header asked) ≡ some asked
parse_www_authenticate-header_example = parse_www_authenticate-header asked refl refl refl

abbrev asked_params : Map Text
asked_params = (codes "realm", codes "a=b, c") ∷ (codes "realm", codes "d") ∷ []

unquoted_params :
    parse_auth_params (codes "a=b, c=d") ≡ (codes "a", codes "b") ∷ (codes "c", codes "d") ∷ []
unfolding parse_auth_params
unquoted_params = refl

-- An unquoted value that is empty takes in what follows.
empty_value : parse_auth_params (codes "a=,b=c") ≡ (codes "a", codes "b=c") ∷ []
unfolding parse_auth_params
empty_value = refl

asked_url :
    token_url asked (codes "a/b")
    ≡ codes "https://auth.example.com/token?service=registry&scope=repository%3Aa%2Fb%3Apull%2Cpush"
unfolding token_url
asked_url = refl

decode-urlencoding_encode_example :
    (all is_query_safe (urlencoding_encode (codes "a&b é")) ≡ true)
    × (decode (urlencoding_encode (codes "a&b é")) ≡ flatten (map utf8 (codes "a&b é")))
decode-urlencoding_encode_example =
    decode-urlencoding_encode (codes "a&b é")
      (omega arith, (omega arith, (omega arith, (omega arith, (omega arith, tt)))))
