-- ===== src/Oci/Registry/Tests.antt =====
-- Runs of the models of src/fls/oci/registry.rs.
use fls.Base.{◌≡◌, refl, List, [], ◌∷◌, Option, none, some, if◌then◌else◌}
use fls.Oci.Text.{Text, codes, same_text}
use fls.Oci.Reference.{parse}
use fls.Oci.Manifest.{Descriptor, ImageManifest, ImageIndex}
use fls.Oci.Auth.{credentials}
use fls.Oci.Registry.{HttpRequest, HttpResponse, absent, header_text, body_text, Server, Json}
use fls.Oci.Registry.Client.{connect_and_resolve}
use fls.Oci.Registry.Protocol.{ToldBy}
use fls.Oci.Registry.Told.{connect_and_resolve-ToldBy}

abbrev layer_of : Text → Option Text → Descriptor
layer_of d arch = record {
  media_type = codes "application/vnd.oci.image.manifest.v1+json";
  digest = d;
  size = 2;
  annotations = none;
  platform = elim arch [
    | none ↦ none
    | some a ↦ some (record { architecture = a; os = codes "linux"; variant = none })
  ];
}

abbrev two_platforms : ImageIndex
two_platforms = record {
  schema_version = 2;
  media_type = none;
  manifests =
      layer_of (codes "sha256:1") (some (codes "amd64"))
      ∷ layer_of (codes "sha256:2") (some (codes "arm64"))
      ∷ [];
}

abbrev one_layer : ImageManifest
one_layer = record {
  schema_version = 2;
  media_type = none;
  artifact_type = none;
  config = layer_of (codes "sha256:3") none;
  layers = layer_of (codes "sha256:4") none ∷ [];
  annotations = none;
}

abbrev a_json : Json
a_json = record {
  token_response = λ b. some (record { token = none; access_token = some (codes "secret") });
  image_index = λ t. if same_text t (codes "index") then some two_platforms else none;
  image_manifest = λ t. if same_text t (codes "image") then some one_layer else none;
}

abbrev answer : Text → HttpResponse
answer t = record {
  status = 200;
  www_authenticate = absent;
  content_type = absent;
  content = body_text t;
}

abbrev challenge : HttpResponse
challenge = record {
  status = 401;
  www_authenticate = header_text (codes "Bearer realm=\"https://auth.io/t\",service=\"q\"");
  content_type = absent;
  content = body_text [];
}

-- A challenge, a token, an index, and its image
abbrev a_server : Server
a_server [] q = some challenge
a_server (_ ∷ []) q = some (answer [])
a_server (_ ∷ _ ∷ []) q = some (answer (codes "index"))
a_server (_ ∷ _ ∷ _ ∷ _) q = some (answer (codes "image"))

abbrev a_name : Text
a_name = codes "quay.io/a/b:v1"

connect_and_resolve-ToldBy_example :
    ToldBy a_json a_server
      (credentials (some (codes "u")) (some (codes "p")))
      (parse a_name)
      (connect_and_resolve a_json a_server (some (codes "u")) (some (codes "p")) a_name [])
connect_and_resolve-ToldBy_example =
    connect_and_resolve-ToldBy a_json a_server (some (codes "u")) (some (codes "p")) a_name

abbrev urls : List HttpRequest → List Text
urls [] = []
urls (q ∷ qs) = q.url ∷ urls qs

four_requests :
    urls (connect_and_resolve a_json a_server (some (codes "u")) (some (codes "p")) a_name []).1
    ≡ codes "https://quay.io/v2/"
      ∷ codes "https://auth.io/t?service=q&scope=repository%3Aa%2Fb%3Apull"
      ∷ codes "https://quay.io/v2/a/b/manifests/v1"
      ∷ codes "https://quay.io/v2/a/b/manifests/sha256:2"
      ∷ []
unfolding connect_and_resolve
four_requests = refl
