-- ===== src/Oci/Reference/Tests.antt =====
-- Runs of the parser of src/fls/oci/reference.rs.
use fls.Base.{◌≡◌, refl, [], ◌∷◌, ◌++◌, arith}
use fls.Writer.{repeated}
use fls.Oci.Text.{Text}
use fls.Oci.Reference.{
  tag, digest, parsed, rejected, tag_and_digest, display, parse, validate_digest, colon, at_sign,
  sha256, docker_io, library, latest, split_name_and_tag, parse_registry_and_repo,
}
use fls.Oci.Reference.Tag.{IsNamed, parse-display_tag}
use fls.Oci.Reference.Digest.{parse-display_digest}

-- "a.b:5", "c/d" and "v"
abbrev some_registry : Text
some_registry = 97 ∷ 46 ∷ 98 ∷ 58 ∷ 53 ∷ []

abbrev some_repository : Text
some_repository = 99 ∷ 47 ∷ 100 ∷ []

abbrev some_tag : Text
some_tag = 118 ∷ []

abbrev some_digest : Text
some_digest = sha256 ++ colon ∷ repeated (48, 57, 97, 102) 64

some-IsNamed : IsNamed some_registry some_repository
some-IsNamed = record {
  is_registry = refl;
  no_slash = refl;
  no_at_sign = refl;
  repository_at_sign = refl;
  some_repository = omega arith;
}

parse-display_tag_example :
    parse (
      display (record {
        registry = some_registry;
        repository = some_repository;
        reference = tag some_tag;
      }))
    ≡ parsed (record {
      registry = some_registry;
      repository = some_repository;
      reference = tag some_tag;
    })
parse-display_tag_example =
    parse-display_tag some_registry some_repository some_tag some-IsNamed refl refl refl refl

some_digest_valid : validate_digest some_digest ≡ parsed tt
unfolding validate_digest
some_digest_valid = refl

parse-display_digest_example :
    parse (
      display (record {
        registry = some_registry;
        repository = some_repository;
        reference = digest some_digest;
      }))
    ≡ parsed (record {
      registry = some_registry;
      repository = some_repository;
      reference = digest some_digest;
    })
parse-display_digest_example =
    parse-display_digest some_registry some_repository some_digest some-IsNamed refl refl
      some_digest_valid refl

-- " v" is the library's image at its latest tag
bare_name :
    parse (32 ∷ some_tag)
    ≡ parsed
        (record { registry = docker_io; repository = library ++ some_tag; reference = tag latest })
unfolding parse validate_digest split_name_and_tag parse_registry_and_repo
bare_name = refl

-- "v:v@sha256:…"
tagged_digest :
    parse (some_tag ++ colon ∷ (some_tag ++ at_sign ∷ some_digest)) ≡ rejected tag_and_digest
unfolding parse validate_digest split_name_and_tag parse_registry_and_repo
tagged_digest = refl
