-- ===== src/Oci/Reference.antt =====
-- src/fls/oci/reference.rs: image references. The text of an error is left out; its cause is kept.
pub mod Tag
pub mod Digest
pub mod Tests
use fls.Base.{
  ℕ, suc, ◌+◌, Bool, true, false, not, ◌&&◌, ◌||◌, List, [], ◌∷◌, ◌++◌, Option, none, some, ltb,
  leb, ◌==◌, if◌then◌else◌, length, take, drop,
}
use fls.Oci.Text.{Text, trim, all, contains, rfind, split_once, same_text, utf8_length}

pub data Reference : Type 0 where
  tag digest : Text → Reference

pub record ImageReference : Type 0 where
  pub registry : Text
  pub repository : Text
  pub reference : Reference

pub data ReferenceError : Type 0 where
  empty_reference missing_colon unsupported_algorithm wrong_length not_lowercase_hex tag_and_digest
        empty_repository :
      ReferenceError

pub data Parsed {ℓ} (A : Type ℓ) : Type ℓ where
  parsed : A → Parsed A
  rejected : ReferenceError → Parsed A

infixl 5 ◌>>=◌ ◌>>◌
abbrev pub ◌>>=◌ {ℓ κ} : {A : Type ℓ} {B : Type κ} → Parsed A → (A → Parsed B) → Parsed B
parsed a >>= f = f a
rejected e >>= f = rejected e

abbrev pub ◌>>◌ {ℓ} : {B : Type ℓ} → Parsed (Unit {0}) → Parsed B → Parsed B
m >> k = m >>= λ _. k

abbrev pub slash : ℕ
slash = 47

abbrev pub colon : ℕ
colon = 58

abbrev pub at_sign : ℕ
at_sign = 64

abbrev pub dot : ℕ
dot = 46

-- "docker.io", "library/", "latest", "localhost", "sha256" and "sha512"
abbrev pub docker_io : Text
docker_io = 100 ∷ 111 ∷ 99 ∷ 107 ∷ 101 ∷ 114 ∷ 46 ∷ 105 ∷ 111 ∷ []

abbrev pub library : Text
library = 108 ∷ 105 ∷ 98 ∷ 114 ∷ 97 ∷ 114 ∷ 121 ∷ 47 ∷ []

abbrev pub latest : Text
latest = 108 ∷ 97 ∷ 116 ∷ 101 ∷ 115 ∷ 116 ∷ []

abbrev pub localhost : Text
localhost = 108 ∷ 111 ∷ 99 ∷ 97 ∷ 108 ∷ 104 ∷ 111 ∷ 115 ∷ 116 ∷ []

abbrev pub sha256 : Text
sha256 = 115 ∷ 104 ∷ 97 ∷ 50 ∷ 53 ∷ 54 ∷ []

abbrev pub sha512 : Text
sha512 = 115 ∷ 104 ∷ 97 ∷ 53 ∷ 49 ∷ 50 ∷ []

-- `Display` of an image reference
abbrev pub display : ImageReference → Text
display r = elim r.reference [
  | tag t ↦ r.registry ++ slash ∷ (r.repository ++ colon ∷ t)
  | digest d ↦ r.registry ++ slash ∷ (r.repository ++ at_sign ∷ d)
]

abbrev pub is_ascii_digit : ℕ → Bool
is_ascii_digit c = leb 48 c && leb c 57

-- `is_ascii_hexdigit` and not `is_ascii_uppercase`
abbrev pub is_lowercase_hex : ℕ → Bool
is_lowercase_hex c = is_ascii_digit c || (leb 97 c && leb c 102)

abbrev pub check_hash : Text → ℕ → Parsed (Unit {0})
check_hash hash expected_len =
    if not (utf8_length hash == expected_len)
    then rejected wrong_length
    else if not (all is_lowercase_hex hash)
    then rejected not_lowercase_hex
    else parsed tt

abbrev pub validate_split : Option (Text × Text) → Parsed (Unit {0})
validate_split none = rejected missing_colon
validate_split (some (algorithm, hash)) =
    if same_text algorithm sha256
    then check_hash hash 64
    else if same_text algorithm sha512
    then check_hash hash 128
    else rejected unsupported_algorithm

unfoldable pub validate_digest : Text → Parsed (Unit {0})
validate_digest d = validate_split (split_once colon d)

abbrev pub starts_with_bracket : Text → Bool
starts_with_bracket [] = false
starts_with_bracket (c ∷ s) = c == 91

abbrev pub looks_like_hostname : Text → Bool
looks_like_hostname authority =
    contains dot authority || (same_text authority localhost || starts_with_bracket authority)

-- What stands before and behind a place
abbrev pub split_name_at : Text → Option ℕ → Text × Option Text
split_name_at input none = (input, none)
split_name_at input (some colon_pos) =
    let after_colon = drop (colon_pos + 1) input in
    let before_colon = take colon_pos input in
    if contains slash after_colon
    then (input, none)
    else if contains slash before_colon || not (all is_ascii_digit after_colon)
    then (before_colon, some after_colon)
    else if (leb (length after_colon) 5 && all is_ascii_digit after_colon)
        && looks_like_hostname before_colon
    then (input, none)
    else (before_colon, some after_colon)

-- It never fails.
unfoldable pub split_name_and_tag : Text → Text × Option Text
split_name_and_tag input = split_name_at input (rfind colon input)

abbrev pub registry_of : Text → Option (Text × Text) → Parsed (Text × Text)
registry_of name none = parsed (docker_io, library ++ name)
registry_of name (some (first, rest)) =
    if contains dot first || (contains colon first || same_text first localhost)
    then (if leb (length rest) 0 then rejected empty_repository else parsed (first, rest))
    else parsed (docker_io, name)

unfoldable pub parse_registry_and_repo : Text → Parsed (Text × Text)
parse_registry_and_repo name = registry_of name (split_once slash name)

-- A tag before the digest: the last colon, if any, and the last slash
abbrev pub check_no_tag : Option ℕ → Option ℕ → Parsed (Unit {0})
check_no_tag none last_slash = parsed tt
check_no_tag (some last_colon) none = rejected tag_and_digest
check_no_tag (some last_colon) (some last_slash) =
    if ltb last_slash last_colon then rejected tag_and_digest else parsed tt

abbrev pub unwrap_or_latest : Option Text → Text
unwrap_or_latest none = latest
unwrap_or_latest (some t) = t

-- The name and the reference, by the last `@`
abbrev pub parse_parts : Text → Option ℕ → Parsed (Text × Reference)
parse_parts input none =
    let split = split_name_and_tag input in parsed (split.0, tag (unwrap_or_latest split.1))
parse_parts input (some at_pos) = do
  let d = drop (at_pos + 1) input
  let name_part = take at_pos input
  validate_digest d
  check_no_tag (rfind colon name_part) (rfind slash name_part)
  parsed (name_part, digest d)

abbrev pub parse_trimmed : Text → Parsed ImageReference
parse_trimmed input = if leb (length input) 0 then rejected empty_reference else (do
  parts ← parse_parts input (rfind at_sign input)
  name ← parse_registry_and_repo parts.0
  parsed (record { registry = name.0; repository = name.1; reference = parts.1 }))

unfoldable pub parse : Text → Parsed ImageReference
unfolding validate_digest split_name_and_tag parse_registry_and_repo
parse input = parse_trimmed (trim input)
