-- ===== src/Oci/Reference/Tag.antt =====
-- References with a tag, printed and parsed by src/fls/oci/reference.rs.
use fls.Base.{
  ℕ, suc, ◌+◌, ◌<◌, ◌≡◌, refl, ap, ◌∙◌, sym, true, false, ◌||◌, [], ◌∷◌, ◌++◌, some, leb, length,
  take, drop, arith, append_assoc, length-append,
}
use fls.Oci.Text.{
  Text, trim, contains, contains-append, rfind_missing, rfind-append, split_once-append, same_text,
}
use fls.Oci.Reference.{
  tag, ImageReference, parsed, slash, colon, at_sign, dot, localhost, display, split_name_and_tag,
  parse_registry_and_repo, parse_trimmed, parse,
}

pub take_before : (a b : Text) → take (length a) (a ++ b) ≡ a
take_before [] b = refl
take_before (x ∷ a) b = ap (λ t. x ∷ t) (take_before a b)

pub drop_behind : (a : Text) (c : ℕ) (b : Text) → drop (length a + 1) (a ++ c ∷ b) ≡ b
drop_behind [] c b = refl
drop_behind (x ∷ a) c b =
    let e : suc (length a) + 1 ≡ suc (length a + 1) = omega arith in
    ap (λ n. drop n (x ∷ (a ++ c ∷ b))) e ∙ drop_behind a c b

-- A registry that is told from a namespace, and a repository.
pub record IsNamed (registry repository : Text) : Type 0 where
  pub is_registry :
      (contains dot registry || (contains colon registry || same_text registry localhost)) ≡ true
  pub no_slash : contains slash registry ≡ false
  pub no_at_sign : contains at_sign registry ≡ false
  pub repository_at_sign : contains at_sign repository ≡ false
  pub some_repository : 0 < length repository

abbrev pub name_of : Text → Text → Text
name_of registry repository = registry ++ slash ∷ repository

pub parse_registry_and_repo-name_of :
    (registry repository : Text)
    → IsNamed registry repository
    → parse_registry_and_repo (name_of registry repository) ≡ parsed (registry, repository)
unfolding parse_registry_and_repo
parse_registry_and_repo-name_of registry repository n =
    let some_bytes : leb (length repository) 0 ≡ false = ground (arith, n.some_repository) in
    rw (split_once-append slash registry repository n.no_slash)
      (rw (n.is_registry) (rw some_bytes refl))

-- the name in front of a tag has its slash
name_slash : (registry repository : Text) → contains slash (name_of registry repository) ≡ true
name_slash [] repository = refl
name_slash (x ∷ registry) repository = ground (arith, name_slash registry repository)

split_name_and_tag-tag :
    (registry repository t : Text)
    → contains colon t ≡ false
    → contains slash t ≡ false
    → split_name_and_tag (name_of registry repository ++ colon ∷ t)
      ≡ (name_of registry repository, some t)
unfolding split_name_and_tag
split_name_and_tag-tag registry repository t no_colon no_slash =
    rw (rfind-append colon (name_of registry repository) t no_colon) (
      rw
        (
          drop_behind (name_of registry repository) colon t,
          take_before (name_of registry repository) (colon ∷ t),
        )
        (rw (no_slash, name_slash registry repository) refl))

display-at_sign :
    (registry repository t : Text)
    → IsNamed registry repository
    → contains at_sign t ≡ false
    → contains at_sign (name_of registry repository ++ colon ∷ t) ≡ false
display-at_sign registry repository t n none_in_t =
    contains-append at_sign (name_of registry repository) (colon ∷ t)
    ∙ rw (contains-append at_sign registry (slash ∷ repository))
        (rw (n.no_at_sign, n.repository_at_sign, none_in_t) refl)

parse_trimmed-tag :
    (registry repository t : Text)
    → IsNamed registry repository
    → contains at_sign t ≡ false
    → contains colon t ≡ false
    → contains slash t ≡ false
    → parse_trimmed (name_of registry repository ++ colon ∷ t)
      ≡ parsed (record { registry = registry; repository = repository; reference = tag t })
parse_trimmed-tag registry repository t n no_at_sign no_colon no_slash =
    let long : leb (length (name_of registry repository ++ colon ∷ t)) 0 ≡ false =
      ground (arith, length-append (name_of registry repository) (colon ∷ t)) in
    rw long (
      rw
        (rfind_missing at_sign (name_of registry repository ++ colon ∷ t)
          (display-at_sign registry repository t n no_at_sign))
        (rw (split_name_and_tag-tag registry repository t no_colon no_slash)
          (rw (parse_registry_and_repo-name_of registry repository n) refl)))

-- A reference with a tag, whose registry has a dot or a port or is localhost, is read back from what
-- it prints as, if the parts have none of the characters that stand between them and the text has no
-- white space at its ends.
pub parse-display_tag :
    (registry repository t : Text)
    → IsNamed registry repository
    → contains at_sign t ≡ false
    → contains colon t ≡ false
    → contains slash t ≡ false
    → (let r : ImageReference = record {
      registry = registry;
      repository = repository;
      reference = tag t;
    } in
        trim (display r) ≡ display r)
    → parse (display (record { registry = registry; repository = repository; reference = tag t }))
      ≡ parsed (record { registry = registry; repository = repository; reference = tag t })
unfolding parse
parse-display_tag registry repository t n no_at_sign no_colon no_slash trimmed =
    ap parse_trimmed (trimmed ∙ sym (append_assoc registry (slash ∷ repository) (colon ∷ t)))
    ∙ parse_trimmed-tag registry repository t n no_at_sign no_colon no_slash
