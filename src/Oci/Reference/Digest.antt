-- ===== src/Oci/Reference/Digest.antt =====
-- References with a digest, printed and parsed by src/fls/oci/reference.rs.
use fls.Base.{
  ℕ, suc, ◌<◌, ◌≤◌, ◌≡◌, refl, ap, ◌∙◌, sym, Bool, true, false, [], ◌∷◌, ◌++◌, Option, none, some,
  leb, ◌==◌, length, arith, append_assoc, length-append,
}
use fls.Oci.Text.{Text, trim, contains, later, rfind, rfind_missing, rfind-append}
use fls.Oci.Reference.{
  digest, ImageReference, parsed, slash, colon, at_sign, display, validate_digest, check_no_tag,
  parse_trimmed, parse,
}
use fls.Oci.Reference.Tag.{
  take_before, drop_behind, IsNamed, name_of, parse_registry_and_repo-name_of,
}

rfind-append-none : (c : ℕ) (a b : Text) → contains c b ≡ false → rfind c (a ++ b) ≡ rfind c a
rfind-append-none c [] b h = rfind_missing c b h
rfind-append-none c (x ∷ a) b h = ap (later (x == c)) (rfind-append-none c a b h)

-- A place within a length, if there is one; and a place at or behind a length.
abbrev IsBelow : ℕ → Option ℕ → Type 0
IsBelow n none = Unit
IsBelow n (some i) = i < n

abbrev IsFrom : ℕ → Option ℕ → Type 0
IsFrom n none = ⊥
IsFrom n (some i) = n ≤ i

later-IsBelow : (b : Bool) (n : ℕ) (o : Option ℕ) → IsBelow n o → IsBelow (suc n) (later b o)
later-IsBelow b n (some i) h = omega (arith, h)
later-IsBelow true n none h = omega arith
later-IsBelow false n none h = tt

rfind-IsBelow : (c : ℕ) (a : Text) → IsBelow (length a) (rfind c a)
rfind-IsBelow c [] = tt
rfind-IsBelow c (x ∷ a) = later-IsBelow (x == c) (length a) (rfind c a) (rfind-IsBelow c a)

later-IsFrom : (b : Bool) (n : ℕ) (o : Option ℕ) → IsFrom n o → IsFrom (suc n) (later b o)
later-IsFrom b n (some i) h = omega (arith, h)
later-IsFrom b n none h = absurd h

here-IsFrom : (o : Option ℕ) → IsFrom 0 (later true o)
here-IsFrom none = omega arith
here-IsFrom (some i) = omega arith

rfind-IsFrom : (a b : Text) → IsFrom (length a) (rfind slash (a ++ slash ∷ b))
rfind-IsFrom [] b = here-IsFrom (rfind slash b)
rfind-IsFrom (x ∷ a) b =
    later-IsFrom (x == slash) (length a) (rfind slash (a ++ slash ∷ b)) (rfind-IsFrom a b)

check_no_tag-IsBelow :
    (n : ℕ) (last_colon last_slash : Option ℕ)
    → IsBelow n last_colon
    → IsFrom n last_slash
    → check_no_tag last_colon last_slash ≡ parsed tt
check_no_tag-IsBelow n none last_slash below from = refl
check_no_tag-IsBelow n (some i) none below from = absurd from
check_no_tag-IsBelow n (some i) (some j) below from = ground arith

-- a port is no tag
check_no_tag-name_of :
    (registry repository : Text)
    → contains colon repository ≡ false
    → check_no_tag
        (rfind colon (name_of registry repository))
        (rfind slash (name_of registry repository))
      ≡ parsed tt
check_no_tag-name_of registry repository no_colon =
    rw (rfind-append-none colon registry (slash ∷ repository) no_colon) (
      check_no_tag-IsBelow (length registry) _ _ (rfind-IsBelow colon registry)
        (rfind-IsFrom registry repository))

parse_trimmed-digest :
    (registry repository d : Text)
    → IsNamed registry repository
    → contains colon repository ≡ false
    → contains at_sign d ≡ false
    → validate_digest d ≡ parsed tt
    → parse_trimmed (name_of registry repository ++ at_sign ∷ d)
      ≡ parsed (record { registry = registry; repository = repository; reference = digest d })
parse_trimmed-digest registry repository d n no_colon no_at_sign valid =
    let long : leb (length (name_of registry repository ++ at_sign ∷ d)) 0 ≡ false =
      ground (arith, length-append (name_of registry repository) (at_sign ∷ d)) in
    rw long (
      rw (rfind-append at_sign (name_of registry repository) d no_at_sign) (
        rw
          (
            drop_behind (name_of registry repository) at_sign d,
            take_before (name_of registry repository) (at_sign ∷ d),
          )
          (rw (valid, check_no_tag-name_of registry repository no_colon)
            (rw (parse_registry_and_repo-name_of registry repository n) refl))))

-- A reference with a valid digest, whose registry has a dot or a port or is localhost, is read back
-- from what it prints as, if the repository has no colon, the parts have no character that stands
-- between them, and the text has no white space at its ends: a port is not taken for a tag.
pub parse-display_digest :
    (registry repository d : Text)
    → IsNamed registry repository
    → contains colon repository ≡ false
    → contains at_sign d ≡ false
    → validate_digest d ≡ parsed tt
    → (let r : ImageReference = record {
      registry = registry;
      repository = repository;
      reference = digest d;
    } in
        trim (display r) ≡ display r)
    → parse
        (display (record { registry = registry; repository = repository; reference = digest d }))
      ≡ parsed (record { registry = registry; repository = repository; reference = digest d })
unfolding parse
parse-display_digest registry repository d n no_colon no_at_sign valid trimmed =
    ap parse_trimmed (trimmed ∙ sym (append_assoc registry (slash ∷ repository) (at_sign ∷ d)))
    ∙ parse_trimmed-digest registry repository d n no_colon no_at_sign valid
