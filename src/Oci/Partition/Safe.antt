-- ===== src/Oci/Partition/Safe.antt =====
-- What names of partitions src/fls/oci/from_oci.rs accepts, and the files that they name.
use fls.Base.{◌≡◌, refl, ap, Bool, true, false, ◌||◌, not, [], ◌∷◌, arith, if◌then◌else◌}
use fls.Oci.Text.{Text, all, contains, contains_text}
use fls.Oci.Partition.{
  Named, named, not_named, NameError, empty_name, absolute_path, has_dot_dot, has_separator,
  has_invalid_character, is_absolute, is_empty, is_name_character, sanitize_partition_name,
}

-- A name that is one component of a path and nothing but letters, digits, '.', '_' and '-'.
pub record IsSafe (name : Text) : Type 0 where
  pub nonempty : is_empty name ≡ false
  pub no_dot_dot : contains_text (46 ∷ 46 ∷ []) name ≡ false
  pub characters : all is_name_character name ≡ true

-- What an error says of the name
abbrev pub Because : Text → NameError → Type 0
Because name empty_name = name ≡ []
Because name absolute_path = is_absolute name ≡ true
Because name has_dot_dot = contains_text (46 ∷ 46 ∷ []) name ≡ true
Because name has_separator = (contains 47 name || contains 92 name) ≡ true
Because name has_invalid_character = all is_name_character name ≡ false

abbrev pub SanitizedTo : Text → Named → Type 0
SanitizedTo name (named n) = (n ≡ name) × IsSafe name
SanitizedTo name (not_named e) = Because name e

-- A name is accepted only as it is, where it is not empty, has no ".." and no characters but letters,
-- digits, '.', '_' and '-'; where it is not accepted, what the error says is so.
pub sanitize_partition_name-SanitizedTo :
    (name : Text) → SanitizedTo name (sanitize_partition_name name)
unfolding sanitize_partition_name
sanitize_partition_name-SanitizedTo [] = refl
sanitize_partition_name-SanitizedTo (c ∷ s) =
    by (is_absolute (c ∷ s)) (contains_text (46 ∷ 46 ∷ []) (c ∷ s))
      (contains 47 (c ∷ s) || contains 92 (c ∷ s)) (all is_name_character (c ∷ s)) refl refl refl
      refl
  where
    by :
        (a d x v : Bool)
        → is_absolute (c ∷ s) ≡ a
        → contains_text (46 ∷ 46 ∷ []) (c ∷ s) ≡ d
        → (contains 47 (c ∷ s) || contains 92 (c ∷ s)) ≡ x
        → all is_name_character (c ∷ s) ≡ v
        → SanitizedTo (c ∷ s) (
            if a
            then not_named absolute_path
            else if d
            then not_named has_dot_dot
            else if x
            then not_named has_separator
            else if not v
            then not_named has_invalid_character
            else named (c ∷ s))
    by true d x v ha hd hx hv = ha
    by false true x v ha hd hx hv = hd
    by false false true v ha hd hx hv = hx
    by false false false false ha hd hx hv = hv
    by false false false true ha hd hx hv =
        (refl, record { nonempty = refl; no_dot_dot = hd; characters = hv })

not_separator :
    (name : Text)
    → all is_name_character name ≡ true
    → (contains 47 name || contains 92 name) ≡ false
not_separator [] h = refl
not_separator (c ∷ s) h = ground (arith, not_separator s)

-- The checks are complete: every safe name is accepted.
pub sanitize_partition_name-IsSafe :
    (name : Text) → IsSafe name → sanitize_partition_name name ≡ named name
sanitize_partition_name-IsSafe name h =
    by (sanitize_partition_name name) (sanitize_partition_name-SanitizedTo name)
  where
    separated : (n : Text) → all is_name_character n ≡ true → is_absolute n ≡ true → ⊥
    separated [] v a = ground (arith, a)
    separated (c ∷ n) v a = ground (arith, v, a)

    by : (r : Named) → SanitizedTo name r → r ≡ named name
    by (named n) t = ap named t.0
    by (not_named empty_name) t =
        let e : is_empty name ≡ true = ap is_empty t in absurd (ground (arith, e, h.nonempty))
    by (not_named absolute_path) t = absurd (separated name h.characters t)
    by (not_named has_dot_dot) t = absurd (ground (arith, t, h.no_dot_dot))
    by (not_named has_separator) t = absurd (ground (arith, t, not_separator name h.characters))
    by (not_named has_invalid_character) t = absurd (ground (arith, t, h.characters))
