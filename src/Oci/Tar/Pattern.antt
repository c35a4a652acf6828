-- ===== src/Oci/Tar/Pattern.antt =====
-- Which names the patterns of src/fls/oci/from_oci.rs match.
use fls.Base.{
  ℕ, ◌≡◌, refl, ap, sym, ◌⊎◌, inl, inr, ◌↔◌, true, false, ◌||◌, [], ◌∷◌, ◌++◌, Option, none, some,
  arith, ◌==◌, Bool-cases,
}
use mathlib.Core.Path.{subst, ap₂}
use fls.Oci.Text.{Text, same_text, starts_with, ends_with}
use fls.Oci.Text.Equal.{same_text_refl, same_text→eq}
use fls.Oci.MediaType.{strip_prefix}
use fls.Oci.Tar.{star, strip_last, matches_pattern}

starts_with_iff : (p s : Text) → (starts_with p s ≡ true) ↔ ((t : Text) × (s ≡ p ++ t))
starts_with_iff p s = (to p s, λ (t, e). subst (λ x. starts_with p x ≡ true) (sym e) (from p t))
  where
    to : (p s : Text) → starts_with p s ≡ true → (t : Text) × (s ≡ p ++ t)
    to [] s h = (s, refl)
    to (a ∷ p) [] h = absurd (ground (arith, h))
    to (a ∷ p) (b ∷ s) h =
        let heads : b ≡ a = ground (arith, h) in
        let (t, e) = to p s (ground (arith, h)) in (t, ap₂ ◌∷◌ heads e)

    from : (p t : Text) → starts_with p (p ++ t) ≡ true
    from [] t = refl
    from (a ∷ p) t = ground (arith, from p t)

ends_with_iff : (p s : Text) → (ends_with p s ≡ true) ↔ ((t : Text) × (s ≡ t ++ p))
ends_with_iff p s = (to s, λ (t, e). subst (λ x. ends_with p x ≡ true) (sym e) (from t))
  where
    to : (s : Text) → ends_with p s ≡ true → (t : Text) × (s ≡ t ++ p)
    to [] h = ([], sym (same_text→eq p [] h))
    to (b ∷ s) h = by (Bool-cases (same_text p (b ∷ s))) (λ k. to s k) h
      where
        by :
            (same_text p (b ∷ s) ≡ true) ⊎ (same_text p (b ∷ s) ≡ false)
            → (ends_with p s ≡ true → (t : Text) × (s ≡ t ++ p))
            → (same_text p (b ∷ s) || ends_with p s) ≡ true
            → (t : Text) × (b ∷ s ≡ t ++ p)
        by (inl e) more h = ([], sym (same_text→eq p (b ∷ s) e))
        by (inr e) more h = let (t, x) = more (ground (arith, e, h)) in (b ∷ t, ap (λ r. b ∷ r) x)

    from : (t : Text) → ends_with p (t ++ p) ≡ true
    from [] = whole p
      where
        whole : (p : Text) → ends_with p p ≡ true
        whole [] = refl
        whole (c ∷ q) = rw (same_text_refl (c ∷ q)) refl
    from (b ∷ t) = ground (arith, from t)

strip_last-append : (c : ℕ) (t : Text) → strip_last c (t ++ c ∷ []) ≡ some t
strip_last-append c [] = ground arith
strip_last-append c (x ∷ []) =
    ap (λ o. elim o as (λ _. Option Text) [ none ↦ none | some t ↦ some (x ∷ t) ])
      (strip_last-append c [])
strip_last-append c (x ∷ y ∷ t) = rw (strip_last-append c (y ∷ t)) refl

strip_last-none : (c : ℕ) (t : Text) → ends_with (c ∷ []) t ≡ false → strip_last c t ≡ none
strip_last-none c [] h = refl
strip_last-none c (x ∷ []) h = by (Bool-cases (x == c))
  where
    by : ((x == c) ≡ true) ⊎ ((x == c) ≡ false) → strip_last c (x ∷ []) ≡ none
    by (inr e) = rw e refl
    by (inl e) = let same : (c == x) ≡ true = ground (arith, e) in absurd (ground (arith, h, same))
strip_last-none c (x ∷ y ∷ s) h =
    let rest : ends_with (c ∷ []) (y ∷ s) ≡ false = ground (arith, h) in
    rw (strip_last-none c (y ∷ s) rest) refl

strip_prefix-none :
    (c : ℕ) (t : Text) → starts_with (c ∷ []) t ≡ false → strip_prefix (c ∷ []) t ≡ none
strip_prefix-none c [] h = refl
strip_prefix-none c (x ∷ t) h = let e : (c == x) ≡ false = ground (arith, h) in rw e refl

-- The patterns: a star before a text, one behind it, and a text without a star at its ends.
pub data Glob : Type 0 where
  star_before star_behind no_star : Text → Glob

abbrev pub glob_text : Glob → Text
glob_text (star_before suffix) = star ∷ suffix
glob_text (star_behind prefix) = prefix ++ star ∷ []
glob_text (no_star name) = name

abbrev pub IsGlob : Glob → Type 0
IsGlob (star_before suffix) = Unit
IsGlob (star_behind prefix) = starts_with (star ∷ []) (prefix ++ star ∷ []) ≡ false
IsGlob (no_star name) =
    (starts_with (star ∷ []) name ≡ false) × (ends_with (star ∷ []) name ≡ false)

-- The names that a pattern stands for
abbrev pub Denotes : Glob → Text → Type 0
Denotes (star_before suffix) name = (t : Text) × (name ≡ t ++ suffix)
Denotes (star_behind prefix) name = (t : Text) × (name ≡ prefix ++ t)
Denotes (no_star exact) name = name ≡ exact

-- A pattern matches exactly the names that end in the text behind its star, or begin with the text
-- before it, or are the text of the pattern where it has no star at its ends.
matches_pattern_iff :
    (g : Glob) (name : Text)
    → IsGlob g
    → (matches_pattern name (glob_text g) ≡ true) ↔ Denotes g name
unfolding matches_pattern
matches_pattern_iff (star_before suffix) name h = ends_with_iff suffix name
matches_pattern_iff (star_behind prefix) name h =
    rw (strip_prefix-none star (prefix ++ star ∷ []) h, strip_last-append star prefix)
      (starts_with_iff prefix name)
matches_pattern_iff (no_star exact) name h =
    rw (strip_prefix-none star exact h.0, strip_last-none star exact h.1)
      (same_text→eq name exact, λ e. subst (λ x. same_text name x ≡ true) e (same_text_refl name))
