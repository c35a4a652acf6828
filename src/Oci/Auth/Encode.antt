-- ===== src/Oci/Auth/Encode.antt =====
-- What the encoding of src/fls/oci/auth.rs keeps of a text.
use mathlib.Core.List.{flatten}
use fls.Base.{
  ℕ, ◌+◌, ◌-◌, ◌*◌, ◌/◌, ◌%◌, ◌<◌, ◌≡◌, refl, ap, ◌∙◌, inl, inr, Bool, true, false, ◌||◌, List, [],
  ◌∷◌, ◌++◌, arith, Bool-cases, if◌then◌else◌, ltb, ◌==◌, map,
}
use fls.Oci.Text.{Text, all, codes}
use fls.Oci.Auth.{is_unreserved, utf8, hex_digit, escape_all, encode_char, urlencoding_encode}

-- The value of a digit, and the decoding of a query's text into bytes
abbrev pub digit_value : ℕ → ℕ
digit_value d = if ltb d 58 then d - 48 else d - 55

abbrev pub decode : Text → List ℕ
decode [] = []
decode (a ∷ []) = a ∷ []
decode (a ∷ b ∷ []) = a ∷ b ∷ []
decode (a ∷ b ∷ c ∷ s) = elim (a == 37) [
  | true ↦ (16 * digit_value b + digit_value c) ∷ decode s
  | false ↦ a ∷ decode (b ∷ c ∷ s)
]

decode-plain : (c : ℕ) (s : Text) → (c == 37) ≡ false → decode (c ∷ s) ≡ c ∷ decode s
decode-plain c [] h = refl
decode-plain c (a ∷ []) h = refl
decode-plain c (a ∷ b ∷ s) h = rw (h, decode) refl

hex-value :
    (b : ℕ) → b < 256 → 16 * digit_value (hex_digit (b / 16)) + digit_value (hex_digit (b % 16)) ≡ b
hex-value b small = ground arith

-- Bytes, and the characters of Unicode
abbrev pub AreBytes : List ℕ → Type 0
AreBytes [] = Unit
AreBytes (b ∷ bytes) = (b < 256) × AreBytes bytes

abbrev pub AreChars : Text → Type 0
AreChars [] = Unit
AreChars (c ∷ s) = (c < 1114112) × AreChars s

utf8-AreBytes : (c : ℕ) → c < 1114112 → AreBytes (utf8 c)
utf8-AreBytes c small = elim (Bool-cases (ltb c 128)) [
  | inl a ↦ rw a (ground arith, tt)
  | inr a ↦ rw a (elim (Bool-cases (ltb c 2048)) [
    | inl b ↦ rw b (ground arith, (ground arith, tt))
    | inr b ↦ rw b (elim (Bool-cases (ltb c 65536)) [
      | inl d ↦ rw d (ground arith, (ground arith, (ground arith, tt)))
      | inr d ↦ rw d (ground arith, (ground arith, (ground arith, (ground arith, tt))))
    ])
  ])
]

decode-escape_all :
    (bytes : List ℕ) (s : Text)
    → AreBytes bytes
    → decode (escape_all bytes ++ s) ≡ bytes ++ decode s
decode-escape_all [] s h = refl
decode-escape_all (b ∷ bytes) s h =
    mathlib.Core.Path.ap₂ ◌∷◌ (hex-value b h.0) (decode-escape_all bytes s h.1)

decode-encode_char :
    (c : ℕ) (s : Text) → c < 1114112 → decode (encode_char c ++ s) ≡ utf8 c ++ decode s
decode-encode_char c s small =
    by (is_unreserved c) (c == 58) (c == 47) (c == 32) refl refl refl refl
  where
    by :
        (u a b d : Bool)
        → is_unreserved c ≡ u
        → (c == 58) ≡ a
        → (c == 47) ≡ b
        → (c == 32) ≡ d
        → decode (
            (if u
              then c ∷ []
              else if a
              then codes "%3A"
              else if b
              then codes "%2F"
              else if d
              then codes "%20"
              else escape_all (utf8 c))
            ++ s)
          ≡ utf8 c ++ decode s
    by true a b d hu ha hb hd =
        let short : ltb c 128 ≡ true = ground (arith, hu) in
        let other : (c == 37) ≡ false = ground (arith, hu) in rw short (decode-plain c s other)
    by false true b d hu ha hb hd = let e : c ≡ 58 = ground (arith, ha) in rw e refl
    by false false true d hu ha hb hd = let e : c ≡ 47 = ground (arith, hb) in rw e refl
    by false false false true hu ha hb hd = let e : c ≡ 32 = ground (arith, hd) in rw e refl
    by false false false false hu ha hb hd = decode-escape_all (utf8 c) s (utf8-AreBytes c small)

-- Unreserved characters and '%': none that a query's syntax uses
abbrev pub is_query_safe : ℕ → Bool
is_query_safe c = is_unreserved c || c == 37

all-append : (p : ℕ → Bool) (s t : Text) → all p s ≡ true → all p t ≡ true → all p (s ++ t) ≡ true
all-append p [] t hs ht = ht
all-append p (c ∷ s) t hs ht = ground (arith, all-append p s t)

escape_all-safe : (bytes : List ℕ) → AreBytes bytes → all is_query_safe (escape_all bytes) ≡ true
escape_all-safe [] h = refl
escape_all-safe (b ∷ bytes) h =
    let high : is_query_safe (hex_digit (b / 16)) ≡ true =
      hex_digit-safe (b / 16) (ground (arith, h.0)) in
    let low : is_query_safe (hex_digit (b % 16)) ≡ true = hex_digit-safe (b % 16) (ground arith) in
    rw (high, low) (escape_all-safe bytes h.1)
  where
    hex_digit-safe : (n : ℕ) → n < 16 → is_query_safe (hex_digit n) ≡ true
    hex_digit-safe n small = ground arith

encode_char-safe : (c : ℕ) → c < 1114112 → all is_query_safe (encode_char c) ≡ true
encode_char-safe c small = by (is_unreserved c) refl
  where
    by :
        (u : Bool)
        → is_unreserved c ≡ u
        → all is_query_safe (
            if u
            then c ∷ []
            else if c == 58
            then codes "%3A"
            else if c == 47
            then codes "%2F"
            else if c == 32
            then codes "%20"
            else escape_all (utf8 c))
          ≡ true
    by true e = rw e refl
    by false e = elim (Bool-cases (c == 58)) [
      | inl x ↦ rw x refl
      | inr x ↦ rw x (elim (Bool-cases (c == 47)) [
        | inl y ↦ rw y refl
        | inr y ↦ rw y (elim (Bool-cases (c == 32)) [
          | inl z ↦ rw z refl
          | inr z ↦ rw z (escape_all-safe (utf8 c) (utf8-AreBytes c small))
        ])
      ])
    ]

-- The encoding of a text for a URL has only unreserved characters and '%', so nothing in it ends a
-- parameter, and a decoder that turns '%' and two digits into a byte gives back the text in UTF-8.
pub decode-urlencoding_encode :
    (s : Text)
    → AreChars s
    → (all is_query_safe (urlencoding_encode s) ≡ true)
      × (decode (urlencoding_encode s) ≡ flatten (map utf8 s))
unfolding urlencoding_encode flatten
decode-urlencoding_encode [] h = (refl, refl)
decode-urlencoding_encode (c ∷ s) h =
    let rest = decode-urlencoding_encode s h.1 in
    (
      all-append is_query_safe (encode_char c) (urlencoding_encode s) (encode_char-safe c h.0)
          rest.0,
      decode-encode_char c (urlencoding_encode s) h.0 ∙ ap (λ t. utf8 c ++ t) rest.1,
    )
