-- ===== src/Oci/Text.antt =====
-- Text as a list of code points, with the searches of the standard library that src/fls/oci uses.
pub mod Equal
use Prim.Native.Char.{code}
use Prim.Native.String.{String}
use fls.Base.{
  ℕ, suc, ◌+◌, ◌≡◌, refl, ap, Bool, true, false, ◌&&◌, ◌||◌, List, [], ◌∷◌, ◌++◌, Option, none,
  some, ltb, leb, ◌==◌, if◌then◌else◌, length, arith, Bool-cases, inl, inr,
}

abbrev pub Text : Type 0
Text = List ℕ

-- The code points of a literal
abbrev pub codes : String → Text
codes String.[] = []
codes (String.◌∷◌ c s) = code c ∷ codes s

-- The code points of White_Space
abbrev pub is_whitespace : ℕ → Bool
is_whitespace c =
    (leb 9 c && leb c 13)
    || (c == 32
        || (c == 133
            || (c == 160
                || (c == 5760
                    || ((leb 8192 c && leb c 8202)
                        || (c == 8232
                            || (c == 8233 || (c == 8239 || (c == 8287 || c == 12288)))))))))

abbrev pub trim_start : Text → Text
trim_start [] = []
trim_start (c ∷ s) = if is_whitespace c then trim_start s else c ∷ s

abbrev pub all : (ℕ → Bool) → Text → Bool
all p [] = true
all p (c ∷ s) = p c && all p s

-- A text is trimmed from its end where all that follows is white space.
abbrev pub trim_end : Text → Text
trim_end [] = []
trim_end (c ∷ s) = if all is_whitespace (c ∷ s) then [] else c ∷ trim_end s

abbrev pub trim : Text → Text
trim s = trim_end (trim_start s)

abbrev pub contains : ℕ → Text → Bool
contains c [] = false
contains c (x ∷ s) = x == c || contains c s

-- the last place of a character
abbrev pub later : Bool → Option ℕ → Option ℕ
later here (some i) = some (suc i)
later true none = some 0
later false none = none

abbrev pub rfind : ℕ → Text → Option ℕ
rfind c [] = none
rfind c (x ∷ s) = later (x == c) (rfind c s)

-- what stands before and behind the first place of a character
abbrev pub split_from : Bool → ℕ → Text → Option (Text × Text) → Option (Text × Text)
split_from true x s rest = some ([], s)
split_from false x s none = none
split_from false x s (some (before, behind)) = some (x ∷ before, behind)

abbrev pub split_once : ℕ → Text → Option (Text × Text)
split_once c [] = none
split_once c (x ∷ s) = split_from (x == c) x s (split_once c s)

abbrev pub same_text : Text → Text → Bool
same_text [] [] = true
same_text (a ∷ s) (b ∷ t) = a == b && same_text s t
same_text _ _ = false

-- The bytes of a character in UTF-8
abbrev pub utf8_width : ℕ → ℕ
utf8_width c = if ltb c 128 then 1 else if ltb c 2048 then 2 else if ltb c 65536 then 3 else 4

-- The length in bytes of UTF-8.
abbrev pub utf8_length : Text → ℕ
utf8_length [] = 0
utf8_length (c ∷ s) = utf8_width c + utf8_length s

abbrev pub starts_with : Text → Text → Bool
starts_with [] s = true
starts_with (p ∷ prefix) [] = false
starts_with (p ∷ prefix) (c ∷ s) = p == c && starts_with prefix s

abbrev pub ends_with : Text → Text → Bool
ends_with suffix [] = same_text suffix []
ends_with suffix (c ∷ s) = same_text suffix (c ∷ s) || ends_with suffix s

-- a text in a text
abbrev pub contains_text : Text → Text → Bool
contains_text part [] = starts_with part []
contains_text part (c ∷ s) = starts_with part (c ∷ s) || contains_text part s

-- the pieces between the places of a character
abbrev pub push_piece : Bool → ℕ → List Text → List Text
push_piece true x pieces = [] ∷ pieces
push_piece false x [] = (x ∷ []) ∷ []
push_piece false x (piece ∷ pieces) = (x ∷ piece) ∷ pieces

abbrev pub split : ℕ → Text → List Text
split c [] = [] ∷ []
split c (x ∷ s) = push_piece (x == c) x (split c s)

abbrev pub to_ascii_lowercase : ℕ → ℕ
to_ascii_lowercase c = if leb 65 c && leb c 90 then c + 32 else c

pub rfind_missing : (c : ℕ) (s : Text) → contains c s ≡ false → rfind c s ≡ none
rfind_missing c [] h = refl
rfind_missing c (x ∷ s) h = ground (arith, rfind_missing c s)

pub rfind-append :
    (c : ℕ) (a b : Text) → contains c b ≡ false → rfind c (a ++ c ∷ b) ≡ some (length a)
rfind-append c [] b h = ground (arith, rfind_missing c b h)
rfind-append c (x ∷ a) b h = rw (rfind-append c a b h) refl

pub split_once-append :
    (c : ℕ) (a b : Text) → contains c a ≡ false → split_once c (a ++ c ∷ b) ≡ some (a, b)
split_once-append c [] b h = ground arith
split_once-append c (x ∷ a) b h = ground (arith, split_once-append c a b)

pub contains-append : (c : ℕ) (a b : Text) → contains c (a ++ b) ≡ (contains c a || contains c b)
contains-append c [] b = refl
contains-append c (x ∷ a) b = ground (arith, contains-append c a b)

pub trim_start-append : (c : ℕ) (s : Text) → is_whitespace c ≡ false → trim_start (c ∷ s) ≡ c ∷ s
trim_start-append c s h = rw h refl

-- A text that ends in no white space is left.
pub trim_end-append :
    (s : Text) (c : ℕ) → is_whitespace c ≡ false → trim_end (s ++ c ∷ []) ≡ s ++ c ∷ []
trim_end-append [] c h = rw h refl
trim_end-append (x ∷ s) c h = rw (not_all (x ∷ s) c h) (ap (λ t. x ∷ t) (trim_end-append s c h))
  where
    not_all : (s : Text) (c : ℕ) → is_whitespace c ≡ false → all is_whitespace (s ++ c ∷ []) ≡ false
    not_all [] c h = rw h refl
    not_all (x ∷ s) c h = elim (Bool-cases (is_whitespace x)) [
      | inl w ↦ rw (w, not_all s c h) refl
      | inr w ↦ rw w refl
    ]
