-- ===== src/Oci/Text/Equal.antt =====
-- Equality of texts, as the tests of src/fls/oci compute it.
use mathlib.Core.Path.{ap₂}
use fls.Base.{◌≡◌, refl, true, [], ◌∷◌, arith}
use fls.Oci.Text.{Text, same_text}

pub same_text_refl : (s : Text) → same_text s s ≡ true
same_text_refl [] = refl
same_text_refl (c ∷ s) = ground (arith, same_text_refl s)

pub same_text→eq : (s t : Text) → same_text s t ≡ true → s ≡ t
same_text→eq [] [] h = refl
same_text→eq [] (b ∷ t) h = absurd (ground arith)
same_text→eq (a ∷ s) [] h = absurd (ground arith)
same_text→eq (a ∷ s) (b ∷ t) h =
    let heads : a ≡ b = ground arith in
    let tails : same_text s t ≡ true = ground arith in ap₂ ◌∷◌ heads (same_text→eq s t tails)
