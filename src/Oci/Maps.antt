-- ===== src/Oci/Maps.antt =====
-- Maps and sets with keys that are texts, for the hash maps and hash sets of src/fls/oci.
use mathlib.Core.Option.{some-injective}
use mathlib.Core.Path.{subst}
use fls.Base.{
  ◌≡◌, refl, ap, sym, ◌∙◌, ◌⊎◌, arith, Bool, true, false, ◌||◌, List, [], ◌∷◌, ◌++◌, Option, none,
  some, if◌then◌else◌, Bool-cases, inl, inr,
}
use fls.Oci.Text.{Text, same_text}
use fls.Oci.Text.Equal.{same_text_refl, same_text→eq}

abbrev pub Map {ℓ} : Type ℓ → Type ℓ
Map V = List (Text × V)

abbrev pub get {ℓ} : {V : Type ℓ} → Text → Map V → Option V
get k [] = none
get k ((a, v) ∷ m) = if same_text a k then some v else get k m

abbrev pub insert {ℓ} : {V : Type ℓ} → Text → V → Map V → Map V
insert k v [] = (k, v) ∷ []
insert k v ((a, w) ∷ m) = if same_text a k then (a, v) ∷ m else (a, w) ∷ insert k v m

abbrev pub has : Text → List Text → Bool
has k [] = false
has k (a ∷ s) = same_text a k || has k s

abbrev pub insert_key : Text → List Text → List Text
insert_key k s = if has k s then s else s ++ k ∷ []

pub get-insert {ℓ} :
    {V : Type ℓ} (k j : Text) (v : V) (m : Map V)
    → get j (insert k v m) ≡ (if same_text k j then some v else get j m)
get-insert k j v [] = refl
get-insert k j v ((a, w) ∷ m) = elim (Bool-cases (same_text a k)) [
  | inl here ↦
      let e = same_text→eq a k here in
      rw here (over (same_text a j) (same_text k j) (ap (λ t. same_text t j) e))
  | inr there ↦
      rw (there, get-insert k j v m)
        (past (Bool-cases (same_text a j)) (Bool-cases (same_text k j)) there)
]
  where
    over :
        (x y : Bool)
        → x ≡ y
        → (if x then some v else get j m) ≡ (if y then some v else if x then some w else get j m)
    over true true e = refl
    over false false e = refl
    over true false e = absurd (ground (arith, e))
    over false true e = absurd (ground (arith, e))

    past :
        (same_text a j ≡ true) ⊎ (same_text a j ≡ false)
        → (same_text k j ≡ true) ⊎ (same_text k j ≡ false)
        → same_text a k ≡ false
        → (if same_text a j then some w else if same_text k j then some v else get j m)
          ≡ (if same_text k j then some v else if same_text a j then some w else get j m)
    past (inr x) y there = rw x refl
    past (inl x) (inr y) there = rw (x, y) refl
    past (inl x) (inl y) there =
        let same : same_text a k ≡ same_text a j = ap (same_text a) (same_text→eq k j y) in
        absurd (ground (arith, same, there, x))

pub get-insert_same {ℓ} :
    {V : Type ℓ} (k : Text) (v : V) (m : Map V) → get k (insert k v m) ≡ some v
get-insert_same k v m = get-insert k k v m ∙ rw (same_text_refl k) refl

-- What holds of the entries holds of those after an insertion, where it holds of the new one.
pub get-insert_all {ℓ κ} :
    {V : Type ℓ} (Q : Text → V → Type κ) (k : Text) (v : V) (m : Map V)
    → ((j : Text) (w : V) → get j m ≡ some w → Q j w)
    → Q k v
    → (j : Text) (w : V) → get j (insert k v m) ≡ some w
    → Q j w
get-insert_all Q k v m old new j w found =
    by (Bool-cases (same_text k j)) (sym (get-insert k j v m) ∙ found)
  where
    by :
        (same_text k j ≡ true) ⊎ (same_text k j ≡ false)
        → (if same_text k j then some v else get j m) ≡ some w
        → Q j w
    by (inr other) e = old j w (sym (rw other refl) ∙ e)
    by (inl same) e =
        subst (λ t. Q t w) (same_text→eq k j same)
          (subst (Q k) (some-injective v w (sym (rw same refl) ∙ e)) new)
