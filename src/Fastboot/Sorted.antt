-- ===== src/Fastboot/Sorted.antt =====
-- That src/fls/fastboot.rs sorts the partitions by their names.
use mathlib.Core.List.{Perm}
use mathlib.Core.List.Perm
use fls.Base.{◌<◌, ◌≡◌, ◌⊎◌, inl, inr, true, false, Bool-cases, List, [], ◌∷◌, arith}
use fls.Oci.Text.{Text}
use fls.Fastboot.{precedes, insert_sorted, sort_by_name}

-- The order of texts in a dictionary: the first difference decides.
abbrev pub IsUpTo : Text → Text → Type 0
IsUpTo [] t = Unit
IsUpTo (a ∷ s) [] = ⊥
IsUpTo (a ∷ s) (b ∷ t) = (a < b) ⊎ ((a ≡ b) × IsUpTo s t)

-- No entry has a name behind that of the next one.
abbrev pub IsSorted : List (Text × Text) → Type 0
IsSorted [] = Unit
IsSorted (p ∷ []) = Unit
IsSorted (p ∷ q ∷ rest) = IsUpTo p.0 q.0 × IsSorted (q ∷ rest)

precedes-IsUpTo : (s t : Text) → precedes s t ≡ true → IsUpTo s t
precedes-IsUpTo [] t e = tt
precedes-IsUpTo (a ∷ s) [] e = absurd (ground (arith, e))
precedes-IsUpTo (a ∷ s) (b ∷ t) e = ground (arith, e, precedes-IsUpTo s t)

not_precedes-IsUpTo : (s t : Text) → precedes t s ≡ false → IsUpTo s t
not_precedes-IsUpTo [] t e = tt
not_precedes-IsUpTo (a ∷ s) [] e = absurd (ground (arith, e))
not_precedes-IsUpTo (a ∷ s) (b ∷ t) e = ground (arith, e, not_precedes-IsUpTo s t)

-- An entry that is inserted stands behind those that precede it.
insert_sorted-IsSorted :
    (p : Text × Text) (xs : List (Text × Text)) → IsSorted xs → IsSorted (insert_sorted p xs)
insert_sorted-IsSorted p [] sorted = tt
insert_sorted-IsSorted p (q ∷ []) sorted = elim (Bool-cases (precedes q.0 p.0)) [
  | inl e ↦ rw e (precedes-IsUpTo q.0 p.0 e, tt)
  | inr e ↦ rw e (not_precedes-IsUpTo p.0 q.0 e, tt)
]
insert_sorted-IsSorted p (q ∷ r ∷ rest) sorted = elim (Bool-cases (precedes q.0 p.0)) [
  | inl e ↦
      rw e (behind (Bool-cases (precedes r.0 p.0)) e (insert_sorted-IsSorted p (r ∷ rest) sorted.1))
  | inr e ↦ rw e (not_precedes-IsUpTo p.0 q.0 e, sorted)
]
  where
    behind :
        (precedes r.0 p.0 ≡ true) ⊎ (precedes r.0 p.0 ≡ false)
        → precedes q.0 p.0 ≡ true
        → IsSorted (insert_sorted p (r ∷ rest))
        → IsSorted (q ∷ insert_sorted p (r ∷ rest))
    behind (inl f) e later = rw f (sorted.0, rw f at later)
    behind (inr f) e later = rw f (precedes-IsUpTo q.0 p.0 e, rw f at later)

pub sort_by_name-IsSorted : (xs : List (Text × Text)) → IsSorted (sort_by_name xs)
sort_by_name-IsSorted [] = tt
sort_by_name-IsSorted (p ∷ rest) =
    insert_sorted-IsSorted p (sort_by_name rest) (sort_by_name-IsSorted rest)

insert_sorted_perm :
    (p : Text × Text) (xs : List (Text × Text)) → Perm (p ∷ xs) (insert_sorted p xs)
insert_sorted_perm p [] = Perm.refl _
insert_sorted_perm p (q ∷ rest) = elim (Bool-cases (precedes q.0 p.0)) [
  | inl e ↦ rw e (Perm.trans (Perm.swap q p rest) (Perm.cons q (insert_sorted_perm p rest)))
  | inr e ↦ rw e (Perm.refl _)
]

pub sort_by_name_perm : (xs : List (Text × Text)) → Perm xs (sort_by_name xs)
sort_by_name_perm [] = Perm.refl _
sort_by_name_perm (p ∷ rest) =
    Perm.trans (Perm.cons p (sort_by_name_perm rest)) (insert_sorted_perm p (sort_by_name rest))
