-- ===== src/Fastboot/Order.antt =====
-- The order in which src/fls/fastboot.rs flashes partitions.
use mathlib.Core.Path.{ap₂}
use mathlib.Core.Logic.{∥∥₁_elim}
use mathlib.Core.List.{Perm, Permᴰ}
use mathlib.Core.List.Permᴰ
use fls.Base.{
  In, ◌≡◌, refl, ap, sym, ◌∙◌, ◌⊎◌, inl, inr, true, false, List, [], ◌∷◌, arith, Bool-cases,
  if◌then◌else◌,
}
use fls.Oci.Text.{Text}
use fls.Fastboot.{precedes, insert_sorted, sort_by_name}

precedes_cotrans : (r q p : Text) → precedes r q ≡ false → precedes r p ≡ true → precedes q p ≡ true
precedes_cotrans [] [] p f t = t
precedes_cotrans [] (b ∷ q) p f t = absurd (ground (arith, f))
precedes_cotrans (a ∷ r) q [] f t = absurd (ground (arith, t))
precedes_cotrans (a ∷ r) [] (c ∷ p) f t = refl
precedes_cotrans (a ∷ r) (b ∷ q) (c ∷ p) f t = ground (arith, precedes_cotrans r q p, f, t)

precedes_asym : (p q : Text) → precedes p q ≡ true → precedes q p ≡ false
precedes_asym [] q t = by q
  where
    by : (q : Text) → precedes q [] ≡ false
    by [] = refl
    by (b ∷ q) = refl
precedes_asym (a ∷ p) [] t = absurd (ground (arith, t))
precedes_asym (a ∷ p) (b ∷ q) t = ground (arith, precedes_asym p q, t)

precedes_connex : (p q : Text) → precedes p q ≡ false → precedes q p ≡ false → p ≡ q
precedes_connex [] [] f g = refl
precedes_connex [] (b ∷ q) f g = absurd (ground (arith, f))
precedes_connex (a ∷ p) [] f g = absurd (ground (arith, g))
precedes_connex (a ∷ p) (b ∷ q) f g =
    let heads : a ≡ b = ground (arith, f, g) in
    let left : precedes p q ≡ false = ground (arith, f, g) in
    let right : precedes q p ≡ false = ground (arith, f, g) in
    ap₂ ◌∷◌ heads (precedes_connex p q left right)

-- The entries of a map: one for each name.
abbrev pub IsMap : List (Text × Text) → Type 0
IsMap xs = (p q : Text × Text) → In p xs → In q xs → p.0 ≡ q.0 → p ≡ q

both_inserted :
    (p q : Text × Text) (rest : List (Text × Text))
    → (p.0 ≡ q.0 → p ≡ q)
    → (if precedes q.0 p.0 then q ∷ p ∷ rest else p ∷ q ∷ rest)
      ≡ (if precedes p.0 q.0 then p ∷ q ∷ rest else q ∷ p ∷ rest)
both_inserted p q rest same = by (Bool-cases (precedes q.0 p.0)) (Bool-cases (precedes p.0 q.0))
  where
    by :
        (precedes q.0 p.0 ≡ true) ⊎ (precedes q.0 p.0 ≡ false)
        → (precedes p.0 q.0 ≡ true) ⊎ (precedes p.0 q.0 ≡ false)
        → (if precedes q.0 p.0 then q ∷ p ∷ rest else p ∷ q ∷ rest)
          ≡ (if precedes p.0 q.0 then p ∷ q ∷ rest else q ∷ p ∷ rest)
    by (inl a) (inl b) = absurd (ground (arith, a, precedes_asym p.0 q.0 b))
    by (inl a) (inr b) = rw (a, b) refl
    by (inr a) (inl b) = rw (a, b) refl
    by (inr a) (inr b) =
        let e = same (precedes_connex p.0 q.0 b a) in
        rw (a, b) (ap₂ (λ x y. x ∷ y ∷ rest) e (sym e))

-- Two entries can be inserted in either order.
insert_sorted-swap :
    (p q : Text × Text) (rest : List (Text × Text))
    → (p.0 ≡ q.0 → p ≡ q)
    → insert_sorted p (insert_sorted q rest) ≡ insert_sorted q (insert_sorted p rest)
insert_sorted-swap p q [] same = both_inserted p q [] same
insert_sorted-swap p q (r ∷ rest) same =
    by (Bool-cases (precedes r.0 p.0)) (Bool-cases (precedes r.0 q.0))
      (insert_sorted-swap p q rest same)
  where
    by :
        (precedes r.0 p.0 ≡ true) ⊎ (precedes r.0 p.0 ≡ false)
        → (precedes r.0 q.0 ≡ true) ⊎ (precedes r.0 q.0 ≡ false)
        → insert_sorted p (insert_sorted q rest) ≡ insert_sorted q (insert_sorted p rest)
        → insert_sorted p (insert_sorted q (r ∷ rest))
          ≡ insert_sorted q (insert_sorted p (r ∷ rest))
    by (inl a) (inl b) ih = rw (a, b) (rw a (ap (λ t. r ∷ t) ih))
    by (inl a) (inr b) ih = rw (a, b, precedes_cotrans r.0 q.0 p.0 b a) (rw a refl)
    by (inr a) (inl b) ih = rw (a, b) (rw (a, precedes_cotrans r.0 p.0 q.0 a b) refl)
    by (inr a) (inr b) ih = rw (a, b) (rw a (both_inserted p q (r ∷ rest) same))

In-Permᴰ : {xs ys : List (Text × Text)} → Permᴰ xs ys → (x : Text × Text) → In x xs → In x ys
In-Permᴰ Permᴰ.nil x m = m
In-Permᴰ (Permᴰ.cons e d) x (inl h) = inl (h ∙ e)
In-Permᴰ (Permᴰ.cons e d) x (inr m) = inr (In-Permᴰ d x m)
In-Permᴰ (Permᴰ.swap e f) x (inl h) = inr (inl (h ∙ e))
In-Permᴰ (Permᴰ.swap e f) x (inr (inl h)) = inl (h ∙ f)
In-Permᴰ (Permᴰ.swap e f) x (inr (inr m)) = inr (inr m)
In-Permᴰ (Permᴰ.trans d₁ d₂) x m = In-Permᴰ d₂ x (In-Permᴰ d₁ x m)

sort_by_name-Permᴰ :
    {xs ys : List (Text × Text)} → Permᴰ xs ys → IsMap xs → sort_by_name xs ≡ sort_by_name ys
sort_by_name-Permᴰ Permᴰ.nil m = refl
sort_by_name-Permᴰ (Permᴰ.cons {a = a} e d) m =
    ap₂ insert_sorted e (sort_by_name-Permᴰ d (λ p q i j. m p q (inr i) (inr j)))
sort_by_name-Permᴰ (Permᴰ.swap {a} {b} {a'} {b'} {l} e f) m =
    insert_sorted-swap a b (sort_by_name l) (m a b (inl refl) (inr (inl refl)))
    ∙ ap₂ (λ x y. insert_sorted x (insert_sorted y (sort_by_name l))) f e
sort_by_name-Permᴰ (Permᴰ.trans d₁ d₂) m =
    sort_by_name-Permᴰ d₁ m
    ∙ sort_by_name-Permᴰ d₂
        (λ p q i j. m p q (In-Permᴰ (Permᴰ.symm d₁) p i) (In-Permᴰ (Permᴰ.symm d₁) q j))

-- Where the names are those of a map, the sorted list is the same for each order of the entries.
pub sort_by_name-Perm :
    (xs ys : List (Text × Text)) → IsMap xs → Perm xs ys → sort_by_name xs ≡ sort_by_name ys
sort_by_name-Perm xs ys m p = ∥∥₁_elim p (hlevel) (λ d. sort_by_name-Permᴰ d m)
