-- ===== src/Oci/Tar/Peek/Kept.antt =====
-- What `MagicDetectingReader` of src/fls/oci/from_oci.rs shows and gives of its stream.
use fls.Base.{
  ℕ, zero, suc, ◌+◌, ◌≤◌, ◌≡◌, refl, ap, sym, ◌∙◌, ◌⊎◌, inl, inr, Bool, true, false, List, [], ◌∷◌,
  ◌++◌, arith, append_assoc, append-nil, Bytes, length, take, drop, min, ltb, length-append,
  drop_nil,
}
use fls.Oci.Tar.Peek.{
  Source, next_at_most, read_source, MagicDetectingReader, reader, is_nothing, peeked_more,
  fill_peeked, peek_bytes, read, read_all,
}
use fls.Oci.Tar.Peek.Remaining.{remaining, IsReader, fill_peeked-remaining, read-remaining}

-- The first bytes, or all
nothing_held : (n : ℕ) (bytes : Bytes) → is_nothing (take (suc n) bytes) ≡ true → bytes ≡ []
nothing_held n [] e = refl
nothing_held n (b ∷ bytes) e = absurd (ground (arith, e))

something : (bytes : Bytes) → is_nothing bytes ≡ false → 1 ≤ length bytes
something [] e = absurd (ground (arith, e))
something (b ∷ bytes) e = omega arith

next_positive : (at_most : List ℕ) (n : ℕ) → (k : ℕ) × (next_at_most at_most (suc n) ≡ suc k)
next_positive [] n = (n, refl)
next_positive (m ∷ ms) n = (min m n, omega arith)

source_empty : (s : Source) → is_nothing (read_source 1024 s).0 ≡ true → s.held ≡ []
source_empty s e =
    let (k, positive) = next_positive s.at_most 1023 in
    nothing_held k s.held (ap (λ n. is_nothing (take n s.held)) (sym positive) ∙ e)

abbrev pub Filled : ℕ → MagicDetectingReader → Type 0
Filled wanted r = (wanted ≤ length r.peeked) ⊎ (r.inner.held ≡ [])

-- Fuel for each byte that is wanted is enough.
fill_peeked-Filled :
    (fuel wanted : ℕ) (r : MagicDetectingReader)
    → wanted ≤ length r.peeked + fuel
    → Filled wanted (fill_peeked fuel wanted r)
unfolding fill_peeked
fill_peeked-Filled zero wanted r le = inl (omega (arith, le))
fill_peeked-Filled (suc fuel) wanted r le =
    by (ltb (length r.peeked) wanted) (is_nothing (read_source 1024 r.inner).0) refl refl
      (fill_peeked-Filled fuel wanted more)
  where
    more : MagicDetectingReader
    more = peeked_more r (read_source 1024 r.inner)

    by :
        (b e : Bool)
        → ltb (length r.peeked) wanted ≡ b
        → is_nothing (read_source 1024 r.inner).0 ≡ e
        → (wanted ≤ length more.peeked + fuel → Filled wanted (fill_peeked fuel wanted more))
        → Filled wanted (elim b [
          | false ↦ r
          | true ↦ elim e [ true ↦ more | false ↦ fill_peeked fuel wanted more ]
        ])
    by false e hb he k = inl (ground (arith, hb))
    by true true hb he k = inr (
        ap (drop (next_at_most r.inner.at_most 1024)) (source_empty r.inner he)
        ∙ drop_nil (next_at_most r.inner.at_most 1024))
    by true false hb he k = k (
        omega (
          arith,
          le,
          something (read_source 1024 r.inner).0 he,
          length-append r.peeked (read_source 1024 r.inner).0,
        ))

take-append_le : (n : ℕ) (xs ys : Bytes) → n ≤ length xs → take n (xs ++ ys) ≡ take n xs
take-append_le zero xs ys le = refl
take-append_le (suc n) [] ys le = absurd (omega (arith, le))
take-append_le (suc n) (x ∷ xs) ys le = ap (λ t. x ∷ t) (take-append_le n xs ys (omega (arith, le)))

fill_peeked-peek_pos :
    (fuel wanted : ℕ) (r : MagicDetectingReader) → (fill_peeked fuel wanted r).peek_pos ≡ r.peek_pos
unfolding fill_peeked
fill_peeked-peek_pos zero wanted r = refl
fill_peeked-peek_pos (suc fuel) wanted r =
    by (ltb (length r.peeked) wanted) (is_nothing (read_source 1024 r.inner).0)
      (fill_peeked-peek_pos fuel wanted more)
  where
    more : MagicDetectingReader
    more = peeked_more r (read_source 1024 r.inner)

    by :
        (b e : Bool)
        → (fill_peeked fuel wanted more).peek_pos ≡ r.peek_pos
        → (elim b as (λ _. MagicDetectingReader) [
          | false ↦ r
          | true ↦ elim e as (λ _. MagicDetectingReader) [
            | true ↦ more
            | false ↦ fill_peeked fuel wanted more
          ]
        ]).peek_pos
          ≡ r.peek_pos
    by false e k = refl
    by true true k = refl
    by true false k = k

seen_first :
    (wanted : ℕ) (q : MagicDetectingReader) (held : Bytes)
    → q.peeked ++ q.inner.held ≡ held
    → Filled wanted q
    → take (min wanted (length q.peeked)) q.peeked ≡ take wanted held
seen_first wanted q held e (inl full) =
    let same : min wanted (length q.peeked) ≡ wanted = omega (arith, full) in
    ap (λ k. take k q.peeked) same
    ∙ sym (take-append_le wanted q.peeked q.inner.held full)
    ∙ ap (take wanted) e
seen_first wanted q held e (inr empty) =
    at_most_all wanted q.peeked
    ∙ ap (take wanted) (sym (append-nil q.peeked) ∙ ap (λ t. q.peeked ++ t) (sym empty) ∙ e)
  where
    at_most_all : (n : ℕ) (xs : Bytes) → take (min n (length xs)) xs ≡ take n xs
    at_most_all zero xs = let e : min 0 (length xs) ≡ 0 = omega arith in ap (λ k. take k xs) e
    at_most_all (suc n) [] = let e : min (suc n) 0 ≡ 0 = omega arith in ap (λ k. take k []) e
    at_most_all (suc n) (x ∷ xs) =
        let e : min (suc n) (suc (length xs)) ≡ suc (min n (length xs)) = omega arith in
        ap (λ k. take k (x ∷ xs)) e ∙ ap (λ t. x ∷ t) (at_most_all n xs)

read_all-remaining :
    (sizes : List ℕ) (r : MagicDetectingReader)
    → IsReader r
    → (read_all sizes r).0 ++ remaining (read_all sizes r).1 ≡ remaining r
unfolding read_all
read_all-remaining [] r h = refl
read_all-remaining (n ∷ sizes) r h =
    let (kept, ok) = read-remaining n r h in
    append_assoc (read n r).0 (read_all sizes (read n r).1).0
      (remaining (read_all sizes (read n r).1).1)
    ∙ ap (λ t. (read n r).0 ++ t) (read_all-remaining sizes (read n r).1 ok)
    ∙ kept

-- The first bytes of a stream are looked at, as many as are asked for or all that there are, however
-- few each read of the stream gives; and then reads of any sizes give the stream's bytes from its
-- start, each once and in order, with what is still to come.
pub peek_bytes-read_all :
    (s : Source) (wanted : ℕ) (sizes : List ℕ)
    → ((peek_bytes wanted (reader s)).0 ≡ take wanted s.held)
      × ((read_all sizes (peek_bytes wanted (reader s)).1).0
            ++ remaining (read_all sizes (peek_bytes wanted (reader s)).1).1
          ≡ s.held)
unfolding peek_bytes
peek_bytes-read_all s wanted sizes =
    let q = fill_peeked wanted wanted (reader s) in
    let (kept, ok) = fill_peeked-remaining wanted wanted (reader s) (omega arith) in
    (
      seen_first wanted q s.held
          (ap (λ k. drop k q.peeked ++ q.inner.held)
              (sym (fill_peeked-peek_pos wanted wanted (reader s)))
            ∙ kept)
          (fill_peeked-Filled wanted wanted (reader s) (omega arith)),
      read_all-remaining sizes q ok ∙ kept,
    )
