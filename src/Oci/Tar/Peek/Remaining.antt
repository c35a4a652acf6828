-- ===== src/Oci/Tar/Peek/Remaining.antt =====
-- The bytes that `MagicDetectingReader` of src/fls/oci/from_oci.rs is still to give.
use fls.Base.{
  drop-drop, drop-append, ℕ, zero, suc, ◌+◌, ◌-◌, ◌≤◌, ◌≡◌, refl, ap, sym, ◌∙◌, Bool, true, false,
  [], ◌++◌, arith, append_assoc, Bytes, length, take, drop, min, ltb, if◌then◌else◌,
  take-append-drop, length-append, drop_all,
}
use fls.Oci.Tar.Peek.{
  next_at_most, read_source, MagicDetectingReader, is_nothing, peeked_more, fill_peeked,
  read_peeked, read_inner, read,
}

-- The bytes that the reader is still to give
abbrev pub remaining : MagicDetectingReader → Bytes
remaining r = drop r.peek_pos r.peeked ++ r.inner.held

abbrev pub IsReader : MagicDetectingReader → Type 0
IsReader r = r.peek_pos ≤ length r.peeked

peeked_more-remaining :
    (r : MagicDetectingReader)
    → IsReader r
    → (remaining (peeked_more r (read_source 1024 r.inner)) ≡ remaining r)
      × IsReader (peeked_more r (read_source 1024 r.inner))
peeked_more-remaining r h =
    let n = next_at_most r.inner.at_most 1024 in
    let given : Bytes = take n r.inner.held in
    let left : Bytes = drop n r.inner.held in
    (
      ap (λ t. t ++ left) (drop-append r.peek_pos r.peeked given h)
          ∙ append_assoc (drop r.peek_pos r.peeked) given left
          ∙ ap (λ t. drop r.peek_pos r.peeked ++ t) (take-append-drop n r.inner.held),
      omega (arith, h, length-append r.peeked given),
    )

pub fill_peeked-remaining :
    (fuel wanted : ℕ) (r : MagicDetectingReader)
    → IsReader r
    → (remaining (fill_peeked fuel wanted r) ≡ remaining r) × IsReader (fill_peeked fuel wanted r)
unfolding fill_peeked
fill_peeked-remaining zero wanted r h = (refl, h)
fill_peeked-remaining (suc fuel) wanted r h =
    by (ltb (length r.peeked) wanted) (is_nothing (read_source 1024 r.inner).0)
      (fill_peeked-remaining fuel wanted more more_ok.1)
  where
    more : MagicDetectingReader
    more = peeked_more r (read_source 1024 r.inner)

    more_ok : (remaining more ≡ remaining r) × IsReader more
    more_ok = peeked_more-remaining r h

    by :
        (b e : Bool)
        → (remaining (fill_peeked fuel wanted more) ≡ remaining more)
          × IsReader (fill_peeked fuel wanted more)
        → (remaining (elim b [
          | false ↦ r
          | true ↦ elim e [ true ↦ more | false ↦ fill_peeked fuel wanted more ]
        ])
            ≡ remaining r)
          × IsReader (elim b [
            | false ↦ r
            | true ↦ elim e [ true ↦ more | false ↦ fill_peeked fuel wanted more ]
          ])
    by false e rest = (refl, h)
    by true true rest = more_ok
    by true false rest = (rest.0 ∙ more_ok.0, rest.1)

-- A read gives the next bytes of the stream.
pub read-remaining :
    (n : ℕ) (r : MagicDetectingReader)
    → IsReader r
    → ((read n r).0 ++ remaining (read n r).1 ≡ remaining r) × IsReader (read n r).1
unfolding read
read-remaining n r h = by (ltb r.peek_pos (length r.peeked)) refl
  where
    by :
        (b : Bool)
        → ltb r.peek_pos (length r.peeked) ≡ b
        → ((if b then read_peeked n r else read_inner r (read_source n r.inner)).0
              ++ remaining (if b then read_peeked n r else read_inner r (read_source n r.inner)).1
            ≡ remaining r)
          × IsReader (if b then read_peeked n r else read_inner r (read_source n r.inner)).1
    by true e =
        let k = min n (length r.peeked - r.peek_pos) in
        let rest : Bytes = drop r.peek_pos r.peeked in
        (
          sym (append_assoc (take k rest) (drop (r.peek_pos + k) r.peeked) r.inner.held)
              ∙ ap (λ t. (take k rest ++ t) ++ r.inner.held) (drop-drop r.peek_pos k r.peeked)
              ∙ ap (λ t. t ++ r.inner.held) (take-append-drop k rest),
          omega (arith, h),
        )
    by false e =
        let n' = next_at_most r.inner.at_most n in
        let used : drop r.peek_pos r.peeked ≡ [] =
          drop_all r.peek_pos r.peeked (ground (arith, e)) in
        (
          ap (λ t. take n' r.inner.held ++ (t ++ drop n' r.inner.held)) used
              ∙ take-append-drop n' r.inner.held
              ∙ sym (ap (λ t. t ++ r.inner.held) used),
          h,
        )
