-- ===== src/Oci/Blob/FirstBytes.antt =====
-- The bytes that `fetch_blob_with_detection` of src/fls/oci/from_oci.rs reads first.
use mathlib.Core.List.{flatten}
use mathlib.Core.Path.{subst}
use fls.Base.{
  ℕ, zero, suc, ◌-◌, ◌≤◌, ◌≡◌, refl, ap, ap, ◌∙◌, sym, ◌⊎◌, inl, inr, Bool, true, false, List, [],
  ◌∷◌, ◌++◌, arith, Bytes, length, take, length-take, append_assoc, ltb, if◌then◌else◌,
}
use fls.Download.{Ending, stream_ended, timed_out, stream_failed}
use fls.Download.Resume.{flatten-snoc}
use fls.Oci.Blob.{Gathered, gathered, broken, stuck, at_ending, gather}

pub take-append : (n : ℕ) (xs ys : Bytes) → take n (xs ++ ys) ≡ take n xs ++ take (n - length xs) ys
take-append zero xs ys = let e : 0 ≡ 0 - length xs = omega arith in ap (λ k. take k ys) e
take-append (suc n) [] ys = let e : suc n ≡ suc n - 0 = omega arith in ap (λ k. take k ys) e
take-append (suc n) (x ∷ xs) ys =
    let e : n - length xs ≡ suc n - suc (length xs) = omega arith in
    ap (λ t. x ∷ t) (take-append n xs ys) ∙ ap (λ k. x ∷ (take n xs ++ take k ys)) e

-- The first bytes of what was read, which are six or all of a stream without an error, and that
-- nothing of the stream is lost.
pub record Gathers (all : Bytes) (ending ending' : Ending) (prefix : Bytes)
    (initial rest : List Bytes) : Type 0 where
  pub first : prefix ≡ take 6 (flatten initial)
  pub whole : flatten initial ++ flatten rest ≡ all
  pub enough : (6 ≤ length (flatten initial)) ⊎ ((rest ≡ []) × (ending ≡ stream_ended))
  pub same_ending : ending' ≡ ending

abbrev pub GathersOf : Bytes → Ending → Gathered → Type 0
GathersOf all ending (gathered prefix initial rest ending') =
    Gathers all ending ending' prefix initial rest
GathersOf all ending (broken e) = Unit
GathersOf all ending stuck = Unit

full :
    (prefix : Bytes) (initial : List Bytes)
    → prefix ≡ take 6 (flatten initial)
    → ltb (length prefix) 6 ≡ false
    → 6 ≤ length (flatten initial)
full prefix initial first enough =
    ground (arith, enough, ap length first, length-take 6 (flatten initial))

pub gather-GathersOf :
    (chunks initial : List Bytes) (prefix : Bytes) (ending : Ending)
    → prefix ≡ take 6 (flatten initial)
    → GathersOf (flatten initial ++ flatten chunks) ending (gather prefix initial chunks ending)
unfolding gather flatten
gather-GathersOf [] initial prefix ending first = by (ltb (length prefix) 6) refl ending
  where
    by :
        (b : Bool)
        → ltb (length prefix) 6 ≡ b
        → (ending : Ending)
        → GathersOf
            (flatten initial ++ flatten [])
            ending
            (if b then at_ending prefix initial ending else gathered prefix initial [] ending)
    by true short stream_ended = record {
      first = first;
      whole = refl;
      enough = inr (refl, refl);
      same_ending = refl;
    }
    by true short timed_out = tt
    by true short (stream_failed e) = tt
    by false enough ending = record {
      first = first;
      whole = refl;
      enough = inl (full prefix initial first enough);
      same_ending = refl;
    }
gather-GathersOf (chunk ∷ chunks) initial prefix ending first =
    by (ltb (length prefix) 6) refl
      (λ next. gather-GathersOf chunks (initial ++ chunk ∷ []) more ending next)
  where
    more : Bytes
    more = prefix ++ take (6 - length prefix) chunk

    more_first : ltb (length prefix) 6 ≡ true → more ≡ take 6 (flatten (initial ++ chunk ∷ []))
    more_first short =
        let same : length prefix ≡ length (flatten initial) =
          ground (arith, short, ap length first, length-take 6 (flatten initial)) in
        ap (λ p. p ++ take (6 - length prefix) chunk) first
        ∙ ap (λ k. take 6 (flatten initial) ++ take (6 - k) chunk) same
        ∙ sym (take-append 6 (flatten initial) chunk)
        ∙ ap (take 6) (sym (flatten-snoc initial chunk))

    by :
        (b : Bool)
        → ltb (length prefix) 6 ≡ b
        → (more ≡ take 6 (flatten (initial ++ chunk ∷ []))
            → GathersOf
                (flatten (initial ++ chunk ∷ []) ++ flatten chunks)
                ending
                (gather more (initial ++ chunk ∷ []) chunks ending))
        → GathersOf (flatten initial ++ (chunk ++ flatten chunks)) ending (elim b [
          | true ↦ gather more (initial ++ chunk ∷ []) chunks ending
          | false ↦ gathered prefix initial (chunk ∷ chunks) ending
        ])
    by true short next =
        subst (λ all. GathersOf all ending (gather more (initial ++ chunk ∷ []) chunks ending))
          (ap (λ t. t ++ flatten chunks) (flatten-snoc initial chunk)
            ∙ append_assoc (flatten initial) chunk (flatten chunks))
          (next (more_first short))
    by false enough next = record {
      first = first;
      whole = refl;
      enough = inl (full prefix initial first enough);
      same_ending = refl;
    }
