-- ===== src/Writer/Fill.antt =====
-- `write_fill_pattern` of src/fls/block_writer.rs against the disk.
use fls.Base.{
  ℕ, zero, suc, ◌-◌, ◌*◌, ◌≤◌, ◌≡◌, refl, ap, ◌∙◌, sym, arith, inl, inr, ◌⊎◌, [], ◌∷◌, min, take,
  drop, length, length-take, drop_all,
}
use fls.Simg.Format.{Pattern}
use fls.Writer.{BlockWriter, write, repeated, fill_buffer, fill_loop, write_fill_pattern}
use fls.Writer.Disk.{Disk, put, Yields, Yields-bind, Tracks}
use fls.Writer.Copy.{Yields-map, Tracks-same, put-take-drop, write-Tracks}

pub length-repeated : (p : Pattern) (n : ℕ) → length (repeated p n) ≡ n
length-repeated p zero = refl
length-repeated (a, b, c, d) (suc n) = omega (arith, length-repeated (b, c, d, a) n)

take-repeated : (p : Pattern) (m n : ℕ) → m ≤ n → take m (repeated p n) ≡ repeated p m
take-repeated p zero n le = refl
take-repeated p (suc m) zero le = absurd (omega arith)
take-repeated (a, b, c, d) (suc m) (suc n) le =
    ap (λ t. a ∷ t) (take-repeated (b, c, d, a) m n (omega arith))

-- four times a number
abbrev four : ℕ → ℕ
four zero = 0
four (suc k) = suc (suc (suc (suc (four k))))

four_is : (k : ℕ) → four k ≡ 4 * k
four_is zero = refl
four_is (suc k) = omega (arith, four_is k)

-- after a multiple of four bytes the pattern begins again
drop-repeated-four :
    (p : Pattern) (k n : ℕ) → four k ≤ n → drop (four k) (repeated p n) ≡ repeated p (n - four k)
drop-repeated-four p zero n le = ap (repeated p) (omega arith)
drop-repeated-four p (suc k) zero le = absurd (omega arith)
drop-repeated-four p (suc k) (suc zero) le = absurd (omega arith)
drop-repeated-four p (suc k) (suc (suc zero)) le = absurd (omega arith)
drop-repeated-four p (suc k) (suc (suc (suc zero))) le = absurd (omega arith)
drop-repeated-four (a, b, c, d) (suc k) (suc (suc (suc (suc n)))) le =
    drop-repeated-four (a, b, c, d) k n (omega arith) ∙ ap (repeated (a, b, c, d)) (omega arith)

drop-repeated :
    (p : Pattern) (n : ℕ) → drop (min n 4096) (repeated p n) ≡ repeated p (n - min n 4096)
drop-repeated p n = elim (cases n) [
  | inl few ↦
      let e : min n 4096 ≡ n = omega arith in
      let z : n - min n 4096 ≡ 0 = omega arith in
      drop_all (min n 4096) (repeated p n) (omega (arith, length-repeated p n))
      ∙ ap (repeated p) (sym z)
  | inr many ↦
      let e : min n 4096 ≡ four 1024 = omega (arith, four_is 1024) in
      ap (λ t. drop t (repeated p n)) e
      ∙ drop-repeated-four p 1024 n (omega (arith, four_is 1024))
      ∙ ap (λ t. repeated p (n - t)) (sym e)
]
  where
    cases : (n : ℕ) → (n ≤ 4096) ⊎ (4096 ≤ n)
    cases n = omega arith

first_round :
    (p : Pattern) (n : ℕ) → take (min n 4096) (fill_buffer p) ≡ take (min n 4096) (repeated p n)
unfolding fill_buffer
first_round p n =
    take-repeated p (min n 4096) 4096 (omega arith)
    ∙ sym (take-repeated p (min n 4096) n (omega arith))

module _ (Fault : Type 0) where
  -- a round of the loop, and what is left of the fill
  fill_rest :
      (d : Disk) (p : Pattern) (n i : ℕ)
      → (put (put d (take (min n 4096) (fill_buffer p))) (repeated p (n - min n 4096))).bytes i
        ≡ (put d (repeated p n)).bytes i
  fill_rest d p n i =
      ap (λ t. (put (put d t) (repeated p (n - min n 4096))).bytes i) (first_round p n)
      ∙ ap (λ t. (put (put d (take (min n 4096) (repeated p n))) t).bytes i)
          (sym (drop-repeated p n))
      ∙ put-take-drop Fault d (min n 4096) (repeated p n) i

  fill_rest_at :
      (d : Disk) (p : Pattern) (n : ℕ)
      → (put (put d (take (min n 4096) (fill_buffer p))) (repeated p (n - min n 4096))).at
        ≡ (put d (repeated p n)).at
  fill_rest_at d p n =
      let first = ap length (first_round p n) in
      omega (
        arith,
        first,
        length-take (min n 4096) (repeated p n),
        length-repeated p n,
        length-repeated p (n - min n 4096),
      )

  fill_loop-Tracks :
      (fuel : ℕ) (w : BlockWriter) (d : Disk) (p : Pattern) (n : ℕ)
      → n ≤ fuel
      → Tracks Fault w d
      → Yields Fault (λ v. Tracks Fault v (put d (repeated p n))) (fill_loop fuel w p n)
  unfolding fill_loop
  fill_loop-Tracks fuel w d p zero le t =
      Tracks-same Fault w d (put d []) (λ i. ground arith) (omega arith) refl t
  fill_loop-Tracks zero w d p (suc n) le t = absurd (omega arith)
  fill_loop-Tracks (suc fuel) w d p (suc n) le t =
      let piece = take (min (suc n) 4096) (fill_buffer p) in
      Yields-bind Fault _ _ (write w piece) _ (write-Tracks Fault w d piece t) (λ v tv.
        Yields-map Fault _ _ (fill_loop fuel v p (suc n - min (suc n) 4096))
          (λ u.
            Tracks-same Fault u _ (put d (repeated p (suc n))) (fill_rest d p (suc n))
              (fill_rest_at d p (suc n)) refl)
          (fill_loop-Tracks fuel v (put d piece) p (suc n - min (suc n) 4096) (omega arith) tv))

  -- A fill of any length puts the pattern over and over, from its first byte.
  pub write_fill_pattern-Tracks :
      (w : BlockWriter) (d : Disk) (p : Pattern) (n : ℕ)
      → Tracks Fault w d
      → Yields Fault (λ v. Tracks Fault v (put d (repeated p n))) (write_fill_pattern w p n)
  unfolding write_fill_pattern
  write_fill_pattern-Tracks w d p n t = fill_loop-Tracks n w d p n (omega arith) t
