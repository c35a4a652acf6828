-- ===== src/Writer/Copy.antt =====
-- The loop of `write` of src/fls/block_writer.rs against the disk.
use fls.Base.{
  ℕ, zero, suc, ◌+◌, ◌-◌, ◌%◌, ◌<◌, ◌≤◌, ◌≡◌, refl, ap, ◌∙◌, arith, Bool-cases, inl, inr, u64_mod,
  ◌==◌, [], ◌∷◌, min, length, get_or, take, drop, Bytes, get_or-take, get_or-drop, length-take,
  length-drop, wrapping_sub-eq,
}
use fls.Writer.{
  Outcome, done, failed, out_of_fuel, overlay, BlockWriter, block_size, flush_buffer, copy_in,
  to_copy, flush_if_full, report, write_round, write_loop, write,
}
use fls.Writer.Disk.{Disk, put, pad, Yields, Yields-bind, Holds, Tracks, Flushed}
use fls.Writer.Flush.{flush_buffer-Flushed}

module _ (Fault : Type 0) where
  pub Yields-map :
      {A : Type 0} (P Q : A → Type 0) (m : Outcome A)
      → ((a : A) → P a → Q a)
      → Yields Fault P m
      → Yields Fault Q m
  Yields-map P Q (done a) k h = k a h
  Yields-map P Q failed k h = h
  Yields-map P Q out_of_fuel k h = h

  to_copy-eq :
      (w : BlockWriter) (input : Bytes)
      → w.buffer_pos < block_size
      → to_copy w input ≡ min (block_size - w.buffer_pos) (length input)
  to_copy-eq w input h =
      ap (λ t. min t (length input)) (wrapping_sub-eq block_size w.buffer_pos (omega arith))

  module _ (w : BlockWriter) (d : Disk) (input : Bytes) (t : Tracks Fault w d) where
    n : ℕ
    n = to_copy w input

    copied : length (take (to_copy w input) input) ≡ to_copy w input
    copied = omega (arith, length-take (to_copy w input) input)

    fits : w.buffer_pos + to_copy w input ≤ block_size
    fits = omega (arith, to_copy-eq w input t.pos_lt)

    copy_in-same :
        (i : ℕ)
        → overlay w.file.bytes w.file.at
            (w.buffer_pos + to_copy w input)
            (overlay w.buffer w.buffer_pos (to_copy w input) (λ j. get_or input j 0))
            i
          ≡ (put d (take (to_copy w input) input)).bytes i
    copy_in-same i = ground (
      arith,
      copied,
      t.holds.at_is,
      t.holds.same i,
      get_or-take (to_copy w input) input (i - d.at) 0,
    )

    copy_in-Holds : Holds Fault (copy_in w input) (put d (take (to_copy w input) input))
    copy_in-Holds = record {
      mode = t.holds.mode;
      pos_le = fits;
      at_is = omega (arith, copied, t.holds.at_is);
      written = omega (arith, copied, t.holds.written);
      same = copy_in-same;
      aligned = t.holds.aligned;
      synced = t.holds.synced;
      faults_are = t.holds.faults_are;
    }

  module _ (w : BlockWriter) (d : Disk) (h : Holds Fault w d) where
    full-pad : w.buffer_pos ≡ block_size → (i : ℕ) → (pad w.use_direct_io d).bytes i ≡ d.bytes i
    full-pad full i = elim (Bool-cases w.use_direct_io) [
      | inl direct ↦ rw direct (ground (arith, h.at_is, h.aligned direct))
      | inr buffered ↦ rw buffered refl
    ]

    full_pad_at : w.buffer_pos ≡ block_size → (pad w.use_direct_io d).at ≡ d.at
    full_pad_at full = elim (Bool-cases w.use_direct_io) [
      | inl direct ↦ rw direct (ground (arith, h.at_is, h.aligned direct))
      | inr buffered ↦ rw buffered refl
    ]

    Flushed-Tracks :
        (v : BlockWriter)
        → w.buffer_pos ≡ block_size
        → Flushed Fault w v (pad w.use_direct_io d)
        → Tracks Fault v d
    Flushed-Tracks v full f = record {
      holds = record {
        mode = f.mode ∙ h.mode;
        pos_le = omega (arith, f.empty);
        at_is = omega (arith, f.empty, f.at_is, full_pad_at full);
        written = f.written ∙ h.written;
        same = λ i. ground (arith, f.empty, f.same i, full-pad full i);
        aligned = f.aligned;
        synced = f.synced;
        faults_are = f.faults_are;
      };
      pos_lt = omega (arith, f.empty);
    }

    flush_if_full-Tracks : Yields Fault (λ v. Tracks Fault v d) (flush_if_full w)
    flush_if_full-Tracks = elim (Bool-cases (w.buffer_pos == block_size)) [
      | inl full ↦ rw full (
          Yields-map _ _ (flush_buffer w) (λ v. Flushed-Tracks v (ground arith))
            (flush_buffer-Flushed Fault w d h))
      | inr not_full ↦ rw not_full (record { holds = h; pos_lt = ground (arith, h.pos_le) })
    ]

  report-Tracks : (w : BlockWriter) (d : Disk) → Tracks Fault w d → Tracks Fault (report w) d
  report-Tracks w d t = elim (Bool-cases (w.bytes_written % 262144 == 0)) [
    | inl due ↦ rw due (record {
      holds = record {
        mode = t.holds.mode;
        pos_le = t.holds.pos_le;
        at_is = t.holds.at_is;
        written = t.holds.written;
        same = t.holds.same;
        aligned = t.holds.aligned;
        synced = t.holds.synced;
        faults_are = t.holds.faults_are;
      };
      pos_lt = t.pos_lt;
    })
    | inr not_due ↦ rw not_due t
  ]

  write_round-Tracks :
      (w : BlockWriter) (d : Disk) (input : Bytes)
      → Tracks Fault w d
      → Yields Fault
          (λ v. Tracks Fault v (put d (take (to_copy w input) input)))
          (write_round w input)
  unfolding write_round
  write_round-Tracks w d input t =
      Yields-bind Fault _ _ (flush_if_full (copy_in w input)) _
        (flush_if_full-Tracks (copy_in w input) (put d (take (to_copy w input) input))
          (copy_in-Holds w d input t))
        (λ v tv. report-Tracks v (put d (take (to_copy w input) input)) tv)

  -- The disk counts by what it holds at each offset.
  pub Tracks-same :
      (w : BlockWriter) (d e : Disk)
      → ((i : ℕ) → d.bytes i ≡ e.bytes i)
      → d.at ≡ e.at
      → d.direct ≡ e.direct
      → Tracks Fault w d
      → Tracks Fault w e
  Tracks-same w d e same at mode t = record {
    holds = record {
      mode = t.holds.mode ∙ mode;
      pos_le = t.holds.pos_le;
      at_is = t.holds.at_is ∙ at;
      written = t.holds.written ∙ ap (λ n. n % u64_mod) at;
      same = λ i. t.holds.same i ∙ same i;
      aligned = t.holds.aligned;
      synced = t.holds.synced;
      faults_are = t.holds.faults_are;
    };
    pos_lt = t.pos_lt;
  }

  -- two puts of the parts of a list
  pub put-take-drop :
      (d : Disk) (n : ℕ) (input : Bytes) (i : ℕ)
      → (put (put d (take n input)) (drop n input)).bytes i ≡ (put d input).bytes i
  put-take-drop d n input i = ground (
    arith,
    length-take n input,
    length-drop n input,
    get_or-take n input (i - d.at) 0,
    get_or-drop n input (i - (d.at + length (take n input))) 0,
  )

  write_loop-Tracks :
      (fuel : ℕ) (w : BlockWriter) (d : Disk) (input : Bytes)
      → length input ≤ fuel
      → Tracks Fault w d
      → Yields Fault (λ v. Tracks Fault v (put d input)) (write_loop fuel w input)
  unfolding write_loop
  write_loop-Tracks fuel w d [] le t =
      Tracks-same w d (put d []) (λ i. ground arith) (omega arith) refl t
  write_loop-Tracks zero w d (b ∷ r) le t = absurd (omega arith)
  write_loop-Tracks (suc fuel) w d (b ∷ r) le t =
      let n = to_copy w (b ∷ r) in
      Yields-bind Fault _ _ (write_round w (b ∷ r)) _ (write_round-Tracks w d (b ∷ r) t) (λ v tv.
        Yields-map _ _ (write_loop fuel v (drop (to_copy w (b ∷ r)) (b ∷ r)))
          (λ u.
            Tracks-same u _ (put d (b ∷ r)) (put-take-drop d (to_copy w (b ∷ r)) (b ∷ r))
              (omega (
                arith,
                length-take (to_copy w (b ∷ r)) (b ∷ r),
                length-drop (to_copy w (b ∷ r)) (b ∷ r),
              ))
              refl)
          (write_loop-Tracks fuel v _ (drop (to_copy w (b ∷ r)) (b ∷ r))
            (omega (
              arith,
              length-drop (to_copy w (b ∷ r)) (b ∷ r),
              to_copy-eq w (b ∷ r) t.pos_lt,
              t.pos_lt,
            ))
            tv))

  -- Whatever the block writer holds, `write` puts all of its input at the writer's position.
  pub write-Tracks :
      (w : BlockWriter) (d : Disk) (input : Bytes)
      → Tracks Fault w d
      → Yields Fault (λ v. Tracks Fault v (put d input)) (write w input)
  unfolding write
  write-Tracks w d input t = write_loop-Tracks (length input) w d input (omega arith) t
