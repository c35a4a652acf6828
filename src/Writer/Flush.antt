-- ===== src/Writer/Flush.antt =====
-- `flush_buffer` of src/fls/block_writer.rs against the disk.
use fls.Base.{
  ℕ, ◌+◌, ◌%◌, ◌≡◌, refl, ap, ◌∙◌, ◌&&◌, true, false, arith, Bool-cases, inl, inr, leb, ◌==◌, List,
  [], ◌∷◌, Bool, not,
}
use fls.Writer.{
  File, Outcome, done, failed, out_of_fuel, overlay, BlockWriter, block_size, alignment,
  sync_interval, aligned_size, write_size, padded_buffer, is_padded, attempt, sync_if_due,
  flush_buffer, write_all,
}
use fls.Writer.Disk.{Disk, pad, IsFaulty, Yields, Yields-bind, Holds, Flushed}

module _ (Fault : Type 0) where
  -- the file after an operation that succeeds
  pub record Attempted (f g : File) : Type 0 where
    pub bytes_are : g.bytes ≡ f.bytes
    pub at_is : g.at ≡ f.at
    pub faults_are : IsFaulty g.faults → Fault

  pub attempt-Attempted :
      (f : File) → (IsFaulty f.faults → Fault) → Yields Fault (Attempted f) (attempt f)
  unfolding attempt
  attempt-Attempted f h = on f.faults h
    where
      on :
          (r : List Bool)
          → (IsFaulty r → Fault)
          → Yields Fault (Attempted f) (fls.Writer.attempt_on r f)
      on [] k = record { bytes_are = refl; at_is = refl; faults_are = k }
      on (true ∷ r) k = k tt
      on (false ∷ r) k = record { bytes_are = refl; at_is = refl; faults_are = k }

  sync_if_due-Flushed :
      (old w : BlockWriter) (d : Disk)
      → w.bytes_written ≡ old.bytes_written
      → w.use_direct_io ≡ old.use_direct_io
      → w.buffer_pos ≡ 0
      → w.file.at ≡ d.at
      → ((i : ℕ) → w.file.bytes i ≡ d.bytes i)
      → (w.use_direct_io ≡ true → w.file.at % alignment ≡ 0)
      → (IsFaulty w.file.faults → Fault)
      → Yields Fault (λ v. Flushed Fault old v d) (sync_if_due w)
  unfolding sync_if_due
  sync_if_due-Flushed old w d written mode empty at same aligned faults =
      elim (Bool-cases (not w.use_direct_io && leb sync_interval w.bytes_since_sync)) [
        | inl due ↦ rw due (
            Yields-bind Fault (Attempted w.file) _ (attempt w.file) _
              (attempt-Attempted w.file faults)
              (λ f a. record {
                written = written;
                mode = mode;
                empty = empty;
                at_is = a.at_is ∙ at;
                same = λ i. ap (λ g. g i) a.bytes_are ∙ same i;
                aligned = λ e. rw a.at_is (aligned e);
                synced = λ _. omega arith;
                faults_are = a.faults_are;
              }))
        | inr waits ↦ rw waits (record {
          written = written;
          mode = mode;
          empty = empty;
          at_is = at;
          same = same;
          aligned = aligned;
          synced = λ e. ground arith;
          faults_are = faults;
        })
      ]

  abbrev flushed_bytes : BlockWriter → ℕ → ℕ
  flushed_bytes w = overlay w.file.bytes w.file.at (write_size w) (padded_buffer w)

  -- the buffer and its padding, in the file
  flushed-pad :
      (w : BlockWriter) (d : Disk)
      → Holds Fault w d
      → (i : ℕ) → flushed_bytes w i ≡ (pad w.use_direct_io d).bytes i
  flushed-pad w d h i = elim (Bool-cases w.use_direct_io) [
    | inl direct ↦ rw direct (ground (arith, h.pos_le, h.at_is, h.aligned direct, h.same i))
    | inr buffered ↦ rw buffered (ground (arith, h.pos_le, h.at_is, h.same i))
  ]

  flushed_at :
      (w : BlockWriter) (d : Disk)
      → Holds Fault w d
      → w.file.at + write_size w ≡ (pad w.use_direct_io d).at
  flushed_at w d h = elim (Bool-cases w.use_direct_io) [
    | inl direct ↦ rw direct (ground (arith, h.pos_le, h.at_is, h.aligned direct))
    | inr buffered ↦ rw buffered (ground (arith, h.pos_le, h.at_is))
  ]

  flushed_aligned :
      (w : BlockWriter) (d : Disk)
      → Holds Fault w d
      → w.use_direct_io ≡ true
      → (w.file.at + write_size w) % alignment ≡ 0
  flushed_aligned w d h e = ground (arith, h.pos_le, h.aligned e)

  -- with nothing in the buffer, nothing is to pad
  empty_pad :
      (w : BlockWriter) (d : Disk)
      → Holds Fault w d
      → w.buffer_pos ≡ 0
      → Flushed Fault w w (pad w.use_direct_io d)
  empty_pad w d h e = record {
    written = refl;
    mode = refl;
    empty = e;
    at_is = elim (Bool-cases w.use_direct_io) [
      | inl direct ↦ rw direct (ground (arith, h.at_is, h.aligned direct))
      | inr buffered ↦ rw buffered (omega (arith, h.at_is))
    ];
    same = λ i. elim (Bool-cases w.use_direct_io) [
      | inl direct ↦ rw direct (ground (arith, h.at_is, h.aligned direct, h.same i))
      | inr buffered ↦ rw buffered (ground (arith, h.at_is, h.same i))
    ];
    aligned = h.aligned;
    synced = h.synced;
    faults_are = h.faults_are;
  }

  -- Flushing leaves in the file what the disk holds, with the padding of direct I/O.
  pub flush_buffer-Flushed :
      (w : BlockWriter) (d : Disk)
      → Holds Fault w d
      → Yields Fault (λ v. Flushed Fault w v (pad w.use_direct_io d)) (flush_buffer w)
  unfolding flush_buffer
  flush_buffer-Flushed w d h = elim (Bool-cases (w.buffer_pos == 0)) [
    | inl none_left ↦ rw none_left (empty_pad w d h (ground arith))
    | inr some_left ↦ rw some_left (
        Yields-bind Fault _ _ (write_all w.file (write_size w) (padded_buffer w)) _
          (Yields-bind Fault (Attempted w.file)
            (λ g.
              (g.bytes ≡ flushed_bytes w)
              × (g.at ≡ w.file.at + write_size w)
              × (IsFaulty g.faults → Fault))
            (attempt w.file) _ (attempt-Attempted w.file h.faults_are)
            (λ g a. (
              ap (λ t. overlay t g.at (write_size w) (padded_buffer w)) a.bytes_are
                  ∙ ap (λ t. overlay w.file.bytes t (write_size w) (padded_buffer w)) a.at_is,
              ap (λ t. t + write_size w) a.at_is,
              a.faults_are,
            )))
          (λ g (bytes, at, faults).
            sync_if_due-Flushed w _ (pad w.use_direct_io d) refl refl refl (at ∙ flushed_at w d h)
              (λ i. ap (λ t. t i) bytes ∙ flushed-pad w d h i)
              (λ e. rw at (flushed_aligned w d h e)) faults))
  ]
