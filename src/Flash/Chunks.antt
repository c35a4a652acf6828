-- ===== src/Flash/Chunks.antt =====
-- The events of the chunks of a sparse image, and what the chunks leave on a disk.
use mathlib.Core.Path.{subst}
use fls.Base.{
  ℕ, zero, suc, ◌+◌, ◌*◌, ◌%◌, ◌<◌, ◌≡◌, refl, sym, Bool, true, false, List, [], ◌∷◌, arith,
  u64_mod,
}
use fls.Simg.Image.{
  ImageChunk, data_chunk, fill_chunk, skip_chunk, ChunksFit, chunk_events, output_of, blocks_of,
}
use fls.Writer.{repeated}
use fls.Writer.Disk.{Disk, put, pad}
use fls.Writer.Fill.{length-repeated}
use fls.Flash.Restore.{
  Same, Same-refl, Same-trans, disk_events, disk_events-put, disk_events-Same, seek_disk,
  pad_direct, CanGo, CanGo-put, restore,
}

mul_aligned : (b n : ℕ) → n % 4096 ≡ 0 → (b * n) % 4096 ≡ 0
mul_aligned zero n h = omega arith
mul_aligned (suc b) n h = omega (arith, mul_aligned b n h)

-- Under direct I/O, what the alignment divides.
abbrev pub IsAligned : Bool → ℕ → Type 0
IsAligned direct n = direct ≡ true → n % 4096 ≡ 0

pub pad_aligned : (b : Bool) (d : Disk) → IsAligned b d.at → (i : ℕ) → (pad b d).bytes i ≡ d.bytes i
pad_aligned true d h i = ground (arith, h refl)
pad_aligned false d h i = refl

seek_disk-Same :
    (d : Disk) (offset : ℕ)
    → IsAligned d.direct d.at
    → Same (seek_disk d offset) (record d { at = offset })
seek_disk-Same d offset h = record {
  bytes_are = λ i. pad_aligned d.direct d h i;
  at_is = refl;
  mode = pad_direct d.direct d;
}

pub restore-events :
    (block_size : ℕ) (cs : List ImageChunk) (d : Disk) (at : ℕ)
    → ChunksFit block_size cs
    → IsAligned d.direct block_size
    → IsAligned d.direct at
    → d.at ≡ at
    → Same (disk_events d (chunk_events block_size at cs)) (restore block_size d cs)
restore-events block_size [] d at fit aligned here e = Same-refl d
restore-events block_size (data_chunk reserved blocks input ∷ cs) d at fit aligned here e =
    Same-trans (disk_events-put d input (chunk_events block_size (at + blocks * block_size) cs)) (
      restore-events block_size cs (put d input) (at + blocks * block_size) fit.1 aligned
        (λ x. omega (arith, here x, mul_aligned blocks block_size (aligned x)))
        (omega (arith, e, fit.0.1)))
restore-events block_size (fill_chunk reserved blocks p ∷ cs) d at fit aligned here e =
    restore-events block_size cs (put d (repeated p (blocks * block_size)))
      (at + blocks * block_size) fit.1 aligned
      (λ x. omega (arith, here x, mul_aligned blocks block_size (aligned x)))
      (omega (arith, e, length-repeated p (blocks * block_size)))
restore-events block_size (skip_chunk reserved blocks ∷ cs) d at fit aligned here e =
    Same-trans
      (disk_events-Same (chunk_events block_size (at + blocks * block_size) cs) _ _
        (seek_disk-Same d (at + blocks * block_size) (λ x. omega (arith, e, here x))))
      (subst
        (λ t.
          Same
            (disk_events (record d { at = at + blocks * block_size })
              (chunk_events block_size (at + blocks * block_size) cs))
            (restore block_size (record d { at = t + blocks * block_size }) cs))
        (sym e)
        (restore-events block_size cs (record d { at = at + blocks * block_size })
          (at + blocks * block_size) fit.1 aligned
          (λ x. omega (arith, here x, mul_aligned blocks block_size (aligned x))) refl))

pub chunk_events-CanGo :
    (direct : Bool) (block_size : ℕ) (cs : List ImageChunk) (at : ℕ)
    → IsAligned direct block_size
    → IsAligned direct at
    → at + output_of block_size cs < u64_mod
    → CanGo direct (chunk_events block_size at cs)
chunk_events-CanGo direct block_size [] at aligned here small = tt
chunk_events-CanGo direct block_size (data_chunk reserved blocks input ∷ cs) at aligned here small =
    (CanGo-put direct input (chunk_events block_size (at + blocks * block_size) cs)).1 (
      chunk_events-CanGo direct block_size cs (at + blocks * block_size) aligned
        (λ x. omega (arith, here x, mul_aligned blocks block_size (aligned x)))
        (omega (arith, small)))
chunk_events-CanGo direct block_size (fill_chunk reserved blocks p ∷ cs) at aligned here small =
    chunk_events-CanGo direct block_size cs (at + blocks * block_size) aligned
      (λ x. omega (arith, here x, mul_aligned blocks block_size (aligned x))) (omega (arith, small))
chunk_events-CanGo direct block_size (skip_chunk reserved blocks ∷ cs) at aligned here small =
    let there : IsAligned direct (at + blocks * block_size) =
      λ x. omega (arith, here x, mul_aligned blocks block_size (aligned x)) in
    (
      (omega (arith, small), there),
      chunk_events-CanGo direct block_size cs (at + blocks * block_size) aligned there
          (omega (arith, small)),
    )

pub restore_at :
    (block_size : ℕ) (cs : List ImageChunk) (d : Disk)
    → ChunksFit block_size cs
    → (restore block_size d cs).at ≡ d.at + output_of block_size cs
restore_at block_size [] d fit = omega arith
restore_at block_size (data_chunk reserved blocks input ∷ cs) d fit =
    omega (arith, fit.0.1, restore_at block_size cs (put d input) fit.1)
restore_at block_size (fill_chunk reserved blocks p ∷ cs) d fit = omega (
  arith,
  length-repeated p (blocks * block_size),
  restore_at block_size cs (put d (repeated p (blocks * block_size))) fit.1,
)
restore_at block_size (skip_chunk reserved blocks ∷ cs) d fit =
    omega (arith, restore_at block_size cs (record d { at = d.at + blocks * block_size }) fit.1)

pub output-IsAligned :
    (direct : Bool) (block_size : ℕ) (cs : List ImageChunk)
    → IsAligned direct block_size
    → IsAligned direct (output_of block_size cs)
output-IsAligned direct block_size [] aligned = λ x. omega arith
output-IsAligned direct block_size (c ∷ cs) aligned = λ x. omega (
  arith,
  mul_aligned (blocks_of c) block_size (aligned x),
  output-IsAligned direct block_size cs aligned x,
)

pub restore_direct :
    (block_size : ℕ) (cs : List ImageChunk) (d : Disk) → (restore block_size d cs).direct ≡ d.direct
restore_direct block_size [] d = refl
restore_direct block_size (data_chunk reserved blocks input ∷ cs) d =
    restore_direct block_size cs (put d input)
restore_direct block_size (fill_chunk reserved blocks p ∷ cs) d =
    restore_direct block_size cs (put d (repeated p (blocks * block_size)))
restore_direct block_size (skip_chunk reserved blocks ∷ cs) d =
    restore_direct block_size cs (record d { at = d.at + blocks * block_size })
