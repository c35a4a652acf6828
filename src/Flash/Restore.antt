-- ===== src/Flash/Restore.antt =====
-- What the chunks of an image leave on a disk, and that the commands which ask for the same events
-- leave the same.
use fls.Base.{
  ℕ, ◌+◌, ◌*◌, ◌%◌, ◌<◌, ◌≡◌, ◌↔◌, refl, ap, ◌∙◌, sym, Bool, true, false, List, [], ◌∷◌, ◌++◌, map,
  arith, Bytes, u64_mod,
}
use fls.Simg.Parser.{WriteCommand, seek, write, completed}
use fls.Simg.Image.{
  ImageChunk, data_chunk, fill_chunk, skip_chunk, Event, go_to, put_fill, finished, events,
}
use fls.Writer.{alignment, repeated}
use fls.Writer.Disk.{Disk, put, pad, carry_out_all}
use fls.Writer.Copy.{put-take-drop}
use fls.Writer.Run.{CanSeekAll}
use fls.Flash.Send.{translate}

-- Two disks with the same bytes at the same position.
pub record Same (d e : Disk) : Type 0 where
  pub bytes_are : (i : ℕ) → d.bytes i ≡ e.bytes i
  pub at_is : d.at ≡ e.at
  pub mode : d.direct ≡ e.direct

pub Same-refl : (d : Disk) → Same d d
Same-refl d = record { bytes_are = λ i. refl; at_is = refl; mode = refl }

pub Same-sym : {c d : Disk} → Same c d → Same d c
Same-sym s = record { bytes_are = λ i. sym (s.bytes_are i); at_is = sym s.at_is; mode = sym s.mode }

pub Same-trans : {c d e : Disk} → Same c d → Same d e → Same c e
Same-trans s t = record {
  bytes_are = λ i. s.bytes_are i ∙ t.bytes_are i;
  at_is = s.at_is ∙ t.at_is;
  mode = s.mode ∙ t.mode;
}

pub put-Same : (d e : Disk) (input : Bytes) → Same d e → Same (put d input) (put e input)
put-Same d e input s = record {
  bytes_are = λ i. ground (arith, s.bytes_are i, s.at_is);
  at_is = omega (arith, s.at_is);
  mode = s.mode;
}

pub pad-Same : (b : Bool) (d e : Disk) → Same d e → (i : ℕ) → (pad b d).bytes i ≡ (pad b e).bytes i
pad-Same true d e s i = ground (arith, s.bytes_are i, s.at_is)
pad-Same false d e s i = s.bytes_are i

pub pad_direct : (b : Bool) (d : Disk) → (pad b d).direct ≡ d.direct
pad_direct true d = refl
pad_direct false d = refl

abbrev pub seek_disk : Disk → ℕ → Disk
seek_disk d offset = record (pad d.direct d) { at = offset }

seek-Same : (d e : Disk) (offset : ℕ) → Same d e → Same (seek_disk d offset) (seek_disk e offset)
seek-Same d e offset s = record {
  bytes_are = λ i. pad-Same d.direct d e s i ∙ ap (λ b. (pad b e).bytes i) s.mode;
  at_is = refl;
  mode = pad_direct d.direct d ∙ s.mode ∙ sym (pad_direct e.direct e);
}

-- A byte, and the bytes behind it
pub put-Same-cons : (d : Disk) (b : ℕ) (r : Bytes) → Same (put (put d (b ∷ [])) r) (put d (b ∷ r))
put-Same-cons d b r = record {
  bytes_are = λ i. put-take-drop (Unit {0}) d 1 (b ∷ r) i;
  at_is = omega arith;
  mode = refl;
}

-- What events leave on a disk.
abbrev pub disk_events : Disk → List Event → Disk
disk_events d [] = d
disk_events d (fls.Simg.Image.put b ∷ es) = disk_events (put d (b ∷ [])) es
disk_events d (put_fill p n ∷ es) = disk_events (put d (repeated p n)) es
disk_events d (go_to offset ∷ es) = disk_events (seek_disk d offset) es
disk_events d (finished n ∷ es) = disk_events d es

pub disk_events-Same :
    (es : List Event) (d e : Disk) → Same d e → Same (disk_events d es) (disk_events e es)
disk_events-Same [] d e s = s
disk_events-Same (fls.Simg.Image.put b ∷ es) d e s =
    disk_events-Same es _ _ (put-Same d e (b ∷ []) s)
disk_events-Same (put_fill p n ∷ es) d e s = disk_events-Same es _ _ (put-Same d e (repeated p n) s)
disk_events-Same (go_to offset ∷ es) d e s = disk_events-Same es _ _ (seek-Same d e offset s)
disk_events-Same (finished n ∷ es) d e s = disk_events-Same es d e s

pub disk_events-put :
    (d : Disk) (input : Bytes) (es : List Event)
    → Same (disk_events d (map fls.Simg.Image.put input ++ es)) (disk_events (put d input) es)
disk_events-put d [] es =
    disk_events-Same es d (put d [])
      (record { bytes_are = λ i. ground arith; at_is = omega arith; mode = refl })
disk_events-put d (b ∷ r) es =
    Same-trans (disk_events-put (put d (b ∷ [])) r es)
      (disk_events-Same es _ _ (put-Same-cons d b r))

-- The commands leave what their events leave.
pub carry_out_all-events :
    (d : Disk) (cs : List WriteCommand)
    → Same (disk_events d (events cs)) (carry_out_all d (translate cs))
carry_out_all-events d [] = Same-refl d
carry_out_all-events d (write input ∷ cs) =
    Same-trans (disk_events-put d input (events cs)) (carry_out_all-events (put d input) cs)
carry_out_all-events d (seek offset ∷ cs) = carry_out_all-events (seek_disk d offset) cs
carry_out_all-events d (fls.Simg.Parser.fill_with p n ∷ cs) =
    carry_out_all-events (put d (repeated p n)) cs
carry_out_all-events d (completed n ∷ cs) = carry_out_all-events d cs

-- Where events go to.
abbrev pub CanGo : Bool → List Event → Type 0
CanGo direct [] = Unit
CanGo direct (go_to offset ∷ es) =
    ((offset < u64_mod) × (direct ≡ true → offset % alignment ≡ 0)) × CanGo direct es
CanGo direct (_ ∷ es) = CanGo direct es

pub CanGo-put :
    (direct : Bool) (input : Bytes) (es : List Event)
    → CanGo direct (map fls.Simg.Image.put input ++ es) ↔ CanGo direct es
CanGo-put direct [] es = (λ x. x, λ x. x)
CanGo-put direct (b ∷ r) es = CanGo-put direct r es

pub CanSeekAll-events :
    (direct : Bool) (cs : List WriteCommand)
    → CanGo direct (events cs)
    → CanSeekAll direct (translate cs)
CanSeekAll-events direct [] h = tt
CanSeekAll-events direct (write input ∷ cs) h =
    (tt, CanSeekAll-events direct cs ((CanGo-put direct input (events cs)).0 h))
CanSeekAll-events direct (seek offset ∷ cs) h = (h.0, CanSeekAll-events direct cs h.1)
CanSeekAll-events direct (fls.Simg.Parser.fill_with p n ∷ cs) h =
    (tt, CanSeekAll-events direct cs h)
CanSeekAll-events direct (completed n ∷ cs) h = CanSeekAll-events direct cs h

-- What the chunks of an image leave on a disk: the data of RAW chunks and the pattern of FILL
-- chunks one after the other, and DONT_CARE chunks skipped.
abbrev pub restore : ℕ → Disk → List ImageChunk → Disk
restore block_size d [] = d
restore block_size d (data_chunk _ blocks input ∷ cs) = restore block_size (put d input) cs
restore block_size d (fill_chunk _ blocks p ∷ cs) =
    restore block_size (put d (repeated p (blocks * block_size))) cs
restore block_size d (skip_chunk _ blocks ∷ cs) =
    restore block_size (record d { at = d.at + blocks * block_size }) cs
