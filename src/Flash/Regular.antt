-- ===== src/Flash/Regular.antt =====
-- `flash_from_url` of src/fls/from_url.rs on data that is no sparse image.
use mathlib.Core.List.{flatten}
use mathlib.Core.Path.{subst}
use fls.Base.{
  ℕ, ◌+◌, ◌%◌, ◌≡◌, refl, ap, ◌∙◌, ◌⊎◌, inl, inr, Bool, List, [], ◌∷◌, ◌++◌, map, arith, Bytes,
  length, u64_mod,
}
use fls.Simg.Format.{parse_header, err, unexpected_eof, invalid_magic}
use fls.Writer.{File, BlockWriter, WriterCommand, write_data, run, new}
use fls.Writer.Disk.{Disk, put, pad, Yields, IsFaulty, carry_out_all}
use fls.Writer.Run.{IsWritten, CanSeekAll, disk_of, run-carry_out}
use fls.Writer.Copy.{Yields-map}
use fls.Flash.{done, run_task, start, flash}
use fls.Flash.Send.{taking}
use fls.Flash.Known.{listened}
use fls.Flash.Start.{Told, IsRaw, run_task-waiting}
use fls.Flash.Restore.{Same, Same-refl, Same-trans, Same-sym, put-Same, put-Same-cons, pad-Same}
use fls.Flash.Image.{start-IsWaiting}

-- two lists of bytes, one after the other
put-Same-append : (a b : Bytes) (d : Disk) → Same (put (put d a) b) (put d (a ++ b))
put-Same-append [] b d =
    put-Same (put d []) d b
      (record { bytes_are = λ i. ground arith; at_is = omega arith; mode = refl })
put-Same-append (x ∷ a) b d =
    Same-trans (put-Same _ _ b (Same-sym (put-Same-cons d x a)))
      (Same-trans (put-Same-append a b (put d (x ∷ []))) (put-Same-cons d x (a ++ b)))

carry_out_all-Same :
    (pieces : List Bytes) (d e : Disk)
    → Same d e
    → Same (carry_out_all d (map write_data pieces)) (put e (flatten pieces))
unfolding flatten
carry_out_all-Same [] d e s =
    Same-trans s (record { bytes_are = λ i. ground arith; at_is = omega arith; mode = refl })
carry_out_all-Same (piece ∷ pieces) d e s =
    Same-trans (carry_out_all-Same pieces (put d piece) (put e piece) (put-Same d e piece s))
      (put-Same-append piece (flatten pieces) e)

CanSeekAll-write_data :
    (direct : Bool) (pieces : List Bytes) → CanSeekAll direct (map write_data pieces)
CanSeekAll-write_data direct [] = tt
CanSeekAll-write_data direct (piece ∷ pieces) = (tt, CanSeekAll-write_data direct pieces)

-- The header parser finds no sparse magic: too few bytes, or others.
abbrev pub IsRegular : Bytes → Type 0
IsRegular bytes =
    (parse_header bytes ≡ err unexpected_eof)
    ⊎ ((m : ℕ) × (parse_header bytes ≡ err (invalid_magic m)))

run_task-IsRaw :
    (pieces : List Bytes)
    → IsRegular (flatten pieces)
    → IsRaw [] (flatten pieces) (run_task (start (taking [])) (listened pieces))
run_task-IsRaw pieces (inl e) =
    subst (λ r. Told [] (flatten pieces) r (run_task (start (taking [])) (listened pieces))) e
      (run_task-waiting pieces fls.Detect.new [] start-IsWaiting)
run_task-IsRaw pieces (inr (m, e)) =
    subst (λ r. Told [] (flatten pieces) r (run_task (start (taking [])) (listened pieces))) e
      (run_task-waiting pieces fls.Detect.new [] start-IsWaiting)

-- What a writer leaves that has copied data, with zeros up to the alignment under direct I/O, and
-- the length that it returns.
pub record IsCopied (bytes : Bytes) (d : Disk) (r : BlockWriter × ℕ) : Type 0 where
  pub same : (j : ℕ) → r.0.file.bytes j ≡ (pad d.direct (put d bytes)).bytes j
  pub returned : r.1 ≡ (d.at + length bytes) % u64_mod

IsWritten-IsCopied :
    (pieces : List Bytes) (d : Disk) (r : BlockWriter × ℕ)
    → IsWritten (carry_out_all d (map write_data pieces)) r
    → IsCopied (flatten pieces) d r
IsWritten-IsCopied pieces d r w =
    let s = carry_out_all-Same pieces d d (Same-refl d) in
    let e = carry_out_all d (map write_data pieces) in
    record {
      same = λ j.
          w.same j
          ∙ pad-Same e.direct e (put d (flatten pieces)) s j
          ∙ ap (λ b. (pad b (put d (flatten pieces))).bytes j) s.mode;
      returned = w.returned ∙ ap (λ n. n % u64_mod) s.at_is;
    }

-- Data in which the header parser finds no sparse magic, however it is cut into pieces, is copied
-- to an open file at its start as it is: the task succeeds, and where no operation on the file
-- fails the writer ends, the file holds the data from its start (under direct I/O zeros behind it
-- up to the alignment) and its old content elsewhere, and the length is returned modulo 2 ^ 64.
pub flash-regular :
    (pieces : List Bytes) (f : File) (direct : Bool)
    → IsRegular (flatten pieces)
    → f.at ≡ 0
    → (o : fls.Writer.Outcome (BlockWriter × ℕ)) × (flash f direct (listened pieces) ≡ done o)
      × Yields (IsFaulty f.faults) (IsCopied (flatten pieces) (disk_of f direct)) o
unfolding flash
flash-regular pieces f direct no_image at_start =
    let t = run_task-IsRaw pieces no_image in
    (
      run (new f direct) (map write_data t.pieces),
      rw t.is_done (ap (λ c. done (run (new f direct) c.sent)) t.sent),
      Yields-map (IsFaulty f.faults) _ _ (run (new f direct) (map write_data t.pieces))
          (λ r w.
            subst (λ b. IsCopied b (disk_of f direct) r) t.all
              (IsWritten-IsCopied t.pieces (disk_of f direct) r w))
          (run-carry_out f direct (map write_data t.pieces) at_start
            (CanSeekAll-write_data direct t.pieces)),
    )
