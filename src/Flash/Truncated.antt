-- ===== src/Flash/Truncated.antt =====
-- `flash_from_url` of src/fls/from_url.rs on data that ends inside a sparse image.
use mathlib.Core.List.{flatten}
use mathlib.Core.Path.{subst}
use fls.Base.{◌≤◌, ◌≡◌, refl, ap, ◌∙◌, sym, List, [], ◌++◌, arith, Bytes, length, append-nil}
use fls.Simg.Format.{parse_header, Result, ok, err, panic, out_of_fuel}
use fls.Simg.Format.Header.{parse_header-append}
use fls.Simg.Parser.{SparseParser, WriteCommand, new, waiting_header}
use fls.Simg.Parser.Rounds.{new-IsValid}
use fls.Simg.Image.{Image, IsImage, encode, Event, image_events}
use fls.Simg.Image.Follows.{Follows}
use fls.Simg.Image.Stream.{AllReached, process_all, process_all-AllReached}
use fls.Detect.{FormatDetector}
use fls.Flash.{Task, done, run_task, start}
use fls.Flash.Send.{taking}
use fls.Flash.Known.{listened, outcome_of}
use fls.Flash.Start.{Told, IsParsed, run_task-waiting}
use fls.Flash.Image.{start-IsWaiting, encode_parses}

reached_done :
    (trailing later : Bytes) (es : List Event) (d : FormatDetector)
    (r : Result (SparseParser × List WriteCommand))
    → AllReached trailing later es r
    → (t : Task) × (outcome_of d [] r ≡ done t)
reached_done trailing later es d (ok (p, cs)) h = (_, refl)
reached_done trailing later es d (err e) h = absurd h
reached_done trailing later es d panic h = absurd h
reached_done trailing later es d out_of_fuel h = absurd h

-- The data of a sparse image that ends early, anywhere behind the header, is no error of the task:
-- it ends as it does after the whole image, although chunks are missing.
pub run_task-truncated :
    (i : Image) (pieces : List Bytes) (later : Bytes)
    → IsImage i
    → flatten pieces ++ later ≡ encode i
    → 28 ≤ length (flatten pieces)
    → (t : Task) × (run_task (start (taking [])) (listened pieces) ≡ done t)
run_task-truncated i pieces later image bytes long = ended told
  where
    told : IsParsed [] (flatten pieces) (run_task (start (taking [])) (listened pieces))
    told =
        subst (λ r. Told [] (flatten pieces) r (run_task (start (taking [])) (listened pieces)))
          (sym (parse_header-append (flatten pieces) later long)
            ∙ ap parse_header (bytes ∙ sym (append-nil (encode i)))
            ∙ encode_parses i [] image)
          (run_task-waiting pieces fls.Detect.new [] start-IsWaiting)

    ended :
        IsParsed [] (flatten pieces) (run_task (start (taking [])) (listened pieces))
        → (t : Task) × (run_task (start (taking [])) (listened pieces) ≡ done t)
    ended t =
        let follows : Follows [] waiting_header new (flatten t.pieces ++ later) (image_events i) = (
          i,
          image,
          ap (λ b. b ++ later) t.all ∙ bytes ∙ sym (append-nil (encode i)),
          omega arith,
          refl,
          refl,
          refl,
        ) in
        let reached =
          process_all-AllReached [] t.pieces new later (image_events i) new-IsValid follows in
        let (task, e) =
          reached_done [] later (image_events i) t.detector (process_all new t.pieces) reached in
        (task, t.outcome ∙ e)
