-- ===== src/Flash/Told.antt =====
-- The task of src/fls/from_url.rs from its start: how the first bytes decide what it does.
use mathlib.Core.List.{flatten}
use fls.Base.{
  ℕ, ◌+◌, ◌<◌, ◌≤◌, ◌≡◌, refl, ap, ◌∙◌, sym, ◌⊎◌, inl, inr, Bool, true, false, List, [], ◌∷◌, ◌++◌,
  map, some, none, append_assoc, append-nil, Bytes, length, drop, arith, length-append,
}
use fls.Simg.Parser.{SparseParser, process, new}
use fls.Simg.Image.Stream.{process_all}
use fls.Detect.{FormatDetector, sparse_image, regular}
use fls.Writer.{WriterCommand, write_data}
use fls.Flash.{
  Task, Channel, Outcome, done, failed, panics, unfinished, corrupted_header, process_sparse_data,
  handle_detected_format, on_detection, on_data, at_end, run_task, execute_parsed,
  write_regular_data,
}
use fls.Flash.Send.{taking, write_regular_data-taking}
use fls.Flash.Known.{
  listened, regular_task, outcome_of, bind_assoc, sparse_piece, run_task-process_all,
  run_task-regular,
}

abbrev pub waiting_task : FormatDetector → List WriterCommand → Task
waiting_task d s = record {
  detector = d;
  parser = none;
  format_determined = false;
  channel = taking s;
}

-- The pieces that the parser is given: the detector's buffer, what is left of the piece that
-- filled it, and the pieces to come.
abbrev pub given : Bytes → Bytes → List Bytes → List Bytes
given buffered [] pieces = buffered ∷ pieces
given buffered (b ∷ rest) pieces = buffered ∷ (b ∷ rest) ∷ pieces

pub flatten-given :
    (buffered rest : Bytes) (pieces : List Bytes)
    → flatten (given buffered rest pieces) ≡ (buffered ++ rest) ++ flatten pieces
unfolding flatten
flatten-given buffered [] pieces = ap (λ t. t ++ flatten pieces) (sym (append-nil buffered))
flatten-given buffered (b ∷ rest) pieces = sym (append_assoc buffered (b ∷ rest) (flatten pieces))

-- what is run after the detection
abbrev pub then_run :
    FormatDetector → List Bytes → fls.Base.Option SparseParser × Channel → Outcome Task
then_run d pieces r =
    run_task (record { detector = d; parser = r.0; format_determined = true; channel = r.1 })
      (listened pieces)

pub handled-sparse :
    (d : FormatDetector) (buffered rest : Bytes) (pieces : List Bytes) (s : List WriterCommand)
    → fls.Flash.◌>>=◌
        (handle_detected_format sparse_image buffered rest (taking s))
        (then_run d pieces)
      ≡ outcome_of d s (process_all new (given buffered rest pieces))
unfolding handle_detected_format process_sparse_data process_all
handled-sparse d buffered [] pieces s =
    bind_assoc (execute_parsed (taking s) (process new buffered)) _ _
    ∙ sparse_piece s _ d (λ q. process_all q pieces) (process new buffered)
        (λ q u. run_task-process_all d pieces q u)
handled-sparse d buffered (b ∷ rest) pieces s =
    bind_assoc (execute_parsed (taking s) (process new buffered)) _ _
    ∙ sparse_piece s _ d (λ q. process_all q ((b ∷ rest) ∷ pieces)) (process new buffered)
        (λ q u.
          bind_assoc (execute_parsed (taking u) (process q (b ∷ rest))) _ _
          ∙ sparse_piece u _ d (λ q'. process_all q' pieces) (process q (b ∷ rest))
              (λ q' u'. run_task-process_all d pieces q' u'))

pub handled-regular :
    (d : FormatDetector) (buffered rest : Bytes) (pieces : List Bytes) (s : List WriterCommand)
    → fls.Flash.◌>>=◌ (handle_detected_format regular buffered rest (taking s)) (then_run d pieces)
      ≡ done (regular_task d (s ++ map write_data (given buffered rest pieces)))
unfolding handle_detected_format
handled-regular d buffered [] pieces s = rw (write_regular_data-taking s buffered) (
    run_task-regular d pieces (s ++ write_data buffered ∷ [])
    ∙ ap (λ t. done (regular_task d t))
        (append_assoc s (write_data buffered ∷ []) (map write_data pieces)))
handled-regular d buffered (b ∷ rest) pieces s = rw (write_regular_data-taking s buffered) (
    rw (write_regular_data-taking (s ++ write_data buffered ∷ []) (b ∷ rest)) (
      run_task-regular d pieces _
      ∙ ap (λ t. done (regular_task d t))
          (append_assoc (s ++ write_data buffered ∷ []) (write_data (b ∷ rest) ∷ [])
              (map write_data pieces)
            ∙ append_assoc s (write_data buffered ∷ []) _)))
