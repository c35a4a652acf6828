-- ===== src/Flash/Start.antt =====
-- The task of src/fls/from_url.rs from its start to its end, by the first bytes of the data.
use mathlib.Core.List.{flatten}
use mathlib.Core.Path.{subst}
use fls.Base.{
  Bool-cases, leb, ℕ, ◌+◌, ◌<◌, ◌≤◌, ◌≡◌, ◌≢◌, refl, ap, ◌∙◌, sym, ◌⊎◌, inl, inr, true, false, List,
  [], ◌∷◌, ◌++◌, map, some, none, append_assoc, append-nil, Bytes, length, drop, arith,
  length-append,
}
use fls.Simg.Format.{
  SparseHeader, Result, ok, err, panic, out_of_fuel, invalid_magic, unexpected_eof,
  unsupported_version, invalid_header_size, invalid_chunk_header_size, unknown_chunk_type,
  chunk_size_mismatch, chunk_size_overflow, output_size_mismatch, parse_header,
}
use fls.Simg.Format.Header.{parse_header-append}
use fls.Simg.Parser.{new}
use fls.Simg.Image.Stream.{process_all}
use fls.Detect.{FormatDetector, sparse_image, regular, attempt_on, finalize_at_eof, found}
use fls.Detect.Exact.{IsWaiting, consumed, fed, fed-append-drop, process_few, process-attempt}
use fls.Writer.{WriterCommand, write_data}
use fls.Flash.{
  Task, Outcome, done, failed, panics, unfinished, corrupted_header, handle_detected_format,
  on_detection, on_data, at_end, run_task, write_regular_data,
}
use fls.Flash.Send.{taking, write_regular_data-taking}
use fls.Flash.Known.{listened, outcome_of, bind_assoc, regular_task}
use fls.Flash.Told.{waiting_task, given, flatten-given, handled-sparse, handled-regular}

module _ (s : List WriterCommand) (bytes : Bytes) where
  -- All of the data is written as it is.
  pub record IsRaw (o : Outcome Task) : Type 0 where
    pub task : Task
    pub pieces : List Bytes
    pub all : flatten pieces ≡ bytes
    pub is_done : o ≡ done task
    pub sent : task.channel ≡ taking (s ++ map write_data pieces)

  -- All of the data goes through a parser.
  pub record IsParsed (o : Outcome Task) : Type 0 where
    pub detector : FormatDetector
    pub pieces : List Bytes
    pub all : flatten pieces ≡ bytes
    pub outcome : o ≡ outcome_of detector s (process_all new pieces)

  -- What the task does with the data, by what the header parser says of it.
  abbrev pub Told : Result SparseHeader → Outcome Task → Type 0
  Told (ok h) o = IsParsed o
  Told (err unexpected_eof) o = IsRaw o
  Told (err (invalid_magic m)) o = IsRaw o
  Told (err e) o = o ≡ failed (corrupted_header e)
  Told panic o = o ≡ panics
  Told out_of_fuel o = o ≡ panics

-- the piece that fills the detector's buffer, and the pieces to come
Told-piece :
    (d : FormatDetector) (input : Bytes) (w : IsWaiting d) (pieces : List Bytes)
    (s : List WriterCommand) (r : Result SparseHeader)
    → r ≢ err unexpected_eof
    → Told s ((d.buffer ++ input) ++ flatten pieces) r (
        fls.Flash.◌>>=◌
          (on_detection (waiting_task d s) input (attempt_on r (fed d input w) (consumed d input)))
          (λ t. run_task t (listened pieces)))
unfolding on_detection attempt_on
Told-piece d input w pieces s r known = by r known
  where
    buffered : Bytes
    buffered = (fed d input w).buffer

    rest : Bytes
    rest = drop (consumed d input) input

    all : flatten (given buffered rest pieces) ≡ (d.buffer ++ input) ++ flatten pieces
    all =
        flatten-given buffered rest pieces
        ∙ ap (λ t. t ++ flatten pieces) (fed-append-drop d input w)

    by :
        (r : Result SparseHeader)
        → r ≢ err unexpected_eof
        → Told s ((d.buffer ++ input) ++ flatten pieces) r (
            fls.Flash.◌>>=◌
              (on_detection
                (waiting_task d s)
                input
                (attempt_on r (fed d input w) (consumed d input)))
              (λ t. run_task t (listened pieces)))
    by (ok h) k = record {
      detector = found (fed d input w) sparse_image;
      pieces = given buffered rest pieces;
      all = all;
      outcome =
          bind_assoc (handle_detected_format sparse_image buffered rest (taking s)) _ _
          ∙ handled-sparse (found (fed d input w) sparse_image) buffered rest pieces s;
    }
    by (err (invalid_magic m)) k = record {
      task =
          regular_task (found (fed d input w) regular)
            (s ++ map write_data (given buffered rest pieces));
      pieces = given buffered rest pieces;
      all = all;
      is_done =
          bind_assoc (handle_detected_format regular buffered rest (taking s)) _ _
          ∙ handled-regular (found (fed d input w) regular) buffered rest pieces s;
      sent = refl;
    }
    by (err unexpected_eof) k = absurd (k refl)
    by (err (unsupported_version a b)) k = refl
    by (err (invalid_header_size a)) k = refl
    by (err (invalid_chunk_header_size a)) k = refl
    by (err (unknown_chunk_type a)) k = refl
    by (err (chunk_size_mismatch a b)) k = refl
    by (err (chunk_size_overflow a b)) k = refl
    by (err (output_size_mismatch a b)) k = refl
    by panic k = refl
    by out_of_fuel k = refl

parse_header_short : (bytes : Bytes) → length bytes < 28 → parse_header bytes ≡ err unexpected_eof
unfolding parse_header
parse_header_short bytes few = ground arith

parse_header_long : (bytes : Bytes) → 28 ≤ length bytes → parse_header bytes ≢ err unexpected_eof
unfolding parse_header
parse_header_long bytes many = λ e. ground arith

finalize_at_eof-nothing :
    (d : FormatDetector) → leb (length d.buffer) 0 ≡ true → finalize_at_eof d ≡ (d, none)
unfolding finalize_at_eof
finalize_at_eof-nothing d h = elim (Bool-cases d.detection_complete) [
  | inl e ↦ rw e refl
  | inr e ↦ rw (e, h) refl
]

finalize_at_eof-buffered :
    (d : FormatDetector)
    → IsWaiting d
    → leb (length d.buffer) 0 ≡ false
    → finalize_at_eof d ≡ (record (found d regular) { buffer = [] }, some d.buffer)
unfolding finalize_at_eof
finalize_at_eof-buffered d w h = simp (w.not_complete) (rw h refl)

-- the end of the data, before the format is known
at_end-IsRaw :
    (d : FormatDetector) (s : List WriterCommand)
    → IsWaiting d
    → IsRaw s (d.buffer ++ []) (at_end (waiting_task d s))
unfolding at_end flatten
at_end-IsRaw d s w = elim (Bool-cases (leb (length d.buffer) 0)) [
  | inl none_left ↦ rw (finalize_at_eof-nothing d none_left) (record {
    task = waiting_task d s;
    pieces = [];
    all = sym (append-nil d.buffer ∙ empty d.buffer none_left);
    is_done = refl;
    sent = ap taking (sym (append-nil s));
  })
  | inr some_left ↦ rw (finalize_at_eof-buffered d w some_left) (record {
    task = record (waiting_task (record (found d regular) { buffer = [] }) s) {
      channel = taking (s ++ write_data d.buffer ∷ []);
    };
    pieces = d.buffer ∷ [];
    all = refl;
    is_done = rw (write_regular_data-taking s d.buffer) refl;
    sent = refl;
  })
]
  where
    empty : (b : Bytes) → leb (length b) 0 ≡ true → b ≡ []
    empty [] h = refl
    empty (x ∷ b) h = absurd (ground arith)

-- `Told-piece`, by what the header parser says of all of the data
Told-enough :
    (d : FormatDetector) (piece : Bytes) (w : IsWaiting d) (pieces : List Bytes)
    (s : List WriterCommand) (o : Outcome Task)
    → 28 ≤ length d.buffer + length piece
    → Told s ((d.buffer ++ piece) ++ flatten pieces) (parse_header (d.buffer ++ piece)) o
    → Told s
        (d.buffer ++ (piece ++ flatten pieces))
        (parse_header (d.buffer ++ (piece ++ flatten pieces)))
        o
Told-enough d piece w pieces s o enough told =
    subst (λ t. Told s t (parse_header t) o) (append_assoc d.buffer piece (flatten pieces))
      (subst (λ r. Told s ((d.buffer ++ piece) ++ flatten pieces) r o)
        (sym (
          parse_header-append (d.buffer ++ piece) (flatten pieces)
            (omega (arith, enough, length-append d.buffer piece))))
        told)

-- From a detector that waits, however the data to come is cut and while progress and commands are
-- taken, the header parser on all the data that was seen and is to come decides what the task does:
-- with no sparse magic, or fewer than 28 bytes, it succeeds and sends the data as it is; with a
-- valid header a parser of sparse images gets exactly the data, and its commands are sent in order
-- or its error is returned; with a header that has the magic but is not valid the task fails.
pub run_task-waiting :
    (pieces : List Bytes) (d : FormatDetector) (s : List WriterCommand)
    → IsWaiting d
    → Told s
        (d.buffer ++ flatten pieces)
        (parse_header (d.buffer ++ flatten pieces))
        (run_task (waiting_task d s) (listened pieces))
unfolding run_task on_data on_detection flatten
run_task-waiting [] d s w =
    rw (parse_header_short (d.buffer ++ []) (omega (arith, w.few, length-append d.buffer [])))
      (at_end-IsRaw d s w)
run_task-waiting (piece ∷ pieces) d s w =
    let joined = append_assoc d.buffer piece (flatten pieces) in
    elim (few_or_enough (length d.buffer + length piece)) [
      | inl few ↦
          let d' = record d { buffer = d.buffer ++ piece } in
          rw (process_few d piece w few) (
            subst (λ t. Told s t (parse_header t) (run_task (waiting_task d' s) (listened pieces)))
              joined
              (run_task-waiting pieces d' s (record {
                not_complete = w.not_complete;
                few = omega (arith, few, length-append d.buffer piece);
              })))
      | inr enough ↦ rw (process-attempt d piece w enough) (
          Told-enough d piece w pieces s _ enough (
            Told-piece d piece w pieces s (parse_header (d.buffer ++ piece)) (
              parse_header_long (d.buffer ++ piece)
                (omega (arith, enough, length-append d.buffer piece)))))
    ]
  where
    few_or_enough : (n : ℕ) → (n < 28) ⊎ (28 ≤ n)
    few_or_enough n = omega arith
