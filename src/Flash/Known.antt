-- ===== src/Flash/Known.antt =====
-- The task of src/fls/from_url.rs once the format is known.
use fls.Base.{
  ◌≡◌, refl, ap, ◌∙◌, sym, Bool, true, List, [], ◌∷◌, ◌++◌, map, some, none, append_assoc,
  append-nil, Bytes,
}
use fls.Simg.Format.{Result, ok, err, panic, out_of_fuel, ◌>>=◌}
use fls.Simg.Parser.{SparseParser, WriteCommand, Processed, process}
use fls.Simg.Image.Stream.{process_all}
use fls.Detect.{FormatDetector}
use fls.Writer.{WriterCommand, write_data}
use fls.Flash.{
  Task, Outcome, done, failed, panics, unfinished, sparse_error, process_sparse_data,
  execute_parsed, on_data, on_known, at_end, run_task, execute_write_commands,
}
use fls.Flash.Send.{
  taking, translate, translate-append, execute_write_commands-translate, write_regular_data-taking,
}

-- Data whose progress someone takes.
abbrev pub listened : List Bytes → List (Bytes × Bool)
listened [] = []
listened (piece ∷ pieces) = (piece, true) ∷ listened pieces

abbrev pub sparse_task : FormatDetector → SparseParser → List WriterCommand → Task
sparse_task d p s = record {
  detector = d;
  parser = some p;
  format_determined = true;
  channel = taking s;
}

abbrev pub regular_task : FormatDetector → List WriterCommand → Task
regular_task d s = record {
  detector = d;
  parser = none;
  format_determined = true;
  channel = taking s;
}

-- What the parser's result on all the data makes of the task.
abbrev pub outcome_of :
    FormatDetector → List WriterCommand → Result (SparseParser × List WriteCommand) → Outcome Task
outcome_of d s (ok (q, cs)) = done (sparse_task d q (s ++ translate cs))
outcome_of d s (err e) = failed (sparse_error e)
outcome_of d s panic = panics
outcome_of d s out_of_fuel = unfinished

-- what follows a piece, from its result
outcome_of-piece :
    (d : FormatDetector) (s : List WriterCommand) (cs : List WriteCommand)
    (r : Result (SparseParser × List WriteCommand))
    → outcome_of d (s ++ translate cs) r ≡ outcome_of d s (do rest ← r; ok (rest.0, cs ++ rest.1))
outcome_of-piece d s cs (ok (q, ds)) =
    ap (λ t. done (sparse_task d q t))
      (append_assoc s (translate cs) (translate ds)
        ∙ ap (λ t. s ++ t) (sym (translate-append cs ds)))
outcome_of-piece d s cs (err e) = refl
outcome_of-piece d s cs panic = refl
outcome_of-piece d s cs out_of_fuel = refl

pub bind_assoc :
    {A B C : Type 0} (m : Outcome A) (f : A → Outcome B) (g : B → Outcome C)
    → fls.Flash.◌>>=◌ (fls.Flash.◌>>=◌ m f) g ≡ fls.Flash.◌>>=◌ m (λ a. fls.Flash.◌>>=◌ (f a) g)
bind_assoc (done a) f g = refl
bind_assoc (failed e) f g = refl
bind_assoc panics f g = refl
bind_assoc unfinished f g = refl

-- `process_sparse_data` on the parser's result, and what the task does with it
pub sparse_piece :
    (s : List WriterCommand) (f : SparseParser × fls.Flash.Channel → Outcome Task)
    (d : FormatDetector) (k : SparseParser → Result (SparseParser × List WriteCommand))
    (m : Result Processed)
    → ((p : SparseParser) (u : List WriterCommand) → f (p, taking u) ≡ outcome_of d u (k p))
    → fls.Flash.◌>>=◌ (execute_parsed (taking s) m) f
      ≡ outcome_of d s (do r ← m; rest ← k r.parser; ok (rest.0, r.commands ++ rest.1))
sparse_piece s f d k (ok r) h =
    rw (execute_write_commands-translate s r.commands)
      (h r.parser (s ++ translate r.commands) ∙ outcome_of-piece d s r.commands (k r.parser))
sparse_piece s f d k (err e) h = refl
sparse_piece s f d k panic h = refl
sparse_piece s f d k out_of_fuel h = refl

-- A task that knows of a sparse image does with all the data what the parser does with it, piece
-- by piece: the parser's commands are sent in order, and its error is the task's.
pub run_task-process_all :
    (d : FormatDetector) (pieces : List Bytes) (p : SparseParser) (s : List WriterCommand)
    → run_task (sparse_task d p s) (listened pieces) ≡ outcome_of d s (process_all p pieces)
unfolding run_task on_data on_known at_end process_sparse_data process_all
run_task-process_all d [] p s = ap (λ t. done (sparse_task d p t)) (sym (append-nil s))
run_task-process_all d (piece ∷ pieces) p s =
    bind_assoc (execute_parsed (taking s) (process p piece)) _ _
    ∙ sparse_piece s _ d (λ q. process_all q pieces) (process p piece)
        (λ q u. run_task-process_all d pieces q u)

-- A task that knows of a regular file writes the data as it comes.
pub run_task-regular :
    (d : FormatDetector) (pieces : List Bytes) (s : List WriterCommand)
    → run_task (regular_task d s) (listened pieces)
      ≡ done (regular_task d (s ++ map write_data pieces))
unfolding run_task on_data on_known at_end
run_task-regular d [] s = ap (λ t. done (regular_task d t)) (sym (append-nil s))
run_task-regular d (piece ∷ pieces) s = rw (write_regular_data-taking s piece) (
    run_task-regular d pieces (s ++ write_data piece ∷ [])
    ∙ ap (λ t. done (regular_task d t))
        (append_assoc s (write_data piece ∷ []) (map write_data pieces)))
