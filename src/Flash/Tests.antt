-- ===== src/Flash/Tests.antt =====
-- Runs of the task of src/fls/from_url.rs.
use mathlib.Core.List.{flatten}
use fls.Base.{
  ℕ, ◌≤◌, ◌≡◌, refl, inl, List, [], ◌∷◌, ◌++◌, true, false, arith, take, drop, length, Bytes,
}
use fls.Simg.Format.{parse_header}
use fls.Simg.Image.{Image, data_chunk, skip_chunk, fill_chunk, encode, IsImage}
use fls.Writer.{File, BlockWriter}
use fls.Writer.Disk.{Yields, IsFaulty}
use fls.Writer.Run.{disk_of}
use fls.Flash.{Task, done, run_task, start, flash}
use fls.Flash.Send.{taking}
use fls.Flash.Known.{listened}
use fls.Flash.Told.{waiting_task}
use fls.Flash.Start.{Told, run_task-waiting}
use fls.Flash.Image.{IsRestored, flash-encode, start-IsWaiting}
use fls.Flash.Regular.{IsRegular, IsCopied, flash-regular}
use fls.Flash.Truncated.{run_task-truncated}

abbrev some_image : Image
some_image = record {
  minor = 0;
  header = record { block_size = 4; total_blocks = 4; total_chunks = 3; image_checksum = 0 };
  chunks =
      data_chunk 0 1 (10 ∷ 20 ∷ 30 ∷ 40 ∷ []) ∷ skip_chunk 0 2 ∷ fill_chunk 0 1 (1, 2, 3, 4) ∷ [];
}

some_image-IsImage : IsImage some_image
some_image-IsImage = omega arith

abbrev blank : File
blank = record { bytes = λ _. 255; at = 0; faults = [] }

abbrev image_pieces : List Bytes
image_pieces = take 20 (encode some_image) ∷ drop 20 (encode some_image) ∷ []

image_pieces_join : flatten image_pieces ≡ encode some_image ++ []
unfolding flatten
image_pieces_join = refl

flash-encode_example :
    (o : fls.Writer.Outcome (BlockWriter × ℕ)) × (flash blank false (listened image_pieces)
      ≡ done o)
    × Yields (IsFaulty blank.faults) (IsRestored some_image (disk_of blank false)) o
flash-encode_example =
    flash-encode some_image image_pieces [] blank false some_image-IsImage image_pieces_join
      (omega arith) (λ x. absurd (ground arith))

abbrev text_pieces : List Bytes
text_pieces = (104 ∷ 101 ∷ 108 ∷ []) ∷ (108 ∷ 111 ∷ []) ∷ []

text_pieces-IsRegular : IsRegular (flatten text_pieces)
unfolding flatten parse_header
text_pieces-IsRegular = inl refl

flash-regular_example :
    (o : fls.Writer.Outcome (BlockWriter × ℕ)) × (flash blank true (listened text_pieces) ≡ done o)
    × Yields (IsFaulty blank.faults) (IsCopied (flatten text_pieces) (disk_of blank true)) o
flash-regular_example = flash-regular text_pieces blank true text_pieces-IsRegular (omega arith)

abbrev cut_pieces : List Bytes
cut_pieces = take 50 (encode some_image) ∷ []

cut_pieces_join : flatten cut_pieces ++ drop 50 (encode some_image) ≡ encode some_image
unfolding flatten
cut_pieces_join = refl

cut_pieces_long : 28 ≤ length (flatten cut_pieces)
unfolding flatten
cut_pieces_long = omega arith

run_task-truncated_example :
    (t : Task) × (run_task (start (taking [])) (listened cut_pieces) ≡ done t)
run_task-truncated_example =
    run_task-truncated some_image cut_pieces (drop 50 (encode some_image)) some_image-IsImage
      cut_pieces_join cut_pieces_long

run_task-waiting_example :
    Told []
      (flatten text_pieces)
      (parse_header (flatten text_pieces))
      (run_task (waiting_task fls.Detect.new []) (listened text_pieces))
run_task-waiting_example = run_task-waiting text_pieces fls.Detect.new [] start-IsWaiting
