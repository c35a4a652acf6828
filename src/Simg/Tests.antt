-- ===== src/Simg/Tests.antt =====
-- Runs of the models of src/fls/simg.rs on small images.
use mathlib.Core.List.{flatten}
use fls.Base.{
  Bool, true, false, ℕ, ◌≡◌, refl, List, [], ◌∷◌, ◌++◌, ◌<◌, ◌↔◌, AreBytes, arith, take, drop,
  wrapping_sub, some, Bytes, u16_mod,
}
use fls.Simg.Format.{Result, SparseHeader, raw, parse_header, parse_chunk_header, ok}
use fls.Simg.Format.Header.{make_header, HeaderFits, parse_header_exact}
use fls.Simg.Format.Chunk.{
  make_chunk_header, chunk_of, ChunkOf, parse_chunk_header-make_chunk_header,
  parse_chunk_header-ChunkOf,
}
use fls.Simg.Parser.{
  SparseParser, WriteCommand, seek, write, fill_with, completed, complete, new, process, rounds,
  step, step_in, on_raw_bytes, after_raw_bytes, on_chunk_bytes, on_header_bytes, on_chunk_header,
  on_chunk, after_chunk, on_raw, write_extra, after_raw_header, check_complete,
}
use fls.Simg.Parser.Invariant.{Ensures}
use fls.Simg.Parser.Rounds.{IsProcessed, new-IsValid, process-IsProcessed}
use fls.Simg.Image.{
  Image, data_chunk, fill_chunk, skip_chunk, encode, IsImage, events, image_events,
}
use fls.Simg.Image.Stream.{process_all, process_all-encode}

-- An image of four blocks of four bytes: data, a skip of two blocks, a fill.
abbrev small_header : SparseHeader
small_header = record { block_size = 4; total_blocks = 4; total_chunks = 3; image_checksum = 0 }

abbrev small : Image
small = record {
  minor = 0;
  header = small_header;
  chunks =
      data_chunk 0 1 (10 ∷ 20 ∷ 30 ∷ 40 ∷ []) ∷ skip_chunk 0 2 ∷ fill_chunk 0 1 (1, 2, 3, 4) ∷ [];
}

-- The bytes cut inside the header, inside a chunk header and inside the data.
abbrev small_pieces : List Bytes
small_pieces =
    take 5 (encode small)
    ∷ take 30 (drop 5 (encode small))
    ∷ take 7 (drop 35 (encode small))
    ∷ drop 42 (encode small)
    ∷ []

small-IsImage : IsImage small
small-IsImage = omega arith

pieces_are : flatten small_pieces ≡ encode small ++ []
unfolding flatten
pieces_are = refl

process_all-encode_example :
    (p : SparseParser) × (cs : List WriteCommand) × (process_all new small_pieces ≡ ok (p, cs))
    × (p.state ≡ complete)
    × (events cs ≡ image_events small)
process_all-encode_example = process_all-encode small small_pieces [] small-IsImage pieces_are

process-IsProcessed_example : Ensures (IsProcessed 0 72) (process new (encode small))
process-IsProcessed_example = process-IsProcessed new (encode small) new-IsValid

small_header-AreBytes : AreBytes (make_header 0 small_header)
small_header-AreBytes = omega arith

parse_header_exact_example : (parse_header (make_header 0 small_header) ≡ ok small_header) ↔ (
    (minor : ℕ) × (rest : Bytes) × (minor < u16_mod)
    × HeaderFits small_header
    × (make_header 0 small_header ≡ make_header minor small_header ++ rest))
parse_header_exact_example =
    parse_header_exact (make_header 0 small_header) small_header small_header-AreBytes

parse_chunk_header-make_chunk_header_example :
    parse_chunk_header (make_chunk_header 0 raw 2 4096 ++ 7 ∷ []) 4096
    ≡ ok (chunk_of raw 2 4096, 12)
parse_chunk_header-make_chunk_header_example =
    parse_chunk_header-make_chunk_header 0 raw 2 4096 (7 ∷ []) (omega arith) (omega arith)

raw_header_parses :
    parse_chunk_header (make_chunk_header 0 raw 2 4096) 4096 ≡ ok (chunk_of raw 2 4096, 12)
unfolding parse_chunk_header
raw_header_parses = refl

parse_chunk_header-ChunkOf_example :
    ChunkOf (make_chunk_header 0 raw 2 4096) 4096 (chunk_of raw 2 4096) 12
parse_chunk_header-ChunkOf_example =
    parse_chunk_header-ChunkOf (make_chunk_header 0 raw 2 4096) 4096 raw_header_parses

-- a run: every command of the small image, in two pieces
small_run :
    process_all new (take 45 (encode small) ∷ drop 45 (encode small) ∷ [])
    ≡ ok (
      record {
        header = some small_header;
        chunks_processed = 3;
        current_output_offset = 16;
        state = complete;
        buffer = [];
        raw_remaining = 0;
      },
      write (10 ∷ 20 ∷ 30 ∷ 40 ∷ []) ∷ seek 12 ∷ fill_with (1, 2, 3, 4) 4 ∷ completed 16 ∷ [],
    )
unfolding process_all process rounds step step_in on_raw_bytes after_raw_bytes on_chunk_bytes
    on_header_bytes on_chunk_header on_chunk after_chunk on_raw write_extra after_raw_header
    check_complete parse_header parse_chunk_header wrapping_sub
small_run = refl

-- A RAW chunk of no blocks, and a skip of one: complete if the bytes are cut behind the first chunk's
-- header, and not if they come at once, since bytes of the second chunk are lost.
abbrev empty_raw : Image
empty_raw = record {
  minor = 0;
  header = record { block_size = 4; total_blocks = 1; total_chunks = 2; image_checksum = 0 };
  chunks = data_chunk 0 0 [] ∷ skip_chunk 0 1 ∷ [];
}

abbrev is_completed : Result (SparseParser × List WriteCommand) → Bool
is_completed (ok (p, cs)) = elim p.state [ complete ↦ true | _ ↦ false ]
is_completed _ = false

empty_raw_cut :
    is_completed (process_all new (take 40 (encode empty_raw) ∷ drop 40 (encode empty_raw) ∷ []))
    ≡ true
unfolding process_all process rounds step step_in on_raw_bytes after_raw_bytes on_chunk_bytes
    on_header_bytes on_chunk_header on_chunk after_chunk on_raw write_extra after_raw_header
    check_complete parse_header parse_chunk_header wrapping_sub
empty_raw_cut = refl

empty_raw_at_once : is_completed (process_all new (encode empty_raw ∷ [])) ≡ false
unfolding process_all process rounds step step_in on_raw_bytes after_raw_bytes on_chunk_bytes
    on_header_bytes on_chunk_header on_chunk after_chunk on_raw write_extra after_raw_header
    check_complete parse_header parse_chunk_header wrapping_sub
empty_raw_at_once = refl
