-- ===== src/Simg/Image/Follows.antt =====
-- A parser follows an image: the bytes still to come, with those in its buffer, are the rest of the
-- image, and what it will ask for is the rest of the image's events.
pub mod Chunks
pub mod Reading
pub mod Rounds
use mathlib.Core.Path.{subst}
use fls.Base.{
  ℕ, zero, suc, ◌+◌, ◌-◌, ◌*◌, ◌%◌, ◌<◌, ◌≤◌, ◌≡◌, refl, ap, ◌∙◌, sym, ◌⊎◌, inl, inr, true, false,
  List, [], ◌∷◌, ◌++◌, map, arith, leb, ◌==◌, if◌then◌else◌, Bool-cases, length, take, drop, min,
  Option, none, some, Bytes, u32_mod, u64_mod, append_assoc, append-nil,
}
use fls.Simg.Format.{SparseHeader, image_size, Result, ok, err, panic, out_of_fuel}
use fls.Simg.Format.Header.{HeaderFits}
use fls.Simg.Parser.{
  ParserState, waiting_header, waiting_chunk_header, raw_data, complete, SparseParser, WriteCommand,
  seek, write, fill_with, completed, Step, check_complete, step_in,
}
use fls.Simg.Image.{
  ImageChunk, data_chunk, fill_chunk, skip_chunk, encode_chunk, encode_chunks, output_of, ChunkFits,
  ChunksFit, Image, encode, IsImage, Event, put, put_fill, go_to, finished, events, chunk_events,
  image_events, header_length, header_length_bounds,
}

-- `n` chunks of `cs` are left after those counted and one that is being read.
pub record Plan (h : SparseHeader) (counted at : ℕ) (cs : List ImageChunk) : Type 0 where
  pub fits : HeaderFits h
  pub chunks_fit : ChunksFit h.block_size cs
  pub count_is : counted + length cs ≡ h.total_chunks
  pub size_is : at + output_of h.block_size cs ≡ image_size h

-- `trailing` is what follows the image: the parser ignores it.
abbrev pub Follows : Bytes → ParserState → SparseParser → Bytes → List Event → Type 0
Follows trailing waiting_header p rest es =
    (i : Image) × IsImage i
    × (p.buffer ++ rest ≡ encode i ++ trailing)
    × (length p.buffer < 28)
    × (p.chunks_processed ≡ 0)
    × (p.current_output_offset ≡ 0)
    × (es ≡ image_events i)
Follows trailing waiting_chunk_header p rest es =
    (h : SparseHeader) × (c : ImageChunk) × (cs : List ImageChunk) × (p.header ≡ some h)
    × Plan h p.chunks_processed p.current_output_offset (c ∷ cs)
    × (length p.buffer < header_length c)
    × (p.buffer ++ rest ≡ encode_chunks h.block_size (c ∷ cs) ++ trailing)
    × (es ≡ chunk_events h.block_size p.current_output_offset (c ∷ cs))
Follows trailing raw_data p rest es =
    (h : SparseHeader) × (d : Bytes) × (cs : List ImageChunk) × (p.header ≡ some h)
    × Plan h (p.chunks_processed + 1) (p.current_output_offset + length d) cs
    × (length d ≡ p.raw_remaining)
    × (0 < length d)
    × (rest ≡ d ++ (encode_chunks h.block_size cs ++ trailing))
    × (es ≡ map put d ++ chunk_events h.block_size (p.current_output_offset + length d) cs)
Follows trailing complete p rest es = es ≡ []

pub events-append : (cs ds : List WriteCommand) → events (cs ++ ds) ≡ events cs ++ events ds
events-append [] ds = refl
events-append (seek o ∷ cs) ds = rw (events-append cs ds)
events-append (write d ∷ cs) ds = rw (events-append cs ds, append_assoc)
events-append (fill_with p n ∷ cs) ds = rw (events-append cs ds)
events-append (completed n ∷ cs) ds = rw (events-append cs ds)

-- The round succeeds, asks for the first of the events, and follows on with the rest.
pub record Advanced (trailing input later : Bytes) (es : List Event) (s : Step) : Type 0 where
  pub left : List Event
  pub asked : es ≡ events s.commands ++ left
  pub follows : Follows trailing s.parser.state s.parser (drop s.taken input ++ later) left

abbrev pub Advances : Bytes → Bytes → Bytes → List Event → Result Step → Type 0
Advances trailing input later es (ok s) = Advanced trailing input later es s
Advances trailing input later es _ = ⊥

module _ (trailing input later : Bytes) (h : SparseHeader) where
  pub check_complete-Advances :
      (p next : SparseParser) (cs : List WriteCommand) (n : ℕ) (es : List Event)
      (left : List ImageChunk)
      → Plan h p.chunks_processed p.current_output_offset left
      → next.header ≡ some h
      → next.state ≡ waiting_chunk_header
      → next.chunks_processed ≡ p.chunks_processed
      → next.current_output_offset ≡ p.current_output_offset
      → length next.buffer < 12
      → next.buffer ++ (drop n input ++ later) ≡ encode_chunks h.block_size left ++ trailing
      → es ≡ events cs ++ chunk_events h.block_size p.current_output_offset left
      → Advances trailing input later es (check_complete h p next cs n)
  unfolding check_complete
  check_complete-Advances p next cs n es [] plan nh ns nc at_same nb bytes asked =
      let full : p.chunks_processed == h.total_chunks ≡ true = ground (arith, plan.count_is) in
      let whole : p.current_output_offset == image_size h ≡ true = ground (arith, plan.size_is) in
      let at_end : p.current_output_offset ≡ image_size h = omega (arith, plan.size_is) in
      rw (full, whole)
        (record {
          left = [];
          asked = asked ∙ rw (append-nil, events-append, at_end);
          follows = refl;
        })
  check_complete-Advances p next cs n es (c ∷ left) plan nh ns nc at_same nb bytes asked =
      let part : p.chunks_processed == h.total_chunks ≡ false = ground (arith, plan.count_is) in
      let on : Plan h next.chunks_processed next.current_output_offset (c ∷ left) = record {
        fits = plan.fits;
        chunks_fit = plan.chunks_fit;
        count_is = omega (arith, plan.count_is);
        size_is = omega (arith, plan.size_is);
      } in
      let es' = chunk_events h.block_size p.current_output_offset (c ∷ left) in
      rw part (record {
        left = es';
        asked = asked;
        follows =
            subst (λ st. Follows trailing st next (drop n input ++ later) es') (sym ns)
              (h, c, left, nh, on, omega (arith, header_length_bounds c), bytes, rw at_same);
      })
