-- ===== src/Simg/Image/Follows/Chunks.antt =====
-- A round of the parser that reads a chunk's header asks for what the chunk asks for.
use fls.Base.{
  ℕ, ◌+◌, ◌-◌, ◌*◌, ◌%◌, ◌<◌, ◌≤◌, ◌≡◌, refl, ap, ◌∙◌, sym, true, false, List, [], ◌∷◌, ◌++◌, map,
  arith, ltb, ◌==◌, length, drop, min, some, Bytes, u32_mod, u32_max, u64_mod, append-nil, take_all,
}
use fls.Simg.Format.{SparseHeader, SparseChunk, in_range_ok}
use fls.Simg.Format.Header.{image_size-lt}
use fls.Simg.Parser.{
  waiting_chunk_header, SparseParser, WriteCommand, write, count_chunk, move_by, is_raw_data,
  after_raw_header, write_extra, on_raw, after_chunk,
}
use fls.Simg.Image.{
  ImageChunk, encode_chunks, output_of, Event, put, blocks_of, events, chunk_events,
}
use fls.Simg.Image.Follows.{Plan, Advances, check_complete-Advances}

-- With fewer bytes to come than a u64 counts, the offset does not wrap.
pub Plan-room :
    {h : SparseHeader} {counted at : ℕ} {cs : List ImageChunk}
    → Plan h counted at cs
    → (at + output_of h.block_size cs < u64_mod) × (counted + length cs < u32_mod)
Plan-room {h} p = (
  omega (arith, p.size_is, image_size-lt h p.fits),
  omega (arith, p.count_is, p.fits.total_chunks_fits),
)

module _ (h : SparseHeader) (p : SparseParser) (n b : ℕ) (x d : Bytes) where
  -- what `write_extra` does with no byte of data in the buffer, and with some of the chunk's
  write_extra-nil :
      write_extra h p [] (length d) n
      ≡ after_raw_header h (record p { raw_remaining = length d; buffer = [] }) [] n
  unfolding write_extra
  write_extra-nil = let none_read : min 0 (length d) ≡ 0 = omega arith in rw none_read

  write_extra-cons :
      length (b ∷ x) + length d < u32_mod
      → p.current_output_offset + length (b ∷ x) < u64_mod
      → write_extra h p (b ∷ x) (length (b ∷ x) + length d) n
        ≡ after_raw_header h
            (record p {
              current_output_offset = p.current_output_offset + length (b ∷ x);
              raw_remaining = length d;
              buffer = [];
            })
            (write (b ∷ x) ∷ [])
            n
  unfolding write_extra
  write_extra-cons fits room =
      let len : min (length (b ∷ x) % u32_mod) (length (b ∷ x) + length d) ≡ length (b ∷ x) =
        omega arith in
      let rest : length (b ∷ x) + length d - length (b ∷ x) ≡ length d = omega arith in
      let at : (p.current_output_offset + length (b ∷ x)) % u64_mod
          ≡ p.current_output_offset + length (b ∷ x) =
        omega arith in
      let more : ltb 0 (length (b ∷ x)) ≡ true = ground arith in
      let within = in_range_ok (length (b ∷ x)) (b ∷ x) (omega arith) in
      rw (len, rest, at, more, take_all (length (b ∷ x)) (b ∷ x) (omega arith), within)

on_raw-eq :
    (h : SparseHeader) (p : SparseParser) (chunk : SparseChunk) (n size : ℕ) (x : Bytes)
    → 12 ≤ length p.buffer
    → drop 12 p.buffer ≡ x
    → chunk.data_size ≡ size
    → size < u32_mod
    → on_raw h p chunk 12 n ≡ write_extra h p x size n
unfolding on_raw
on_raw-eq h p chunk n size x long ex is_size fits =
    let no_overflow : ltb u32_max chunk.data_size ≡ false = ground arith in
    let small : chunk.data_size % u32_mod ≡ size = omega arith in
    rw (no_overflow, in_range_ok 12 p.buffer long, ex, small)

module _ (trailing input later : Bytes) (h : SparseHeader) where
  -- the header is read, the extra bytes `x` are a prefix of the data, and `d` is the rest of it
  after_raw_header-Advances :
      (p : SparseParser) (cs : List WriteCommand) (n : ℕ) (es : List Event) (d : Bytes)
      (left : List ImageChunk)
      → p.header ≡ some h
      → p.buffer ≡ []
      → p.raw_remaining ≡ length d
      → Plan h (p.chunks_processed + 1) (p.current_output_offset + length d) left
      → drop n input ++ later ≡ d ++ (encode_chunks h.block_size left ++ trailing)
      → es
        ≡ events cs
          ++ (map put d ++ chunk_events h.block_size (p.current_output_offset + length d) left)
      → Advances trailing input later es (after_raw_header h p cs n)
  unfolding after_raw_header
  after_raw_header-Advances p cs n es [] left ph pb pr plan bytes asked =
      let empty : p.raw_remaining == 0 ≡ true = ground arith in
      let counted : (p.chunks_processed + 1) % u32_mod ≡ p.chunks_processed + 1 =
        omega (arith, (Plan-room plan).1) in
      let same : p.current_output_offset + 0 ≡ p.current_output_offset = omega arith in
      let q = record (count_chunk p) { state = waiting_chunk_header } in
      let on : Plan h q.chunks_processed p.current_output_offset left = record {
        fits = plan.fits;
        chunks_fit = plan.chunks_fit;
        count_is = omega (arith, plan.count_is, counted);
        size_is = omega (arith, plan.size_is);
      } in
      rw empty (
        check_complete-Advances trailing input later h (count_chunk p) q cs n es left on ph refl
          refl refl (rw pb (omega arith)) (rw pb bytes) (rw same at asked))
  after_raw_header-Advances p cs n es (b ∷ d) left ph pb pr plan bytes asked =
      let some_left : p.raw_remaining == 0 ≡ false = ground arith in
      rw some_left (record {
        left =
            map put (b ∷ d)
            ++ chunk_events h.block_size (p.current_output_offset + length (b ∷ d)) left;
        asked = asked;
        follows = (h, b ∷ d, left, ph, plan, sym pr, omega arith, bytes, refl);
      })

  -- a RAW header, with the first bytes `x` of the data behind it in the buffer
  pub on_raw-Advances :
      (p : SparseParser) (chunk : SparseChunk) (n : ℕ) (es : List Event) (x d : Bytes)
      (left : List ImageChunk)
      → p.header ≡ some h
      → 12 ≤ length p.buffer
      → drop 12 p.buffer ≡ x
      → chunk.data_size ≡ length x + length d
      → length x + length d < u32_mod
      → Plan h (p.chunks_processed + 1) (p.current_output_offset + (length x + length d)) left
      → drop n input ++ later ≡ d ++ (encode_chunks h.block_size left ++ trailing)
      → es
        ≡ map put x
          ++ (map put d
              ++ chunk_events h.block_size (p.current_output_offset + (length x + length d)) left)
      → Advances trailing input later es (on_raw h p chunk 12 n)
  on_raw-Advances p chunk n es [] d left ph long ex size fits plan bytes asked =
      let alone : 0 + length d ≡ length d = omega arith in
      rw
        (
          on_raw-eq h p chunk n (length d) [] long ex (size ∙ alone) (omega arith),
          write_extra-nil h p n 0 [] d,
        )
        (after_raw_header-Advances (record p { raw_remaining = length d; buffer = [] }) [] n es d
          left ph refl refl (rw alone at plan) bytes (rw alone at asked))
  on_raw-Advances p chunk n es (b ∷ x) d left ph long ex size fits plan bytes asked =
      let at = p.current_output_offset + length (b ∷ x) in
      let q = record p { current_output_offset = at; raw_remaining = length d; buffer = [] } in
      let joined : p.current_output_offset + (length (b ∷ x) + length d) ≡ at + length d =
        omega arith in
      rw
        (
          on_raw-eq h p chunk n (length (b ∷ x) + length d) (b ∷ x) long ex size fits,
          write_extra-cons h p n b x d fits (omega (arith, (Plan-room plan).0)),
        )
        (after_raw_header-Advances q (write (b ∷ x) ∷ []) n es d left ph refl refl
          (rw joined at plan) bytes (asked ∙ rw (append-nil, joined)))

  after_chunk-Advances :
      (p : SparseParser) (consumed : ℕ) (cs : List WriteCommand) (n : ℕ) (es : List Event)
      (left : List ImageChunk)
      → p.header ≡ some h
      → p.state ≡ waiting_chunk_header
      → Plan h p.chunks_processed p.current_output_offset left
      → consumed ≤ length p.buffer
      → length (drop consumed p.buffer) < 12
      → drop consumed p.buffer ++ (drop n input ++ later)
        ≡ encode_chunks h.block_size left ++ trailing
      → es ≡ events cs ++ chunk_events h.block_size p.current_output_offset left
      → Advances trailing input later es (after_chunk h p consumed cs n)
  unfolding after_chunk
  after_chunk-Advances p consumed cs n es left ph ps plan within short bytes asked =
      let still : is_raw_data p.state ≡ false = ap is_raw_data ps in
      let q = record p { state = waiting_chunk_header; buffer = drop consumed p.buffer } in
      rw (still, in_range_ok consumed p.buffer within)
        (check_complete-Advances trailing input later h
          (record p { buffer = drop consumed p.buffer }) q cs n es left plan ph refl refl refl short
          bytes asked)

  -- A chunk is counted, and the offset moves past its output.
  pub after_output-Advances :
      (p : SparseParser) (c : ImageChunk) (consumed : ℕ) (cs : List WriteCommand) (n : ℕ)
      (es : List Event) (left : List ImageChunk)
      → p.header ≡ some h
      → p.state ≡ waiting_chunk_header
      → Plan h p.chunks_processed p.current_output_offset (c ∷ left)
      → consumed ≤ length p.buffer
      → length (drop consumed p.buffer) < 12
      → drop consumed p.buffer ++ (drop n input ++ later)
        ≡ encode_chunks h.block_size left ++ trailing
      → es
        ≡ events cs
          ++ chunk_events h.block_size (p.current_output_offset + blocks_of c * h.block_size) left
      → Advances trailing input later es
          (after_chunk h (count_chunk (move_by (blocks_of c * h.block_size) p)) consumed cs n)
  after_output-Advances p c consumed cs n es left ph ps plan within short bytes asked =
      let out = blocks_of c * h.block_size in
      let room = Plan-room plan in
      let moved : (p.current_output_offset + out) % u64_mod ≡ p.current_output_offset + out =
        omega (arith, room.0) in
      after_chunk-Advances (count_chunk (move_by out p)) consumed cs n es left ph ps
        (record {
          fits = plan.fits;
          chunks_fit = plan.chunks_fit.1;
          count_is = omega (arith, plan.count_is, room.1);
          size_is = omega (arith, plan.size_is, moved);
        })
        within short bytes (rw moved asked)
