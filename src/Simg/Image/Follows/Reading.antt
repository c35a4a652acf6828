-- ===== src/Simg/Image/Follows/Reading.antt =====
-- The header of a chunk, read from a buffer that holds its first bytes.
use mathlib.Core.Path.{subst, ap₂}
use mathlib.Core.List.{map-append}
use fls.Base.{
  ℕ, ◌+◌, ◌*◌, ◌<◌, ◌≤◌, ◌≡◌, refl, ap, ◌∙◌, sym, inl, inr, List, [], ◌∷◌, ◌++◌, map, arith,
  Bool-cases, ltb, ltb→lt, ◌%◌, u64_mod, length, drop, some, Bytes, append_assoc, append-split,
  length-drop, u16_to_le_bytes, u32_to_le_bytes,
}
use fls.Simg.Format.{
  SparseHeader, Pattern, raw, fill, dont_care, err, unexpected_eof, parse_chunk_header,
  chunk_type_fill,
}
use fls.Simg.Format.Chunk.{make_chunk_header, chunk_of, parse_chunk_header-make_chunk_header}
use fls.Simg.Parser.{waiting_chunk_header, SparseParser, on_chunk_header, fill_with, seek}
use fls.Simg.Image.{
  ImageChunk, data_chunk, fill_chunk, skip_chunk, encode_chunks, Event, put, chunk_events,
}
use fls.Simg.Image.Follows.{Plan, Follows, Advances}
use fls.Simg.Image.Follows.Chunks.{Plan-room, on_raw-Advances, after_output-Advances}

-- Twelve bytes of a FILL header, and fewer than the four of the pattern.
abbrev fill_start : ℕ → ℕ → Bytes
fill_start reserved blocks =
    u16_to_le_bytes chunk_type_fill
    ++ (u16_to_le_bytes reserved ++ (u32_to_le_bytes blocks ++ u32_to_le_bytes 16))

parse_chunk_header-fill_start :
    (reserved blocks block_size : ℕ) (x : Bytes)
    → length x < 4
    → parse_chunk_header (fill_start reserved blocks ++ x) block_size ≡ err unexpected_eof
unfolding parse_chunk_header
parse_chunk_header-fill_start reserved blocks block_size x short = ground arith

module _ (trailing input later : Bytes) (h : SparseHeader) (p : SparseParser) (n : ℕ)
    (es : List Event) (left : List ImageChunk) (ph : p.header ≡ some h)
    (ps : p.state ≡ waiting_chunk_header) (long : 12 ≤ length p.buffer)
    (short : length p.buffer ≤ 16) where
  abbrev tail : Bytes
  tail = encode_chunks h.block_size left ++ trailing

  abbrev rest : Bytes
  rest = drop n input ++ later

  read_data-Advances :
      (reserved blocks : ℕ) (d : Bytes)
      → Plan h p.chunks_processed p.current_output_offset (data_chunk reserved blocks d ∷ left)
      → p.buffer ++ rest ≡ make_chunk_header reserved raw blocks h.block_size ++ (d ++ tail)
      → es ≡ chunk_events h.block_size p.current_output_offset (data_chunk reserved blocks d ∷ left)
      → Advances trailing input later es
          (on_chunk_header h p n (parse_chunk_header p.buffer h.block_size))
  unfolding on_chunk_header
  read_data-Advances reserved blocks d plan bytes asked =
      let (blocks_fit, data_is, fits, four) = plan.chunks_fit.0 in
      let cut =
        append-split (make_chunk_header reserved raw blocks h.block_size) (d ++ tail) p.buffer rest
          bytes long in
      let x = drop 12 p.buffer in
      let inner = append-split x rest d tail (sym cut.1) (omega (arith, length-drop 12 p.buffer)) in
      let parsed =
        parse_chunk_header-make_chunk_header reserved raw blocks h.block_size x blocks_fit
          (omega arith) in
      let d' = drop (length x) d in
      let size : blocks * h.block_size ≡ length x + length d' =
        omega (arith, length-drop (length x) d, length-drop 12 p.buffer) in
      rw (ap (λ b. parse_chunk_header b h.block_size) cut.0 ∙ parsed) (
        on_raw-Advances trailing input later h p (chunk_of raw blocks h.block_size) n es x d' left
          ph (omega arith) refl size (omega arith)
          (record {
            fits = plan.fits;
            chunks_fit = plan.chunks_fit.1;
            count_is = omega (arith, plan.count_is);
            size_is = omega (arith, plan.size_is);
          })
          (sym inner.1)
          (asked
            ∙ ap₂ (λ m o. m ++ chunk_events h.block_size (p.current_output_offset + o) left)
                (ap (map put) inner.0 ∙ map-append put x d') size
            ∙ append_assoc (map put x) (map put d') _))

  read_fill-Advances :
      (reserved blocks : ℕ) (pattern : Pattern)
      → Plan h p.chunks_processed p.current_output_offset
          (fill_chunk reserved blocks pattern ∷ left)
      → p.buffer ++ rest ≡ make_chunk_header reserved (fill pattern) blocks h.block_size ++ tail
      → es
        ≡ chunk_events h.block_size p.current_output_offset
            (fill_chunk reserved blocks pattern ∷ left)
      → Advances trailing input later es
          (on_chunk_header h p n (parse_chunk_header p.buffer h.block_size))
  unfolding on_chunk_header
  read_fill-Advances reserved blocks pattern plan bytes asked =
      elim (Bool-cases (ltb (length p.buffer) 16)) [
        | inl few ↦
            let fewer : length p.buffer < 16 = ltb→lt _ _ few in
            let cut = append-split (fill_start reserved blocks) _ p.buffer rest bytes long in
            let parsed =
              parse_chunk_header-fill_start reserved blocks h.block_size (drop 12 p.buffer)
                (omega (arith, length-drop 12 p.buffer)) in
            rw (ap (λ b. parse_chunk_header b h.block_size) cut.0 ∙ parsed) (record {
              left = es;
              asked = refl;
              follows =
                  subst (λ st. Follows trailing st p rest es) (sym ps)
                    (h, fill_chunk reserved blocks pattern, left, ph, plan, fewer, bytes, asked);
            })
        | inr enough ↦
            let head = make_chunk_header reserved (fill pattern) blocks h.block_size in
            let cut = append-split head tail p.buffer rest bytes (ground arith) in
            let parsed =
              parse_chunk_header-make_chunk_header reserved (fill pattern) blocks h.block_size
                (drop 16 p.buffer) plan.chunks_fit.0 (omega arith) in
            rw (ap (λ b. parse_chunk_header b h.block_size) cut.0 ∙ parsed) (
              after_output-Advances trailing input later h p (fill_chunk reserved blocks pattern) 16
                (fill_with pattern (blocks * h.block_size) ∷ []) n es left ph ps plan (ground arith)
                (omega (arith, length-drop 16 p.buffer)) cut.1 asked)
      ]

  read_skip-Advances :
      (reserved blocks : ℕ)
      → Plan h p.chunks_processed p.current_output_offset (skip_chunk reserved blocks ∷ left)
      → p.buffer ++ rest ≡ make_chunk_header reserved dont_care blocks h.block_size ++ tail
      → es ≡ chunk_events h.block_size p.current_output_offset (skip_chunk reserved blocks ∷ left)
      → Advances trailing input later es
          (on_chunk_header h p n (parse_chunk_header p.buffer h.block_size))
  unfolding on_chunk_header
  read_skip-Advances reserved blocks plan bytes asked =
      let moved : (p.current_output_offset + blocks * h.block_size) % u64_mod
          ≡ p.current_output_offset + blocks * h.block_size =
        omega (arith, (Plan-room plan).0) in
      let head = make_chunk_header reserved dont_care blocks h.block_size in
      let cut = append-split head tail p.buffer rest bytes long in
      let parsed =
        parse_chunk_header-make_chunk_header reserved dont_care blocks h.block_size
          (drop 12 p.buffer) plan.chunks_fit.0 (omega arith) in
      rw (ap (λ b. parse_chunk_header b h.block_size) cut.0 ∙ parsed) (
        after_output-Advances trailing input later h p (skip_chunk reserved blocks) 12 (seek _ ∷ [])
          n es left ph ps plan (omega arith) (omega (arith, length-drop 12 p.buffer)) cut.1
          (rw moved asked))

  pub on_chunk_header-Advances :
      (c : ImageChunk)
      → Plan h p.chunks_processed p.current_output_offset (c ∷ left)
      → p.buffer ++ rest ≡ encode_chunks h.block_size (c ∷ left) ++ trailing
      → es ≡ chunk_events h.block_size p.current_output_offset (c ∷ left)
      → Advances trailing input later es
          (on_chunk_header h p n (parse_chunk_header p.buffer h.block_size))
  on_chunk_header-Advances (data_chunk reserved blocks d) plan bytes asked =
      read_data-Advances reserved blocks d plan
        (bytes
          ∙ ap (λ t. make_chunk_header reserved raw blocks h.block_size ++ t)
              (append_assoc d (encode_chunks h.block_size left) trailing))
        asked
  on_chunk_header-Advances (fill_chunk reserved blocks pattern) plan bytes asked =
      read_fill-Advances reserved blocks pattern plan bytes asked
  on_chunk_header-Advances (skip_chunk reserved blocks) plan bytes asked =
      read_skip-Advances reserved blocks plan bytes asked
