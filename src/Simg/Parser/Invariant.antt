-- ===== src/Simg/Parser/Invariant.antt =====
-- The invariant of `SparseParser`, and that each round of the loop of `process` keeps it.
use fls.Base.{
  ℕ, ◌+◌, ◌%◌, ◌<◌, ◌≤◌, ◌≡◌, refl, ap, sym, ◌⊎◌, inl, inr, Bool-cases, ltb, u32_max, true, false,
  List, [], ◌∷◌, ◌++◌, arith, length, drop, min, some, Bytes, u32_mod, u64_mod, length-take,
  length-drop,
}
use fls.Simg.Format.{
  SparseHeader, image_size, ChunkType, raw, fill, dont_care, SparseChunk, output_size, Result, ok,
  in_range_ok, err, panic, out_of_fuel, unexpected_eof, parse_chunk_header,
}
use fls.Simg.Format.Chunk.{
  ChunkOf, parse_chunk_header-ChunkOf, parse_chunk_header_eof, parse_chunk_header_returns,
  header_bytes,
}
use fls.Simg.Parser.{
  ParserState, waiting_header, waiting_chunk_header, raw_data, complete, SparseParser, WriteCommand,
  seek, write, fill_with, completed, Step, check_complete, after_raw_header, on_raw, write_extra,
  after_chunk, on_chunk, on_chunk_header, is_raw_data, count_chunk, move_by,
}

-- What each state knows of the other fields: `unwrap` finds a header, the buffer has room, and a
-- completed parser has written what the header promised.
abbrev pub StateInv : ParserState → SparseParser → Type 0
StateInv waiting_header p = length p.buffer < 28
StateInv waiting_chunk_header p = (h : SparseHeader) × (p.header ≡ some h) × (length p.buffer < 16)
StateInv raw_data p =
    (h : SparseHeader) × (p.header ≡ some h) × (0 < p.raw_remaining) × (p.raw_remaining < u32_mod)
StateInv complete p =
    (h : SparseHeader) × (p.header ≡ some h)
    × (p.current_output_offset ≡ image_size h)
    × (p.chunks_processed ≡ h.total_chunks)

pub record IsValid (p : SparseParser) : Type 0 where
  pub offset_fits : p.current_output_offset < u64_mod
  pub chunks_fit : p.chunks_processed < u32_mod
  pub state_inv : StateInv p.state p

-- Where the commands leave a writer that stands at an offset; the writer's count is a u64.
abbrev pub position : ℕ → List WriteCommand → ℕ
position at [] = at
position at (seek o ∷ cs) = position o cs
position at (write d ∷ cs) = position ((at + length d) % u64_mod) cs
position at (fill_with _ n ∷ cs) = position ((at + n) % u64_mod) cs
position at (completed _ ∷ cs) = position at cs

pub position-append :
    (at : ℕ) (cs ds : List WriteCommand) → position at (cs ++ ds) ≡ position (position at cs) ds
position-append at [] ds = refl
position-append at (seek o ∷ cs) ds = position-append o cs ds
position-append at (write d ∷ cs) ds = position-append ((at + length d) % u64_mod) cs ds
position-append at (fill_with _ n ∷ cs) ds = position-append ((at + n) % u64_mod) cs ds
position-append at (completed _ ∷ cs) ds = position-append at cs ds

-- One round, from a writer at `at` and an input of `size` bytes.
pub record IsRound (at size : ℕ) (s : Step) : Type 0 where
  pub valid : IsValid s.parser
  pub taken_le : s.taken ≤ size
  pub progress : s.stop ≡ false → 0 < s.taken
  pub at_end : s.stop ≡ true → (s.taken ≡ size) ⊎ (s.parser.state ≡ complete)
  pub offset_is : position at s.commands ≡ s.parser.current_output_offset

-- The result is a value that meets `P`, or an error: no panic, and the fuel is enough.
abbrev pub Ensures {ℓ} : {A : Type ℓ} → (A → Type 0) → Result A → Type 0
Ensures P (ok a) = P a
Ensures P (err e) = Unit
Ensures P panic = ⊥
Ensures P out_of_fuel = ⊥

header_bytes-ge :
    {d : Bytes} {block_size : ℕ} {c : SparseChunk} {n : ℕ} → ChunkOf d block_size c n → 12 ≤ n
header_bytes-ge {c = c} k = rw k.header_is (bytes c.chunk_type)
  where
    bytes : (t : ChunkType) → 12 ≤ header_bytes t
    bytes raw = omega arith
    bytes (fill p) = omega arith
    bytes dont_care = omega arith

module _ (at size : ℕ) (h : SparseHeader) where
  -- `p` has counted its chunk; `next` is the parser of the else branch
  pub check_complete-IsRound :
      (p next : SparseParser) (cs : List WriteCommand) (n : ℕ)
      → p.header ≡ some h
      → p.current_output_offset < u64_mod
      → p.chunks_processed < u32_mod
      → IsValid next
      → p.current_output_offset ≡ next.current_output_offset
      → position at cs ≡ p.current_output_offset
      → 0 < n
      → n ≤ size
      → Ensures (IsRound at size) (check_complete h p next cs n)
  unfolding check_complete
  check_complete-IsRound p next cs n ph po pc v e c pos le =
      ground (arith, position-append at cs (completed (image_size h) ∷ []))

  write_extra-IsRound :
      (p : SparseParser) (extra : Bytes) (left taken : ℕ)
      → p.header ≡ some h
      → p.current_output_offset < u64_mod
      → p.chunks_processed < u32_mod
      → at ≡ p.current_output_offset
      → left < u32_mod
      → 0 < taken
      → taken ≤ size
      → Ensures (IsRound at size) (write_extra h p extra left taken)
  unfolding write_extra after_raw_header check_complete
  write_extra-IsRound p extra left taken ph po pc e fits pos le =
      let written = min (length extra % u32_mod) left in
      rw (in_range_ok written extra (omega arith)) (ground (arith, length-take written extra))

  on_raw-IsRound :
      (p : SparseParser) (chunk : SparseChunk) (n taken : ℕ)
      → p.header ≡ some h
      → p.current_output_offset < u64_mod
      → p.chunks_processed < u32_mod
      → at ≡ p.current_output_offset
      → n ≤ length p.buffer
      → 0 < taken
      → taken ≤ size
      → Ensures (IsRound at size) (on_raw h p chunk n taken)
  unfolding on_raw
  on_raw-IsRound p chunk n taken ph po pc e within pos le =
      elim (Bool-cases (ltb u32_max chunk.data_size)) [
        | inl more ↦ rw more tt
        | inr fits ↦
            rw (fits, in_range_ok n p.buffer within)
              (write_extra-IsRound p (drop n p.buffer) (chunk.data_size % u32_mod) taken ph po pc e
                (omega arith) pos le)
      ]

  after_chunk-IsRound :
      (p : SparseParser) (n : ℕ) (cs : List WriteCommand) (taken : ℕ)
      → p.header ≡ some h
      → p.state ≡ waiting_chunk_header
      → p.current_output_offset < u64_mod
      → p.chunks_processed < u32_mod
      → length p.buffer ≤ 16
      → 12 ≤ n
      → n ≤ length p.buffer
      → position at cs ≡ p.current_output_offset
      → 0 < taken
      → taken ≤ size
      → Ensures (IsRound at size) (after_chunk h p n cs taken)
  unfolding after_chunk
  after_chunk-IsRound p n cs taken ph ps po pc pb ln within c pos le =
      let still : is_raw_data p.state ≡ false = ap is_raw_data ps in
      let q = record p { state = waiting_chunk_header; buffer = drop n p.buffer } in
      let v : IsValid q = record {
        offset_fits = po;
        chunks_fit = pc;
        state_inv = (h, ph, omega (arith, length-drop n p.buffer));
      } in
      rw (still, in_range_ok n p.buffer within)
        (check_complete-IsRound (record p { buffer = drop n p.buffer }) q cs taken ph po pc v refl c
          pos le)

  on_chunk-IsRound :
      (p : SparseParser) (chunk : SparseChunk) (t : ChunkType) (n taken : ℕ)
      → p.header ≡ some h
      → p.state ≡ waiting_chunk_header
      → p.current_output_offset < u64_mod
      → p.chunks_processed < u32_mod
      → at ≡ p.current_output_offset
      → length p.buffer ≤ 16
      → 12 ≤ n
      → n ≤ length p.buffer
      → 0 < taken
      → taken ≤ size
      → Ensures (IsRound at size) (on_chunk h p chunk t n taken)
  unfolding on_chunk
  on_chunk-IsRound p chunk raw n taken ph ps po pc e pb ln within pos le =
      on_raw-IsRound p chunk n taken ph po pc e within pos le
  on_chunk-IsRound p chunk (fill pattern) n taken ph ps po pc e pb ln within pos le =
      let bytes = output_size chunk h.block_size in
      after_chunk-IsRound (count_chunk (move_by bytes p)) n (fill_with pattern bytes ∷ []) taken ph
        ps (omega arith) (omega arith) pb ln within (rw e) pos le
  on_chunk-IsRound p chunk dont_care n taken ph ps po pc e pb ln within pos le =
      let q = move_by (output_size chunk h.block_size) p in
      after_chunk-IsRound (count_chunk q) n (seek q.current_output_offset ∷ []) taken ph ps
        (omega arith) (omega arith) pb ln within refl pos le

  -- the break at `UnexpectedEof` is at the end of the input: a header of 16 bytes is long enough
  pub on_chunk_header-IsRound :
      (p : SparseParser) (taken : ℕ) (r : Result (SparseChunk × ℕ))
      → r ≡ parse_chunk_header p.buffer h.block_size
      → p.header ≡ some h
      → p.state ≡ waiting_chunk_header
      → p.current_output_offset < u64_mod
      → p.chunks_processed < u32_mod
      → at ≡ p.current_output_offset
      → length p.buffer ≤ 16
      → (length p.buffer < 16 → taken ≡ size)
      → 0 < taken
      → taken ≤ size
      → Ensures (IsRound at size) (on_chunk_header h p taken r)
  unfolding on_chunk_header
  on_chunk_header-IsRound p taken (ok (chunk, n)) r ph ps po pc e pb more pos le =
      let c = parse_chunk_header-ChunkOf p.buffer h.block_size (sym r) in
      on_chunk-IsRound p chunk chunk.chunk_type n taken ph ps po pc e pb (header_bytes-ge c)
        c.within pos le
  on_chunk_header-IsRound p taken (err unexpected_eof) r ph ps po pc e pb more pos le =
      let short = parse_chunk_header_eof p.buffer h.block_size (sym r) in
      record {
        valid = record { offset_fits = po; chunks_fit = pc; state_inv = rw ps (h, ph, short) };
        taken_le = le;
        progress = λ x. cc;
        at_end = λ x. inl (more short);
        offset_is = e;
      }
  on_chunk_header-IsRound p taken panic r ph ps po pc e pb more pos le =
      (parse_chunk_header_returns p.buffer h.block_size).0 (sym r)
  on_chunk_header-IsRound p taken out_of_fuel r ph ps po pc e pb more pos le =
      (parse_chunk_header_returns p.buffer h.block_size).1 (sym r)
  on_chunk_header-IsRound p taken (err _) r ph ps po pc e pb more pos le = tt
