-- ===== src/Simg/Format/Chunk.antt =====
-- `parse_chunk_header` of src/fls/simg.rs: round trip, and what a result says of the bytes.
use fls.Base.{
  ℕ, ◌+◌, ◌*◌, ◌<◌, ◌≤◌, ◌≡◌, ◌≢◌, ◌++◌, [], ◌∷◌, arith, length, Bytes, u32_mod, u16_to_le_bytes,
  u32_to_le_bytes, u32_le_roundtrip,
}
use fls.Simg.Format.{
  ChunkType, raw, fill, dont_care, SparseChunk, parse_chunk_header, ok, err, panic, out_of_fuel,
  unexpected_eof, chunk_type_raw, chunk_type_fill, chunk_type_dont_care, u32_at,
}

-- The type word, the bytes of data behind the header, and the length of the header.
abbrev pub type_word : ChunkType → ℕ
type_word raw = chunk_type_raw
type_word (fill _) = chunk_type_fill
type_word dont_care = chunk_type_dont_care

abbrev pub data_bytes : ChunkType → ℕ → ℕ → ℕ
data_bytes raw blocks block_size = blocks * block_size
data_bytes _ _ _ = 0

abbrev pub header_bytes : ChunkType → ℕ
header_bytes (fill _) = 16
header_bytes _ = 12

abbrev pub pattern_bytes : ChunkType → Bytes
pattern_bytes (fill p) = p.0 ∷ p.1 ∷ p.2 ∷ p.3 ∷ []
pattern_bytes _ = []

-- A chunk's header, with any reserved word.
abbrev pub make_chunk_header : ℕ → ChunkType → ℕ → ℕ → Bytes
make_chunk_header reserved t blocks block_size =
    u16_to_le_bytes (type_word t)
    ++ (u16_to_le_bytes reserved
        ++ (u32_to_le_bytes blocks
            ++ (u32_to_le_bytes (header_bytes t + data_bytes t blocks block_size)
                ++ pattern_bytes t)))

abbrev pub chunk_of : ChunkType → ℕ → ℕ → SparseChunk
chunk_of t blocks block_size = record {
  chunk_type = t;
  output_blocks = blocks;
  data_size = data_bytes t blocks block_size;
}

-- The header of a chunk of `blocks` blocks is read back from its bytes, whatever follows it, if
-- the two sizes that it holds are u32.
pub parse_chunk_header-make_chunk_header :
    (reserved : ℕ) (t : ChunkType) (blocks block_size : ℕ) (rest : Bytes)
    → blocks < u32_mod
    → header_bytes t + data_bytes t blocks block_size < u32_mod
    → parse_chunk_header (make_chunk_header reserved t blocks block_size ++ rest) block_size
      ≡ ok (chunk_of t blocks block_size, header_bytes t)
unfolding parse_chunk_header
parse_chunk_header-make_chunk_header reserved raw blocks bs rest hb ht =
    ground (arith, u32_le_roundtrip blocks, u32_le_roundtrip (12 + blocks * bs))
parse_chunk_header-make_chunk_header reserved (fill p) blocks bs rest hb ht =
    ground (arith, u32_le_roundtrip blocks)
parse_chunk_header-make_chunk_header reserved dont_care blocks bs rest hb ht =
    ground (arith, u32_le_roundtrip blocks)

pub record ChunkOf (d : Bytes) (block_size : ℕ) (c : SparseChunk) (n : ℕ) : Type 0 where
  pub within : n ≤ length d
  pub is_chunk : c ≡ chunk_of c.chunk_type (u32_at d 4) block_size
  pub header_is : n ≡ header_bytes c.chunk_type
  pub total : u32_at d 8 ≡ n + c.data_size
  pub fits : n + c.data_size < u32_mod

-- Whatever slice a chunk header is parsed from, the header lies in it, the word at 8 is the size of
-- header and data together and a u32, and only RAW chunks have data, as much as they have output.
pub parse_chunk_header-ChunkOf :
    (d : Bytes) (block_size : ℕ) {c : SparseChunk} {n : ℕ}
    → parse_chunk_header d block_size ≡ ok (c, n)
    → ChunkOf d block_size c n
unfolding parse_chunk_header
parse_chunk_header-ChunkOf d block_size e = ground arith

pub parse_chunk_header_eof :
    (d : Bytes) (block_size : ℕ)
    → parse_chunk_header d block_size ≡ err unexpected_eof
    → length d < 16
unfolding parse_chunk_header
parse_chunk_header_eof d block_size e = ground arith

pub parse_chunk_header_returns :
    (d : Bytes) (block_size : ℕ)
    → (parse_chunk_header d block_size ≢ panic) × (parse_chunk_header d block_size ≢ out_of_fuel)
unfolding parse_chunk_header
parse_chunk_header_returns d block_size = (λ e. ground arith, λ e. ground arith)
