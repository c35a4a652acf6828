-- ===== src/Simg/Image.antt =====
-- What a sparse image is, independently of the parser of src/fls/simg.rs: a header and chunks, the
-- bytes that hold them, and what they ask a writer to do.
pub mod Follows
pub mod Pieces
pub mod Stream
use fls.Base.{ℕ, ◌+◌, ◌*◌, ◌<◌, ◌≤◌, ◌≡◌, List, [], ◌∷◌, ◌++◌, map, arith, length, Bytes, u32_mod}
use fls.Simg.Format.{SparseHeader, image_size, Pattern, ChunkType, raw, fill, dont_care}
use fls.Simg.Format.Header.{make_header, HeaderFits}
use fls.Simg.Format.Chunk.{make_chunk_header}
use fls.Simg.Parser.{WriteCommand, seek, write, fill_with, completed}

-- Each with its reserved word and its number of blocks.
pub data ImageChunk : Type 0 where
  data_chunk : ℕ → ℕ → Bytes → ImageChunk
  fill_chunk : ℕ → ℕ → Pattern → ImageChunk
  skip_chunk : ℕ → ℕ → ImageChunk

abbrev pub encode_chunk : ℕ → ImageChunk → Bytes
encode_chunk block_size (data_chunk reserved blocks d) =
    make_chunk_header reserved raw blocks block_size ++ d
encode_chunk block_size (fill_chunk reserved blocks pattern) =
    make_chunk_header reserved (fill pattern) blocks block_size
encode_chunk block_size (skip_chunk reserved blocks) =
    make_chunk_header reserved dont_care blocks block_size

abbrev pub encode_chunks : ℕ → List ImageChunk → Bytes
encode_chunks block_size [] = []
encode_chunks block_size (c ∷ cs) = encode_chunk block_size c ++ encode_chunks block_size cs

abbrev pub blocks_of : ImageChunk → ℕ
blocks_of (data_chunk _ blocks _) = blocks
blocks_of (fill_chunk _ blocks _) = blocks
blocks_of (skip_chunk _ blocks) = blocks

-- The length of its header.
abbrev pub header_length : ImageChunk → ℕ
header_length (fill_chunk _ _ _) = 16
header_length _ = 12

pub header_length_bounds : (c : ImageChunk) → (12 ≤ header_length c) × (header_length c ≤ 16)
header_length_bounds (data_chunk _ _ _) = omega arith
header_length_bounds (fill_chunk _ _ _) = omega arith
header_length_bounds (skip_chunk _ _) = omega arith

abbrev pub output_of : ℕ → List ImageChunk → ℕ
output_of block_size [] = 0
output_of block_size (c ∷ cs) = blocks_of c * block_size + output_of block_size cs

-- The fields are u32, and the data of a RAW chunk fills its blocks. A RAW chunk of fewer than four
-- bytes is left out: the parser may take bytes of the next chunk for it.
abbrev pub ChunkFits : ℕ → ImageChunk → Type 0
ChunkFits block_size (data_chunk reserved blocks d) =
    (blocks < u32_mod)
    × (length d ≡ blocks * block_size)
    × (12 + length d < u32_mod)
    × (4 ≤ length d)
ChunkFits block_size (fill_chunk reserved blocks pattern) = blocks < u32_mod
ChunkFits block_size (skip_chunk reserved blocks) = blocks < u32_mod

abbrev pub ChunksFit : ℕ → List ImageChunk → Type 0
ChunksFit block_size [] = Unit
ChunksFit block_size (c ∷ cs) = ChunkFits block_size c × ChunksFit block_size cs

pub record Image : Type 0 where
  pub minor : ℕ
  pub header : SparseHeader
  pub chunks : List ImageChunk

abbrev pub encode : Image → Bytes
encode i = make_header i.minor i.header ++ encode_chunks i.header.block_size i.chunks

pub record IsImage (i : Image) : Type 0 where
  pub header_fits : HeaderFits i.header
  pub chunks_fit : ChunksFit i.header.block_size i.chunks
  pub count_is : length i.chunks ≡ i.header.total_chunks
  pub some_chunk : 0 < length i.chunks
  pub size_is : output_of i.header.block_size i.chunks ≡ image_size i.header

-- What a writer is asked to do, with written data byte by byte: how `Write` commands cut the data
-- is forgotten.
pub data Event : Type 0 where
  put : ℕ → Event
  put_fill : Pattern → ℕ → Event
  go_to : ℕ → Event
  finished : ℕ → Event

abbrev pub events : List WriteCommand → List Event
events [] = []
events (seek o ∷ cs) = go_to o ∷ events cs
events (write d ∷ cs) = map put d ++ events cs
events (fill_with p n ∷ cs) = put_fill p n ∷ events cs
events (completed n ∷ cs) = finished n ∷ events cs

-- What the chunks ask for, from an output offset: data is put, a fill is filled, a skip is a seek
-- to its end, and at the end of the last chunk the size is reported.
abbrev pub chunk_events : ℕ → ℕ → List ImageChunk → List Event
chunk_events block_size at [] = finished at ∷ []
chunk_events block_size at (data_chunk _ blocks d ∷ cs) =
    map put d ++ chunk_events block_size (at + blocks * block_size) cs
chunk_events block_size at (fill_chunk _ blocks pattern ∷ cs) =
    put_fill pattern (blocks * block_size) ∷ chunk_events block_size (at + blocks * block_size) cs
chunk_events block_size at (skip_chunk _ blocks ∷ cs) =
    go_to (at + blocks * block_size) ∷ chunk_events block_size (at + blocks * block_size) cs

abbrev pub image_events : Image → List Event
image_events i = chunk_events i.header.block_size 0 i.chunks
