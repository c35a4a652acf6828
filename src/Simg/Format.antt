-- ===== src/Simg/Format.antt =====
-- src/fls/simg.rs: the constants, `SparseHeader`, `ChunkType`, `SparseChunk`, `SparseError`,
-- `parse_header` and `parse_chunk_header`. An index `data[i]` is a lookup with default 0, and `in_range`
-- before the lookups panics where the slice is too short for them.
pub mod Header
pub mod Chunk
use fls.Base.{
  arith, ◌≤◌, ◌≡◌, refl, ℕ, ◌+◌, ◌*◌, Bool, true, false, not, ltb, ◌==◌, if◌then◌else◌, length,
  get_or, Option, none, some, Bytes, u16_from_le_bytes, u32_from_le_bytes, u32_max, u64_mod,
}

abbrev pub sparse_header_magic : ℕ
sparse_header_magic = 0xED26FF3A

abbrev pub sparse_header_size : ℕ
sparse_header_size = 28

abbrev pub chunk_header_size : ℕ
chunk_header_size = 12

abbrev pub chunk_type_raw : ℕ
chunk_type_raw = 0xCAC1

abbrev pub chunk_type_fill : ℕ
chunk_type_fill = 0xCAC2

abbrev pub chunk_type_dont_care : ℕ
chunk_type_dont_care = 0xCAC3

pub record SparseHeader : Type 0 where
  pub block_size : ℕ
  pub total_blocks : ℕ
  pub total_chunks : ℕ
  pub image_checksum : ℕ

-- A product of two u32 fits in a u64, so it does not wrap.
abbrev pub image_size : SparseHeader → ℕ
image_size h = h.total_blocks * h.block_size

-- `[u8; 4]`
abbrev pub Pattern : Type 0
Pattern = ℕ × ℕ × ℕ × ℕ

pub data ChunkType : Type 0 where
  raw : ChunkType
  fill : Pattern → ChunkType
  dont_care : ChunkType

pub record SparseChunk : Type 0 where
  pub chunk_type : ChunkType
  pub output_blocks : ℕ
  pub data_size : ℕ

abbrev pub output_size : SparseChunk → ℕ → ℕ
output_size c block_size = c.output_blocks * block_size

-- `Io` is not here: no function of this file builds it.
pub data SparseError : Type 0 where
  invalid_magic : ℕ → SparseError
  unsupported_version : ℕ → ℕ → SparseError
  invalid_header_size : ℕ → SparseError
  invalid_chunk_header_size : ℕ → SparseError
  unknown_chunk_type : ℕ → SparseError
  chunk_size_mismatch : ℕ → ℕ → SparseError
  unexpected_eof : SparseError
  chunk_size_overflow : ℕ → ℕ → SparseError
  output_size_mismatch : ℕ → ℕ → SparseError

-- `panic` is an `unwrap` of `None` or an index out of range; `out_of_fuel` is a loop that is cut off
-- by the model.
pub data Result {ℓ} (A : Type ℓ) : Type ℓ where
  ok : A → Result A
  err : SparseError → Result A
  panic : Result A
  out_of_fuel : Result A

infixl 5 ◌>>=◌ ◌>>◌
abbrev pub ◌>>=◌ {ℓ κ} : {A : Type ℓ} {B : Type κ} → Result A → (A → Result B) → Result B
ok a >>= f = f a
err e >>= f = err e
panic >>= f = panic
out_of_fuel >>= f = out_of_fuel

abbrev pub ◌>>◌ {ℓ} : {B : Type ℓ} → Result (Unit {0}) → Result B → Result B
m >> k = m >>= λ _. k

-- `if test { return Err(e) }`
abbrev pub reject_if : Bool → SparseError → Result (Unit {0})
reject_if true e = err e
reject_if false e = ok tt

-- A slice has the first `n` places: an index below `n`, `[..n]`, `[n..]` and `drain(..n)` panic where
-- it has not.
abbrev pub in_range : ℕ → Bytes → Result (Unit {0})
in_range n d = if ltb (length d) n then panic else ok tt

pub in_range_ok : (n : ℕ) (d : Bytes) → n ≤ length d → in_range n d ≡ ok tt
in_range_ok n d h = let e : ltb (length d) n ≡ false = ground arith in rw e refl

abbrev pub byte_at : Bytes → ℕ → ℕ
byte_at d i = get_or d i 0

abbrev pub u16_at : Bytes → ℕ → ℕ
u16_at d i = u16_from_le_bytes (byte_at d i) (byte_at d (i + 1))

abbrev pub u32_at : Bytes → ℕ → ℕ
u32_at d i =
    u32_from_le_bytes (byte_at d i) (byte_at d (i + 1)) (byte_at d (i + 2)) (byte_at d (i + 3))

unfoldable pub parse_header : Bytes → Result SparseHeader
parse_header d = do
  reject_if (ltb (length d) sparse_header_size) unexpected_eof
  in_range 28 d
  reject_if (not (u32_at d 0 == sparse_header_magic)) (invalid_magic (u32_at d 0))
  reject_if (not (u16_at d 4 == 1)) (unsupported_version (u16_at d 4) (u16_at d 6))
  reject_if (not (u16_at d 8 == sparse_header_size)) (invalid_header_size (u16_at d 8))
  reject_if (not (u16_at d 10 == chunk_header_size)) (invalid_chunk_header_size (u16_at d 10))
  ok (record {
    block_size = u32_at d 12;
    total_blocks = u32_at d 16;
    total_chunks = u32_at d 20;
    image_checksum = u32_at d 24;
  })

-- `u64::checked_mul`
abbrev checked_mul : ℕ → ℕ → Option ℕ
checked_mul a b = if ltb (a * b) u64_mod then some (a * b) else none

abbrev ok_or {ℓ} : {A : Type ℓ} → Option A → SparseError → Result A
ok_or none e = err e
ok_or (some a) e = ok a

-- The closure `check_size`.
abbrev check_size : ℕ → ℕ → Result (Unit {0})
check_size total_sz expected =
    reject_if (not (total_sz == expected)) (chunk_size_mismatch expected total_sz)

-- The arm of the match for RAW chunks.
raw_chunk : ℕ → ℕ → ℕ → Result (SparseChunk × ℕ)
raw_chunk chunk_sz total_sz block_size = do
  data_size ← ok_or (checked_mul chunk_sz block_size) (chunk_size_overflow chunk_sz block_size)
  reject_if (ltb u32_max (chunk_header_size + data_size)) (chunk_size_overflow chunk_sz block_size)
  check_size total_sz (chunk_header_size + data_size)
  ok (
    record { chunk_type = raw; output_blocks = chunk_sz; data_size = data_size },
    chunk_header_size,
  )

-- The arm for FILL chunks, with the closure `check_data_len`.
fill_chunk : Bytes → ℕ → ℕ → Result (SparseChunk × ℕ)
fill_chunk d chunk_sz total_sz = do
  check_size total_sz 16
  reject_if (ltb (length d) 16) unexpected_eof
  in_range 16 d
  ok (
    record {
      chunk_type = fill (byte_at d 12, byte_at d 13, byte_at d 14, byte_at d 15);
      output_blocks = chunk_sz;
      data_size = 0;
    },
    16,
  )

-- The arm for DONT_CARE chunks.
dont_care_chunk : ℕ → ℕ → Result (SparseChunk × ℕ)
dont_care_chunk chunk_sz total_sz = do
  check_size total_sz 12
  ok (record { chunk_type = dont_care; output_blocks = chunk_sz; data_size = 0 }, chunk_header_size)

-- The chunk, and the number of bytes that its header takes.
unfoldable pub parse_chunk_header : Bytes → ℕ → Result (SparseChunk × ℕ)
unfolding raw_chunk fill_chunk dont_care_chunk
parse_chunk_header d block_size = do
  reject_if (ltb (length d) chunk_header_size) unexpected_eof
  in_range 12 d
  let kind = u16_at d 0
  let chunk_sz = u32_at d 4
  let total_sz = u32_at d 8
  if kind == chunk_type_raw
      then raw_chunk chunk_sz total_sz block_size
      else if kind == chunk_type_fill
      then fill_chunk d chunk_sz total_sz
      else if kind == chunk_type_dont_care
      then dont_care_chunk chunk_sz total_sz
      else err (unknown_chunk_type kind)
