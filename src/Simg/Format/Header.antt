-- ===== src/Simg/Format/Header.antt =====
-- `parse_header` of src/fls/simg.rs against the layout of the 28 bytes.
use native.Mathlib.Nat.{mul-le-mul}
use fls.Base.{
  ℕ, ◌+◌, ◌<◌, ◌≤◌, ◌≡◌, ◌≢◌, refl, ap, ◌↔◌, ◌∷◌, ◌++◌, arith, length, Bytes, u16_mod, u32_mod, ltb,
  false, get_or-append, length-append, u32_max, u64_mod, ◌*◌, u16_to_le_bytes, u32_to_le_bytes,
  u32_le_roundtrip, u16_from_le_bytes, u32_from_le_bytes, drop, ◌∙◌, AreBytes, get_or-lt,
}
use fls.Simg.Format.{
  SparseHeader, image_size, parse_header, ok, panic, out_of_fuel, sparse_header_magic,
  sparse_header_size, chunk_header_size, u16_at, u32_at, byte_at,
}

-- The bytes of a header, as the tests of the source build them; any minor version is accepted.
abbrev pub make_header : ℕ → SparseHeader → Bytes
make_header minor h =
    u32_to_le_bytes sparse_header_magic
    ++ (u16_to_le_bytes 1
        ++ (u16_to_le_bytes minor
            ++ (u16_to_le_bytes sparse_header_size
                ++ (u16_to_le_bytes chunk_header_size
                    ++ (u32_to_le_bytes h.block_size
                        ++ (u32_to_le_bytes h.total_blocks
                            ++ (u32_to_le_bytes h.total_chunks
                                ++ u32_to_le_bytes h.image_checksum)))))))

-- Each field is a u32.
pub record HeaderFits (h : SparseHeader) : Type 0 where
  pub block_size_fits : h.block_size < u32_mod
  pub total_blocks_fits : h.total_blocks < u32_mod
  pub total_chunks_fits : h.total_chunks < u32_mod
  pub image_checksum_fits : h.image_checksum < u32_mod

-- the product of two u32 is a u64
pub image_size-lt : (h : SparseHeader) → HeaderFits h → image_size h < u64_mod
image_size-lt h f =
    let bound : image_size h ≤ u32_max * u32_max =
      mul-le-mul {n₂ = u32_max} {m₂ = u32_max} (omega (arith, f.total_blocks_fits))
        (omega (arith, f.block_size_fits)) in
    omega (arith, bound)

-- a header that fits is read back from its bytes, whatever follows
pub parse_header-make_header :
    (minor : ℕ) (h : SparseHeader) (rest : Bytes)
    → HeaderFits h
    → parse_header (make_header minor h ++ rest) ≡ ok h
unfolding parse_header
parse_header-make_header minor h rest f = ground (
  arith,
  u32_le_roundtrip h.block_size,
  u32_le_roundtrip h.total_blocks,
  u32_le_roundtrip h.total_chunks,
  u32_le_roundtrip h.image_checksum,
)

-- a lemma for each word of the header
u32_bytes :
    (a b c d n : ℕ) (t : Bytes)
    → a < 256
    → b < 256
    → c < 256
    → d < 256
    → u32_from_le_bytes a b c d ≡ n
    → a ∷ b ∷ c ∷ d ∷ t ≡ u32_to_le_bytes n ++ t
u32_bytes a b c d n t ha hb hc hd e = ground arith

u16_bytes :
    (a b n : ℕ) (t : Bytes)
    → a < 256
    → b < 256
    → u16_from_le_bytes a b ≡ n
    → a ∷ b ∷ t ≡ u16_to_le_bytes n ++ t
u16_bytes a b n t ha hb e = ground arith

-- What acceptance says of the bytes.
record ParsedAs (d : Bytes) (h : SparseHeader) : Type 0 where
  long : sparse_header_size ≤ length d
  magic : u32_at d 0 ≡ sparse_header_magic
  major : u16_at d 4 ≡ 1
  file_hdr_sz : u16_at d 8 ≡ sparse_header_size
  chunk_hdr_sz : u16_at d 10 ≡ chunk_header_size
  block_size : u32_at d 12 ≡ h.block_size
  total_blocks : u32_at d 16 ≡ h.total_blocks
  total_chunks : u32_at d 20 ≡ h.total_chunks
  image_checksum : u32_at d 24 ≡ h.image_checksum

parse_header-ParsedAs : (d : Bytes) (h : SparseHeader) → parse_header d ≡ ok h → ParsedAs d h
unfolding parse_header
parse_header-ParsedAs d h e = ground arith

ParsedAs-make_header :
    (d : Bytes) (h : SparseHeader)
    → AreBytes d
    → ParsedAs d h
    → d ≡ make_header (u16_at d 6) h ++ drop sparse_header_size d
ParsedAs-make_header
      (d0 ∷ d1 ∷ d2 ∷ d3 ∷ d4 ∷ d5 ∷ d6 ∷ d7 ∷ d8 ∷ d9 ∷ d10 ∷ d11 ∷ d12 ∷ d13 ∷ d14 ∷ d15 ∷ d16
        ∷ d17 ∷ d18 ∷ d19 ∷ d20 ∷ d21 ∷ d22 ∷ d23 ∷ d24 ∷ d25 ∷ d26 ∷ d27 ∷ rest)
      h b p =
    u32_bytes d0 d1 d2 d3 sparse_header_magic _ (omega arith) (omega arith) (omega arith)
      (omega arith) p.magic
    ∙ ap (λ t. u32_to_le_bytes sparse_header_magic ++ t)
        (u16_bytes d4 d5 1 _ (omega arith) (omega arith) p.major
          ∙ ap (λ t. u16_to_le_bytes 1 ++ t)
              (u16_bytes d6 d7 (u16_from_le_bytes d6 d7) _ (omega arith) (omega arith) refl
                ∙ ap (λ t. u16_to_le_bytes (u16_from_le_bytes d6 d7) ++ t)
                    (u16_bytes d8 d9 sparse_header_size _ (omega arith) (omega arith) p.file_hdr_sz
                      ∙ ap (λ t. u16_to_le_bytes sparse_header_size ++ t)
                          (u16_bytes d10 d11 chunk_header_size _ (omega arith) (omega arith)
                              p.chunk_hdr_sz
                            ∙ ap (λ t. u16_to_le_bytes chunk_header_size ++ t)
                                (u32_bytes d12 d13 d14 d15 h.block_size _ (omega arith)
                                    (omega arith) (omega arith) (omega arith) p.block_size
                                  ∙ ap (λ t. u32_to_le_bytes h.block_size ++ t)
                                      (u32_bytes d16 d17 d18 d19 h.total_blocks _ (omega arith)
                                          (omega arith) (omega arith) (omega arith) p.total_blocks
                                        ∙ ap (λ t. u32_to_le_bytes h.total_blocks ++ t)
                                            (u32_bytes d20 d21 d22 d23 h.total_chunks _
                                                (omega arith) (omega arith) (omega arith)
                                                (omega arith) p.total_chunks
                                              ∙ ap (λ t. u32_to_le_bytes h.total_chunks ++ t)
                                                  (u32_bytes d24 d25 d26 d27 h.image_checksum _
                                                    (omega arith) (omega arith) (omega arith)
                                                    (omega arith) p.image_checksum))))))))
ParsedAs-make_header _ h b p = absurd (omega (arith, p.long))

u32_at-lt : (d : Bytes) (i : ℕ) → AreBytes d → u32_at d i < u32_mod
u32_at-lt d i b =
    omega
      (arith, get_or-lt d i b, get_or-lt d (i + 1) b, get_or-lt d (i + 2) b, get_or-lt d (i + 3) b)

ParsedAs-HeaderFits : (d : Bytes) (h : SparseHeader) → AreBytes d → ParsedAs d h → HeaderFits h
ParsedAs-HeaderFits d h b p = record {
  block_size_fits = rw (← p.block_size) (u32_at-lt d 12 b);
  total_blocks_fits = rw (← p.total_blocks) (u32_at-lt d 16 b);
  total_chunks_fits = rw (← p.total_chunks) (u32_at-lt d 20 b);
  image_checksum_fits = rw (← p.image_checksum) (u32_at-lt d 24 b);
}

pub parse_header_returns : (d : Bytes) → (parse_header d ≢ panic) × (parse_header d ≢ out_of_fuel)
unfolding parse_header
parse_header_returns d = (λ e. ground arith, λ e. ground arith)

-- only the first 28 bytes are looked at
pub parse_header-append :
    (d r : Bytes) → sparse_header_size ≤ length d → parse_header (d ++ r) ≡ parse_header d
unfolding parse_header
parse_header-append d r long =
    let same : (i : ℕ) → i < 28 → byte_at (d ++ r) i ≡ byte_at d i =
      λ i h. get_or-append d r i 0 (omega arith) in
    let enough : ltb (length d) 28 ≡ false = ground arith in
    let enough' : ltb (length (d ++ r)) 28 ≡ false = ground (arith, length-append d r) in
    simp (
      enough,
      enough',
      same 0 (omega arith),
      same 1 (omega arith),
      same 2 (omega arith),
      same 3 (omega arith),
      same 4 (omega arith),
      same 5 (omega arith),
      same 6 (omega arith),
      same 7 (omega arith),
      same 8 (omega arith),
      same 9 (omega arith),
      same 10 (omega arith),
      same 11 (omega arith),
      same 12 (omega arith),
      same 13 (omega arith),
      same 14 (omega arith),
      same 15 (omega arith),
      same 16 (omega arith),
      same 17 (omega arith),
      same 18 (omega arith),
      same 19 (omega arith),
      same 20 (omega arith),
      same 21 (omega arith),
      same 22 (omega arith),
      same 23 (omega arith),
      same 24 (omega arith),
      same 25 (omega arith),
      same 26 (omega arith),
      same 27 (omega arith),
    )

-- A header is accepted exactly when the slice begins with the 28 bytes of a header: the magic, major
-- version 1, any minor version, the sizes 28 and 12, and the four fields that are returned, each a
-- u32 in little-endian order. What follows the 28 bytes does not matter.
pub parse_header_exact :
    (d : Bytes) (h : SparseHeader)
    → AreBytes d
    → (parse_header d ≡ ok h) ↔ (
        (minor : ℕ) × (rest : Bytes) × (minor < u16_mod)
        × HeaderFits h
        × (d ≡ make_header minor h ++ rest))
parse_header_exact d h b = (
  (λ e.
      let p = parse_header-ParsedAs d h e in
      (
        u16_at d 6,
        drop sparse_header_size d,
        omega (arith, get_or-lt d 6 b, get_or-lt d 7 b),
        ParsedAs-HeaderFits d h b p,
        ParsedAs-make_header d h b p,
      )),
  λ (minor, rest, _, fits, e). rw e (parse_header-make_header minor h rest fits),
)
