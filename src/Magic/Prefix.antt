-- ===== src/Magic/Prefix.antt =====
-- How many bytes src/fls/magic_bytes.rs needs.
use fls.Base.{ℕ, zero, suc, ◌≤◌, ◌≡◌, refl, [], ◌∷◌, arith, length, take, Bytes}
use fls.Magic.{gzip_magic, xz_magic, zstd_magic, begins_with, detect_compression}

begins_with-take :
    (magic bytes : Bytes) (n : ℕ)
    → length magic ≤ n
    → begins_with magic (take n bytes) ≡ begins_with magic bytes
begins_with-take [] bytes n le = refl
begins_with-take (m ∷ magic) bytes zero le = absurd (omega arith)
begins_with-take (m ∷ magic) [] (suc n) le = refl
begins_with-take (m ∷ magic) (b ∷ bytes) (suc n) le =
    rw (begins_with-take magic bytes n (omega arith)) refl

-- The compression of data is told from its first six bytes, however few there are.
pub detect_compression-take :
    (bytes : Bytes) (n : ℕ) → 6 ≤ n → detect_compression (take n bytes) ≡ detect_compression bytes
unfolding detect_compression
detect_compression-take bytes n le =
    rw
      (
        begins_with-take gzip_magic bytes n (omega arith),
        begins_with-take xz_magic bytes n (omega arith),
        begins_with-take zstd_magic bytes n (omega arith),
      )
      refl
