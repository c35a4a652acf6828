-- ===== src/Magic/Tests.antt =====
-- Runs of the models of src/fls/magic_bytes.rs.
use fls.Base.{◌≡◌, refl, [], ◌∷◌, ◌++◌, none, true, Bytes, ℕ, zero, suc}
use fls.Magic.{
  detect_compression, gzip, xz, zstd, no_compression, is_tar_archive, tar_magic, content,
  tar_archive, raw_disk_image, insufficient, detect_content_and_compression,
}

abbrev zeros : ℕ → Bytes
zeros zero = []
zeros (suc n) = 0 ∷ zeros n

abbrev tar_bytes : Bytes
tar_bytes = zeros 257 ++ tar_magic

told_kinds :
    (detect_compression (31 ∷ 139 ∷ 8 ∷ []) ≡ gzip)
    × (detect_compression (253 ∷ 55 ∷ 122 ∷ 88 ∷ 90 ∷ 0 ∷ []) ≡ xz)
    × (detect_compression (40 ∷ 181 ∷ 47 ∷ 253 ∷ []) ≡ zstd)
    × (detect_compression (0 ∷ 1 ∷ 2 ∷ 3 ∷ []) ≡ no_compression)
unfolding detect_compression
told_kinds = (refl, refl, refl, refl)

tar_told : is_tar_archive tar_bytes ≡ true
unfolding is_tar_archive
tar_told = refl

contents_told :
    (detect_content_and_compression (λ b. none) (λ b. none) tar_bytes
      ≡ content tar_archive no_compression)
    × (detect_content_and_compression (λ b. none) (λ b. none) (zeros 16)
        ≡ content raw_disk_image no_compression)
    × (detect_content_and_compression (λ b. none) (λ b. none) (zeros 15) ≡ insufficient)
unfolding detect_content_and_compression
contents_told = (refl, refl, refl)
