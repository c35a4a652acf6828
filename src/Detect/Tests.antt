-- ===== src/Detect/Tests.antt =====
-- Runs of the detector of src/fls/format_detector.rs.
use fls.Base.{◌≡◌, refl, [], ◌∷◌, ◌++◌, Bytes, wrapping_sub, arith, take, drop}
use fls.Simg.Format.{SparseHeader, unsupported_version, parse_header}
use fls.Simg.Format.Header.{make_header}
use fls.Detect.{
  FormatDetector, new, corrupted, attempt_on, attempt_detection_with_consumed, process,
}
use fls.Detect.Exact.{IsWaiting, Decides, process_enough}

abbrev some_header : SparseHeader
some_header = record { block_size = 4; total_blocks = 1; total_chunks = 1; image_checksum = 0 }

abbrev waiting : FormatDetector
waiting = record new { buffer = take 10 (make_header 0 some_header) }

waiting-IsWaiting : IsWaiting waiting
waiting-IsWaiting = record { not_complete = refl; few = omega arith }

process_enough_example :
    Decides waiting
      (drop 10 (make_header 0 some_header) ++ 5 ∷ [])
      waiting-IsWaiting
      (make_header 0 some_header ++ 5 ∷ [])
      (process waiting (drop 10 (make_header 0 some_header) ++ 5 ∷ []))
process_enough_example =
    process_enough waiting (drop 10 (make_header 0 some_header) ++ 5 ∷ []) waiting-IsWaiting
      (omega arith)

-- a header of major version 2, in one piece
abbrev wrong_version : Bytes
wrong_version = take 4 (make_header 0 some_header) ++ 2 ∷ drop 5 (make_header 0 some_header)

wrong_version-corrupted : (process new wrong_version).1 ≡ corrupted (unsupported_version 2 0)
unfolding process attempt_detection_with_consumed attempt_on parse_header wrapping_sub
wrong_version-corrupted = refl
