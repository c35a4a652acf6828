-- ===== src/Detect.antt =====
-- src/fls/format_detector.rs: `FormatDetector` tells a sparse image from any other file by its first
-- bytes. The text of an error is left out; its cause is kept.
pub mod Exact
pub mod Tests
use fls.Base.{
  ℕ, ◌-◌, min, Bool, true, false, ◌||◌, List, [], ◌∷◌, ◌++◌, leb, if◌then◌else◌, length, take,
  Option, none, some, Bytes, wrapping_sub,
}
use fls.Simg.Format.{
  SparseHeader, SparseError, invalid_magic, Result, ok, err, panic, out_of_fuel, parse_header,
}

pub data FileFormat : Type 0 where
  sparse_image regular : FileFormat

-- `panicked` is the `expect` on a format that was never set.
pub data DetectionResult : Type 0 where
  need_more_data : DetectionResult
  detected : FileFormat → Bytes → ℕ → DetectionResult
  corrupted : SparseError → DetectionResult
  panicked : DetectionResult

pub record FormatDetector : Type 0 where
  pub buffer : Bytes
  pub detection_complete : Bool
  pub detected_format : Option FileFormat

abbrev pub detection_threshold : ℕ
detection_threshold = 28

abbrev pub max_buffer_size : ℕ
max_buffer_size = 64

abbrev pub new : FormatDetector
new = record { buffer = []; detection_complete = false; detected_format = none }

abbrev pub found : FormatDetector → FileFormat → FormatDetector
found d f = record d { detected_format = some f; detection_complete = true }

-- `attempt_detection_with_consumed`, on the result of `parse_header`
unfoldable pub attempt_on :
    Result SparseHeader → FormatDetector → ℕ → FormatDetector × DetectionResult
attempt_on (ok h) d n = (found d sparse_image, detected sparse_image d.buffer n)
attempt_on (err (invalid_magic m)) d n = (found d regular, detected regular d.buffer n)
attempt_on (err e) d n = (record d { detection_complete = true }, corrupted e)
attempt_on panic d n = (d, panicked)
attempt_on out_of_fuel d n = (d, panicked)

unfoldable pub attempt_detection_with_consumed :
    FormatDetector → ℕ → FormatDetector × DetectionResult
unfolding attempt_on
attempt_detection_with_consumed d n = attempt_on (parse_header d.buffer) d n

-- the cached result
unfoldable pub cached : Option FileFormat → DetectionResult
cached none = panicked
cached (some f) = detected f [] 0

unfoldable pub process : FormatDetector → Bytes → FormatDetector × DetectionResult
unfolding attempt_detection_with_consumed cached
process d input =
    if d.detection_complete
    then (d, cached d.detected_format)
    else (let n = min (length input) (wrapping_sub max_buffer_size (length d.buffer)) in
        let e = record d { buffer = d.buffer ++ take n input } in
        if leb detection_threshold (length e.buffer) || leb max_buffer_size (length e.buffer)
        then attempt_detection_with_consumed e n
        else (e, need_more_data))

-- `self.detection_complete || self.buffer.is_empty()`
abbrev pub nothing_buffered : FormatDetector → Bool
nothing_buffered d = d.detection_complete || leb (length d.buffer) 0

unfoldable pub finalize_at_eof : FormatDetector → FormatDetector × Option Bytes
finalize_at_eof d =
    if nothing_buffered d
    then (d, none)
    else (record (found d regular) { buffer = [] }, some d.buffer)
