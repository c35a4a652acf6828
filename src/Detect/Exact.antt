-- ===== src/Detect/Exact.antt =====
-- What `FormatDetector.process` does with the bytes that it has seen.
use fls.Base.{
  ℕ, ◌+◌, ◌-◌, ◌<◌, ◌≤◌, ◌≡◌, ◌≢◌, refl, some, ap, ◌∙◌, sym, min, ◌++◌, true, false, arith, leb,
  length, take, drop, Bytes, wrapping_sub, wrapping_sub-eq, length-append, length-take,
  append_assoc, take-append-drop, take_all,
}
use fls.Simg.Format.{
  SparseHeader, SparseError, invalid_magic, unsupported_version, invalid_header_size,
  invalid_chunk_header_size, unknown_chunk_type, chunk_size_mismatch, unexpected_eof,
  chunk_size_overflow, output_size_mismatch, Result, ok, err, panic, out_of_fuel, parse_header,
  u32_at, sparse_header_magic,
}
use fls.Simg.Format.Header.{parse_header-append, parse_header_returns}
use fls.Detect.{
  FileFormat, sparse_image, regular, DetectionResult, detected, corrupted, FormatDetector,
  need_more_data, attempt_on, attempt_detection_with_consumed, process,
}

-- What the header parser says where the magic is not there, and where it is
parse_header_invalid :
    (seen : Bytes) (m : ℕ)
    → parse_header seen ≡ err (invalid_magic m)
    → u32_at seen 0 ≢ sparse_header_magic
unfolding parse_header
parse_header_invalid seen m e = λ same. ground arith

parse_header_enough : (seen : Bytes) → 28 ≤ length seen → parse_header seen ≢ err unexpected_eof
unfolding parse_header
parse_header_enough seen enough = λ e. ground arith

abbrev IsHeaderFault : SparseError → Type 0
IsHeaderFault (invalid_magic m) = ⊥
IsHeaderFault unexpected_eof = ⊥
IsHeaderFault e = Unit

parse_header_magic :
    (seen : Bytes) (e : SparseError)
    → IsHeaderFault e
    → parse_header seen ≡ err e
    → u32_at seen 0 ≡ sparse_header_magic
unfolding parse_header
parse_header_magic seen e fault h = ground arith

-- Before detection: fewer bytes than a header has.
pub record IsWaiting (d : FormatDetector) : Type 0 where
  pub not_complete : d.detection_complete ≡ false
  pub few : length d.buffer < 28

-- how much of an input is buffered
abbrev pub consumed : FormatDetector → Bytes → ℕ
consumed d input = min (length input) (64 - length d.buffer)

module _ (d : FormatDetector) (input : Bytes) (w : IsWaiting d) where
  room : wrapping_sub 64 (length d.buffer) ≡ 64 - length d.buffer
  room = wrapping_sub-eq 64 (length d.buffer) (omega (arith, w.few))

  abbrev pub fed : FormatDetector
  fed = record d { buffer = d.buffer ++ take (consumed d input) input }

  length-fed : length fed.buffer ≡ length d.buffer + consumed d input
  length-fed = omega (
    arith,
    length-append d.buffer (take (consumed d input) input),
    length-take (consumed d input) input,
  )

  -- The buffer and what is left of the input are all that was seen.
  pub fed-append-drop : fed.buffer ++ drop (consumed d input) input ≡ d.buffer ++ input
  fed-append-drop =
      append_assoc d.buffer (take (consumed d input) input) (drop (consumed d input) input)
      ∙ ap (λ t. d.buffer ++ t) (take-append-drop (consumed d input) input)

  -- With fewer than 28 bytes seen in all, every byte of the input is kept, and no format is told.
  pub process_few :
      length d.buffer + length input < 28
      → process d input ≡ (record d { buffer = d.buffer ++ input }, need_more_data)
  unfolding process
  process_few h =
      let all : take (consumed d input) input ≡ input =
        take_all (consumed d input) input (omega (arith, w.few)) in
      let less : leb 28 (length fed.buffer) ≡ false = ground (arith, length-fed) in
      let less' : leb 64 (length fed.buffer) ≡ false = ground (arith, length-fed) in
      rw room (simp (w.not_complete) (rw (less, less') (rw all)))

  pub process-attempt :
      28 ≤ length d.buffer + length input
      → process d input ≡ attempt_on (parse_header (d.buffer ++ input)) fed (consumed d input)
  unfolding process attempt_detection_with_consumed
  process-attempt h =
      let enough : leb 28 (length fed.buffer) ≡ true = ground (arith, length-fed, w.few) in
      let same : parse_header fed.buffer ≡ parse_header (d.buffer ++ input) =
        sym (
          parse_header-append fed.buffer (drop (consumed d input) input)
            (omega (arith, length-fed, w.few)))
        ∙ ap parse_header fed-append-drop in
      rw room (simp (w.not_complete) (rw (enough, same)))

  -- The detector has decided: it is complete, the format is kept, and its buffer is as before.
  abbrev pub decided : FileFormat → FormatDetector
  decided format = record {
    buffer = fed.buffer;
    detection_complete = true;
    detected_format = some format;
  }

  -- What is decided, by the bytes that were seen: a valid header, no magic, or a magic behind which
  -- the header is not valid.
  pub data Decides (seen : Bytes) : FormatDetector × DetectionResult → Type 0 where
    decides_sparse :
        (h : SparseHeader)
        → parse_header seen ≡ ok h
        → Decides seen (decided sparse_image, detected sparse_image fed.buffer (consumed d input))
    decides_regular :
        u32_at seen 0 ≢ sparse_header_magic
        → Decides seen (decided regular, detected regular fed.buffer (consumed d input))
    decides_corrupted :
        (e : SparseError)
        → u32_at seen 0 ≡ sparse_header_magic
        → parse_header seen ≡ err e
        → Decides seen (record fed { detection_complete = true }, corrupted e)

  decides :
      (r : Result SparseHeader)
      → 28 ≤ length (d.buffer ++ input)
      → parse_header (d.buffer ++ input) ≡ r
      → Decides (d.buffer ++ input) (attempt_on r fed (consumed d input))
  unfolding attempt_on
  decides (ok h) enough e = decides_sparse h e
  decides (err (invalid_magic m)) enough e =
      decides_regular (parse_header_invalid (d.buffer ++ input) m e)
  decides (err unexpected_eof) enough e = absurd (parse_header_enough (d.buffer ++ input) enough e)
  decides (err (unsupported_version a b)) enough e =
      decides_corrupted (unsupported_version a b)
        (parse_header_magic (d.buffer ++ input) (unsupported_version a b) tt e) e
  decides (err (invalid_header_size a)) enough e =
      decides_corrupted (invalid_header_size a)
        (parse_header_magic (d.buffer ++ input) (invalid_header_size a) tt e) e
  decides (err (invalid_chunk_header_size a)) enough e =
      decides_corrupted (invalid_chunk_header_size a)
        (parse_header_magic (d.buffer ++ input) (invalid_chunk_header_size a) tt e) e
  decides (err (unknown_chunk_type a)) enough e =
      decides_corrupted (unknown_chunk_type a)
        (parse_header_magic (d.buffer ++ input) (unknown_chunk_type a) tt e) e
  decides (err (chunk_size_mismatch a b)) enough e =
      decides_corrupted (chunk_size_mismatch a b)
        (parse_header_magic (d.buffer ++ input) (chunk_size_mismatch a b) tt e) e
  decides (err (chunk_size_overflow a b)) enough e =
      decides_corrupted (chunk_size_overflow a b)
        (parse_header_magic (d.buffer ++ input) (chunk_size_overflow a b) tt e) e
  decides (err (output_size_mismatch a b)) enough e =
      decides_corrupted (output_size_mismatch a b)
        (parse_header_magic (d.buffer ++ input) (output_size_mismatch a b) tt e) e
  decides panic enough e = absurd ((parse_header_returns (d.buffer ++ input)).0 e)
  decides out_of_fuel enough e = absurd ((parse_header_returns (d.buffer ++ input)).1 e)

  -- From a detector that is waiting, once 28 bytes are seen in all, `process` decides on everything
  -- that was seen, although it buffers no more than 64 bytes: for a sparse image where the header
  -- is valid, for a regular file where the magic is not there, and for a corrupted header with the
  -- parser's error where the magic is there but the header is not valid. It returns its buffer and
  -- how many bytes of the input are in it.
  pub process_enough :
      28 ≤ length d.buffer + length input → Decides (d.buffer ++ input) (process d input)
  process_enough h = rw (process-attempt h) (
      decides (parse_header (d.buffer ++ input)) (omega (arith, h, length-append d.buffer input))
        refl)
