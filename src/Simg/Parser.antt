-- ===== src/Simg/Parser.antt =====
-- src/fls/simg.rs: `SparseParser`. One round of the loop of `process` is `step`; its commands are
-- what the round pushes. A subtraction on `usize` wraps; a count of bytes taken from the input is
-- at most the input's length and does not wrap.
pub mod Invariant
pub mod Rounds
use fls.Base.{
  ℕ, zero, suc, ◌+◌, ◌-◌, ◌%◌, min, Bool, true, false, not, List, [], ◌∷◌, ◌++◌, ltb, leb, ◌==◌,
  if◌then◌else◌, length, take, drop, Option, none, some, Bytes, u32_mod, u32_max, u64_mod,
  wrapping_sub,
}
use fls.Simg.Format.{
  SparseHeader, image_size, Pattern, ChunkType, raw, fill, dont_care, SparseChunk, output_size,
  unexpected_eof, chunk_size_overflow, output_size_mismatch, Result, ok, err, panic, out_of_fuel,
  ◌>>=◌, ◌>>◌, reject_if, in_range, parse_header, parse_chunk_header, sparse_header_size,
  chunk_header_size,
}

pub data ParserState : Type 0 where
  waiting_header waiting_chunk_header raw_data complete : ParserState

pub record SparseParser : Type 0 where
  pub header : Option SparseHeader
  pub chunks_processed : ℕ
  pub current_output_offset : ℕ
  pub state : ParserState
  pub buffer : Bytes
  pub raw_remaining : ℕ

pub data WriteCommand : Type 0 where
  seek : ℕ → WriteCommand
  write : Bytes → WriteCommand
  fill_with : Pattern → ℕ → WriteCommand
  completed : ℕ → WriteCommand

abbrev pub new : SparseParser
new = record {
  header = none;
  chunks_processed = 0;
  current_output_offset = 0;
  state = waiting_header;
  buffer = [];
  raw_remaining = 0;
}

-- What a round of the loop leaves: the parser, the commands that it pushed, the bytes that it
-- took, and whether it broke out of the loop.
pub record Step : Type 0 where
  pub parser : SparseParser
  pub commands : List WriteCommand
  pub taken : ℕ
  pub stop : Bool

abbrev pub going : SparseParser → List WriteCommand → ℕ → Result Step
going p cs n = ok (record { parser = p; commands = cs; taken = n; stop = false })

abbrev pub unwrap {ℓ} : {A : Type ℓ} → Option A → Result A
unwrap none = panic
unwrap (some a) = ok a

abbrev pub is_raw_data : ParserState → Bool
is_raw_data raw_data = true
is_raw_data _ = false

-- `if self.chunks_processed == header.total_chunks`: completion, or the parser of the else branch.
unfoldable pub check_complete :
    SparseHeader → SparseParser → SparseParser → List WriteCommand → ℕ → Result Step
check_complete h p next cs n =
    if p.chunks_processed == h.total_chunks
    then (do
      reject_if (not (p.current_output_offset == image_size h))
          (output_size_mismatch (image_size h) p.current_output_offset)
      going (record p { state = complete }) (cs ++ completed (image_size h) ∷ []) n)
    else going next cs n

abbrev pub count_chunk : SparseParser → SparseParser
count_chunk p = record p { chunks_processed = (p.chunks_processed + 1) % u32_mod }

abbrev pub move_by : ℕ → SparseParser → SparseParser
move_by n p = record p { current_output_offset = (p.current_output_offset + n) % u64_mod }

-- After the extra bytes are written.
unfoldable pub after_raw_header : SparseHeader → SparseParser → List WriteCommand → ℕ → Result Step
after_raw_header h p cs n =
    if p.raw_remaining == 0
    then (let q = count_chunk p in
        check_complete h q (record q { state = waiting_chunk_header }) cs n)
    else going (record p { state = raw_data }) cs n

-- The bytes `extra` behind the header are data, as far as the chunk goes.
unfoldable pub write_extra : SparseHeader → SparseParser → Bytes → ℕ → ℕ → Result Step
write_extra h p extra remaining n =
    let write_len = min (length extra % u32_mod) remaining in
    if ltb 0 write_len
    then in_range write_len extra
      >> after_raw_header h
          (record p {
            current_output_offset = (p.current_output_offset + write_len) % u64_mod;
            buffer = [];
            raw_remaining = remaining - write_len;
          })
          (write (take write_len extra) ∷ []) n
    else after_raw_header h (record p { buffer = []; raw_remaining = remaining }) [] n

-- The arm for RAW chunks. The buffer is cleared whatever it holds.
unfoldable pub on_raw : SparseHeader → SparseParser → SparseChunk → ℕ → ℕ → Result Step
on_raw h p chunk header_consumed n = do
  reject_if (ltb u32_max chunk.data_size) (chunk_size_overflow chunk.output_blocks h.block_size)
  in_range header_consumed p.buffer
  write_extra h p (drop header_consumed p.buffer) (chunk.data_size % u32_mod) n

-- The lines after the match on the chunk's type.
unfoldable pub after_chunk : SparseHeader → SparseParser → ℕ → List WriteCommand → ℕ → Result Step
unfolding check_complete
after_chunk h p header_consumed cs n =
    let q = record p { buffer = drop header_consumed p.buffer } in
    in_range header_consumed p.buffer
    >> check_complete h q
        (if is_raw_data q.state then q else record q { state = waiting_chunk_header }) cs n

unfoldable pub on_chunk :
    SparseHeader → SparseParser → SparseChunk → ChunkType → ℕ → ℕ → Result Step
unfolding check_complete after_raw_header write_extra on_raw after_chunk
on_chunk h p chunk raw header_consumed n = on_raw h p chunk header_consumed n
on_chunk h p chunk (fill pattern) header_consumed n =
    let bytes = output_size chunk h.block_size in
    after_chunk h (count_chunk (move_by bytes p)) header_consumed (fill_with pattern bytes ∷ []) n
on_chunk h p chunk dont_care header_consumed n =
    let q = move_by (output_size chunk h.block_size) p in
    after_chunk h (count_chunk q) header_consumed (seek q.current_output_offset ∷ []) n

-- `match parse_chunk_header(..)`
unfoldable pub on_chunk_header :
    SparseHeader → SparseParser → ℕ → Result (SparseChunk × ℕ) → Result Step
unfolding on_chunk
on_chunk_header h p n (ok (chunk, header_consumed)) =
    on_chunk h p chunk chunk.chunk_type header_consumed n
on_chunk_header h p n (err unexpected_eof) =
    ok (record { parser = p; commands = []; taken = n; stop = true })
on_chunk_header h p n (err e) = err e
on_chunk_header h p n panic = panic
on_chunk_header h p n out_of_fuel = out_of_fuel

-- `extend_from_slice` of what the buffer needs up to `size`, and the bytes taken
abbrev pub taken_for : ℕ → SparseParser → Bytes → ℕ
taken_for size p input = min (wrapping_sub size (length p.buffer)) (length input)

abbrev pub buffer_up_to : ℕ → SparseParser → Bytes → SparseParser
buffer_up_to size p input = record p { buffer = p.buffer ++ take (taken_for size p input) input }

-- The three working arms of `match self.state`.
unfoldable pub on_header_bytes : SparseParser → Bytes → Result Step
on_header_bytes p input =
    let q = buffer_up_to sparse_header_size p input in
    let n = taken_for sparse_header_size p input in
    in_range n input
    >> (if length q.buffer == sparse_header_size
        then (do
          header ← parse_header q.buffer
          going (record q { header = some header; buffer = []; state = waiting_chunk_header }) [] n)
        else going q [] n)

unfoldable pub on_chunk_bytes : SparseParser → Bytes → Result Step
unfolding on_chunk_header
on_chunk_bytes p input =
    let q = buffer_up_to 16 p input in
    let n = taken_for 16 p input in
    in_range n input
    >> (if leb chunk_header_size (length q.buffer)
        then (do
          header ← unwrap q.header
          on_chunk_header header q n (parse_chunk_header q.buffer header.block_size))
        else going q [] n)

-- After the data that the input holds is written.
unfoldable pub after_raw_bytes : SparseParser → List WriteCommand → ℕ → Result Step
after_raw_bytes p cs n =
    if p.raw_remaining == 0
    then (do
      let q = count_chunk p
      header ← unwrap q.header
      check_complete header q (record q { state = waiting_chunk_header; buffer = [] }) cs n)
    else going p cs n

unfoldable pub on_raw_bytes : SparseParser → Bytes → Result Step
on_raw_bytes p input =
    let n = min p.raw_remaining (length input) in
    if ltb 0 n
    then in_range n input
      >> after_raw_bytes
          (record p {
            current_output_offset = (p.current_output_offset + n) % u64_mod;
            raw_remaining = p.raw_remaining - n;
          })
          (write (take n input) ∷ []) n
    else after_raw_bytes p [] n

unfoldable pub step_in : ParserState → SparseParser → Bytes → Result Step
unfolding on_header_bytes on_chunk_bytes check_complete after_raw_bytes on_raw_bytes
step_in waiting_header p input = on_header_bytes p input
step_in waiting_chunk_header p input = on_chunk_bytes p input
step_in raw_data p input = on_raw_bytes p input
step_in complete p input = ok (record { parser = p; commands = []; taken = 0; stop = true })

unfoldable pub step : SparseParser → Bytes → Result Step
unfolding step_in
step p input = step_in p.state p input

-- What `process` returns: the parser that it leaves, the commands, and the bytes consumed.
pub record Processed : Type 0 where
  pub parser : SparseParser
  pub commands : List WriteCommand
  pub consumed : ℕ

-- The loop, one unit of fuel for each round.
unfoldable pub rounds : ℕ → SparseParser → Bytes → Result Processed
rounds fuel p [] = ok (record { parser = p; commands = []; consumed = 0 })
rounds zero p (b ∷ r) = out_of_fuel
rounds (suc fuel) p (b ∷ r) = do
  s ← step p (b ∷ r)
  elim s.stop [
    | true ↦ ok (record { parser = s.parser; commands = s.commands; consumed = s.taken })
    | false ↦ (do
      rest ← rounds fuel s.parser (drop s.taken (b ∷ r))
      ok (record {
        parser = rest.parser;
        commands = s.commands ++ rest.commands;
        consumed = s.taken + rest.consumed;
      }))
  ]

-- Every round but the last takes a byte at least, so the input's length is fuel enough.
unfoldable pub process : SparseParser → Bytes → Result Processed
unfolding rounds step
process p input = rounds (length input) p input
