-- ===== src/Writer.antt =====
-- src/fls/block_writer.rs: `BlockWriter`, `write_fill_pattern`, and the task of `AsyncBlockWriter`
-- on the commands that come through its channel. A file is what it holds at each offset, its
-- cursor, and which of the operations to come fail. After an error the writer is dropped, so a
-- failure keeps nothing. The code is that of Linux; how a device is opened is left out.
pub mod Disk
pub mod Flush
pub mod Copy
pub mod Fill
pub mod Run
pub mod Tests
use fls.Base.{
  ℕ, zero, suc, ◌+◌, ◌-◌, ◌*◌, ◌/◌, ◌%◌, min, Bool, true, false, not, ◌&&◌, List, [], ◌∷◌, ◌++◌,
  ltb, leb, ◌==◌, if◌then◌else◌, length, get_or, take, drop, Bytes, u64_mod, wrapping_sub,
}
use fls.Simg.Format.{Pattern}

abbrev pub block_size : ℕ
block_size = 1048576

abbrev pub alignment : ℕ
alignment = 4096

abbrev pub sync_interval : ℕ
sync_interval = 67108864

pub record File : Type 0 where
  pub bytes : ℕ → ℕ
  pub at : ℕ
  pub faults : List Bool

pub data Outcome {ℓ} (A : Type ℓ) : Type ℓ where
  done : A → Outcome A
  failed : Outcome A
  out_of_fuel : Outcome A

infixl 5 ◌>>=◌
abbrev pub ◌>>=◌ {ℓ κ} : {A : Type ℓ} {B : Type κ} → Outcome A → (A → Outcome B) → Outcome B
done a >>= f = f a
failed >>= f = failed
out_of_fuel >>= f = out_of_fuel

-- One operation of the system on the file: it fails where the next fault says so.
abbrev pub attempt_on : List Bool → File → Outcome File
attempt_on [] f = done (record f { faults = [] })
attempt_on (true ∷ r) f = failed
attempt_on (false ∷ r) f = done (record f { faults = r })

unfoldable pub attempt : File → Outcome File
attempt f = attempt_on f.faults f

-- `n` bytes of `over` from an offset, and `under` elsewhere.
abbrev pub overlay : (ℕ → ℕ) → ℕ → ℕ → (ℕ → ℕ) → ℕ → ℕ
overlay under at n over i = if leb at i && ltb i (at + n) then over (i - at) else under i

-- `write_all` of the first `n` bytes of a buffer, and `seek` from the start.
abbrev pub write_all : File → ℕ → (ℕ → ℕ) → Outcome File
write_all f n buffer = do
  f ← attempt f
  done (record f { bytes = overlay f.bytes f.at n buffer; at = f.at + n })

abbrev pub seek_file : File → ℕ → Outcome File
seek_file f offset = do f ← attempt f; done (record f { at = offset })

-- `sent` is what the progress channel got.
pub record BlockWriter : Type 0 where
  pub file : File
  pub buffer : ℕ → ℕ
  pub buffer_pos : ℕ
  pub bytes_written : ℕ
  pub bytes_since_sync : ℕ
  pub use_direct_io : Bool
  pub sent : List ℕ

-- The writer that `BlockWriter::new` builds around an open file.
abbrev pub new : File → Bool → BlockWriter
new f direct = record {
  file = f;
  buffer = λ _. 0;
  buffer_pos = 0;
  bytes_written = 0;
  bytes_since_sync = 0;
  use_direct_io = direct;
  sent = [];
}

abbrev pub div_ceil : ℕ → ℕ → ℕ
div_ceil a b = if a % b == 0 then a / b else a / b + 1

abbrev pub send_progress : BlockWriter → BlockWriter
send_progress w = record w { sent = w.sent ++ w.bytes_written ∷ [] }

-- The periodic sync at the end of `flush_buffer`.
unfoldable pub sync_if_due : BlockWriter → Outcome BlockWriter
sync_if_due w =
    if not w.use_direct_io && leb sync_interval w.bytes_since_sync
    then (do f ← attempt w.file; done (record w { file = f; bytes_since_sync = 0 }))
    else done w

-- Direct I/O of a block that is not full
abbrev pub is_padded : BlockWriter → Bool
is_padded w = w.use_direct_io && ltb w.buffer_pos block_size

abbrev pub aligned_size : ℕ → ℕ
aligned_size n = div_ceil n alignment * alignment

abbrev pub write_size : BlockWriter → ℕ
write_size w = min (if is_padded w then aligned_size w.buffer_pos else w.buffer_pos) block_size

-- The buffer with zeros behind the data
abbrev pub padded_buffer : BlockWriter → ℕ → ℕ
padded_buffer w =
    if is_padded w
    then overlay w.buffer w.buffer_pos (aligned_size w.buffer_pos - w.buffer_pos) (λ _. 0)
    else w.buffer

unfoldable pub flush_buffer : BlockWriter → Outcome BlockWriter
flush_buffer w = if w.buffer_pos == 0 then done w else (do
  f ← write_all w.file (write_size w) (padded_buffer w)
  sync_if_due (record w {
    file = f;
    buffer = padded_buffer w;
    buffer_pos = 0;
    bytes_since_sync = (w.bytes_since_sync + w.buffer_pos) % u64_mod;
  }))

-- One round of the loop of `write`, on the data that is left
abbrev pub to_copy : BlockWriter → Bytes → ℕ
to_copy w input = min (wrapping_sub block_size w.buffer_pos) (length input)

abbrev pub copy_in : BlockWriter → Bytes → BlockWriter
copy_in w input =
    let n = to_copy w input in
    record w {
      buffer = overlay w.buffer w.buffer_pos n (λ i. get_or input i 0);
      buffer_pos = w.buffer_pos + n;
      bytes_written = (w.bytes_written + n) % u64_mod;
    }

abbrev pub flush_if_full : BlockWriter → Outcome BlockWriter
flush_if_full w = if w.buffer_pos == block_size then flush_buffer w else done w

abbrev pub report : BlockWriter → BlockWriter
report w = if w.bytes_written % 262144 == 0 then send_progress w else w

unfoldable pub write_round : BlockWriter → Bytes → Outcome BlockWriter
write_round w input = do w ← flush_if_full (copy_in w input); done (report w)

unfoldable pub write_loop : ℕ → BlockWriter → Bytes → Outcome BlockWriter
write_loop fuel w [] = done w
write_loop zero w (b ∷ r) = out_of_fuel
write_loop (suc fuel) w (b ∷ r) = do
  v ← write_round w (b ∷ r)
  write_loop fuel v (drop (to_copy w (b ∷ r)) (b ∷ r))

-- Every round copies a byte at least.
unfoldable pub write : BlockWriter → Bytes → Outcome BlockWriter
unfolding write_loop
write w input = write_loop (length input) w input

unfoldable pub seek : BlockWriter → ℕ → Outcome BlockWriter
seek w offset = if w.use_direct_io && not (offset % alignment == 0) then failed else (do
  w ← flush_buffer w
  f ← seek_file w.file offset
  done (send_progress (record w { file = f; bytes_written = offset })))

unfoldable pub flush : BlockWriter → Outcome BlockWriter
flush w = do
  w ← flush_buffer w
  f ← attempt w.file
  f ← attempt f
  done (send_progress (record w { file = f; bytes_since_sync = 0 }))

-- `n` bytes of a pattern over and over.
abbrev pub repeated : Pattern → ℕ → Bytes
repeated p zero = []
repeated (a, b, c, d) (suc n) = a ∷ repeated (b, c, d, a) n

unfoldable pub fill_buffer : Pattern → Bytes
fill_buffer pattern = repeated pattern 4096

-- Every round writes a byte at least, so `remaining` rounds are enough.
unfoldable pub fill_loop : ℕ → BlockWriter → Pattern → ℕ → Outcome BlockWriter
fill_loop fuel w pattern zero = done w
fill_loop zero w pattern (suc n) = out_of_fuel
fill_loop (suc fuel) w pattern (suc n) = do
  v ← write w (take (min (suc n) 4096) (fill_buffer pattern))
  fill_loop fuel v pattern (suc n - min (suc n) 4096)

unfoldable pub write_fill_pattern : BlockWriter → Pattern → ℕ → Outcome BlockWriter
unfolding fill_loop
write_fill_pattern w pattern bytes = fill_loop bytes w pattern bytes

pub data WriterCommand : Type 0 where
  write_data : Bytes → WriterCommand
  seek_to : ℕ → WriterCommand
  fill_with : Pattern → ℕ → WriterCommand

unfoldable pub execute : BlockWriter → WriterCommand → Outcome BlockWriter
execute w (write_data input) = write w input
execute w (seek_to offset) = seek w offset
execute w (fill_with pattern bytes) = write_fill_pattern w pattern bytes

unfoldable pub execute_all : BlockWriter → List WriterCommand → Outcome BlockWriter
execute_all w [] = done w
execute_all w (c ∷ cs) = do v ← execute w c; execute_all v cs

-- The task: the commands until the channel is closed, then `flush`; it returns `bytes_written`.
unfoldable pub run : BlockWriter → List WriterCommand → Outcome (BlockWriter × ℕ)
unfolding execute_all
run w cs = do w ← execute_all w cs; w ← flush w; done (w, w.bytes_written)
