-- ===== src/Channel/Reader.antt =====
-- src/fls/stream_utils.rs: `ChannelReader`, which a decompressor reads from.
use mathlib.Core.List.{flatten}
use fls.Base.{
  drop_nil, drop-drop, zero, suc, ℕ, ◌+◌, ◌<◌, ◌≡◌, refl, ap, ◌∙◌, sym, min, List, [], ◌∷◌, ◌++◌,
  Option, none, some, length, take, drop, take-append-drop, take_all, length-take, append_assoc,
  arith, Bytes,
}

-- `coming` is what `blocking_recv` returns, one after the other, until the channel is closed and
-- empty; `progress` is what was sent to the progress channel, where there is one.
pub record ChannelReader : Type 0 where
  pub coming : List Bytes
  pub current : Option Bytes
  pub offset : ℕ
  pub progress : Option (List ℕ)

abbrev pub new_byte_bounded : List Bytes → ChannelReader
new_byte_bounded items = record { coming = items; current = none; offset = 0; progress = none }

abbrev pub with_progress : ChannelReader → ChannelReader
with_progress r = record r { progress = some [] }

abbrev pub report : Option (List ℕ) → Bytes → Option (List ℕ)
report none input = none
report (some sent) input = some (sent ++ length input ∷ [])

-- The loop once `remaining` is what is left of the current item, for a buffer of a size: the reader
-- and the bytes copied.
unfoldable pub read_from : List Bytes → ChannelReader → Bytes → ℕ → ChannelReader × Bytes
read_from coming r (b ∷ remaining) size =
    let to_copy = min (length (b ∷ remaining)) size in
    (record r { coming = coming; offset = r.offset + to_copy }, take to_copy (b ∷ remaining))
read_from [] r [] size = (record r { coming = [] }, [])
read_from (item ∷ coming) r [] size =
    read_from coming
      (record r { current = some item; offset = 0; progress = report r.progress item }) item size

-- What is left of the current item
abbrev pub remaining_of : Option Bytes → ℕ → Bytes
remaining_of none offset = []
remaining_of (some item) offset = drop offset item

unfoldable pub read : ChannelReader → ℕ → ChannelReader × Bytes
unfolding read_from
read r size = read_from r.coming r (remaining_of r.current r.offset) size

-- All that is still to be read.
abbrev pub pending : ChannelReader → Bytes
pending r = remaining_of r.current r.offset ++ flatten r.coming

-- The first piece that is not empty, of what is left of the current item and of the items to come
abbrev pub next_piece : List Bytes → Bytes
next_piece [] = []
next_piece ([] ∷ pieces) = next_piece pieces
next_piece ((b ∷ piece) ∷ pieces) = b ∷ piece

-- A read from `pieces` into a buffer of a size.
pub record IsRead (pieces : List Bytes) (size : ℕ) (r : ChannelReader × Bytes) : Type 0 where
  pub copied : r.1 ≡ take size (next_piece pieces)
  pub rest : r.1 ++ pending r.0 ≡ flatten pieces
  pub some_bytes : 0 < size → 0 < length (flatten pieces) → 0 < length r.1

-- Moving the offset on is taking bytes off what is left.
remaining_of-drop :
    (o : Option Bytes) (offset n : ℕ) → remaining_of o (offset + n) ≡ drop n (remaining_of o offset)
remaining_of-drop none offset n = sym (drop_nil n)
remaining_of-drop (some item) offset n = drop-drop offset n item

take_none : (n : ℕ) → take {A = ℕ} n [] ≡ []
take_none n = take_all n [] (omega arith)

take-min : (n : ℕ) (bytes : Bytes) → take (min (length bytes) n) bytes ≡ take n bytes
take-min zero bytes = let e : min (length bytes) 0 ≡ 0 = omega arith in ap (λ k. take k bytes) e
take-min (suc n) [] = let e : min 0 (suc n) ≡ 0 = omega arith in ap (λ k. take k []) e
take-min (suc n) (b ∷ bytes) =
    let e : min (suc (length bytes)) (suc n) ≡ suc (min (length bytes) n) = omega arith in
    ap (λ k. take k (b ∷ bytes)) e ∙ ap (λ t. b ∷ t) (take-min n bytes)

read_from-IsRead :
    (coming : List Bytes) (r : ChannelReader) (remaining : Bytes) (size : ℕ)
    → remaining ≡ remaining_of r.current r.offset
    → IsRead (remaining ∷ coming) size (read_from coming r remaining size)
unfolding read_from flatten
read_from-IsRead coming r (b ∷ remaining) size e = record {
  copied = take-min size (b ∷ remaining);
  rest =
      ap (λ t. take (min (length (b ∷ remaining)) size) (b ∷ remaining) ++ (t ++ flatten coming))
        (remaining_of-drop r.current r.offset (min (length (b ∷ remaining)) size)
          ∙ ap (drop (min (length (b ∷ remaining)) size)) (sym e))
      ∙ sym (
          append_assoc (take (min (length (b ∷ remaining)) size) (b ∷ remaining))
            (drop (min (length (b ∷ remaining)) size) (b ∷ remaining)) (flatten coming))
      ∙ ap (λ t. t ++ flatten coming)
          (take-append-drop (min (length (b ∷ remaining)) size) (b ∷ remaining));
  some_bytes =
      λ x _. omega (arith, length-take (min (length (b ∷ remaining)) size) (b ∷ remaining));
}
read_from-IsRead [] r [] size e = record {
  copied = sym (take_none size);
  rest = ap (λ t. t ++ []) (sym e);
  some_bytes = λ x y. absurd (omega arith);
}
read_from-IsRead (item ∷ coming) r [] size e =
    let later =
      read_from-IsRead coming
        (record r { current = some item; offset = 0; progress = report r.progress item }) item size
        refl in
    record { copied = later.copied; rest = later.rest; some_bytes = later.some_bytes }

-- A read into a buffer takes the next bytes of the stream, in order and as many as fit of the first
-- item that still has some, and leaves the others; it takes none, which is the end of the stream for
-- its caller, only if the buffer has no room or no byte is to come. Empty items are passed over.
pub read-IsRead :
    (r : ChannelReader) (size : ℕ)
    → IsRead (remaining_of r.current r.offset ∷ r.coming) size (read r size)
unfolding read
read-IsRead r size = read_from-IsRead r.coming r (remaining_of r.current r.offset) size refl
