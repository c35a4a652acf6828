-- ===== src/Simg/Image/Stream.antt =====
-- An image that comes in pieces, as a download does: src/fls/from_url.rs gives each to `process`.
use mathlib.Core.List.{flatten}
use mathlib.Core.Path.{subst}
use fls.Base.{
  ℕ, ◌≤◌, ◌≡◌, refl, ap, ◌∙◌, sym, List, [], ◌∷◌, ◌++◌, arith, length, Bytes, append_assoc,
  append-nil, length-append,
}
use fls.Simg.Format.{Result, ok, err, panic, out_of_fuel, ◌>>=◌}
use fls.Simg.Parser.{
  ParserState, waiting_header, waiting_chunk_header, raw_data, complete, SparseParser, WriteCommand,
  new, Processed, process,
}
use fls.Simg.Parser.Invariant.{IsValid}
use fls.Simg.Parser.Rounds.{new-IsValid}
use fls.Simg.Image.{
  Image, ImageChunk, encode_chunk, encode_chunks, encode, IsImage, Event, events, image_events,
  data_chunk, fill_chunk, skip_chunk, header_length,
}
use fls.Simg.Image.Follows.{Follows, events-append}
use fls.Simg.Image.Pieces.{Reached, ReachedBy, process-ReachedBy}

-- `process` on one piece after the other, the commands in the order in which they come.
unfoldable pub process_all : SparseParser → List Bytes → Result (SparseParser × List WriteCommand)
process_all p [] = ok (p, [])
process_all p (piece ∷ pieces) = do
  r ← process p piece
  rest ← process_all r.parser pieces
  ok (rest.0, r.commands ++ rest.1)

header_length-le :
    (block_size : ℕ) (c : ImageChunk) → header_length c ≤ length (encode_chunk block_size c)
header_length-le block_size (data_chunk reserved blocks d) = omega arith
header_length-le block_size (fill_chunk reserved blocks pattern) = omega arith
header_length-le block_size (skip_chunk reserved blocks) = omega arith

module _ (trailing : Bytes) where
  -- The parser has come through the pieces.
  abbrev pub AllReached : Bytes → List Event → Result (SparseParser × List WriteCommand) → Type 0
  AllReached later es (ok (p, cs)) = Reached trailing later es p cs
  AllReached later es _ = ⊥

  after_piece :
      (later : Bytes) (es left : List Event) (cs : List WriteCommand)
      (r : Result (SparseParser × List WriteCommand))
      → es ≡ events cs ++ left
      → AllReached later left r
      → AllReached later es (do rest ← r; ok (rest.0, cs ++ rest.1))
  after_piece later es left cs (ok (p, ds)) asked b = record {
    left = b.left;
    asked =
        asked
        ∙ ap (λ t. events cs ++ t) b.asked
        ∙ sym (append_assoc (events cs) (events ds) b.left)
        ∙ ap (λ t. t ++ b.left) (sym (events-append cs ds));
    follows = b.follows;
    valid = b.valid;
  }
  after_piece later es left cs (err e) asked b = b
  after_piece later es left cs panic asked b = b
  after_piece later es left cs out_of_fuel asked b = b

  ReachedBy-bind :
      (now later : Bytes) (es : List Event) (m : Result Processed)
      (f : Processed → Result (SparseParser × List WriteCommand))
      → ReachedBy trailing now es m
      → ((r : Processed) → Reached trailing now es r.parser r.commands → AllReached later es (f r))
      → AllReached later es (m >>= f)
  ReachedBy-bind now later es (ok r) f b k = k r b
  ReachedBy-bind now later es (err e) f b k = b
  ReachedBy-bind now later es panic f b k = b
  ReachedBy-bind now later es out_of_fuel f b k = b

  pub process_all-AllReached :
      (pieces : List Bytes) (p : SparseParser) (later : Bytes) (es : List Event)
      → IsValid p
      → Follows trailing p.state p (flatten pieces ++ later) es
      → AllReached later es (process_all p pieces)
  unfolding process_all flatten
  process_all-AllReached [] p later es v f = record {
    left = es;
    asked = refl;
    follows = f;
    valid = v;
  }
  process_all-AllReached (piece ∷ pieces) p later es v f =
      let f' =
        subst (λ t. Follows trailing p.state p t es) (append_assoc piece (flatten pieces) later)
          f in
      ReachedBy-bind (flatten pieces ++ later) later es (process p piece) _
        (process-ReachedBy trailing p piece (flatten pieces ++ later) es v f')
        (λ r b.
          after_piece later es b.left r.commands _ b.asked
            (process_all-AllReached pieces r.parser later b.left b.valid b.follows))

  -- at the end of the bytes of an image the parser is complete, and has asked for all of it
  at_end :
      (st : ParserState) (p : SparseParser) (es : List Event)
      → Follows trailing st p [] es
      → (st ≡ complete) × (es ≡ [])
  at_end waiting_header p es (i, image, bytes, room, none_yet, at_start, asked) = absurd (
      omega (
        arith,
        ap length bytes,
        length-append p.buffer [],
        length-append (encode_chunks i.header.block_size i.chunks) trailing,
      ))
  at_end waiting_chunk_header p es (h, c, cs, ph, plan, room, bytes, asked) = absurd (
      omega (
        arith,
        ap length bytes,
        header_length-le h.block_size c,
        length-append p.buffer [],
        length-append (encode_chunk h.block_size c ++ encode_chunks h.block_size cs) trailing,
        length-append (encode_chunk h.block_size c) (encode_chunks h.block_size cs),
      ))
  at_end raw_data p es (h, d, cs, ph, plan, size, some_data, bytes, asked) =
      absurd (
        omega (arith, ap length bytes, length-append d (encode_chunks h.block_size cs ++ trailing)))
  at_end complete p es f = (refl, f)

  arrived :
      (i : Image) (r r' : Result (SparseParser × List WriteCommand))
      → r' ≡ r
      → AllReached [] (image_events i) r
      → (p : SparseParser) × (cs : List WriteCommand) × (r' ≡ ok (p, cs))
        × (p.state ≡ complete)
        × (events cs ≡ image_events i)
  arrived i (ok (p, cs)) r' e b =
      let over = at_end p.state p b.left b.follows in
      (p, cs, e, over.0, sym (b.asked ∙ ap (λ t. events cs ++ t) over.1 ∙ append-nil (events cs)))
  arrived i (err x) r' e b = absurd b
  arrived i panic r' e b = absurd b
  arrived i out_of_fuel r' e b = absurd b

-- However the bytes of an image are cut into pieces, and whatever follows them, giving the pieces
-- to `process` in turn ends without an error in a complete parser, and the commands ask a writer
-- for exactly what the chunks ask for: the data of RAW chunks in order, each FILL, a seek to the
-- end of each DONT_CARE, and at the end the size that the header promised.
pub process_all-encode :
    (i : Image) (pieces : List Bytes) (trailing : Bytes)
    → IsImage i
    → flatten pieces ≡ encode i ++ trailing
    → (p : SparseParser) × (cs : List WriteCommand) × (process_all new pieces ≡ ok (p, cs))
      × (p.state ≡ complete)
      × (events cs ≡ image_events i)
process_all-encode i pieces trailing image bytes =
    let start : Follows trailing waiting_header new (flatten pieces ++ []) (image_events i) =
      (i, image, append-nil (flatten pieces) ∙ bytes, omega arith, refl, refl, refl) in
    arrived trailing i (process_all new pieces) (process_all new pieces) refl
      (process_all-AllReached trailing pieces new [] (image_events i) new-IsValid start)
