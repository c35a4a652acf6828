-- ===== src/Simg/Image/Follows/Rounds.antt =====
-- Each round of a parser that follows an image advances in it.
use mathlib.Core.Path.{subst, ap₂}
use mathlib.Core.List.{map-append}
use mathlib.Core.Option.{some-injective}
use fls.Base.{
  ℕ, ◌+◌, ◌-◌, ◌%◌, ◌<◌, ◌≡◌, refl, ap, ◌∙◌, sym, true, false, List, [], ◌∷◌, ◌++◌, map, arith, ltb,
  leb, leb→le, ◌==◌, Bool-cases, inl, inr, length, take, drop, min, Option, none, some, Bytes,
  u32_mod, u64_mod, append_assoc, append-nil, append-split, length-take, length-drop,
  take-append-drop, drop_all,
}
use fls.Simg.Format.{in_range_ok, SparseHeader, parse_header, Result, ◌>>=◌}
use fls.Simg.Format.Header.{make_header, parse_header-make_header}
use fls.Simg.Parser.{
  waiting_header, waiting_chunk_header, raw_data, SparseParser, WriteCommand, write, Step, unwrap,
  count_chunk, buffer_up_to, taken_for, on_header_bytes, on_chunk_bytes, after_raw_bytes,
  on_raw_bytes,
}
use fls.Simg.Parser.Rounds.{taken_for-eq, length-buffer_up_to}
use fls.Simg.Image.{
  ImageChunk, encode_chunks, Event, put, events, chunk_events, header_length, header_length_bounds,
}
use fls.Simg.Image.Follows.{Plan, Follows, Advances, check_complete-Advances}
use fls.Simg.Image.Follows.Chunks.{Plan-room}
use fls.Simg.Image.Follows.Reading.{on_chunk_header-Advances}

module _ (trailing input later : Bytes) where
  read_back : (n : ℕ) → take n input ++ (drop n input ++ later) ≡ input ++ later
  read_back n =
      sym (append_assoc (take n input) (drop n input) later)
      ∙ ap (λ t. t ++ later) (take-append-drop n input)

  Advances-unwrap :
      (es : List Event) (o : Option SparseHeader) (h : SparseHeader)
      (f : SparseHeader → Result Step)
      → o ≡ some h
      → Advances trailing input later es (f h)
      → Advances trailing input later es (unwrap o >>= f)
  Advances-unwrap es none h f e a = cc
  Advances-unwrap es (some b) h f e a =
      subst (λ x. Advances trailing input later es (f x)) (sym (some-injective b h e)) a

  -- `d` is what is left of the chunk's data
  after_raw_bytes-Advances :
      (h : SparseHeader) (p : SparseParser) (cs : List WriteCommand) (n : ℕ) (es : List Event)
      (d : Bytes) (left : List ImageChunk)
      → p.header ≡ some h
      → p.state ≡ raw_data
      → p.raw_remaining ≡ length d
      → Plan h (p.chunks_processed + 1) (p.current_output_offset + length d) left
      → drop n input ++ later ≡ d ++ (encode_chunks h.block_size left ++ trailing)
      → es
        ≡ events cs
          ++ (map put d ++ chunk_events h.block_size (p.current_output_offset + length d) left)
      → Advances trailing input later es (after_raw_bytes p cs n)
  unfolding after_raw_bytes
  after_raw_bytes-Advances h p cs n es [] left ph ps pr plan bytes asked =
      let empty : p.raw_remaining == 0 ≡ true = ground arith in
      let counted : (p.chunks_processed + 1) % u32_mod ≡ p.chunks_processed + 1 =
        omega (arith, (Plan-room plan).1) in
      let same : p.current_output_offset + 0 ≡ p.current_output_offset = omega arith in
      let q = record (count_chunk p) { state = waiting_chunk_header; buffer = [] } in
      let on : Plan h q.chunks_processed p.current_output_offset left = record {
        fits = plan.fits;
        chunks_fit = plan.chunks_fit;
        count_is = omega (arith, plan.count_is, counted);
        size_is = omega (arith, plan.size_is);
      } in
      rw empty (
        Advances-unwrap es p.header h _ ph (
          check_complete-Advances trailing input later h (count_chunk p) q cs n es left on ph refl
            refl refl (omega arith) bytes (rw same at asked)))
  after_raw_bytes-Advances h p cs n es (b ∷ d) left ph ps pr plan bytes asked =
      let some_left : p.raw_remaining == 0 ≡ false = ground arith in
      let es' =
        map put (b ∷ d)
        ++ chunk_events h.block_size (p.current_output_offset + length (b ∷ d)) left in
      rw some_left (record {
        left = es';
        asked = asked;
        follows =
            subst (λ st. Follows trailing st p (drop n input ++ later) es') (sym ps)
              (h, b ∷ d, left, ph, plan, sym pr, omega arith, bytes, refl);
      })

  pub on_raw_bytes-Advances :
      (p : SparseParser) (es : List Event)
      → p.state ≡ raw_data
      → 0 < length input
      → Follows trailing raw_data p (input ++ later) es
      → Advances trailing input later es (on_raw_bytes p input)
  unfolding on_raw_bytes
  on_raw_bytes-Advances p es ps some_input (h, d, left, ph, plan, size, some_data, bytes, asked) =
      let n = min p.raw_remaining (length input) in
      let x = take n input in
      let size_x : length x ≡ n = omega (arith, length-take n input) in
      let inner =
        append-split x (drop n input ++ later) d (encode_chunks h.block_size left ++ trailing)
          (sym (read_back n ∙ bytes)) (omega arith) in
      let d' = drop (length x) d in
      let size_d' : length d' ≡ p.raw_remaining - n = omega (arith, length-drop (length x) d) in
      let more : ltb 0 n ≡ true = ground arith in
      let joined : p.current_output_offset + length d
          ≡ (p.current_output_offset + n) % u64_mod + length d' =
        omega (arith, (Plan-room plan).0) in
      let es' =
        map put d'
        ++ chunk_events h.block_size ((p.current_output_offset + n) % u64_mod + length d') left in
      rw (more, in_range_ok n input (omega arith))
        (after_raw_bytes-Advances h
          (record p {
            current_output_offset = (p.current_output_offset + n) % u64_mod;
            raw_remaining = p.raw_remaining - n;
          })
          (write x ∷ []) n es d' left ph ps (sym size_d') (rw joined at plan) (sym inner.1)
          (asked
            ∙ ap₂ (λ m o. m ++ chunk_events h.block_size o left)
                (ap (map put) inner.0 ∙ map-append put x d') joined
            ∙ append_assoc (map put x) (map put d') _
            ∙ ap (λ m. m ++ es') (sym (append-nil (map put x)))))

  -- what the buffer takes and what is left of the input are what there was
  buffered :
      (size : ℕ) (p : SparseParser)
      → (buffer_up_to size p input).buffer ++ (drop (taken_for size p input) input ++ later)
        ≡ p.buffer ++ (input ++ later)
  buffered size p =
      append_assoc p.buffer (take (taken_for size p input) input) _
      ∙ ap (λ t. p.buffer ++ t) (read_back (taken_for size p input))

  pub on_chunk_bytes-Advances :
      (p : SparseParser) (es : List Event)
      → p.state ≡ waiting_chunk_header
      → Follows trailing waiting_chunk_header p (input ++ later) es
      → Advances trailing input later es (on_chunk_bytes p input)
  unfolding on_chunk_bytes
  on_chunk_bytes-Advances p es ps (h, c, left, ph, plan, room, bytes, asked) =
      let q = buffer_up_to 16 p input in
      let n = taken_for 16 p input in
      let room' : length p.buffer < 16 = omega (arith, header_length_bounds c) in
      let eq = taken_for-eq 16 p input room' in
      let grown = length-buffer_up_to 16 p input room' in
      let bytes' = buffered 16 p ∙ bytes in
      elim (Bool-cases (leb 12 (length q.buffer))) [
        | inl enough ↦
            rw (in_range_ok n input (omega arith), enough)
              (Advances-unwrap es p.header h _ ph (
                on_chunk_header-Advances trailing input later h q n es left ph ps
                  (leb→le _ _ enough) (omega arith) c plan bytes' asked))
        | inr less ↦
            let few : length q.buffer < header_length c = ground (arith, header_length_bounds c) in
            rw (in_range_ok n input (omega arith), less)
              (record {
                left = es;
                asked = refl;
                follows =
                    subst (λ st. Follows trailing st q (drop n input ++ later) es) (sym ps)
                      (h, c, left, ph, plan, few, bytes', asked);
              })
      ]

  -- behind the header the parser is at the first chunk
  started :
      (p : SparseParser) (h : SparseHeader) (cs : List ImageChunk) (rest : Bytes) (es : List Event)
      → 0 < length cs
      → p.header ≡ some h
      → p.buffer ≡ []
      → p.chunks_processed ≡ 0
      → p.current_output_offset ≡ 0
      → Plan h 0 0 cs
      → rest ≡ encode_chunks h.block_size cs ++ trailing
      → es ≡ chunk_events h.block_size 0 cs
      → Follows trailing waiting_chunk_header p rest es
  started p h [] rest es some_chunk ph pb pc po plan bytes asked = absurd (omega arith)
  started p h (c ∷ cs) rest es some_chunk ph pb pc po plan bytes asked =
      let now : Plan h p.chunks_processed p.current_output_offset (c ∷ cs) = record {
        fits = plan.fits;
        chunks_fit = plan.chunks_fit;
        count_is = omega (arith, plan.count_is);
        size_is = omega (arith, plan.size_is);
      } in
      (h, c, cs, ph, now, rw pb (omega (arith, header_length_bounds c)), rw pb bytes, rw po asked)

  pub on_header_bytes-Advances :
      (p : SparseParser) (es : List Event)
      → p.state ≡ waiting_header
      → Follows trailing waiting_header p (input ++ later) es
      → Advances trailing input later es (on_header_bytes p input)
  unfolding on_header_bytes
  on_header_bytes-Advances p es ps (i, image, bytes, room, none_yet, at_start, asked) =
      let q = buffer_up_to 28 p input in
      let n = taken_for 28 p input in
      let eq = taken_for-eq 28 p input room in
      let grown = length-buffer_up_to 28 p input room in
      let bytes' = buffered 28 p ∙ bytes in
      elim (Bool-cases (length q.buffer == 28)) [
        | inl enough ↦
            let h = i.header in
            let cut =
              append-split (make_header i.minor h) (encode_chunks h.block_size i.chunks ++ trailing)
                q.buffer (drop n input ++ later) bytes' (ground arith) in
            let parsed =
              ap parse_header cut.0
              ∙ parse_header-make_header i.minor h (drop 28 q.buffer) image.header_fits in
            let used_up : drop 28 q.buffer ≡ [] = drop_all 28 q.buffer (ground arith) in
            let r = record p { header = some h; state = waiting_chunk_header; buffer = [] } in
            let plan : Plan h 0 0 i.chunks = record {
              fits = image.header_fits;
              chunks_fit = image.chunks_fit;
              count_is = omega (arith, image.count_is);
              size_is = omega (arith, image.size_is);
            } in
            rw (in_range_ok n input (omega arith), enough, parsed)
              (record {
                left = es;
                asked = refl;
                follows =
                    started r h i.chunks (drop n input ++ later) es image.some_chunk refl refl
                      none_yet at_start plan (rw used_up at cut.1) asked;
              })
        | inr less ↦
            let few : length q.buffer < 28 = ground arith in
            rw (in_range_ok n input (omega arith), less)
              (record {
                left = es;
                asked = refl;
                follows =
                    subst (λ st. Follows trailing st q (drop n input ++ later) es) (sym ps)
                      (i, image, bytes', few, none_yet, at_start, asked);
              })
      ]
