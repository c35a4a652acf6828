-- ===== src/Simg/Parser/Rounds.antt =====
-- `process` as a whole: what it returns on any input, what it consumes, and the
-- offset that its commands lead to.
use mathlib.Core.Path.{subst}
use mathlib.Core.Option.{some-injective}
use fls.Base.{
  ℕ, zero, suc, ◌+◌, ◌-◌, ◌<◌, ◌≤◌, ◌≡◌, refl, sym, ◌⊎◌, inl, inr, true, false, [], ◌∷◌, ◌++◌,
  arith, leb, Bool-cases, length, take, drop, min, Option, none, some, Bytes, wrapping_sub-eq,
  length-append, length-take, length-drop,
}
use fls.Simg.Format.{in_range_ok, SparseHeader, Result, ok, err, panic, out_of_fuel, ◌>>=◌}
use fls.Simg.Format.Header.{parse_header_returns}
use fls.Simg.Parser.{
  ParserState, waiting_header, waiting_chunk_header, raw_data, complete, SparseParser, new, Step,
  taken_for, buffer_up_to, on_header_bytes, on_chunk_bytes, on_raw_bytes, after_raw_bytes,
  check_complete, unwrap, step_in, step, Processed, rounds, process,
}
use fls.Simg.Parser.Invariant.{
  StateInv, IsValid, position, position-append, IsRound, Ensures, on_chunk_header-IsRound,
}

Ensures-unwrap :
    {A B : Type 0} (P : B → Type 0) (o : Option A) (a : A) (f : A → Result B)
    → o ≡ some a
    → Ensures P (f a)
    → Ensures P (unwrap o >>= f)
Ensures-unwrap P (some b) a f e h = subst (λ x. Ensures P (f x)) (sym (some-injective b a e)) h
Ensures-unwrap P none a f e h = cc

module _ (size : ℕ) (p : SparseParser) (input : Bytes) (room : length p.buffer < size) where
  pub taken_for-eq : taken_for size p input ≡ min (size - length p.buffer) (length input)
  taken_for-eq = rw (wrapping_sub-eq size (length p.buffer) (omega arith))

  pub length-buffer_up_to :
      length (buffer_up_to size p input).buffer ≡ length p.buffer + taken_for size p input
  length-buffer_up_to = omega (
    arith,
    taken_for-eq,
    length-append p.buffer (take (taken_for size p input) input),
    length-take (taken_for size p input) input,
  )

module _ (p : SparseParser) (input : Bytes) (v : IsValid p) (some_input : 0 < length input) where
  on_header_bytes-IsRound :
      p.state ≡ waiting_header
      → length p.buffer < 28
      → Ensures (IsRound p.current_output_offset (length input)) (on_header_bytes p input)
  unfolding on_header_bytes
  on_header_bytes-IsRound s room =
      let read = buffer_up_to 28 p input in
      ground (
        arith,
        taken_for-eq 28 p input room,
        length-buffer_up_to 28 p input room,
        parse_header_returns read.buffer,
      )

  on_chunk_bytes-IsRound :
      (h : SparseHeader)
      → p.state ≡ waiting_chunk_header
      → p.header ≡ some h
      → length p.buffer < 16
      → Ensures (IsRound p.current_output_offset (length input)) (on_chunk_bytes p input)
  unfolding on_chunk_bytes
  on_chunk_bytes-IsRound h s ph room =
      let read = buffer_up_to 16 p input in
      let eq = taken_for-eq 16 p input room in
      let grown = length-buffer_up_to 16 p input room in
      elim (Bool-cases (leb 12 (length read.buffer))) [
        | inl enough ↦
            rw (in_range_ok (taken_for 16 p input) input (omega arith), enough)
              (Ensures-unwrap (IsRound p.current_output_offset (length input)) p.header h _ ph (
                on_chunk_header-IsRound p.current_output_offset (length input) h read
                  (taken_for 16 p input) _ refl ph s v.offset_fits v.chunks_fit refl (omega arith)
                  (λ short. omega arith) (omega arith) (omega arith)))
        | inr less ↦
            rw (in_range_ok (taken_for 16 p input) input (omega arith), less)
              (record {
                valid = record {
                  offset_fits = v.offset_fits;
                  chunks_fit = v.chunks_fit;
                  state_inv = rw s (h, ph, ground arith);
                };
                taken_le = omega arith;
                progress = λ x. omega arith;
                at_end = λ x. cc;
                offset_is = refl;
              })
      ]

  on_raw_bytes-IsRound :
      (h : SparseHeader)
      → p.state ≡ raw_data
      → p.header ≡ some h
      → 0 < p.raw_remaining
      → Ensures (IsRound p.current_output_offset (length input)) (on_raw_bytes p input)
  unfolding on_raw_bytes after_raw_bytes check_complete
  on_raw_bytes-IsRound h s ph more =
      ground (arith, length-take (min p.raw_remaining (length input)) input)

  step_in-IsRound :
      (st : ParserState)
      → p.state ≡ st
      → StateInv st p
      → Ensures (IsRound p.current_output_offset (length input)) (step_in st p input)
  unfolding step_in
  step_in-IsRound waiting_header s i = on_header_bytes-IsRound s i
  step_in-IsRound waiting_chunk_header s (h, ph, room) = on_chunk_bytes-IsRound h s ph room
  step_in-IsRound raw_data s (h, ph, more, fits) = on_raw_bytes-IsRound h s ph more
  step_in-IsRound complete s i = record {
    valid = v;
    taken_le = omega arith;
    progress = λ x. cc;
    at_end = λ x. inr s;
    offset_is = refl;
  }

-- A call of `process`, from a writer at `at` and an input of `size` bytes.
pub record IsProcessed (at size : ℕ) (r : Processed) : Type 0 where
  pub valid : IsValid r.parser
  pub consumed_le : r.consumed ≤ size
  pub consumed_all : (r.consumed ≡ size) ⊎ (r.parser.state ≡ complete)
  pub offset_is : position at r.commands ≡ r.parser.current_output_offset

-- one round, then the rest
after_round :
    (at size : ℕ) (s : Step) (r : Result Processed)
    → IsRound at size s
    → s.stop ≡ false
    → Ensures (IsProcessed s.parser.current_output_offset (size - s.taken)) r
    → Ensures (IsProcessed at size) (do
      rest ← r
      ok (record {
        parser = rest.parser;
        commands = s.commands ++ rest.commands;
        consumed = s.taken + rest.consumed;
      }))
after_round at size s (ok rest) round going p =
    ground (arith, position-append at s.commands rest.commands)
after_round at size s (err e) round going p = tt
after_round at size s panic round going p = p
after_round at size s out_of_fuel round going p = p

stopped :
    (at size : ℕ) (s : Step)
    → IsRound at size s
    → s.stop ≡ true
    → IsProcessed at size (record { parser = s.parser; commands = s.commands; consumed = s.taken })
stopped at size s round stops = record {
  valid = round.valid;
  consumed_le = round.taken_le;
  consumed_all = round.at_end stops;
  offset_is = round.offset_is;
}

pub step-IsRound :
    (p : SparseParser) (input : Bytes)
    → IsValid p
    → 0 < length input
    → Ensures (IsRound p.current_output_offset (length input)) (step p input)
unfolding step
step-IsRound p input v some_input = step_in-IsRound p input v some_input p.state refl v.state_inv

Ensures-bind :
    {A B : Type 0} (P : A → Type 0) (Q : B → Type 0) (m : Result A) (f : A → Result B)
    → Ensures P m
    → ((a : A) → P a → Ensures Q (f a))
    → Ensures Q (m >>= f)
Ensures-bind P Q (ok a) f h k = k a h
Ensures-bind P Q (err e) f h k = tt
Ensures-bind P Q panic f h k = h
Ensures-bind P Q out_of_fuel f h k = h

rounds-IsProcessed :
    (fuel : ℕ) (p : SparseParser) (input : Bytes)
    → IsValid p
    → length input ≤ fuel
    → Ensures (IsProcessed p.current_output_offset (length input)) (rounds fuel p input)
unfolding rounds
rounds-IsProcessed fuel p [] v le = record {
  valid = v;
  consumed_le = omega arith;
  consumed_all = inl refl;
  offset_is = refl;
}
rounds-IsProcessed zero p (b ∷ r) v le = absurd (omega arith)
rounds-IsProcessed (suc fuel) p (b ∷ r) v le =
    Ensures-bind (IsRound p.current_output_offset (length (b ∷ r))) _ (step p (b ∷ r)) _
      (step-IsRound p (b ∷ r) v (omega arith))
      (λ s round. elim (Bool-cases s.stop) [
        | inl stops ↦ rw stops (stopped p.current_output_offset (length (b ∷ r)) s round stops)
        | inr goes ↦
            let rest =
              rounds-IsProcessed fuel s.parser (drop s.taken (b ∷ r)) round.valid
                (omega (arith, length-drop s.taken (b ∷ r), round.progress goes)) in
            rw goes (
              after_round p.current_output_offset (length (b ∷ r)) s _ round goes
                (rw length-drop at rest))
      ])

-- From a valid parser, `process` returns commands or an error on any input: it never unwraps a
-- missing header, no index, slice or drain is out of range, and a round for each byte is enough.
-- Where it returns, the parser is valid again (room in the buffer, a header where one is unwrapped,
-- and at completion the offset `total_blocks * block_size` after `total_chunks` chunks), all of the
-- input is consumed or the image is complete, and a writer that stands at the parser's offset and
-- carries out the commands stands at the new offset.
pub process-IsProcessed :
    (p : SparseParser) (input : Bytes)
    → IsValid p
    → Ensures (IsProcessed p.current_output_offset (length input)) (process p input)
unfolding process
process-IsProcessed p input v = rounds-IsProcessed (length input) p input v (omega arith)

pub new-IsValid : IsValid new
new-IsValid = omega arith
