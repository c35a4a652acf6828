-- ===== src/Simg/Image/Pieces.antt =====
-- A parser that follows an image still follows it after a call of `process`.
use mathlib.Core.Path.{subst}
use fls.Base.{
  ℕ, zero, suc, ◌+◌, ◌<◌, ◌≤◌, ◌≡◌, refl, ap, ◌∙◌, sym, true, List, [], ◌∷◌, ◌++◌, arith,
  Bool-cases, inl, inr, length, drop, Bytes, append_assoc, length-drop, drop_all,
}
use fls.Simg.Format.{Result, ok, err, panic, out_of_fuel, ◌>>=◌}
use fls.Simg.Parser.{
  ParserState, waiting_header, waiting_chunk_header, raw_data, complete, SparseParser, WriteCommand,
  Step, step_in, step, Processed, rounds, process,
}
use fls.Simg.Parser.Invariant.{IsValid, IsRound, Ensures}
use fls.Simg.Parser.Rounds.{step-IsRound}
use fls.Simg.Image.{Event, events}
use fls.Simg.Image.Follows.{Follows, Advanced, Advances, events-append}
use fls.Simg.Image.Follows.Rounds.{
  on_header_bytes-Advances, on_chunk_bytes-Advances, on_raw_bytes-Advances,
}

-- The parser and its commands have come to `later` in the image.
pub record Reached (trailing later : Bytes) (es : List Event) (p : SparseParser)
    (cs : List WriteCommand) : Type 0 where
  pub left : List Event
  pub asked : es ≡ events cs ++ left
  pub follows : Follows trailing p.state p later left
  pub valid : IsValid p

abbrev pub ReachedBy : Bytes → Bytes → List Event → Result Processed → Type 0
ReachedBy trailing later es (ok r) = Reached trailing later es r.parser r.commands
ReachedBy trailing later es _ = ⊥

module _ (trailing : Bytes) where
  step-Advances :
      (p : SparseParser) (st : ParserState) (input later : Bytes) (es : List Event)
      → p.state ≡ st
      → 0 < length input
      → Follows trailing st p (input ++ later) es
      → Advances trailing input later es (step_in st p input)
  unfolding step_in
  step-Advances p waiting_header input later es ps some_input f =
      on_header_bytes-Advances trailing input later p es ps f
  step-Advances p waiting_chunk_header input later es ps some_input f =
      on_chunk_bytes-Advances trailing input later p es ps f
  step-Advances p raw_data input later es ps some_input f =
      on_raw_bytes-Advances trailing input later p es ps some_input f
  step-Advances p complete input later es ps some_input f = record {
    left = es;
    asked = refl;
    follows = subst (λ st. Follows trailing st p (drop 0 input ++ later) es) (sym ps) f;
  }

  -- a completed parser does not look at what comes
  Follows-complete :
      (p : SparseParser) (rest rest' : Bytes) (es : List Event)
      → p.state ≡ complete
      → Follows trailing p.state p rest es
      → Follows trailing p.state p rest' es
  Follows-complete p rest rest' es ps f =
      subst (λ st. Follows trailing st p rest' es) (sym ps)
        (subst (λ st. Follows trailing st p rest es) ps f)

  stopped :
      (input later : Bytes) (es : List Event) (at : ℕ) (s : Step)
      → Advanced trailing input later es s
      → IsRound at (length input) s
      → s.stop ≡ true
      → Reached trailing later es s.parser s.commands
  stopped input later es at s a round stops = elim (round.at_end stops) [
    | inl all ↦ record {
      left = a.left;
      asked = a.asked;
      follows =
          subst (λ rest. Follows trailing s.parser.state s.parser (rest ++ later) a.left)
            (drop_all s.taken input (omega arith)) a.follows;
      valid = round.valid;
    }
    | inr done ↦ record {
      left = a.left;
      asked = a.asked;
      follows = Follows-complete s.parser _ later a.left done a.follows;
      valid = round.valid;
    }
  ]

  went_on :
      (later : Bytes) (es : List Event) (s : Step) (left : List Event) (r : Result Processed)
      → es ≡ events s.commands ++ left
      → ReachedBy trailing later left r
      → ReachedBy trailing later es (do
        rest ← r
        ok (record {
          parser = rest.parser;
          commands = s.commands ++ rest.commands;
          consumed = s.taken + rest.consumed;
        }))
  went_on later es s left (ok rest) asked b = record {
    left = b.left;
    asked =
        asked
        ∙ ap (λ t. events s.commands ++ t) b.asked
        ∙ sym (append_assoc (events s.commands) (events rest.commands) b.left)
        ∙ ap (λ t. t ++ b.left) (sym (events-append s.commands rest.commands));
    follows = b.follows;
    valid = b.valid;
  }
  went_on later es s left (err e) asked b = b
  went_on later es s left panic asked b = b
  went_on later es s left out_of_fuel asked b = b

  Advances-bind :
      (input later : Bytes) (es : List Event) (at : ℕ) (m : Result Step)
      (f : Step → Result Processed)
      → Advances trailing input later es m
      → Ensures (IsRound at (length input)) m
      → ((s : Step)
          → Advanced trailing input later es s
          → IsRound at (length input) s
          → ReachedBy trailing later es (f s))
      → ReachedBy trailing later es (m >>= f)
  Advances-bind input later es at (ok s) f a r k = k s a r
  Advances-bind input later es at (err e) f a r k = a
  Advances-bind input later es at panic f a r k = a
  Advances-bind input later es at out_of_fuel f a r k = a

  rounds-ReachedBy :
      (fuel : ℕ) (p : SparseParser) (input later : Bytes) (es : List Event)
      → IsValid p
      → length input ≤ fuel
      → Follows trailing p.state p (input ++ later) es
      → ReachedBy trailing later es (rounds fuel p input)
  unfolding rounds step
  rounds-ReachedBy fuel p [] later es v le f = record {
    left = es;
    asked = refl;
    follows = f;
    valid = v;
  }
  rounds-ReachedBy zero p (b ∷ r) later es v le f = absurd (omega arith)
  rounds-ReachedBy (suc fuel) p (b ∷ r) later es v le f =
      Advances-bind (b ∷ r) later es p.current_output_offset (step p (b ∷ r)) _
        (step-Advances p p.state (b ∷ r) later es refl (omega arith) f)
        (step-IsRound p (b ∷ r) v (omega arith))
        (λ s a round. elim (Bool-cases s.stop) [
          | inl stops ↦ rw stops (stopped (b ∷ r) later es p.current_output_offset s a round stops)
          | inr goes ↦
              let next =
                rounds-ReachedBy fuel s.parser (drop s.taken (b ∷ r)) later a.left round.valid
                  (omega (arith, length-drop s.taken (b ∷ r), round.progress goes)) a.follows in
              rw goes (went_on later es s a.left _ a.asked next)
        ])

  pub process-ReachedBy :
      (p : SparseParser) (input later : Bytes) (es : List Event)
      → IsValid p
      → Follows trailing p.state p (input ++ later) es
      → ReachedBy trailing later es (process p input)
  unfolding process
  process-ReachedBy p input later es v f =
      rounds-ReachedBy (length input) p input later es v (omega arith) f
