-- ===== src/Oci/Tar/Peek.antt =====
-- src/fls/oci/from_oci.rs: `MagicDetectingReader`, which looks at the first bytes of a stream and gives
-- them again. The reader within is what it still holds and how much each read gives at most; a read
-- gives something while it holds something. Errors of that reader are left out.
pub mod Remaining
pub mod Kept
use mathlib.Core.List.{flatten}
use fls.Base.{
  drop-drop, drop-append, ℕ, zero, suc, ◌+◌, ◌-◌, ◌≤◌, ◌<◌, ◌≡◌, refl, ap, sym, ◌∙◌, ◌⊎◌, inl, inr,
  Bool, true, false, List, [], ◌∷◌, ◌++◌, arith, Bool-cases, append_assoc, append-nil, Bytes,
  length, take, drop, min, ltb, if◌then◌else◌, take-append-drop, length-append, length-take,
  drop_all, drop_nil, take_all,
}

pub record Source : Type 0 where
  pub held : Bytes
  pub at_most : List ℕ

-- how much the next read gives at most, and then
abbrev pub next_at_most : List ℕ → ℕ → ℕ
next_at_most [] n = n
next_at_most (m ∷ ms) n = min (suc m) n

abbrev pub later_at_most : List ℕ → List ℕ
later_at_most [] = []
later_at_most (m ∷ ms) = ms

abbrev pub read_source : ℕ → Source → Bytes × Source
read_source n s = (
  take (next_at_most s.at_most n) s.held,
  record { held = drop (next_at_most s.at_most n) s.held; at_most = later_at_most s.at_most },
)

pub record MagicDetectingReader : Type 0 where
  pub inner : Source
  pub peeked : Bytes
  pub peek_pos : ℕ

abbrev pub reader : Source → MagicDetectingReader
reader s = record { inner = s; peeked = []; peek_pos = 0 }

abbrev pub is_nothing : Bytes → Bool
is_nothing [] = true
is_nothing (b ∷ bytes) = false

abbrev pub peeked_more : MagicDetectingReader → Bytes × Source → MagicDetectingReader
peeked_more r (bytes, s) = record r { inner = s; peeked = r.peeked ++ bytes }

-- The loop of `peek_bytes`, on fuel: each round but the last peeks a byte at least.
unfoldable pub fill_peeked : ℕ → ℕ → MagicDetectingReader → MagicDetectingReader
fill_peeked zero wanted r = r
fill_peeked (suc fuel) wanted r = elim (ltb (length r.peeked) wanted) [
  | false ↦ r
  | true ↦ elim (is_nothing (read_source 1024 r.inner).0) [
    | true ↦ peeked_more r (read_source 1024 r.inner)
    | false ↦ fill_peeked fuel wanted (peeked_more r (read_source 1024 r.inner))
  ]
]

-- `peek_bytes`, on a buffer of zeros: what it holds then
unfoldable pub peek_bytes : ℕ → MagicDetectingReader → Bytes × MagicDetectingReader
unfolding fill_peeked
peek_bytes wanted r =
    let q = fill_peeked wanted wanted r in (take (min wanted (length q.peeked)) q.peeked, q)

abbrev pub read_peeked : ℕ → MagicDetectingReader → Bytes × MagicDetectingReader
read_peeked n r = (
  take (min n (length r.peeked - r.peek_pos)) (drop r.peek_pos r.peeked),
  record r { peek_pos = r.peek_pos + min n (length r.peeked - r.peek_pos) },
)

abbrev pub read_inner : MagicDetectingReader → Bytes × Source → Bytes × MagicDetectingReader
read_inner r (bytes, s) = (bytes, record r { inner = s })

-- `read`, into a buffer of a size
unfoldable pub read : ℕ → MagicDetectingReader → Bytes × MagicDetectingReader
read n r =
    if ltb r.peek_pos (length r.peeked)
    then read_peeked n r
    else read_inner r (read_source n r.inner)

-- Reads of given sizes, and the reader after them
unfoldable pub read_all : List ℕ → MagicDetectingReader → Bytes × MagicDetectingReader
unfolding read
read_all [] r = ([], r)
read_all (n ∷ sizes) r =
    let (given, q) = read n r in let (rest, p) = read_all sizes q in (given ++ rest, p)
