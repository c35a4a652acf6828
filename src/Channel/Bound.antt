-- ===== src/Channel/Bound.antt =====
-- How much the channel of src/fls/byte_channel.rs buffers.
use mathlib.Core.Path.{subst}
use fls.Base.{
  ℕ, ◌-◌, ◌<◌, ◌≤◌, ◌≡◌, refl, ap, ◌⊎◌, inl, inr, false, List, [], ◌∷◌, ◌++◌, length, arith, Bytes,
}
use fls.Channel.Balance.{held, in_flight, bytes_of, Reachable-Balanced, Reachable-max_bytes}
use fls.Channel.{Channel, Reachable}

held_none : (max : ℕ) (xs : List Bytes) → 0 < max → held max xs ≡ 0 → bytes_of xs ≡ 0
held_none max [] some_max h = refl
held_none max (x ∷ xs) some_max h =
    let rest = held_none max xs some_max (omega (arith, h)) in omega (arith, rest, h)

-- All of the bytes in one item, which takes all of the permits
pub record IsAlone (max : ℕ) (xs : List Bytes) : Type 0 where
  pub item : Bytes
  pub before : List Bytes
  pub after : List Bytes
  pub among : xs ≡ before ++ item ∷ after
  pub large : max ≤ length item
  pub all : bytes_of xs ≡ length item

held_bound :
    (max budget : ℕ) (xs : List Bytes)
    → 0 < max
    → budget ≤ max
    → held max xs ≤ budget
    → (bytes_of xs ≤ budget) ⊎ ((max ≤ budget) × IsAlone max xs)
held_bound max budget [] some_max le h = inl (omega arith)
held_bound max budget (x ∷ xs) some_max le h = elim (small_or_large max x) [
  | inl small ↦
      elim (held_bound max (budget - length x) xs some_max (omega arith)
        (omega (arith, h, small))) [
          | inl fits ↦ inl (omega (arith, fits, h, small))
          | inr (full, a) ↦ inr (
            omega arith,
            record {
              item = a.item;
              before = x ∷ a.before;
              after = a.after;
              among = ap (λ t. x ∷ t) a.among;
              large = a.large;
              all = omega (arith, a.all, full, le, some_max);
            },
          )
        ]
  | inr large ↦
      let none_left = held_none max xs some_max (omega (arith, h, large)) in
      inr (
        omega (arith, h, large),
        record {
          item = x;
          before = [];
          after = xs;
          among = refl;
          large = large;
          all = omega (arith, none_left);
        },
      )
]
  where
    small_or_large : (max : ℕ) (x : Bytes) → (length x < max) ⊎ (max ≤ length x)
    small_or_large max x = omega arith

-- In every state that a channel of some bytes comes to while its receiver lives, the bytes in it, an
-- item that waits for room included, are at most `max_bytes`, or there is an item of that size or
-- more and no other byte.
pub Reachable-bytes :
    (max items : ℕ) (c : Channel)
    → 0 < max
    → Reachable max items c
    → c.closed ≡ false
    → (bytes_of (in_flight c) ≤ max) ⊎ IsAlone max (in_flight c)
Reachable-bytes max items c some_max r live =
    let size = Reachable-max_bytes c r in
    elim (held_bound max max (in_flight c) some_max (omega arith) (
      subst (λ m. held m (in_flight c) ≤ max) size
        (omega (arith, (Reachable-Balanced c r).counted live, size)))) [
          | inl fits ↦ inl fits
          | inr (_, alone) ↦ inr alone
        ]
