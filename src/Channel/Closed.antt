-- ===== src/Channel/Closed.antt =====
-- The channel of src/fls/byte_channel.rs when its receiver is gone.
use mathlib.Core.Path.{subst}
use fls.Base.{
  ℕ, ◌≡◌, ◌<◌, ◌≤◌, refl, sym, inl, inr, true, false, [], Option, none, some, leb, arith, Bytes,
  Bool-cases,
}
use fls.Channel.{
  Channel, permits_needed, acquire, acquire_if, enqueue, enqueue_if, recv, recv_if, drop_receiver,
  Step, acquires, enqueues, receives, drops,
}
use fls.Channel.Balance.{Then, Then-some}

-- Any number of steps.
pub data Steps : Channel → Channel → Type 0 where
  here : (c : Channel) → Steps c c
  after : (c d e : Channel) → Steps c d → Step d e → Steps c e

-- What a dropped receiver leaves: no step gives permits back.
pub record IsDead (max permits : ℕ) (d : Channel) : Type 0 where
  pub size : d.max_bytes ≡ max
  pub closed : d.closed ≡ true
  pub empty : d.queue ≡ []
  pub bound : d.permits ≤ permits

module _ (max permits : ℕ) where
  acquire-IsDead :
      (d : Channel) (item : Bytes) (o : Option Bytes)
      → IsDead max permits d
      → Then (IsDead max permits) (acquire_if o d item)
  acquire-IsDead d item (some x) h = tt
  acquire-IsDead d item none h =
      elim (Bool-cases (leb (permits_needed d.max_bytes item) d.permits)) [
        | inl enough ↦ rw enough (record {
          size = h.size;
          closed = h.closed;
          empty = h.empty;
          bound = omega (arith, h.bound);
        })
        | inr few ↦ rw few tt
      ]

  enqueue-IsDead :
      (d : Channel) (o : Option Bytes)
      → IsDead max permits d
      → Then (IsDead max permits) (enqueue_if o d)
  enqueue-IsDead d none h = tt
  enqueue-IsDead d (some item) h =
      rw (h.closed) (record { size = h.size; closed = refl; empty = h.empty; bound = h.bound })

  Step-IsDead : (c d : Channel) → Step c d → IsDead max permits c → IsDead max permits d
  unfolding acquire enqueue recv
  Step-IsDead _ _ (acquires c d item e) h =
      Then-some (IsDead max permits) (acquire c item) d (acquire-IsDead c item c.sending h) e
  Step-IsDead _ _ (enqueues c d e) h =
      Then-some (IsDead max permits) (enqueue c) d (enqueue-IsDead c c.sending h) e
  Step-IsDead _ _ (receives c d e) h =
      Then-some (IsDead max permits) (recv c) d
        (subst (λ q. Then (IsDead max permits) (recv_if q c)) (sym h.empty) tt) e
  Step-IsDead _ _ (drops c) h = record {
    size = h.size;
    closed = refl;
    empty = refl;
    bound = h.bound;
  }

  Steps-IsDead : (c d : Channel) → Steps c d → IsDead max permits c → IsDead max permits d
  Steps-IsDead _ _ (here c) h = h
  Steps-IsDead _ _ (after c d e s t) h = Step-IsDead d e t (Steps-IsDead c d s h)

-- When the receiver is dropped while fewer permits are free than an item needs, its send never gets
-- them, in whatever state the channel comes to: the send waits for ever and no error is returned.
pub acquire-drop_receiver :
    (c d : Channel) (item : Bytes)
    → c.permits < permits_needed c.max_bytes item
    → Steps (drop_receiver c) d
    → acquire d item ≡ none
unfolding acquire
acquire-drop_receiver c d item few s =
    let dead =
      Steps-IsDead c.max_bytes c.permits (drop_receiver c) d s
        (record { size = refl; closed = refl; empty = refl; bound = omega arith }) in
    let lacking : leb (permits_needed d.max_bytes item) d.permits ≡ false =
      rw (dead.size) (ground (arith, dead.bound, few)) in
    by d.sending lacking
  where
    by :
        (o : Option Bytes)
        → leb (permits_needed d.max_bytes item) d.permits ≡ false
        → acquire_if o d item ≡ none
    by (some x) l = refl
    by none l = rw l refl
