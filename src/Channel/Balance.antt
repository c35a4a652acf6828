-- ===== src/Channel/Balance.antt =====
-- Each permit of the channel of src/fls/byte_channel.rs is free or held.
use mathlib.Core.Path.{subst}
use fls.Base.{
  ℕ, ◌+◌, ◌≤◌, ◌≡◌, refl, ap, ◌∙◌, sym, inl, inr, true, false, List, [], ◌∷◌, ◌++◌, Option, none,
  some, ltb, leb, length, arith, Bytes, u32_max, Bool-cases,
}
use fls.Channel.{
  Channel, permits_needed, to_release, byte_bounded_channel, acquire, acquire_if, enqueue,
  enqueue_if, recv, recv_if, Step, acquires, enqueues, receives, drops, Reachable, starts, steps,
}

abbrev pub sent_items : Option Bytes → List Bytes
sent_items none = []
sent_items (some item) = item ∷ []

-- What the channel holds, an item that waits for room too.
abbrev pub in_flight : Channel → List Bytes
in_flight c = c.queue ++ sent_items c.sending

abbrev pub bytes_of : List Bytes → ℕ
bytes_of [] = 0
bytes_of (item ∷ rest) = length item + bytes_of rest

-- The permits that items hold
abbrev pub held : ℕ → List Bytes → ℕ
held max [] = 0
held max (item ∷ rest) = to_release max item + held max rest

pub held-append : (max : ℕ) (xs ys : List Bytes) → held max (xs ++ ys) ≡ held max xs + held max ys
held-append max [] ys = omega arith
held-append max (x ∷ xs) ys = omega (arith, held-append max xs ys)

-- While the receiver lives, each permit is free or held by an item in flight; after it only the
-- bound on the free permits is left.
pub record Balanced (c : Channel) : Type 0 where
  pub small : c.max_bytes ≤ u32_max
  pub counted : c.closed ≡ false → c.permits + held c.max_bytes (in_flight c) ≡ c.max_bytes
  pub empty : c.closed ≡ true → c.queue ≡ []

-- Where an operation does not wait
abbrev pub Then : (Channel → Type 0) → Option Channel → Type 0
Then P none = Unit
Then P (some d) = P d

pub Then-some :
    (P : Channel → Type 0) (o : Option Channel) (d : Channel) → Then P o → o ≡ some d → P d
Then-some P o d t e = subst (Then P) e t

counted_with :
    (c : Channel) (o : Option Bytes) (queue : List Bytes)
    → c.sending ≡ o
    → c.queue ≡ queue
    → Balanced c
    → c.closed ≡ false
    → c.permits + (held c.max_bytes queue + held c.max_bytes (sent_items o)) ≡ c.max_bytes
counted_with c o queue s q b live =
    ap (λ t. c.permits + t)
      (sym (held-append c.max_bytes queue (sent_items o))
        ∙ ap (λ t. held c.max_bytes (t ++ sent_items o)) (sym q)
        ∙ ap (λ t. held c.max_bytes (c.queue ++ sent_items t)) (sym s))
    ∙ b.counted live

acquire-Balanced :
    (c : Channel) (item : Bytes) (o : Option Bytes)
    → c.sending ≡ o
    → Balanced c
    → Then Balanced (acquire_if o c item)
acquire-Balanced c item (some x) s b = tt
acquire-Balanced c item none s b =
    elim (Bool-cases (leb (permits_needed c.max_bytes item) c.permits)) [
      | inl enough ↦ rw enough (record {
        small = b.small;
        counted = λ live. ground (
          arith,
          counted_with c none c.queue s refl b live,
          held-append c.max_bytes c.queue (item ∷ []),
          b.small,
        );
        empty = b.empty;
      })
      | inr few ↦ rw few tt
    ]

enqueue-Balanced :
    (c : Channel) (o : Option Bytes) → c.sending ≡ o → Balanced c → Then Balanced (enqueue_if o c)
enqueue-Balanced c none s b = tt
enqueue-Balanced c (some item) s b = elim (Bool-cases c.closed) [
  | inl gone ↦ rw gone (record {
    small = b.small;
    counted = λ live. absurd (ground arith);
    empty = λ _. b.empty gone;
  })
  | inr here ↦ rw here (elim (Bool-cases (ltb (length c.queue) c.max_items)) [
    | inl room ↦ rw room (record {
      small = b.small;
      counted = λ _. omega (
        arith,
        counted_with c (some item) c.queue s refl b here,
        held-append c.max_bytes (c.queue ++ item ∷ []) [],
        held-append c.max_bytes c.queue (item ∷ []),
      );
      empty = λ x. absurd (ground arith);
    })
    | inr full ↦ rw full tt
  ])
]

cons_nil : (item : Bytes) (rest : List Bytes) → (item ∷ rest) ≡ [] → ⊥
cons_nil item rest e = ground arith

recv-Balanced :
    (c : Channel) (queue : List Bytes)
    → c.queue ≡ queue
    → Balanced c
    → Then Balanced (recv_if queue c)
recv-Balanced c [] q b = tt
recv-Balanced c (item ∷ rest) q b = record {
  small = b.small;
  counted = λ live. omega (
    arith,
    counted_with c c.sending (item ∷ rest) refl q b live,
    held-append c.max_bytes rest (sent_items c.sending),
  );
  empty = λ gone. absurd (cons_nil item rest (sym q ∙ b.empty gone));
}

Step-Balanced : (c d : Channel) → Step c d → Balanced c → Balanced d
unfolding acquire enqueue recv
Step-Balanced _ _ (acquires c d item e) b =
    Then-some Balanced (acquire c item) d (acquire-Balanced c item c.sending refl b) e
Step-Balanced _ _ (enqueues c d e) b =
    Then-some Balanced (enqueue c) d (enqueue-Balanced c c.sending refl b) e
Step-Balanced _ _ (receives c d e) b =
    Then-some Balanced (recv c) d (recv-Balanced c c.queue refl b) e
Step-Balanced _ _ (drops c) b = record {
  small = b.small;
  counted = λ live. absurd (ground arith);
  empty = λ _. refl;
}

start-Balanced : (max items : ℕ) → Then Balanced (byte_bounded_channel max items)
unfolding byte_bounded_channel
start-Balanced max items = elim (Bool-cases (ltb u32_max max)) [
  | inl over ↦ rw over tt
  | inr fits ↦
      rw fits (record { small = ground arith; counted = λ _. omega arith; empty = λ _. refl })
]

pub Reachable-Balanced : {max items : ℕ} (c : Channel) → Reachable max items c → Balanced c
Reachable-Balanced {max} {items} _ (starts c e) =
    Then-some Balanced (byte_bounded_channel max items) c (start-Balanced max items) e
Reachable-Balanced _ (steps c d r s) = Step-Balanced c d s (Reachable-Balanced c r)

Step-max_bytes : (c d : Channel) → Step c d → d.max_bytes ≡ c.max_bytes
unfolding acquire enqueue recv
Step-max_bytes _ _ (acquires c d item e) =
    Then-some (λ x. x.max_bytes ≡ c.max_bytes) (acquire c item) d (by c.sending) e
  where
    by : (o : Option Bytes) → Then (λ x. x.max_bytes ≡ c.max_bytes) (acquire_if o c item)
    by (some x) = tt
    by none = elim (Bool-cases (leb (permits_needed c.max_bytes item) c.permits)) [
      | inl t ↦ rw t refl
      | inr f ↦ rw f tt
    ]
Step-max_bytes _ _ (enqueues c d e) =
    Then-some (λ x. x.max_bytes ≡ c.max_bytes) (enqueue c) d (by c.sending) e
  where
    by : (o : Option Bytes) → Then (λ x. x.max_bytes ≡ c.max_bytes) (enqueue_if o c)
    by none = tt
    by (some item) = elim (Bool-cases c.closed) [
      | inl t ↦ rw t refl
      | inr f ↦ rw f (elim (Bool-cases (ltb (length c.queue) c.max_items)) [
        | inl t ↦ rw t refl
        | inr f ↦ rw f tt
      ])
    ]
Step-max_bytes _ _ (receives c d e) =
    Then-some (λ x. x.max_bytes ≡ c.max_bytes) (recv c) d (by c.queue) e
  where
    by : (q : List Bytes) → Then (λ x. x.max_bytes ≡ c.max_bytes) (recv_if q c)
    by [] = tt
    by (item ∷ rest) = refl
Step-max_bytes _ _ (drops c) = refl

start-max_bytes : (max items : ℕ) → Then (λ c. c.max_bytes ≡ max) (byte_bounded_channel max items)
unfolding byte_bounded_channel
start-max_bytes max items = elim (Bool-cases (ltb u32_max max)) [
  | inl over ↦ rw over tt
  | inr fits ↦ rw fits refl
]

pub Reachable-max_bytes : {max items : ℕ} (c : Channel) → Reachable max items c → c.max_bytes ≡ max
Reachable-max_bytes {max} {items} _ (starts c e) =
    Then-some (λ c. c.max_bytes ≡ max) (byte_bounded_channel max items) c
      (start-max_bytes max items) e
Reachable-max_bytes _ (steps c d r s) = Step-max_bytes c d s ∙ Reachable-max_bytes c r
