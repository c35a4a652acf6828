-- ===== src/Channel/Order.antt =====
-- The items of the channel of src/fls/byte_channel.rs come out in the order in which they went in,
-- and an empty channel takes any item.
use fls.Base.{
  ℕ, ◌≡◌, refl, ap, ◌∙◌, sym, inl, inr, true, false, List, [], ◌∷◌, ◌++◌, Option, none, some, ltb,
  leb, length, arith, Bytes, u32_max, Bool-cases, append_assoc, append-nil,
}
use fls.Channel.{
  Channel, permits_needed, byte_bounded_channel, acquire, acquire_if, enqueue, enqueue_if, recv,
  recv_if, Step, acquires, enqueues, receives, drops, Reachable, starts, steps,
}
use fls.Channel.Balance.{sent_items, in_flight, held, Then, Then-some, Reachable-Balanced}

abbrev IsOrdered : Channel → Type 0
IsOrdered c = c.closed ≡ false → c.received ++ in_flight c ≡ c.accepted

acquire-IsOrdered :
    (c : Channel) (item : Bytes) (o : Option Bytes)
    → c.sending ≡ o
    → IsOrdered c
    → Then IsOrdered (acquire_if o c item)
acquire-IsOrdered c item (some x) s h = tt
acquire-IsOrdered c item none s h =
    elim (Bool-cases (leb (permits_needed c.max_bytes item) c.permits)) [
      | inl enough ↦ rw enough (λ live.
          sym (append_assoc c.received c.queue (item ∷ []))
          ∙ ap (λ t. t ++ item ∷ [])
              (ap (λ t. c.received ++ t)
                  (sym (append-nil c.queue) ∙ ap (λ t. c.queue ++ sent_items t) (sym s))
                ∙ h live))
      | inr few ↦ rw few tt
    ]

enqueue-IsOrdered :
    (c : Channel) (o : Option Bytes) → c.sending ≡ o → IsOrdered c → Then IsOrdered (enqueue_if o c)
enqueue-IsOrdered c none s h = tt
enqueue-IsOrdered c (some item) s h = elim (Bool-cases c.closed) [
  | inl gone ↦ rw gone (λ live. absurd (ground arith))
  | inr here ↦ rw here (elim (Bool-cases (ltb (length c.queue) c.max_items)) [
    | inl room ↦ rw room (λ _.
        ap (λ t. c.received ++ t)
          (append-nil (c.queue ++ item ∷ []) ∙ ap (λ t. c.queue ++ sent_items t) (sym s))
        ∙ h here)
    | inr full ↦ rw full tt
  ])
]

recv-IsOrdered :
    (c : Channel) (queue : List Bytes)
    → c.queue ≡ queue
    → IsOrdered c
    → Then IsOrdered (recv_if queue c)
recv-IsOrdered c [] q h = tt
recv-IsOrdered c (item ∷ rest) q h = λ live.
    append_assoc c.received (item ∷ []) (rest ++ sent_items c.sending)
    ∙ ap (λ t. c.received ++ (t ++ sent_items c.sending)) (sym q)
    ∙ h live

Step-IsOrdered : (c d : Channel) → Step c d → IsOrdered c → IsOrdered d
unfolding acquire enqueue recv
Step-IsOrdered _ _ (acquires c d item e) h =
    Then-some IsOrdered (acquire c item) d (acquire-IsOrdered c item c.sending refl h) e
Step-IsOrdered _ _ (enqueues c d e) h =
    Then-some IsOrdered (enqueue c) d (enqueue-IsOrdered c c.sending refl h) e
Step-IsOrdered _ _ (receives c d e) h =
    Then-some IsOrdered (recv c) d (recv-IsOrdered c c.queue refl h) e
Step-IsOrdered _ _ (drops c) h = λ live. absurd (ground arith)

start-IsOrdered : (max items : ℕ) → Then IsOrdered (byte_bounded_channel max items)
unfolding byte_bounded_channel
start-IsOrdered max items = elim (Bool-cases (ltb u32_max max)) [
  | inl over ↦ rw over tt
  | inr fits ↦ rw fits (λ _. refl)
]

-- In every state that a channel comes to while its receiver lives, the items that came out, then
-- those in it, are the items that went in, in their order: none is lost, doubled or overtaken.
pub Reachable-order :
    {max items : ℕ} (c : Channel)
    → Reachable max items c
    → c.closed ≡ false
    → c.received ++ in_flight c ≡ c.accepted
Reachable-order {max} {items} _ (starts c e) =
    Then-some IsOrdered (byte_bounded_channel max items) c (start-IsOrdered max items) e
Reachable-order _ (steps c d r s) = Step-IsOrdered c d s (Reachable-order c r)

-- In every state that a channel comes to while its receiver lives, if all is received the next send
-- gets its permits at once, however large its item: an item above `max_bytes` is not stuck.
pub acquire_empty :
    {max items : ℕ} (c : Channel) (item : Bytes)
    → Reachable max items c
    → c.closed ≡ false
    → in_flight c ≡ []
    → c.sending ≡ none
    → (d : Channel) × (acquire c item ≡ some d)
unfolding acquire
acquire_empty c item r live nothing idle =
    let b = Reachable-Balanced c r in
    let all : c.permits ≡ c.max_bytes =
      omega (arith, b.counted live, ap (held c.max_bytes) nothing) in
    let enough : leb (permits_needed c.max_bytes item) c.permits ≡ true =
      ground (arith, all, b.small) in
    rw (idle, enough) (_, refl)
