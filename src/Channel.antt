-- ===== src/Channel.antt =====
-- src/fls/byte_channel.rs: the byte-bounded channel, with its one sender and its receiver. Each
-- operation is a function on the state that returns none while it has to wait. A send is two steps,
-- since it waits twice: for permits, and for room in the inner channel. The semaphore and the inner
-- channel count and queue as their documentation says.
pub mod Balance
pub mod Bound
pub mod Closed
pub mod Order
pub mod Reader
pub mod Tests
use fls.Base.{
  ◌≡◌, ℕ, ◌+◌, ◌-◌, ◌%◌, min, Bool, true, false, List, [], ◌∷◌, ◌++◌, Option, none, some, ltb, leb,
  if◌then◌else◌, length, Bytes, u32_mod, u32_max,
}

-- The receiver's and the sender's halves share the permits. `sending` is an item that has its
-- permits and waits for room; `closed` is a receiver that was dropped, with what it had queued;
-- `accepted` and `received` are what went in and came out.
pub record Channel : Type 0 where
  pub max_bytes : ℕ
  pub max_items : ℕ
  pub permits : ℕ
  pub sending : Option Bytes
  pub queue : List Bytes
  pub closed : Bool
  pub accepted : List Bytes
  pub received : List Bytes

-- `item.byte_size().min(self.max_bytes) as u32`
abbrev pub permits_needed : ℕ → Bytes → ℕ
permits_needed max_bytes item = min (length item) max_bytes % u32_mod

abbrev pub to_release : ℕ → Bytes → ℕ
to_release max_bytes item = min (length item) max_bytes

-- None is the panic on too many bytes.
unfoldable pub byte_bounded_channel : ℕ → ℕ → Option Channel
byte_bounded_channel max_bytes max_items =
    if ltb u32_max max_bytes
    then none
    else some (record {
      max_bytes = max_bytes;
      max_items = max_items;
      permits = max_bytes;
      sending = none;
      queue = [];
      closed = false;
      accepted = [];
      received = [];
    })

-- `send` up to its permits: it waits while there are too few. The next send begins when the last
-- one has ended.
abbrev pub acquire_if : Option Bytes → Channel → Bytes → Option Channel
acquire_if (some _) c item = none
acquire_if none c item =
    if leb (permits_needed c.max_bytes item) c.permits
    then some (record c {
      permits = c.permits - permits_needed c.max_bytes item;
      sending = some item;
      accepted = c.accepted ++ item ∷ [];
    })
    else none

unfoldable pub acquire : Channel → Bytes → Option Channel
acquire c item = acquire_if c.sending c item

-- The rest of `send`: into the inner channel, or an error if the receiver is gone.
abbrev pub enqueue_if : Option Bytes → Channel → Option Channel
enqueue_if none c = none
enqueue_if (some item) c =
    if c.closed
    then some (record c { sending = none })
    else if ltb (length c.queue) c.max_items
    then some (record c { sending = none; queue = c.queue ++ item ∷ [] })
    else none

unfoldable pub enqueue : Channel → Option Channel
enqueue c = enqueue_if c.sending c

-- `recv` and `blocking_recv` of an item
abbrev pub recv_if : List Bytes → Channel → Option Channel
recv_if [] c = none
recv_if (item ∷ rest) c = some (record c {
  permits = c.permits + to_release c.max_bytes item;
  queue = rest;
  received = c.received ++ item ∷ [];
})

unfoldable pub recv : Channel → Option Channel
recv c = recv_if c.queue c

-- The receiver is dropped: the semaphore is not closed.
abbrev pub drop_receiver : Channel → Channel
drop_receiver c = record c { queue = []; closed = true }

-- One step of either side.
pub data Step : Channel → Channel → Type 0 where
  acquires : (c d : Channel) (item : Bytes) → acquire c item ≡ some d → Step c d
  enqueues : (c d : Channel) → enqueue c ≡ some d → Step c d
  receives : (c d : Channel) → recv c ≡ some d → Step c d
  drops : (c : Channel) → Step c (drop_receiver c)

-- The states that a channel comes to.
pub data Reachable (max_bytes max_items : ℕ) : Channel → Type 0 where
  starts :
      (c : Channel)
      → byte_bounded_channel max_bytes max_items ≡ some c
      → Reachable max_bytes max_items c
  steps :
      (c d : Channel) → Reachable max_bytes max_items c → Step c d → Reachable max_bytes max_items d
