-- ===== src/Channel/Tests.antt =====
-- Runs of the byte-bounded channel of src/fls/byte_channel.rs and of the reader of
-- src/fls/stream_utils.rs.
use fls.Base.{◌≤◌, ◌≡◌, refl, ◌⊎◌, false, [], ◌∷◌, ◌++◌, none, some, arith, Bytes}
use fls.Channel.{
  Channel, byte_bounded_channel, acquire, enqueue, drop_receiver, acquires, enqueues, Reachable,
  starts, steps,
}
use fls.Channel.Balance.{in_flight, bytes_of}
use fls.Channel.Bound.{IsAlone, Reachable-bytes}
use fls.Channel.Order.{Reachable-order, acquire_empty}
use fls.Channel.Closed.{here, acquire-drop_receiver}
use fls.Channel.Reader.{
  ChannelReader, new_byte_bounded, with_progress, remaining_of, IsRead, read, read_from,
  read-IsRead,
}

abbrev three : Bytes
three = 1 ∷ 2 ∷ 3 ∷ []

-- A channel of four bytes: empty, with three bytes that wait for room, and with them queued.
abbrev empty_channel : Channel
empty_channel = record {
  max_bytes = 4;
  max_items = 2;
  permits = 4;
  sending = none;
  queue = [];
  closed = false;
  accepted = [];
  received = [];
}

abbrev sending_channel : Channel
sending_channel = record empty_channel { permits = 1; sending = some three; accepted = three ∷ [] }

abbrev full_channel : Channel
full_channel = record sending_channel { sending = none; queue = three ∷ [] }

empty_channel-Reachable : Reachable 4 2 empty_channel
unfolding byte_bounded_channel
empty_channel-Reachable = starts empty_channel refl

full_channel-Reachable : Reachable 4 2 full_channel
unfolding acquire enqueue
full_channel-Reachable =
    steps sending_channel full_channel
      (steps empty_channel sending_channel empty_channel-Reachable
        (acquires empty_channel sending_channel three refl))
      (enqueues sending_channel full_channel refl)

Reachable-bytes_example :
    (bytes_of (in_flight full_channel) ≤ 4) ⊎ IsAlone 4 (in_flight full_channel)
Reachable-bytes_example = Reachable-bytes 4 2 full_channel (omega arith) full_channel-Reachable refl

Reachable-order_example : full_channel.received ++ in_flight full_channel ≡ full_channel.accepted
Reachable-order_example = Reachable-order full_channel full_channel-Reachable refl

acquire_empty_example : (d : Channel) × (acquire empty_channel (1 ∷ 2 ∷ 3 ∷ 4 ∷ 5 ∷ []) ≡ some d)
acquire_empty_example =
    acquire_empty empty_channel (1 ∷ 2 ∷ 3 ∷ 4 ∷ 5 ∷ []) empty_channel-Reachable refl refl refl

acquire-drop_receiver_example : acquire (drop_receiver full_channel) three ≡ none
acquire-drop_receiver_example =
    acquire-drop_receiver full_channel (drop_receiver full_channel) three (omega arith)
      (here (drop_receiver full_channel))

abbrev some_reader : ChannelReader
some_reader = with_progress (new_byte_bounded ([] ∷ three ∷ (4 ∷ []) ∷ []))

read-IsRead_example :
    IsRead
      (remaining_of some_reader.current some_reader.offset ∷ some_reader.coming)
      2
      (read some_reader 2)
read-IsRead_example = read-IsRead some_reader 2

-- the reader passes over the empty item and copies what fits
small_reader_run : read some_reader 2 ≡ (
  record { coming = (4 ∷ []) ∷ []; current = some three; offset = 2; progress = some (0 ∷ 3 ∷ []) },
  1 ∷ 2 ∷ [],
)
unfolding read read_from
small_reader_run = refl
