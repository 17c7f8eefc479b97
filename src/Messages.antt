-- ===== src/Messages.antt =====
-- src/common/comms/messages/message.py and src/common/comms/middleware/stamping_mom.py: the layout
-- of a message on the wire, [type:1][client_id:16][producer_id:16][seq:8][payload], and the
-- stamping of its header. A byte is a number; the payload's msgpack bytes are kept as they are.
pub mod Header
pub mod Numbers
pub mod Values
pub mod Keyed
pub mod Moments
pub mod Nodes
pub mod Bodies
pub mod Rows
pub mod Reading
pub mod Payload
pub mod Packable
pub mod Sendable
pub mod RoundTrip
use distribuidos_tp_money_la.Prelude.{
  ℕ, zero, suc, ◌+◌, ◌*◌, ◌/◌, ◌%◌, ◌-◌, Bool, true, false, Option, none, some, List, [], ◌∷◌, ◌++◌,
  take, drop, length, if◌then◌else◌, ◌==◌, nat_eq, ltb, replicate, ◌^◌,
}
use distribuidos_tp_money_la.Collections.PySet.{mem}

-- raw[start:stop]
abbrev pub slice {ℓ} : {A : Type ℓ} → ℕ → ℕ → List A → List A
slice start stop raw = take (stop - start) (drop start raw)

pub record RawMessage : Type 0 where
  pub type_byte : ℕ
  pub client_id : List ℕ
  pub producer_id : List ℕ
  pub seq : ℕ
  pub payload : List ℕ

-- int.to_bytes(width, "big"), for a number below 256 ** width
unfoldable pub to_bytes : ℕ → ℕ → List ℕ
to_bytes zero n = []
to_bytes (suc width) n = to_bytes width (n / 256) ++ (n % 256) ∷ []

-- int.from_bytes(raw, "big")
unfoldable pub from_bytes : ℕ → List ℕ → ℕ
from_bytes acc [] = acc
from_bytes acc (b ∷ raw) = from_bytes (acc * 256 + b) raw

-- `Message.serialize`; to_bytes raises OverflowError on a number that does not fit
unfoldable pub serialize : RawMessage → Option (List ℕ)
unfolding to_bytes
serialize m =
    if ltb m.seq (256 ^ 8)
    then some (m.type_byte ∷ m.client_id ++ (m.producer_id ++ (to_bytes 8 m.seq ++ m.payload)))
    else none

-- `peek_type` of deserialize_message.py
unfoldable pub peek_type : List ℕ → Option ℕ
peek_type [] = none
peek_type (t ∷ raw) = some t

-- the header that `Message.deserialize` reads: UUID(bytes=...) raises unless it gets 16 bytes
unfoldable pub deserialize : ℕ → List ℕ → Option RawMessage
unfolding from_bytes
deserialize expected [] = none
deserialize expected (t ∷ rest) =
    let raw = t ∷ rest in
    if t == expected
    then if length (slice 1 17 raw) == 16
      then some (record {
        type_byte = t;
        client_id = slice 1 17 raw;
        producer_id = slice 17 33 raw;
        seq = from_bytes 0 (slice 33 41 raw);
        payload = drop 41 raw;
      })
      else none
    else none

-- `StampingMOM`: an id, and the counter that its clones share
pub record Stamper : Type 0 where
  pub producer_id : List ℕ
  pub counter : ℕ

-- message[:17] + producer_id + seq.to_bytes(8, "big") + message[41:]
unfoldable pub stamp : List ℕ → ℕ → List ℕ → List ℕ
unfolding to_bytes
stamp producer seq raw = take 17 raw ++ (producer ++ (to_bytes 8 seq ++ drop 41 raw))

-- `_SeqCounter.next`: the counter afterwards, which is also the number it gives
unfoldable pub next_seq : ℕ → ℕ
next_seq counter = counter + 1

-- `StampingMOM.send`: what goes to the inner MOM. `unstamped` are the types of control messages.
-- `none` where to_bytes or peek_type raises.
unfoldable pub send : List ℕ → List ℕ → Stamper → Option (Stamper × List ℕ)
unfolding stamp mem peek_type next_seq
send unstamped raw s =
    let seq = next_seq s.counter in
    elim (peek_type raw) [
      | none ↦ none
      | some t ↦
          if mem t unstamped
          then some (s, raw)
          else if ltb seq (256 ^ 8)
          then some (record s { counter = seq }, stamp s.producer_id seq raw)
          else none
    ]

-- `StampingMOM.send_stamped`
unfoldable pub send_stamped : List ℕ → List ℕ → List ℕ → ℕ → Option (List ℕ)
unfolding stamp mem peek_type
send_stamped unstamped raw producer seq = elim (peek_type raw) [
  | none ↦ none
  | some t ↦
      if mem t unstamped
      then some raw
      else if ltb seq (256 ^ 8)
      then some (stamp producer seq raw)
      else none
]

-- `restore_seq`
unfoldable pub restore_seq : ℕ → Stamper → Stamper
restore_seq value s = record s { counter = value }

-- `ClientStreamHandler._stamp_id` of src/gateway/client_stream_handler.py
unfoldable pub stamp_id : List ℕ → List ℕ → List ℕ
stamp_id id raw = take 1 raw ++ (id ++ drop 17 raw)
