-- ===== src/Gateway.antt =====
-- src/gateway/client_stream_handler.py: the forwarding of one client's stream to the shards.
-- A message that arrives is told apart by its type; `conn.recv` returning nothing is `closed`.
pub mod Forwarding
use distribuidos_tp_money_la.Prelude.{
  ℕ, zero, suc, ◌+◌, ◌%◌, Bool, true, false, List, [], ◌∷◌, ◌++◌, if◌then◌else◌, ◌==◌, nat_eq,
  replicate,
}
use distribuidos_tp_money_la.Messages.{stamp_id}

pub data Incoming : Type 0 where
  data_msg : List ℕ → Incoming
  eof_msg : Incoming
  other_msg : Incoming
  closed : Incoming

-- What a shard is sent: a message, the EOF with its expected count, or an abort.
pub data Sent : Type 0 where
  sent_data : List ℕ → Sent
  sent_eof : ℕ → Sent
  sent_abort : Sent

-- counts[i] += 1
unfoldable pub increment : ℕ → List ℕ → List ℕ
increment i [] = []
increment zero (c ∷ counts) = (c + 1) ∷ counts
increment (suc i) (c ∷ counts) = c ∷ increment i counts

-- for i, tx in enumerate(shard_txs): tx.send(EOF(self.id, expected_count=counts[i]))
unfoldable pub send_eofs : ℕ → List ℕ → List (ℕ × Sent)
send_eofs i [] = []
send_eofs i (c ∷ counts) = (i, sent_eof c) ∷ send_eofs (i + 1) counts

-- The loop of `_forward_sharded`: the counts and the round-robin position, over the messages that
-- arrive. The result is what was sent, with its shard, and whether the stream's EOF came. At the end of the list the
-- connection is closed.
unfoldable pub forward_from : List ℕ → ℕ → List ℕ → ℕ → List Incoming → List (ℕ × Sent) × Bool
unfolding increment send_eofs stamp_id
forward_from id n counts rr [] = ([], false)
forward_from id n counts rr (data_msg raw ∷ stream) =
    let (sent, complete) = forward_from id n (increment (rr % n) counts) (rr + 1) stream in
    ((rr % n, sent_data (stamp_id id raw)) ∷ sent, complete)
forward_from id n counts rr (eof_msg ∷ stream) = (send_eofs 0 counts, true)
forward_from id n counts rr (other_msg ∷ stream) = ([], false)
forward_from id n counts rr (closed ∷ stream) = ([], false)

-- `_forward_sharded` to `n` shards
unfoldable pub forward_sharded : List ℕ → ℕ → List Incoming → List (ℕ × Sent) × Bool
unfolding forward_from
forward_sharded id n stream = forward_from id n (replicate n 0) 0 stream

-- what `_abort` sends, to every shard
unfoldable pub send_aborts : ℕ → ℕ → List (ℕ × Sent)
send_aborts i zero = []
send_aborts i (suc n) = (i, sent_abort) ∷ send_aborts (i + 1) n
