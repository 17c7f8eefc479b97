-- ===== src/Ring/Filter.antt =====
-- src/filter/ring_filter.py and src/filter/ring_broadcast_filter.py: the stateless filters of the
-- ring, which pass a message's identity on. A filter function is an argument.
pub mod Routes
use distribuidos_tp_money_la.Prelude.{
  ℕ, zero, suc, ◌+◌, ◌%◌, Option, List, [], ◌∷◌, ◌++◌, ◌==◌, nat_eq, drop, length, ◌-◌,
}
use distribuidos_tp_money_la.Messages.{from_bytes}
use distribuidos_tp_money_la.Ring.SentCounts.{SentCounts, add_sent}
use distribuidos_tp_money_la.Ring.Node.{message, RingNode, send, count_data, stateless_ring_node}

-- a message with its identity
pub record Stamped (M : Type 0) : Type 0 where
  pub client_id : ℕ
  pub producer_id : List ℕ
  pub seq : ℕ
  pub content : M

-- `shard_of` of ring_node.py: the last four bytes of the producer id, and the sequence number
unfoldable pub shard_of : {M : Type 0} → Stamped M → ℕ → ℕ
unfolding from_bytes
shard_of msg nshards =
    (from_bytes 0 (drop (length msg.producer_id - 4) msg.producer_id) + msg.seq) % nshards

-- tx.send_stamped(filter_fn.filter(msg), ...); self.sent.add(msg.client_id, shard)
unfoldable pub send_filtered :
    {M : Type 0}
    → (M → M)
    → Stamped M
    → ℕ
    → RingNode SentCounts (Stamped M)
    → RingNode SentCounts (Stamped M)
unfolding send add_sent
send_filtered filter msg shard node =
    let node1 = send (message shard (record msg { content = filter msg.content })) node in
    record node1 { fn = add_sent msg.client_id shard node1.fn }

-- the first loop of `RingBroadcastFilter._on_data`, over the routes of one queue each
unfoldable pub send_broadcast :
    {M : Type 0}
    → List (M → M)
    → Stamped M
    → ℕ
    → RingNode SentCounts (Stamped M)
    → RingNode SentCounts (Stamped M)
unfolding send_filtered
send_broadcast [] msg shard node = node
send_broadcast (filter ∷ routes) msg shard node =
    send_broadcast routes msg (shard + 1) (send_filtered filter msg shard node)

-- the second loop, over the routes of several shards
unfoldable pub send_sharded :
    {M : Type 0}
    → List (ℕ × (M → M))
    → Stamped M
    → ℕ
    → RingNode SentCounts (Stamped M)
    → RingNode SentCounts (Stamped M)
unfolding send_filtered shard_of
send_sharded [] msg shard node = node
send_sharded ((nshards, filter) ∷ routes) msg shard node =
    send_sharded routes msg (shard + nshards)
      (send_filtered filter msg (shard + shard_of msg nshards) node)

unfoldable pub send_routes :
    {M : Type 0}
    → List (M → M)
    → List (ℕ × (M → M))
    → Stamped M
    → RingNode SentCounts (Stamped M)
    → RingNode SentCounts (Stamped M)
unfolding send_broadcast send_sharded
send_routes broadcast_routes sharded_routes msg node =
    send_sharded sharded_routes msg (length broadcast_routes)
      (send_broadcast broadcast_routes msg 0 node)

-- `RingBroadcastFilter._on_data`
unfoldable pub broadcast_filter_on_data :
    {M : Type 0}
    → List (M → M)
    → List (ℕ × (M → M))
    → Stamped M
    → RingNode SentCounts (Stamped M)
    → Option (RingNode SentCounts (Stamped M))
unfolding send_routes count_data stateless_ring_node
broadcast_filter_on_data broadcast_routes sharded_routes msg node =
    count_data stateless_ring_node msg.client_id
      (send_routes broadcast_routes sharded_routes msg node)

-- `RingFilter._on_data`
unfoldable pub ring_filter_on_data :
    {M : Type 0}
    → (M → M)
    → Stamped M
    → RingNode SentCounts (Stamped M)
    → Option (RingNode SentCounts (Stamped M))
unfolding send_filtered shard_of count_data stateless_ring_node
ring_filter_on_data filter msg node =
    count_data stateless_ring_node msg.client_id
      (send_filtered filter msg (shard_of msg node.external_txs) node)
