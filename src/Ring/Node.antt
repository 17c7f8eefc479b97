-- ===== src/Ring/Node.antt =====
-- src/common/comms/eof_handler/ring_node.py: a controller of the ring, around its completion state
-- machine, and the two kinds of it (`StatelessRingNode`, and the stateful `RingAggregate` of
-- src/aggregate/ring_aggregate.py). What is sent is kept in the order of sending, newest last.
-- The node's checkpointer is Checkpoint/Checkpointer; here a step runs without a crash.
pub mod Reports
pub mod Depth
use distribuidos_tp_money_la.Prelude.{
  ℕ, zero, suc, ◌+◌, ◌%◌, Bool, true, false, Option, none, some, List, [], ◌∷◌, ◌++◌, if◌then◌else◌,
  ◌==◌, nat_eq,
}
use distribuidos_tp_money_la.Prelude.Int.{ℤ}
use distribuidos_tp_money_la.Collections.Dict.{Dict, get, put, pop, get_default}
use distribuidos_tp_money_la.Ring.Completion
use distribuidos_tp_money_la.Ring.Completion.{
  RingCompletion, BarrierToken, Action, emit, forward, downstream_eof, on_data, on_upstream_eof,
  report_sent, on_token, drop, recheck,
}
use distribuidos_tp_money_la.Ring.SentCounts.{SentCounts, add_sent, pop_sent}

-- What leaves a node: a message to a shard, an EOF with its expected count, an abort, or a token
-- into the ring.
pub data Output (M : Type 0) : Type 0 where
  message : ℕ → M → Output M
  eof : ℕ → ℕ → ℕ → Output M
  abort_client : ℕ → ℕ → Output M
  ring_barrier : BarrierToken → Output M

-- The node: its completion state, its own state `F`, and what it has sent so far.
pub record RingNode (F M : Type 0) : Type 0 where
  pub rc : RingCompletion
  pub fn : F
  pub external_txs : ℕ
  pub sent : List (Output M)

-- A controller: `_emit` gives the messages and the counts that it reports; `_discard` and
-- `_free` release a client's state.
pub record Controller (F M : Type 0) : Type 0 where
  pub emit_result : ℕ → RingNode F M → RingNode F M × Dict ℕ ℕ
  pub discard : ℕ → F → F
  pub free : ℕ → F → F

module _ {F M : Type 0} where
  unfoldable pub send : Output M → RingNode F M → RingNode F M
  send o node = record node { sent = node.sent ++ o ∷ [] }

  -- `_downstream_eof`: the shards from `shard` on
  unfoldable pub downstream_eofs : ℕ → Dict ℕ ℕ → ℕ → ℕ → RingNode F M → RingNode F M
  unfolding send get_default
  downstream_eofs cid expected_per_shard shard zero node = node
  downstream_eofs cid expected_per_shard shard (suc n) node =
      downstream_eofs cid expected_per_shard (shard + 1) n
        (send (eof shard cid (get_default shard 0 expected_per_shard)) node)

  -- `_downstream_abort`
  unfoldable pub downstream_aborts : ℕ → ℕ → ℕ → RingNode F M → RingNode F M
  unfolding send
  downstream_aborts cid shard zero node = node
  downstream_aborts cid shard (suc n) node =
      downstream_aborts cid (shard + 1) n (send (abort_client shard cid) node)

  -- `_run`, where `_emit` is the controller's own: the node, and the clients that were emitted
  unfoldable pub run_actions :
      (ℕ → RingNode F M → Option (RingNode F M))
      → List Action
      → RingNode F M
      → Option (RingNode F M × List ℕ)
  unfolding send downstream_eofs
  run_actions on_emit [] node = some (node, [])
  run_actions on_emit (emit cid ∷ actions) node = elim (on_emit cid node) [
    | none ↦ none
    | some node1 ↦ elim (run_actions on_emit actions node1) [
      | none ↦ none
      | some r ↦ some (r.0, cid ∷ r.1)
    ]
  ]
  run_actions on_emit (forward token ∷ actions) node =
      run_actions on_emit actions (send (ring_barrier token) node)
  run_actions on_emit (downstream_eof cid expected_per_shard ∷ actions) node =
      run_actions on_emit actions (downstream_eofs cid expected_per_shard 0 node.external_txs node)

  -- the node, without the list that `_run` returns
  abbrev pub node_of : Option (RingNode F M × List ℕ) → Option (RingNode F M)
  node_of none = none
  node_of (some r) = some r.0

  -- `_emit`, then `self._run(self.rc.report_sent(client_id, sent))`. The two methods call each other,
  -- so the depth of the calls is the fuel; `none` is a depth that was not enough.
  unfoldable pub run :
      ℕ → Controller F M → List Action → RingNode F M → Option (RingNode F M × List ℕ)
  unfolding run_actions
  run zero c actions node = none
  run (suc depth) c actions node =
      run_actions
        (λ cid node0.
          let (node1, sent) = c.emit_result cid node0 in
          let (rc2, more) = report_sent node1.rc cid sent in
          node_of (run depth c more (record node1 { rc = rc2 })))
        actions node

  -- for client_id in emitted: self._free(client_id)
  unfoldable pub free_all : Controller F M → List ℕ → RingNode F M → RingNode F M
  free_all c [] node = node
  free_all c (cid ∷ cids) node = free_all c cids (record node { fn = c.free cid node.fn })

  -- run the actions, then free the emitted clients
  abbrev run_and_free :
      Controller F M → RingCompletion × List Action → RingNode F M → Option (RingNode F M)
  run_and_free c r node = elim (run 3 c r.1 (record node { rc = r.0 })) [
    | none ↦ none
    | some out ↦ some (free_all c out.1 out.0)
  ]

  -- `_on_eof`
  unfoldable pub on_eof : Controller F M → ℕ → ℤ → RingNode F M → Option (RingNode F M)
  unfolding run free_all
  on_eof c cid expected node = run_and_free c (on_upstream_eof node.rc cid expected) node

  -- `_on_ring_msg`
  unfoldable pub on_ring_msg : Controller F M → BarrierToken → RingNode F M → Option (RingNode F M)
  unfolding run free_all
  on_ring_msg c token node = run_and_free c (on_token node.rc token) node

  -- `_on_abort`
  unfoldable pub on_abort : Controller F M → ℕ → RingNode F M → RingNode F M
  unfolding downstream_aborts
  on_abort c cid node =
      downstream_aborts cid 0 node.external_txs
        (record node { rc = drop node.rc cid; fn = c.discard cid node.fn })

  -- the end of `_on_data`: self._run(self.rc.on_data(msg.client_id))
  unfoldable pub count_data : Controller F M → ℕ → RingNode F M → Option (RingNode F M)
  unfolding run
  count_data c cid node =
      let (rc1, actions) = on_data node.rc cid in
      node_of (run 3 c actions (record node { rc = rc1 }))

  -- the loop over the shards of `RingAggregate._emit` with `broadcast_downstream`
  unfoldable pub broadcast : ℕ → ℕ → M → RingNode F M × Dict ℕ ℕ → RingNode F M × Dict ℕ ℕ
  unfolding send put get_default
  broadcast shard zero m (node, sent) = (node, sent)
  broadcast shard (suc n) m (node, sent) =
      broadcast (shard + 1) n m
        (send (message shard m) node, put shard (get_default shard 0 sent + 1) sent)

  -- the loop of `RingAggregate._emit` over the results, each with its affinity
  unfoldable pub emit_results :
      Bool → List (M × ℕ) → RingNode F M × Dict ℕ ℕ → RingNode F M × Dict ℕ ℕ
  unfolding send put get_default broadcast
  emit_results broadcast_downstream [] (node, sent) = (node, sent)
  emit_results broadcast_downstream ((m, affinity) ∷ results) (node, sent) =
      let shard = affinity % node.external_txs in
      emit_results broadcast_downstream results (
        if broadcast_downstream
        then broadcast 0 node.external_txs m (node, sent)
        else (send (message shard m) node, put shard (get_default shard 0 sent + 1) sent))

-- `RingAggregate`, over an aggregate function: its results, and what drops a client's state
unfoldable pub ring_aggregate :
    {F M : Type 0} → Bool → (ℕ → F → List (M × ℕ)) → (ℕ → F → F) → Controller F M
unfolding emit_results
ring_aggregate broadcast_downstream get_result discard = record {
  emit_result = λ cid node. emit_results broadcast_downstream (get_result cid node.fn) (node, []);
  discard = discard;
  free = discard;
}

-- `StatelessRingNode`: it reports the counts of what it already sent
unfoldable pub stateless_ring_node : {M : Type 0} → Controller SentCounts M
unfolding pop_sent
stateless_ring_node = record {
  emit_result =
      λ cid node. let (sent, rest) = pop_sent cid node.fn in (record node { fn = rest }, sent);
  discard = λ cid counts. (pop_sent cid counts).1;
  free = λ cid counts. counts;
}

-- `RingGroupBy._on_data` of src/group_by/ring_group_by.py: one group to a shard of every fleet
unfoldable pub send_to_fleets :
    {M : Type 0} → ℕ → M → ℕ → ℕ → List ℕ → RingNode SentCounts M → RingNode SentCounts M
unfolding send add_sent
send_to_fleets cid m affinity base [] node = node
send_to_fleets cid m affinity base (fleet ∷ fleets) node =
    let shard = base + affinity % fleet in
    let node1 = send (message shard m) node in
    send_to_fleets cid m affinity (base + fleet) fleets
      (record node1 { fn = add_sent cid shard node1.fn })

unfoldable pub send_groups :
    {M : Type 0} → ℕ → List ℕ → List (M × ℕ) → RingNode SentCounts M → RingNode SentCounts M
unfolding send_to_fleets
send_groups cid fleets [] node = node
send_groups cid fleets ((m, affinity) ∷ groups) node =
    send_groups cid fleets groups (send_to_fleets cid m affinity 0 fleets node)

unfoldable pub ring_group_by_on_data :
    {M : Type 0}
    → ℕ
    → List ℕ
    → List (M × ℕ)
    → RingNode SentCounts M
    → Option (RingNode SentCounts M)
unfolding send_groups count_data stateless_ring_node
ring_group_by_on_data cid fleets groups node =
    count_data stateless_ring_node cid (send_groups cid fleets groups node)
