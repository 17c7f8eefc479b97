-- ===== src/Tests/MessageRuns.antt =====
-- Runs of the wire format, the gateway, a ring node and the join.
use distribuidos_tp_money_la.Prelude.{
  ℕ, ◌+◌, ◌≤◌, ◌≡◌, ◌↔◌, refl, true, false, none, some, List, [], ◌∷◌, ◌++◌, arith, nat_eq,
  string_eq, replicate,
}
use distribuidos_tp_money_la.Prelude.Int.{pos}
use distribuidos_tp_money_la.Collections.Dict.{get, put, get_default}
use distribuidos_tp_money_la.Collections.PySet.{mem}
use distribuidos_tp_money_la.Messages.{RawMessage, serialize, deserialize, stamp, from_bytes}
use distribuidos_tp_money_la.Messages.Header.{deserialize-serialize, deserialize-stamp}
use distribuidos_tp_money_la.Gateway.{
  Incoming, data_msg, eof_msg, closed, forward_sharded, forward_from,
}
use distribuidos_tp_money_la.Gateway.Forwarding.{
  eofs_to, data_to, forward_sharded-counts, forward_sharded-silent,
}
use distribuidos_tp_money_la.Ring.Completion
use distribuidos_tp_money_la.Ring.Completion.{Action, emit}
use distribuidos_tp_money_la.Ring.SentCounts.{SentCounts}
use distribuidos_tp_money_la.Ring.Node.{RingNode, run, emit_results, stateless_ring_node}
use distribuidos_tp_money_la.Ring.Node.Reports.{messages_to, emit_results-counts}
use distribuidos_tp_money_la.Ring.Node.Depth.{Returns, run-Returns}
use distribuidos_tp_money_la.Checkpoint.Snapshotable.{Snapshotable}
use distribuidos_tp_money_la.Checkpoint.Checkpointer
use distribuidos_tp_money_la.Checkpoint.Checkpointer.{State}
use distribuidos_tp_money_la.Checkpoint.Deduplicator
use distribuidos_tp_money_la.Join.{
  JoinCounts, JoinFn, handle_data_message, counts, is_finalized, is_complete, inc_received,
  set_expected, init_counts,
}
use distribuidos_tp_money_la.Join.Counting.{receive_many, is_complete_iff}
use distribuidos_tp_money_la.Join.Blocking.{last_message_blocks}

-- a message without identity yet
abbrev upload : RawMessage
upload = record {
  type_byte = 3;
  client_id = replicate 16 7;
  producer_id = replicate 16 0;
  seq = 0;
  payload = 144 ∷ [];
}

deserialize-serialize_example :
    (raw : List ℕ) × (serialize upload ≡ some raw) × (deserialize 3 raw ≡ some upload)
deserialize-serialize_example = deserialize-serialize upload refl refl (omega arith)

abbrev wire : List ℕ
wire = 3 ∷ replicate 16 7 ++ (replicate 16 0 ++ (replicate 8 0 ++ 144 ∷ []))

deserialize-stamp_example :
    deserialize 3 (stamp (replicate 16 9) 5 wire)
    ≡ some (record upload { producer_id = replicate 16 9; seq = 5 })
deserialize-stamp_example =
    deserialize-stamp 3 5 (replicate 16 9) wire upload (unfold deserialize from_bytes in refl) refl
      (omega arith)

-- five messages to two shards
abbrev stream : List Incoming
stream = data_msg wire ∷ data_msg wire ∷ data_msg wire ∷ eof_msg ∷ []

forward_sharded-counts_example :
    eofs_to 0 (forward_sharded (replicate 16 8) 2 stream).0
    ≡ data_to 0 (forward_sharded (replicate 16 8) 2 stream).0 ∷ []
forward_sharded-counts_example =
    forward_sharded-counts (replicate 16 8) 2 0 stream (omega arith)
      (unfold forward_sharded forward_from in refl)

forward_sharded-silent_example :
    eofs_to 1 (forward_sharded (replicate 16 8) 2 (data_msg wire ∷ closed ∷ [])).0 ≡ []
forward_sharded-silent_example =
    forward_sharded-silent (replicate 16 8) 2 1 (data_msg wire ∷ closed ∷ [])
      (unfold forward_sharded forward_from in refl)

-- a node with three shards downstream, whose messages are numbers
abbrev node : RingNode SentCounts ℕ
node = record { rc = Completion.init 0 []; fn = []; external_txs = 3; sent = [] }

emit_results-counts_example :
    messages_to 1 (emit_results false ((100, 4) ∷ (200, 1) ∷ []) (node, [])).0.sent
    ≡ messages_to 1 node.sent
      + get_default 1 0 (emit_results false ((100, 4) ∷ (200, 1) ∷ []) (node, [])).1
emit_results-counts_example = emit_results-counts 1 false ((100, 4) ∷ (200, 1) ∷ []) node

run-Returns_example : Returns stateless_ring_node (run 2 stateless_ring_node (emit 7 ∷ []) node)
run-Returns_example = run-Returns stateless_ring_node 0 (emit 7 ∷ []) node

is_complete_iff_example :
    (is_complete 7 (receive_many 7 2 (set_expected 7 (pos 3) init_counts)) ≡ true)
    ↔ (3 ≤ 2 + get_default 7 0 init_counts.received)
is_complete_iff_example = is_complete_iff 7 2 3 init_counts

-- the identity snapshot
abbrev same : {S : Type 0} → Snapshotable S
same {S} = record {
  Snapshot = S;
  Valid = λ _. Unit {0};
  snapshot_state = λ n. n;
  restore_state = λ _ n. n;
  clear_stale = λ n. n;
  restore-snapshot = λ old s v. refl;
}

abbrev numbers : Snapshotable ℕ
numbers = same

abbrev join_counts : Snapshotable JoinCounts
join_counts = same

abbrev adding : JoinFn ℕ ℕ ℕ
adding = record {
  join = λ m j. m + j;
  get_responses = λ cid j. j ∷ [];
  discard_client = λ cid j. 0;
}

-- client 7 expects two messages, and one came
abbrev joining : State numbers join_counts
joining =
    Checkpointer.init numbers join_counts
      (record {
        fn = 5;
        seqs = [];
        extra =
            (
              "counts",
              record { received = (7, 1) ∷ []; expected = (7, pos 2) ∷ []; finalized = [] },
            )
            ∷ [];
      })
      5

last_message_blocks_example :
    handle_data_message numbers join_counts adding 7 9 1 0 40 joining ≡ none
last_message_blocks_example =
    last_message_blocks numbers join_counts adding 7 9 1 0 40 joining
      (unfold Checkpointer.init mem in refl)
      (unfold Checkpointer.init Deduplicator.is_duplicate Deduplicator.init Deduplicator.hi_of
          Deduplicator.ahead_of mem get_default get in
        refl)
      (unfold Checkpointer.init is_finalized counts mem get_default get in refl)
      (unfold Checkpointer.init is_complete inc_received counts put get_default get in refl)
