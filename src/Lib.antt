-- ===== src/Lib.antt =====
-- Verification of the money-laundering analysis pipeline: a gateway that splits each client's
-- upload over shards, rings of stateless and stateful controllers that count what they send,
-- joins that answer the client, and a supervisor that keeps the nodes alive. Every node is
-- crash-safe: it drops duplicates by producer id and sequence number, and acknowledges a
-- message only after the checkpoint that covers it.
--
-- How the parts meet: the gateway tells each shard how many messages to expect; a ring's
-- nodes count what arrives, emit when their slice is complete, report what they sent to each
-- downstream shard, and a token collects the reports so that one node sends the EOF with the
-- totals; that total is what the next ring expects. The checkpointer runs the handlers of a
-- controller and restores them after a crash.
--
-- Which file models which code:
--
--   Prelude, Collections: Boolean tests and lists over native numbers; Python's dict and set
--     (Collections/Dict, Collections/PySet).
--   Ring/Completion: src/common/comms/eof_handler/ring_completion.py, one function per
--     method, which returns the new state and the actions; its children hold lemmas on
--     clients, counts and phases, and Snapshot its saved form.
--   Ring/Cluster: all the peers of a ring with their checkpoints, and the tokens and EOFs
--     that were sent, as a step relation; Restarts is one node with its checkpoint through
--     crashes; Safety, Restarts and Aborted hold its theorems, and the others the lemmas by
--     method.
--   Ring/Node, Ring/SentCounts: src/common/comms/eof_handler/ring_node.py and sent_counts.py,
--     with src/aggregate/ring_aggregate.py and src/group_by/ring_group_by.py as the
--     controllers.
--   Ring/Snapshots: the saved counts of sent_counts.py and of src/merge/ring_merge.py.
--   Checkpoint/Deduplicator: src/common/checkpoint/deduplicator.py.
--   Checkpoint/Checkpointer: src/common/checkpoint/checkpointer.py; its child World is a ring
--     node with it: the broker's deliveries, the handlers of aborts, EOFs and tokens with
--     their flushes, and crashes; Recovery holds the theorem.
--   Ring/Merge, Ring/Filter: src/merge/ring_merge.py; src/filter/ring_filter.py and
--     ring_broadcast_filter.py.
--   Checkpoint/Spill: src/common/checkpoint/persistent_spill.py.
--   UseCases/MaxAmount: use case 2 in src/group_by/group_by_fns/uc2_max_amount.py,
--     src/aggregate/aggregate_fns/uc2_max_amount.py and src/merge/merge_fns/uc2_bank_id.py.
--   UseCases/BankNames, UseCases/Averages: the uc2_bank_names.py of both folders,
--     src/group_by/group_by_fns/uc3_sum.py and src/aggregate/aggregate_fns/uc3_avg.py.
--   UseCases/Filters: src/filter/filter_fns/.
--   UseCases/Conversion, UseCases/Graphs: uc5_converter.py and uc4_compute_graph.py of
--     src/group_by/group_by_fns/, src/common/comms/messages/graph.py, and the degree cap of
--     src/aggregate/aggregate_fns/uc4_degree.py.
--   UseCases/HighDegree, UseCases/Paths: uc4_degree.py, uc4_count_paths.py and
--     uc4_aggregate_paths.py of src/aggregate/aggregate_fns/ with their spill,
--     src/common/checkpoint/multi_shard_spill.py; their children hold the theorems.
--   UseCases/Prune, UseCases/AverageMerge: uc4_prune.py and uc3_bank_id.py of
--     src/merge/merge_fns/.
--   Checkpoint/Dispatch: src/common/checkpoint/dispatch.py.
--   Ring/Topology: the neighbours in src/common/comms/middleware/ring_rabbitmq.py.
--   UseCases/Responses: src/join/join_fns/line_spill.py.
--   Messages: the header of src/common/comms/messages/message.py and its stamping in
--     src/common/comms/middleware/stamping_mom.py.
--   Messages/Values, Messages/Keyed, Messages/Moments, Messages/Nodes: what a payload holds,
--     dicts and sets by key, src/common/data/timestamp.py and
--     src/common/comms/messages/graph_src/.
--   Messages/Bodies, Messages/Rows, Messages/Reading, Messages/Payload: every message class
--     of src/common/comms/messages/ with its `_fields` and `_from_fields`, and
--     deserialize_message.py; Packable says which payloads msgpack can pack, and Sendable and
--     RoundTrip hold the theorem.
--   Gateway: the forwarding loop of src/gateway/client_stream_handler.py.
--   Join: src/join/join_route_handler.py over the checkpointer; Snapshot holds the saved form
--     of its counts.
--   Client: the sharing of lines among the workers of src/client/client.py; Ranges and
--     Boundaries hold the theorem.
--   Transport: src/common/comms/transport/connection.py.
--   Supervisor: registry.py, reviver.py and server.py of src/supervisor/; Registry/Overdue
--     and the other children hold the theorems.
--   Tests: concrete runs of the theorems.
--
-- Bounds and fuel: the loop of Deduplicator.record runs on fuel, the number of sequence
-- numbers ahead, and every round takes one of them out; the recursion of RingNode._run
-- through _emit has depth 3 in the handlers, and depth 2 is enough because a report never
-- asks for an emission. Identifiers (UUIDs, producer ids, node ids) are numbers that are only
-- compared, bytes only in Messages, and texts in Ring/Completion/Snapshot; the paths of
-- UseCases/Paths are numbers with a key; times are ticks. The readers of Client, Transport
-- and UseCases/Prune run on a bound that their input's length gives, since every round takes
-- at least one byte, line or element.
--
-- Not modelled: threads, the sockets themselves, the pika and msgpack libraries and the files
-- of the checkpoint store, since they are I/O; the client's parsers and batches, the text of
-- a spilled line, and the functions of the use cases that the list above does not name (the
-- joins, the graph aggregation, the conversion service).
pub mod Prelude
pub mod Collections
pub mod Ring
pub mod Checkpoint
pub mod Supervisor
pub mod Messages
pub mod Gateway
pub mod Client
pub mod Transport
pub mod Join
pub mod UseCases
pub mod Tests
