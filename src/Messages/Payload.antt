-- ===== src/Messages/Payload.antt =====
-- src/common/comms/messages/: `_from_fields` of each class, `deserialize_message`, and `serialize`
-- of a message with its payload. `pack` and `unpack` stand for msgpack.
use distribuidos_tp_money_la.Prelude.{
  ℕ, Option, none, some, List, [], ◌∷◌, take, drop, ◌>>=◌, ◌==◌, nat_eq, if◌then◌else◌, replicate,
}
use distribuidos_tp_money_la.Prelude.Int.{pos, negsuc}
use distribuidos_tp_money_la.Messages.{RawMessage, serialize, deserialize, peek_type}
use distribuidos_tp_money_la.Messages.Values.{Text, Value, int, text, bool, read_all}
use distribuidos_tp_money_la.Messages.Keyed.{build}
use distribuidos_tp_money_la.Messages.Nodes.{node_key, path_key}
use distribuidos_tp_money_la.Messages.Bodies.{
  Body, eof, transactions, accounts, fin, response, max_by_bank, bank_names, merged_bank_data,
  graph, path_counts, count, sum_by_payment_format, avg_by_format, merged_transactions, ring_done,
  node_msg, path_msg, ring_sent_data, high_degree, hello_ack, ring_barrier, abort, Message,
  of_client, hello, supervisor_election, supervisor_ack, supervisor_leader, type_of,
}
use distribuidos_tp_money_la.Messages.Rows.{body_fields}
use distribuidos_tp_money_la.Messages.Reading.{
  parsed_transaction, raw_transaction, read_account, read_bank_entry, read_max, read_name, read_sum,
  read_average, read_path, read_nodes, read_neighbours, read_count, read_node_text, read_node_texts,
  read_int_dict, read_sent_by, read_seq,
}

-- the key of a dict whose keys are texts
abbrev pub by_text : Text → Text
by_text s = s

-- the defaults of `EOF.__init__`
abbrev pub read_eof : List Value → Option Body
read_eof [] = some (eof (negsuc 0) (negsuc 0) (negsuc 0) (negsuc 0) [])
read_eof (int p ∷ []) = some (eof p (negsuc 0) (negsuc 0) (negsuc 0) [])
read_eof (int p ∷ int e ∷ []) = some (eof p e (negsuc 0) (negsuc 0) [])
read_eof (int p ∷ int e ∷ int n ∷ []) = some (eof p e n (negsuc 0) [])
read_eof (int p ∷ int e ∷ int n ∷ int o ∷ []) = some (eof p e n o [])
read_eof (int p ∷ int e ∷ int n ∷ int o ∷ d ∷ []) =
    read_int_dict d >>= λ shards. some (eof p e n o shards)
read_eof _ = none

abbrev pub read_response : List Value → Option Body
read_response (int uc_id ∷ text body ∷ bool last ∷ []) = some (response uc_id body last)
read_response _ = none

abbrev pub read_graph : List Value → Option Body
read_graph (v ∷ rest) = read_seq read_neighbours v >>= λ ns. some (graph (build node_key [] ns))
read_graph _ = none

abbrev pub read_path_counts : List Value → Option Body
read_path_counts (v ∷ rest) =
    read_seq read_count v >>= λ d. some (path_counts (build path_key [] d))
read_path_counts _ = none

abbrev pub read_total : List Value → Option Body
read_total (int n ∷ rest) = some (count n)
read_total _ = none

-- the timestamps stay as they came
abbrev pub read_merged_transactions : List Value → Option Body
read_merged_transactions (int (pos n) ∷ rest) = read_all raw_transaction (take n rest) >>= λ ts.
    read_all read_average (drop n rest) >>= λ d. some (merged_transactions ts (build by_text [] d))
read_merged_transactions _ = none

abbrev pub read_ring_done : List Value → Option Body
read_ring_done (int origin ∷ []) = some (ring_done origin)
read_ring_done _ = none

abbrev pub read_node_msg : List Value → Option Body
read_node_msg (v ∷ ps ∷ ss ∷ rest) = read_node_text v >>= λ n.
    read_node_texts ps >>= λ p. read_node_texts ss >>= λ s. some (node_msg n p s)
read_node_msg _ = none

abbrev pub read_path_msg : List Value → Option Body
read_path_msg (v ∷ int n ∷ rest) = read_path v >>= λ p. some (path_msg p n)
read_path_msg _ = none

abbrev pub read_ring_sent_data : List Value → Option Body
read_ring_sent_data (int origin ∷ int amount ∷ bool sent ∷ bool done ∷ []) =
    some (ring_sent_data origin amount sent done)
read_ring_sent_data _ = none

abbrev pub read_high_degree : List Value → Option Body
read_high_degree (hi_out ∷ hi_in ∷ rest) =
    read_nodes hi_out >>= λ o. read_nodes hi_in >>= λ i. some (high_degree o i)
read_high_degree _ = none

abbrev pub read_ring_barrier : List Value → Option Body
read_ring_barrier (int origin ∷ []) = some (ring_barrier origin [])
read_ring_barrier (int origin ∷ d ∷ []) =
    read_sent_by d >>= λ sent_by. some (ring_barrier origin sent_by)
read_ring_barrier _ = none

-- `_from_fields` of the class of a type, for the ones that have a client
unfoldable pub body_from_fields : ℕ → List Value → Option Body
unfolding build read_all
body_from_fields t vs =
    if t == 0
    then read_eof vs
    else if t == 1
    then (read_all parsed_transaction vs >>= λ ts. some (transactions ts))
    else if t == 2
    then (read_all read_account vs >>= λ l. some (accounts l))
    else if t == 3
    then some fin
    else if t == 4
    then read_response vs
    else if t == 5
    then (read_all read_max vs >>= λ d. some (max_by_bank (build by_text [] d)))
    else if t == 6
    then (read_all read_name vs >>= λ d. some (bank_names (build by_text [] d)))
    else if t == 7
    then (read_all read_bank_entry vs >>= λ es. some (merged_bank_data es))
    else if t == 8
    then read_graph vs
    else if t == 9
    then read_path_counts vs
    else if t == 10
    then read_total vs
    else if t == 11
    then (read_all read_sum vs >>= λ d. some (sum_by_payment_format (build by_text [] d)))
    else if t == 12
    then (read_all read_average vs >>= λ d. some (avg_by_format (build by_text [] d)))
    else if t == 13
    then read_merged_transactions vs
    else if t == 14
    then read_ring_done vs
    else if t == 15
    then read_node_msg vs
    else if t == 16
    then read_path_msg vs
    else if t == 17
    then read_ring_sent_data vs
    else if t == 18
    then read_high_degree vs
    else if t == 20
    then some hello_ack
    else if t == 21
    then read_ring_barrier vs
    else if t == 22
    then some abort
    else none

-- `SupervisorLeader._from_fields`
abbrev pub read_leader : List Value → Option Message
read_leader (int idx ∷ rest) = some (supervisor_leader idx)
read_leader _ = none

-- the `match` of `deserialize_message`, for an unpacked payload; an unknown type raises
unfoldable pub from_fields : ℕ → List ℕ → List Value → Option Message
unfolding body_from_fields
from_fields t id vs =
    if t == 19
    then some hello
    else if t == 23
    then some supervisor_election
    else if t == 24
    then some supervisor_ack
    else if t == 25
    then read_leader vs
    else body_from_fields t vs >>= λ b. some (of_client id b)

-- the client's id, DEFAULT_PREFIX for a message without one
abbrev pub prefix_of : Message → List ℕ
prefix_of (of_client id b) = id
prefix_of m = replicate 16 0

-- the payload's fields
unfoldable pub fields_of : Message → List Value
unfolding body_fields
fields_of (of_client id b) = body_fields b
fields_of (supervisor_leader idx) = int idx ∷ []
fields_of m = []

-- a message with the fields that a producer stamps
pub record Stamped : Type 0 where
  pub message : Message
  pub producer_id : List ℕ
  pub seq : ℕ

module _ (pack : List Value → List ℕ) where
  -- the header fields, and the packed payload
  unfoldable pub raw_message : Stamped → RawMessage
  unfolding type_of fields_of
  raw_message s = record {
    type_byte = type_of s.message;
    client_id = prefix_of s.message;
    producer_id = s.producer_id;
    seq = s.seq;
    payload = pack (fields_of s.message);
  }

  -- `Message.serialize`
  unfoldable pub serialize_message : Stamped → Option (List ℕ)
  unfolding serialize raw_message
  serialize_message s = serialize (raw_message s)

module _ (unpack : List ℕ → Option (List Value)) where
  -- `deserialize_message`
  unfoldable pub deserialize_message : List ℕ → Option Stamped
  unfolding deserialize peek_type from_fields
  deserialize_message raw = peek_type raw >>= λ t. deserialize t raw >>= λ r.
      unpack r.payload >>= λ vs. from_fields t r.client_id vs >>= λ m.
      some (record { message = m; producer_id = r.producer_id; seq = r.seq })
