-- ===== src/Messages/RoundTrip.antt =====
-- Messages whose payload is written and read (src/common/comms/messages/).
use distribuidos_tp_money_la.Prelude.{
  ℕ, ◌^◌, ◌<◌, ◌≡◌, ◌∙◌, refl, ap, true, Option, some, List, [], ◌∷◌, ◌++◌, map, take, drop, length,
  ◌>>=◌,
}
use distribuidos_tp_money_la.Messages.Header.{deserialize-serialize, peek_type-serialize}
use distribuidos_tp_money_la.Messages.Values.{Value, read_all-map}
use distribuidos_tp_money_la.Messages.Keyed.{build, build-nil}
use distribuidos_tp_money_la.Messages.Nodes.{node_key, path_key, node_from_str-node_str}
use distribuidos_tp_money_la.Messages.Bodies.{
  Transaction, Body, eof, transactions, accounts, fin, response, max_by_bank, bank_names,
  merged_bank_data, graph, path_counts, count, sum_by_payment_format, avg_by_format,
  merged_transactions, ring_done, node_msg, path_msg, ring_sent_data, high_degree, hello_ack,
  ring_barrier, abort, Message, of_client, hello, supervisor_election, supervisor_ack,
  supervisor_leader, type_of, body_type,
}
use distribuidos_tp_money_la.Messages.Rows.{
  body_fields, transaction_row, account_row, bank_row, max_row, name_row, sum_row, average_row,
  neighbours_row, count_row,
}
use distribuidos_tp_money_la.Messages.Reading.{
  parsed_transaction, read_account, read_bank_entry, read_max, read_name, read_sum, read_average,
  read_neighbours, read_count,
}
use distribuidos_tp_money_la.Messages.Payload.{
  by_text, body_from_fields, from_fields, prefix_of, fields_of, Stamped, serialize_message,
  deserialize_message, raw_message,
}
use distribuidos_tp_money_la.Messages.Packable.{is_payload}
use distribuidos_tp_money_la.Messages.Sendable.{
  Sendable, received, raw_stamp, read_all-All, always, map_All, read_all-raw,
  parsed_transaction-row, read_int_dict-written, read_sent_by-written, read_seq-rows,
  read_nodes-written, read_node_texts-written, read_neighbours-written,
}

take-rows :
    (ts : List Transaction) (rest : List Value)
    → take (length ts) (map transaction_row ts ++ rest) ≡ map transaction_row ts
take-rows [] rest = refl
take-rows (t ∷ ts) rest = ap (◌∷◌ (transaction_row t)) (take-rows ts rest)

drop-rows :
    (ts : List Transaction) (rest : List Value)
    → drop (length ts) (map transaction_row ts ++ rest) ≡ rest
drop-rows [] rest = refl
drop-rows (t ∷ ts) rest = drop-rows ts rest

body-read :
    (b : Body) → Sendable b → body_from_fields (body_type b) (body_fields b) ≡ some (received b)
unfolding body_from_fields body_fields
body-read (eof p e n o d) h = rw (read_int_dict-written d) refl
body-read (transactions ts) h =
    ap (λ o. o >>= λ l. some (transactions l))
      (read_all-All transaction_row parsed_transaction ts (map_All parsed_transaction-row ts h))
body-read (accounts l) h = rw (read_all-map account_row read_account (λ a. refl) l) refl
body-read fin h = refl
body-read (response u b l) h = refl
body-read (max_by_bank d) h =
    rw (read_all-map max_row read_max (λ a. refl) d)
      (ap (λ x. some (max_by_bank x)) (build-nil by_text d h))
body-read (bank_names d) h =
    rw (read_all-map name_row read_name (λ a. refl) d)
      (ap (λ x. some (bank_names x)) (build-nil by_text d h))
body-read (merged_bank_data es) h = rw (read_all-map bank_row read_bank_entry (λ a. refl) es) refl
body-read (graph ns) (new, inner) =
    ap (λ o. o >>= λ l. some (graph (build node_key [] l)))
      (read_seq-rows neighbours_row read_neighbours ns (map_All read_neighbours-written ns inner))
    ∙ ap (λ x. some (graph x)) (build-nil node_key ns new)
body-read (path_counts d) h =
    ap (λ o. o >>= λ l. some (path_counts (build path_key [] l)))
      (read_seq-rows count_row read_count d (always (λ e. refl) d))
    ∙ ap (λ x. some (path_counts x)) (build-nil path_key d h)
body-read (count n) h = refl
body-read (sum_by_payment_format d) h =
    rw (read_all-map sum_row read_sum (λ a. refl) d)
      (ap (λ x. some (sum_by_payment_format x)) (build-nil by_text d h))
body-read (avg_by_format d) h =
    rw (read_all-map average_row read_average (λ a. refl) d)
      (ap (λ x. some (avg_by_format x)) (build-nil by_text d h))
body-read (merged_transactions ts d) h =
    rw (take-rows ts (map average_row d), drop-rows ts (map average_row d))
      (rw (read_all-raw ts, read_all-map average_row read_average (λ a. refl) d)
        (ap (λ x. some (merged_transactions (map raw_stamp ts) x)) (build-nil by_text d h)))
body-read (ring_done o) h = refl
body-read (node_msg n ps ss) ((hb, ha), ((cp, cs), (np, ns))) =
    rw
      (
        node_from_str-node_str n hb ha,
        read_node_texts-written ps cp np,
        read_node_texts-written ss cs ns,
      )
      refl
body-read (path_msg p n) h = refl
body-read (ring_sent_data o a s d) h = refl
body-read (high_degree o i) (ho, hi) = rw (read_nodes-written o ho, read_nodes-written i hi) refl
body-read hello_ack h = refl
body-read (ring_barrier o d) h = rw (read_sent_by-written d) refl
body-read abort h = refl

-- what a message that has no client needs: nothing
abbrev pub SendableMessage : Message → Type 0
SendableMessage (of_client id b) = Sendable b × (length id ≡ 16)
SendableMessage _ = Unit {0}

abbrev pub received_message : Message → Message
received_message (of_client id b) = of_client id (received b)
received_message m = m

prefix_of-length : (m : Message) → SendableMessage m → length (prefix_of m) ≡ 16
prefix_of-length (of_client id b) h = h.1
prefix_of-length hello h = refl
prefix_of-length supervisor_election h = refl
prefix_of-length supervisor_ack h = refl
prefix_of-length (supervisor_leader idx) h = refl

of_client-read :
    (id : List ℕ) (b : Body)
    → from_fields (body_type b) id (body_fields b)
      ≡ (body_from_fields (body_type b) (body_fields b) >>= λ x. some (of_client id x))
unfolding from_fields
of_client-read id (eof _ _ _ _ _) = refl
of_client-read id (transactions _) = refl
of_client-read id (accounts _) = refl
of_client-read id fin = refl
of_client-read id (response _ _ _) = refl
of_client-read id (max_by_bank _) = refl
of_client-read id (bank_names _) = refl
of_client-read id (merged_bank_data _) = refl
of_client-read id (graph _) = refl
of_client-read id (path_counts _) = refl
of_client-read id (count _) = refl
of_client-read id (sum_by_payment_format _) = refl
of_client-read id (avg_by_format _) = refl
of_client-read id (merged_transactions _ _) = refl
of_client-read id (ring_done _) = refl
of_client-read id (node_msg _ _ _) = refl
of_client-read id (path_msg _ _) = refl
of_client-read id (ring_sent_data _ _ _ _) = refl
of_client-read id (high_degree _ _) = refl
of_client-read id hello_ack = refl
of_client-read id (ring_barrier _ _) = refl
of_client-read id abort = refl

message-read :
    (m : Message)
    → SendableMessage m
    → from_fields (type_of m) (prefix_of m) (fields_of m) ≡ some (received_message m)
unfolding type_of fields_of
message-read (of_client id b) (ok, l) =
    of_client-read id b ∙ ap (λ o. o >>= λ x. some (of_client id x)) (body-read b ok)
message-read hello h = unfold from_fields in refl
message-read supervisor_election h = unfold from_fields in refl
message-read supervisor_ack h = unfold from_fields in refl
message-read (supervisor_leader idx) h = unfold from_fields in refl

module _ (pack : List Value → List ℕ) (unpack : List ℕ → Option (List Value))
    (unpack-pack : (vs : List Value) → is_payload vs ≡ true → unpack (pack vs) ≡ some vs) where
  -- Where msgpack reads back the payloads that it can pack (ints of 64 bits, dicts with different
  -- keys, texts of Unicode characters, sizes below 2 ** 32): a message whose payload is one, with 16-byte ids and a number that fits 8
  -- bytes, whose dicts and sets have different keys, whose transactions (in Transactions) have
  -- timestamps that exist, and whose nodes (in NodeMsg) have no comma, is serialized, and
  -- `deserialize_message` reads it back with its producer and its number; only the timestamps of
  -- MergedTransactions come back as texts.
  pub deserialize_message-serialize :
      (s : Stamped)
      → SendableMessage s.message
      → length s.producer_id ≡ 16
      → s.seq < 256 ^ 8
      → is_payload (fields_of s.message) ≡ true
      → (bytes : List ℕ) × (serialize_message pack s ≡ some bytes)
        × (deserialize_message unpack bytes
            ≡ some (record s { message = received_message s.message }))
  unfolding serialize_message deserialize_message raw_message
  deserialize_message-serialize s ok lp lt fits =
      let m = raw_message pack s in
      let (bytes, written, got) = deserialize-serialize m (prefix_of-length s.message ok) lp lt in
      (
        bytes,
        written,
        rw (peek_type-serialize m bytes written) (
            rw got
              (rw (unpack-pack (fields_of s.message) fits) (rw (message-read s.message ok) refl))),
      )
