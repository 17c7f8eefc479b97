-- ===== src/Messages/Sendable.antt =====
-- What a sender's payload of src/common/comms/messages/ has, and how its rows are read.
use distribuidos_tp_money_la.Prelude.{
  ◌≡◌, ◌∙◌, refl, ap, ap₂, true, Option, some, List, [], ◌∷◌, map, All, ◌>>=◌,
}
use distribuidos_tp_money_la.Prelude.Int.{ℤ}
use distribuidos_tp_money_la.Messages.Values.{
  Value, seq, dict, values, pairs, items-values, entries-pairs, read_all, read_all-map, cons_option,
}
use distribuidos_tp_money_la.Messages.Keyed.{collect, NewKeys, NewMembers, collect-nil}
use distribuidos_tp_money_la.Messages.Moments.{is_datetime, fast_datetime-str_datetime}
use distribuidos_tp_money_la.Messages.Nodes.{
  Node, node_key, path_key, Without, node_from_str-node_str,
}
use distribuidos_tp_money_la.Messages.Bodies.{
  Stamp, moment, raw, Transaction, Body, transactions, max_by_bank, bank_names, graph, path_counts,
  sum_by_payment_format, avg_by_format, merged_transactions, node_msg, high_degree,
}
use distribuidos_tp_money_la.Messages.Rows.{
  stamp_text, transaction_row, node_row, node_rows, neighbours_row, node_text, node_texts, int_pair,
  int_dict, sent_pair,
}
use distribuidos_tp_money_la.Messages.Reading.{
  parsed_transaction, raw_transaction, read_node, read_nodes, read_neighbours, read_node_text,
  read_node_texts, read_int_pair, read_int_dict, read_sent_pair, read_sent_by, read_seq,
}
use distribuidos_tp_money_la.Messages.Payload.{by_text}

-- The timestamp is a `datetime` that Python accepts.
abbrev pub Parsed : Stamp → Type 0
Parsed (moment m) = is_datetime m ≡ true
Parsed (raw s) = ⊥

-- A node whose text has one comma.
abbrev pub NoComma : Node → Type 0
NoComma n = Without 44 n.bank × Without 44 n.account

-- What a sender's value has: dicts and sets with different keys, dates that exist, and no commas
-- in the nodes that are written as texts.
abbrev pub Sendable : Body → Type 0
Sendable (transactions ts) = All (λ (t : Transaction). Parsed t.timestamp) ts
Sendable (max_by_bank d) = NewKeys by_text [] d
Sendable (bank_names d) = NewKeys by_text [] d
Sendable (graph ns) =
    NewKeys node_key [] ns
    × All
        (λ (e : Node × (List Node × List Node)).
          NewMembers node_key [] e.1.0 × NewMembers node_key [] e.1.1)
        ns
Sendable (path_counts d) = NewKeys path_key [] d
Sendable (sum_by_payment_format d) = NewKeys by_text [] d
Sendable (avg_by_format d) = NewKeys by_text [] d
Sendable (merged_transactions ts d) = NewKeys by_text [] d
Sendable (node_msg n ps ss) =
    NoComma n
    × ((All NoComma ps × All NoComma ss) × (NewMembers node_key [] ps × NewMembers node_key [] ss))
Sendable (high_degree hi_out hi_in) = NewMembers node_key [] hi_out × NewMembers node_key [] hi_in
Sendable _ = Unit {0}

abbrev pub raw_stamp : Transaction → Transaction
raw_stamp t = record t { timestamp = raw (stamp_text t.timestamp) }

-- MergedTransactions leaves its timestamps as texts; the other messages come back as they were.
abbrev pub received : Body → Body
received (merged_transactions ts d) = merged_transactions (map raw_stamp ts) d
received b = b

pub read_all-All :
    {A B : Type 0} (write : B → A) (read : A → Option B) (bs : List B)
    → All (λ (b : B). read (write b) ≡ some b) bs
    → read_all read (map write bs) ≡ some bs
unfolding read_all
read_all-All write read [] h = refl
read_all-All write read (b ∷ bs) (h, hs) = ap₂ cons_option h (read_all-All write read bs hs)

pub map_All :
    {A : Type 0} {P Q : A → Type 0} → ((a : A) → P a → Q a) → (l : List A) → All P l → All Q l
map_All f [] h = h
map_All f (a ∷ l) (h, hs) = (f a h, map_All f l hs)

pub read_all-raw :
    (ts : List Transaction)
    → read_all raw_transaction (map transaction_row ts) ≡ some (map raw_stamp ts)
unfolding read_all
read_all-raw [] = refl
read_all-raw (t ∷ ts) = ap (cons_option (some (raw_stamp t))) (read_all-raw ts)

pub parsed_transaction-row :
    (t : Transaction) → Parsed t.timestamp → parsed_transaction (transaction_row t) ≡ some t
parsed_transaction-row t ok = parsed t.timestamp ok
  where
    parsed :
        (s : Stamp)
        → Parsed s
        → parsed_transaction (transaction_row (record t { timestamp = s }))
          ≡ some (record t { timestamp = s })
    parsed (moment m) good = rw (fast_datetime-str_datetime m good) refl
    parsed (raw s) good = absurd good

pub read_int_dict-written : (d : List (ℤ × ℤ)) → read_int_dict (int_dict d) ≡ some d
read_int_dict-written d =
    ap (read_all read_int_pair) (entries-pairs (map int_pair d))
    ∙ read_all-map int_pair read_int_pair (λ p. refl) d

pub read_sent_by-written :
    (d : List (ℤ × List (ℤ × ℤ))) → read_sent_by (dict (pairs (map sent_pair d))) ≡ some d
read_sent_by-written d =
    ap (read_all read_sent_pair) (entries-pairs (map sent_pair d))
    ∙ read_all-map sent_pair read_sent_pair
        (λ p. ap (λ o. o >>= λ e. some (p.0, e)) (read_int_dict-written p.1)) d

pub read_seq-rows :
    {A : Type 0} (write : A → Value) (read : Value → Option A) (l : List A)
    → All (λ (a : A). read (write a) ≡ some a) l
    → read_seq read (seq (values (map write l))) ≡ some l
read_seq-rows write read l h =
    ap (read_all read) (items-values (map write l)) ∙ read_all-All write read l h

pub always : {A : Type 0} {P : A → Type 0} → ((a : A) → P a) → (l : List A) → All P l
always f [] = tt
always f (a ∷ l) = (f a, always f l)

pub read_nodes-written :
    (ns : List Node) → NewMembers node_key [] ns → read_nodes (node_rows ns) ≡ some ns
read_nodes-written ns new =
    ap (λ o. o >>= λ l. some (collect node_key [] l))
      (read_seq-rows node_row read_node ns (always (λ n. refl) ns))
    ∙ ap some (collect-nil node_key ns new)

pub read_node_texts-written :
    (ns : List Node)
    → All NoComma ns
    → NewMembers node_key [] ns
    → read_node_texts (node_texts ns) ≡ some ns
read_node_texts-written ns plain new =
    ap (λ o. o >>= λ l. some (collect node_key [] l))
      (read_seq-rows node_text read_node_text ns
        (map_All (λ n p. node_from_str-node_str n p.0 p.1) ns plain))
    ∙ ap some (collect-nil node_key ns new)

pub read_neighbours-written :
    (e : Node × (List Node × List Node))
    → NewMembers node_key [] e.1.0 × NewMembers node_key [] e.1.1
    → read_neighbours (neighbours_row e) ≡ some e
read_neighbours-written (n, (ps, ss)) (hp, hs) =
    rw (read_nodes-written ps hp, read_nodes-written ss hs) refl
