-- ===== src/Messages/Rows.antt =====
-- What each message of src/common/comms/messages/ puts into its payload (`_fields`), and the nodes
-- and paths in it (graph_src/, `fields`).
use distribuidos_tp_money_la.Prelude.{ℕ, Bool, List, [], ◌∷◌, ◌++◌, map, length}
use distribuidos_tp_money_la.Prelude.Int.{ℤ, pos}
use distribuidos_tp_money_la.Messages.Values.{
  Text, Value, int, float, text, bool, seq, dict, values, pairs,
}
use distribuidos_tp_money_la.Messages.Moments.{str_datetime}
use distribuidos_tp_money_la.Messages.Nodes.{Node, NodePath, node_str}
use distribuidos_tp_money_la.Messages.Bodies.{
  Stamp, moment, raw, Transaction, Account, BankEntry, Body, eof, transactions, accounts, fin,
  response, max_by_bank, bank_names, merged_bank_data, graph, path_counts, count,
  sum_by_payment_format, avg_by_format, merged_transactions, ring_done, node_msg, path_msg,
  ring_sent_data, high_degree, hello_ack, ring_barrier, abort,
}

-- the row of a transaction; `_mp_default` writes a `datetime` by `str`
abbrev pub stamp_text : Stamp → Text
stamp_text (moment m) = str_datetime m
stamp_text (raw s) = s

abbrev pub transaction_row : Transaction → Value
transaction_row t = seq (
    values (
      text (stamp_text t.timestamp)
      ∷ text t.from_bank
      ∷ text t.from_account
      ∷ text t.to_bank
      ∷ text t.to_account
      ∷ float t.amount_received
      ∷ text t.receiving_currency
      ∷ float t.amount_paid
      ∷ text t.payment_currency
      ∷ text t.payment_format
      ∷ []))

abbrev pub account_row : Account → Value
account_row a = seq (
    values (
      text a.bank_name
      ∷ text a.bank_id
      ∷ text a.account_number
      ∷ text a.entity_id
      ∷ text a.entity_name
      ∷ []))

abbrev pub bank_row : BankEntry → Value
bank_row e =
    seq (values (text e.bank_id ∷ text e.account ∷ float e.max_amount ∷ text e.bank_name ∷ []))

abbrev pub max_row : Text × (Text × ℕ) → Value
max_row (b, (a, m)) = seq (values (text b ∷ text a ∷ float m ∷ []))

abbrev pub name_row : Text × Text → Value
name_row (b, n) = seq (values (text b ∷ text n ∷ []))

abbrev pub sum_row : Text × (ℕ × ℤ) → Value
sum_row (f, (s, n)) = seq (values (text f ∷ float s ∷ int n ∷ []))

abbrev pub average_row : Text × ℕ → Value
average_row (f, a) = seq (values (text f ∷ float a ∷ []))

-- `Node.fields`
abbrev pub node_row : Node → Value
node_row n = seq (values (text n.bank ∷ text n.account ∷ []))

-- `Path.fields`
abbrev pub path_row : NodePath → Value
path_row p = seq (values (node_row p.origin ∷ node_row p.destination ∷ []))

abbrev pub node_rows : List Node → Value
node_rows ns = seq (values (map node_row ns))

abbrev pub neighbours_row : Node × (List Node × List Node) → Value
neighbours_row (n, (ps, ss)) = seq (values (node_row n ∷ node_rows ps ∷ node_rows ss ∷ []))

abbrev pub count_row : NodePath × ℤ → Value
count_row (p, n) = seq (values (path_row p ∷ int n ∷ []))

abbrev pub node_text : Node → Value
node_text n = text (node_str n)

abbrev pub node_texts : List Node → Value
node_texts ns = seq (values (map node_text ns))

abbrev pub int_pair : ℤ × ℤ → Value × Value
int_pair (k, n) = (int k, int n)

abbrev pub int_dict : List (ℤ × ℤ) → Value
int_dict d = dict (pairs (map int_pair d))

abbrev pub sent_pair : ℤ × List (ℤ × ℤ) → Value × Value
sent_pair (k, d) = (int k, int_dict d)

abbrev pub eof_fields : ℤ → ℤ → ℤ → ℤ → List (ℤ × ℤ) → List Value
eof_fields processed expected next origin shards =
    int processed ∷ int expected ∷ int next ∷ int origin ∷ int_dict shards ∷ []

abbrev pub response_fields : ℤ → Text → Bool → List Value
response_fields uc_id body last = int uc_id ∷ text body ∷ bool last ∷ []

abbrev pub merged_fields : List Transaction → List (Text × ℕ) → List Value
merged_fields ts d = int (pos (length ts)) ∷ map transaction_row ts ++ map average_row d

abbrev pub node_msg_fields : Node → List Node → List Node → List Value
node_msg_fields n ps ss = node_text n ∷ node_texts ps ∷ node_texts ss ∷ []

abbrev pub path_msg_fields : NodePath → ℤ → List Value
path_msg_fields p n = path_row p ∷ int n ∷ []

abbrev pub ring_sent_data_fields : ℤ → ℤ → Bool → Bool → List Value
ring_sent_data_fields origin amount sent done = int origin ∷ int amount ∷ bool sent ∷ bool done ∷ []

abbrev pub ring_barrier_fields : ℤ → List (ℤ × List (ℤ × ℤ)) → List Value
ring_barrier_fields origin sent_by = int origin ∷ dict (pairs (map sent_pair sent_by)) ∷ []

-- `_fields` of each class, without the client's id
unfoldable pub body_fields : Body → List Value
body_fields (eof processed expected next origin shards) =
    eof_fields processed expected next origin shards
body_fields (transactions ts) = map transaction_row ts
body_fields (accounts as_) = map account_row as_
body_fields fin = []
body_fields (response uc_id body last) = response_fields uc_id body last
body_fields (max_by_bank d) = map max_row d
body_fields (bank_names d) = map name_row d
body_fields (merged_bank_data es) = map bank_row es
body_fields (graph ns) = seq (values (map neighbours_row ns)) ∷ []
body_fields (path_counts d) = seq (values (map count_row d)) ∷ []
body_fields (count n) = int n ∷ []
body_fields (sum_by_payment_format d) = map sum_row d
body_fields (avg_by_format d) = map average_row d
body_fields (merged_transactions ts d) = merged_fields ts d
body_fields (ring_done origin) = int origin ∷ []
body_fields (node_msg n ps ss) = node_msg_fields n ps ss
body_fields (path_msg p n) = path_msg_fields p n
body_fields (ring_sent_data origin amount sent done) = ring_sent_data_fields origin amount sent done
body_fields (high_degree hi_out hi_in) = node_rows hi_out ∷ node_rows hi_in ∷ []
body_fields hello_ack = []
body_fields (ring_barrier origin sent_by) = ring_barrier_fields origin sent_by
body_fields abort = []
