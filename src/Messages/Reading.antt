-- ===== src/Messages/Reading.antt =====
-- `_from_fields` of each class of src/common/comms/messages/: what a payload gives when it is
-- read. A value of another type, or a row of another length, than every sender writes there is
-- `none`, also where Python would pass it on; so is what raises.
use distribuidos_tp_money_la.Prelude.{ℕ, Option, none, some, List, [], ◌∷◌, ◌>>=◌}
use distribuidos_tp_money_la.Prelude.Int.{ℤ}
use distribuidos_tp_money_la.Messages.Values.{
  Text, Value, int, float, text, seq, dict, items, entries, read_all,
}
use distribuidos_tp_money_la.Messages.Keyed.{collect}
use distribuidos_tp_money_la.Messages.Moments.{fast_datetime}
use distribuidos_tp_money_la.Messages.Nodes.{Node, NodePath, node_key, node_from_str}
use distribuidos_tp_money_la.Messages.Bodies.{Stamp, moment, raw, Transaction, Account, BankEntry}

abbrev pub row_of : Value → List Value
row_of (seq vs) = items vs
row_of _ = []

abbrev pub read_seq {ℓ} : {A : Type ℓ} → (Value → Option A) → Value → Option (List A)
read_seq read (seq vs) = read_all read (items vs)
read_seq read _ = none

abbrev pub fields_transaction : Stamp → List Value → Option Transaction
fields_transaction t
      (text a ∷ text b ∷ text c ∷ text d ∷ float e ∷ text f ∷ float g ∷ text h ∷ text i ∷ []) =
    some (record {
      timestamp = t;
      from_bank = a;
      from_account = b;
      to_bank = c;
      to_account = d;
      amount_received = e;
      receiving_currency = f;
      amount_paid = g;
      payment_currency = h;
      payment_format = i;
    })
fields_transaction t _ = none

-- Transaction(fast_datetime(t_fields[0]), *t_fields[1:])
abbrev pub parsed_fields : List Value → Option Transaction
parsed_fields (text s ∷ rest) = fast_datetime s >>= λ m. fields_transaction (moment m) rest
parsed_fields _ = none

-- Transaction(*fields)
abbrev pub raw_fields : List Value → Option Transaction
raw_fields (text s ∷ rest) = fields_transaction (raw s) rest
raw_fields _ = none

abbrev pub parsed_transaction : Value → Option Transaction
parsed_transaction v = parsed_fields (row_of v)

abbrev pub raw_transaction : Value → Option Transaction
raw_transaction v = raw_fields (row_of v)

abbrev pub account_fields : List Value → Option Account
account_fields (text a ∷ text b ∷ text c ∷ text d ∷ text e ∷ []) =
    some (record { bank_name = a; bank_id = b; account_number = c; entity_id = d; entity_name = e })
account_fields _ = none

abbrev pub read_account : Value → Option Account
read_account v = account_fields (row_of v)

abbrev pub bank_entry_fields : List Value → Option BankEntry
bank_entry_fields (text a ∷ text b ∷ float c ∷ text d ∷ []) =
    some (record { bank_id = a; account = b; max_amount = c; bank_name = d })
bank_entry_fields _ = none

abbrev pub read_bank_entry : Value → Option BankEntry
read_bank_entry v = bank_entry_fields (row_of v)

abbrev pub max_fields : List Value → Option (Text × (Text × ℕ))
max_fields (text b ∷ text a ∷ float m ∷ []) = some (b, (a, m))
max_fields _ = none

abbrev pub read_max : Value → Option (Text × (Text × ℕ))
read_max v = max_fields (row_of v)

abbrev pub name_fields : List Value → Option (Text × Text)
name_fields (text b ∷ text n ∷ []) = some (b, n)
name_fields _ = none

abbrev pub read_name : Value → Option (Text × Text)
read_name v = name_fields (row_of v)

abbrev pub sum_fields : List Value → Option (Text × (ℕ × ℤ))
sum_fields (text f ∷ float s ∷ int n ∷ []) = some (f, (s, n))
sum_fields _ = none

abbrev pub read_sum : Value → Option (Text × (ℕ × ℤ))
read_sum v = sum_fields (row_of v)

abbrev pub average_fields : List Value → Option (Text × ℕ)
average_fields (text f ∷ float a ∷ []) = some (f, a)
average_fields _ = none

abbrev pub read_average : Value → Option (Text × ℕ)
read_average v = average_fields (row_of v)

abbrev pub node_fields : List Value → Option Node
node_fields (text b ∷ text a ∷ []) = some (record { bank = b; account = a })
node_fields _ = none

abbrev pub read_node : Value → Option Node
read_node v = node_fields (row_of v)

abbrev pub path_fields : List Value → Option NodePath
path_fields (o ∷ d ∷ []) =
    read_node o >>= λ n. read_node d >>= λ m. some (record { origin = n; destination = m })
path_fields _ = none

abbrev pub read_path : Value → Option NodePath
read_path v = path_fields (row_of v)

-- {Node(bank, account) for (bank, account) in ...}
abbrev pub read_nodes : Value → Option (List Node)
read_nodes v = read_seq read_node v >>= λ ns. some (collect node_key [] ns)

abbrev pub neighbours_fields : List Value → Option (Node × (List Node × List Node))
neighbours_fields (n ∷ ps ∷ ss ∷ []) =
    read_node n >>= λ k. read_nodes ps >>= λ p. read_nodes ss >>= λ s. some (k, (p, s))
neighbours_fields _ = none

abbrev pub read_neighbours : Value → Option (Node × (List Node × List Node))
read_neighbours v = neighbours_fields (row_of v)

abbrev pub count_fields : List Value → Option (NodePath × ℤ)
count_fields (p ∷ int n ∷ []) = read_path p >>= λ q. some (q, n)
count_fields _ = none

abbrev pub read_count : Value → Option (NodePath × ℤ)
read_count v = count_fields (row_of v)

abbrev pub read_node_text : Value → Option Node
read_node_text (text s) = node_from_str s
read_node_text _ = none

-- {_node_from_str(n) for n in ...}
abbrev pub read_node_texts : Value → Option (List Node)
read_node_texts v = read_seq read_node_text v >>= λ ns. some (collect node_key [] ns)

abbrev pub read_int_pair : Value × Value → Option (ℤ × ℤ)
read_int_pair (int k, int n) = some (k, n)
read_int_pair _ = none

abbrev pub read_int_dict : Value → Option (List (ℤ × ℤ))
read_int_dict (dict ps) = read_all read_int_pair (entries ps)
read_int_dict _ = none

abbrev pub read_sent_pair : Value × Value → Option (ℤ × List (ℤ × ℤ))
read_sent_pair (int k, v) = read_int_dict v >>= λ d. some (k, d)
read_sent_pair _ = none

abbrev pub read_sent_by : Value → Option (List (ℤ × List (ℤ × ℤ)))
read_sent_by (dict ps) = read_all read_sent_pair (entries ps)
read_sent_by _ = none
