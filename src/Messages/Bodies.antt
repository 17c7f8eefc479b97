-- ===== src/Messages/Bodies.antt =====
-- The messages of src/common/comms/messages/ and their types (`_type`). A set is listed in the order in which it is iterated, a dict in insertion order. A
-- client's id is its 16 bytes.
use distribuidos_tp_money_la.Prelude.{ℕ, Bool, List}
use distribuidos_tp_money_la.Prelude.Int.{ℤ}
use distribuidos_tp_money_la.Messages.Values.{Text}
use distribuidos_tp_money_la.Messages.Moments.{Moment}
use distribuidos_tp_money_la.Messages.Nodes.{Node, NodePath}

-- A transaction's timestamp: a `datetime`, or the text that MergedTransactions leaves there.
pub data Stamp : Type 0 where
  moment : Moment → Stamp
  raw : Text → Stamp

pub record Transaction : Type 0 where
  pub timestamp : Stamp
  pub from_bank : Text
  pub from_account : Text
  pub to_bank : Text
  pub to_account : Text
  pub amount_received : ℕ
  pub receiving_currency : Text
  pub amount_paid : ℕ
  pub payment_currency : Text
  pub payment_format : Text

pub record Account : Type 0 where
  pub bank_name : Text
  pub bank_id : Text
  pub account_number : Text
  pub entity_id : Text
  pub entity_name : Text

-- an entry of MergedBankData
pub record BankEntry : Type 0 where
  pub bank_id : Text
  pub account : Text
  pub max_amount : ℕ
  pub bank_name : Text

-- a client's message
pub data Body : Type 0 where
  eof : ℤ → ℤ → ℤ → ℤ → List (ℤ × ℤ) → Body
  transactions : List Transaction → Body
  accounts : List Account → Body
  fin : Body
  response : ℤ → Text → Bool → Body
  max_by_bank : List (Text × (Text × ℕ)) → Body
  bank_names : List (Text × Text) → Body
  merged_bank_data : List BankEntry → Body
  graph : List (Node × (List Node × List Node)) → Body
  path_counts : List (NodePath × ℤ) → Body
  count : ℤ → Body
  sum_by_payment_format : List (Text × (ℕ × ℤ)) → Body
  avg_by_format : List (Text × ℕ) → Body
  merged_transactions : List Transaction → List (Text × ℕ) → Body
  ring_done : ℤ → Body
  node_msg : Node → List Node → List Node → Body
  path_msg : NodePath → ℤ → Body
  ring_sent_data : ℤ → ℤ → Bool → Bool → Body
  high_degree : List Node → List Node → Body
  hello_ack : Body
  ring_barrier : ℤ → List (ℤ × List (ℤ × ℤ)) → Body
  abort : Body

-- a message that has a client, and the ones that have none
pub data Message : Type 0 where
  of_client : List ℕ → Body → Message
  hello : Message
  supervisor_election : Message
  supervisor_ack : Message
  supervisor_leader : ℤ → Message

abbrev pub body_type : Body → ℕ
body_type (eof _ _ _ _ _) = 0
body_type (transactions _) = 1
body_type (accounts _) = 2
body_type fin = 3
body_type (response _ _ _) = 4
body_type (max_by_bank _) = 5
body_type (bank_names _) = 6
body_type (merged_bank_data _) = 7
body_type (graph _) = 8
body_type (path_counts _) = 9
body_type (count _) = 10
body_type (sum_by_payment_format _) = 11
body_type (avg_by_format _) = 12
body_type (merged_transactions _ _) = 13
body_type (ring_done _) = 14
body_type (node_msg _ _ _) = 15
body_type (path_msg _ _) = 16
body_type (ring_sent_data _ _ _ _) = 17
body_type (high_degree _ _) = 18
body_type hello_ack = 20
body_type (ring_barrier _ _) = 21
body_type abort = 22

-- `Message._type`, with the numbers of message_types.py
unfoldable pub type_of : Message → ℕ
type_of (of_client id b) = body_type b
type_of hello = 19
type_of supervisor_election = 23
type_of supervisor_ack = 24
type_of (supervisor_leader idx) = 25
