-- ===== src/Tests/PayloadRuns.antt =====
-- A run of the messages' payloads.
use distribuidos_tp_money_la.Prelude.{ℕ, ◌≡◌, refl, some, List, [], ◌∷◌, replicate, arith}
use distribuidos_tp_money_la.Messages.Moments.{Moment}
use distribuidos_tp_money_la.Messages.Keyed.{has_key, same_text}
use distribuidos_tp_money_la.Messages.Bodies.{Transaction, moment, merged_transactions, of_client}
use distribuidos_tp_money_la.Messages.Moments.{str_datetime}
use distribuidos_tp_money_la.Messages.Rows.{body_fields}
use distribuidos_tp_money_la.Messages.Packable.{is_packable, all_characters, is_new_key}
use distribuidos_tp_money_la.Messages.Payload.{
  fields_of, Stamped, serialize_message, deserialize_message,
}
use distribuidos_tp_money_la.Messages.RoundTrip.{received_message, deserialize_message-serialize}
use distribuidos_tp_money_la.Tests.Codec.{pack, unpack, unpack-pack}

abbrev noon : Moment
noon = record { year = 2022; month = 9; day = 1; hour = 12; minute = 30; second = 0 }

abbrev payment : Transaction
payment = record {
  timestamp = moment noon;
  from_bank = 49 ∷ 48 ∷ [];
  from_account = 56 ∷ [];
  to_bank = 50 ∷ [];
  to_account = 57 ∷ [];
  amount_received = 4607182418800017408;
  receiving_currency = 85 ∷ [];
  amount_paid = 4607182418800017408;
  payment_currency = 85 ∷ [];
  payment_format = 87 ∷ [];
}

-- one transaction, and the averages of two formats
abbrev merged : Stamped
merged = record {
  message =
      of_client (replicate 16 7)
        (merged_transactions (payment ∷ []) ((87 ∷ [], 5) ∷ (67 ∷ [], 6) ∷ []));
  producer_id = replicate 16 3;
  seq = 12;
}

deserialize_message-serialize_example :
    (bytes : List ℕ) × (serialize_message pack merged ≡ some bytes)
    × (deserialize_message unpack bytes
        ≡ some (record merged { message = received_message merged.message }))
unfolding has_key same_text fields_of body_fields is_packable all_characters is_new_key str_datetime
deserialize_message-serialize_example =
    deserialize_message-serialize pack unpack (λ vs fits. unpack-pack vs) merged
      ((refl, (refl, tt)), refl) refl (omega arith) refl
