-- ===== src/UseCases/Averages.antt =====
-- Use case 3, the average payment of every format: src/group_by/group_by_fns/uc3_sum.py and
-- src/aggregate/aggregate_fns/uc3_avg.py. Floats are a type with an addition, a zero and a division
-- by a count; formats are numbers that are only compared; `hash` is an argument.
use distribuidos_tp_money_la.Prelude.{ℕ, ◌+◌, List, [], ◌∷◌, nat_eq}
use distribuidos_tp_money_la.Collections.Dict.{Dict, put, pop, get_default}

pub record Floats (A : Type 0) : Type 0 where
  pub zero_float : A
  pub add_float : A → A → A
  pub div_count : A → ℕ → A

-- the fields of a transaction that are read
pub record FormatPayment (A : Type 0) : Type 0 where
  pub payment_format : ℕ
  pub amount_paid : A

module _ {A : Type 0} (num : Floats A) where
  -- the first loop of `UC3SumGroupByFn.group_by`
  unfoldable pub sum_counts : Dict ℕ (A × ℕ) → List (FormatPayment A) → Dict ℕ (A × ℕ)
  unfolding get_default put
  sum_counts sums [] = sums
  sum_counts sums (t ∷ payments) =
      let curr = get_default t.payment_format (num.zero_float, 0) sums in
      sum_counts (put t.payment_format (num.add_float curr.0 t.amount_paid, curr.1 + 1) sums)
        payments

  -- the second loop: a message per format, with its affinity
  unfoldable pub sum_messages : (ℕ → ℕ) → Dict ℕ (A × ℕ) → List (Dict ℕ (A × ℕ) × ℕ)
  sum_messages hash [] = []
  sum_messages hash ((format, sum) ∷ sums) =
      ((format, sum) ∷ [], hash format) ∷ sum_messages hash sums

  unfoldable pub group_sums : (ℕ → ℕ) → List (FormatPayment A) → List (Dict ℕ (A × ℕ) × ℕ)
  unfolding sum_counts sum_messages
  group_sums hash payments = sum_messages hash (sum_counts [] payments)

  -- the loop of `UC3AvgAggregateFn.aggregate`
  unfoldable pub add_sums : Dict ℕ (A × ℕ) → Dict ℕ (A × ℕ) → Dict ℕ (A × ℕ)
  unfolding get_default put
  add_sums sums [] = sums
  add_sums sums ((format, (sum, count)) ∷ entries) =
      let curr = get_default format (num.zero_float, 0) sums in
      add_sums (put format (num.add_float curr.0 sum, curr.1 + count) sums) entries

  unfoldable pub aggregate_sums :
      ℕ → Dict ℕ (A × ℕ) → Dict ℕ (Dict ℕ (A × ℕ)) → Dict ℕ (Dict ℕ (A × ℕ))
  unfolding add_sums get_default put
  aggregate_sums client_id entries state =
      put client_id (add_sums (get_default client_id [] state) entries) state

  -- `get_result`: a message per format with its affinity, and the state without the client
  unfoldable pub average_messages : (ℕ → ℕ) → Dict ℕ (A × ℕ) → List (Dict ℕ A × ℕ)
  average_messages hash [] = []
  average_messages hash ((format, (sum, count)) ∷ sums) =
      ((format, num.div_count sum count) ∷ [], hash format) ∷ average_messages hash sums

  unfoldable pub averages_result :
      (ℕ → ℕ) → ℕ → Dict ℕ (Dict ℕ (A × ℕ)) → List (Dict ℕ A × ℕ) × Dict ℕ (Dict ℕ (A × ℕ))
  unfolding average_messages get_default pop
  averages_result hash client_id state =
      (average_messages hash (get_default client_id [] state), pop client_id state)
