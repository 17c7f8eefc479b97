-- ===== src/UseCases/BankNames.antt =====
-- Use case 2, the names of the banks: src/group_by/group_by_fns/uc2_bank_names.py and
-- src/aggregate/aggregate_fns/uc2_bank_names.py. Ids and names are numbers that are only compared;
-- `hash` is an argument.
use distribuidos_tp_money_la.Prelude.{ℕ, ◌%◌, List, [], ◌∷◌, nat_eq}
use distribuidos_tp_money_la.Collections.Dict.{Dict, put, pop, get_default, update}

-- the fields of an account that are read
pub record BankAccount : Type 0 where
  pub bank_id : ℕ
  pub bank_name : ℕ

-- {a.bank_id: a.bank_name for a in msg.accounts}
unfoldable pub names_of : Dict ℕ ℕ → List BankAccount → Dict ℕ ℕ
unfolding put
names_of names [] = names
names_of names (a ∷ accounts) = names_of (put a.bank_id a.bank_name names) accounts

-- the second loop of `group_by`
unfoldable pub names_by_affinity : (ℕ → ℕ) → Dict ℕ (Dict ℕ ℕ) → Dict ℕ ℕ → Dict ℕ (Dict ℕ ℕ)
unfolding get_default put
names_by_affinity hash affinities [] = affinities
names_by_affinity hash affinities ((bank_id, bank_name) ∷ names) =
    let shard = hash bank_id % 10 in
    names_by_affinity hash
      (put shard (put bank_id bank_name (get_default shard [] affinities)) affinities) names

unfoldable pub group_names : (ℕ → ℕ) → List BankAccount → Dict ℕ (Dict ℕ ℕ)
unfolding names_of names_by_affinity
group_names hash accounts = names_by_affinity hash [] (names_of [] accounts)

-- `aggregate`
unfoldable pub aggregate_names : ℕ → Dict ℕ ℕ → Dict ℕ (Dict ℕ ℕ) → Dict ℕ (Dict ℕ ℕ)
unfolding get_default put update
aggregate_names client_id names state =
    put client_id (update (get_default client_id [] state) names) state

-- `get_result`: a message per bank with its affinity, and the state without the client
unfoldable pub name_messages : (ℕ → ℕ) → Dict ℕ ℕ → List (Dict ℕ ℕ × ℕ)
name_messages hash [] = []
name_messages hash ((bank_id, bank_name) ∷ names) =
    ((bank_id, bank_name) ∷ [], hash bank_id) ∷ name_messages hash names

unfoldable pub names_result :
    (ℕ → ℕ) → ℕ → Dict ℕ (Dict ℕ ℕ) → List (Dict ℕ ℕ × ℕ) × Dict ℕ (Dict ℕ ℕ)
unfolding name_messages get_default pop
names_result hash client_id state =
    (name_messages hash (get_default client_id [] state), pop client_id state)

-- `discard`
unfoldable pub discard_names : ℕ → Dict ℕ (Dict ℕ ℕ) → Dict ℕ (Dict ℕ ℕ)
unfolding pop
discard_names client_id state = pop client_id state
