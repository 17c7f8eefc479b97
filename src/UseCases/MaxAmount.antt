-- ===== src/UseCases/MaxAmount.antt =====
-- Use case 2, the largest payment of every bank: src/group_by/group_by_fns/uc2_max_amount.py,
-- src/aggregate/aggregate_fns/uc2_max_amount.py and src/merge/merge_fns/uc2_bank_id.py.
-- Bank ids, accounts and names are numbers that are only compared; an amount, a float that is
-- only compared, is a natural number. `hash` is an argument.
pub mod Levels
use distribuidos_tp_money_la.Prelude.{
  ℕ, zero, suc, ◌+◌, ◌%◌, Bool, true, false, Option, none, some, List, [], ◌∷◌, ◌++◌, ltb,
  if◌then◌else◌, ◌==◌, nat_eq,
}
use distribuidos_tp_money_la.Collections.Dict.{Dict, get, put, pop, get_default, update}

-- the fields of a transaction that use case 2 reads
pub record Payment : Type 0 where
  pub from_bank : ℕ
  pub from_account : ℕ
  pub amount_paid : ℕ

-- `MaxByBank.data`: the account and the amount of a bank's largest payment
abbrev pub Maxes : Type 0
Maxes = Dict ℕ (ℕ × ℕ)

-- not curr_max or amount > curr_max[1]
abbrev pub is_greater : ℕ → Option (ℕ × ℕ) → Bool
is_greater amount none = true
is_greater amount (some curr_max) = ltb curr_max.1 amount

-- one turn of the loops
unfoldable pub keep_max : ℕ → ℕ → ℕ → Maxes → Maxes
unfolding get put
keep_max bank account amount maxes =
    if is_greater amount (get bank maxes) then put bank (account, amount) maxes else maxes

-- the first loop of `UC2MaxAmountGroupByFn.group_by`
unfoldable pub max_of_payments : Maxes → List Payment → Maxes
unfolding keep_max
max_of_payments maxes [] = maxes
max_of_payments maxes (t ∷ payments) =
    max_of_payments (keep_max t.from_bank t.from_account t.amount_paid maxes) payments

-- the other two loops: the banks by affinity
unfoldable pub by_affinity : (ℕ → ℕ) → Dict ℕ Maxes → Maxes → Dict ℕ Maxes
unfolding get_default put
by_affinity hash affinities [] = affinities
by_affinity hash affinities ((bank, best) ∷ maxes) =
    let shard = hash bank % 10 in
    by_affinity hash (put shard (put bank best (get_default shard [] affinities)) affinities) maxes

unfoldable pub group_by : (ℕ → ℕ) → List Payment → Dict ℕ Maxes
unfolding max_of_payments by_affinity
group_by hash payments = by_affinity hash [] (max_of_payments [] payments)

-- the loop of `UC2MaxAmountAggregateFn.aggregate`, and of `UC2BankIdMergeFn.left`
unfoldable pub add_maxes : Maxes → Maxes → Maxes
unfolding keep_max
add_maxes maxes [] = maxes
add_maxes maxes ((bank, (account, amount)) ∷ entries) =
    add_maxes (keep_max bank account amount maxes) entries

-- `aggregate`: the state of every client
unfoldable pub aggregate : ℕ → Maxes → Dict ℕ Maxes → Dict ℕ Maxes
unfolding add_maxes get_default put
aggregate client_id entries state =
    put client_id (add_maxes (get_default client_id [] state) entries) state

-- `get_result`: a message per bank with its affinity, and the state without the client
unfoldable pub messages_of : (ℕ → ℕ) → Maxes → List (Maxes × ℕ)
messages_of hash [] = []
messages_of hash ((bank, best) ∷ maxes) = ((bank, best) ∷ [], hash bank) ∷ messages_of hash maxes

unfoldable pub get_result : (ℕ → ℕ) → ℕ → Dict ℕ Maxes → List (Maxes × ℕ) × Dict ℕ Maxes
unfolding messages_of get_default pop
get_result hash client_id state =
    (messages_of hash (get_default client_id [] state), pop client_id state)

-- `UC2BankIdMergeFn`: its two states
pub record BankMerge : Type 0 where
  pub max_amounts : Dict ℕ Maxes
  pub bank_names : Dict ℕ (Dict ℕ ℕ)

unfoldable pub left : ℕ → Maxes → BankMerge → BankMerge
unfolding aggregate
left client_id entries s = record s { max_amounts = aggregate client_id entries s.max_amounts }

unfoldable pub right : ℕ → Dict ℕ ℕ → BankMerge → BankMerge
unfolding get_default put update
right client_id entries s = record s {
  bank_names = put client_id (update (get_default client_id [] s.bank_names) entries) s.bank_names;
}

-- [(bank, account, amount, names[bank]) for bank, (account, amount) in maxes if bank in names]
unfoldable pub merge_entries : Maxes → Dict ℕ ℕ → List (ℕ × (ℕ × ℕ) × ℕ)
unfolding get
merge_entries [] names = []
merge_entries ((bank, best) ∷ maxes) names =
    let rest = merge_entries maxes names in
    elim (get bank names) [ none ↦ rest | some name ↦ (bank, best, name) ∷ rest ]

unfoldable pub merged : ℕ → BankMerge → List (ℕ × (ℕ × ℕ) × ℕ) × BankMerge
unfolding merge_entries get_default pop
merged client_id s = (
  merge_entries (get_default client_id [] s.max_amounts) (get_default client_id [] s.bank_names),
  record { max_amounts = pop client_id s.max_amounts; bank_names = pop client_id s.bank_names },
)

unfoldable pub discard : ℕ → BankMerge → BankMerge
unfolding pop
discard client_id s = record {
  max_amounts = pop client_id s.max_amounts;
  bank_names = pop client_id s.bank_names;
}
