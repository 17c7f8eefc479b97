-- ===== src/UseCases/MaxAmount/Levels.antt =====
-- The largest payments of partial results against those of the whole input (uc2_max_amount.py of
-- the group-by and of the aggregate).
use distribuidos_tp_money_la.Prelude.{
  ℕ, ◌+◌, ◌≡◌, ◌∙◌, refl, ap, sym, true, false, Option, none, some, List, [], ◌∷◌, max,
  if◌then◌else◌, ◌==◌, nat_eq, arith, Bool-cases, inl, inr,
}
use distribuidos_tp_money_la.Collections.Dict.{get}
use distribuidos_tp_money_la.Collections.Dict.Laws.{get-put, IsDict, put-IsDict, Absent}
use distribuidos_tp_money_la.UseCases.MaxAmount.{
  Payment, Maxes, is_greater, keep_max, max_of_payments, add_maxes,
}

-- How large a bank's payment is, plus one; 0 for a bank without payments.
abbrev pub size : Option (ℕ × ℕ) → ℕ
size none = 0
size (some best) = best.1 + 1

-- the largest of the bank's payments in a list, in the same measure
unfoldable pub largest : ℕ → List Payment → ℕ
largest bank [] = 0
largest bank (t ∷ payments) =
    let rest = largest bank payments in
    if t.from_bank == bank then max (t.amount_paid + 1) rest else rest

largest_entry : ℕ → Maxes → ℕ
largest_entry bank [] = 0
largest_entry bank ((b, best) ∷ maxes) =
    let rest = largest_entry bank maxes in if b == bank then max (best.1 + 1) rest else rest

greater_size :
    (amount account : ℕ) (o : Option (ℕ × ℕ))
    → (if is_greater amount o then amount + 1 else size o) ≡ max (amount + 1) (size o)
greater_size amount account none = ground arith
greater_size amount account (some best) = ground arith

keep_max-size :
    (b bank account amount : ℕ) (maxes : Maxes)
    → size (get b (keep_max bank account amount maxes))
      ≡ (if bank == b then max (amount + 1) (size (get b maxes)) else size (get b maxes))
unfolding keep_max
keep_max-size b bank account amount maxes = elim (Bool-cases (is_greater amount (get bank maxes))) [
  | inl more ↦ rw more (
      ap size (get-put bank b (account, amount) maxes)
      ∙ elim (Bool-cases (bank == b)) [ inl e ↦ rw e (same e more) | inr ne ↦ rw ne refl ])
  | inr less ↦
      rw less (elim (Bool-cases (bank == b)) [ inl e ↦ rw e (kept e less) | inr ne ↦ rw ne refl ])
]
  where
    at_bank : (bank == b) ≡ true → get bank maxes ≡ get b maxes
    at_bank e = ap (λ k. get k maxes) (ground (arith, e))

    same :
        (bank == b) ≡ true
        → is_greater amount (get bank maxes) ≡ true
        → amount + 1 ≡ max (amount + 1) (size (get b maxes))
    same e more =
        ground (
          arith,
          greater_size amount account (get b maxes),
          ap (is_greater amount) (at_bank e),
          more,
        )

    kept :
        (bank == b) ≡ true
        → is_greater amount (get bank maxes) ≡ false
        → size (get b maxes) ≡ max (amount + 1) (size (get b maxes))
    kept e less =
        ground (
          arith,
          greater_size amount account (get b maxes),
          ap (is_greater amount) (at_bank e),
          less,
        )

max_of_payments-size :
    (b : ℕ) (payments : List Payment) (maxes : Maxes)
    → size (get b (max_of_payments maxes payments)) ≡ max (size (get b maxes)) (largest b payments)
unfolding max_of_payments largest
max_of_payments-size b [] maxes = ground arith
max_of_payments-size b (t ∷ payments) maxes = ground (
  arith,
  keep_max-size b t.from_bank t.from_account t.amount_paid maxes,
  max_of_payments-size b payments (keep_max t.from_bank t.from_account t.amount_paid maxes),
)

add_maxes-size :
    (b : ℕ) (entries maxes : Maxes)
    → size (get b (add_maxes maxes entries)) ≡ max (size (get b maxes)) (largest_entry b entries)
unfolding add_maxes largest_entry
add_maxes-size b [] maxes = ground arith
add_maxes-size b ((bank, (account, amount)) ∷ entries) maxes = ground (
  arith,
  keep_max-size b bank account amount maxes,
  add_maxes-size b entries (keep_max bank account amount maxes),
)

largest_entry-Absent : (b : ℕ) (maxes : Maxes) → Absent b maxes → largest_entry b maxes ≡ 0
unfolding largest_entry
largest_entry-Absent b [] h = refl
largest_entry-Absent b ((bank, best) ∷ maxes) h = rw h.0 (largest_entry-Absent b maxes h.1)

largest_entry-get :
    (b : ℕ) (maxes : Maxes) → IsDict maxes → largest_entry b maxes ≡ size (get b maxes)
unfolding largest_entry get
largest_entry-get b [] h = refl
largest_entry-get b ((bank, best) ∷ maxes) h = elim (Bool-cases (bank == b)) [
  | inl e ↦ rw e (ground (arith, none_left e))
  | inr ne ↦ rw ne (largest_entry-get b maxes h.1)
]
  where
    none_left : (bank == b) ≡ true → largest_entry b maxes ≡ 0
    none_left e =
        ap (λ k. largest_entry k maxes) (sym (same e)) ∙ largest_entry-Absent bank maxes h.0
      where
        same : (bank == b) ≡ true → bank ≡ b
        same f = ground (arith, f)

keep_max-IsDict :
    (bank account amount : ℕ) (maxes : Maxes)
    → IsDict maxes
    → IsDict (keep_max bank account amount maxes)
unfolding keep_max
keep_max-IsDict bank account amount maxes d =
    elim (Bool-cases (is_greater amount (get bank maxes))) [
      | inl more ↦ rw more (put-IsDict bank (account, amount) maxes d)
      | inr less ↦ rw less d
    ]

max_of_payments-IsDict :
    (payments : List Payment) (maxes : Maxes)
    → IsDict maxes
    → IsDict (max_of_payments maxes payments)
unfolding max_of_payments
max_of_payments-IsDict [] maxes d = d
max_of_payments-IsDict (t ∷ payments) maxes d =
    max_of_payments-IsDict payments _
      (keep_max-IsDict t.from_bank t.from_account t.amount_paid maxes d)

-- the aggregate of the group-by's result for every batch
unfoldable pub add_batches : Maxes → List (List Payment) → Maxes
unfolding add_maxes max_of_payments
add_batches maxes [] = maxes
add_batches maxes (batch ∷ batches) =
    add_batches (add_maxes maxes (max_of_payments [] batch)) batches

unfoldable pub largest_of_all : ℕ → List (List Payment) → ℕ
unfolding largest
largest_of_all bank [] = 0
largest_of_all bank (batch ∷ batches) = max (largest bank batch) (largest_of_all bank batches)

-- However the payments are split into batches, aggregating the maxima of the batches leaves, for
-- every bank, an entry exactly as large as the bank's largest payment of all batches, and none
-- for a bank without payments (sizes are amounts plus one, and 0 is no entry).
pub add_batches-size :
    (bank : ℕ) (batches : List (List Payment)) (maxes : Maxes)
    → size (get bank (add_batches maxes batches))
      ≡ max (size (get bank maxes)) (largest_of_all bank batches)
unfolding add_batches largest_of_all
add_batches-size bank [] maxes = ground arith
add_batches-size bank (batch ∷ batches) maxes = ground (
  arith,
  add_batches-size bank batches (add_maxes maxes (max_of_payments [] batch)),
  add_maxes-size bank (max_of_payments [] batch) maxes,
  largest_entry-get bank (max_of_payments [] batch) (max_of_payments-IsDict batch [] tt),
  max_of_payments-size bank batch [],
  empty bank,
)
  where
    empty : (b : ℕ) → size (get b []) ≡ 0
    empty b = unfold get in refl
