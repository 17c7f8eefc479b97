-- ===== src/UseCases/Graphs/Degree.antt =====
-- The capped degree (uc4_degree.py).
use distribuidos_tp_money_la.Prelude.{
  ℕ, ◌+◌, ◌≤◌, List, [], ◌∷◌, length, length-append, nat_eq, arith,
}
use distribuidos_tp_money_la.Collections.PySet.{add}
use distribuidos_tp_money_la.UseCases.Graphs.{capped_add}

length-add : (n : ℕ) (s : List ℕ) → length (add n s) ≤ length s + 1
unfolding add
length-add n s = ground (arith, length-append s (n ∷ []))

-- A bucket of at most five neighbours never grows beyond five, whatever is added.
pub capped_add-bound :
    (neighbors bucket : List ℕ) → length bucket ≤ 5 → length (capped_add bucket neighbors) ≤ 5
unfolding capped_add
capped_add-bound [] bucket le = le
capped_add-bound (n ∷ neighbors) bucket le =
    ground (arith, le, length-add n bucket, capped_add-bound neighbors (add n bucket))
