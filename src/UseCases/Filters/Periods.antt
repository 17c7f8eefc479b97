-- ===== src/UseCases/Filters/Periods.antt =====
-- How the filters of one day range relate (uc3_filter_period_A.py, uc3_filter_period_B.py,
-- uc4_filter.py).
use distribuidos_tp_money_la.Prelude.{refl, ℕ, ◌≡◌, false, ◌&&◌, leb, nat_eq, string_eq, arith}
use distribuidos_tp_money_la.UseCases.Filters.{
  Transfer, datetime_ltb, datetime_leb, uc3_keep, uc3_keep_period_a, uc3_keep_period_b, uc4_keep,
}

in_period :
    (d s : ℕ)
    → (datetime_leb (record { date = 738399; seconds = 0 }) (record { date = d; seconds = s })
        && datetime_ltb (record { date = d; seconds = s }) (record { date = 738404; seconds = 0 }))
      ≡ (leb 738399 d && leb d 738403)
in_period d s = ground arith

-- Use case 4 keeps exactly the transactions of period A of use case 3, although one filter compares
-- dates with both ends included and the other times with the end left out.
pub uc4_keep-uc3_keep_period_a : {A : Type 0} (t : Transfer A) → uc4_keep t ≡ uc3_keep_period_a t
unfolding uc4_keep uc3_keep_period_a uc3_keep
uc4_keep-uc3_keep_period_a t = rw (in_period t.timestamp.date t.timestamp.seconds) refl

-- No transaction is in both periods of use case 3.
pub periods_disjoint :
    {A : Type 0} (t : Transfer A) → (uc3_keep_period_a t && uc3_keep_period_b t) ≡ false
unfolding uc3_keep_period_a uc3_keep_period_b uc3_keep
periods_disjoint t = ground arith
