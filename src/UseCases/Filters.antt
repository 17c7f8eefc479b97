-- ===== src/UseCases/Filters.antt =====
-- src/filter/filter_fns/: the filters of the use cases. A date is its proleptic ordinal
-- (`date.toordinal`), a time of day its seconds. Floats are a type with the comparison, the
-- constants and the product that the filters use.
pub mod Periods
use distribuidos_tp_money_la.Prelude.{
  ℕ, Bool, true, false, ◌&&◌, ◌||◌, not, Option, none, some, List, [], ◌∷◌, ltb, leb, if◌then◌else◌,
  ◌==◌, nat_eq, string_eq,
}
use Prim.Native.String.{String}
use distribuidos_tp_money_la.Collections.Dict.{Dict, get}

pub record DateTime : Type 0 where
  pub date : ℕ
  pub seconds : ℕ

-- datetime's `<=` and `<`
abbrev pub datetime_ltb : DateTime → DateTime → Bool
datetime_ltb a b = ltb a.date b.date || (a.date == b.date && ltb a.seconds b.seconds)

abbrev pub datetime_leb : DateTime → DateTime → Bool
datetime_leb a b = not (datetime_ltb b a)

-- what is asked of floats: `<`, 50.0, 1.0 and the product with 0.01
pub record Amounts (A : Type 0) : Type 0 where
  pub less : A → A → Bool
  pub fifty : A
  pub one : A
  pub percent : A → A

-- the fields of a transaction that the filters read
pub record Transfer (A : Type 0) : Type 0 where
  pub timestamp : DateTime
  pub amount_paid : A
  pub payment_currency : String
  pub payment_format : String

-- `FilterFn.filter`: the transactions that `_keep` holds of, in order
unfoldable pub filter {ℓ} : {T : Type ℓ} → (T → Bool) → List T → List T
filter keep [] = []
filter keep (t ∷ transactions) =
    let rest = filter keep transactions in if keep t then t ∷ rest else rest

-- datetime(2022, 9, 1) and datetime(2022, 9, 6)
abbrev pub period_start : DateTime
period_start = record { date = 738399; seconds = 0 }

abbrev pub period_end : DateTime
period_end = record { date = 738404; seconds = 0 }

module _ {A : Type 0} where
  unfoldable pub uc1_keep : Amounts A → Transfer A → Bool
  uc1_keep num t = t.payment_currency == "US Dollar" && num.less t.amount_paid num.fifty

  unfoldable pub uc2_keep : Transfer A → Bool
  uc2_keep t = t.payment_currency == "US Dollar"

  -- `UC3FilterPeriodBase`: both ends inclusive
  unfoldable pub uc3_keep : ℕ → ℕ → Transfer A → Bool
  uc3_keep first last t =
      t.payment_currency == "US Dollar" && (leb first t.timestamp.date && leb t.timestamp.date last)

  -- date(2022, 9, 1) to date(2022, 9, 5)
  unfoldable pub uc3_keep_period_a : Transfer A → Bool
  unfolding uc3_keep
  uc3_keep_period_a t = uc3_keep 738399 738403 t

  -- date(2022, 9, 6) to date(2022, 9, 15)
  unfoldable pub uc3_keep_period_b : Transfer A → Bool
  unfolding uc3_keep
  uc3_keep_period_b t = uc3_keep 738404 738413 t

  unfoldable pub uc4_keep : Transfer A → Bool
  uc4_keep t =
      t.payment_currency == "US Dollar"
      && (datetime_leb period_start t.timestamp && datetime_ltb t.timestamp period_end)

  unfoldable pub uc5_keep : Transfer A → Bool
  uc5_keep t =
      (t.payment_format == "Wire" || t.payment_format == "ACH")
      && (datetime_leb period_start t.timestamp && datetime_ltb t.timestamp period_end)

  unfoldable pub uc5_amount_keep : Amounts A → Transfer A → Bool
  uc5_amount_keep num t = num.less t.amount_paid num.one

  -- t.amount_paid < PERCENTAGE * el.averages[t.payment_format], for a known format
  abbrev pub below_average : Amounts A → A → Option A → Bool
  below_average num amount none = false
  below_average num amount (some average) = num.less amount (num.percent average)

  -- the test of `UC3AvgFilter.filter`
  unfoldable pub uc3_avg_keep : Amounts A → Dict String A → Transfer A → Bool
  unfolding get
  uc3_avg_keep num averages t = below_average num t.amount_paid (get t.payment_format averages)

-- `UC4PathFilter.filter`: the paths with a count of 5 or more
unfoldable pub keep_paths {ℓ} : {P : Type ℓ} → List (P × ℕ) → List (P × ℕ)
keep_paths [] = []
keep_paths ((path, count) ∷ counts) =
    let rest = keep_paths counts in if leb 5 count then (path, count) ∷ rest else rest
