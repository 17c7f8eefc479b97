-- ===== src/UseCases/Conversion.antt =====
-- Use case 5, the conversion of amounts: src/group_by/group_by_fns/uc5_converter.py.
-- The conversion service (`ConversionAPI.get_rates`) is an argument: its answer for a day, after
-- the retries. Floats are a type with a product and a 1.0; `hash` is an argument.
use distribuidos_tp_money_la.Prelude.{
  ℕ, none, some, List, [], ◌∷◌, min, ◌*◌, nat_eq, string_eq, Bool, if◌then◌else◌,
}
use Prim.Native.String.{String}
use distribuidos_tp_money_la.Collections.Dict.{Dict, get, put, get_default}

-- the fields of a transaction that are read or replaced
pub record Amount (A : Type 0) : Type 0 where
  pub date : ℕ
  pub amount_paid : A
  pub payment_currency : String

module _ {A : Type 0} (one : A) (mul : A → A → A) (bitcoin : Dict ℕ A)
    (get_rates : ℕ → Dict String A) where
  -- the rates of a day that is not in the cache
  unfoldable pub fetched : ℕ → Dict String A
  unfolding get put
  fetched day = elim (get day bitcoin) [
    | none ↦ get_rates day
    | some rate ↦ put "Bitcoin" rate (get_rates day)
  ]

  -- `_rates_for`: the rates, and the cache
  unfoldable pub rates_for : ℕ → Dict ℕ (Dict String A) → Dict String A × Dict ℕ (Dict String A)
  unfolding fetched get put
  rates_for day cache = elim (get day cache) [
    | none ↦ (fetched day, put day (fetched day) cache)
    | some rates ↦ (rates, cache)
  ]

  -- the list of `group_by`
  unfoldable pub converted :
      List (Amount A) → Dict ℕ (Dict String A) → List (Amount A) × Dict ℕ (Dict String A)
  unfolding rates_for get_default
  converted [] cache = ([], cache)
  converted (t ∷ transactions) cache =
      let (rates, cache1) = rates_for t.date cache in
      let (rest, cache2) = converted transactions cache1 in
      (
        record t {
          amount_paid = mul t.amount_paid (get_default t.payment_currency one rates);
          payment_currency = "US Dollar";
        }
            ∷ rest,
        cache2,
      )

  -- `group_by`: the converted batch with its affinity, and the cache
  unfoldable pub convert_batch :
      (ℕ → ℕ → ℕ)
      → ℕ
      → ℕ
      → List (Amount A)
      → Dict ℕ (Dict String A)
      → (List (Amount A) × ℕ) × Dict ℕ (Dict String A)
  unfolding converted
  convert_batch hash producer_id seq transactions cache =
      let (batch, cache1) = converted transactions cache in ((batch, hash producer_id seq), cache1)

-- the delay before each of `n` retries: delay = min(delay * 2, self._max_delay)
unfoldable pub retry_delays : ℕ → ℕ → List Bool → List ℕ
retry_delays max_delay delay [] = []
retry_delays max_delay delay (failed ∷ attempts) =
    let rest = retry_delays max_delay (min (delay * 2) max_delay) attempts in
    if failed then delay ∷ rest else []
