-- ===== src/UseCases/HighDegree/Increasing.antt =====
-- The sorted shards of `MultiShardSpill.shards_of`.
use distribuidos_tp_money_la.Prelude.{
  ℕ, ◌<◌, ◌≡◌, refl, false, ◌||◌, List, [], ◌∷◌, ltb, ◌==◌, nat_eq, arith, Bool-cases, inl, inr,
}
use distribuidos_tp_money_la.Collections.PySet.{mem}
use distribuidos_tp_money_la.UseCases.HighDegree.{insert_sorted}

-- The shards are listed once each.
pub insert_sorted-mem : (j s : ℕ) (l : List ℕ) → mem j (insert_sorted s l) ≡ (s == j || mem j l)
unfolding mem insert_sorted
insert_sorted-mem j s [] = refl
insert_sorted-mem j s (t ∷ ts) = ground (arith, insert_sorted-mem j s ts)

-- Strictly increasing.
abbrev pub Above : ℕ → List ℕ → Type 0
Above s [] = Unit {0}
Above s (t ∷ ts) = (s < t) × Above t ts

abbrev pub Increasing : List ℕ → Type 0
Increasing [] = Unit {0}
Increasing (t ∷ ts) = Above t ts

Above-insert_sorted : (a s : ℕ) (l : List ℕ) → a < s → Above a l → Above a (insert_sorted s l)
unfolding insert_sorted
Above-insert_sorted a s [] lt h = (lt, tt)
Above-insert_sorted a s (t ∷ ts) lt (at, h) = elim (Bool-cases (s == t)) [
  | inl same ↦ rw same (at, h)
  | inr other ↦ elim (Bool-cases (ltb s t)) [
    | inl below ↦ rw (other, below) (lt, (ground (arith, below), h))
    | inr above ↦
        rw (other, above) (at, Above-insert_sorted t s ts (ground (arith, other, above)) h)
  ]
]

pub insert_sorted-Increasing : (s : ℕ) (l : List ℕ) → Increasing l → Increasing (insert_sorted s l)
unfolding insert_sorted
insert_sorted-Increasing s [] h = tt
insert_sorted-Increasing s (t ∷ ts) h = elim (Bool-cases (s == t)) [
  | inl same ↦ rw same h
  | inr other ↦ elim (Bool-cases (ltb s t)) [
    | inl below ↦ rw (other, below) (ground (arith, below), h)
    | inr above ↦ rw (other, above) (Above-insert_sorted t s ts (ground (arith, other, above)) h)
  ]
]

pub Above-mem : (s : ℕ) (l : List ℕ) → Above s l → mem s l ≡ false
unfolding mem
Above-mem s [] h = refl
Above-mem s (t ∷ ts) (lt, h) = ground (arith, lt, Above-mem s ts (weaken s t ts lt h))
  where
    weaken : (a b : ℕ) (l : List ℕ) → a < b → Above b l → Above a l
    weaken a b [] lt h = tt
    weaken a b (c ∷ l) lt h = (omega (arith, lt, h.0), h.1)

pub Increasing-tail : (s : ℕ) (l : List ℕ) → Above s l → Increasing l
Increasing-tail s [] h = tt
Increasing-tail s (t ∷ ts) h = h.1
