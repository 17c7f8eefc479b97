-- ===== src/Ring/Cluster/Totals.antt =====
-- Distinct keys drawn from a list that is no longer than they are: their sums agree.
use distribuidos_tp_money_la.Prelude.{
  ℕ, suc, ◌+◌, ◌≤◌, ◌≡◌, refl, true, false, List, [], ◌∷◌, arith, ◌==◌, nat_eq, if◌then◌else◌, All,
  length, Bool-cases, inl, inr,
}
use distribuidos_tp_money_la.Collections.Dict.{Dict}
use distribuidos_tp_money_la.Collections.Dict.Laws.{IsDict, Absent}
use distribuidos_tp_money_la.Collections.PySet.{mem}
use distribuidos_tp_money_la.Ring.Completion.Counts.{sum_of}

remove : ℕ → List ℕ → List ℕ
remove k [] = []
remove k (i ∷ ids) = if i == k then ids else i ∷ remove k ids

sum_of-remove :
    (f : ℕ → ℕ) (k : ℕ) (ids : List ℕ)
    → mem k ids ≡ true
    → (sum_of f ids ≡ f k + sum_of f (remove k ids)) × (length ids ≡ suc (length (remove k ids)))
unfolding remove mem
sum_of-remove f k [] h = absurd (ground arith)
sum_of-remove f k (i ∷ ids) h = elim (Bool-cases (i == k)) [
  | inl same ↦ ground arith
  | inr other ↦ ground (arith, sum_of-remove f k ids (ground arith))
]

mem-remove : (k j : ℕ) (ids : List ℕ) → (k == j) ≡ false → mem j (remove k ids) ≡ mem j ids
unfolding remove mem
mem-remove k j [] ne = refl
mem-remove k j (i ∷ ids) ne = ground (arith, mem-remove k j ids ne)

module _ {V : Type 0} where
  abbrev pub KeysIn : List ℕ → Dict ℕ V → Type 0
  KeysIn ids d = All (λ e. mem e.0 ids ≡ true) d

  KeysIn-remove :
      (k : ℕ) (ids : List ℕ) (d : Dict ℕ V) → Absent k d → KeysIn ids d → KeysIn (remove k ids) d
  KeysIn-remove k ids [] a h = tt
  KeysIn-remove k ids ((j, v) ∷ d) a h =
      (ground (arith, mem-remove k j ids, h.0, a.0), KeysIn-remove k ids d a.1 h.1)

  pub sum_of_keys :
      (f : ℕ → ℕ) (ids : List ℕ) (d : Dict ℕ V)
      → IsDict d
      → KeysIn ids d
      → length ids ≤ length d
      → sum_of (λ e. f e.0) d ≡ sum_of f ids
  sum_of_keys f [] [] w h le = refl
  sum_of_keys f (i ∷ ids) [] w h le = absurd (omega arith)
  sum_of_keys f ids ((k, v) ∷ d) w h le = omega (
    arith,
    sum_of-remove f k ids h.0,
    sum_of_keys f (remove k ids) d w.1 (KeysIn-remove k ids d w.0 h.1)
        (omega (arith, (sum_of-remove f k ids h.0).1)),
  )
