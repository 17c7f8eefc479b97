-- ===== src/Ring/Completion/Counts.antt =====
-- The sums that `_advance` of ring_completion.py forms when it closes a barrier.
use distribuidos_tp_money_la.Prelude.{
  ℕ, ◌+◌, ◌∙◌, ◌≡◌, List, [], ◌∷◌, arith, ◌==◌, nat_eq, if◌then◌else◌, All, Bool-cases, inl, inr,
}
use distribuidos_tp_money_la.Collections.Dict.{Dict, get, put, get_default}
use distribuidos_tp_money_la.Collections.Dict.Laws.{get-put, IsDict, Absent, get-eq-none_of_Absent}
use distribuidos_tp_money_la.Ring.Completion.{add_counts, add_all_counts}

-- The count of a shard, 0 where there is none.
abbrev pub count_of : ℕ → Dict ℕ ℕ → ℕ
unfolding get_default
count_of shard counts = get_default shard 0 counts

abbrev pub sum_of {ℓ} : {A : Type ℓ} → (A → ℕ) → List A → ℕ
sum_of f [] = 0
sum_of f (x ∷ xs) = f x + sum_of f xs

pub count_of-put :
    (shard j v : ℕ) (d : Dict ℕ ℕ)
    → count_of j (put shard v d) ≡ (if shard == j then v else count_of j d)
unfolding get_default
count_of-put shard j v d =
    rw get-put (elim (Bool-cases (shard == j)) [ inl same ↦ rw same | inr other ↦ rw other ])

count_of-cons :
    (shard j v : ℕ) (d : Dict ℕ ℕ)
    → Absent shard d
    → count_of j ((shard, v) ∷ d) ≡ (if shard == j then v else 0) + count_of j d
unfolding get_default get
count_of-cons shard j v d h = ground (arith, get-eq-none_of_Absent shard d h)

pub count_of-add_counts :
    (j : ℕ) (d counts : Dict ℕ ℕ)
    → IsDict counts
    → count_of j (add_counts d counts) ≡ count_of j d + count_of j counts
unfolding add_counts
count_of-add_counts j d [] h = unfold get_default get in omega arith
count_of-add_counts j d ((shard, v) ∷ counts) h = ground (
  arith,
  count_of-add_counts j (put shard (count_of shard d + v) d) counts h.1,
  count_of-put shard j (count_of shard d + v) d,
  count_of-cons shard j v counts h.0,
)

pub count_of-add_all_counts :
    (j : ℕ) (d : Dict ℕ ℕ) (all : List (Dict ℕ ℕ))
    → All IsDict all
    → count_of j (add_all_counts d all) ≡ count_of j d + sum_of (count_of j) all
unfolding add_all_counts
count_of-add_all_counts j d [] h = omega arith
count_of-add_all_counts j d (counts ∷ all) h = omega (
  arith,
  count_of-add_all_counts j (add_counts d counts) all h.1,
  count_of-add_counts j d counts h.0,
)

-- The counts that a barrier closes with are the sums over what the token carries.
pub count_of-total :
    (j : ℕ) (all : List (Dict ℕ ℕ))
    → All IsDict all
    → count_of j (add_all_counts [] all) ≡ sum_of (count_of j) all
count_of-total j all h = count_of-add_all_counts j [] all h ∙ unfold get_default get in omega arith
