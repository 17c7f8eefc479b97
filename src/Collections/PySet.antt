-- ===== src/Collections/PySet.antt =====
-- Python's `set` of identifiers, kept as a list without repetition.
use distribuidos_tp_money_la.Prelude.{
  ◌≡◌, refl, Bool, false, ◌||◌, List, [], ◌∷◌, arith, Eq, ◌==◌, if◌then◌else◌, Bool-cases, inl, inr,
}

module _ {ℓ} {K : Type ℓ} ⦃e : Eq K⦄ where
  -- k in s
  unfoldable pub mem : K → List K → Bool
  mem k [] = false
  mem k (j ∷ s) = j == k || mem k s

  -- s.add(k)
  unfoldable pub add : K → List K → List K
  unfolding mem
  add k s = if mem k s then s else k ∷ s

  -- s.discard(k)
  unfoldable pub discard : K → List K → List K
  discard k [] = []
  discard k (j ∷ s) = let rest = discard k s in if j == k then rest else j ∷ rest

  -- s | other, s.update(other)
  unfoldable pub union : List K → List K → List K
  unfolding add
  union s [] = s
  union s (k ∷ ks) = union (add k s) ks

  pub mem-add : (k j : K) (s : List K) → mem j (add k s) ≡ (k == j || mem j s)
  unfolding mem add
  mem-add k j s = elim (Bool-cases (mem k s)) [
    | inl old ↦ ground (arith, e.beq_iff k j)
    | inr new ↦ rw new
  ]

  pub mem-discard :
      (k j : K) (s : List K) → mem j (discard k s) ≡ (if k == j then false else mem j s)
  unfolding mem discard
  mem-discard k j [] = ground arith
  mem-discard k j (i ∷ s) =
      ground (arith, e.beq_iff i k, e.beq_iff i j, e.beq_iff k j, mem-discard k j s)

  pub mem-union : (j : K) (s ks : List K) → mem j (union s ks) ≡ (mem j s || mem j ks)
  unfolding mem union
  mem-union j s [] = ground arith
  mem-union j s (k ∷ ks) = ground (arith, mem-union j (add k s) ks, mem-add k j s)

  -- {k for k in ks}
  unfoldable pub set_of : List K → List K
  unfolding add
  set_of [] = []
  set_of (k ∷ ks) = add k (set_of ks)

  abbrev pub NoRepeat : List K → Type 0
  NoRepeat [] = Unit {0}
  NoRepeat (k ∷ s) = (mem k s ≡ false) × NoRepeat s

  -- The comprehension over a set gives the set.
  pub set_of-NoRepeat : (s : List K) → NoRepeat s → set_of s ≡ s
  unfolding set_of add
  set_of-NoRepeat [] h = refl
  set_of-NoRepeat (k ∷ s) (new, h) = rw (set_of-NoRepeat s h) (rw new refl)
