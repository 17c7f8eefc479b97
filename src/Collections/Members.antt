-- ===== src/Collections/Members.antt =====
-- Membership and universal statements on lists of identifiers.
use distribuidos_tp_money_la.Prelude.{
  ℕ, zero, suc, ◌≡◌, refl, subst, true, false, ◌||◌, List, [], ◌∷◌, ◌++◌, drop, arith, ◌==◌, nat_eq,
  All, Bool-cases, inl, inr,
}
use distribuidos_tp_money_la.Collections.PySet.{mem}

pub mem-append : (u : ℕ) (xs ys : List ℕ) → mem u (xs ++ ys) ≡ (mem u xs || mem u ys)
unfolding mem
mem-append u [] ys = refl
mem-append u (x ∷ xs) ys = ground (arith, mem-append u xs ys)

pub mem-drop : (k u : ℕ) (xs : List ℕ) → mem u xs ≡ false → mem u (drop k xs) ≡ false
unfolding mem
mem-drop zero u xs h = h
mem-drop (suc k) u [] h = h
mem-drop (suc k) u (x ∷ xs) h = mem-drop k u xs (ground arith)

module _ (P : ℕ → Type 0) where
  pub All-append : (xs ys : List ℕ) → All P xs → All P ys → All P (xs ++ ys)
  All-append [] ys h g = g
  All-append (x ∷ xs) ys h g = (h.0, All-append xs ys h.1 g)

  pub All-drop : (k : ℕ) (xs : List ℕ) → All P xs → All P (drop k xs)
  All-drop zero xs h = h
  All-drop (suc k) [] h = h
  All-drop (suc k) (x ∷ xs) h = All-drop k xs h.1

  pub All-mem : (u : ℕ) (xs : List ℕ) → All P xs → mem u xs ≡ true → P u
  unfolding mem
  All-mem u [] h m = absurd (ground arith)
  All-mem u (x ∷ xs) h m = elim (Bool-cases (x == u)) [
    | inl same ↦ subst P (ground (arith, same)) h.0
    | inr other ↦ All-mem u xs h.1 (ground (arith, other))
  ]

pub All-map : (P Q : ℕ → Type 0) (xs : List ℕ) → ((x : ℕ) → P x → Q x) → All P xs → All Q xs
All-map P Q [] f h = tt
All-map P Q (x ∷ xs) f h = (f x h.0, All-map P Q xs f h.1)
