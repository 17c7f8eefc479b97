-- ===== src/UseCases/HighDegree/Sides.antt =====
-- Buckets that move from memory behind the spilled ones (uc4_degree.py).
use distribuidos_tp_money_la.Prelude.{
  ℕ, ◌≡◌, ◌∙◌, refl, ap, sym, subst, true, false, List, [], ◌∷◌, ◌++◌, map, if◌then◌else◌, ◌==◌,
  nat_eq, arith, Bool-cases, inl, inr, append-nil, append_assoc,
}
use distribuidos_tp_money_la.Collections.Dict.{Dict, get, get_default, keys}
use distribuidos_tp_money_la.Collections.Dict.Laws.{IsDict, Absent}
use distribuidos_tp_money_la.Collections.PySet.{NoRepeat, mem}
use distribuidos_tp_money_la.UseCases.HighDegree.{update_all, first_set, second_set, line_of}
use distribuidos_tp_money_la.UseCases.HighDegree.Buckets.{Sums, Sums-nil}
use distribuidos_tp_money_la.UseCases.HighDegree.Spilled.{
  of_node, of_node-append, join, join-append, neighbors, get_default-update_all, Sums-merge_all,
  Parts, Parts-append,
}

-- What a node was given is in the spilled parts and, after them, in memory.
abbrev pub Side : ℕ → Dict ℕ (List ℕ) → List (ℕ × List ℕ) → List (ℕ × List ℕ) → Type 0
Side n store parts given =
    (xl : List ℕ) × (xm : List ℕ) × Parts (of_node n parts) xl
    × Sums (get_default n [] store) xm
    × (neighbors n given ≡ xl ++ xm)

neighbors-append :
    (n : ℕ) (es fs : List (ℕ × List ℕ)) → neighbors n (es ++ fs) ≡ neighbors n es ++ neighbors n fs
neighbors-append n es fs =
    ap join (of_node-append n es fs) ∙ join-append (of_node n es) (of_node n fs)

pub Side-update_all :
    (n : ℕ) (store : Dict ℕ (List ℕ)) (parts given es : List (ℕ × List ℕ))
    → Side n store parts given
    → Side n (update_all store es) parts (given ++ es)
Side-update_all n store parts given es (xl, xm, ps, s, e) = (
  xl,
  xm ++ neighbors n es,
  ps,
  subst (λ b. Sums b (xm ++ neighbors n es)) (sym (get_default-update_all n es store))
      (Sums-merge_all (get_default n [] store) xm (of_node n es) s),
  neighbors-append n given es ∙ rw e (append_assoc xl xm (neighbors n es)),
)

-- the bucket of each key
unfoldable pub buckets : Dict ℕ (List ℕ) → List ℕ → List (ℕ × List ℕ)
buckets store [] = []
buckets store (k ∷ ks) = (k, get_default k [] store) ∷ buckets store ks

of_node-buckets :
    (n : ℕ) (store : Dict ℕ (List ℕ)) (ks : List ℕ)
    → NoRepeat ks
    → of_node n (buckets store ks) ≡ (if mem n ks then get_default n [] store ∷ [] else [])
unfolding of_node buckets mem
of_node-buckets n store [] h = ground arith
of_node-buckets n store (k ∷ ks) (new, h) = elim (Bool-cases (k == n)) [
  | inl same ↦
      let e : k ≡ n = ground (arith, same) in
      let gone : mem n ks ≡ false = subst (λ j. mem j ks ≡ false) e new in
      rw (of_node-buckets n store ks h) (rw (same, gone) (ap (λ j. get_default j [] store ∷ []) e))
  | inr other ↦ rw (of_node-buckets n store ks h) (rw other refl)
]

pub Sums-nil_only : (xm : List ℕ) → Sums [] xm → xm ≡ []
unfolding mem
Sums-nil_only [] s = refl
Sums-nil_only (x ∷ xm) s = elim s.all_of [
  | inl full ↦ absurd (ground (arith, full))
  | inr all ↦ absurd (ground (arith, all x))
]

pub nothing_kept : (n : ℕ) → Sums (get_default n [] []) []
unfolding get_default get
nothing_kept n = Sums-nil

-- Spilling moves the buckets behind the parts.
pub Side-spilled :
    (n : ℕ) (store : Dict ℕ (List ℕ)) (parts given : List (ℕ × List ℕ)) (ks : List ℕ)
    → NoRepeat ks
    → (mem n ks ≡ false → get_default n [] store ≡ [])
    → Side n store parts given
    → Side n [] (parts ++ buckets store ks) given
Side-spilled n store parts given ks once gone (xl, xm, ps, s, e) = elim (Bool-cases (mem n ks)) [
  | inl there ↦ (xl ++ xm, [], parts_after there, nothing_kept n, e ∙ sym (append-nil (xl ++ xm)))
  | inr missing ↦
      let none_left : xm ≡ [] = Sums-nil_only xm (subst (λ b. Sums b xm) (gone missing) s) in
      (xl, [], kept missing, nothing_kept n, e ∙ ap (λ t. xl ++ t) none_left)
]
  where
    kept : mem n ks ≡ false → Parts (of_node n (parts ++ buckets store ks)) xl
    kept missing =
        subst (λ l. Parts l xl)
          (sym (
            of_node-append n parts (buckets store ks)
            ∙ (ap (λ l. of_node n parts ++ l) (of_node-buckets n store ks once ∙ rw missing refl)
                ∙ append-nil (of_node n parts))))
          ps

    parts_after : mem n ks ≡ true → Parts (of_node n (parts ++ buckets store ks)) (xl ++ xm)
    parts_after there =
        subst (λ l. Parts l (xl ++ xm))
          (sym (
            of_node-append n parts (buckets store ks)
            ∙ ap (λ l. of_node n parts ++ l) (of_node-buckets n store ks once ∙ rw there refl)))
          (Parts-append (of_node n parts) (get_default n [] store ∷ []) xl xm ps
            (xm, [], s, refl, sym (append-nil xm)))

keys-Absent : (k : ℕ) (store : Dict ℕ (List ℕ)) → Absent k store → mem k (keys store) ≡ false
unfolding keys mem
keys-Absent k [] h = refl
keys-Absent k ((j, b) ∷ store) h = rw h.0 (keys-Absent k store h.1)

pub keys-NoRepeat : (store : Dict ℕ (List ℕ)) → IsDict store → NoRepeat (keys store)
unfolding keys
keys-NoRepeat [] h = tt
keys-NoRepeat ((k, b) ∷ store) h = (unfold keys in keys-Absent k store h.0, keys-NoRepeat store h.1)

pub get_default-missing :
    (k : ℕ) (store : Dict ℕ (List ℕ)) → mem k (keys store) ≡ false → get_default k [] store ≡ []
unfolding get_default get keys mem
get_default-missing k [] h = refl
get_default-missing k ((j, b) ∷ store) h = ground (arith, h, get_default-missing k store)

pub first_set-lines :
    (outs ins : Dict ℕ (List ℕ)) (ks : List ℕ)
    → map first_set (map (line_of outs ins) ks) ≡ buckets outs ks
unfolding buckets
first_set-lines outs ins [] = refl
first_set-lines outs ins (k ∷ ks) =
    ap (◌∷◌ (k, get_default k [] outs)) (first_set-lines outs ins ks)

pub second_set-lines :
    (outs ins : Dict ℕ (List ℕ)) (ks : List ℕ)
    → map second_set (map (line_of outs ins) ks) ≡ buckets ins ks
unfolding buckets
second_set-lines outs ins [] = refl
second_set-lines outs ins (k ∷ ks) =
    ap (◌∷◌ (k, get_default k [] ins)) (second_set-lines outs ins ks)

pub map-append :
    {A B : Type 0} (f : A → B) (xs ys : List A) → map f (xs ++ ys) ≡ map f xs ++ map f ys
map-append f [] ys = refl
map-append f (x ∷ xs) ys = ap (◌∷◌ (f x)) (map-append f xs ys)
