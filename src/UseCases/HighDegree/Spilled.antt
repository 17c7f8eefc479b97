-- ===== src/UseCases/HighDegree/Spilled.antt =====
-- The buckets of one node: in memory, and in the spilled lines (uc4_degree.py).
use distribuidos_tp_money_la.Prelude.{
  ℕ, ◌≡◌, ◌∙◌, refl, ap, sym, subst, false, List, [], ◌∷◌, ◌++◌, none, leb, length, if◌then◌else◌,
  ◌==◌, nat_eq, arith, Bool-cases, inl, inr, append-nil, append_assoc,
}
use distribuidos_tp_money_la.Collections.Dict.{get_or, Dict, get, get_default, put}
use distribuidos_tp_money_la.Collections.Dict.Laws.{
  get-eq-none_of_Absent, IsDict, Absent, get-put, put-IsDict,
}
use distribuidos_tp_money_la.Collections.PySet.{mem}
use distribuidos_tp_money_la.UseCases.Graphs.{capped_add, capped_update}
use distribuidos_tp_money_la.UseCases.HighDegree.Buckets.{Sums, Sums-capped_add, Sums-merge}
use distribuidos_tp_money_la.UseCases.HighDegree.{update_all, high}

-- the lists of a node, in order
unfoldable pub of_node : ℕ → List (ℕ × List ℕ) → List (List ℕ)
of_node n [] = []
of_node n ((node, l) ∷ es) = let rest = of_node n es in if node == n then l ∷ rest else rest

unfoldable pub join : List (List ℕ) → List ℕ
join [] = []
join (l ∷ ls) = l ++ join ls

-- every neighbour that was given for a node
abbrev pub neighbors : ℕ → List (ℕ × List ℕ) → List ℕ
neighbors n es = join (of_node n es)

unfoldable pub merge_all : List ℕ → List (List ℕ) → List ℕ
merge_all bucket [] = bucket
merge_all bucket (l ∷ ls) = merge_all (capped_add bucket l) ls

pub of_node-append :
    (n : ℕ) (es fs : List (ℕ × List ℕ)) → of_node n (es ++ fs) ≡ of_node n es ++ of_node n fs
unfolding of_node
of_node-append n [] fs = refl
of_node-append n ((k, l) ∷ es) fs = ground (arith, of_node-append n es fs)

pub join-append : (ls ms : List (List ℕ)) → join (ls ++ ms) ≡ join ls ++ join ms
unfolding join
join-append [] ms = refl
join-append (l ∷ ls) ms =
    ap (λ t. l ++ t) (join-append ls ms) ∙ sym (append_assoc l (join ls) (join ms))

get_default-put_self :
    (n k : ℕ) (v : List ℕ) (store : Dict ℕ (List ℕ))
    → get_default n [] (put k v store) ≡ (if k == n then v else get_default n [] store)
unfolding get_default
get_default-put_self n k v store = rw (get-put k n v store) (ground arith)

pub get_default-update_all :
    (n : ℕ) (es : List (ℕ × List ℕ)) (store : Dict ℕ (List ℕ))
    → get_default n [] (update_all store es) ≡ merge_all (get_default n [] store) (of_node n es)
unfolding update_all capped_update of_node merge_all
get_default-update_all n [] store = refl
get_default-update_all n ((k, l) ∷ es) store =
    get_default-update_all n es (put k (capped_add (get_default k [] store) l) store)
    ∙ (ap (λ b. merge_all b (of_node n es)) (get_default-put_self n k _ store)
        ∙ elim (Bool-cases (k == n)) [
          | inl same ↦
              let e : k ≡ n = ground (arith, same) in
              rw same (ap (λ j. merge_all (capped_add (get_default j [] store) l) (of_node n es)) e)
          | inr other ↦ rw other refl
        ])

pub update_all-IsDict :
    (es : List (ℕ × List ℕ)) (store : Dict ℕ (List ℕ)) → IsDict store → IsDict (update_all store es)
unfolding update_all capped_update
update_all-IsDict [] store h = h
update_all-IsDict ((k, l) ∷ es) store h =
    update_all-IsDict es _ (put-IsDict k (capped_add (get_default k [] store) l) store h)

pub Sums-merge_all :
    (bucket xs : List ℕ) (ls : List (List ℕ))
    → Sums bucket xs
    → Sums (merge_all bucket ls) (xs ++ join ls)
unfolding merge_all join
Sums-merge_all bucket xs [] s = rw append-nil s
Sums-merge_all bucket xs (l ∷ ls) s =
    subst (Sums (merge_all (capped_add bucket l) ls)) (append_assoc xs l (join ls))
      (Sums-merge_all (capped_add bucket l) (xs ++ l) ls (Sums-capped_add bucket xs l s))

-- Parts that stand for `xs`, one after the other.
abbrev pub Parts : List (List ℕ) → List ℕ → Type 0
Parts [] xs = xs ≡ []
Parts (p ∷ ps) xs = (ys : List ℕ) × (zs : List ℕ) × Sums p ys × Parts ps zs × (xs ≡ ys ++ zs)

pub Parts-append :
    (ps qs : List (List ℕ)) (xs ys : List ℕ)
    → Parts ps xs
    → Parts qs ys
    → Parts (ps ++ qs) (xs ++ ys)
Parts-append [] qs xs ys h g = rw h g
Parts-append (p ∷ ps) qs xs ys (us, vs, s, rest, e) g =
    (us, vs ++ ys, s, Parts-append ps qs vs ys rest g, rw e (append_assoc us vs ys))

-- Reading the parts back gives a bucket for all of `xs`.
pub Sums-Parts :
    (bucket ws : List ℕ) (ps : List (List ℕ)) (xs : List ℕ)
    → Sums bucket ws
    → Parts ps xs
    → Sums (merge_all bucket ps) (ws ++ xs)
unfolding merge_all
Sums-Parts bucket ws [] xs s h = rw (h, append-nil) s
Sums-Parts bucket ws (p ∷ ps) xs s (ys, zs, part, rest, e) =
    subst (Sums (merge_all (capped_add bucket p) ps))
      (append_assoc ws ys zs ∙ ap (λ t. ws ++ t) (sym e))
      (Sums-Parts (capped_add bucket p) (ws ++ ys) ps zs (Sums-merge bucket ws p ys s part) rest)

-- The comprehension keeps the nodes with a full bucket.
pub mem-high :
    (n : ℕ) (store : Dict ℕ (List ℕ))
    → IsDict store
    → mem n (high store) ≡ leb 5 (length (get_default n [] store))
unfolding mem high get_default get
mem-high n [] h = ground arith
mem-high n ((k, b) ∷ store) (new, h) = elim (Bool-cases (k == n)) [
  | inl same ↦
      let e : k ≡ n = ground (arith, same) in
      let gone : get n store ≡ none =
        get-eq-none_of_Absent n store (subst (λ j. Absent j store) e new) in
      let rest : mem n (high store) ≡ false =
        mem-high n store h ∙ ap (λ o. leb 5 (length (get_or o []))) gone in
      ground (arith, same, rest)
  | inr other ↦ ground (arith, other, mem-high n store h)
]
