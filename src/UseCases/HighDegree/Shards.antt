-- ===== src/UseCases/HighDegree/Shards.antt =====
-- The spilled lines in the order in which the shards are read (multi_shard_spill.py).
use distribuidos_tp_money_la.Prelude.{
  ℕ, ◌≡◌, ◌∙◌, refl, ap, sym, subst, true, false, List, [], ◌∷◌, ◌++◌, map, if◌then◌else◌, ◌==◌,
  nat_eq, arith, Bool-cases, inl, inr, append-nil,
}
use distribuidos_tp_money_la.Collections.PySet.{mem}
use distribuidos_tp_money_la.UseCases.Filters.{filter}
use distribuidos_tp_money_la.UseCases.HighDegree.{sharding_hash, shards_of, read_shard, read_shards}
use distribuidos_tp_money_la.UseCases.HighDegree.Spilled.{of_node, of_node-append}
use distribuidos_tp_money_la.UseCases.HighDegree.Increasing.{
  Increasing, Increasing-tail, Above-mem, insert_sorted-mem, insert_sorted-Increasing,
}

shards_of-Increasing :
    (hash : ℕ → ℕ) (lines : List (ℕ × (List ℕ × List ℕ))) → Increasing (shards_of hash lines)
unfolding shards_of
shards_of-Increasing hash [] = tt
shards_of-Increasing hash (l ∷ lines) =
    insert_sorted-Increasing (sharding_hash hash l.0) (shards_of hash lines)
      (shards_of-Increasing hash lines)

module _ (hash : ℕ → ℕ) (pick : List ℕ × List ℕ → List ℕ) (n : ℕ) where
  abbrev set_of : ℕ × (List ℕ × List ℕ) → ℕ × List ℕ
  set_of l = (l.0, pick l.1)

  map-append :
      (xs ys : List (ℕ × (List ℕ × List ℕ)))
      → map set_of (xs ++ ys) ≡ map set_of xs ++ map set_of ys
  map-append [] ys = refl
  map-append (x ∷ xs) ys = ap (◌∷◌ (set_of x)) (map-append xs ys)

  -- One shard's file holds all the lines of its nodes, and no others.
  of_node-read_shard :
      (s : ℕ) (lines : List (ℕ × (List ℕ × List ℕ)))
      → of_node n (map set_of (read_shard hash s lines))
        ≡ (if sharding_hash hash n == s then of_node n (map set_of lines) else [])
  unfolding of_node read_shard filter
  of_node-read_shard s [] = ground arith
  of_node-read_shard s (l ∷ lines) = elim (Bool-cases (l.0 == n)) [
    | inl same ↦
        let e : (sharding_hash hash l.0 == s) ≡ (sharding_hash hash n == s) =
          ap (λ k. sharding_hash hash k == s) (ground (arith, same)) in
        ground (arith, same, e, of_node-read_shard s lines)
    | inr other ↦ ground (arith, other, of_node-read_shard s lines)
  ]

  of_node-read_shards :
      (shards : List ℕ) (lines : List (ℕ × (List ℕ × List ℕ)))
      → Increasing shards
      → of_node n (map set_of (read_shards hash shards lines))
        ≡ (if mem (sharding_hash hash n) shards then of_node n (map set_of lines) else [])
  unfolding of_node read_shards mem
  of_node-read_shards [] lines h = ground arith
  of_node-read_shards (s ∷ shards) lines h =
      ap (of_node n) (map-append (read_shard hash s lines) (read_shards hash shards lines))
      ∙ (of_node-append n (map set_of (read_shard hash s lines))
            (map set_of (read_shards hash shards lines))
          ∙ elim (Bool-cases (s == sharding_hash hash n)) [
            | inl same ↦
                let e : s ≡ sharding_hash hash n = ground (arith, same) in
                let here : (sharding_hash hash n == s) ≡ true = ground (arith, same) in
                let later : mem (sharding_hash hash n) shards ≡ false =
                  subst (λ k. mem k shards ≡ false) e (Above-mem s shards h) in
                rw
                  (
                    of_node-read_shard s lines,
                    of_node-read_shards shards lines (Increasing-tail s shards h),
                  )
                  (rw (same, here, later) (append-nil (of_node n (map set_of lines))))
            | inr other ↦
                let there : (sharding_hash hash n == s) ≡ false = ground (arith, other) in
                rw
                  (
                    of_node-read_shard s lines,
                    of_node-read_shards shards lines (Increasing-tail s shards h),
                  )
                  (rw (other, there) refl)
          ])

  missing_shard :
      (lines : List (ℕ × (List ℕ × List ℕ)))
      → mem (sharding_hash hash n) (shards_of hash lines) ≡ false
      → of_node n (map set_of lines) ≡ []
  unfolding of_node shards_of
  missing_shard [] h = refl
  missing_shard (l ∷ lines) h = elim (Bool-cases (l.0 == n)) [
    | inl same ↦
        let e : sharding_hash hash l.0 ≡ sharding_hash hash n =
          ap (sharding_hash hash) (ground (arith, same)) in
        absurd (
          ground (
            arith,
            h,
            e,
            insert_sorted-mem (sharding_hash hash n) (sharding_hash hash l.0)
                (shards_of hash lines),
          ))
    | inr other ↦ rw other (
        missing_shard lines (
          ground (
            arith,
            h,
            insert_sorted-mem (sharding_hash hash n) (sharding_hash hash l.0)
                (shards_of hash lines),
          )))
  ]

  pub of_node-shards_of :
      (lines : List (ℕ × (List ℕ × List ℕ)))
      → of_node n (map set_of (read_shards hash (shards_of hash lines) lines))
        ≡ of_node n (map set_of lines)
  of_node-shards_of lines =
      of_node-read_shards (shards_of hash lines) lines (shards_of-Increasing hash lines)
      ∙ elim (Bool-cases (mem (sharding_hash hash n) (shards_of hash lines))) [
        | inl there ↦ rw there refl
        | inr gone ↦ rw gone (sym (missing_shard lines gone))
      ]
