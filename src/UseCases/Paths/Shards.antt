-- ===== src/UseCases/Paths/Shards.antt =====
-- Totals over the messages of `get_result`, shard by shard (uc4_count_paths.py,
-- uc4_aggregate_paths.py).
use distribuidos_tp_money_la.Prelude.{
  ℕ, ◌+◌, ◌%◌, ◌≡◌, refl, ap, subst, Bool, true, false, List, [], ◌∷◌, ◌++◌, leb, if◌then◌else◌,
  ◌==◌, nat_eq, arith, Bool-cases, inl, inr,
}
use distribuidos_tp_money_la.Collections.Dict.{Dict, get, get_default, put}
use distribuidos_tp_money_la.Collections.PySet.{mem}
use distribuidos_tp_money_la.UseCases.Filters.{filter}
use distribuidos_tp_money_la.UseCases.HighDegree.Increasing.{
  Increasing, Increasing-tail, Above-mem, insert_sorted-mem, insert_sorted-Increasing,
}
use distribuidos_tp_money_la.UseCases.Paths.{
  Ids, Counts, add_count, add_counts, shards_of, read_shard, qualifying_shards, by_affinity,
  count_shards,
}
use distribuidos_tp_money_la.UseCases.Paths.Totals.{
  total, total-add_count, total-add_counts, total-qualifying, add_counts-Once, Alone,
}

-- a path's count in all the messages
unfoldable pub total_of : ℕ → List Counts → ℕ
total_of p [] = 0
total_of p (m ∷ ms) = total p m + total_of p ms

-- and in the messages of the affinities that one receiver gets
unfoldable pub total_sent : (ℕ → Bool) → ℕ → Dict ℕ Counts → ℕ
total_sent mine p [] = 0
total_sent mine p ((affinity, m) ∷ ms) =
    (if mine affinity then total p m else 0) + total_sent mine p ms

module _ (mine : ℕ → Bool) (p : ℕ) where
  pub total_sent-append :
      (xs ys : Dict ℕ Counts)
      → total_sent mine p (xs ++ ys) ≡ total_sent mine p xs + total_sent mine p ys
  unfolding total_sent
  total_sent-append [] ys = omega arith
  total_sent-append ((a, m) ∷ xs) ys = omega (arith, total_sent-append xs ys)

  total_sent-put :
      (k : ℕ) (v : Counts) (d : Dict ℕ Counts)
      → total_sent mine p (put k v d) + (if mine k then total p (get_default k [] d) else 0)
        ≡ total_sent mine p d + (if mine k then total p v else 0)
  unfolding total_sent total put get_default get
  total_sent-put k v [] = ground arith
  total_sent-put k v ((j, m) ∷ d) = elim (Bool-cases (j == k)) [
    | inl same ↦
        let e : mine j ≡ mine k = ap mine (ground (arith, same)) in rw same (rw e (omega arith))
    | inr other ↦ rw other (omega (arith, total_sent-put k v d))
  ]

  total_sent-put_more :
      (ids : Ids) (alone : Alone ids p) (k path count : ℕ) (d : Dict ℕ Counts)
      → total_sent mine p (put k (add_count ids path count (get_default k [] d)) d)
        ≡ total_sent mine p d + (if mine k then (if path == p then count else 0) else 0)
  total_sent-put_more ids alone k path count d = ground (
    arith,
    total_sent-put k (add_count ids path count (get_default k [] d)) d,
    total-add_count ids p alone path count (get_default k [] d),
  )

  -- A path's counts go where its hash sends them.
  total_sent-by_affinity :
      (ids : Ids) (alone : Alone ids p) (hash : ℕ → ℕ) (paths : Counts) (d : Dict ℕ Counts)
      → total_sent mine p (by_affinity ids hash d paths)
        ≡ total_sent mine p d + (if mine (hash (ids.path_key p) % 10) then total p paths else 0)
  unfolding by_affinity total
  total_sent-by_affinity ids alone hash [] d = ground arith
  total_sent-by_affinity ids alone hash ((path, count) ∷ paths) d =
      let more = total_sent-put_more ids alone (hash (ids.path_key path) % 10) path count d in
      let rest = total_sent-by_affinity ids alone hash paths (
        put (hash (ids.path_key path) % 10)
          (add_count ids path count (get_default (hash (ids.path_key path) % 10) [] d)) d) in
      elim (Bool-cases (path == p)) [
        | inl same ↦
            let e : mine (hash (ids.path_key path) % 10) ≡ mine (hash (ids.path_key p) % 10) =
              ap (λ k. mine (hash (ids.path_key k) % 10)) (ground (arith, same)) in
            ground (arith, same, e, more, rest)
        | inr other ↦ ground (arith, other, more, rest)
      ]

module _ (ids : Ids) (shard_of : ℕ → ℕ) (p : ℕ) (alone : Alone ids p) where
  total-read_shard :
      (s : ℕ) (lines : List (ℕ × ℕ))
      → total p (read_shard shard_of s lines) ≡ (if shard_of p == s then total p lines else 0)
  unfolding total read_shard filter
  total-read_shard s [] = ground arith
  total-read_shard s ((path, count) ∷ lines) = elim (Bool-cases (path == p)) [
    | inl same ↦
        let e : (shard_of path == s) ≡ (shard_of p == s) =
          ap (λ k. shard_of k == s) (ground (arith, same)) in
        ground (arith, same, e, total-read_shard s lines)
    | inr other ↦ ground (arith, other, total-read_shard s lines)
  ]

  missing_shard :
      (lines : List (ℕ × ℕ))
      → mem (shard_of p) (shards_of shard_of lines) ≡ false
      → total p lines ≡ 0
  unfolding total shards_of
  missing_shard [] h = refl
  missing_shard ((path, count) ∷ lines) h =
      let m = insert_sorted-mem (shard_of p) (shard_of path) (shards_of shard_of lines) in
      elim (Bool-cases (path == p)) [
        | inl same ↦
            let e : shard_of path ≡ shard_of p = ap shard_of (ground (arith, same)) in
            absurd (ground (arith, h, e, m))
        | inr other ↦ rw other (missing_shard lines (ground (arith, h, m)))
      ]

  shards_of-Increasing : (lines : List (ℕ × ℕ)) → Increasing (shards_of shard_of lines)
  unfolding shards_of
  shards_of-Increasing [] = tt
  shards_of-Increasing (l ∷ lines) =
      insert_sorted-Increasing (shard_of l.0) (shards_of shard_of lines)
        (shards_of-Increasing lines)

  later_shards :
      (s : ℕ) (shards : List ℕ)
      → Increasing (s ∷ shards)
      → (shard_of p == s) ≡ true
      → mem (shard_of p) shards ≡ false
  later_shards s shards h here =
      subst (λ k. mem k shards ≡ false) (ground (arith, here)) (Above-mem s shards h)

  total-read :
      (s : ℕ) (lines : List (ℕ × ℕ))
      → total p (add_counts ids [] (read_shard shard_of s lines))
        ≡ (if shard_of p == s then total p lines else 0)
  unfolding total
  total-read s lines = omega (
    arith,
    total-add_counts ids p alone (read_shard shard_of s lines) [],
    total-read_shard s lines,
  )

  total-qualifying_shards :
      (lines : List (ℕ × ℕ)) (shards : List ℕ)
      → Increasing shards
      → total_of p (qualifying_shards ids shard_of lines shards) ≡ (
          if mem (shard_of p) shards
          then (if leb 5 (total p lines) then total p lines else 0)
          else 0)
  unfolding total_of qualifying_shards mem
  total-qualifying_shards lines [] h = ground arith
  total-qualifying_shards lines (s ∷ shards) h = ground (
    arith,
    total-qualifying p (add_counts ids [] (read_shard shard_of s lines))
        (add_counts-Once ids p alone (read_shard shard_of s lines) [] tt),
    total-read s lines,
    total-qualifying_shards lines shards (Increasing-tail s shards h),
    later_shards s shards h,
  )

  total-count_shards :
      (mine : ℕ → Bool) (hash : ℕ → ℕ) (lines : List (ℕ × ℕ)) (shards : List ℕ)
      → Increasing shards
      → total_sent mine p (count_shards ids hash shard_of lines shards) ≡ (
          if mem (shard_of p) shards
          then (if mine (hash (ids.path_key p) % 10) then total p lines else 0)
          else 0)
  unfolding total_sent count_shards mem
  total-count_shards mine hash lines [] h = ground arith
  total-count_shards mine hash lines (s ∷ shards) h =
      let read = add_counts ids [] (read_shard shard_of s lines) in
      ground (
        arith,
        total_sent-append mine p (by_affinity ids hash [] read)
            (count_shards ids hash shard_of lines shards),
        total_sent-by_affinity mine p ids alone hash read [],
        total-read s lines,
        total-count_shards mine hash lines shards (Increasing-tail s shards h),
        later_shards s shards h,
      )

  -- All the shards together give every line once.
  pub total_of-qualifying_shards :
      (lines : List (ℕ × ℕ))
      → total_of p (qualifying_shards ids shard_of lines (shards_of shard_of lines))
        ≡ (if leb 5 (total p lines) then total p lines else 0)
  total_of-qualifying_shards lines = ground (
    arith,
    total-qualifying_shards lines (shards_of shard_of lines) (shards_of-Increasing lines),
    missing_shard lines,
  )

  pub total_sent-count_shards :
      (mine : ℕ → Bool) (hash : ℕ → ℕ) (lines : List (ℕ × ℕ))
      → total_sent mine p (count_shards ids hash shard_of lines (shards_of shard_of lines))
        ≡ (if mine (hash (ids.path_key p) % 10) then total p lines else 0)
  total_sent-count_shards mine hash lines = ground (
    arith,
    total-count_shards mine hash lines (shards_of shard_of lines) (shards_of-Increasing lines),
    missing_shard lines,
  )
