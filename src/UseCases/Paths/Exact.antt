-- ===== src/UseCases/Paths/Exact.antt =====
-- Paths counted by several counters and collected by an aggregator (uc4_count_paths.py,
-- uc4_aggregate_paths.py).
use distribuidos_tp_money_la.Prelude.{
  ℕ, ◌+◌, ◌%◌, ◌≡◌, ◌∙◌, refl, sym, ap, Bool, true, List, [], ◌∷◌, ◌++◌, leb, if◌then◌else◌, arith,
  if_true,
}
use mathlib.Core.List.{Perm, foldr}
use mathlib.Core.List.Perm
use distribuidos_tp_money_la.Collections.Dict.{Dict}
use distribuidos_tp_money_la.UseCases.Graphs.{Graph}
use distribuidos_tp_money_la.UseCases.Paths.{
  Ids, Counts, PathState, init, spill_to_disk, aggregate, count_paths, aggregate_result,
  count_result,
}
use distribuidos_tp_money_la.UseCases.Paths.Totals.{total, Alone}
use distribuidos_tp_money_la.UseCases.Paths.Shards.{
  total_of, total_sent, total_of-qualifying_shards, total_sent-count_shards,
}
use distribuidos_tp_money_la.UseCases.Paths.Spills.{
  Event, message, checkpoint, run, sum_of, held, held-spill_to_disk, held-aggregate, ways,
  held-count_paths, held-run,
}

-- in memory nothing is left after the last spill
spilled_total : (p : ℕ) (s : PathState) → total p (spill_to_disk s).lines ≡ held p s
spilled_total p s = omega (arith, held-spill_to_disk p s, all_on_disk)
  where
    all_on_disk : held p (spill_to_disk s) ≡ total p (spill_to_disk s).lines
    all_on_disk = unfold held spill_to_disk total in omega arith

nothing_held : (p : ℕ) → held p init ≡ 0
unfolding held total
nothing_held p = omega arith

counted :
    (ids : Ids) (hash shard_of : ℕ → ℕ) (mine : ℕ → Bool) (threshold p : ℕ)
    → Alone ids p
    → (events : List (Event Graph))
    → total_sent mine p
        (count_result ids hash shard_of (run (count_paths ids threshold) events init))
      ≡ (if mine (hash (ids.path_key p) % 10) then sum_of (ways ids p) events else 0)
unfolding count_result
counted ids hash shard_of mine threshold p alone events =
    let s = run (count_paths ids threshold) events init in
    total_sent-count_shards ids shard_of p alone mine hash (spill_to_disk s).lines
    ∙ ap (λ n. if mine (hash (ids.path_key p) % 10) then n else 0)
        (omega (
          arith,
          spilled_total p s,
          held-run p (count_paths ids threshold) (ways ids p)
              (held-count_paths ids p alone threshold) events init,
          nothing_held p,
        ))

collected :
    (ids : Ids) (shard_of : ℕ → ℕ) (threshold p : ℕ)
    → Alone ids p
    → (events : List (Event Counts))
    → total_of p (aggregate_result ids shard_of (run (aggregate ids threshold) events init))
      ≡ (if leb 5 (sum_of (total p) events) then sum_of (total p) events else 0)
unfolding aggregate_result
collected ids shard_of threshold p alone events =
    let s = run (aggregate ids threshold) events init in
    let e : total p (spill_to_disk s).lines ≡ sum_of (total p) events = omega (
      arith,
      spilled_total p s,
      held-run p (aggregate ids threshold) (total p) (held-aggregate ids p alone threshold) events
          init,
      nothing_held p,
    ) in
    total_of-qualifying_shards ids shard_of p alone (spill_to_disk s).lines
    ∙ ap (λ n. if leb 5 n then n else 0) e

-- the messages of the affinities that the aggregator gets
unfoldable pub routed : (ℕ → Bool) → Dict ℕ Counts → List Counts
routed mine [] = []
routed mine ((affinity, m) ∷ ms) =
    let rest = routed mine ms in if mine affinity then m ∷ rest else rest

unfoldable pub messages_of : {M : Type 0} → List (Event M) → List M
messages_of [] = []
messages_of (message m ∷ events) = m ∷ messages_of events
messages_of (checkpoint ∷ events) = messages_of events

total_of-routed :
    (mine : ℕ → Bool) (p : ℕ) (d : Dict ℕ Counts) → total_of p (routed mine d) ≡ total_sent mine p d
unfolding total_of routed total_sent
total_of-routed mine p [] = refl
total_of-routed mine p ((a, m) ∷ ms) = ground (arith, total_of-routed mine p ms)

total_of-append :
    (p : ℕ) (xs ys : List Counts) → total_of p (xs ++ ys) ≡ total_of p xs + total_of p ys
unfolding total_of
total_of-append p [] ys = omega arith
total_of-append p (m ∷ xs) ys = omega (arith, total_of-append p xs ys)

total_of-messages_of :
    (p : ℕ) (events : List (Event Counts))
    → sum_of (total p) events ≡ total_of p (messages_of events)
unfolding sum_of total_of messages_of
total_of-messages_of p [] = refl
total_of-messages_of p (message m ∷ events) = omega (arith, total_of-messages_of p events)
total_of-messages_of p (checkpoint ∷ events) = total_of-messages_of p events

total_of-foldr : (p : ℕ) (l : List Counts) → total_of p l ≡ foldr (λ m n. total p m + n) 0 l
unfolding total_of
total_of-foldr p [] = refl
total_of-foldr p (m ∷ l) = ap (λ n. total p m + n) (total_of-foldr p l)

-- The order of the messages does not matter.
total_of-Perm : (p : ℕ) {xs ys : List Counts} → Perm xs ys → total_of p xs ≡ total_of p ys
total_of-Perm p {xs} {ys} q =
    total_of-foldr p xs
    ∙ (Perm.foldr-eq (hlevel) (λ m n. total p m + n) (λ a b n. omega arith) q 0
        ∙ sym (total_of-foldr p ys))

-- the ways of a path through the hubs of all counters
unfoldable pub all_ways : Ids → ℕ → List (List (Event Graph)) → ℕ
all_ways ids p [] = 0
all_ways ids p (events ∷ counters) = sum_of (ways ids p) events + all_ways ids p counters

module _ (ids : Ids) (hash count_shard aggregate_shard : ℕ → ℕ) (mine : ℕ → Bool)
    (threshold : ℕ) where
  -- what the counters send to the aggregator, each after its own messages and checkpoints
  unfoldable pub sent_by : List (List (Event Graph)) → List Counts
  unfolding routed
  sent_by [] = []
  sent_by (events ∷ counters) =
      routed mine (count_result ids hash count_shard (run (count_paths ids threshold) events init))
      ++ sent_by counters

  total_of-sent_by :
      (p : ℕ)
      → Alone ids p
      → (counters : List (List (Event Graph))) → mine (hash (ids.path_key p) % 10) ≡ true
      → total_of p (sent_by counters) ≡ all_ways ids p counters
  unfolding sent_by all_ways total_of
  total_of-sent_by p alone [] own = refl
  total_of-sent_by p alone (events ∷ counters) own =
      let result =
        count_result ids hash count_shard (run (count_paths ids threshold) events init) in
      omega (
        arith,
        total_of-append p (routed mine result) (sent_by counters),
        total_of-routed mine p result,
        counted ids hash count_shard mine threshold p alone events
            ∙ if_true (mine (hash (ids.path_key p) % 10)) (sum_of (ways ids p) events) 0 own,
        total_of-sent_by p alone counters own,
      )

  -- Wherever the counters and the aggregator spilled or took a checkpoint, and in whatever order
  -- the messages came: an aggregator that got what the counters sent for its affinities, each
  -- message once, answers a path whose hash comes to it, and whose key is no other path's, with
  -- its number of ways through the hubs of all counters, where there are five or more, and leaves
  -- it out otherwise.
  pub aggregate_result-ways :
      (counters : List (List (Event Graph))) (events : List (Event Counts)) (p : ℕ)
      → Alone ids p
      → Perm (messages_of events) (sent_by counters)
      → mine (hash (ids.path_key p) % 10) ≡ true
      → total_of p
          (aggregate_result ids aggregate_shard (run (aggregate ids threshold) events init))
        ≡ (if leb 5 (all_ways ids p counters) then all_ways ids p counters else 0)
  aggregate_result-ways counters events p alone got own =
      collected ids aggregate_shard threshold p alone events
      ∙ ap (λ n. if leb 5 n then n else 0)
          (total_of-messages_of p events
            ∙ (total_of-Perm p got ∙ total_of-sent_by p alone counters own))
