-- ===== src/UseCases/Paths/Spills.antt =====
-- What the spill and the memory hold of a path, after messages and checkpoints (uc4_count_paths.py,
-- uc4_aggregate_paths.py).
use distribuidos_tp_money_la.Prelude.{
  ℕ, ◌+◌, ◌≡◌, ◌∙◌, refl, not, ◌&&◌, List, [], ◌∷◌, leb, length, if◌then◌else◌, ◌==◌, nat_eq, arith,
  Bool-cases, inl, inr,
}
use distribuidos_tp_money_la.UseCases.Graphs.{Graph}
use distribuidos_tp_money_la.UseCases.Paths.{
  Ids, Counts, PathState, add_counts, spill_to_disk, spill_if_large, aggregate, pairs_from,
  count_hub, count_hubs, count_paths,
}
use distribuidos_tp_money_la.UseCases.Paths.Totals.{total, Alone, total-append, total-add_counts}

-- a message, or a checkpoint (`snapshot_state` spills)
pub data Event (M : Type 0) : Type 0 where
  message : M → Event M
  checkpoint : Event M

unfoldable pub run :
    {M : Type 0} → (M → PathState → PathState) → List (Event M) → PathState → PathState
unfolding spill_to_disk
run handle [] s = s
run handle (message m ∷ events) s = run handle events (handle m s)
run handle (checkpoint ∷ events) s = run handle events (spill_to_disk s)

-- a measure of the messages, summed up
unfoldable pub sum_of : {M : Type 0} → (M → ℕ) → List (Event M) → ℕ
sum_of measure [] = 0
sum_of measure (message m ∷ events) = measure m + sum_of measure events
sum_of measure (checkpoint ∷ events) = sum_of measure events

-- a path's count, on disk and in memory
unfoldable pub held : ℕ → PathState → ℕ
held p s = total p s.lines + total p s.paths

pub held-spill_to_disk : (p : ℕ) (s : PathState) → held p (spill_to_disk s) ≡ held p s
unfolding held spill_to_disk total
held-spill_to_disk p s = omega (arith, total-append p s.lines s.paths)

held-spill_if_large :
    (p threshold : ℕ) (s : PathState) → held p (spill_if_large threshold s) ≡ held p s
unfolding spill_if_large
held-spill_if_large p threshold s = elim (Bool-cases (leb threshold (length s.paths))) [
  | inl large ↦ rw large (held-spill_to_disk p s)
  | inr small ↦ rw small refl
]

held-added :
    (ids : Ids) (p : ℕ) (alone : Alone ids p) (items : List (ℕ × ℕ)) (s : PathState)
    → held p (record s { paths = add_counts ids s.paths items }) ≡ held p s + total p items
unfolding held
held-added ids p alone items s = omega (arith, total-add_counts ids p alone items s.paths)

pub held-aggregate :
    (ids : Ids) (p : ℕ) (alone : Alone ids p) (threshold : ℕ) (counts : Counts) (s : PathState)
    → held p (aggregate ids threshold counts s) ≡ held p s + total p counts
unfolding aggregate
held-aggregate ids p alone threshold counts s =
    held-spill_if_large p threshold (record s { paths = add_counts ids s.paths counts })
    ∙ held-added ids p alone counts s

module _ (ids : Ids) (p : ℕ) where
  -- The successors `c` other than `a` with Path(a, c) the path.
  unfoldable pub ways_from : ℕ → List ℕ → ℕ
  ways_from a [] = 0
  ways_from a (c ∷ succs) =
      (if not (ids.node_key a == ids.node_key c) && ids.path_of a c == p then 1 else 0)
      + ways_from a succs

  -- over the predecessors of a hub
  unfoldable pub ways_through : List ℕ → List ℕ → ℕ
  ways_through [] succs = 0
  ways_through (a ∷ preds) succs = ways_from a succs + ways_through preds succs

  -- over all hubs
  unfoldable pub ways : Graph → ℕ
  ways [] = 0
  ways ((hub, (preds, succs)) ∷ nodes) = ways_through preds succs + ways nodes

module _ (ids : Ids) (p : ℕ) (alone : Alone ids p) where
  total-pairs_from :
      (a : ℕ) (succs : List ℕ) → total p (pairs_from ids a succs) ≡ ways_from ids p a succs
  unfolding total pairs_from ways_from
  total-pairs_from a [] = refl
  total-pairs_from a (c ∷ succs) = ground (arith, total-pairs_from a succs)

  held-count_hub :
      (threshold : ℕ) (preds succs : List ℕ) (s : PathState)
      → held p (count_hub ids threshold preds succs s) ≡ held p s + ways_through ids p preds succs
  unfolding count_hub ways_through
  held-count_hub threshold [] succs s = omega arith
  held-count_hub threshold (a ∷ preds) succs s =
      let s1 = record s { paths = add_counts ids s.paths (pairs_from ids a succs) } in
      omega (
        arith,
        held-count_hub threshold preds succs (spill_if_large threshold s1),
        held-spill_if_large p threshold s1,
        held-added ids p alone (pairs_from ids a succs) s,
        total-pairs_from a succs,
      )

  held-count_hubs :
      (threshold : ℕ) (nodes : Graph) (s : PathState)
      → held p (count_hubs ids threshold nodes s) ≡ held p s + ways ids p nodes
  unfolding count_hubs ways
  held-count_hubs threshold [] s = omega arith
  held-count_hubs threshold ((hub, (preds, succs)) ∷ nodes) s = omega (
    arith,
    held-count_hubs threshold nodes (count_hub ids threshold preds succs s),
    held-count_hub threshold preds succs s,
  )

  pub held-count_paths :
      (threshold : ℕ) (nodes : Graph) (s : PathState)
      → held p (count_paths ids threshold nodes s) ≡ held p s + ways ids p nodes
  unfolding count_paths
  held-count_paths threshold nodes s =
      held-spill_if_large p threshold (count_hubs ids threshold nodes s)
      ∙ held-count_hubs threshold nodes s

-- Checkpoints and spills change nothing of what is held.
pub held-run :
    {M : Type 0} (p : ℕ) (handle : M → PathState → PathState) (measure : M → ℕ)
    → ((m : M) (s : PathState) → held p (handle m s) ≡ held p s + measure m)
    → (events : List (Event M)) (s : PathState)
    → held p (run handle events s) ≡ held p s + sum_of measure events
unfolding run sum_of
held-run p handle measure law [] s = omega arith
held-run p handle measure law (message m ∷ events) s =
    omega (arith, held-run p handle measure law events (handle m s), law m s)
held-run p handle measure law (checkpoint ∷ events) s =
    omega (arith, held-run p handle measure law events (spill_to_disk s), held-spill_to_disk p s)
