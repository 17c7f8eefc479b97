-- ===== src/Supervisor/Registry/Overdue.antt =====
-- Which nodes a sweep of the registry (registry.py) marks dead, by the order of the times.
use distribuidos_tp_money_la.Prelude.{
  ℕ, ◌+◌, ◌<◌, ◌≡◌, ◌∙◌, refl, ap, true, false, none, some, Option, arith, ◌⊎◌, Bool-cases, inl,
  inr, nat_eq,
}
use mathlib.Core.Option
use distribuidos_tp_money_la.Collections.Dict.{get, get_or}
use distribuidos_tp_money_la.Supervisor.Registry.{
  Status, unknown, alive, dead, NodeState, NodeRegistry, is_lost, is_never_seen, check_timeouts,
}
use distribuidos_tp_money_la.Supervisor.Registry.Liveness.{swept, check_timeouts-swept}

-- The node is alive and its last heartbeat is more than the timeout ago; or it is unknown, it
-- never sent a heartbeat, and the first sweep is more than the timeout ago.
abbrev pub Overdue : ℕ → ℕ → ℕ → NodeState → Type 0
Overdue timeout started_at now node =
    ((node.status ≡ alive) × ((at : ℕ) × (node.last_heartbeat ≡ some at) × (at + timeout < now)))
    ⊎ ((node.status ≡ unknown) × ((node.last_heartbeat ≡ none) × (started_at + timeout < now)))

module _ (timeout started_at now : ℕ) where
  swept-Overdue :
      (node : NodeState)
      → Overdue timeout started_at now node
      → swept timeout started_at now node ≡ record node { status = dead }
  swept-Overdue node (inl (up, (at, heard, late))) =
      unfold is_lost is_never_seen in rw (up, heard) (ground (arith, late))
  swept-Overdue node (inr (new, (never, late))) =
      unfold is_lost is_never_seen in rw (new, never) (ground (arith, late))

  lost-Overdue :
      (node : NodeState) (s : Status) (h : Option ℕ)
      → node.status ≡ s
      → node.last_heartbeat ≡ h
      → is_lost timeout now node ≡ true
      → Overdue timeout started_at now node
  unfolding is_lost
  lost-Overdue node alive (some at) es eh b = inl (es, (at, eh, ground (arith, b, es, eh)))
  lost-Overdue node alive none es eh b = absurd (ground (arith, b, es, eh))
  lost-Overdue node unknown h es eh b = absurd (ground (arith, b, es))
  lost-Overdue node dead h es eh b = absurd (ground (arith, b, es))

  never_seen-Overdue :
      (node : NodeState) (s : Status) (h : Option ℕ)
      → node.status ≡ s
      → node.last_heartbeat ≡ h
      → is_never_seen timeout started_at now node ≡ true
      → Overdue timeout started_at now node
  unfolding is_never_seen
  never_seen-Overdue node unknown none es eh b = inr (es, (eh, ground (arith, b, es, eh)))
  never_seen-Overdue node unknown (some at) es eh b = absurd (ground (arith, b, es, eh))
  never_seen-Overdue node alive h es eh b = absurd (ground (arith, b, es))
  never_seen-Overdue node dead h es eh b = absurd (ground (arith, b, es))

  kept-timely :
      (node : NodeState)
      → is_lost timeout now node ≡ false
      → is_never_seen timeout started_at now node ≡ false
      → ¬ Overdue timeout started_at now node
  unfolding is_lost is_never_seen
  kept-timely node kept seen (inl (up, (at, heard, late))) =
      absurd (ground (arith, kept, up, heard, late))
  kept-timely node kept seen (inr (new, (never, late))) =
      absurd (ground (arith, seen, new, never, late))

  swept-outcome :
      (node : NodeState)
      → (Overdue timeout started_at now node
          × (swept timeout started_at now node ≡ record node { status = dead }))
        ⊎ ((¬ Overdue timeout started_at now node) × (swept timeout started_at now node ≡ node))
  swept-outcome node = elim (Bool-cases (is_lost timeout now node)) [
    | inl b ↦ let late = lost-Overdue node _ _ refl refl b in inl (late, swept-Overdue node late)
    | inr kept ↦ elim (Bool-cases (is_never_seen timeout started_at now node)) [
      | inl b ↦
          let late = never_seen-Overdue node _ _ refl refl b in inl (late, swept-Overdue node late)
      | inr seen ↦ inr (kept-timely node kept seen, rw (kept, seen) refl)
    ]
  ]

-- A sweep marks a node dead exactly if it was alive and its last heartbeat is more than the
-- timeout ago, or if it was expected, never sent a heartbeat, and the first sweep is more than
-- the timeout ago; every other node it leaves as it was, and it adds none.
pub check_timeouts-Overdue :
    (now k : ℕ) (r : NodeRegistry)
    → ((node : NodeState) × (get k r.nodes ≡ some node)
        × ((Overdue r.timeout (get_or r.started_at now) now node
              × (get k (check_timeouts now r).nodes ≡ some (record node { status = dead })))
            ⊎ ((¬ Overdue r.timeout (get_or r.started_at now) now node)
                × (get k (check_timeouts now r).nodes ≡ some node))))
      ⊎ ((get k r.nodes ≡ none) × (get k (check_timeouts now r).nodes ≡ none))
check_timeouts-Overdue now k r = go (get k r.nodes) refl
  where
    after :
        (o : Option NodeState)
        → get k r.nodes ≡ o
        → get k (check_timeouts now r).nodes
          ≡ Option.map (swept r.timeout (get_or r.started_at now) now) o
    after o e = check_timeouts-swept now k r ∙ ap (Option.map _) e

    go :
        (o : Option NodeState)
        → get k r.nodes ≡ o
        → ((node : NodeState) × (get k r.nodes ≡ some node)
            × ((Overdue r.timeout (get_or r.started_at now) now node
                  × (get k (check_timeouts now r).nodes ≡ some (record node { status = dead })))
                ⊎ ((¬ Overdue r.timeout (get_or r.started_at now) now node)
                    × (get k (check_timeouts now r).nodes ≡ some node))))
          ⊎ ((get k r.nodes ≡ none) × (get k (check_timeouts now r).nodes ≡ none))
    go none e = inr (e, after none e)
    go (some node) e = elim (swept-outcome r.timeout (get_or r.started_at now) now node) [
      | inl (late, same) ↦ inl (node, e, inl (late, after (some node) e ∙ ap some same))
      | inr (timely, same) ↦ inl (node, e, inr (timely, after (some node) e ∙ ap some same))
    ]
