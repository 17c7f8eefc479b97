-- ===== src/Supervisor/Registry/Liveness.antt =====
-- What the registry (registry.py) says of a node after heartbeats and sweeps.
use distribuidos_tp_money_la.Prelude.{
  ℕ, ◌+◌, ◌≤◌, ◌≡◌, ◌∙◌, refl, ap, Bool, true, false, ◌&&◌, ◌||◌, some, List, [], ◌∷◌,
  if◌then◌else◌, ◌==◌, nat_eq, arith, Bool-cases, inl, inr,
}
use Prim.Native.String.{String}
use mathlib.Core.Option
use distribuidos_tp_money_la.Collections.Dict.{Dict, get, get_default, get_or}
use distribuidos_tp_money_la.Collections.Dict.Laws.{get-put_self}
use distribuidos_tp_money_la.Supervisor.Registry.{
  Status, unknown, alive, dead, is_unknown, is_alive, is_dead, same_status, NodeState, new_node,
  Event, NodeRegistry, transition, heartbeat, is_lost, is_never_seen, check_node, check_nodes,
  check_timeouts,
}

not_dead : (s : Status) → is_dead s ≡ false → same_status s dead ≡ false
not_dead unknown h = refl
not_dead alive h = refl
not_dead dead h = absurd (ground arith)

alive_not_dead : (s : Status) (b : Bool) → (is_alive s && b) ≡ true → same_status s dead ≡ false
alive_not_dead unknown b h = refl
alive_not_dead alive b h = refl
alive_not_dead dead b h = absurd (ground arith)

unknown_not_dead : (s : Status) (b : Bool) → (is_unknown s && b) ≡ true → same_status s dead ≡ false
unknown_not_dead unknown b h = refl
unknown_not_dead alive b h = refl
unknown_not_dead dead b h = absurd (ground arith)

-- A node as a sweep leaves it: dead if it was lost or never seen, as it was otherwise.
abbrev pub swept : ℕ → ℕ → ℕ → NodeState → NodeState
swept timeout started_at now node =
    if is_lost timeout now node || is_never_seen timeout started_at now node
    then record node { status = dead }
    else node

module _ (timeout max_events started_at now : ℕ) where
  check_node-swept :
      (node : NodeState) (events : List Event)
      → (check_node timeout max_events started_at now node events).0
        ≡ swept timeout started_at now node
  unfolding check_node transition
  check_node-swept node events = elim (Bool-cases (is_lost timeout now node)) [
    | inl lost ↦ rw lost (rw (alive_not_dead node.status _ (unfold is_lost in lost)) refl)
    | inr kept ↦ elim (Bool-cases (is_never_seen timeout started_at now node)) [
      | inl gone ↦
          rw (kept, gone) (rw (unknown_not_dead node.status _ (unfold is_never_seen in gone)) refl)
      | inr seen ↦ rw (kept, seen) refl
    ]
  ]

  check_nodes-get :
      (k : ℕ) (nodes : Dict ℕ NodeState) (events : List Event)
      → get k (check_nodes timeout max_events started_at now nodes events).0
        ≡ Option.map (swept timeout started_at now) (get k nodes)
  unfolding check_nodes get
  check_nodes-get k [] events = refl
  check_nodes-get k ((j, node) ∷ nodes) events = elim (Bool-cases (j == k)) [
    | inl e ↦ rw e (ap some (check_node-swept node events))
    | inr ne ↦
        rw ne (check_nodes-get k nodes (check_node timeout max_events started_at now node events).1)
  ]

-- A sweep marks dead exactly the nodes that were alive and silent for longer than the timeout, and
-- the expected nodes that were never heard of for longer than the timeout since the first sweep;
-- it leaves every other node as it was, and adds or removes none.
pub check_timeouts-swept :
    (now k : ℕ) (r : NodeRegistry)
    → get k (check_timeouts now r).nodes
      ≡ Option.map (swept r.timeout (get_or r.started_at now) now) (get k r.nodes)
unfolding check_timeouts
check_timeouts-swept now k r =
    check_nodes-get r.timeout r.max_events (get_or r.started_at now) now k r.nodes r.events

alive_transition :
    (max_events : ℕ) (node : NodeState) (reason : String) (events : List Event)
    → ((transition max_events node alive reason events).0.status ≡ alive)
      × ((transition max_events node alive reason events).0.last_heartbeat ≡ node.last_heartbeat)
unfolding transition
alive_transition max_events node reason events = elim (Bool-cases (same_status node.status alive)) [
  | inl same ↦ rw same (go node.status same, refl)
  | inr other ↦ rw other (refl, refl)
]
  where
    go : (s : Status) → same_status s alive ≡ true → s ≡ alive
    go unknown h = absurd (ground arith)
    go alive h = refl
    go dead h = absurd (ground arith)

abbrev HeardNode : ℕ → ℕ → NodeRegistry → Type 0
HeardNode node_id now r =
    (node : NodeState) × (get node_id (heartbeat node_id now r).nodes ≡ some node)
    × (node.status ≡ alive)
    × (node.last_heartbeat ≡ some now)

is_alive_eq : (s : Status) → is_alive s ≡ true → s ≡ alive
is_alive_eq unknown h = absurd (ground arith)
is_alive_eq alive h = refl
is_alive_eq dead h = absurd (ground arith)

heartbeat-alive : (node_id now : ℕ) (r : NodeRegistry) → HeardNode node_id now r
unfolding heartbeat
heartbeat-alive node_id now r =
    let node : NodeState = get_default node_id (new_node node_id) r.nodes in
    let seen : NodeState = record node { last_heartbeat = some now } in
    elim (Bool-cases (is_alive node.status)) [
      | inl up ↦ (seen, rw up (get-put_self node_id seen r.nodes), is_alive_eq node.status up, refl)
      | inr down ↦ (
        (transition r.max_events seen alive "recovered" r.events).0,
        rw down (get-put_self node_id _ r.nodes),
        (alive_transition r.max_events seen "recovered" r.events).0,
        (alive_transition r.max_events seen "recovered" r.events).1,
      )
    ]

-- After a heartbeat of a node, whatever its state was, a sweep that is no later than the timeout
-- leaves it alive.
pub heartbeat_keeps_alive :
    (node_id at now : ℕ) (r : NodeRegistry)
    → now ≤ at + r.timeout
    → (node : NodeState) × (get node_id (check_timeouts now (heartbeat node_id at r)).nodes
        ≡ some node)
      × (node.status ≡ alive)
heartbeat_keeps_alive node_id at now r le =
    let (node, found, up, heard) = heartbeat-alive node_id at r in
    (
      node,
      check_timeouts-swept now node_id (heartbeat node_id at r)
          ∙ (ap (Option.map _) found ∙ ap some (kept node up heard)),
      up,
    )
  where
    kept :
        (node : NodeState)
        → node.status ≡ alive
        → node.last_heartbeat ≡ some at
        → swept
            (heartbeat node_id at r).timeout
            (get_or (heartbeat node_id at r).started_at now)
            now
            node
          ≡ node
    kept node up heard =
        unfold is_lost is_never_seen heartbeat in rw (up, heard) (ground (arith, le))
