-- ===== src/Supervisor/Registry.antt =====
-- src/supervisor/registry.py: every node's liveness, from heartbeats and a timeout sweep.
-- Times are ticks of the monotonic clock, and node ids are numbers that are only compared. An
-- event is kept without the wall-clock time that it is displayed with.
pub mod Liveness
pub mod Overdue
pub mod Log
use distribuidos_tp_money_la.Prelude.{
  ℕ, zero, suc, ◌+◌, Bool, true, false, ◌&&◌, not, Option, none, some, List, [], ◌∷◌, ◌++◌, ltb,
  if◌then◌else◌, length, ◌==◌, nat_eq,
}
use Prim.Native.String.{String}
use distribuidos_tp_money_la.Collections.Dict.{Dict, get, put, get_default, get_or}

pub data Status : Type 0 where
  unknown alive dead : Status

abbrev pub is_unknown : Status → Bool
is_unknown unknown = true
is_unknown alive = false
is_unknown dead = false

abbrev pub is_alive : Status → Bool
is_alive unknown = false
is_alive alive = true
is_alive dead = false

abbrev pub is_dead : Status → Bool
is_dead unknown = false
is_dead alive = false
is_dead dead = true

abbrev pub same_status : Status → Status → Bool
same_status unknown s = is_unknown s
same_status alive s = is_alive s
same_status dead s = is_dead s

pub record NodeState : Type 0 where
  pub node_id : ℕ
  pub kind : String
  pub status : Status
  pub last_heartbeat : Option ℕ

-- NodeState(node_id)
abbrev pub new_node : ℕ → NodeState
new_node node_id = record {
  node_id = node_id;
  kind = "node";
  status = unknown;
  last_heartbeat = none;
}

-- f"{reason} -> {status.value}", or a note
pub data Text : Type 0 where
  changed : String → Status → Text
  noted : String → Text

pub record Event : Type 0 where
  pub node_id : ℕ
  pub message : Text

pub record NodeRegistry : Type 0 where
  pub timeout : ℕ
  pub max_events : ℕ
  pub nodes : Dict ℕ NodeState
  pub events : List Event
  pub started_at : Option ℕ

-- {node_id: NodeState(node_id) for node_id in expected}
unfoldable pub init_nodes : Dict ℕ NodeState → List ℕ → Dict ℕ NodeState
unfolding put
init_nodes nodes [] = nodes
init_nodes nodes (node_id ∷ rest) = init_nodes (put node_id (new_node node_id) nodes) rest

unfoldable pub init : ℕ → List ℕ → ℕ → NodeRegistry
unfolding init_nodes
init timeout expected max_events = record {
  timeout = timeout;
  max_events = max_events;
  nodes = init_nodes [] expected;
  events = [];
  started_at = none;
}

abbrev pub pop_first {ℓ} : {A : Type ℓ} → List A → List A
pop_first [] = []
pop_first (x ∷ xs) = xs

-- self._events.append(...); if len(self._events) > self._max_events: self._events.pop(0)
unfoldable pub append_event : ℕ → Event → List Event → List Event
append_event max_events e events =
    let longer = events ++ e ∷ [] in
    if ltb max_events (length longer) then pop_first longer else longer

-- `_transition`: the node, and the event log
unfoldable pub transition : ℕ → NodeState → Status → String → List Event → NodeState × List Event
unfolding append_event
transition max_events node status reason events =
    if same_status node.status status then (node, events) else (
      record node { status = status },
      append_event max_events (record { node_id = node.node_id; message = changed reason status })
          events,
    )

unfoldable pub register : ℕ → String → ℕ → NodeRegistry → NodeRegistry
unfolding transition get_default put
register node_id kind now r =
    let node = get_default node_id (new_node node_id) r.nodes in
    let (node1, events) =
      transition r.max_events (record node { kind = kind; last_heartbeat = some now }) alive
        "registered" r.events in
    record r { nodes = put node_id node1 r.nodes; events = events }

unfoldable pub heartbeat : ℕ → ℕ → NodeRegistry → NodeRegistry
unfolding transition get_default put
heartbeat node_id now r =
    let node = get_default node_id (new_node node_id) r.nodes in
    let seen = record node { last_heartbeat = some now } in
    let (node1, events) =
      if is_alive node.status
      then (seen, r.events)
      else transition r.max_events seen alive "recovered" r.events in
    record r { nodes = put node_id node1 r.nodes; events = events }

-- now - then > timeout
abbrev pub is_past : ℕ → ℕ → ℕ → Bool
is_past timeout since now = ltb (since + timeout) now

-- the tests of the two branches of `check_timeouts`
unfoldable pub is_lost : ℕ → ℕ → NodeState → Bool
is_lost timeout now node =
    is_alive node.status
    && elim node.last_heartbeat [ none ↦ false | some at ↦ is_past timeout at now ]

unfoldable pub is_never_seen : ℕ → ℕ → ℕ → NodeState → Bool
is_never_seen timeout started_at now node =
    is_unknown node.status
    && (elim node.last_heartbeat [ none ↦ true | some at ↦ false ]
        && is_past timeout started_at now)

-- one turn of the loop
unfoldable pub check_node : ℕ → ℕ → ℕ → ℕ → NodeState → List Event → NodeState × List Event
unfolding transition is_lost is_never_seen
check_node timeout max_events started_at now node events =
    if is_lost timeout now node
    then transition max_events node dead "heartbeat lost" events
    else if is_never_seen timeout started_at now node
    then transition max_events node dead "never seen" events
    else (node, events)

unfoldable pub check_nodes :
    ℕ → ℕ → ℕ → ℕ → Dict ℕ NodeState → List Event → Dict ℕ NodeState × List Event
unfolding check_node
check_nodes timeout max_events started_at now [] events = ([], events)
check_nodes timeout max_events started_at now ((node_id, node) ∷ nodes) events =
    let (node1, events1) = check_node timeout max_events started_at now node events in
    let (nodes2, events2) = check_nodes timeout max_events started_at now nodes events1 in
    ((node_id, node1) ∷ nodes2, events2)

unfoldable pub check_timeouts : ℕ → NodeRegistry → NodeRegistry
unfolding check_nodes
check_timeouts now r =
    let started_at = get_or r.started_at now in
    let (nodes, events) = check_nodes r.timeout r.max_events started_at now r.nodes r.events in
    record r { nodes = nodes; events = events; started_at = some started_at }

unfoldable pub note : ℕ → String → NodeRegistry → NodeRegistry
unfolding append_event
note node_id message r = record r {
  events =
      append_event r.max_events (record { node_id = node_id; message = noted message }) r.events;
}
