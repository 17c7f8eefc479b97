-- ===== src/Supervisor/Registry/Log.antt =====
-- The size of the registry's event log (registry.py).
use distribuidos_tp_money_la.Prelude.{
  ℕ, ◌≤◌, ◌≡◌, refl, some, List, [], ◌∷◌, length, nat_eq, arith, length-append,
}
use Prim.Native.String.{String}
use distribuidos_tp_money_la.Collections.Dict.{Dict, get_default, get_or}
use distribuidos_tp_money_la.Supervisor.Registry.{
  Status, alive, dead, NodeState, new_node, Event, changed, NodeRegistry, init, append_event,
  transition, register, heartbeat, check_node, check_nodes, check_timeouts, note,
}

length-append_event :
    (max_events : ℕ) (e : Event) (events : List Event)
    → length events ≤ max_events
    → length (append_event max_events e events) ≤ max_events
unfolding append_event
length-append_event max_events e [] le = ground (arith)
length-append_event max_events e (x ∷ events) le = ground (arith, length-append events (e ∷ []), le)

length-transition :
    (max_events : ℕ) (node : NodeState) (status : Status) (reason : String) (events : List Event)
    → length events ≤ max_events
    → length (transition max_events node status reason events).1 ≤ max_events
unfolding transition
length-transition max_events node status reason events le = ground (
  arith,
  le,
  length-append_event max_events
      (record { node_id = node.node_id; message = changed reason status }) events le,
)

length-check_nodes :
    (timeout max_events started_at now : ℕ) (nodes : Dict ℕ NodeState) (events : List Event)
    → length events ≤ max_events
    → length (check_nodes timeout max_events started_at now nodes events).1 ≤ max_events
unfolding check_nodes
length-check_nodes timeout max_events started_at now [] events le = le
length-check_nodes timeout max_events started_at now ((k, node) ∷ nodes) events le =
    length-check_nodes timeout max_events started_at now nodes _ one
  where
    one : length (check_node timeout max_events started_at now node events).1 ≤ max_events
    one =
        unfold check_node in
        ground (
          arith,
          le,
          length-transition max_events node dead "heartbeat lost" events le,
          length-transition max_events node dead "never seen" events le,
        )

-- A call of the registry.
pub data Call : Type 0 where
  registering : ℕ → String → ℕ → Call
  heard : ℕ → ℕ → Call
  checking : ℕ → Call
  noting : ℕ → String → Call

unfoldable pub run_call : Call → NodeRegistry → NodeRegistry
run_call (registering node_id kind now) r = register node_id kind now r
run_call (heard node_id now) r = heartbeat node_id now r
run_call (checking now) r = check_timeouts now r
run_call (noting node_id message) r = note node_id message r

unfoldable pub run_calls : List Call → NodeRegistry → NodeRegistry
unfolding run_call
run_calls [] r = r
run_calls (c ∷ calls) r = run_calls calls (run_call c r)

abbrev Bounded : NodeRegistry → NodeRegistry → Type 0
Bounded r r' = (length r'.events ≤ r.max_events) × (r'.max_events ≡ r.max_events)

run_call-Bounded :
    (c : Call) (r : NodeRegistry) → length r.events ≤ r.max_events → Bounded r (run_call c r)
unfolding run_call
run_call-Bounded (registering node_id kind now) r le =
    unfold register in (length-transition r.max_events _ alive "registered" r.events le, refl)
run_call-Bounded (heard node_id now) r le =
    unfold heartbeat in
    (
      ground (
        arith,
        le,
        length-transition r.max_events
            (record (get_default node_id (new_node node_id) r.nodes) { last_heartbeat = some now })
            alive "recovered" r.events le,
      ),
      refl,
    )
run_call-Bounded (checking now) r le =
    unfold check_timeouts in
    (
      length-check_nodes r.timeout r.max_events (get_or r.started_at now) now r.nodes r.events le,
      refl,
    )
run_call-Bounded (noting node_id message) r le =
    unfold note in (length-append_event r.max_events _ r.events le, refl)

run_calls-Bounded :
    (calls : List Call) (r : NodeRegistry)
    → length r.events ≤ r.max_events
    → length (run_calls calls r).events ≤ r.max_events
unfolding run_calls
run_calls-Bounded [] r le = le
run_calls-Bounded (c ∷ calls) r le =
    let (le1, same) = run_call-Bounded c r le in
    omega (arith, run_calls-Bounded calls (run_call c r) (omega (arith, le1, same)), same)

-- However the registry is used, its log never holds more than `max_events` events.
pub run_calls-bound :
    (timeout max_events : ℕ) (expected : List ℕ) (calls : List Call)
    → length (run_calls calls (init timeout expected max_events)).events ≤ max_events
run_calls-bound timeout max_events expected calls =
    unfold init in
    run_calls-Bounded calls (init timeout expected max_events) (unfold init in omega arith)
