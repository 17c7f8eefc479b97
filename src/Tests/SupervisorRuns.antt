-- ===== src/Tests/SupervisorRuns.antt =====
-- Runs of the supervisor (registry.py, reviver.py, server.py).
use distribuidos_tp_money_la.Prelude.{
  ℕ, ◌≡◌, ◌⊎◌, refl, true, false, none, some, [], ◌∷◌, arith, nat_eq, ltb,
}
use distribuidos_tp_money_la.Collections.Dict.{get, values}
use distribuidos_tp_money_la.Collections.PySet.{mem}
use distribuidos_tp_money_la.Supervisor.Registry.{
  unknown, alive, dead, NodeState, NodeRegistry, heartbeat, check_timeouts,
}
use distribuidos_tp_money_la.Supervisor.Registry.Liveness.{heartbeat_keeps_alive}
use distribuidos_tp_money_la.Supervisor.Registry.Overdue.{Overdue, check_timeouts-Overdue}
use distribuidos_tp_money_la.Supervisor.Reviver.{Reviver, sweep, sweep_nodes, is_cooling, revive}
use distribuidos_tp_money_la.Supervisor.Reviver.Cooldown.{sweep-cooldown}
use distribuidos_tp_money_la.Supervisor.Election.{
  supervisor_leader, leader_runtime, replica_runtime, SupervisorNode, is_leader, broadcast_message,
  handle_leader_down, handle_new_leader, follows_higher, find_peer, downgrade,
}
use distribuidos_tp_money_la.Supervisor.Election.Agreement.{
  FollowsGreater, handle_new_leader-FollowsGreater, split_brain_resolves,
  handle_leader_down-promotes, deferring_replica_leads,
}

-- node 4 was heard at 10, node 5 never
abbrev watched : NodeRegistry
watched = record {
  timeout = 3;
  max_events = 2;
  nodes =
      (4, record { node_id = 4; kind = "node"; status = alive; last_heartbeat = some 10 })
      ∷ (5, record { node_id = 5; kind = "node"; status = unknown; last_heartbeat = none })
      ∷ [];
  events = [];
  started_at = some 8;
}

check_timeouts-Overdue_example :
    ((node : NodeState) × (get 4 watched.nodes ≡ some node)
      × ((Overdue 3 8 14 node
            × (get 4 (check_timeouts 14 watched).nodes ≡ some (record node { status = dead })))
          ⊎ ((¬ Overdue 3 8 14 node) × (get 4 (check_timeouts 14 watched).nodes ≡ some node))))
    ⊎ ((get 4 watched.nodes ≡ none) × (get 4 (check_timeouts 14 watched).nodes ≡ none))
check_timeouts-Overdue_example = check_timeouts-Overdue 14 4 watched

heartbeat_keeps_alive_example :
    (node : NodeState) × (get 5 (check_timeouts 23 (heartbeat 5 20 watched)).nodes ≡ some node)
    × (node.status ≡ alive)
heartbeat_keeps_alive_example = heartbeat_keeps_alive 5 20 23 watched (omega arith)

-- node 4 is dead, and was not started before
abbrev reviver : Reviver
reviver = record {
  registry = record watched {
    nodes = (4, record { node_id = 4; kind = "node"; status = dead; last_heartbeat = some 1 }) ∷ [];
  };
  cooldown = 15;
  last_attempt = [];
}

started_4 : mem 4 (sweep 20 reviver).1 ≡ true
unfolding sweep sweep_nodes values mem is_cooling get
started_4 = refl

sweep-cooldown_example : mem 4 (sweep 30 (sweep 20 reviver).0).1 ≡ false
sweep-cooldown_example =
    sweep-cooldown 20 30 4 reviver (sweep 20 reviver).0 started_4 refl
      (unfold sweep sweep_nodes values is_cooling get revive in refl) (omega arith)

-- supervisor 1 of three follows 2
abbrev follower : SupervisorNode
follower = record {
  idx = 1;
  peers = 0 ∷ 2 ∷ 3 ∷ [];
  on_election = false;
  leader = some 2;
  runtime = some (replica_runtime 2);
}

abbrev promoted : ℕ → SupervisorNode
promoted idx = record follower { idx = idx; leader = none; runtime = some leader_runtime }

handle_new_leader-FollowsGreater_example :
    FollowsGreater (record follower { leader = some 3; runtime = some (replica_runtime 3) })
handle_new_leader-FollowsGreater_example =
    handle_new_leader-FollowsGreater [] 3 follower
      (record follower { leader = some 3; runtime = some (replica_runtime 3) }) [] moved
      (λ l e. ground (arith, e))
  where
    moved :
        handle_new_leader [] 3 follower
        ≡ some (record follower { leader = some 3; runtime = some (replica_runtime 3) }, [])
    moved = unfold handle_new_leader follows_higher find_peer mem downgrade in refl

split_brain_resolves_example :
    (handle_new_leader [] 3 (promoted 1)
      ≡ some (
        record (promoted 1) {
          leader = some 3;
          on_election = false;
          runtime = some (replica_runtime 3);
        },
        [],
      ))
    × (handle_new_leader (0 ∷ []) 1 (promoted 3)
        ≡ some (promoted 3, broadcast_message (supervisor_leader 3) (0 ∷ []) (0 ∷ 2 ∷ 3 ∷ [])))
split_brain_resolves_example =
    split_brain_resolves [] (0 ∷ []) (promoted 1) (promoted 3) (omega arith)
      (unfold is_leader in refl) (unfold is_leader in refl) (unfold mem in refl)

handle_leader_down-promotes_example : handle_leader_down (0 ∷ []) follower ≡ (
  record follower { leader = none; on_election = false; runtime = some leader_runtime },
  broadcast_message (supervisor_leader 1) (0 ∷ []) (0 ∷ 2 ∷ 3 ∷ []),
)
handle_leader_down-promotes_example =
    handle_leader_down-promotes (0 ∷ []) follower refl (unfold is_leader in refl) alone
  where
    alone :
        (p : ℕ) → mem p follower.peers ≡ true → ltb follower.idx p ≡ true → mem p (0 ∷ []) ≡ false
    alone p m lt = unfold mem in ground (arith, lt)

deferring_replica_leads_example :
    (is_leader (handle_leader_down (3 ∷ []) follower).0 ≡ true)
    × ((handle_leader_down (3 ∷ []) follower).0.runtime ≡ some (replica_runtime 2))
deferring_replica_leads_example =
    deferring_replica_leads (3 ∷ []) follower 2 3 refl refl refl (unfold mem in refl) (omega arith)
      (unfold mem in refl)
