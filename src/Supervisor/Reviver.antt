-- ===== src/Supervisor/Reviver.antt =====
-- src/supervisor/reviver.py: the sweep that starts the containers of dead nodes, with a cooldown
-- per node. Starting a container is an output; a start that raises is only logged.
pub mod Cooldown
use distribuidos_tp_money_la.Prelude.{
  ℕ, zero, suc, ◌+◌, Bool, true, false, ◌&&◌, not, Option, none, some, List, [], ◌∷◌, ◌++◌, leb,
  if◌then◌else◌, ◌==◌, nat_eq,
}
use distribuidos_tp_money_la.Collections.Dict.{Dict, get, put, values}
use distribuidos_tp_money_la.Supervisor.Registry.{NodeState, NodeRegistry, is_dead, note}

pub record Reviver : Type 0 where
  pub registry : NodeRegistry
  pub cooldown : ℕ
  pub last_attempt : Dict ℕ ℕ

-- now - last <= cooldown, where `none` stands for an attempt at minus infinity
abbrev pub cooled : ℕ → ℕ → Option ℕ → Bool
cooled now cooldown none = false
cooled now cooldown (some at) = leb now (at + cooldown)

-- now - self._last_attempt.get(node_id, -inf) <= self._cooldown
unfoldable pub is_cooling : ℕ → ℕ → Reviver → Bool
unfolding get
is_cooling node_id now r = cooled now r.cooldown (get node_id r.last_attempt)

-- `_revive`
unfoldable pub revive : ℕ → ℕ → Reviver → Reviver
unfolding put note
revive node_id now r = record r {
  last_attempt = put node_id now r.last_attempt;
  registry = note node_id "reviving (docker start)" r.registry;
}

-- the loop of `sweep`, with the ids that are started
unfoldable pub sweep_nodes : List NodeState → ℕ → Reviver → Reviver × List ℕ
unfolding is_cooling revive
sweep_nodes [] now r = (r, [])
sweep_nodes (node ∷ nodes) now r =
    let skipped = sweep_nodes nodes now r in
    let (r1, started) = sweep_nodes nodes now (revive node.node_id now r) in
    if not (is_dead node.status)
    then skipped
    else if is_cooling node.node_id now r
    then skipped
    else (r1, node.node_id ∷ started)

unfoldable pub sweep : ℕ → Reviver → Reviver × List ℕ
unfolding sweep_nodes values
sweep now r = sweep_nodes (values r.registry.nodes) now r
