-- ===== src/Supervisor/Reviver/Cooldown.antt =====
-- What a sweep of the reviver (reviver.py) starts.
use distribuidos_tp_money_la.Prelude.{
  ℕ, ◌+◌, ◌≤◌, ◌≡◌, refl, ap, ap₂, sym, ◌∙◌, true, false, ◌||◌, not, List, [], ◌∷◌, leb,
  if◌then◌else◌, ◌==◌, nat_eq, arith, Bool-cases, inl, inr,
}
use distribuidos_tp_money_la.Collections.Dict.{get, values}
use distribuidos_tp_money_la.Collections.Dict.Laws.{get-put}
use distribuidos_tp_money_la.Collections.PySet.{mem}
use distribuidos_tp_money_la.Supervisor.Registry.{NodeState, is_dead}
use distribuidos_tp_money_la.Supervisor.Reviver.{
  cooled, Reviver, is_cooling, revive, sweep_nodes, sweep,
}

-- the ids of the dead nodes
unfoldable pub dead_ids : List NodeState → List ℕ
dead_ids [] = []
dead_ids (node ∷ nodes) =
    let rest = dead_ids nodes in if is_dead node.status then node.node_id ∷ rest else rest

is_cooling-revive :
    (j k now at : ℕ) (r : Reviver)
    → is_cooling j at (revive k now r)
      ≡ (if k == j then leb at (now + r.cooldown) else is_cooling j at r)
unfolding is_cooling revive
is_cooling-revive j k now at r =
    ap (cooled at r.cooldown) (get-put k j now r.last_attempt)
    ∙ elim (Bool-cases (k == j)) [ inl e ↦ rw e refl | inr ne ↦ rw ne refl ]

now_cooling : (now c : ℕ) → leb now (now + c) ≡ true
now_cooling now c = ground arith

-- A node that is cooling down is not started.
cooling_skips :
    (nodes : List NodeState) (now k : ℕ) (r : Reviver)
    → is_cooling k now r ≡ true
    → mem k (sweep_nodes nodes now r).1 ≡ false
unfolding sweep_nodes mem
cooling_skips [] now k r h = refl
cooling_skips (node ∷ nodes) now k r h = elim (Bool-cases (not (is_dead node.status))) [
  | inl up ↦ rw up (cooling_skips nodes now k r h)
  | inr down ↦ elim (Bool-cases (is_cooling node.node_id now r)) [
    | inl cool ↦ rw (down, cool) (cooling_skips nodes now k r h)
    | inr ready ↦
        rw (down, ready)
          (ground (
            arith,
            other ready,
            cooling_skips nodes now k (revive node.node_id now r) (still ready),
          ))
  ]
]
  where
    other : is_cooling node.node_id now r ≡ false → (node.node_id == k) ≡ false
    other ready = elim (Bool-cases (node.node_id == k)) [
      | inl e ↦ absurd (ground (arith, h, ready, ap (λ n. is_cooling n now r) (same e)))
      | inr ne ↦ ne
    ]
      where
        same : (node.node_id == k) ≡ true → node.node_id ≡ k
        same e = ground (arith, e)

    still :
        is_cooling node.node_id now r ≡ false → is_cooling k now (revive node.node_id now r) ≡ true
    still ready = rw (is_cooling-revive k node.node_id now now r) (rw (other ready) h)

cooldown-revive : (k now : ℕ) (r : Reviver) → (revive k now r).cooldown ≡ r.cooldown
unfolding revive
cooldown-revive k now r = refl

-- Whoever is started cools down, and nobody stops to, up to the end of the cooldown.
started_cools :
    (nodes : List NodeState) (now at k : ℕ) (r : Reviver)
    → leb at (now + r.cooldown) ≡ true
    → (not (mem k (sweep_nodes nodes now r).1 || is_cooling k at r)
        || is_cooling k at (sweep_nodes nodes now r).0)
      ≡ true
unfolding sweep_nodes mem
started_cools [] now at k r le = ground arith
started_cools (node ∷ nodes) now at k r le = elim (Bool-cases (not (is_dead node.status))) [
  | inl up ↦ rw up (started_cools nodes now at k r le)
  | inr down ↦ elim (Bool-cases (is_cooling node.node_id now r)) [
    | inl cool ↦ rw (down, cool) (started_cools nodes now at k r le)
    | inr ready ↦
        rw (down, ready)
          (ground (
            arith,
            le,
            is_cooling-revive k node.node_id now at r,
            started_cools nodes now at k (revive node.node_id now r) (unfold revive in le),
          ))
  ]
]

cooldown-sweep :
    (nodes : List NodeState) (now : ℕ) (q : Reviver)
    → (sweep_nodes nodes now q).0.cooldown ≡ q.cooldown
unfolding sweep_nodes
cooldown-sweep [] now q = refl
cooldown-sweep (node ∷ nodes) now q = ground (
  arith,
  cooldown-sweep nodes now q,
  cooldown-sweep nodes now (revive node.node_id now q),
  cooldown-revive node.node_id now q,
)

-- A node that a sweep started is not started by a sweep of the state that it left, nor of any
-- later registry with the same attempts, until more than the cooldown has passed.
pub sweep-cooldown :
    (now later k : ℕ) (r r' : Reviver)
    → mem k (sweep now r).1 ≡ true
    → r'.last_attempt ≡ (sweep now r).0.last_attempt
    → r'.cooldown ≡ r.cooldown
    → later ≤ now + r.cooldown
    → mem k (sweep later r').1 ≡ false
unfolding sweep
sweep-cooldown now later k r r' started attempts same le =
    cooling_skips (values r'.registry.nodes) later k r' (
      ground (
        arith,
        carried,
        started,
        started_cools (values r.registry.nodes) now later k r (ground (arith, le)),
      ))
  where
    carried :
        is_cooling k later r' ≡ is_cooling k later (sweep_nodes (values r.registry.nodes) now r).0
    carried =
        unfold is_cooling sweep in
        ap₂ (λ a c. cooled later c (get k a)) attempts
          (same ∙ sym (cooldown-sweep (values r.registry.nodes) now r))

sweep_nodes-is_dead :
    (nodes : List NodeState) (now k : ℕ) (q : Reviver)
    → mem k (sweep_nodes nodes now q).1 ≡ true
    → mem k (dead_ids nodes) ≡ true
unfolding sweep_nodes mem dead_ids
sweep_nodes-is_dead [] now k q h = h
sweep_nodes-is_dead (node ∷ nodes) now k q h = ground (
  arith,
  h,
  sweep_nodes-is_dead nodes now k q,
  sweep_nodes-is_dead nodes now k (revive node.node_id now q),
)

-- Only nodes that the registry says are dead are started.
pub sweep-is_dead :
    (now k : ℕ) (r : Reviver)
    → mem k (sweep now r).1 ≡ true
    → mem k (dead_ids (values r.registry.nodes)) ≡ true
unfolding sweep
sweep-is_dead now k r h = sweep_nodes-is_dead (values r.registry.nodes) now k r h
