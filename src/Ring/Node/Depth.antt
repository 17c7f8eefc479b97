-- ===== src/Ring/Node/Depth.antt =====
-- The depth of the calls of `_run` and `_emit` (ring_node.py).
use distribuidos_tp_money_la.Prelude.{
  not, ltb, length, ℕ, suc, ◌≡◌, refl, ap, Option, some, List, [], ◌∷◌, ◌==◌, nat_eq, Bool-cases,
  inl, inr,
}
use distribuidos_tp_money_la.Collections.Dict.{Dict}
use distribuidos_tp_money_la.Ring.Completion.{
  Client, emitted, RingCompletion, BarrierToken, Action, emit, forward, downstream_eof, report_sent,
  advance, close_barrier, client, is_done, is_processing, set_client,
}
use distribuidos_tp_money_la.Ring.Node.{node_of, Controller, node_of, run, run_actions, RingNode}

-- The actions ask for no emission.
abbrev NoEmit : List Action → Type 0
NoEmit [] = Unit {0}
NoEmit (emit cid ∷ actions) = ⊥
NoEmit (forward t ∷ actions) = NoEmit actions
NoEmit (downstream_eof cid counts ∷ actions) = NoEmit actions

advance-NoEmit : (rc : RingCompletion) (t : BarrierToken) → NoEmit (advance rc t).1
unfolding advance close_barrier
advance-NoEmit rc t = elim (Bool-cases (ltb (length t.sent_by) rc.n_nodes)) [
  | inl few ↦ rw few tt
  | inr all ↦ elim (Bool-cases (not (t.origin == rc.node_id))) [
    | inl other ↦ rw (all, other) tt
    | inr own ↦ elim (Bool-cases (is_done (client rc t.client_id).phase)) [
      | inl over ↦ rw (all, own, over) tt
      | inr fresh ↦ rw (all, own, fresh) tt
    ]
  ]
]

report_sent-NoEmit :
    (rc : RingCompletion) (cid : ℕ) (sent : Dict ℕ ℕ) → NoEmit (report_sent rc cid sent).1
unfolding report_sent
report_sent-NoEmit rc cid sent =
    let c : Client = record (client rc cid) { sent = sent; phase = emitted } in
    let rc1 : RingCompletion = set_client rc cid c in
    let t : BarrierToken = record {
      client_id = cid;
      origin = rc.leader;
      sent_by = (rc.node_id, sent) ∷ [];
    } in
    elim (Bool-cases (not (is_processing (client rc cid).phase))) [
      | inl past ↦ rw past tt
      | inr first ↦ elim (Bool-cases (not (rc.node_id == rc.leader))) [
        | inl follower ↦ rw (first, follower) tt
        | inr lead ↦ rw (first, lead) (advance-NoEmit rc1 t)
      ]
    ]

module _ {F M : Type 0} (c : Controller F M) where
  -- Something comes back.
  abbrev pub Returns : Option (RingNode F M × List ℕ) → Type 0
  Returns o = (r : RingNode F M × List ℕ) × (o ≡ some r)

  run-NoEmit :
      (f : ℕ → RingNode F M → Option (RingNode F M)) (actions : List Action) (node : RingNode F M)
      → NoEmit actions
      → Returns (run_actions f actions node)
  unfolding run_actions
  run-NoEmit f [] node h = (_, refl)
  run-NoEmit f (emit cid ∷ actions) node h = absurd h
  run-NoEmit f (forward t ∷ actions) node h = run-NoEmit f actions _ h
  run-NoEmit f (downstream_eof cid counts ∷ actions) node h = run-NoEmit f actions _ h

  run_actions-Returns :
      (f : ℕ → RingNode F M → Option (RingNode F M))
      → ((cid : ℕ) (n : RingNode F M) → (n' : RingNode F M) × (f cid n ≡ some n'))
      → (actions : List Action) (node : RingNode F M) → Returns (run_actions f actions node)
  unfolding run_actions
  run_actions-Returns f total [] node = (_, refl)
  run_actions-Returns f total (emit cid ∷ actions) node =
      let (n1, e1) = total cid node in
      let (r, e2) = run_actions-Returns f total actions n1 in
      ((r.0, cid ∷ r.1), rw (e1, run_actions) (rw (e2, run_actions) refl))
  run_actions-Returns f total (forward t ∷ actions) node = run_actions-Returns f total actions _
  run_actions-Returns f total (downstream_eof cid counts ∷ actions) node =
      run_actions-Returns f total actions _

  -- `_run` and `_emit` call each other no deeper than two `_run`s: whatever the actions and the
  -- controller are, the fuel is enough and the run has a result.
  pub run-Returns :
      (depth : ℕ) (actions : List Action) (node : RingNode F M)
      → Returns (run (suc (suc depth)) c actions node)
  unfolding run
  run-Returns depth actions node = run_actions-Returns _ inner actions node
    where
      inner :
          (cid : ℕ) (n : RingNode F M)
          → (n' : RingNode F M) × ((let (node1, sent) = c.emit_result cid n in
                let (rc2, more) = report_sent node1.rc cid sent in
                node_of (run (suc depth) c more (record node1 { rc = rc2 })))
              ≡ some n')
      inner cid n =
          let out = c.emit_result cid n in
          let reported = report_sent out.0.rc cid out.1 in
          let node1 : RingNode F M = record out.0 { rc = reported.0 } in
          let ret : Returns (run (suc depth) c reported.1 node1) =
            run-NoEmit _ reported.1 node1 (report_sent-NoEmit out.0.rc cid out.1) in
          (ret.0.0, ap node_of ret.1)
