-- ===== src/Ring/Cluster/Silence.antt =====
-- A node that dropped a client returns no action about it (ring_completion.py).
use distribuidos_tp_money_la.Prelude.{
  ℕ, ◌+◌, ◌≡◌, refl, true, false, List, [], ◌∷◌, ◌++◌, arith, ◌==◌, nat_eq, if◌then◌else◌,
  Bool-cases, inl, inr, ltb, length, ◌∙◌, ap,
}
use distribuidos_tp_money_la.Prelude.Int.{ℤ}
use distribuidos_tp_money_la.Collections.Dict.{Dict}
use distribuidos_tp_money_la.Collections.Dict.Laws.{IsDict, put-IsDict}
use distribuidos_tp_money_la.Collections.PySet.{mem}
use distribuidos_tp_money_la.Ring.Completion.{
  Client, emitted, is_processing, is_done, RingCompletion, BarrierToken, new_client, Action, emit,
  forward, downstream_eof, client, set_client, on_data, on_upstream_eof, report_sent, on_token,
  advance, close_barrier, record_slot, maybe_local_complete, is_locally_complete,
}
use distribuidos_tp_money_la.Ring.Completion.Clients.{client-set_client}

-- Every action about the client, its tokens included.
unfoldable pub actions_for : ℕ → List Action → List Action
actions_for cid [] = []
actions_for cid (emit j ∷ actions) =
    let rest = actions_for cid actions in if j == cid then emit j ∷ rest else rest
actions_for cid (forward t ∷ actions) =
    let rest = actions_for cid actions in if t.client_id == cid then forward t ∷ rest else rest
actions_for cid (downstream_eof j counts ∷ actions) =
    let rest = actions_for cid actions in if j == cid then downstream_eof j counts ∷ rest else rest

pub actions_for-append :
    (cid : ℕ) (xs ys : List Action)
    → actions_for cid (xs ++ ys) ≡ actions_for cid xs ++ actions_for cid ys
unfolding actions_for
actions_for-append cid [] ys = refl
actions_for-append cid (emit j ∷ xs) ys = ground (arith, actions_for-append cid xs ys)
actions_for-append cid (forward t ∷ xs) ys = ground (arith, actions_for-append cid xs ys)
actions_for-append cid (downstream_eof j counts ∷ xs) ys =
    ground (arith, actions_for-append cid xs ys)

-- The client is in the tombstones, and the node knows nothing of it.
pub record IsDropped (cid : ℕ) (rc : RingCompletion) : Type 0 where
  pub buried : mem cid rc.aborted ≡ true
  pub forgotten : client rc cid ≡ new_client
  pub is_dict : IsDict rc.clients

abbrev pub Silent : ℕ → RingCompletion × List Action → Type 0
Silent cid r = IsDropped cid r.0 × (actions_for cid r.1 ≡ [])

pub set_client-IsDropped :
    (cid j : ℕ) (c : Client) (rc : RingCompletion)
    → (j == cid) ≡ false
    → IsDropped cid rc
    → IsDropped cid (set_client rc j c)
set_client-IsDropped cid j c rc ne h = record {
  buried = unfold set_client in h.buried;
  forgotten = rw (client-set_client rc j cid c) (rw ne h.forgotten);
  is_dict = unfold set_client in put-IsDict j c rc.clients h.is_dict;
}

-- A client that is asked for, and found as it was.
pub refresh-IsDropped :
    (cid j : ℕ) (rc : RingCompletion)
    → IsDropped cid rc
    → IsDropped cid (set_client rc j (client rc j))
refresh-IsDropped cid j rc h = record {
  buried = unfold set_client in h.buried;
  forgotten = ground (arith, client-set_client rc j cid (client rc j), h.forgotten);
  is_dict = unfold set_client in put-IsDict j (client rc j) rc.clients h.is_dict;
}

pub new_client_incomplete :
    (cid j : ℕ) (rc : RingCompletion)
    → IsDropped cid rc
    → actions_for cid (if is_locally_complete (client rc j) then emit j ∷ [] else []) ≡ []
unfolding actions_for is_locally_complete
new_client_incomplete cid j rc h = elim (Bool-cases (j == cid)) [
  | inl same ↦
      let e : client rc j ≡ new_client = ap (client rc) (ground (arith, same)) ∙ h.forgotten in
      rw e refl
  | inr other ↦ ground arith
]

pub maybe_local_complete-Silent :
    (cid j : ℕ) (rc : RingCompletion) → IsDropped cid rc → Silent cid (maybe_local_complete rc j)
unfolding maybe_local_complete
maybe_local_complete-Silent cid j rc h =
    (refresh-IsDropped cid j rc h, new_client_incomplete cid j rc h)

-- The dropped client is not the one of an event that passes the test.
live_ne :
    (cid j : ℕ) (rc : RingCompletion)
    → IsDropped cid rc
    → mem j rc.aborted ≡ false
    → (j == cid) ≡ false
live_ne cid j rc h live = elim (Bool-cases (j == cid)) [
  | inl same ↦ absurd (buried_dead (ground (arith, same)))
  | inr other ↦ other
]
  where
    buried_dead : j ≡ cid → ⊥
    buried_dead e = ground (arith, ap (λ k. mem k rc.aborted) e, h.buried, live)

pub on_data-Silent :
    (cid j : ℕ) (rc : RingCompletion) → IsDropped cid rc → Silent cid (on_data rc j)
unfolding on_data
on_data-Silent cid j rc h = elim (Bool-cases (mem j rc.aborted)) [
  | inl dead ↦ rw dead (h, unfold actions_for in refl)
  | inr live ↦
      let c : Client = record (client rc j) { received = (client rc j).received + 1 } in
      rw live (
        maybe_local_complete-Silent cid j (set_client rc j c)
          (set_client-IsDropped cid j c rc (live_ne cid j rc h live) h))
]

pub on_upstream_eof-Silent :
    (cid j : ℕ) (n : ℤ) (rc : RingCompletion)
    → IsDropped cid rc
    → Silent cid (on_upstream_eof rc j n)
unfolding on_upstream_eof
on_upstream_eof-Silent cid j n rc h = elim (Bool-cases (mem j rc.aborted)) [
  | inl dead ↦ rw dead (h, unfold actions_for in refl)
  | inr live ↦
      let c : Client = record (client rc j) { expected = n } in
      rw live (
        maybe_local_complete-Silent cid j (set_client rc j c)
          (set_client-IsDropped cid j c rc (live_ne cid j rc h live) h))
]

pub advance-Silent :
    (cid : ℕ) (t : BarrierToken) (rc : RingCompletion)
    → (t.client_id == cid) ≡ false
    → IsDropped cid rc
    → Silent cid (advance rc t)
unfolding advance close_barrier actions_for
advance-Silent cid t rc ne h = elim (Bool-cases (ltb (length t.sent_by) rc.n_nodes)) [
  | inl short ↦ rw short (h, rw ne)
  | inr full ↦ rw full (elim (Bool-cases (t.origin == rc.node_id)) [
    | inl mine ↦ rw mine (elim (Bool-cases (is_done (client rc t.client_id).phase)) [
      | inl finished ↦ rw finished (refresh-IsDropped cid t.client_id rc h, refl)
      | inr open_ ↦ rw open_ (set_client-IsDropped cid t.client_id _ rc ne h, rw ne)
    ])
    | inr other ↦ rw other (h, rw ne)
  ])
]

record_slot-client_id :
    (rc : RingCompletion) (t : BarrierToken) → (record_slot rc t).client_id ≡ t.client_id
unfolding record_slot
record_slot-client_id rc t = ground arith

pub on_token-Silent :
    (cid : ℕ) (t : BarrierToken) (rc : RingCompletion)
    → IsDropped cid rc
    → Silent cid (on_token rc t)
unfolding on_token
on_token-Silent cid t rc h = elim (Bool-cases (mem t.client_id rc.aborted)) [
  | inl dead ↦ rw dead (h, unfold actions_for in refl)
  | inr live ↦ rw live (
      advance-Silent cid (record_slot rc t) (set_client rc t.client_id (client rc t.client_id))
        (rw (record_slot-client_id rc t) (live_ne cid t.client_id rc h live))
        (refresh-IsDropped cid t.client_id rc h))
]

pub report_sent-Silent :
    (cid j : ℕ) (sent : Dict ℕ ℕ) (rc : RingCompletion)
    → (j == cid) ≡ false
    → IsDropped cid rc
    → Silent cid (report_sent rc j sent)
unfolding report_sent
report_sent-Silent cid j sent rc ne h =
    let c : Client = record (client rc j) { sent = sent; phase = emitted } in
    let t : BarrierToken = record {
      client_id = j;
      origin = rc.leader;
      sent_by = (rc.node_id, sent) ∷ [];
    } in
    let h1 : IsDropped cid (set_client rc j c) = set_client-IsDropped cid j c rc ne h in
    elim (Bool-cases (is_processing (client rc j).phase)) [
      | inl waiting ↦ rw waiting (elim (Bool-cases (rc.node_id == rc.leader)) [
        | inl leads ↦ rw leads (advance-Silent cid t (set_client rc j c) ne h1)
        | inr follows ↦ rw follows (h1, unfold actions_for in refl)
      ])
      | inr reported ↦ rw reported (refresh-IsDropped cid j rc h, unfold actions_for in refl)
    ]
