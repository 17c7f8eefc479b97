-- ===== src/Ring/Cluster/Methods.antt =====
-- Each method of ring_completion.py keeps a good node good and returns good actions.
use distribuidos_tp_money_la.Prelude.{
  ℕ, Bool, true, false, inl, inr, List, [], ◌∷◌, ◌++◌, arith, ◌==◌, nat_eq, if◌then◌else◌, All,
  Bool-cases,
}
use distribuidos_tp_money_la.Prelude.Int.{ℤ}
use distribuidos_tp_money_la.Collections.Dict.{Dict}
use distribuidos_tp_money_la.Collections.Dict.Laws.{put-IsDict, pop-IsDict}
use distribuidos_tp_money_la.Collections.PySet.{mem}
use distribuidos_tp_money_la.Ring.Completion.{
  RingCompletion, Client, Action, emit, client, set_client, on_data, on_upstream_eof, drop,
  maybe_local_complete, recheck_from,
}
use distribuidos_tp_money_la.Ring.Completion.Clients.{client-set_client, client-drop}
use distribuidos_tp_money_la.Ring.Cluster.Slots.{HasResult, NodeOk, ActionOk}

module _ (peers : List ℕ) (result : ℕ → ℕ → Dict ℕ ℕ) where
  pub set_client-NodeOk :
      (i cid : ℕ) (c : Client) (rc : RingCompletion)
      → HasResult peers result i cid c
      → NodeOk peers result i rc
      → NodeOk peers result i (set_client rc cid c)
  set_client-NodeOk i cid c rc h ok = record {
    id = unfold set_client in ok.id;
    size = unfold set_client in ok.size;
    is_dict = unfold set_client in put-IsDict cid c rc.clients ok.is_dict;
    has_result = λ j. rw client-set_client (elim (Bool-cases (cid == j)) [
      | inl same ↦ rw same (ground (arith, h))
      | inr other ↦ rw other (ok.has_result j)
    ]);
  }

  -- An outcome of a method: the node stays good and so are its actions.
  abbrev pub Good : ℕ → RingCompletion × List Action → Type 0
  Good i r = NodeOk peers result i r.0 × All (ActionOk peers result) r.1

  -- Emitting a client's results is no claim about counts.
  emit_if-Good :
      (b : Bool) (cid : ℕ) → All (ActionOk peers result) (if b then emit cid ∷ [] else [])
  emit_if-Good true cid = (tt, tt)
  emit_if-Good false cid = tt

  maybe_local_complete-Good :
      (i cid : ℕ) (rc : RingCompletion)
      → NodeOk peers result i rc
      → Good i (maybe_local_complete rc cid)
  unfolding maybe_local_complete
  maybe_local_complete-Good i cid rc ok =
      (set_client-NodeOk i cid (client rc cid) rc (ok.has_result cid) ok, emit_if-Good _ cid)

  pub on_data-Good :
      (i cid : ℕ) (rc : RingCompletion) → NodeOk peers result i rc → Good i (on_data rc cid)
  unfolding on_data
  on_data-Good i cid rc ok = elim (Bool-cases (mem cid rc.aborted)) [
    | inl dead ↦ rw dead (ok, tt)
    | inr live ↦
        rw live
          (maybe_local_complete-Good i cid _ (set_client-NodeOk i cid _ rc (ok.has_result cid) ok))
  ]

  pub on_upstream_eof-Good :
      (i cid : ℕ) (n : ℤ) (rc : RingCompletion)
      → NodeOk peers result i rc
      → Good i (on_upstream_eof rc cid n)
  unfolding on_upstream_eof
  on_upstream_eof-Good i cid n rc ok = elim (Bool-cases (mem cid rc.aborted)) [
    | inl dead ↦ rw dead (ok, tt)
    | inr live ↦
        rw live
          (maybe_local_complete-Good i cid _ (set_client-NodeOk i cid _ rc (ok.has_result cid) ok))
  ]

  All-append :
      (xs ys : List Action)
      → All (ActionOk peers result) xs
      → All (ActionOk peers result) ys
      → All (ActionOk peers result) (xs ++ ys)
  All-append [] ys h g = g
  All-append (x ∷ xs) ys h g = (h.0, All-append xs ys h.1 g)

  pub recheck_from-Good :
      (i : ℕ) (cids : List ℕ) (rc : RingCompletion)
      → NodeOk peers result i rc
      → Good i (recheck_from rc cids)
  unfolding recheck_from
  recheck_from-Good i [] rc ok = (ok, tt)
  recheck_from-Good i (cid ∷ cids) rc ok =
      let (ok1, good1) = maybe_local_complete-Good i cid rc ok in
      let (ok2, good2) = recheck_from-Good i cids (maybe_local_complete rc cid).0 ok1 in
      (ok2, All-append _ _ good1 good2)

  pub drop-NodeOk :
      (i cid : ℕ) (rc : RingCompletion)
      → NodeOk peers result i rc
      → NodeOk peers result i (drop rc cid)
  drop-NodeOk i cid rc ok = record {
    id = unfold drop in ok.id;
    size = unfold drop in ok.size;
    is_dict = unfold drop in pop-IsDict cid rc.clients ok.is_dict;
    has_result = λ j. rw (client-drop rc cid j ok.is_dict) (elim (Bool-cases (cid == j)) [
      | inl same ↦ rw same (λ h. cc)
      | inr other ↦ rw other (ok.has_result j)
    ]);
  }
