-- ===== src/Ring/Cluster/Aborted.antt =====
-- The tombstone of an aborted client (`drop` and `_aborted` of ring_completion.py).
use distribuidos_tp_money_la.Prelude.{
  ℕ, ◌≡◌, refl, Bool, true, false, ◌||◌, List, [], ◌∷◌, ◌++◌, arith, ◌==◌, nat_eq, Bool-cases, inl,
  inr,
}
use distribuidos_tp_money_la.Collections.Dict.{keys}
use distribuidos_tp_money_la.Collections.Dict.Laws.{IsDict, pop-IsDict, beq_refl}
use distribuidos_tp_money_la.Collections.PySet.{mem, mem-add}
use distribuidos_tp_money_la.Ring.Completion.{
  RingCompletion, new_client, Action, client, drop, recheck, recheck_from, on_data, on_upstream_eof,
  report_sent, on_token, maybe_local_complete,
}
use distribuidos_tp_money_la.Ring.Completion.Clients.{client-drop}
use distribuidos_tp_money_la.Ring.Cluster.{Event, on_message, on_eof, report, token, abort, resume}
use distribuidos_tp_money_la.Ring.Cluster.Once.{run}
use distribuidos_tp_money_la.Ring.Cluster.Silence.{
  actions_for, actions_for-append, IsDropped, Silent, maybe_local_complete-Silent, on_data-Silent,
  on_upstream_eof-Silent, on_token-Silent, report_sent-Silent,
}

recheck_from-Silent :
    (cid : ℕ) (cids : List ℕ) (rc : RingCompletion)
    → IsDropped cid rc
    → Silent cid (recheck_from rc cids)
unfolding recheck_from
recheck_from-Silent cid [] rc h = (h, unfold actions_for in refl)
recheck_from-Silent cid (j ∷ cids) rc h =
    let (h1, q1) = maybe_local_complete-Silent cid j rc h in
    let (h2, q2) = recheck_from-Silent cid cids (maybe_local_complete rc j).0 h1 in
    (h2, rw (actions_for-append cid _ _) (rw (q1, q2) refl))

-- `drop` buries its client, and the others stay buried.
drop-IsDropped :
    (cid j : ℕ) (rc : RingCompletion)
    → IsDict rc.clients
    → (j == cid || mem cid rc.aborted) ≡ true
    → ((j == cid) ≡ false → client rc cid ≡ new_client)
    → IsDropped cid (drop rc j)
drop-IsDropped cid j rc d m same = record {
  buried = unfold drop in rw (mem-add j cid rc.aborted) m;
  forgotten =
      rw (client-drop rc j cid d)
        (elim (Bool-cases (j == cid)) [ inl e ↦ rw e | inr ne ↦ rw ne (same ne) ]);
  is_dict = unfold drop in pop-IsDict j rc.clients d;
}

or-true : (b : Bool) → (b || true) ≡ true
or-true true = refl
or-true false = refl

-- No event reports counts of the client: the controller reports only what it was told to emit.
abbrev pub NotReporting : ℕ → List Event → Type 0
NotReporting cid [] = Unit {0}
NotReporting cid (report j sent ∷ es) = ((j == cid) ≡ false) × NotReporting cid es
NotReporting cid (e ∷ es) = NotReporting cid es

after :
    (cid : ℕ) (es : List Event) (r : RingCompletion × List Action)
    → Silent cid r
    → (IsDropped cid r.0 → Silent cid (run es r.0))
    → Silent cid ((run es r.0).0, r.1 ++ (run es r.0).1)
after cid es r q rest =
    let (h2, q2) = rest q.0 in (h2, rw (actions_for-append cid _ _) (rw (q.1, q2) refl))

run-Silent :
    (cid : ℕ) (es : List Event) (rc : RingCompletion)
    → NotReporting cid es
    → IsDropped cid rc
    → Silent cid (run es rc)
unfolding run recheck
run-Silent cid [] rc n h = (h, unfold actions_for in refl)
run-Silent cid (on_message j ∷ es) rc n h =
    after cid es _ (on_data-Silent cid j rc h) (run-Silent cid es (on_data rc j).0 n)
run-Silent cid (on_eof j k ∷ es) rc n h =
    after cid es _ (on_upstream_eof-Silent cid j k rc h)
      (run-Silent cid es (on_upstream_eof rc j k).0 n)
run-Silent cid (report j sent ∷ es) rc n h =
    after cid es _ (report_sent-Silent cid j sent rc n.0 h)
      (run-Silent cid es (report_sent rc j sent).0 n.1)
run-Silent cid (token t ∷ es) rc n h =
    after cid es _ (on_token-Silent cid t rc h) (run-Silent cid es (on_token rc t).0 n)
run-Silent cid (abort j ∷ es) rc n h =
    run-Silent cid es (drop rc j) n
      (drop-IsDropped cid j rc h.is_dict (rw h.buried (or-true (j == cid))) (λ _. h.forgotten))
run-Silent cid (resume ∷ es) rc n h =
    after cid es _ (recheck_from-Silent cid (keys rc.clients) rc h)
      (run-Silent cid es (recheck rc).0 n)

-- After a client is dropped, whatever messages, EOFs, tokens, aborts and rechecks arrive, in any
-- order, the node returns no action about it: it emits nothing, forwards none of its tokens and
-- sends no EOF for it. (Its counts are not reported, since nothing asks for them.)
pub drop_silences :
    (cid : ℕ) (es : List Event) (rc : RingCompletion)
    → IsDict rc.clients
    → NotReporting cid es
    → actions_for cid (run es (drop rc cid)).1 ≡ []
drop_silences cid es rc d n =
    (run-Silent cid es (drop rc cid) n
      (drop-IsDropped cid cid rc d (rw (beq_refl cid) refl) (λ ne. absurd (ground arith)))).1
