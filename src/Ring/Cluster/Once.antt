-- ===== src/Ring/Cluster/Once.antt =====
-- What a node does for a client whose barrier it has closed, and for one that was aborted
-- (ring_completion.py: the phase DONE and the tombstones).
use distribuidos_tp_money_la.Prelude.{
  ℕ, ◌+◌, ◌≡◌, refl, true, false, List, [], ◌∷◌, ◌++◌, arith, ◌==◌, nat_eq, if◌then◌else◌,
  Bool-cases, inl, inr, ltb, length,
}
use distribuidos_tp_money_la.Prelude.Int.{ℤ}
use distribuidos_tp_money_la.Collections.Dict.{Dict, keys, get, pop}
use distribuidos_tp_money_la.Collections.PySet.{mem}
use distribuidos_tp_money_la.Ring.Completion.{
  Client, emitted, done, is_processing, is_done, RingCompletion, BarrierToken, Action, emit,
  forward, downstream_eof, client, set_client, drop, recheck, recheck_from, on_data,
  on_upstream_eof, report_sent, on_token, advance, close_barrier, record_slot, maybe_local_complete,
}
use distribuidos_tp_money_la.Ring.Completion.Clients.{client-set_client}
use distribuidos_tp_money_la.Ring.Cluster.{
  Event, on_message, on_eof, report, token, abort, resume, handle,
}

-- The actions that produce output for the client: results, or the EOF downstream.
unfoldable pub output_for : ℕ → List Action → List Action
output_for cid [] = []
output_for cid (emit j ∷ actions) =
    let rest = output_for cid actions in if j == cid then emit j ∷ rest else rest
output_for cid (forward t ∷ actions) = output_for cid actions
output_for cid (downstream_eof j counts ∷ actions) =
    let rest = output_for cid actions in if j == cid then downstream_eof j counts ∷ rest else rest

unfoldable pub run : List Event → RingCompletion → RingCompletion × List Action
unfolding handle
run [] rc = (rc, [])
run (e ∷ es) rc =
    let (rc1, actions) = handle e rc in let (rc2, more) = run es rc1 in (rc2, actions ++ more)

pub output_for-append :
    (cid : ℕ) (xs ys : List Action)
    → output_for cid (xs ++ ys) ≡ output_for cid xs ++ output_for cid ys
unfolding output_for
output_for-append cid [] ys = refl
output_for-append cid (emit j ∷ xs) ys = ground (arith, output_for-append cid xs ys)
output_for-append cid (forward t ∷ xs) ys = output_for-append cid xs ys
output_for-append cid (downstream_eof j counts ∷ xs) ys =
    ground (arith, output_for-append cid xs ys)

-- The barrier of the client is closed.
abbrev pub IsClosed : ℕ → RingCompletion → Type 0
IsClosed cid rc = is_done (client rc cid).phase ≡ true

-- No output for the client, whose barrier stays closed.
abbrev pub Quiet : ℕ → RingCompletion × List Action → Type 0
Quiet cid r = IsClosed cid r.0 × (output_for cid r.1 ≡ [])

set_client-IsClosed :
    (cid j : ℕ) (c : Client) (rc : RingCompletion)
    → IsClosed cid rc
    → c.phase ≡ (client rc j).phase
    → IsClosed cid (set_client rc j c)
set_client-IsClosed cid j c rc h e = ground (arith, client-set_client rc j cid c)

maybe_local_complete-Quiet :
    (cid j : ℕ) (rc : RingCompletion) → IsClosed cid rc → Quiet cid (maybe_local_complete rc j)
unfolding maybe_local_complete output_for
maybe_local_complete-Quiet cid j rc h = (set_client-IsClosed cid j _ rc h refl, ground arith)

on_data-Quiet : (cid j : ℕ) (rc : RingCompletion) → IsClosed cid rc → Quiet cid (on_data rc j)
unfolding on_data
on_data-Quiet cid j rc h = elim (Bool-cases (mem j rc.aborted)) [
  | inl dead ↦ rw dead (h, unfold output_for in refl)
  | inr live ↦
      let c : Client = record (client rc j) { received = (client rc j).received + 1 } in
      rw live (
        maybe_local_complete-Quiet cid j (set_client rc j c)
          (set_client-IsClosed cid j c rc h refl))
]

on_upstream_eof-Quiet :
    (cid j : ℕ) (n : ℤ) (rc : RingCompletion) → IsClosed cid rc → Quiet cid (on_upstream_eof rc j n)
unfolding on_upstream_eof
on_upstream_eof-Quiet cid j n rc h = elim (Bool-cases (mem j rc.aborted)) [
  | inl dead ↦ rw dead (h, unfold output_for in refl)
  | inr live ↦
      let c : Client = record (client rc j) { expected = n } in
      rw live (
        maybe_local_complete-Quiet cid j (set_client rc j c)
          (set_client-IsClosed cid j c rc h refl))
]

close_barrier-Quiet :
    (cid : ℕ) (t : BarrierToken) (rc : RingCompletion)
    → IsClosed cid rc
    → Quiet cid (close_barrier rc t)
unfolding close_barrier output_for
close_barrier-Quiet cid t rc h = elim (Bool-cases (is_done (client rc t.client_id).phase)) [
  | inl finished ↦ rw finished (set_client-IsClosed cid t.client_id _ rc h refl, refl)
  | inr open_ ↦
      let c : Client = record (client rc t.client_id) { phase = done } in
      rw open_ (ground (arith, client-set_client rc t.client_id cid c), ground arith)
]

advance-Quiet :
    (cid : ℕ) (t : BarrierToken) (rc : RingCompletion) → IsClosed cid rc → Quiet cid (advance rc t)
unfolding advance output_for
advance-Quiet cid t rc h = elim (Bool-cases (ltb (length t.sent_by) rc.n_nodes)) [
  | inl short ↦ rw short (h, refl)
  | inr full ↦ rw full (elim (Bool-cases (t.origin == rc.node_id)) [
    | inl mine ↦ rw mine (close_barrier-Quiet cid t rc h)
    | inr other ↦ rw other (h, refl)
  ])
]

on_token-Quiet :
    (cid : ℕ) (t : BarrierToken) (rc : RingCompletion) → IsClosed cid rc → Quiet cid (on_token rc t)
unfolding on_token output_for
on_token-Quiet cid t rc h = elim (Bool-cases (mem t.client_id rc.aborted)) [
  | inl dead ↦ rw dead (h, refl)
  | inr live ↦ rw live (
      advance-Quiet cid (record_slot rc t) (set_client rc t.client_id (client rc t.client_id))
        (set_client-IsClosed cid t.client_id (client rc t.client_id) rc h refl))
]

report_sent-Quiet :
    (cid j : ℕ) (sent : Dict ℕ ℕ) (rc : RingCompletion)
    → IsClosed cid rc
    → Quiet cid (report_sent rc j sent)
unfolding report_sent output_for
report_sent-Quiet cid j sent rc h = elim (Bool-cases (is_processing (client rc j).phase)) [
  | inl waiting ↦
      let c : Client = record (client rc j) { sent = sent; phase = emitted } in
      let t : BarrierToken = record {
        client_id = j;
        origin = rc.leader;
        sent_by = (rc.node_id, sent) ∷ [];
      } in
      let closed1 : IsClosed cid (set_client rc j c) =
        ground (arith, client-set_client rc j cid c) in
      rw waiting (elim (Bool-cases (rc.node_id == rc.leader)) [
        | inl leads ↦ rw leads (advance-Quiet cid t (set_client rc j c) closed1)
        | inr follows ↦ rw follows (closed1, refl)
      ])
  | inr reported ↦ rw reported (set_client-IsClosed cid j (client rc j) rc h refl, refl)
]

recheck_from-Quiet :
    (cid : ℕ) (cids : List ℕ) (rc : RingCompletion)
    → IsClosed cid rc
    → Quiet cid (recheck_from rc cids)
unfolding recheck_from
recheck_from-Quiet cid [] rc h = (h, unfold output_for in refl)
recheck_from-Quiet cid (j ∷ cids) rc h =
    let (h1, q1) = maybe_local_complete-Quiet cid j rc h in
    let (h2, q2) = recheck_from-Quiet cid cids (maybe_local_complete rc j).0 h1 in
    (h2, rw (output_for-append cid _ _) (rw (q1, q2) refl))

-- The events do not abort the client.
abbrev pub NotAborting : ℕ → List Event → Type 0
NotAborting cid [] = Unit {0}
NotAborting cid (abort j ∷ es) = ((j == cid) ≡ false) × NotAborting cid es
NotAborting cid (e ∷ es) = NotAborting cid es

get-pop_ne : (k j : ℕ) (d : Dict ℕ Client) → (k == j) ≡ false → get j (pop k d) ≡ get j d
unfolding get pop
get-pop_ne k j [] ne = refl
get-pop_ne k j ((i, w) ∷ d) ne = ground (arith, get-pop_ne k j d ne)

IsClosed-drop :
    (cid j : ℕ) (rc : RingCompletion)
    → (j == cid) ≡ false
    → IsClosed cid rc
    → IsClosed cid (drop rc j)
unfolding drop client
IsClosed-drop cid j rc ne h = rw (get-pop_ne j cid rc.clients ne) h

after :
    (cid : ℕ) (es : List Event) (r : RingCompletion × List Action)
    → Quiet cid r
    → (IsClosed cid r.0 → Quiet cid (run es r.0))
    → Quiet cid ((run es r.0).0, r.1 ++ (run es r.0).1)
after cid es r q rest =
    let (h2, q2) = rest q.0 in (h2, rw (output_for-append cid _ _) (rw (q.1, q2) refl))

pub run-Quiet :
    (cid : ℕ) (es : List Event) (rc : RingCompletion)
    → NotAborting cid es
    → IsClosed cid rc
    → Quiet cid (run es rc)
unfolding run recheck
run-Quiet cid [] rc n h = (h, unfold output_for in refl)
run-Quiet cid (on_message j ∷ es) rc n h =
    after cid es _ (on_data-Quiet cid j rc h) (run-Quiet cid es (on_data rc j).0 n)
run-Quiet cid (on_eof j k ∷ es) rc n h =
    after cid es _ (on_upstream_eof-Quiet cid j k rc h)
      (run-Quiet cid es (on_upstream_eof rc j k).0 n)
run-Quiet cid (report j sent ∷ es) rc n h =
    after cid es _ (report_sent-Quiet cid j sent rc h)
      (run-Quiet cid es (report_sent rc j sent).0 n)
run-Quiet cid (token t ∷ es) rc n h =
    after cid es _ (on_token-Quiet cid t rc h) (run-Quiet cid es (on_token rc t).0 n)
run-Quiet cid (abort j ∷ es) rc n h =
    run-Quiet cid es (drop rc j) n.1 (IsClosed-drop cid j rc n.0 h)
run-Quiet cid (resume ∷ es) rc n h =
    after cid es _ (recheck_from-Quiet cid (keys rc.clients) rc h)
      (run-Quiet cid es (recheck rc).0 n)
