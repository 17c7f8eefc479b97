-- ===== src/Ring/Cluster/Safety.antt =====
-- The barrier of one ring (ring_completion.py) under every order of messages, redelivery of
-- tokens, abort, checkpoint and crash.
use distribuidos_tp_money_la.Prelude.{
  ℕ, zero, suc, ◌+◌, ◌≤◌, ◌<◌, ◌≡◌, refl, sym, subst, true, inl, inr, List, [], ◌∷◌, ◌++◌, arith,
  ◌==◌, nat_eq, All, length, Bool-cases,
}
use distribuidos_tp_money_la.Collections.Dict.{Dict, keys}
use distribuidos_tp_money_la.Collections.Dict.Laws.{IsDict}
use distribuidos_tp_money_la.Collections.PySet.{mem}
use distribuidos_tp_money_la.Ring.Completion.{
  RingCompletion, BarrierToken, Action, emit, forward, downstream_eof, init, recheck, client,
}
use distribuidos_tp_money_la.Ring.Completion.Counts.{count_of, sum_of}
use distribuidos_tp_money_la.Ring.Cluster.{
  Cluster, Event, on_message, on_eof, report, token, abort, resume, handle, forwarded, closed, Step,
  Allowed, Sent, act, checkpoint, crash, set_node, Reach, here, next, range_from, without, peer_ids,
  start,
}
use distribuidos_tp_money_la.Ring.Cluster.Slots.{NodeOk, TokenOk, EofOk, ActionOk}
use distribuidos_tp_money_la.Ring.Cluster.Methods.{
  Good, on_data-Good, on_upstream_eof-Good, recheck_from-Good, drop-NodeOk,
}
use distribuidos_tp_money_la.Ring.Cluster.Barrier.{on_token-Good, report_sent-Good}

without_below : (k n i : ℕ) → i < k → without i (range_from k n) ≡ range_from k n
unfolding without range_from
without_below k zero i h = refl
without_below k (suc n) i h = ground (arith, without_below (k + 1) n i)

length-range : (k n : ℕ) → length (range_from k n) ≡ n
unfolding range_from
length-range k zero = refl
length-range k (suc n) = omega (arith, length-range (k + 1) n)

-- A node knows all the others, at least.
length-without : (k n i : ℕ) → n ≤ length (without i (range_from k n)) + 1
unfolding without range_from
length-without k zero i = omega arith
length-without k (suc n) i = elim (Bool-cases (k == i)) [
  | inl same ↦ rw same (ground (arith, without_below (k + 1) n i, length-range (k + 1) n))
  | inr other ↦ rw other (omega (arith, length-without (k + 1) n i))
]

module _ (peers : List ℕ) (result : ℕ → ℕ → Dict ℕ ℕ) where
  record Inv (s : Cluster) : Type 0 where
    pub nodes : (i : ℕ) → NodeOk peers result i (s.node i)
    pub saved : (i : ℕ) → NodeOk peers result i (s.saved i)
    pub tokens : All (TokenOk peers result) s.tokens
    pub eofs : All (EofOk peers result) s.eofs

  Sent-TokenOk :
      (t : BarrierToken) (ts : List BarrierToken)
      → Sent t ts
      → All (TokenOk peers result) ts
      → TokenOk peers result t
  Sent-TokenOk t [] h ok = absurd h
  Sent-TokenOk t (u ∷ us) (inl e) ok = subst (TokenOk peers result) (sym e) ok.0
  Sent-TokenOk t (u ∷ us) (inr h) ok = Sent-TokenOk t us h ok.1

  set_node-NodeOk :
      (f : ℕ → RingCompletion) (i : ℕ) (rc : RingCompletion)
      → NodeOk peers result i rc
      → ((j : ℕ) → NodeOk peers result j (f j))
      → (j : ℕ) → NodeOk peers result j (set_node f i rc j)
  set_node-NodeOk f i rc ok all j = elim (Bool-cases (i == j)) [
    | inl same ↦ rw same (subst (λ k. NodeOk peers result k rc) (ground (arith, same)) ok)
    | inr other ↦ rw other (all j)
  ]

  forwarded-ok :
      (actions : List Action) (ts : List BarrierToken)
      → All (ActionOk peers result) actions
      → All (TokenOk peers result) ts
      → All (TokenOk peers result) (forwarded actions ++ ts)
  forwarded-ok [] ts h ok = ok
  forwarded-ok (emit cid ∷ actions) ts h ok = forwarded-ok actions ts h.1 ok
  forwarded-ok (forward t ∷ actions) ts h ok = (h.0, forwarded-ok actions ts h.1 ok)
  forwarded-ok (downstream_eof cid counts ∷ actions) ts h ok = forwarded-ok actions ts h.1 ok

  closed-ok :
      (actions : List Action) (es : List (ℕ × Dict ℕ ℕ))
      → All (ActionOk peers result) actions
      → All (EofOk peers result) es
      → All (EofOk peers result) (closed actions ++ es)
  closed-ok [] es h ok = ok
  closed-ok (emit cid ∷ actions) es h ok = closed-ok actions es h.1 ok
  closed-ok (forward t ∷ actions) es h ok = closed-ok actions es h.1 ok
  closed-ok (downstream_eof cid counts ∷ actions) es h ok = (h.0, closed-ok actions es h.1 ok)

  module _ (dicts : (p cid : ℕ) → IsDict (result p cid)) where
    handle-Good :
        (i : ℕ) (e : Event) (s : Cluster)
        → mem i peers ≡ true
        → Allowed result s.tokens (s.node i) i e
        → Inv s
        → Good peers result i (handle e (s.node i))
    unfolding handle recheck
    handle-Good i (on_message cid) s m h inv = on_data-Good peers result i cid _ (inv.nodes i)
    handle-Good i (on_eof cid n) s m h inv =
        on_upstream_eof-Good peers result i cid n _ (inv.nodes i)
    handle-Good i (report cid sent) s m h inv =
        report_sent-Good peers result dicts i cid sent _ m h (inv.nodes i)
    handle-Good i (token t) s m h inv =
        on_token-Good peers result dicts i _ t m (inv.nodes i)
          (Sent-TokenOk t s.tokens h.0 inv.tokens) h.1
    handle-Good i (abort cid) s m h inv = (drop-NodeOk peers result i cid _ (inv.nodes i), tt)
    handle-Good i resume s m h inv =
        recheck_from-Good peers result i (keys (s.node i).clients) _ (inv.nodes i)

    Step-Inv : {s t : Cluster} → Step peers result s t → Inv s → Inv t
    Step-Inv (act s i e m h) inv =
        let (node_ok, actions_ok) = handle-Good i e s m h inv in
        record {
          nodes = set_node-NodeOk s.node i _ node_ok inv.nodes;
          saved = inv.saved;
          tokens = forwarded-ok _ s.tokens actions_ok inv.tokens;
          eofs = closed-ok _ s.eofs actions_ok inv.eofs;
        }
    Step-Inv (checkpoint s i) inv = record {
      nodes = inv.nodes;
      saved = set_node-NodeOk s.saved i _ (inv.nodes i) inv.saved;
      tokens = inv.tokens;
      eofs = inv.eofs;
    }
    Step-Inv (crash s i) inv = record {
      nodes = set_node-NodeOk s.node i _ (inv.saved i) inv.nodes;
      saved = inv.saved;
      tokens = inv.tokens;
      eofs = inv.eofs;
    }

init-NodeOk :
    (npeers : ℕ) (result : ℕ → ℕ → Dict ℕ ℕ) (i : ℕ)
    → NodeOk (range_from 0 npeers) result i (init i (peer_ids npeers i))
unfolding init client peer_ids
init-NodeOk npeers result i = record {
  id = refl;
  size = omega (arith, length-range 0 npeers, length-without 0 npeers i);
  is_dict = tt;
  has_result = λ cid h. cc;
}

Reach-Inv :
    {npeers : ℕ} {result : ℕ → ℕ → Dict ℕ ℕ} {s : Cluster}
    → ((p cid : ℕ) → IsDict (result p cid))
    → Reach npeers result s
    → Inv (range_from 0 npeers) result s
unfolding start
Reach-Inv {npeers} {result} dicts here = record {
  nodes = init-NodeOk npeers result;
  saved = init-NodeOk npeers result;
  tokens = tt;
  eofs = tt;
}
Reach-Inv {npeers} {result} dicts (next r st) =
    Step-Inv (range_from 0 npeers) result dicts st (Reach-Inv dicts r)

-- In every reachable state of a ring of `npeers` nodes (messages, EOFs, aborts, restarts,
-- checkpoints and crashes in any order, tokens delivered any number of times), each EOF that was
-- sent downstream carries, for every shard, the sum of the counts that all the peers report for
-- that client. It is assumed that a node reports the same counts for a client each time, and that
-- a node whose client is still PROCESSING is not already in a token that reaches it.
pub downstream_eof_exact :
    {npeers : ℕ} {result : ℕ → ℕ → Dict ℕ ℕ} {s : Cluster}
    → ((p cid : ℕ) → IsDict (result p cid))
    → Reach npeers result s
    → All
        (λ (e : ℕ × Dict ℕ ℕ).
          (shard : ℕ)
          → count_of shard e.1 ≡ sum_of (λ p. count_of shard (result p e.0)) (range_from 0 npeers))
        s.eofs
downstream_eof_exact dicts r = (Reach-Inv dicts r).eofs
