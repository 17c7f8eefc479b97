-- ===== src/Ring/Cluster.antt =====
-- The nodes of one ring, their checkpoints, the barrier tokens in the broker and the EOFs sent
-- downstream (src/common/comms/eof_handler/ring_node.py runs the state machine of
-- ring_completion.py; the broker delivers a token any number of times and in any order).
pub mod Totals
pub mod Slots
pub mod Methods
pub mod Barrier
pub mod Safety
pub mod Once
pub mod Restarts
pub mod Silence
pub mod Aborted
use distribuidos_tp_money_la.Prelude.{
  ℕ, zero, suc, ◌+◌, ◌≡◌, true, none, List, [], ◌∷◌, ◌++◌, ◌==◌, nat_eq, if◌then◌else◌, ◌⊎◌,
}
use distribuidos_tp_money_la.Prelude.Int.{ℤ}
use distribuidos_tp_money_la.Collections.Dict.{Dict, get}
use distribuidos_tp_money_la.Collections.PySet.{mem}
use distribuidos_tp_money_la.Ring.Completion.{
  RingCompletion, BarrierToken, Action, emit, forward, downstream_eof, init, on_data,
  on_upstream_eof, report_sent, on_token, recheck, drop, client, is_processing,
}

-- What a node's state machine is fed. `report` carries the counts that the controller has after
-- it emitted the results of a client. `resume` is what a process does with its state once
-- `checkpointer.restore()` has given it back, which is the step `crash` below.
pub data Event : Type 0 where
  on_message : ℕ → Event
  on_eof : ℕ → ℤ → Event
  report : ℕ → Dict ℕ ℕ → Event
  token : BarrierToken → Event
  abort : ℕ → Event
  resume : Event

unfoldable pub handle : Event → RingCompletion → RingCompletion × List Action
handle (on_message cid) rc = on_data rc cid
handle (on_eof cid expected) rc = on_upstream_eof rc cid expected
handle (report cid sent) rc = report_sent rc cid sent
handle (token t) rc = on_token rc t
handle (abort cid) rc = (drop rc cid, [])
handle resume rc = recheck rc

abbrev pub forwarded : List Action → List BarrierToken
forwarded [] = []
forwarded (emit cid ∷ actions) = forwarded actions
forwarded (forward t ∷ actions) = t ∷ forwarded actions
forwarded (downstream_eof cid counts ∷ actions) = forwarded actions

abbrev pub closed : List Action → List (ℕ × Dict ℕ ℕ)
closed [] = []
closed (emit cid ∷ actions) = closed actions
closed (forward t ∷ actions) = closed actions
closed (downstream_eof cid counts ∷ actions) = (cid, counts) ∷ closed actions

pub record Cluster : Type 0 where
  pub node : ℕ → RingCompletion
  pub saved : ℕ → RingCompletion
  pub tokens : List BarrierToken
  pub eofs : List (ℕ × Dict ℕ ℕ)

abbrev pub set_node : (ℕ → RingCompletion) → ℕ → RingCompletion → ℕ → RingCompletion
set_node f i rc j = if i == j then rc else f j

-- range(n)
unfoldable pub range_from : ℕ → ℕ → List ℕ
range_from k zero = []
range_from k (suc n) = k ∷ range_from (k + 1) n

-- [i for i in range(npeers) if i != idx] (src/aggregate/main.py and the other mains)
unfoldable pub without : ℕ → List ℕ → List ℕ
without idx [] = []
without idx (i ∷ is) = let rest = without idx is in if i == idx then rest else i ∷ rest

unfoldable pub peer_ids : ℕ → ℕ → List ℕ
unfolding range_from without
peer_ids npeers idx = without idx (range_from 0 npeers)

-- Every node of the ring as it starts, with no checkpoint but its initial state.
unfoldable pub start : ℕ → Cluster
unfolding init peer_ids
start npeers = record {
  node = λ i. init i (peer_ids npeers i);
  saved = λ i. init i (peer_ids npeers i);
  tokens = [];
  eofs = [];
}

-- A token was sent before.
abbrev pub Sent : BarrierToken → List BarrierToken → Type 0
Sent t [] = ⊥
Sent t (u ∷ us) = (t ≡ u) ⊎ Sent t us

-- What the outside can do: a reported count is the one that the node always computes for the
-- client; a token was sent before; and a node that still waits for a client's input is not in the
-- token, which means that no crash took it back behind its own report.
abbrev pub Allowed : (ℕ → ℕ → Dict ℕ ℕ) → List BarrierToken → RingCompletion → ℕ → Event → Type 0
Allowed result tokens rc i (report cid sent) = sent ≡ result i cid
Allowed result tokens rc i (token t) =
    Sent t tokens × (is_processing (client rc t.client_id).phase ≡ true → get i t.sent_by ≡ none)
Allowed result tokens rc i _ = Unit {0}

pub data Step (peers : List ℕ) (result : ℕ → ℕ → Dict ℕ ℕ) : Cluster → Cluster → Type 0 where
  act :
      (s : Cluster) (i : ℕ) (e : Event)
      → mem i peers ≡ true
      → Allowed result s.tokens (s.node i) i e
      → Step peers result s (record s {
        node = set_node s.node i (handle e (s.node i)).0;
        tokens = forwarded (handle e (s.node i)).1 ++ s.tokens;
        eofs = closed (handle e (s.node i)).1 ++ s.eofs;
      })
  checkpoint :
      (s : Cluster) (i : ℕ)
      → Step peers result s (record s { saved = set_node s.saved i (s.node i) })
  crash :
      (s : Cluster) (i : ℕ)
      → Step peers result s (record s { node = set_node s.node i (s.saved i) })

pub data Reach (npeers : ℕ) (result : ℕ → ℕ → Dict ℕ ℕ) : Cluster → Type 0 where
  here : Reach npeers result (start npeers)
  next :
      {s t : Cluster}
      → Reach npeers result s
      → Step (range_from 0 npeers) result s t
      → Reach npeers result t
