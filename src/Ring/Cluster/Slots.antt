-- ===== src/Ring/Cluster/Slots.antt =====
-- What a node, a token, an action and an EOF of the ring have to satisfy (ring_completion.py), for
-- the counts `result` that each peer sends for each client.
use distribuidos_tp_money_la.Prelude.{
  ℕ, ◌≤◌, ◌≡◌, refl, sym, ◌∙◌, subst, Bool, true, false, List, [], ◌∷◌, arith, ◌==◌, nat_eq, none,
  ◌≢◌, if◌then◌else◌, All, length,
}
use distribuidos_tp_money_la.Collections.Dict.{get, Dict, values}
use distribuidos_tp_money_la.Collections.Dict.Laws.{IsDict}
use distribuidos_tp_money_la.Collections.PySet.{mem}
use distribuidos_tp_money_la.Ring.Completion.{
  RingCompletion, Client, BarrierToken, Action, emit, forward, downstream_eof, client,
  is_processing, add_all_counts,
}
use distribuidos_tp_money_la.Ring.Completion.Counts.{count_of, sum_of, count_of-total}
use distribuidos_tp_money_la.Ring.Cluster.Totals.{KeysIn, sum_of_keys}

module _ (peers : List ℕ) (result : ℕ → ℕ → Dict ℕ ℕ) where
  -- A client that has left PROCESSING holds the counts of its result.
  abbrev pub HasResult : ℕ → ℕ → Client → Type 0
  HasResult i cid c = is_processing c.phase ≡ false → c.sent ≡ result i cid

  pub record NodeOk (i : ℕ) (rc : RingCompletion) : Type 0 where
    pub id : rc.node_id ≡ i
    pub size : length peers ≤ rc.n_nodes
    pub is_dict : IsDict rc.clients
    pub has_result : (cid : ℕ) → HasResult i cid (client rc cid)

  abbrev pub SlotsOk : ℕ → Dict ℕ (Dict ℕ ℕ) → Type 0
  SlotsOk cid d = All (λ e. (mem e.0 peers ≡ true) × (e.1 ≡ result e.0 cid)) d

  pub record TokenOk (t : BarrierToken) : Type 0 where
    pub is_dict : IsDict t.sent_by
    pub slots : SlotsOk t.client_id t.sent_by

  -- The count of each shard is the total over all peers.
  abbrev pub EofOk : ℕ × Dict ℕ ℕ → Type 0
  EofOk e = (shard : ℕ) → count_of shard e.1 ≡ sum_of (λ p. count_of shard (result p e.0)) peers

  abbrev pub ActionOk : Action → Type 0
  ActionOk (emit cid) = Unit {0}
  ActionOk (forward t) = TokenOk t
  ActionOk (downstream_eof cid counts) = EofOk (cid, counts)

  SlotsOk-KeysIn : (cid : ℕ) (d : Dict ℕ (Dict ℕ ℕ)) → SlotsOk cid d → KeysIn peers d
  SlotsOk-KeysIn cid [] h = tt
  SlotsOk-KeysIn cid ((p, s) ∷ d) h = ((h.0).0, SlotsOk-KeysIn cid d h.1)

  module _ (is_dict : (p cid : ℕ) → IsDict (result p cid)) where
    All-values : (cid : ℕ) (d : Dict ℕ (Dict ℕ ℕ)) → SlotsOk cid d → All IsDict (values d)
    unfolding values
    All-values cid [] h = tt
    All-values cid ((p, s) ∷ d) h =
        (subst IsDict (sym (h.0).1) (is_dict p cid), All-values cid d h.1)

    sum_of-values :
        (cid shard : ℕ) (d : Dict ℕ (Dict ℕ ℕ))
        → SlotsOk cid d
        → sum_of (count_of shard) (values d)
          ≡ sum_of (λ (e : ℕ × Dict ℕ ℕ). count_of shard (result e.0 cid)) d
    unfolding values
    sum_of-values cid shard [] h = refl
    sum_of-values cid shard ((p, s) ∷ d) h = ground (arith, sum_of-values cid shard d h.1, (h.0).1)

    -- A token with a slot for every peer has the totals.
    pub full-EofOk :
        (t : BarrierToken)
        → TokenOk t
        → length peers ≤ length t.sent_by
        → EofOk (t.client_id, add_all_counts [] (values t.sent_by))
    full-EofOk t ok le shard =
        count_of-total shard (values t.sent_by) (All-values t.client_id t.sent_by ok.slots)
        ∙ (sum_of-values t.client_id shard t.sent_by ok.slots
            ∙ sum_of_keys (λ p. count_of shard (result p t.client_id)) peers t.sent_by ok.is_dict
                (SlotsOk-KeysIn t.client_id t.sent_by ok.slots) le)

  is_one : ℕ → ℕ → ℕ
  is_one i p = if p == i then 1 else 0

  sum_of-zero :
      (i : ℕ) (d : Dict ℕ (Dict ℕ ℕ))
      → get i d ≡ none
      → sum_of (λ (e : ℕ × Dict ℕ ℕ). is_one i e.0) d ≡ 0
  unfolding get is_one
  sum_of-zero i [] h = refl
  sum_of-zero i ((p, s) ∷ d) h = ground (arith, sum_of-zero i d)

  sum_of-pos : (i : ℕ) (ids : List ℕ) → mem i ids ≡ true → 1 ≤ sum_of (is_one i) ids
  unfolding mem is_one
  sum_of-pos i [] h = absurd (ground arith)
  sum_of-pos i (p ∷ ids) h = ground (arith, sum_of-pos i ids)

  -- A full token has the node's own slot.
  own_slot :
      (i : ℕ) (t : BarrierToken)
      → mem i peers ≡ true
      → TokenOk t
      → length peers ≤ length t.sent_by
      → get i t.sent_by ≢ none
  own_slot i t here ok le empty = absurd (
      omega (
        arith,
        sum_of-zero i t.sent_by empty,
        sum_of-pos i peers here,
        sum_of_keys (is_one i) peers t.sent_by ok.is_dict
            (SlotsOk-KeysIn t.client_id t.sent_by ok.slots) le,
      ))

  pub left_processing :
      (i : ℕ) (t : BarrierToken)
      → mem i peers ≡ true
      → TokenOk t
      → length peers ≤ length t.sent_by
      → (b : Bool) → (b ≡ true → get i t.sent_by ≡ none)
      → b ≡ false
  left_processing i t here ok le true own = absurd (own_slot i t here ok le (own refl))
  left_processing i t here ok le false own = refl
