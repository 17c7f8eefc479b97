-- ===== src/Ring/Topology.antt =====
-- `_get_front_back_ids` of src/common/comms/middleware/ring_rabbitmq.py: the neighbours of a peer.
use distribuidos_tp_money_la.Prelude.{
  ℕ, ◌+◌, ◌-◌, ◌%◌, Option, none, some, List, [], ◌∷◌, ltb, length, get_elem?, if◌then◌else◌,
  nat_eq,
}
use distribuidos_tp_money_la.Collections.PySet.{mem}
use distribuidos_tp_money_la.Checkpoint.Deduplicator.{sorted}

-- the loop: the index of the first peer that is greater, and 0 if there is none
unfoldable pub front_index : ℕ → ℕ → List ℕ → ℕ
front_index self_id idx [] = 0
front_index self_id idx (p ∷ peers) =
    let rest = front_index self_id (idx + 1) peers in if ltb self_id p then idx else rest

-- a pair of elements, where both indices are in range
abbrev pub both : Option ℕ → Option ℕ → Option (ℕ × ℕ)
both none b = none
both (some a) none = none
both (some a) (some b) = some (a, b)

-- two peers or more, sorted
unfoldable pub front_back_of : ℕ → List ℕ → Option (ℕ × ℕ)
unfolding front_index
front_back_of self_id peers =
    let front_idx = front_index self_id 0 peers in
    let back_idx = (length peers + front_idx - 1) % length peers in
    both (get_elem? peers front_idx) (get_elem? peers back_idx)

-- the sorted peers by their number
unfoldable pub neighbours : ℕ → List ℕ → Option (ℕ × ℕ)
unfolding front_back_of
neighbours self_id [] = some (self_id, self_id)
neighbours self_id (p ∷ []) = some (p, p)
neighbours self_id (p ∷ q ∷ peers) = front_back_of self_id (p ∷ q ∷ peers)

-- `none` where the function raises MOMRingError
unfoldable pub get_front_back_ids : ℕ → List ℕ → Option (ℕ × ℕ)
unfolding neighbours mem sorted
get_front_back_ids self_id peer_ids =
    if mem self_id peer_ids then none else neighbours self_id (sorted peer_ids)
