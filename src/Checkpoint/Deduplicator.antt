-- ===== src/Checkpoint/Deduplicator.antt =====
-- src/common/checkpoint/deduplicator.py: the per-producer filter that keeps the highest
-- contiguous sequence number and the numbers seen ahead of a gap. A producer id (16 bytes) is a
-- number that is only compared.
pub mod Seen
pub mod Snapshot
use distribuidos_tp_money_la.Prelude.{
  ℕ, zero, suc, ◌+◌, Bool, true, false, ◌||◌, List, [], ◌∷◌, Option, none, some, ltb, leb,
  if◌then◌else◌, length, ◌==◌, nat_eq, ◌++◌,
}
use distribuidos_tp_money_la.Collections.Dict.{Dict, get, put, get_default, update, keys}
use distribuidos_tp_money_la.Collections.PySet.{mem, add, discard, union}

pub record Deduplicator : Type 0 where
  pub hi : Dict ℕ ℕ
  pub ahead : Dict ℕ (List ℕ)

unfoldable pub init : Deduplicator
init = record { hi = []; ahead = [] }

-- self._hi.get(producer_id, 0) and self._ahead.get(producer_id, ())
unfoldable pub hi_of : Deduplicator → ℕ → ℕ
unfolding get_default
hi_of d producer = get_default producer 0 d.hi

unfoldable pub ahead_of : Deduplicator → ℕ → List ℕ
unfolding get_default
ahead_of d producer = get_default producer [] d.ahead

unfoldable pub is_duplicate : Deduplicator → ℕ → ℕ → Bool
unfolding hi_of ahead_of mem
is_duplicate d producer seq =
    if seq == 0
    then false
    else if leb seq (hi_of d producer)
    then true
    else mem seq (ahead_of d producer)

-- while hi + 1 in ahead: hi += 1; ahead.discard(hi)
-- Each round takes a member out of `ahead`, so its length is fuel enough.
unfoldable pub advance : ℕ → ℕ → List ℕ → ℕ × List ℕ
unfolding mem discard
advance zero hi ahead = (hi, ahead)
advance (suc fuel) hi ahead =
    let next = advance fuel (hi + 1) (discard (hi + 1) ahead) in
    if mem (hi + 1) ahead then next else (hi, ahead)

unfoldable pub record_seq : Deduplicator → ℕ → ℕ → Deduplicator
unfolding hi_of ahead_of add advance put
record_seq d producer seq =
    let ahead0 = add seq (ahead_of d producer) in
    let (hi1, ahead1) = advance (length ahead0) (hi_of d producer) ahead0 in
    if seq == 0
    then d
    else if leb seq (hi_of d producer)
    then d
    else record { hi = put producer hi1 d.hi; ahead = put producer ahead1 d.ahead }

-- Python's `sorted`, on distinct numbers
unfoldable pub insert_sorted : ℕ → List ℕ → List ℕ
insert_sorted n [] = n ∷ []
insert_sorted n (m ∷ ms) = if leb n m then n ∷ m ∷ ms else m ∷ insert_sorted n ms

unfoldable pub sorted : List ℕ → List ℕ
unfolding insert_sorted
sorted [] = []
sorted (n ∷ ns) = insert_sorted n (sorted ns)

-- {producer: [hi, sorted(ahead)] for producer in set(hi) | set(ahead)}
unfoldable pub snapshot_from : Deduplicator → List ℕ → Dict ℕ (ℕ × List ℕ)
unfolding hi_of ahead_of sorted
snapshot_from d [] = []
snapshot_from d (producer ∷ rest) =
    (producer, (hi_of d producer, sorted (ahead_of d producer))) ∷ snapshot_from d rest

unfoldable pub snapshot : Deduplicator → Dict ℕ (ℕ × List ℕ)
unfolding snapshot_from keys union
snapshot d = snapshot_from d (union (union [] (keys d.hi)) (keys d.ahead))

unfoldable pub restore_from : Deduplicator → Dict ℕ (ℕ × List ℕ) → Deduplicator
unfolding put
restore_from d [] = d
restore_from d ((producer, (hi, ahead)) ∷ rest) =
    restore_from (record { hi = put producer hi d.hi; ahead = put producer ahead d.ahead }) rest

unfoldable pub restore : Dict ℕ (ℕ × List ℕ) → Deduplicator
unfolding restore_from init
restore snap = restore_from init snap
