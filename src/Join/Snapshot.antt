-- ===== src/Join/Snapshot.antt =====
-- The saved form of the counts of a join (`_JoinCounts` of src/join/join_route_handler.py): what
-- its checkpointer asks of them. The text of an id is the number.
use distribuidos_tp_money_la.Prelude.{ℕ, ◌≡◌, List, nat_eq, [], refl}
use distribuidos_tp_money_la.Prelude.Int.{ℤ}
use distribuidos_tp_money_la.Collections.Dict.{Dict, update}
use distribuidos_tp_money_la.Collections.Dict.Laws.{IsDict, update-nil}
use distribuidos_tp_money_la.Collections.PySet.{set_of, NoRepeat, set_of-NoRepeat}
use distribuidos_tp_money_la.Checkpoint.Snapshotable.{Snapshotable}
use distribuidos_tp_money_la.Join.{JoinCounts}

pub record SavedCounts : Type 0 where
  pub received : Dict ℕ ℕ
  pub expected : Dict ℕ ℤ
  pub finalized : List ℕ

unfoldable pub snapshot_state : JoinCounts → SavedCounts
unfolding update
snapshot_state k = record {
  received = update [] k.received;
  expected = update [] k.expected;
  finalized = k.finalized;
}

unfoldable pub restore_state : JoinCounts → SavedCounts → JoinCounts
unfolding update set_of
restore_state k saved = record {
  received = update [] saved.received;
  expected = update [] saved.expected;
  finalized = set_of saved.finalized;
}

-- what Python's dicts and sets guarantee
abbrev pub IsCounts : JoinCounts → Type 0
IsCounts k = IsDict k.received × (IsDict k.expected × NoRepeat k.finalized)

-- The counts come back as they were saved.
pub restore_state-snapshot_state :
    (old k : JoinCounts) → IsCounts k → restore_state old (snapshot_state k) ≡ k
unfolding restore_state snapshot_state
restore_state-snapshot_state old k (received, (expected, finalized)) =
    rw (update-nil k.received received, update-nil k.expected expected)
      (rw
        (
          update-nil k.received received,
          update-nil k.expected expected,
          set_of-NoRepeat k.finalized finalized,
        )
        refl)

-- `Snapshotable`, as `_JoinCounts` fills it; it has no files
unfoldable pub join_counts : Snapshotable JoinCounts
unfolding snapshot_state restore_state
join_counts = record {
  Snapshot = SavedCounts;
  Valid = IsCounts;
  snapshot_state = snapshot_state;
  restore_state = restore_state;
  clear_stale = λ k. k;
  restore-snapshot = restore_state-snapshot_state;
}
