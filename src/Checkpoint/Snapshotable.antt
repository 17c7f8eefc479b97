-- ===== src/Checkpoint/Snapshotable.antt =====
-- The protocol `Snapshotable` of src/common/checkpoint/checkpointer.py: what the checkpointer asks
-- of a state, and the law on which recovery rests. The states of the controllers fill it.
use distribuidos_tp_money_la.Prelude.{◌≡◌}

pub record Snapshotable (S : Type 0) : Type 1 where
  pub Snapshot : Type 0
  -- the well-formed values, such as dicts without repeated keys
  pub Valid : S → Type 0
  pub snapshot_state : S → Snapshot
  -- it overwrites the object that it is called on
  pub restore_state : S → Snapshot → S
  -- `clear_stale_spill`, where the class has it: nothing else
  pub clear_stale : S → S
  pub restore-snapshot : (old s : S) → Valid s → restore_state old (snapshot_state s) ≡ s
