-- ===== src/Tests/CheckpointRuns.antt =====
-- Runs of a checkpointed node (checkpointer.py, deduplicator.py).
use distribuidos_tp_money_la.Prelude.{
  ℕ, suc, ◌+◌, ◌≡◌, refl, true, false, not, ◌&&◌, [], ◌∷◌, nat_eq,
}
use distribuidos_tp_money_la.Collections.PySet.{add}
use distribuidos_tp_money_la.Checkpoint.Deduplicator
use distribuidos_tp_money_la.Checkpoint.Deduplicator.{Deduplicator, is_duplicate, hi_of, ahead_of}
use distribuidos_tp_money_la.Checkpoint.Deduplicator.Seen.{
  record_all, recorded, is_duplicate-record_all, in_order, in_order-slot,
}
use distribuidos_tp_money_la.Checkpoint.Deduplicator.Snapshot.{is_duplicate-restore}
use distribuidos_tp_money_la.Checkpoint.Snapshotable.{Snapshotable}
use distribuidos_tp_money_la.Checkpoint.Checkpointer.{
  State, after_apply, init, checkpoint_and_flush, restore,
}
use distribuidos_tp_money_la.Checkpoint.Checkpointer.World.{Setup, crash}

is_duplicate-record_all_example :
    is_duplicate (record_all Deduplicator.init ((1, 3) ∷ (1, 1) ∷ (2, 2) ∷ [])) 1 2
    ≡ (not false && recorded 1 2 ((1, 3) ∷ (1, 1) ∷ (2, 2) ∷ []))
is_duplicate-record_all_example = is_duplicate-record_all ((1, 3) ∷ (1, 1) ∷ (2, 2) ∷ []) 1 2

in_order-slot_example : (hi_of (in_order 5 4) 5 ≡ 4) × (ahead_of (in_order 5 4) 5 ≡ [])
in_order-slot_example = in_order-slot 5 4

-- a gap at 2
abbrev gapped : Deduplicator
gapped = record { hi = (1, 1) ∷ []; ahead = (1, 4 ∷ 3 ∷ []) ∷ [] }

is_duplicate-restore_example :
    is_duplicate (Deduplicator.restore (Deduplicator.snapshot gapped)) 1 3 ≡ is_duplicate gapped 1 3
is_duplicate-restore_example = is_duplicate-restore gapped 1 3

-- a counter, saved as it is
abbrev counter : Snapshotable ℕ
counter = record {
  Snapshot = ℕ;
  Valid = λ _. Unit {0};
  snapshot_state = λ n. n;
  restore_state = λ _ n. n;
  clear_stale = λ n. n;
  restore-snapshot = λ old s v. refl;
}

-- the node adds up the contents; delivery `t` is message `t` of producer 9
abbrev adder : Setup ℕ ℕ ℕ
adder = record {
  node0 = record { fn = 0; seqs = []; extra = [] };
  every = 2;
  process = λ m n. record n { fn = n.fn + m.content };
  discard = λ cid n. record n { fn = 0 };
  control = λ k n. n;
  msg = λ t. record { client_id = 1; producer_id = 9; seq = suc t; content = t };
}

abbrev began : State counter counter
began = init counter counter adder.node0 adder.every

-- message 3 is processed, saved and acknowledged
abbrev delivered : State counter counter
delivered =
    after_apply counter counter 9 4 3
      (record began { node = record adder.node0 { fn = 3 }; locked = true })

abbrev saved_state : State counter counter
saved_state = checkpoint_and_flush counter counter true delivered

-- the acknowledgement is lost in a crash
abbrev crashed : State counter counter
crashed = crash counter counter adder 1 saved_state

-- then the client is aborted
abbrev ended : State counter counter
ended = checkpoint_and_flush counter counter true (record crashed {
  node = record crashed.node { fn = 0 };
  aborted = add 1 crashed.aborted;
  dirty = true;
})
