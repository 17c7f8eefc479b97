-- ===== src/Ring/Snapshots.antt =====
-- The saved forms of the counts of a stateless node and of a merge (`SentCounts` of
-- src/common/comms/eof_handler/sent_counts.py, `MergeEofCounts` of src/merge/ring_merge.py): what
-- their checkpointers ask of them. The text of an id or of a shard is the number.
use distribuidos_tp_money_la.Prelude.{ℕ, ◌≡◌, refl, ap₂, [], ◌∷◌, map, All, nat_eq}
use distribuidos_tp_money_la.Collections.Dict.{Dict, update}
use distribuidos_tp_money_la.Collections.Dict.Laws.{IsDict, update-nil}
use distribuidos_tp_money_la.Checkpoint.Snapshotable.{Snapshotable}
use distribuidos_tp_money_la.Ring.SentCounts.{SentCounts}
use distribuidos_tp_money_la.Ring.Merge.{MergeEofCounts}

-- {str(s): n for s, n in shards.items()}
abbrev pub copy_shards : ℕ × Dict ℕ ℕ → ℕ × Dict ℕ ℕ
copy_shards e = (e.0, update [] e.1)

unfoldable pub snapshot_sent : SentCounts → SentCounts
unfolding update
snapshot_sent counts = update [] (map copy_shards counts)

unfoldable pub restore_sent : SentCounts → SentCounts → SentCounts
unfolding update
restore_sent counts saved = update [] (map copy_shards saved)

abbrev pub IsSentCounts : SentCounts → Type 0
IsSentCounts counts = IsDict counts × All (λ (e : ℕ × Dict ℕ ℕ). IsDict e.1) counts

copied :
    (counts : SentCounts)
    → All (λ (e : ℕ × Dict ℕ ℕ). IsDict e.1) counts
    → map copy_shards counts ≡ counts
copied [] h = refl
copied ((cid, shards) ∷ counts) (d, h) =
    ap₂ (λ s l. (cid, s) ∷ l) (update-nil shards d) (copied counts h)

-- The counts of every client and shard come back as they were saved.
pub restore_sent-snapshot_sent :
    (old counts : SentCounts)
    → IsSentCounts counts
    → restore_sent old (snapshot_sent counts) ≡ counts
unfolding restore_sent snapshot_sent
restore_sent-snapshot_sent old counts (d, inner) =
    rw (copied counts inner)
      (rw (update-nil counts d) (rw (copied counts inner) (update-nil counts d)))

-- `Snapshotable`, as `SentCounts` fills it; it has no files
unfoldable pub sent_counts : Snapshotable SentCounts
unfolding snapshot_sent restore_sent
sent_counts = record {
  Snapshot = SentCounts;
  Valid = IsSentCounts;
  snapshot_state = snapshot_sent;
  restore_state = restore_sent;
  clear_stale = λ counts. counts;
  restore-snapshot = restore_sent-snapshot_sent;
}

unfoldable pub snapshot_eofs : MergeEofCounts → MergeEofCounts
unfolding update
snapshot_eofs counts = record { left = update [] counts.left; right = update [] counts.right }

unfoldable pub restore_eofs : MergeEofCounts → MergeEofCounts → MergeEofCounts
unfolding update
restore_eofs counts saved = record { left = update [] saved.left; right = update [] saved.right }

-- Both sides' counts come back as they were saved.
pub restore_eofs-snapshot_eofs :
    (old counts : MergeEofCounts)
    → IsDict counts.left × IsDict counts.right
    → restore_eofs old (snapshot_eofs counts) ≡ counts
unfolding restore_eofs snapshot_eofs
restore_eofs-snapshot_eofs old counts (l, r) =
    rw (update-nil counts.left l, update-nil counts.right r)
      (rw (update-nil counts.left l, update-nil counts.right r) refl)

-- and as `MergeEofCounts` fills it
unfoldable pub merge_eof_counts : Snapshotable MergeEofCounts
unfolding snapshot_eofs restore_eofs
merge_eof_counts = record {
  Snapshot = MergeEofCounts;
  Valid = λ counts. IsDict counts.left × IsDict counts.right;
  snapshot_state = snapshot_eofs;
  restore_state = restore_eofs;
  clear_stale = λ counts. counts;
  restore-snapshot = restore_eofs-snapshot_eofs;
}
