-- ===== src/Ring/Merge.antt =====
-- src/merge/ring_merge.py: a controller with two inputs, each with its own EOF count. The node
-- expects the sum, known once both EOFs have come.
pub mod Eofs
use distribuidos_tp_money_la.Prelude.{
  ℕ, zero, suc, ◌+◌, ◌%◌, Bool, true, false, Option, none, some, List, [], ◌∷◌, ◌++◌, if◌then◌else◌,
  ◌==◌, nat_eq,
}
use distribuidos_tp_money_la.Prelude.Int.{ℤ, pos}
use distribuidos_tp_money_la.Collections.Dict.{Dict, get, put, pop, get_default}
use distribuidos_tp_money_la.Ring.Completion.{RingCompletion, Action, on_upstream_eof}
use distribuidos_tp_money_la.Ring.Node.{message, RingNode, send, Controller}

-- `MergeEofCounts`
pub record MergeEofCounts : Type 0 where
  pub left : Dict ℕ ℕ
  pub right : Dict ℕ ℕ

-- `MergeEofCounts.drop`
unfoldable pub drop_counts : ℕ → MergeEofCounts → MergeEofCounts
unfolding pop
drop_counts cid counts = record { left = pop cid counts.left; right = pop cid counts.right }

-- the sum, when both counts are known
abbrev pub combined : Option ℕ → Option ℕ → Option ℕ
combined none r = none
combined (some l) none = none
combined (some l) (some r) = some (l + r)

-- what `_maybe_complete` feeds to the completion state machine
abbrev pub feed : RingCompletion → ℕ → Option ℕ → RingCompletion × List Action
feed rc cid none = (rc, [])
feed rc cid (some n) = on_upstream_eof rc cid (pos n)

-- `_maybe_complete`, up to the run of the actions
unfoldable pub maybe_complete : ℕ → MergeEofCounts → RingCompletion → RingCompletion × List Action
unfolding get
maybe_complete cid counts rc = feed rc cid (combined (get cid counts.left) (get cid counts.right))

-- `_on_left_eof` and `_on_right_eof`
unfoldable pub on_left_eof :
    ℕ → ℕ → MergeEofCounts → RingCompletion → MergeEofCounts × (RingCompletion × List Action)
unfolding put maybe_complete
on_left_eof cid expected counts rc =
    let counts1 = record counts { left = put cid expected counts.left } in
    (counts1, maybe_complete cid counts1 rc)

unfoldable pub on_right_eof :
    ℕ → ℕ → MergeEofCounts → RingCompletion → MergeEofCounts × (RingCompletion × List Action)
unfolding put maybe_complete
on_right_eof cid expected counts rc =
    let counts1 = record counts { right = put cid expected counts.right } in
    (counts1, maybe_complete cid counts1 rc)

-- the state of the controller: the merge function's, and the counts
pub record MergeState (F : Type 0) : Type 0 where
  pub fn : F
  pub counts : MergeEofCounts

-- the loop of `_emit`: the results in round-robin order, from the `i`-th one on
unfoldable pub emit_merged :
    {F M : Type 0} → ℕ → List M → RingNode F M × Dict ℕ ℕ → RingNode F M × Dict ℕ ℕ
unfolding send put get_default
emit_merged i [] (node, sent) = (node, sent)
emit_merged i (m ∷ results) (node, sent) =
    let shard = i % node.external_txs in
    emit_merged (i + 1) results
      (send (message shard m) node, put shard (get_default shard 0 sent + 1) sent)

-- `_discard` and `_free`
unfoldable pub discard_client : {F : Type 0} → (ℕ → F → F) → ℕ → MergeState F → MergeState F
unfolding drop_counts
discard_client discard cid s = record { fn = discard cid s.fn; counts = drop_counts cid s.counts }

-- `RingMerge`, over a merge function: its results, and what drops a client's state
unfoldable pub ring_merge :
    {F M : Type 0} → (ℕ → F → List M) → (ℕ → F → F) → Controller (MergeState F) M
unfolding emit_merged discard_client
ring_merge get_result discard = record {
  emit_result = λ cid node. emit_merged 0 (get_result cid node.fn.fn) (node, []);
  discard = discard_client discard;
  free = discard_client discard;
}
