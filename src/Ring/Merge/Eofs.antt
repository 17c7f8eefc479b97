-- ===== src/Ring/Merge/Eofs.antt =====
-- The two EOFs of a merge (ring_merge.py), and the counts that it reports.
use distribuidos_tp_money_la.Prelude.{ℕ, ◌+◌, ◌%◌, ◌≡◌, refl, List, [], ◌∷◌, nat_eq, arith}
use distribuidos_tp_money_la.Collections.Dict.{Dict, put, get_default}
use distribuidos_tp_money_la.Ring.Node.{message, RingNode, send}
use distribuidos_tp_money_la.Ring.Node.Reports.{
  messages_to, Balanced, one-Balanced, get_default_nil,
}
use distribuidos_tp_money_la.Ring.Merge.{emit_merged}

module _ {F M : Type 0} where
  emit_merged-Balanced :
      (shard i : ℕ) (results : List M) (node : RingNode F M) (sent : Dict ℕ ℕ)
      → Balanced shard (node, sent) (emit_merged i results (node, sent))
  unfolding emit_merged
  emit_merged-Balanced shard i [] node sent = refl
  emit_merged-Balanced shard i (m ∷ results) node sent =
      let at = i % node.external_txs in
      omega (
        arith,
        one-Balanced shard at m node sent,
        emit_merged-Balanced shard (i + 1) results (send (message at m) node)
            (put at (get_default at 0 sent + 1) sent),
      )

  -- The counts that a merge reports for a client are, for every shard, the number of messages that
  -- emitting the client's results in round-robin order added to that shard.
  pub emit_merged-counts :
      (shard : ℕ) (results : List M) (node : RingNode F M)
      → messages_to shard (emit_merged 0 results (node, [])).0.sent
        ≡ messages_to shard node.sent + get_default shard 0 (emit_merged 0 results (node, [])).1
  emit_merged-counts shard results node =
      omega (arith, emit_merged-Balanced shard 0 results node [], get_default_nil shard)
