-- ===== src/Tests/UseCaseRuns.antt =====
-- Runs of the use cases' functions, of a merge, a filter and a spill.
use distribuidos_tp_money_la.Prelude.{
  ℕ, ◌+◌, ◌≡◌, refl, true, List, [], ◌∷◌, ◌++◌, nat_eq, replicate, max,
}
use distribuidos_tp_money_la.Collections.Dict.{get, get_default}
use distribuidos_tp_money_la.UseCases.MaxAmount.{Payment, Maxes}
use distribuidos_tp_money_la.UseCases.MaxAmount.Levels.{
  size, add_batches, largest_of_all, add_batches-size,
}
use distribuidos_tp_money_la.UseCases.Filters.{Transfer, uc4_keep, uc3_keep_period_a}
use distribuidos_tp_money_la.UseCases.Filters.Periods.{uc4_keep-uc3_keep_period_a}
use distribuidos_tp_money_la.UseCases.Responses.{concat, stream_responses, LineSpill}
use distribuidos_tp_money_la.UseCases.Responses.Chunks.{
  response_text, last_marked, stream_responses-text,
}
use distribuidos_tp_money_la.Ring.Completion
use distribuidos_tp_money_la.Ring.Completion.{RingCompletion}
use distribuidos_tp_money_la.Ring.SentCounts.{SentCounts}
use distribuidos_tp_money_la.Ring.Node.{RingNode}
use distribuidos_tp_money_la.Ring.Node.Reports.{messages_to}
use distribuidos_tp_money_la.Ring.Merge.{MergeEofCounts, emit_merged}
use distribuidos_tp_money_la.Ring.Merge.Eofs.{emit_merged-counts}
use distribuidos_tp_money_la.Ring.Filter.{Stamped}
use distribuidos_tp_money_la.Checkpoint.Spill.{PersistentSpill, restore_state}
use distribuidos_tp_money_la.Checkpoint.Spill.Truncation.{
  on_disk, appended, flushed, run_writes, restore_state-truncates,
}

abbrev payment : ℕ → ℕ → Payment
payment bank amount = record { from_bank = bank; from_account = 1; amount_paid = amount }

abbrev batches : List (List Payment)
batches = (payment 4 10 ∷ payment 5 7 ∷ []) ∷ (payment 4 12 ∷ []) ∷ []

abbrev nothing_yet : Maxes
nothing_yet = []

add_batches-size_example :
    size (get 4 (add_batches nothing_yet batches))
    ≡ max (size (get 4 nothing_yet)) (largest_of_all 4 batches)
add_batches-size_example = add_batches-size 4 batches nothing_yet

abbrev lines : LineSpill
lines = (7, (65 ∷ 10 ∷ []) ∷ (66 ∷ 10 ∷ []) ∷ (67 ∷ 10 ∷ []) ∷ []) ∷ []

stream_responses-text_example :
    (response_text (stream_responses lines 7 (72 ∷ []) 2)
      ≡ (72 ∷ []) ++ (concat (get_default 7 [] lines) ++ 10 ∷ []))
    × (last_marked (stream_responses lines 7 (72 ∷ []) 2) ≡ true)
stream_responses-text_example = stream_responses-text lines 7 2 (72 ∷ [])

abbrev no_eofs : MergeEofCounts
no_eofs = record { left = []; right = [] }

abbrev fresh : RingCompletion
fresh = Completion.init 0 (1 ∷ [])

abbrev node : {M : Type 0} → RingNode SentCounts M
node = record { rc = fresh; fn = []; external_txs = 3; sent = [] }

abbrev results : List ℕ
results = 10 ∷ 20 ∷ 30 ∷ 40 ∷ []

abbrev merge_node : RingNode SentCounts ℕ
merge_node = node

emit_merged-counts_example :
    messages_to 0 (emit_merged 0 results (merge_node, [])).0.sent
    ≡ messages_to 0 merge_node.sent + get_default 0 0 (emit_merged 0 results (merge_node, [])).1
emit_merged-counts_example = emit_merged-counts 0 results merge_node

abbrev stamped : Stamped ℕ
stamped = record { client_id = 7; producer_id = replicate 16 2; seq = 5; content = 9 }

abbrev filter_node : RingNode SentCounts (Stamped ℕ)
filter_node = node

abbrev halves : List (ℕ × (ℕ → ℕ))
halves = (2, λ n. n) ∷ []

abbrev whole : List (ℕ → ℕ)
whole = (λ n. 0) ∷ []

-- two characters of client 7 are committed
abbrev committed_spill : PersistentSpill
committed_spill = record { files = (7, 1 ∷ 2 ∷ []) ∷ []; handles = (7, []) ∷ [] }

restore_state-truncates_example :
    on_disk 7 (
      restore_state
        ((7, 2) ∷ [])
        (run_writes (appended 7 (3 ∷ []) ∷ flushed 7 ∷ []) committed_spill))
    ≡ on_disk 7 committed_spill
restore_state-truncates_example =
    restore_state-truncates 7 ((7, 2) ∷ []) committed_spill (appended 7 (3 ∷ []) ∷ flushed 7 ∷ [])
      (tt, tt) (unfold get get_default in refl)

abbrev transfer : Transfer ℕ
transfer = record {
  timestamp = record { date = 738403; seconds = 86399 };
  amount_paid = 3;
  payment_currency = "US Dollar";
  payment_format = "Wire";
}

uc4_keep-uc3_keep_period_a_example : uc4_keep transfer ≡ uc3_keep_period_a transfer
uc4_keep-uc3_keep_period_a_example = uc4_keep-uc3_keep_period_a transfer
