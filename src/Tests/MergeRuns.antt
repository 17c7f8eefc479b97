-- ===== src/Tests/MergeRuns.antt =====
-- Runs of the merges of use cases 3 and 4.
use distribuidos_tp_money_la.Prelude.{
  ℕ, ◌≤◌, ◌≡◌, ◌&&◌, [], ◌∷◌, All, length, if◌then◌else◌, nat_eq, arith,
}
use Prim.Native.String.{String}
use distribuidos_tp_money_la.Collections.Dict.{get, get_default}
use distribuidos_tp_money_la.Collections.PySet.{mem}
use distribuidos_tp_money_la.UseCases.Filters.{filter}
use distribuidos_tp_money_la.UseCases.Prune
use distribuidos_tp_money_la.UseCases.Prune.{Prune, Limits}
use distribuidos_tp_money_la.UseCases.Prune.Tiles.{graph_hits, all_hits}
use distribuidos_tp_money_la.UseCases.Prune.Pairs.{get_result-pairs}
use distribuidos_tp_money_la.UseCases.AverageMerge
use distribuidos_tp_money_la.UseCases.AverageMerge.{AverageMerge}
use distribuidos_tp_money_la.UseCases.AverageMerge.Batches.{
  all_transactions, has_average, FitsChunk, get_result-batches,
}

-- a hub that is tiled, two by two
abbrev limits : Limits
limits = record { split_threshold = 3; chunk_size = 10; root = λ p s. 2 }

abbrev hub : Prune
hub = record {
  hi_out = (1, 10 ∷ 11 ∷ 12 ∷ []) ∷ [];
  hi_in = (1, 20 ∷ 21 ∷ 22 ∷ []) ∷ [];
  spill = (1, (7, (10 ∷ 11 ∷ 12 ∷ 13 ∷ [], 20 ∷ 21 ∷ 22 ∷ 23 ∷ [])) ∷ []) ∷ [];
}

get_result-pairs_example : all_hits 7 12 21 (Prune.get_result limits 1 hub).1 ≡ (
    if mem 12 (get_default 1 [] hub.hi_out) && mem 21 (get_default 1 [] hub.hi_in)
    then graph_hits 7 12 21 (get_default 1 [] hub.spill)
    else 0)
unfolding get_default get
get_result-pairs_example = get_result-pairs limits 1 hub 7 12 21 (tt, tt)

abbrev formats : AverageMerge String ℕ
formats = record {
  spill = (1, "Wire" ∷ "Cash" ∷ "ACH" ∷ []) ∷ [];
  averages = (1, ("Wire", 5) ∷ ("ACH", 6) ∷ []) ∷ [];
}

abbrev same : String → String
same f = f

get_result-batches_example :
    (all_transactions (AverageMerge.get_result same 1 1 formats).1
      ≡ filter
          (has_average same 1 (get_default 1 [] formats.averages))
          (get_default 1 [] formats.spill))
    × All
        (FitsChunk 1 (get_default 1 [] formats.averages))
        (AverageMerge.get_result same 1 1 formats).1
    × (1 ≤ length (AverageMerge.get_result same 1 1 formats).1)
get_result-batches_example = get_result-batches same 1 1 formats (omega arith)
