-- ===== src/UseCases/Prune.antt =====
-- Use case 4, the pruning of the graph: src/merge/merge_fns/uc4_prune.py. A line of the spill
-- (src/common/checkpoint/persistent_spill.py) is the entry that json.loads gives back. Nodes are
-- numbers that are only compared; a set is listed in the order in which it is iterated.
pub mod Tiles
pub mod Pairs
use distribuidos_tp_money_la.Prelude.{
  ℕ, zero, suc, ◌+◌, ◌*◌, Bool, true, false, ◌||◌, List, [], ◌∷◌, ◌++◌, take, drop, leb, ltb, max,
  length, if◌then◌else◌, ◌==◌, nat_eq,
}
use distribuidos_tp_money_la.Collections.Dict.{Dict, get_default, put, pop}
use distribuidos_tp_money_la.Collections.PySet.{mem, union}
use distribuidos_tp_money_la.UseCases.Filters.{filter}
use distribuidos_tp_money_la.UseCases.Graphs.{Graph}

-- `UC4PruneMergeFn`
pub record Prune : Type 0 where
  pub hi_out : Dict ℕ (List ℕ)
  pub hi_in : Dict ℕ (List ℕ)
  pub spill : Dict ℕ Graph

-- `left`
unfoldable pub left : ℕ → List ℕ → List ℕ → Prune → Prune
unfolding union get_default put
left cid hi_out hi_in m = record m {
  hi_out = put cid (union (get_default cid [] m.hi_out) hi_out) m.hi_out;
  hi_in = put cid (union (get_default cid [] m.hi_in) hi_in) m.hi_in;
}

-- `right`
unfoldable pub right : ℕ → Graph → Prune → Prune
unfolding get_default put
right cid nodes m = record m { spill = put cid (get_default cid [] m.spill ++ nodes) m.spill }

-- `discard`
unfoldable pub discard : ℕ → Prune → Prune
unfolding pop
discard cid m = record {
  hi_out = pop cid m.hi_out;
  hi_in = pop cid m.hi_in;
  spill = pop cid m.spill;
}

-- s & other
unfoldable pub meet : List ℕ → List ℕ → List ℕ
unfolding filter mem
meet s other = filter (λ n. mem n other) s

abbrev pub is_empty : List ℕ → Bool
is_empty [] = true
is_empty (n ∷ s) = false

-- the slices of `range(0, len(items), size)`; the first argument bounds their number
unfoldable pub slices : ℕ → ℕ → List ℕ → List (List ℕ)
slices zero size items = []
slices (suc fuel) size [] = []
slices (suc fuel) size (n ∷ items) =
    take size (n ∷ items) ∷ slices fuel size (drop size (n ∷ items))

-- the inner loop of `_salted_tiles`
unfoldable pub tile_row : ℕ → List ℕ → List (List ℕ) → List Graph
tile_row node pchunk [] = []
tile_row node pchunk (schunk ∷ schunks) =
    ((node, (pchunk, schunk)) ∷ []) ∷ tile_row node pchunk schunks

unfoldable pub tile_rows : ℕ → List (List ℕ) → List (List ℕ) → List Graph
unfolding tile_row
tile_rows node [] schunks = []
tile_rows node (pchunk ∷ pchunks) schunks =
    tile_row node pchunk schunks ++ tile_rows node pchunks schunks

-- SPLIT_THRESHOLD, _CHUNK_SIZE, and `root p s` for int(math.sqrt(SPLIT_THRESHOLD * p / s))
pub record Limits : Type 0 where
  pub split_threshold : ℕ
  pub chunk_size : ℕ
  pub root : ℕ → ℕ → ℕ

module _ (limits : Limits) where
  -- `_salted_tiles`
  unfoldable pub salted_tiles : ℕ → List ℕ → List ℕ → List Graph
  unfolding slices tile_rows
  salted_tiles node preds succs =
      let chunk_p = max 1 (limits.root (length preds) (length succs)) in
      let chunk_s = max 1 (limits.root (length succs) (length preds)) in
      tile_rows node (slices (length preds) chunk_p preds) (slices (length succs) chunk_s succs)

  -- if batch: yield Graph(client_id, batch)
  abbrev pub last_batch : Graph → List Graph
  last_batch [] = []
  last_batch (e ∷ batch) = (e ∷ batch) ∷ []

  -- the loop of `get_result` over the lines, with the batch so far and its size
  unfoldable pub prune_lines : List ℕ → List ℕ → Graph → Graph → ℕ → List Graph
  unfolding meet salted_tiles put
  prune_lines hi_out hi_in [] batch batch_size = last_batch batch
  prune_lines hi_out hi_in ((node, (ps, ss)) ∷ lines) batch batch_size =
      let preds = meet ps hi_out in
      let succs = meet ss hi_in in
      let larger = put node (preds, succs) batch in
      let size = batch_size + (length preds + length succs) in
      let skip = prune_lines hi_out hi_in lines batch batch_size in
      let full = larger ∷ prune_lines hi_out hi_in lines [] 0 in
      let next = prune_lines hi_out hi_in lines larger size in
      if is_empty preds || is_empty succs
      then skip
      else if ltb limits.split_threshold (length preds * length succs)
      then salted_tiles node preds succs ++ skip
      else if leb limits.chunk_size size
      then full
      else next

  -- `get_result`: the sets of the client are taken out; the spill stays until `discard`
  unfoldable pub get_result : ℕ → Prune → Prune × List Graph
  unfolding prune_lines get_default pop
  get_result cid m = (
    record m { hi_out = pop cid m.hi_out; hi_in = pop cid m.hi_in },
    prune_lines (get_default cid [] m.hi_out) (get_default cid [] m.hi_in)
        (get_default cid [] m.spill) [] 0,
  )
