-- ===== src/UseCases/Paths.antt =====
-- Use case 4, the paths of two payments: src/aggregate/aggregate_fns/uc4_count_paths.py and
-- uc4_aggregate_paths.py, for the messages of one client. The client's spill
-- (src/common/checkpoint/multi_shard_spill.py) is the list of the lines that were appended; the file
-- of a shard holds the lines of its paths, in that order, and a line is the entry that json.loads
-- gives back. A node or a path is a number for what is written of it, its banks and accounts: the
-- sharding hash sees that text, while dicts and `==` compare the `key`, which two may share.
pub mod Totals
pub mod Shards
pub mod Spills
pub mod Exact
use distribuidos_tp_money_la.Prelude.{
  ℕ, ◌+◌, ◌%◌, Bool, List, [], ◌∷◌, ◌++◌, map, leb, length, if◌then◌else◌, ◌==◌, nat_eq,
}
use distribuidos_tp_money_la.Collections.Dict.{Dict, get_default, put}
use distribuidos_tp_money_la.UseCases.Filters.{filter}
use distribuidos_tp_money_la.UseCases.Graphs.{Graph}
use distribuidos_tp_money_la.UseCases.HighDegree.{insert_sorted}

-- `Node.key`, `Path.key` and `Path(a, c)`
pub record Ids : Type 0 where
  pub node_key : ℕ → ℕ
  pub path_key : ℕ → ℕ
  pub path_of : ℕ → ℕ → ℕ

-- `PathCounts.counts`
abbrev pub Counts : Type 0
Counts = Dict ℕ ℕ

-- paths[path] = paths.get(path, 0) + count: a dict keeps the first of the paths that are equal
unfoldable pub add_count : Ids → ℕ → ℕ → Counts → Counts
add_count ids path count [] = (path, count) ∷ []
add_count ids path count ((q, n) ∷ paths) =
    let rest = add_count ids path count paths in
    if ids.path_key q == ids.path_key path then (q, n + count) ∷ paths else (q, n) ∷ rest

unfoldable pub add_counts : Ids → Counts → List (ℕ × ℕ) → Counts
unfolding add_count
add_counts ids paths [] = paths
add_counts ids paths ((path, count) ∷ items) = add_counts ids (add_count ids path count paths) items

-- `UC4CountPaths` and `UC4AggregatePaths` for one client: `_paths` and the spill
pub record PathState : Type 0 where
  pub paths : Counts
  pub lines : List (ℕ × ℕ)

abbrev pub init : PathState
init = record { paths = []; lines = [] }

-- `_spill_to_disk`
unfoldable pub spill_to_disk : PathState → PathState
spill_to_disk s = record { paths = []; lines = s.lines ++ s.paths }

-- the test against SPILL_THRESHOLD
unfoldable pub spill_if_large : ℕ → PathState → PathState
unfolding spill_to_disk
spill_if_large threshold s = if leb threshold (length s.paths) then spill_to_disk s else s

-- `UC4AggregatePaths.aggregate`
unfoldable pub aggregate : Ids → ℕ → Counts → PathState → PathState
unfolding add_counts spill_if_large
aggregate ids threshold counts s =
    spill_if_large threshold (record s { paths = add_counts ids s.paths counts })

-- the two-edge paths from `a`, one for each other successor; `ids.path_of` is Path(a, c)
unfoldable pub pairs_from : Ids → ℕ → List ℕ → List (ℕ × ℕ)
pairs_from ids a [] = []
pairs_from ids a (c ∷ succs) =
    let rest = pairs_from ids a succs in
    if ids.node_key a == ids.node_key c then rest else (ids.path_of a c, 1) ∷ rest

-- the loop over a hub's predecessors
unfoldable pub count_hub : Ids → ℕ → List ℕ → List ℕ → PathState → PathState
unfolding add_counts spill_if_large pairs_from
count_hub ids threshold [] succs s = s
count_hub ids threshold (a ∷ preds) succs s = count_hub ids threshold preds succs (
    spill_if_large threshold (record s { paths = add_counts ids s.paths (pairs_from ids a succs) }))

unfoldable pub count_hubs : Ids → ℕ → Graph → PathState → PathState
unfolding count_hub
count_hubs ids threshold [] s = s
count_hubs ids threshold ((hub, (preds, succs)) ∷ nodes) s =
    count_hubs ids threshold nodes (count_hub ids threshold preds succs s)

-- `UC4CountPaths.aggregate`
unfoldable pub count_paths : Ids → ℕ → Graph → PathState → PathState
unfolding count_hubs spill_if_large
count_paths ids threshold nodes s = spill_if_large threshold (count_hubs ids threshold nodes s)

-- `_sharding_hash`, with SHARDING_FILES = 500, is an argument: it gives the shard of a path
-- `MultiShardSpill.shards_of`
unfoldable pub shards_of : (ℕ → ℕ) → List (ℕ × ℕ) → List ℕ
unfolding insert_sorted
shards_of shard_of [] = []
shards_of shard_of (line ∷ lines) = insert_sorted (shard_of line.0) (shards_of shard_of lines)

-- `MultiShardSpill.read_shard`
unfoldable pub read_shard : (ℕ → ℕ) → ℕ → List (ℕ × ℕ) → List (ℕ × ℕ)
unfolding filter
read_shard shard_of shard lines = filter (λ line. shard_of line.0 == shard) lines

-- {path: count for path, count in paths.items() if count >= MIN_PATH_COUNT}
unfoldable pub qualifying : Counts → Counts
qualifying [] = []
qualifying ((path, count) ∷ paths) =
    let rest = qualifying paths in if leb 5 count then (path, count) ∷ rest else rest

-- the loop of `UC4AggregatePaths.get_result`: a message for each shard
unfoldable pub qualifying_shards : Ids → (ℕ → ℕ) → List (ℕ × ℕ) → List ℕ → List Counts
unfolding read_shard add_counts qualifying
qualifying_shards ids shard_of lines [] = []
qualifying_shards ids shard_of lines (shard ∷ shards) =
    qualifying (add_counts ids [] (read_shard shard_of shard lines))
    ∷ qualifying_shards ids shard_of lines shards

-- `UC4AggregatePaths.get_result`
unfoldable pub aggregate_result : Ids → (ℕ → ℕ) → PathState → List Counts
unfolding spill_to_disk shards_of qualifying_shards
aggregate_result ids shard_of s =
    let lines = (spill_to_disk s).lines in
    qualifying_shards ids shard_of lines (shards_of shard_of lines)

-- affinities[hash(path) % AFFINITY_SHARDS].add(path, count); `PathCounts.add`
unfoldable pub by_affinity : Ids → (ℕ → ℕ) → Dict ℕ Counts → Counts → Dict ℕ Counts
unfolding add_count get_default put
by_affinity ids hash affinities [] = affinities
by_affinity ids hash affinities ((path, count) ∷ paths) =
    let shard = hash (ids.path_key path) % 10 in
    by_affinity ids hash
      (put shard (add_count ids path count (get_default shard [] affinities)) affinities) paths

-- the loop of `UC4CountPaths.get_result`: a message for each affinity of each shard
unfoldable pub count_shards : Ids → (ℕ → ℕ) → (ℕ → ℕ) → List (ℕ × ℕ) → List ℕ → Dict ℕ Counts
unfolding read_shard add_counts by_affinity
count_shards ids hash shard_of lines [] = []
count_shards ids hash shard_of lines (shard ∷ shards) =
    by_affinity ids hash [] (add_counts ids [] (read_shard shard_of shard lines))
    ++ count_shards ids hash shard_of lines shards

-- `UC4CountPaths.get_result`: an affinity and the counts that go there
unfoldable pub count_result : Ids → (ℕ → ℕ) → (ℕ → ℕ) → PathState → Dict ℕ Counts
unfolding spill_to_disk shards_of count_shards
count_result ids hash shard_of s =
    let lines = (spill_to_disk s).lines in
    count_shards ids hash shard_of lines (shards_of shard_of lines)
