-- ===== src/UseCases/HighDegree.antt =====
-- Use case 4, the nodes of high degree: src/aggregate/aggregate_fns/uc4_degree.py, for the messages
-- of one client. The client's spill (src/common/checkpoint/multi_shard_spill.py) is the list of the
-- lines that were appended; the file of a shard holds the lines of its nodes, in that order, and a
-- line is the entry that json.loads gives back. A node is a number that is only compared.
pub mod Buckets
pub mod Increasing
pub mod Spilled
pub mod Shards
pub mod Sides
pub mod Exact
use distribuidos_tp_money_la.Prelude.{
  ℕ, ◌%◌, Bool, List, [], ◌∷◌, ◌++◌, map, leb, ltb, length, if◌then◌else◌, ◌==◌, nat_eq,
}
use distribuidos_tp_money_la.Collections.Dict.{Dict, get_default, put, keys}
use distribuidos_tp_money_la.Collections.PySet.{union}
use distribuidos_tp_money_la.UseCases.Filters.{filter}
use distribuidos_tp_money_la.UseCases.Graphs.{Graph, capped_update}

-- `UC4Degree` for one client: `_out`, `_in` and the spill
pub record Degree : Type 0 where
  pub outs : Dict ℕ (List ℕ)
  pub ins : Dict ℕ (List ℕ)
  pub lines : List (ℕ × (List ℕ × List ℕ))

abbrev pub init : Degree
init = record { outs = []; ins = []; lines = [] }

-- `_capped_update` for one node after another
unfoldable pub update_all : Dict ℕ (List ℕ) → List (ℕ × List ℕ) → Dict ℕ (List ℕ)
unfolding capped_update
update_all store [] = store
update_all store ((node, neighbors) ∷ rest) = update_all (capped_update node neighbors store) rest

-- a node with the first of its sets: the predecessors of a graph's entry, the successors of a line
abbrev pub first_set : ℕ × (List ℕ × List ℕ) → ℕ × List ℕ
first_set e = (e.0, e.1.0)

-- and with the second
abbrev pub second_set : ℕ × (List ℕ × List ℕ) → ℕ × List ℕ
second_set e = (e.0, e.1.1)

-- the line of a node
abbrev pub line_of : Dict ℕ (List ℕ) → Dict ℕ (List ℕ) → ℕ → ℕ × (List ℕ × List ℕ)
line_of outs ins node = (node, (get_default node [] outs, get_default node [] ins))

-- `_spill_to_disk`
unfoldable pub spill_to_disk : Degree → Degree
unfolding keys union
spill_to_disk d = record {
  outs = [];
  ins = [];
  lines = d.lines ++ map (line_of d.outs d.ins) (union (keys d.outs) (keys d.ins));
}

-- `aggregate`; `threshold` is SPILL_THRESHOLD
unfoldable pub aggregate : ℕ → Graph → Degree → Degree
unfolding update_all spill_to_disk
aggregate threshold nodes d =
    let d1 = record d {
      ins = update_all d.ins (map first_set nodes);
      outs = update_all d.outs (map second_set nodes);
    } in
    if leb threshold (length d1.outs) then spill_to_disk d1 else d1

-- what happens to the client's state: a message, or a checkpoint (`snapshot_state` spills)
pub data Event : Type 0 where
  message : Graph → Event
  checkpoint : Event

unfoldable pub on_event : ℕ → Event → Degree → Degree
unfolding aggregate spill_to_disk
on_event threshold (message nodes) d = aggregate threshold nodes d
on_event threshold checkpoint d = spill_to_disk d

unfoldable pub run : ℕ → List Event → Degree → Degree
unfolding on_event
run threshold [] d = d
run threshold (e ∷ events) d = run threshold events (on_event threshold e d)

-- `_sharding_hash`, with SHARDING_FILES = 500
abbrev pub sharding_hash : (ℕ → ℕ) → ℕ → ℕ
sharding_hash hash node = hash node % 500

-- a shard put in its place in a sorted list, once
unfoldable pub insert_sorted : ℕ → List ℕ → List ℕ
insert_sorted s [] = s ∷ []
insert_sorted s (t ∷ ts) =
    let rest = insert_sorted s ts in
    if s == t then t ∷ ts else if ltb s t then s ∷ t ∷ ts else t ∷ rest

-- `MultiShardSpill.shards_of`
unfoldable pub shards_of : (ℕ → ℕ) → List (ℕ × (List ℕ × List ℕ)) → List ℕ
unfolding insert_sorted
shards_of hash [] = []
shards_of hash (line ∷ lines) = insert_sorted (sharding_hash hash line.0) (shards_of hash lines)

-- `MultiShardSpill.read_shard`
unfoldable pub read_shard :
    (ℕ → ℕ) → ℕ → List (ℕ × (List ℕ × List ℕ)) → List (ℕ × (List ℕ × List ℕ))
unfolding filter
read_shard hash shard lines = filter (λ line. sharding_hash hash line.0 == shard) lines

-- the lines in the order in which `get_result` reads them
unfoldable pub read_shards :
    (ℕ → ℕ) → List ℕ → List (ℕ × (List ℕ × List ℕ)) → List (ℕ × (List ℕ × List ℕ))
unfolding read_shard
read_shards hash [] lines = []
read_shards hash (shard ∷ shards) lines =
    read_shard hash shard lines ++ read_shards hash shards lines

-- {n for n, s in store.items() if len(s) >= MIN_DEGREE}
unfoldable pub high : Dict ℕ (List ℕ) → List ℕ
high [] = []
high ((node, bucket) ∷ store) =
    let rest = high store in if leb 5 (length bucket) then node ∷ rest else rest

-- `get_result`: hi_out and hi_in, for a client whose last data may still be in memory
unfoldable pub get_result : (ℕ → ℕ) → Degree → List ℕ × List ℕ
unfolding spill_to_disk read_shards shards_of update_all high
get_result hash d =
    let lines = (spill_to_disk d).lines in
    let read = read_shards hash (shards_of hash lines) lines in
    (high (update_all [] (map first_set read)), high (update_all [] (map second_set read)))
