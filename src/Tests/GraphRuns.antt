-- ===== src/Tests/GraphRuns.antt =====
-- Runs of use case 4: nodes of high degree, and paths.
use distribuidos_tp_money_la.Prelude.{
  ◌+◌, ◌≡◌, refl, nat_eq, ap, sym, subst, true, List, [], ◌∷◌, map, leb, length, if◌then◌else◌,
}
use mathlib.Core.List.{Perm}
use mathlib.Core.List.Perm
use distribuidos_tp_money_la.Collections.PySet.{mem, union}
use distribuidos_tp_money_la.UseCases.Graphs.{Graph}
use distribuidos_tp_money_la.UseCases.HighDegree
use distribuidos_tp_money_la.UseCases.HighDegree.{first_set, second_set, get_result}
use distribuidos_tp_money_la.UseCases.HighDegree.Spilled.{neighbors}
use distribuidos_tp_money_la.UseCases.HighDegree.Exact.{history, get_result-exact}
use distribuidos_tp_money_la.UseCases.Paths
use distribuidos_tp_money_la.UseCases.Paths.{Ids, Counts, aggregate, aggregate_result}
use distribuidos_tp_money_la.UseCases.Paths.Shards.{total_of}
use distribuidos_tp_money_la.UseCases.Paths.Spills.{Event, message, checkpoint, run}
use distribuidos_tp_money_la.UseCases.Paths.Exact.{
  messages_of, sent_by, all_ways, aggregate_result-ways,
}

-- a node with three successors, and the same node with three more
abbrev first_half : Graph
first_half = (7, (1 ∷ [], 2 ∷ 3 ∷ 4 ∷ [])) ∷ []

abbrev second_half : Graph
second_half = (7, (1 ∷ [], 4 ∷ 5 ∷ 6 ∷ [])) ∷ []

abbrev two_halves : List HighDegree.Event
two_halves =
    HighDegree.Event.message first_half
    ∷ HighDegree.Event.checkpoint
    ∷ HighDegree.Event.message second_half
    ∷ []

get_result-exact_example :
    (mem 7 (get_result (λ n. n) (HighDegree.run 100 two_halves HighDegree.init)).0
      ≡ leb 5 (length (union [] (neighbors 7 (map second_set (history two_halves))))))
    × (mem 7 (get_result (λ n. n) (HighDegree.run 100 two_halves HighDegree.init)).1
        ≡ leb 5 (length (union [] (neighbors 7 (map first_set (history two_halves))))))
get_result-exact_example = get_result-exact (λ n. n) 100 two_halves 7

-- no two of these nodes or paths share a key
abbrev plain : Ids
plain = record { node_key = λ n. n; path_key = λ p. p; path_of = λ a c. a + c }

-- two counters, each with a hub
abbrev counters : List (List (Event Graph))
counters =
    (message ((7, (1 ∷ 2 ∷ [], 3 ∷ 4 ∷ [])) ∷ []) ∷ checkpoint ∷ [])
    ∷ (message ((8, (1 ∷ [], 4 ∷ [])) ∷ []) ∷ [])
    ∷ []

abbrev sent : List Counts
sent = sent_by plain (λ p. p) (λ p. p) (λ p. p) (λ a. true) 100 counters

abbrev deliveries : List Counts → List (Event Counts)
deliveries [] = []
deliveries (m ∷ ms) = message m ∷ deliveries ms

deliveries-all : (ms : List Counts) → messages_of (deliveries ms) ≡ ms
unfolding messages_of
deliveries-all [] = refl
deliveries-all (m ∷ ms) = ap (◌∷◌ m) (deliveries-all ms)

aggregate_result-ways_example :
    total_of 5
      (aggregate_result plain (λ p. p) (run (aggregate plain 100) (deliveries sent) Paths.init))
    ≡ (if leb 5 (all_ways plain 5 counters) then all_ways plain 5 counters else 0)
aggregate_result-ways_example =
    aggregate_result-ways plain (λ p. p) (λ p. p) (λ p. p) (λ a. true) 100 counters
      (deliveries sent) 5 (λ q e. e)
      (subst (λ l. Perm l sent) (sym (deliveries-all sent)) (Perm.refl sent)) refl
