-- ===== src/UseCases/Prune/Pairs.antt =====
-- The pairs that the pruned graph keeps (uc4_prune.py).
use distribuidos_tp_money_la.Prelude.{
  ℕ, ◌+◌, ◌*◌, ◌≡◌, ◌∙◌, refl, ap, true, ◌||◌, ◌&&◌, List, [], ◌∷◌, ◌++◌, ltb, leb, length,
  if◌then◌else◌, ◌==◌, nat_eq, arith, Bool-cases, inl, inr, All,
}
use distribuidos_tp_money_la.Collections.Dict.{put, get_default}
use distribuidos_tp_money_la.Collections.Dict.Laws.{Absent, IsDict, put_new, put-Absent}
use distribuidos_tp_money_la.Collections.PySet.{mem}
use distribuidos_tp_money_la.UseCases.Filters.{filter}
use distribuidos_tp_money_la.UseCases.Graphs.{Graph}
use distribuidos_tp_money_la.UseCases.Prune.{
  Limits, Prune, meet, is_empty, salted_tiles, last_batch, prune_lines, get_result,
}
use distribuidos_tp_money_la.UseCases.Prune.Tiles.{
  count, hits, graph_hits, all_hits, all_hits-append, salted_tiles-hits,
}

graph_hits-append :
    (n p s : ℕ) (xs ys : Graph)
    → graph_hits n p s (xs ++ ys) ≡ graph_hits n p s xs + graph_hits n p s ys
unfolding graph_hits
graph_hits-append n p s [] ys = omega arith
graph_hits-append n p s (x ∷ xs) ys = omega (arith, graph_hits-append n p s xs ys)

-- the nodes of the lines are not in the batch
abbrev Apart : Graph → Graph → Type 0
Apart lines batch = All (λ (e : ℕ × (List ℕ × List ℕ)). Absent e.0 batch) lines

-- what is left of a line
abbrev pub pruned : List ℕ → List ℕ → ℕ × (List ℕ × List ℕ) → ℕ × (List ℕ × List ℕ)
pruned hi_out hi_in e = (e.0, (meet e.1.0 hi_out, meet e.1.1 hi_in))

unfoldable pub pruned_hits : List ℕ → List ℕ → ℕ → ℕ → ℕ → Graph → ℕ
pruned_hits hi_out hi_in n p s [] = 0
pruned_hits hi_out hi_in n p s (e ∷ lines) =
    hits n p s (pruned hi_out hi_in e) + pruned_hits hi_out hi_in n p s lines

last_batch-hits :
    (limits : Limits) (n p s : ℕ) (batch : Graph)
    → all_hits n p s (last_batch limits batch) ≡ graph_hits n p s batch
unfolding all_hits graph_hits
last_batch-hits limits n p s [] = refl
last_batch-hits limits n p s (e ∷ batch) = omega arith

-- A pair with an empty side does not count.
empty-hits :
    (n p s node : ℕ) (preds succs : List ℕ)
    → (is_empty preds || is_empty succs) ≡ true
    → hits n p s (node, (preds, succs)) ≡ 0
unfolding count
empty-hits n p s node [] succs h = ground arith
empty-hits n p s node (k ∷ preds) [] h = ground arith
empty-hits n p s node (k ∷ preds) (j ∷ succs) h = absurd (cc)

batch-hits :
    (n p s node : ℕ) (sets : List ℕ × List ℕ) (batch : Graph)
    → Absent node batch
    → graph_hits n p s (put node sets batch) ≡ graph_hits n p s batch + hits n p s (node, sets)
unfolding graph_hits
batch-hits n p s node sets batch new =
    ap (graph_hits n p s) (put_new node sets batch new)
    ∙ (graph_hits-append n p s batch ((node, sets) ∷ []) ∙ omega arith)

Apart-nil : (lines : Graph) → Apart lines []
Apart-nil [] = tt
Apart-nil (e ∷ lines) = (tt, Apart-nil lines)

Apart-put :
    (node : ℕ) (sets : List ℕ × List ℕ) (lines batch : Graph)
    → Absent node lines
    → Apart lines batch
    → Apart lines (put node sets batch)
Apart-put node sets [] batch new h = tt
Apart-put node sets (e ∷ lines) batch (other, new) (out, h) = (
  put-Absent node e.0 sets batch (ground (arith, other)) out,
  Apart-put node sets lines batch new h,
)

module _ (limits : Limits) (hi_out hi_in : List ℕ) (n p s : ℕ) where
  prune_lines-hits :
      (lines batch : Graph) (size : ℕ)
      → IsDict lines
      → Apart lines batch
      → all_hits n p s (prune_lines limits hi_out hi_in lines batch size)
        ≡ graph_hits n p s batch + pruned_hits hi_out hi_in n p s lines
  unfolding prune_lines pruned_hits all_hits graph_hits
  prune_lines-hits [] batch size d h = omega (arith, last_batch-hits limits n p s batch)
  prune_lines-hits ((node, (ps, ss)) ∷ lines) batch size (new, d) (out, h) =
      elim (Bool-cases (is_empty preds || is_empty succs)) [
        | inl nothing ↦ rw nothing (
            omega (
              arith,
              empty-hits n p s node preds succs nothing,
              prune_lines-hits lines batch size d h,
            ))
        | inr something ↦
            rw something
              (elim (Bool-cases (ltb limits.split_threshold (length preds * length succs))) [
                | inl large ↦ rw large (
                    omega (
                      arith,
                      all_hits-append n p s (salted_tiles limits node preds succs)
                          (prune_lines limits hi_out hi_in lines batch size),
                      salted_tiles-hits limits n p s node preds succs,
                      prune_lines-hits lines batch size d h,
                    ))
                | inr small ↦ rw small (elim (Bool-cases (leb limits.chunk_size longer)) [
                  | inl full ↦
                      rw full
                        (omega (arith, added, prune_lines-hits lines [] 0 d (Apart-nil lines)))
                  | inr room ↦ rw room (
                      omega (
                        arith,
                        added,
                        prune_lines-hits lines (put node (preds, succs) batch) longer d
                            (Apart-put node (preds, succs) lines batch new h),
                      ))
                ])
              ])
      ]
    where
      preds : List ℕ
      preds = meet ps hi_out

      succs : List ℕ
      succs = meet ss hi_in

      longer : ℕ
      longer = size + (length preds + length succs)

      added :
          graph_hits n p s (put node (preds, succs) batch)
          ≡ graph_hits n p s batch + hits n p s (node, (preds, succs))
      added = batch-hits n p s node (preds, succs) batch out

count-meet :
    (n : ℕ) (l other : List ℕ) → count n (meet l other) ≡ (if mem n other then count n l else 0)
unfolding count meet filter
count-meet n [] other = ground arith
count-meet n (k ∷ l) other = elim (Bool-cases (k == n)) [
  | inl same ↦
      let e : mem k other ≡ mem n other = ap (λ j. mem j other) (ground (arith, same)) in
      ground (arith, same, e, count-meet n l other)
  | inr other_node ↦ ground (arith, other_node, count-meet n l other)
]

pruned_hits-graph_hits :
    (hi_out hi_in : List ℕ) (n p s : ℕ) (lines : Graph)
    → pruned_hits hi_out hi_in n p s lines
      ≡ (if mem p hi_out && mem s hi_in then graph_hits n p s lines else 0)
unfolding pruned_hits graph_hits
pruned_hits-graph_hits hi_out hi_in n p s [] = ground arith
pruned_hits-graph_hits hi_out hi_in n p s (e ∷ lines) = ground (
  arith,
  count-meet p e.1.0 hi_out,
  count-meet s e.1.1 hi_in,
  pruned_hits-graph_hits hi_out hi_in n p s lines,
)

-- Where every node stands in one line of the client's spill: the messages of `get_result`, whatever
-- the thresholds and however a large node is tiled, hold a predecessor and a successor of a node
-- together as often as the spilled graph does (once, for sets), where the one is a hi_out node of
-- the client and the other a hi_in node, and never otherwise.
pub get_result-pairs :
    (limits : Limits) (cid : ℕ) (m : Prune) (n p s : ℕ)
    → IsDict (get_default cid [] m.spill)
    → all_hits n p s (get_result limits cid m).1 ≡ (
        if mem p (get_default cid [] m.hi_out) && mem s (get_default cid [] m.hi_in)
        then graph_hits n p s (get_default cid [] m.spill)
        else 0)
unfolding get_result graph_hits
get_result-pairs limits cid m n p s d =
    let hi_out = get_default cid [] m.hi_out in
    let hi_in = get_default cid [] m.hi_in in
    let lines = get_default cid [] m.spill in
    prune_lines-hits limits hi_out hi_in n p s lines [] 0 d (Apart-nil lines)
    ∙ omega (arith, pruned_hits-graph_hits hi_out hi_in n p s lines)
