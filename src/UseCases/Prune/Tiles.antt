-- ===== src/UseCases/Prune/Tiles.antt =====
-- Tiles that cover every pair once (uc4_prune.py).
use distribuidos_tp_money_la.Prelude.{
  ℕ, zero, suc, ◌+◌, ◌*◌, ◌≤◌, ◌≡◌, ◌∙◌, refl, ap, ap₂, sym, List, [], ◌∷◌, ◌++◌, take, drop,
  length, max, if◌then◌else◌, ◌==◌, nat_eq, arith, take-append-drop, length-drop,
}
use native.Mathlib.Nat.{add-mul, mul-add}
use distribuidos_tp_money_la.UseCases.Graphs.{Graph}
use distribuidos_tp_money_la.UseCases.Prune.{Limits, slices, tile_row, tile_rows, salted_tiles}

-- how often a node stands in a list
unfoldable pub count : ℕ → List ℕ → ℕ
count n [] = 0
count n (k ∷ s) = (if k == n then 1 else 0) + count n s

-- how often a predecessor and a successor of a node meet in an entry
abbrev pub hits : ℕ → ℕ → ℕ → ℕ × (List ℕ × List ℕ) → ℕ
hits n p s e = if e.0 == n then count p e.1.0 * count s e.1.1 else 0

-- in a graph, and in all the messages
unfoldable pub graph_hits : ℕ → ℕ → ℕ → Graph → ℕ
graph_hits n p s [] = 0
graph_hits n p s (e ∷ es) = hits n p s e + graph_hits n p s es

unfoldable pub all_hits : ℕ → ℕ → ℕ → List Graph → ℕ
unfolding graph_hits
all_hits n p s [] = 0
all_hits n p s (g ∷ gs) = graph_hits n p s g + all_hits n p s gs

pub count-append : (n : ℕ) (xs ys : List ℕ) → count n (xs ++ ys) ≡ count n xs + count n ys
unfolding count
count-append n [] ys = omega arith
count-append n (x ∷ xs) ys = omega (arith, count-append n xs ys)

pub all_hits-append :
    (n p s : ℕ) (xs ys : List Graph)
    → all_hits n p s (xs ++ ys) ≡ all_hits n p s xs + all_hits n p s ys
unfolding all_hits
all_hits-append n p s [] ys = omega arith
all_hits-append n p s (x ∷ xs) ys = omega (arith, all_hits-append n p s xs ys)

sum_counts : ℕ → List (List ℕ) → ℕ
sum_counts n [] = 0
sum_counts n (l ∷ ls) = count n l + sum_counts n ls

-- The slices hold every element, where each takes at least one.
sum_counts-slices :
    (n fuel size : ℕ) (items : List ℕ)
    → 1 ≤ size
    → length items ≤ fuel
    → sum_counts n (slices fuel size items) ≡ count n items
unfolding sum_counts slices count
sum_counts-slices n zero size [] some_ enough = refl
sum_counts-slices n zero size (k ∷ items) some_ enough = absurd (omega (arith, enough))
sum_counts-slices n (suc fuel) size [] some_ enough = refl
sum_counts-slices n (suc fuel) size (k ∷ items) some_ enough =
    ap (λ t. count n (take size (k ∷ items)) + t)
      (sum_counts-slices n fuel size (drop size (k ∷ items)) some_
        (omega (arith, length-drop size (k ∷ items), some_, enough)))
    ∙ (sym (count-append n (take size (k ∷ items)) (drop size (k ∷ items)))
        ∙ ap (count n) (take-append-drop size (k ∷ items)))

tile_row-hits :
    (n p s node : ℕ) (pchunk : List ℕ) (schunks : List (List ℕ))
    → all_hits n p s (tile_row node pchunk schunks)
      ≡ (if node == n then count p pchunk * sum_counts s schunks else 0)
unfolding all_hits graph_hits tile_row sum_counts
tile_row-hits n p s node pchunk [] = ground arith
tile_row-hits n p s node pchunk (schunk ∷ schunks) = ground (
  arith,
  tile_row-hits n p s node pchunk schunks,
  mul-add (count p pchunk) (count s schunk) (sum_counts s schunks),
)

tile_rows-hits :
    (n p s node : ℕ) (pchunks schunks : List (List ℕ))
    → all_hits n p s (tile_rows node pchunks schunks)
      ≡ (if node == n then sum_counts p pchunks * sum_counts s schunks else 0)
unfolding all_hits tile_rows sum_counts
tile_rows-hits n p s node [] schunks = ground arith
tile_rows-hits n p s node (pchunk ∷ pchunks) schunks = ground (
  arith,
  all_hits-append n p s (tile_row node pchunk schunks) (tile_rows node pchunks schunks),
  tile_row-hits n p s node pchunk schunks,
  tile_rows-hits n p s node pchunks schunks,
  add-mul (count p pchunk) (sum_counts p pchunks) (sum_counts s schunks),
)

-- Every pair of a predecessor and a successor stands in one tile.
pub salted_tiles-hits :
    (limits : Limits) (n p s node : ℕ) (preds succs : List ℕ)
    → all_hits n p s (salted_tiles limits node preds succs) ≡ hits n p s (node, (preds, succs))
unfolding salted_tiles
salted_tiles-hits limits n p s node preds succs =
    let chunk_p = max 1 (limits.root (length preds) (length succs)) in
    let chunk_s = max 1 (limits.root (length succs) (length preds)) in
    tile_rows-hits n p s node (slices (length preds) chunk_p preds)
      (slices (length succs) chunk_s succs)
    ∙ ap₂ (λ a b. if node == n then a * b else 0)
        (sum_counts-slices p (length preds) chunk_p preds (omega arith) (omega arith))
        (sum_counts-slices s (length succs) chunk_s succs (omega arith) (omega arith))
