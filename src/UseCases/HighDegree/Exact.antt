-- ===== src/UseCases/HighDegree/Exact.antt =====
-- The nodes of high degree, whenever the state was spilled (uc4_degree.py).
use distribuidos_tp_money_la.Prelude.{
  ℕ, ◌≡◌, ◌∙◌, refl, ap, sym, subst, List, [], ◌∷◌, ◌++◌, map, leb, length, nat_eq, arith,
  Bool-cases, inl, inr, append-nil, append_assoc,
}
use distribuidos_tp_money_la.Collections.Dict.{get, get_default, keys}
use distribuidos_tp_money_la.Collections.Dict.Laws.{IsDict}
use distribuidos_tp_money_la.Collections.PySet.{NoRepeat, mem, union, mem-union}
use distribuidos_tp_money_la.UseCases.Graphs.{Graph}
use distribuidos_tp_money_la.UseCases.HighDegree.{
  Degree, init, update_all, first_set, second_set, line_of, spill_to_disk, aggregate, Event,
  message, checkpoint, on_event, run, high, get_result,
}
use distribuidos_tp_money_la.UseCases.HighDegree.Buckets.{Sums-nil, union-NoRepeat, full-Sums}
use distribuidos_tp_money_la.UseCases.HighDegree.Spilled.{
  of_node, join, neighbors, merge_all, get_default-update_all, update_all-IsDict, Sums-Parts,
  mem-high,
}
use distribuidos_tp_money_la.UseCases.HighDegree.Shards.{of_node-shards_of}
use distribuidos_tp_money_la.UseCases.HighDegree.Sides.{
  Side, Side-update_all, Side-spilled, keys-NoRepeat, get_default-missing, first_set-lines,
  second_set-lines, map-append, nothing_kept, Sums-nil_only,
}

-- the entries of the messages
unfoldable pub history : List Event → Graph
history [] = []
history (message nodes ∷ events) = nodes ++ history events
history (checkpoint ∷ events) = history events

record Holds (n : ℕ) (d : Degree) (given : Graph) : Type 0 where
  outs_dict : IsDict d.outs
  ins_dict : IsDict d.ins
  out_side : Side n d.outs (map first_set d.lines) (map second_set given)
  in_side : Side n d.ins (map second_set d.lines) (map first_set given)

Holds-spill :
    (n : ℕ) (d : Degree) (given : Graph) → Holds n d given → Holds n (spill_to_disk d) given
unfolding spill_to_disk
Holds-spill n d given h = record {
  outs_dict = tt;
  ins_dict = tt;
  out_side =
      subst (λ ps. Side n [] ps (map second_set given))
        (sym (
          map-append first_set d.lines (map (line_of d.outs d.ins) ks)
          ∙ ap (λ t. map first_set d.lines ++ t) (first_set-lines d.outs d.ins ks)))
        (Side-spilled n d.outs (map first_set d.lines) (map second_set given) ks once
          (λ m.
            get_default-missing n d.outs
              (ground (arith, m, mem-union n (keys d.outs) (keys d.ins))))
          h.out_side);
  in_side =
      subst (λ ps. Side n [] ps (map first_set given))
        (sym (
          map-append second_set d.lines (map (line_of d.outs d.ins) ks)
          ∙ ap (λ t. map second_set d.lines ++ t) (second_set-lines d.outs d.ins ks)))
        (Side-spilled n d.ins (map second_set d.lines) (map first_set given) ks once
          (λ m.
            get_default-missing n d.ins (ground (arith, m, mem-union n (keys d.outs) (keys d.ins))))
          h.in_side);
}
  where
    ks : List ℕ
    ks = union (keys d.outs) (keys d.ins)

    once : NoRepeat ks
    once = union-NoRepeat (keys d.outs) (keys d.ins) (keys-NoRepeat d.outs h.outs_dict)

updated : Graph → Degree → Degree
updated nodes d = record d {
  ins = update_all d.ins (map first_set nodes);
  outs = update_all d.outs (map second_set nodes);
}

Holds-updated :
    (n : ℕ) (nodes : Graph) (d : Degree) (given : Graph)
    → Holds n d given
    → Holds n (updated nodes d) (given ++ nodes)
unfolding updated
Holds-updated n nodes d given h = record {
  outs_dict = update_all-IsDict (map second_set nodes) d.outs h.outs_dict;
  ins_dict = update_all-IsDict (map first_set nodes) d.ins h.ins_dict;
  out_side = rw (map-append second_set given nodes) (
      Side-update_all n d.outs (map first_set d.lines) (map second_set given) (map second_set nodes)
        h.out_side);
  in_side = rw (map-append first_set given nodes) (
      Side-update_all n d.ins (map second_set d.lines) (map first_set given) (map first_set nodes)
        h.in_side);
}

Holds-aggregate :
    (n threshold : ℕ) (nodes : Graph) (d : Degree) (given : Graph)
    → Holds n d given
    → Holds n (aggregate threshold nodes d) (given ++ nodes)
unfolding aggregate updated
Holds-aggregate n threshold nodes d given h =
    elim (Bool-cases (leb threshold (length (update_all d.outs (map second_set nodes))))) [
      | inl many ↦ rw many (Holds-spill n (updated nodes d) (given ++ nodes) next)
      | inr few ↦ rw few next
    ]
  where
    next : Holds n (updated nodes d) (given ++ nodes)
    next = Holds-updated n nodes d given h

Holds-run :
    (n threshold : ℕ) (events : List Event) (d : Degree) (given : Graph)
    → Holds n d given
    → Holds n (run threshold events d) (given ++ history events)
unfolding run on_event history
Holds-run n threshold [] d given h = rw append-nil h
Holds-run n threshold (message nodes ∷ events) d given h =
    subst (Holds n (run threshold events (aggregate threshold nodes d)))
      (append_assoc given nodes (history events))
      (Holds-run n threshold events (aggregate threshold nodes d) (given ++ nodes)
        (Holds-aggregate n threshold nodes d given h))
Holds-run n threshold (checkpoint ∷ events) d given h =
    Holds-run n threshold events (spill_to_disk d) given (Holds-spill n d given h)

Holds-init : (n : ℕ) → Holds n init []
unfolding of_node join
Holds-init n = record {
  outs_dict = tt;
  ins_dict = tt;
  out_side = ([], [], refl, nothing_kept n, refl);
  in_side = ([], [], refl, nothing_kept n, refl);
}

-- Reading the parts of a side gives full buckets to the nodes with five neighbours.
high-read :
    (n : ℕ) (read parts given : List (ℕ × List ℕ))
    → of_node n read ≡ of_node n parts
    → Side n [] parts given
    → mem n (high (update_all [] read)) ≡ leb 5 (length (union [] (neighbors n given)))
unfolding get_default get
high-read n read parts given same (xl, xm, ps, s, e) =
    mem-high n (update_all [] read) (update_all-IsDict read [] tt)
    ∙ (ap (λ b. leb 5 (length b)) (get_default-update_all n read [] ∙ ap (merge_all []) same)
        ∙ (full-Sums (merge_all [] (of_node n parts)) xl
              (Sums-Parts [] [] (of_node n parts) xl Sums-nil ps)
            ∙ ap (λ l. leb 5 (length (union [] l))) (sym all_spilled)))
  where
    all_spilled : neighbors n given ≡ xl
    all_spilled = e ∙ (ap (λ t. xl ++ t) (Sums-nil_only xm s) ∙ append-nil xl)

-- Whenever the state was spilled, and whatever the hash: `get_result` names as hi_out exactly the
-- nodes with five or more different successors in all of the client's messages, and as hi_in
-- those with five or more different predecessors.
pub get_result-exact :
    (hash : ℕ → ℕ) (threshold : ℕ) (events : List Event) (n : ℕ)
    → (mem n (get_result hash (run threshold events init)).0
        ≡ leb 5 (length (union [] (neighbors n (map second_set (history events))))))
      × (mem n (get_result hash (run threshold events init)).1
          ≡ leb 5 (length (union [] (neighbors n (map first_set (history events))))))
unfolding get_result
get_result-exact hash threshold events n = (
  high-read n _ (map first_set lines) (map second_set (history events))
      (of_node-shards_of hash (λ p. p.0) n lines) h.out_side,
  high-read n _ (map second_set lines) (map first_set (history events))
      (of_node-shards_of hash (λ p. p.1) n lines) h.in_side,
)
  where
    lines : List (ℕ × (List ℕ × List ℕ))
    lines = (spill_to_disk (run threshold events init)).lines

    h : Holds n (spill_to_disk (run threshold events init)) (history events)
    h =
        Holds-spill n (run threshold events init) (history events)
          (Holds-run n threshold events init [] (Holds-init n))
