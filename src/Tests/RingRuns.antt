-- ===== src/Tests/RingRuns.antt =====
-- Runs of the ring (ring_completion.py, ring_node.py).
use distribuidos_tp_money_la.Prelude.{
  some, none, Option, List, ℕ, ◌+◌, ◌≡◌, ◌↔◌, refl, true, [], ◌∷◌, All, arith, nat_eq, ◌++◌, ◌≤◌,
  inl,
}
use distribuidos_tp_money_la.Prelude.Int.{pos}
use distribuidos_tp_money_la.Collections.Dict.{Dict, get, put, get_default}
use distribuidos_tp_money_la.Collections.PySet.{mem}
use distribuidos_tp_money_la.Ring.Completion.Snapshot.{
  Texts, ReadsBack, snapshot_state, restore_state, restore_state-snapshot_state,
}
use distribuidos_tp_money_la.Ring.Completion.{
  processing, done, is_processing, BarrierToken, emit, RingCompletion, init, least, client,
  set_client, on_data, on_upstream_eof, report_sent, on_token, drop, maybe_local_complete,
  is_locally_complete, advance, close_barrier, record_slot,
}
use distribuidos_tp_money_la.Ring.Completion.Counts.{count_of, sum_of}
use distribuidos_tp_money_la.Ring.Completion.Phases.{on_data-emit_iff}
use distribuidos_tp_money_la.Ring.Cluster.{
  Event, on_message, on_eof, report, token, handle, forwarded, closed, Cluster, set_node,
  range_from, without, peer_ids, start, act, Reach, here, next,
}
use distribuidos_tp_money_la.Ring.Cluster.Safety.{downstream_eof_exact}
use distribuidos_tp_money_la.Ring.Cluster.Once.{output_for, run}
use distribuidos_tp_money_la.Ring.Cluster.Restarts.{
  Durable, Life, happens, flushed, restarted, run_life, closed_once,
}
use distribuidos_tp_money_la.Ring.Cluster.Silence.{actions_for}
use distribuidos_tp_money_la.Ring.Cluster.Aborted.{drop_silences}

-- each of two nodes sent its number plus one messages to shard 0
abbrev result : ℕ → ℕ → Dict ℕ ℕ
result p cid = (0, p + 1) ∷ []

abbrev acted : Cluster → ℕ → Event → Cluster
acted s i e = record s {
  node = set_node s.node i (handle e (s.node i)).0;
  tokens = forwarded (handle e (s.node i)).1 ++ s.tokens;
  eofs = closed (handle e (s.node i)).1 ++ s.eofs;
}

abbrev first_token : BarrierToken
first_token = record { client_id = 7; origin = 0; sent_by = (0, result 0 7) ∷ [] }

abbrev full_token : BarrierToken
full_token = record { client_id = 7; origin = 0; sent_by = (0, result 0 7) ∷ (1, result 1 7) ∷ [] }

abbrev reported : Cluster
reported =
    acted
      (acted (acted (acted (start 2) 0 (on_eof 7 (pos 0))) 0 (report 7 (result 0 7))) 1
        (on_eof 7 (pos 0)))
      1 (report 7 (result 1 7))

abbrev passed : Cluster
passed = acted (acted reported 1 (token first_token)) 0 (token full_token)

passed-Reach : Reach 2 result passed
unfolding handle start init peer_ids range_from without least client set_client on_upstream_eof
    report_sent on_token maybe_local_complete is_locally_complete advance close_barrier record_slot
    get_default get put mem
passed-Reach =
    next
      (next
        (next
          (next
            (next (next here (act _ 0 (on_eof 7 (pos 0)) refl tt))
              (act _ 0 (report 7 (result 0 7)) refl refl))
            (act _ 1 (on_eof 7 (pos 0)) refl tt))
          (act _ 1 (report 7 (result 1 7)) refl refl))
        (act _ 1 (token first_token) refl (inl refl, λ h. absurd (ground arith))))
      (act _ 0 (token full_token) refl (inl refl, λ h. absurd (ground arith)))

downstream_eof_exact_example :
    All
      (λ (e : ℕ × Dict ℕ ℕ).
        (shard : ℕ)
        → count_of shard e.1 ≡ sum_of (λ p. count_of shard (result p e.0)) (range_from 0 2))
      passed.eofs
downstream_eof_exact_example = downstream_eof_exact (λ p cid. (tt, tt)) passed-Reach

-- a node that closed the barrier of client 7
abbrev closed_node : RingCompletion
closed_node = record {
  node_id = 0;
  n_nodes = 1;
  leader = 0;
  clients = (7, record { expected = pos 1; received = 1; sent = (0, 1) ∷ []; phase = done }) ∷ [];
  aborted = [];
}

-- client 7 waits for its second message
abbrev waiting_node : RingCompletion
waiting_node = record closed_node {
  clients = (7, record { expected = pos 2; received = 1; sent = []; phase = processing }) ∷ [];
}

-- the store is behind: client 7 still waits there
abbrev behind : Durable
behind = record { live = closed_node; stored = waiting_node }

abbrev later : List Life
later = happens (on_eof 7 (pos 1)) ∷ restarted ∷ happens (token first_token) ∷ restarted ∷ []

closed_once_example : output_for 7 (run_life (flushed ∷ later) behind).1 ≡ []
closed_once_example =
    closed_once 7 later behind (tt, (tt, (tt, (tt, tt)))) (unfold client get_default get in refl)

drop_silences_example :
    actions_for 7 (run (on_message 7 ∷ token first_token ∷ []) (drop closed_node 7)).1 ≡ []
drop_silences_example =
    drop_silences 7 (on_message 7 ∷ token first_token ∷ []) closed_node (tt, tt) tt

on_data-emit_iff_example : ((on_data waiting_node 7).1 ≡ emit 7 ∷ []) ↔ (
    (is_processing (client waiting_node 7).phase ≡ true)
    × ((n : ℕ) × ((client waiting_node 7).expected ≡ pos n)
        × (n ≤ (client waiting_node 7).received + 1)))
on_data-emit_iff_example = on_data-emit_iff waiting_node 7 (unfold mem in refl)

-- a text of one character for each number
abbrev code_of : List ℕ → Option ℕ
code_of [] = none
code_of (n ∷ []) = some n
code_of (_ ∷ _ ∷ _) = none

abbrev one_character : Texts
one_character = record {
  str_id = λ n. n ∷ [];
  uuid = code_of;
  str_int = λ n. n ∷ [];
  int_of = code_of;
}

one_character-ReadsBack : ReadsBack one_character
one_character-ReadsBack = record { uuid-str_id = λ n. refl; int_of-str_int = λ n. refl }

restore_state-snapshot_state_example :
    restore_state one_character waiting_node (snapshot_state one_character closed_node)
    ≡ some (record waiting_node { clients = closed_node.clients; aborted = closed_node.aborted })
restore_state-snapshot_state_example =
    restore_state-snapshot_state one_character one_character-ReadsBack waiting_node closed_node
      (tt, tt) ((tt, tt), tt) tt
