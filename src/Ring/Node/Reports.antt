-- ===== src/Ring/Node/Reports.antt =====
-- The counts that a node reports against the messages that it sent (ring_node.py,
-- ring_aggregate.py, ring_group_by.py).
use distribuidos_tp_money_la.Prelude.{
  ℕ, zero, suc, ◌+◌, ◌%◌, ◌≡◌, ◌∙◌, refl, ap, Bool, true, false, List, [], ◌∷◌, ◌++◌, if◌then◌else◌,
  ◌==◌, nat_eq, arith, Bool-cases, inl, inr,
}
use distribuidos_tp_money_la.Collections.Dict.{Dict, get, put, get_default, get_or}
use distribuidos_tp_money_la.Collections.Dict.Laws.{get-put, get-put_self}
use distribuidos_tp_money_la.Ring.SentCounts.{SentCounts, add_sent}
use distribuidos_tp_money_la.Ring.Node.{
  Output, message, eof, abort_client, ring_barrier, RingNode, send, broadcast, emit_results,
}

count_of_put :
    (i shard : ℕ) (sent : Dict ℕ ℕ)
    → get_default i 0 (put shard (get_default shard 0 sent + 1) sent)
      ≡ (if shard == i then get_default i 0 sent + 1 else get_default i 0 sent)
unfolding get_default
count_of_put i shard sent =
    ap (λ o. get_or o 0) (get-put shard i (get_or (get shard sent) 0 + 1) sent)
    ∙ elim (Bool-cases (shard == i)) [
      | inl e ↦ rw e (ap (λ k. get_or (get k sent) 0 + 1) (ground (arith, e)))
      | inr ne ↦ rw ne refl
    ]

-- What a stateless node counted for a client and a shard.
abbrev pub counted_for : ℕ → ℕ → SentCounts → ℕ
counted_for cid i counts = get_default i 0 (get_default cid [] counts)

pub counted_for-add_sent :
    (cid i shard : ℕ) (counts : SentCounts)
    → counted_for cid i (add_sent cid shard counts)
      ≡ (if shard == i then counted_for cid i counts + 1 else counted_for cid i counts)
unfolding add_sent get_default
counted_for-add_sent cid i shard counts =
    ap (λ o. get_or (get i (get_or o [])) 0)
      (get-put_self cid
        (put shard (get_or (get shard (get_or (get cid counts) [])) 0 + 1)
          (get_or (get cid counts) []))
        counts)
    ∙ unfold get_default in count_of_put i shard (get_or (get cid counts) [])

abbrev pub empty_counts : Dict ℕ ℕ
empty_counts = []

pub get_default_nil : (i : ℕ) → get_default i 0 empty_counts ≡ 0
unfolding get_default get
get_default_nil i = refl

module _ {M : Type 0} where
  -- the messages that were sent to a shard
  unfoldable pub messages_to : ℕ → List (Output M) → ℕ
  messages_to i [] = 0
  messages_to i (message j m ∷ sent) =
      let rest = messages_to i sent in if j == i then rest + 1 else rest
  messages_to i (eof j cid n ∷ sent) = messages_to i sent
  messages_to i (abort_client j cid ∷ sent) = messages_to i sent
  messages_to i (ring_barrier t ∷ sent) = messages_to i sent

  pub messages_to-append :
      (i j : ℕ) (m : M) (sent : List (Output M))
      → messages_to i (sent ++ message j m ∷ [])
        ≡ (if j == i then messages_to i sent + 1 else messages_to i sent)
  unfolding messages_to
  messages_to-append i j m [] = ground arith
  messages_to-append i j m (message k x ∷ sent) = ground (arith, messages_to-append i j m sent)
  messages_to-append i j m (eof k cid n ∷ sent) = messages_to-append i j m sent
  messages_to-append i j m (abort_client k cid ∷ sent) = messages_to-append i j m sent
  messages_to-append i j m (ring_barrier t ∷ sent) = messages_to-append i j m sent

  module _ {F : Type 0} where
    -- How far the counts are ahead of what was sent to a shard stays the same.
    abbrev pub Balanced : ℕ → RingNode F M × Dict ℕ ℕ → RingNode F M × Dict ℕ ℕ → Type 0
    Balanced i a b =
        messages_to i b.0.sent + get_default i 0 a.1 ≡ messages_to i a.0.sent + get_default i 0 b.1

    pub one-Balanced :
        (i shard : ℕ) (m : M) (node : RingNode F M) (sent : Dict ℕ ℕ)
        → Balanced i
            (node, sent)
            (send (message shard m) node, put shard (get_default shard 0 sent + 1) sent)
    unfolding send
    one-Balanced i shard m node sent =
        ground (arith, messages_to-append i shard m node.sent, count_of_put i shard sent)

    broadcast-Balanced :
        (i shard n : ℕ) (m : M) (node : RingNode F M) (sent : Dict ℕ ℕ)
        → Balanced i (node, sent) (broadcast shard n m (node, sent))
    unfolding broadcast
    broadcast-Balanced i shard zero m node sent = refl
    broadcast-Balanced i shard (suc n) m node sent = omega (
      arith,
      one-Balanced i shard m node sent,
      broadcast-Balanced i (shard + 1) n m (send (message shard m) node)
          (put shard (get_default shard 0 sent + 1) sent),
    )

    emit_results-Balanced :
        (i : ℕ) (b : Bool) (results : List (M × ℕ)) (node : RingNode F M) (sent : Dict ℕ ℕ)
        → Balanced i (node, sent) (emit_results b results (node, sent))
    unfolding emit_results
    emit_results-Balanced i b [] node sent = refl
    emit_results-Balanced i true ((m, affinity) ∷ results) node sent =
        let r = broadcast 0 node.external_txs m (node, sent) in
        omega (
          arith,
          broadcast-Balanced i 0 node.external_txs m node sent,
          emit_results-Balanced i true results r.0 r.1,
        )
    emit_results-Balanced i false ((m, affinity) ∷ results) node sent =
        let shard = affinity % node.external_txs in
        omega (
          arith,
          one-Balanced i shard m node sent,
          emit_results-Balanced i false results (send (message shard m) node)
              (put shard (get_default shard 0 sent + 1) sent),
        )

    -- The counts that an aggregate reports for a client are, for every shard, the number of
    -- messages that emitting the client's results added to that shard, whether the results are
    -- routed by affinity or broadcast.
    pub emit_results-counts :
        (i : ℕ) (b : Bool) (results : List (M × ℕ)) (node : RingNode F M)
        → messages_to i (emit_results b results (node, [])).0.sent
          ≡ messages_to i node.sent + get_default i 0 (emit_results b results (node, [])).1
    emit_results-counts i b results node =
        omega (arith, emit_results-Balanced i b results node [], get_default_nil i)

  -- What a stateless node sent to a shard and what it counted for it grow together.
  abbrev Together : ℕ → ℕ → RingNode SentCounts M → RingNode SentCounts M → Type 0
  Together cid i a b =
      messages_to i b.sent + counted_for cid i a.fn ≡ messages_to i a.sent + counted_for cid i b.fn
