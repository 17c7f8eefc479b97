-- ===== src/Join/Counting.antt =====
-- The counts of the join (`_JoinCounts` of join_route_handler.py).
use distribuidos_tp_money_la.Prelude.{
  ℕ, zero, suc, ◌+◌, ◌≤◌, ◌≡◌, ◌↔◌, ◌∙◌, refl, ap, true, some, nat_eq, arith,
}
use distribuidos_tp_money_la.Prelude.Int.{pos}
use distribuidos_tp_money_la.Collections.Dict.{get, get_default, get_or}
use distribuidos_tp_money_la.Collections.Dict.Laws.{get-put_self}
use distribuidos_tp_money_la.Join.{JoinCounts, inc_received, set_expected, is_complete}

-- the received messages of a client, `n` of them
unfoldable pub receive_many : ℕ → ℕ → JoinCounts → JoinCounts
unfolding inc_received
receive_many cid zero k = k
receive_many cid (suc n) k = inc_received cid (receive_many cid n k)

-- the count of a client
abbrev count_for : ℕ → JoinCounts → ℕ
count_for cid k = get_default cid 0 k.received

receive_many-count :
    (cid n : ℕ) (k : JoinCounts) → count_for cid (receive_many cid n k) ≡ n + count_for cid k
unfolding receive_many get_default
receive_many-count cid zero k = omega arith
receive_many-count cid (suc n) k =
    ap (λ o. get_or o 0) (get-put_self cid _ (receive_many cid n k).received)
    ∙ omega (arith, receive_many-count cid n k)

receive_many-expected : (cid n : ℕ) (k : JoinCounts) → (receive_many cid n k).expected ≡ k.expected
unfolding receive_many
receive_many-expected cid zero k = refl
receive_many-expected cid (suc n) k = receive_many-expected cid n k

-- A client with an expected count is complete exactly when at least that many messages came: those
-- counted before its EOF and `n` after it.
pub is_complete_iff :
    (cid n expected : ℕ) (k : JoinCounts)
    → (is_complete cid (receive_many cid n (set_expected cid (pos expected) k)) ≡ true)
      ↔ (expected ≤ n + get_default cid 0 k.received)
unfolding is_complete set_expected get_default
is_complete_iff cid n expected k = rw stored (rw total (ground arith, ground arith))
  where
    k1 : JoinCounts
    k1 = set_expected cid (pos expected) k

    stored : get cid (receive_many cid n k1).expected ≡ some (pos expected)
    stored =
        ap (get cid) (receive_many-expected cid n k1) ∙ get-put_self cid (pos expected) k.expected

    total : get_or (get cid (receive_many cid n k1).received) 0 ≡ n + get_or (get cid k.received) 0
    total = receive_many-count cid n k1
