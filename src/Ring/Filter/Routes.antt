-- ===== src/Ring/Filter/Routes.antt =====
-- What the broadcast filter sends and counts (ring_broadcast_filter.py).
use distribuidos_tp_money_la.Prelude.{ℕ, ◌+◌, ◌≡◌, nat_eq}
use distribuidos_tp_money_la.Ring.SentCounts.{SentCounts}
use distribuidos_tp_money_la.Ring.Node.{RingNode}
use distribuidos_tp_money_la.Ring.Node.Reports.{messages_to, counted_for}
use distribuidos_tp_money_la.Ring.Filter.{Stamped}

module _ {M : Type 0} (i : ℕ) (msg : Stamped M) where
  abbrev Even : RingNode SentCounts (Stamped M) → RingNode SentCounts (Stamped M) → Type 0
  Even a b =
      messages_to i b.sent + counted_for msg.client_id i a.fn
      ≡ messages_to i a.sent + counted_for msg.client_id i b.fn
