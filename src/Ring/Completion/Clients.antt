-- ===== src/Ring/Completion/Clients.antt =====
-- What the methods of ring_completion.py leave in the client records.
use distribuidos_tp_money_la.Prelude.{ℕ, ◌≡◌, ◌==◌, nat_eq, if◌then◌else◌, Bool-cases, inl, inr}
use distribuidos_tp_money_la.Collections.Dict.Laws.{get-put, get-pop, IsDict}
use distribuidos_tp_money_la.Ring.Completion.{
  Client, new_client, RingCompletion, client, set_client, drop,
}

pub client-set_client :
    (rc : RingCompletion) (k j : ℕ) (c : Client)
    → client (set_client rc k c) j ≡ (if k == j then c else client rc j)
unfolding client set_client
client-set_client rc k j c =
    rw get-put (elim (Bool-cases (k == j)) [ inl same ↦ rw same | inr other ↦ rw other ])

pub client-drop :
    (rc : RingCompletion) (k j : ℕ)
    → IsDict rc.clients
    → client (drop rc k) j ≡ (if k == j then new_client else client rc j)
unfolding client drop
client-drop rc k j h =
    rw (get-pop k j rc.clients h)
      (elim (Bool-cases (k == j)) [ inl same ↦ rw same | inr other ↦ rw other ])
