-- ===== src/Ring/Completion/Phases.antt =====
-- The life of one client in ring_completion.py: when results are emitted, and what a closed or an
-- aborted client still does.
use distribuidos_tp_money_la.Prelude.{
  ℕ, ◌+◌, ◌≤◌, ◌≡◌, refl, Bool, true, false, [], ◌∷◌, arith, nat_eq, if◌then◌else◌, ◌↔◌,
}
use distribuidos_tp_money_la.Prelude.Int.{ℤ, pos, negsuc}
use distribuidos_tp_money_la.Collections.Dict.Laws.{beq_refl}
use distribuidos_tp_money_la.Collections.PySet.{mem}
use distribuidos_tp_money_la.Ring.Completion.{
  Client, is_processing, RingCompletion, emit, client, on_data, maybe_local_complete,
  is_locally_complete,
}
use distribuidos_tp_money_la.Ring.Completion.Clients.{client-set_client}

is_locally_complete_iff :
    (c : Client)
    → (is_locally_complete c ≡ true)
      ↔ ((is_processing c.phase ≡ true) × ((n : ℕ) × (c.expected ≡ pos n) × (n ≤ c.received)))
unfolding is_locally_complete
is_locally_complete_iff c =
    (expected_reached c.expected refl, λ h. complete c.expected refl h.0 h.1)
  where
    expected_reached :
        (x : ℤ)
        → c.expected ≡ x
        → is_locally_complete c ≡ true
        → (is_processing c.phase ≡ true) × ((n : ℕ) × (c.expected ≡ pos n) × (n ≤ c.received))
    expected_reached (pos n) e h = (ground arith, (n, e, ground arith))
    expected_reached (negsuc n) e h = absurd (ground arith)

    complete :
        (x : ℤ)
        → c.expected ≡ x
        → is_processing c.phase ≡ true
        → (n : ℕ) × (c.expected ≡ pos n) × (n ≤ c.received)
        → is_locally_complete c ≡ true
    complete x e p (n, e', le) = ground arith

-- the record of a client after one more message
abbrev pub counted : Client → Client
counted c = record c { received = c.received + 1 }

on_data_actions :
    (rc : RingCompletion) (cid : ℕ)
    → mem cid rc.aborted ≡ false
    → (on_data rc cid).1
      ≡ (if is_locally_complete (counted (client rc cid)) then emit cid ∷ [] else [])
unfolding on_data maybe_local_complete
on_data_actions rc cid live = rw live (rw client-set_client (rw (beq_refl cid) refl))

emit_iff : (b : Bool) (cid : ℕ) → ((if b then emit cid ∷ [] else []) ≡ emit cid ∷ []) ↔ (b ≡ true)
emit_iff b cid = ground arith

-- A message of a client that is not aborted makes the node emit exactly when nothing was emitted
-- before, the upstream EOF has come, and the count with this message reaches the expected one.
pub on_data-emit_iff :
    (rc : RingCompletion) (cid : ℕ)
    → mem cid rc.aborted ≡ false
    → ((on_data rc cid).1 ≡ emit cid ∷ []) ↔ (
        (is_processing (client rc cid).phase ≡ true)
        × ((n : ℕ) × ((client rc cid).expected ≡ pos n) × (n ≤ (client rc cid).received + 1)))
on_data-emit_iff rc cid live = rw (on_data_actions rc cid live) (
  λ h. (is_locally_complete_iff (counted (client rc cid))).0 ((emit_iff _ cid).0 h),
  λ h. (emit_iff _ cid).1 ((is_locally_complete_iff (counted (client rc cid))).1 h),
)
