-- ===== src/Ring/Cluster/Barrier.antt =====
-- The methods of ring_completion.py that move the barrier's token keep a good node good.
use distribuidos_tp_money_la.Prelude.{
  ℕ, ◌≤◌, ◌≡◌, refl, Bool, true, false, inl, inr, List, [], ◌∷◌, arith, ◌==◌, nat_eq, length,
  Bool-cases, none, ltb,
}
use distribuidos_tp_money_la.Collections.Dict.{Dict, get, put}
use distribuidos_tp_money_la.Collections.Dict.Laws.{IsDict, put-IsDict}
use distribuidos_tp_money_la.Collections.PySet.{mem}
use distribuidos_tp_money_la.Ring.Completion.{
  RingCompletion, Client, BarrierToken, emitted, client, set_client, is_processing, is_done,
  report_sent, on_token, advance, close_barrier, record_slot,
}
use distribuidos_tp_money_la.Ring.Completion.Clients.{client-set_client}
use distribuidos_tp_money_la.Ring.Cluster.Slots.{
  left_processing, NodeOk, SlotsOk, TokenOk, full-EofOk,
}
use distribuidos_tp_money_la.Ring.Cluster.Methods.{Good, set_client-NodeOk}

module _ (peers : List ℕ) (result : ℕ → ℕ → Dict ℕ ℕ) where
  -- The node has a slot of its own in the token only if it has left PROCESSING.
  abbrev pub OwnSlot : ℕ → RingCompletion → BarrierToken → Type 0
  OwnSlot i rc t = is_processing (client rc t.client_id).phase ≡ true → get i t.sent_by ≡ none

  close_barrier-Good :
      ((p cid : ℕ) → IsDict (result p cid))
      → (i : ℕ) (rc : RingCompletion) (t : BarrierToken) → mem i peers ≡ true
      → NodeOk peers result i rc
      → TokenOk peers result t
      → OwnSlot i rc t
      → length peers ≤ length t.sent_by
      → Good peers result i (close_barrier rc t)
  unfolding close_barrier
  close_barrier-Good dicts i rc t here ok tok own le =
      elim (Bool-cases (is_done (client rc t.client_id).phase)) [
        | inl finished ↦
            rw finished
              (set_client-NodeOk peers result i t.client_id _ rc (ok.has_result t.client_id) ok, tt)
        | inr open_ ↦ rw open_ (
          set_client-NodeOk peers result i t.client_id _ rc
              (λ _. ok.has_result t.client_id (left_processing peers result i t here tok le _ own))
              ok,
          (full-EofOk peers result dicts t tok le, tt),
        )
      ]

  advance-Good :
      ((p cid : ℕ) → IsDict (result p cid))
      → (i : ℕ) (rc : RingCompletion) (t : BarrierToken) → mem i peers ≡ true
      → NodeOk peers result i rc
      → TokenOk peers result t
      → OwnSlot i rc t
      → Good peers result i (advance rc t)
  unfolding advance
  advance-Good dicts i rc t here ok tok own =
      elim (Bool-cases (ltb (length t.sent_by) rc.n_nodes)) [
        | inl short ↦ rw short (ok, (tok, tt))
        | inr full ↦ rw full (elim (Bool-cases (t.origin == rc.node_id)) [
          | inl mine ↦
              rw mine
                (close_barrier-Good dicts i rc t here ok tok own (full-le rc.n_nodes ok.size full))
          | inr other ↦ rw other (ok, (tok, tt))
        ])
      ]
    where
      full-le :
          (n : ℕ)
          → length peers ≤ n
          → ltb (length t.sent_by) n ≡ false
          → length peers ≤ length t.sent_by
      full-le n le h = ground arith

  SlotsOk-put :
      (cid i : ℕ) (v : Dict ℕ ℕ) (d : Dict ℕ (Dict ℕ ℕ))
      → mem i peers ≡ true
      → v ≡ result i cid
      → SlotsOk peers result cid d
      → SlotsOk peers result cid (put i v d)
  unfolding put
  SlotsOk-put cid i v [] here e h = ((here, e), tt)
  SlotsOk-put cid i v ((p, s) ∷ d) here e h = elim (Bool-cases (p == i)) [
    | inl same ↦ rw same (((h.0).0, ground (arith, e, same)), h.1)
    | inr other ↦ rw other (h.0, SlotsOk-put cid i v d here e h.1)
  ]

  record_slot-TokenOk :
      (i : ℕ) (rc : RingCompletion) (t : BarrierToken)
      → mem i peers ≡ true
      → NodeOk peers result i rc
      → TokenOk peers result t
      → TokenOk peers result (record_slot rc t)
  unfolding record_slot
  record_slot-TokenOk i rc t here ok tok =
      elim (Bool-cases (is_processing (client rc t.client_id).phase)) [
        | inl waiting ↦ rw waiting tok
        | inr reported ↦
            rw (reported, ok.id)
              (record {
                is_dict = put-IsDict i _ t.sent_by tok.is_dict;
                slots =
                    SlotsOk-put t.client_id i _ t.sent_by here (ok.has_result t.client_id reported)
                      tok.slots;
              })
      ]

  record_slot-client_id :
      (rc : RingCompletion) (t : BarrierToken) → (record_slot rc t).client_id ≡ t.client_id
  unfolding record_slot
  record_slot-client_id rc t = ground arith

  record_slot-OwnSlot :
      (i : ℕ) (rc : RingCompletion) (t : BarrierToken) (b : Bool)
      → is_processing (client rc t.client_id).phase ≡ b
      → OwnSlot i rc t
      → b ≡ true
      → get i (record_slot rc t).sent_by ≡ none
  unfolding record_slot
  record_slot-OwnSlot i rc t true e own h = rw e (own e)
  record_slot-OwnSlot i rc t false e own h = cc

  pub on_token-Good :
      ((p cid : ℕ) → IsDict (result p cid))
      → (i : ℕ) (rc : RingCompletion) (t : BarrierToken) → mem i peers ≡ true
      → NodeOk peers result i rc
      → TokenOk peers result t
      → OwnSlot i rc t
      → Good peers result i (on_token rc t)
  unfolding on_token
  on_token-Good dicts i rc t here ok tok own = elim (Bool-cases (mem t.client_id rc.aborted)) [
    | inl dead ↦ rw dead (ok, tt)
    | inr live ↦ rw live (
        advance-Good dicts i _ (record_slot rc t) here
          (set_client-NodeOk peers result i t.client_id _ rc (ok.has_result t.client_id) ok)
          (record_slot-TokenOk i rc t here ok tok)
          (λ h. record_slot-OwnSlot i rc t _ refl own (kept h)))
  ]
    where
      kept :
          is_processing
              (client
                (set_client rc t.client_id (client rc t.client_id))
                (record_slot rc t).client_id).phase
            ≡ true
          → is_processing (client rc t.client_id).phase ≡ true
      kept h = ground (
        arith,
        h,
        record_slot-client_id rc t,
        client-set_client rc t.client_id (record_slot rc t).client_id (client rc t.client_id),
      )

  pub report_sent-Good :
      ((p cid : ℕ) → IsDict (result p cid))
      → (i cid : ℕ) (sent : Dict ℕ ℕ) (rc : RingCompletion) → mem i peers ≡ true
      → sent ≡ result i cid
      → NodeOk peers result i rc
      → Good peers result i (report_sent rc cid sent)
  unfolding report_sent
  report_sent-Good dicts i cid sent rc here e ok =
      let c : Client = record (client rc cid) { sent = sent; phase = emitted } in
      let ok1 : NodeOk peers result i (set_client rc cid c) =
        set_client-NodeOk peers result i cid c rc (λ _. e) ok in
      elim (Bool-cases (is_processing (client rc cid).phase)) [
        | inl waiting ↦ rw waiting (elim (Bool-cases (rc.node_id == rc.leader)) [
          | inl leads ↦ rw leads (
              advance-Good dicts i (set_client rc cid c)
                (record { client_id = cid; origin = rc.leader; sent_by = (rc.node_id, sent) ∷ [] })
                here ok1
                (record {
                  is_dict = (tt, tt);
                  slots = ((rw ok.id here, ground (arith, e, ok.id)), tt);
                })
                (λ h. absurd (ground (arith, h, client-set_client rc cid cid c))))
          | inr follows ↦ rw follows (ok1, tt)
        ])
        | inr reported ↦
            rw reported
              (set_client-NodeOk peers result i cid (client rc cid) rc (ok.has_result cid) ok, tt)
      ]
