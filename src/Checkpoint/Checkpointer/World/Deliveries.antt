-- ===== src/Checkpoint/Checkpointer/World/Deliveries.antt =====
-- A delivery takes an idle node to an idle node (`handle_data` of checkpointer.py).
use distribuidos_tp_money_la.Prelude.{
  ℕ, ◌≡◌, refl, ap, sym, ◌∙◌, subst, Bool, true, false, none, some, arith, nat_eq, ◌⊎◌, inl, inr,
  Bool-cases, some_inj, if_true, if_false, leb, length,
}
use distribuidos_tp_money_la.Collections.PySet.{mem}
use distribuidos_tp_money_la.Checkpoint.Deduplicator.{is_duplicate}
use distribuidos_tp_money_la.Checkpoint.Snapshotable.{Snapshotable}
use distribuidos_tp_money_la.Checkpoint.Checkpointer.{
  Msg, State, ack, checkpoint_and_flush, after_apply, handle_data,
}
use distribuidos_tp_money_la.Checkpoint.Checkpointer.World.{Setup, tags_of, seen_tag, deliver}
use distribuidos_tp_money_la.Checkpoint.Checkpointer.World.Steps.{ack-Inv}
use distribuidos_tp_money_la.Checkpoint.Checkpointer.World.Processing.{processed}
use distribuidos_tp_money_la.Checkpoint.Checkpointer.World.Idle.{
  Assumptions, Good, Idle, flushed-Good, relock-Good, processed-Good,
}

module _ {S X B : Type 0} (sS : Snapshotable S) (sX : Snapshotable X) (w : Setup S X B) where
  module _ (asm : Assumptions sS sX w) where
    -- A message that is neither of an aborted client nor a duplicate.
    process-Idle :
        (tag : ℕ) (c : State sS sX)
        → mem tag c.acked ≡ false
        → is_duplicate c.dedup (w.msg tag).producer_id (w.msg tag).seq ≡ false
        → Good sS sX w c
        → Idle sS sX w (
            after_apply sS sX
              (w.msg tag).producer_id
              (w.msg tag).seq
              tag
              (record c { node = w.process (w.msg tag) c.node; locked = true }))
    unfolding after_apply
    process-Idle tag c fresh new g =
        let c1 : State sS sX = record (processed sS sX w tag c) { locked = true } in
        let good1 : Good sS sX w c1 =
          relock-Good sS sX w asm true (processed sS sX w tag c)
            (processed-Good sS sX w asm tag c fresh new g) in
        let batch : Bool = leb c1.every (length c1.pending_acks) in
        let flushed : State sS sX = checkpoint_and_flush sS sX false c1 in
        elim (Bool-cases batch) [
          | inl full ↦ (
            subst (Good sS sX w)
                (ap (λ (x : State sS sX). record x { locked = false })
                  (sym (if_true batch flushed c1 full)))
                (relock-Good sS sX w asm false flushed (flushed-Good sS sX w asm false c1 good1)),
            refl,
          )
          | inr room ↦ (
            subst (Good sS sX w)
                (ap (λ (x : State sS sX). record x { locked = false })
                  (sym (if_false batch flushed c1 room)))
                (relock-Good sS sX w asm false c1 good1),
            refl,
          )
        ]

    ack-Good :
        (tag : ℕ) (c : State sS sX)
        → mem tag c.acked ≡ false
        → mem tag c.pending_acks ≡ false
        → (g : Good sS sX w c)
        → (mem (w.msg tag).client_id c.aborted ≡ true)
          ⊎ (seen_tag sS sX w tag (tags_of g.applied) ≡ true)
        → Good sS sX w (ack sS sX tag c)
    unfolding ack
    ack-Good tag c fresh idle g why = record {
      applied = g.applied;
      saved = g.saved;
      inv = unfold ack in ack-Inv sS sX w g.applied g.saved tag c asm.copies fresh idle why g.inv;
      synced = g.synced;
    }

    pub deliver-Idle :
        (tag : ℕ) (c c' : State sS sX)
        → mem tag c.acked ≡ false
        → mem tag c.pending_acks ≡ false
        → deliver sS sX w tag c ≡ some c'
        → Idle sS sX w c
        → Idle sS sX w c'
    unfolding deliver handle_data
    deliver-Idle tag c c' fresh idle h (g, free) =
        let m : Msg B = w.msg tag in
        let h1 = sym (if_false c.locked none _ free) ∙ h in
        elim (Bool-cases (mem m.client_id c.aborted)) [
          | inl dead ↦
              subst (Idle sS sX w) (some_inj (sym (if_true _ _ _ dead) ∙ h1))
                (ack-Good tag c fresh idle g (inl dead), unfold ack in free)
          | inr alive ↦
              let h2 = sym (if_false _ _ _ alive) ∙ h1 in
              elim (Bool-cases (is_duplicate c.dedup m.producer_id m.seq)) [
                | inl dup ↦
                    subst (Idle sS sX w) (some_inj (sym (if_true _ _ _ dup) ∙ h2))
                      (ack-Good tag c fresh idle g (inr (seen dup)), unfold ack in free)
                | inr new ↦
                    subst (Idle sS sX w) (some_inj (sym (if_false _ _ _ new) ∙ h2))
                      (process-Idle tag c fresh new g)
              ]
        ]
      where
        seen :
            is_duplicate c.dedup (w.msg tag).producer_id (w.msg tag).seq ≡ true
            → seen_tag sS sX w tag (tags_of g.applied) ≡ true
        seen dup =
            ground
              (arith, dup, asm.stamped tag, g.inv.dedup (w.msg tag).producer_id (w.msg tag).seq)
