-- ===== src/Checkpoint/Checkpointer/World/Handlers.antt =====
-- An abort and the other handlers that end in a flush take an idle node to an idle node
-- (`mark_aborted` of checkpointer.py, `_on_abort`, `_on_eof` and `_on_ring_msg` of ring_node.py).
use distribuidos_tp_money_la.Prelude.{
  ◌>>=◌, ℕ, ◌≡◌, refl, ap, sym, ◌∙◌, subst, true, Option, none, some, List, ◌∷◌, arith, nat_eq, inl,
  inr, Bool-cases, some_inj, if_false,
}
use distribuidos_tp_money_la.Collections.PySet.{mem, add, mem-add}
use distribuidos_tp_money_la.Collections.Members.{All-map}
use distribuidos_tp_money_la.Checkpoint.Snapshotable.{Snapshotable}
use distribuidos_tp_money_la.Checkpoint.Checkpointer.{
  State, save, ack_pending, take_blob, checkpoint_and_flush, flush, mark_aborted,
}
use distribuidos_tp_money_la.Checkpoint.Checkpointer.World.{
  Setup, Handler, discarding, controlling, Change, handled, tags_of, effect, replay, abort, control,
}
use distribuidos_tp_money_la.Checkpoint.Checkpointer.World.Invariant.{Safe, stored_aborts, Inv}
use distribuidos_tp_money_la.Checkpoint.Checkpointer.World.Processing.{checkpoint_and_flush-Inv}
use distribuidos_tp_money_la.Checkpoint.Checkpointer.World.Idle.{
  Assumptions, Idle, Inv-ValidNode, locked-flush,
}

module _ {S X B : Type 0} (sS : Snapshotable S) (sX : Snapshotable X) (w : Setup S X B) where
  module _ (asm : Assumptions sS sX w) where
    -- A handler changed the node, and tombstones may have come, before a checkpoint is stored.
    changed-Inv :
        (applied saved : List Change) (h : Handler) (aborted : List ℕ) (c : State sS sX)
        → ((k : ℕ) → mem k c.aborted ≡ true → mem k aborted ≡ true)
        → Inv sS sX w applied saved c
        → Inv sS sX w
            (handled h ∷ applied)
            saved
            (record c { node = effect sS sX w h c.node; aborted = aborted; dirty = true })
    changed-Inv applied saved h aborted c more inv = record {
      node = unfold replay in ap (effect sS sX w h) inv.node;
      dedup = inv.dedup;
      stored = inv.stored;
      clean = λ h. cc;
      pending_open = inv.pending_open;
      pending_applied = inv.pending_applied;
      covered = inv.covered;
      saved_kept = inv.saved_kept;
      acked_safe = All-map _ _ c.acked (λ a. keep a) inv.acked_safe;
      distinct = inv.distinct;
      saved_distinct = inv.saved_distinct;
    }
      where
        keep :
            (a : ℕ)
            → Safe sS sX w (tags_of saved) c.aborted c.acked a
            → Safe sS sX w (tags_of saved) aborted c.acked a
        keep a (inl s) = inl s
        keep a (inr (inl dead)) = inr (inl (more (w.msg a).client_id dead))
        keep a (inr (inr copy)) = inr (inr copy)

    -- What a handler's forced checkpoint makes of it.
    changed-Idle :
        (h : Handler) (aborted : List ℕ) (c : State sS sX)
        → ((k : ℕ) → mem k c.aborted ≡ true → mem k aborted ≡ true)
        → Idle sS sX w c
        → Idle sS sX w (
            checkpoint_and_flush sS sX true
              (record c { node = effect sS sX w h c.node; aborted = aborted; dirty = true }))
    changed-Idle h aborted c more (g, free) =
        let c1 : State sS sX = record c {
          node = effect sS sX w h c.node;
          aborted = aborted;
          dirty = true;
        } in
        let inv1 : Inv sS sX w (handled h ∷ g.applied) g.saved c1 =
          changed-Inv g.applied g.saved h aborted c more g.inv in
        let stored_now : (checkpoint_and_flush sS sX true c1).aborted
            ≡ stored_aborts sS sX w (checkpoint_and_flush sS sX true c1).store =
          unfold checkpoint_and_flush save take_blob ack_pending in refl in
        (
          record {
            applied = handled h ∷ g.applied;
            saved = handled h ∷ g.applied;
            inv =
                checkpoint_and_flush-Inv sS sX w (handled h ∷ g.applied) g.saved true c1
                  (Inv-ValidNode sS sX w asm (handled h ∷ g.applied) g.saved c1 inv1) inv1;
            synced = stored_now;
          },
          locked-flush sS sX w asm true c1 ∙ free,
        )

    pub abort-Idle :
        (cid : ℕ) (c c' : State sS sX)
        → abort sS sX w cid c ≡ some c'
        → Idle sS sX w c
        → Idle sS sX w c'
    unfolding abort flush mark_aborted
    abort-Idle cid c c' h (g, free) =
        let c0 : State sS sX = record c { node = w.discard cid c.node } in
        let c1 : State sS sX = record c0 { aborted = add cid c.aborted; dirty = true } in
        let m : mark_aborted sS sX cid c0 ≡ some c1 = if_false c.locked none (some c1) free in
        let f : flush sS sX true c1 ≡ some (checkpoint_and_flush sS sX true c1) =
          if_false c.locked none _ free in
        let e : abort sS sX w cid c ≡ some (checkpoint_and_flush sS sX true c1) =
          ap (λ (x : Option (State sS sX)). x >>= flush sS sX true) m ∙ f in
        subst (Idle sS sX w) (some_inj (sym e ∙ h)) (
          changed-Idle (discarding cid) (add cid c.aborted) c
            (λ k dead. ground (arith, mem-add cid k c.aborted, dead)) (g, free))

    -- A forced checkpoint is stored, whether anything was marked as changed or not.
    forced :
        (c : State sS sX)
        → checkpoint_and_flush sS sX true c
          ≡ checkpoint_and_flush sS sX true (record c { dirty = true })
    unfolding checkpoint_and_flush save take_blob
    forced c = elim (Bool-cases c.dirty) [ inl d ↦ rw d refl | inr n ↦ rw n refl ]

    pub control-Idle :
        (k : ℕ) (c c' : State sS sX)
        → control sS sX w k c ≡ some c'
        → Idle sS sX w c
        → Idle sS sX w c'
    unfolding control flush
    control-Idle k c c' h (g, free) =
        let c1 : State sS sX = record c { node = w.control k c.node } in
        let e : control sS sX w k c
            ≡ some (checkpoint_and_flush sS sX true (record c1 { dirty = true })) =
          if_false c.locked none _ free ∙ ap some (forced c1) in
        subst (Idle sS sX w) (some_inj (sym e ∙ h))
          (changed-Idle (controlling k) c.aborted c (λ j dead. dead) (g, free))
