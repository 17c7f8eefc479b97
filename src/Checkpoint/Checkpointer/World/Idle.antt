-- ===== src/Checkpoint/Checkpointer/World/Idle.antt =====
-- States between two operations of the checkpointer (checkpointer.py), and a flush of one.
use distribuidos_tp_money_la.Prelude.{
  ℕ, ◌≡◌, sym, ◌∙◌, subst, Bool, false, ◌||◌, none, some, List, [], ◌∷◌, arith, ◌==◌, nat_eq, inl,
  inr, Bool-cases, some_inj, if_false,
}
use distribuidos_tp_money_la.Collections.PySet.{mem}
use distribuidos_tp_money_la.Checkpoint.Deduplicator.{is_duplicate}
use distribuidos_tp_money_la.Checkpoint.Snapshotable.{Snapshotable}
use distribuidos_tp_money_la.Checkpoint.Checkpointer.{
  Msg, Node, State, save, ack_pending, take_blob, checkpoint_and_flush, flush,
}
use distribuidos_tp_money_la.Checkpoint.Checkpointer.World.{
  Setup, Handler, discarding, controlling, Change, delivered, handled, tags_of, ValidNode, effect,
  replay, seen_tag,
}
use distribuidos_tp_money_la.Checkpoint.Checkpointer.World.Invariant.{
  SameId, stored_aborts, Inv, relock-Inv,
}
use distribuidos_tp_money_la.Checkpoint.Checkpointer.World.Processing.{
  processed, processed-Inv, checkpoint_and_flush-Inv,
}

module _ {S X B : Type 0} (sS : Snapshotable S) (sX : Snapshotable X) (w : Setup S X B) where
  -- What is asked of the program around the checkpointer: the states stay valid, a process starts
  -- from a valid state without stale files, data messages carry a sequence number above 0, and
  -- copies of a message belong to one client.
  pub record Assumptions : Type 0 where
    pub valid_start : ValidNode sS sX w.node0 w.node0
    pub valid_step :
        (m : Msg B) (n : Node S X)
        → ValidNode sS sX w.node0 n
        → ValidNode sS sX w.node0 (w.process m n)
    pub valid_discard :
        (cid : ℕ) (n : Node S X)
        → ValidNode sS sX w.node0 n
        → ValidNode sS sX w.node0 (w.discard cid n)
    pub valid_control :
        (k : ℕ) (n : Node S X) → ValidNode sS sX w.node0 n → ValidNode sS sX w.node0 (w.control k n)
    pub clean_start : sS.clear_stale w.node0.fn ≡ w.node0.fn
    pub stamped : (t : ℕ) → ((w.msg t).seq == 0) ≡ false
    pub copies : (t u : ℕ) → SameId sS sX w t u → (w.msg t).client_id ≡ (w.msg u).client_id

  pub record Good (c : State sS sX) : Type 0 where
    pub applied : List Change
    pub saved : List Change
    pub inv : Inv sS sX w applied saved c
    pub synced : c.aborted ≡ stored_aborts sS sX w c.store

  -- Nobody holds the lock between two operations.
  abbrev pub Idle : State sS sX → Type 0
  Idle c = Good c × (c.locked ≡ false)

  module _ (asm : Assumptions) where
    effect-ValidNode :
        (h : Handler) (n : Node S X)
        → ValidNode sS sX w.node0 n
        → ValidNode sS sX w.node0 (effect sS sX w h n)
    effect-ValidNode (discarding cid) n v = asm.valid_discard cid n v
    effect-ValidNode (controlling k) n v = asm.valid_control k n v

    replay-ValidNode : (changes : List Change) → ValidNode sS sX w.node0 (replay sS sX w changes)
    unfolding replay
    replay-ValidNode [] = asm.valid_start
    replay-ValidNode (delivered t ∷ changes) = asm.valid_step (w.msg t) _ (replay-ValidNode changes)
    replay-ValidNode (handled h ∷ changes) = effect-ValidNode h _ (replay-ValidNode changes)

    pub Inv-ValidNode :
        (applied saved : List Change) (c : State sS sX)
        → Inv sS sX w applied saved c
        → ValidNode sS sX w.node0 c.node
    Inv-ValidNode applied saved c inv =
        subst (ValidNode sS sX w.node0) (sym inv.node) (replay-ValidNode applied)

    flushed-synced :
        (force : Bool) (c : State sS sX)
        → c.aborted ≡ stored_aborts sS sX w c.store
        → (checkpoint_and_flush sS sX force c).aborted
          ≡ stored_aborts sS sX w (checkpoint_and_flush sS sX force c).store
    unfolding checkpoint_and_flush save take_blob ack_pending
    flushed-synced force c e = elim (Bool-cases (c.dirty || force)) [
      | inl stores ↦ rw stores
      | inr idle ↦ rw idle e
    ]

    pub flushed-Good :
        (force : Bool) (c : State sS sX) → Good c → Good (checkpoint_and_flush sS sX force c)
    flushed-Good force c g = record {
      applied = g.applied;
      saved = g.applied;
      inv =
          checkpoint_and_flush-Inv sS sX w g.applied g.saved force c
            (Inv-ValidNode g.applied g.saved c g.inv) g.inv;
      synced = flushed-synced force c g.synced;
    }

    pub relock-Good : (held : Bool) (c : State sS sX) → Good c → Good (record c { locked = held })
    relock-Good held c g = record {
      applied = g.applied;
      saved = g.saved;
      inv = relock-Inv sS sX w g.applied g.saved held c g.inv;
      synced = g.synced;
    }

    pub locked-flush :
        (force : Bool) (c : State sS sX) → (checkpoint_and_flush sS sX force c).locked ≡ c.locked
    unfolding checkpoint_and_flush save ack_pending
    locked-flush force c = elim (Bool-cases (c.dirty || force)) [
      | inl stores ↦ rw stores
      | inr idle ↦ rw idle
    ]

    pub flush-Idle :
        (force : Bool) (c c' : State sS sX) → flush sS sX force c ≡ some c' → Idle c → Idle c'
    unfolding flush
    flush-Idle force c c' h (g, free) =
        subst Idle (some_inj (sym (if_false c.locked none _ free) ∙ h))
          (flushed-Good force c g, locked-flush force c ∙ free)

    pub processed-Good :
        (tag : ℕ) (c : State sS sX)
        → mem tag c.acked ≡ false
        → is_duplicate c.dedup (w.msg tag).producer_id (w.msg tag).seq ≡ false
        → Good c
        → Good (processed sS sX w tag c)
    processed-Good tag c fresh new g = record {
      applied = delivered tag ∷ g.applied;
      saved = g.saved;
      inv = processed-Inv sS sX w g.applied g.saved tag c (asm.stamped tag) fresh unseen g.inv;
      synced = g.synced;
    }
      where
        unseen : seen_tag sS sX w tag (tags_of g.applied) ≡ false
        unseen =
            ground
              (arith, new, asm.stamped tag, g.inv.dedup (w.msg tag).producer_id (w.msg tag).seq)
