-- ===== src/Checkpoint/Checkpointer/World/Processing.antt =====
-- A new message is processed, and a checkpoint is taken (checkpointer.py).
use distribuidos_tp_money_la.Prelude.{
  ℕ, ◌≡◌, refl, ap, sym, ◌∙◌, subst, Bool, true, false, ◌||◌, List, [], ◌∷◌, ◌++◌, arith, ◌==◌,
  nat_eq, string_eq, All, ◌⊎◌, inl, inr, Bool-cases,
}
use distribuidos_tp_money_la.Collections.PySet.{mem}
use distribuidos_tp_money_la.Collections.Members.{All-append, All-map}
use distribuidos_tp_money_la.Collections.Dict.Laws.{beq_refl}
use distribuidos_tp_money_la.Checkpoint.Deduplicator
use distribuidos_tp_money_la.Checkpoint.Deduplicator.{is_duplicate}
use distribuidos_tp_money_la.Checkpoint.Deduplicator.Seen.{is_duplicate-record_seq}
use distribuidos_tp_money_la.Checkpoint.Deduplicator.Snapshot.{is_duplicate-restore}
use distribuidos_tp_money_la.Checkpoint.Snapshotable.{Snapshotable}
use distribuidos_tp_money_la.Checkpoint.Checkpointer.{
  State, init, save, restore_blob, take_blob, checkpoint_and_flush,
}
use distribuidos_tp_money_la.Checkpoint.Checkpointer.Entries.{restore_entries-snapshot}
use distribuidos_tp_money_la.Checkpoint.Checkpointer.World.{
  Setup, Change, delivered, tags_of, ValidNode, replay, seen_in, seen_tag,
}
use distribuidos_tp_money_la.Checkpoint.Checkpointer.World.Invariant.{
  Safe, Knows, Inv, seen_in-append,
}
use distribuidos_tp_money_la.Checkpoint.Checkpointer.World.Steps.{ack_pending-Inv}

All-trivial : (d : List (ℕ × ℕ)) → All (λ _. Unit {0}) d
All-trivial [] = tt
All-trivial (x ∷ d) = (tt, All-trivial d)

module _ {S X B : Type 0} (sS : Snapshotable S) (sX : Snapshotable X) (w : Setup S X B) where
  seen_in-cons :
      (tag p s : ℕ) (tags : List ℕ)
      → seen_in sS sX w p s tags ≡ true
      → seen_in sS sX w p s (tag ∷ tags) ≡ true
  unfolding seen_in
  seen_in-cons tag p s tags h = ground arith

  latest_seen :
      (tag p s : ℕ) (applied : List ℕ)
      → seen_in sS sX w p s applied ≡ false
      → seen_in sS sX w p s (tag ∷ applied) ≡ true
      → seen_in sS sX w p s (tag ∷ []) ≡ true
  unfolding seen_in
  latest_seen tag p s applied o h = ground arith

  -- The state between `apply()` and the test for a checkpoint.
  abbrev pub processed : ℕ → State sS sX → State sS sX
  processed tag c = record c {
    node = w.process (w.msg tag) c.node;
    dedup = Deduplicator.record_seq c.dedup (w.msg tag).producer_id (w.msg tag).seq;
    dirty = true;
    pending_acks = c.pending_acks ++ tag ∷ [];
  }

  pub processed-Inv :
      (applied saved : List Change) (tag : ℕ) (c : State sS sX)
      → ((w.msg tag).seq == 0) ≡ false
      → mem tag c.acked ≡ false
      → seen_tag sS sX w tag (tags_of applied) ≡ false
      → Inv sS sX w applied saved c
      → Inv sS sX w (delivered tag ∷ applied) saved (processed tag c)
  processed-Inv applied saved tag c stamped fresh new inv = record {
    node = unfold replay in ap (w.process (w.msg tag)) inv.node;
    dedup = dedup;
    stored = inv.stored;
    clean = λ h. cc;
    pending_open = All-append _ c.pending_acks (tag ∷ []) inv.pending_open (fresh, tt);
    pending_applied =
        All-append _ c.pending_acks (tag ∷ [])
          (All-map _ _ c.pending_acks (λ t h. seen_in-cons tag _ _ (tags_of applied) h)
            inv.pending_applied)
          (self, tt);
    covered = covered;
    saved_kept = λ p s h. seen_in-cons tag p s (tags_of applied) (inv.saved_kept p s h);
    acked_safe = inv.acked_safe;
    distinct = (new, inv.distinct);
    saved_distinct = inv.saved_distinct;
  }
    where
      or-true : (b : Bool) → (b || true) ≡ true
      or-true true = refl
      or-true false = refl

      self : seen_tag sS sX w tag (tag ∷ tags_of applied) ≡ true
      self = unfold seen_in in rw (beq_refl (w.msg tag).producer_id, beq_refl (w.msg tag).seq) refl

      dedup :
          Knows sS sX w
            (Deduplicator.record_seq c.dedup (w.msg tag).producer_id (w.msg tag).seq)
            (tag ∷ tags_of applied)
      dedup q t =
          unfold seen_in in
          ground (
            arith,
            stamped,
            inv.dedup q t,
            is_duplicate-record_seq c.dedup (w.msg tag).producer_id (w.msg tag).seq q t,
          )

      covered :
          (p s : ℕ)
          → seen_in sS sX w p s (tag ∷ tags_of applied) ≡ true
          → (seen_in sS sX w p s (tags_of saved) ≡ true)
            ⊎ (seen_in sS sX w p s (c.pending_acks ++ tag ∷ []) ≡ true)
      covered p s h = elim (Bool-cases (seen_in sS sX w p s (tags_of applied))) [
        | inl old ↦ elim (inv.covered p s old) [
          | inl kept ↦ inl kept
          | inr waits ↦
              inr (rw (seen_in-append sS sX w p s c.pending_acks (tag ∷ [])) (rw waits refl))
        ]
        | inr other ↦ inr (
            rw (seen_in-append sS sX w p s c.pending_acks (tag ∷ []))
              (rw (latest other h) (or-true _)))
      ]
        where
          latest :
              seen_in sS sX w p s (tags_of applied) ≡ false
              → seen_in sS sX w p s (tag ∷ tags_of applied) ≡ true
              → seen_in sS sX w p s (tag ∷ []) ≡ true
          latest o k = latest_seen tag p s (tags_of applied) o k

  -- What is restored from the blob of a state.
  restored_node :
      (c : State sS sX)
      → ValidNode sS sX w.node0 c.node
      → (restore_blob sS sX (take_blob sS sX c) (init sS sX w.node0 w.every)).node ≡ c.node
  unfolding restore_blob take_blob init
  restored_node c v = λ i. record {
    fn = sS.restore-snapshot w.node0.fn c.node.fn v.fn i;
    seqs =
        restore_entries-snapshot (λ (x y : ℕ). y) (λ x. x) (λ _. Unit {0}) (λ x y _. refl)
          w.node0.seqs c.node.seqs v.seq_keys v.seqs (All-trivial c.node.seqs) i;
    extra =
        restore_entries-snapshot sX.restore_state sX.snapshot_state sX.Valid sX.restore-snapshot
          w.node0.extra c.node.extra v.extra_keys v.extra v.providers i;
  }

  save-Inv :
      (applied saved : List Change) (c : State sS sX)
      → ValidNode sS sX w.node0 c.node
      → Inv sS sX w applied saved c
      → Inv sS sX w applied applied (save sS sX c)
  unfolding save
  save-Inv applied saved c v inv = record {
    node = inv.node;
    dedup = inv.dedup;
    stored = (
      restored_node c v ∙ inv.node,
      λ q t. unfold take_blob in (is_duplicate-restore c.dedup q t ∙ inv.dedup q t),
    );
    clean = λ _. refl;
    pending_open = inv.pending_open;
    pending_applied = inv.pending_applied;
    covered = λ p s h. inl h;
    saved_kept = λ p s h. h;
    acked_safe = All-map _ _ c.acked (λ a. keep a) inv.acked_safe;
    distinct = inv.distinct;
    saved_distinct = inv.distinct;
  }
    where
      keep :
          (a : ℕ)
          → Safe sS sX w (tags_of saved) c.aborted c.acked a
          → Safe sS sX w (tags_of applied) c.aborted c.acked a
      keep a (inl s) = inl (inv.saved_kept _ _ s)
      keep a (inr other) = inr other

  pub checkpoint_and_flush-Inv :
      (applied saved : List Change) (force : Bool) (c : State sS sX)
      → ValidNode sS sX w.node0 c.node
      → Inv sS sX w applied saved c
      → Inv sS sX w applied applied (checkpoint_and_flush sS sX force c)
  unfolding checkpoint_and_flush
  checkpoint_and_flush-Inv applied saved force c v inv = elim (Bool-cases (c.dirty || force)) [
    | inl stores ↦ rw stores (ack_pending-Inv sS sX w applied _ (save-Inv applied saved c v inv))
    | inr idle ↦ rw idle (
        ack_pending-Inv sS sX w applied c
          (subst (λ s. Inv sS sX w applied s c) (sym (inv.clean (ground (arith, idle)))) inv))
  ]
