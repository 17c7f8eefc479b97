-- ===== src/Checkpoint/Checkpointer/World/Invariant.antt =====
-- What holds between a node's memory, its store and the acknowledgements that it sent
-- (checkpointer.py).
use distribuidos_tp_money_la.Prelude.{
  ℕ, ◌≡◌, refl, Bool, true, false, ◌||◌, ◌&&◌, not, Option, none, some, List, [], ◌∷◌, ◌++◌, arith,
  ◌==◌, nat_eq, All, ◌⊎◌, inl, inr, Bool-cases,
}
use distribuidos_tp_money_la.Collections.PySet.{mem}
use distribuidos_tp_money_la.Checkpoint.Deduplicator
use distribuidos_tp_money_la.Checkpoint.Deduplicator.{is_duplicate}
use distribuidos_tp_money_la.Checkpoint.Snapshotable.{Snapshotable}
use distribuidos_tp_money_la.Checkpoint.Checkpointer.{Blob, State, init, restore_blob}
use distribuidos_tp_money_la.Checkpoint.Checkpointer.World.{
  Setup, Change, tags_of, replay, seen_in, seen_tag,
}

module _ {S X B : Type 0} (sS : Snapshotable S) (sX : Snapshotable X) (w : Setup S X B) where
  -- Two deliveries are copies of one message.
  abbrev pub SameId : ℕ → ℕ → Type 0
  SameId t u = ((w.msg t).producer_id ≡ (w.msg u).producer_id) × ((w.msg t).seq ≡ (w.msg u).seq)

  -- An acknowledged delivery is safe: its message is in the saved state, or its client was
  -- aborted, or a copy of it is still to be acknowledged.
  abbrev pub Safe : List ℕ → List ℕ → List ℕ → ℕ → Type 0
  Safe saved aborted acked t =
      (seen_tag sS sX w t saved ≡ true)
      ⊎ ((mem (w.msg t).client_id aborted ≡ true) ⊎ ((u : ℕ) × (mem u acked ≡ false) × SameId u t))

  -- No message was processed twice.
  abbrev pub Distinct : List ℕ → Type 0
  Distinct [] = Unit {0}
  Distinct (t ∷ ts) = (seen_tag sS sX w t ts ≡ false) × Distinct ts

  -- The dedup table answers for exactly the processed messages.
  abbrev pub Knows : Deduplicator.Deduplicator → List ℕ → Type 0
  Knows d tags = (q t : ℕ) → is_duplicate d q t ≡ (not (t == 0) && seen_in sS sX w q t tags)

  abbrev pub Stored : List Change → Option (Blob sS.Snapshot sX.Snapshot) → Type 0
  Stored saved none = saved ≡ []
  Stored saved (some b) =
      ((restore_blob sS sX b (init sS sX w.node0 w.every)).node ≡ replay sS sX w saved)
      × Knows (Deduplicator.restore b.dedup) (tags_of saved)

  abbrev pub stored_aborts : Option (Blob sS.Snapshot sX.Snapshot) → List ℕ
  stored_aborts none = []
  stored_aborts (some b) = b.aborted

  -- `applied` are the changes whose effect is in memory, `saved` those in the store.
  pub record Inv (applied saved : List Change) (c : State sS sX) : Type 0 where
    pub node : c.node ≡ replay sS sX w applied
    pub dedup : Knows c.dedup (tags_of applied)
    pub stored : Stored saved c.store
    pub clean : c.dirty ≡ false → applied ≡ saved
    pub pending_open : All (λ t. mem t c.acked ≡ false) c.pending_acks
    pub pending_applied : All (λ t. seen_tag sS sX w t (tags_of applied) ≡ true) c.pending_acks
    pub covered :
        (p s : ℕ)
        → seen_in sS sX w p s (tags_of applied) ≡ true
        → (seen_in sS sX w p s (tags_of saved) ≡ true) ⊎ (seen_in sS sX w p s c.pending_acks ≡ true)
    pub saved_kept :
        (p s : ℕ)
        → seen_in sS sX w p s (tags_of saved) ≡ true
        → seen_in sS sX w p s (tags_of applied) ≡ true
    pub acked_safe : All (Safe (tags_of saved) c.aborted c.acked) c.acked
    pub distinct : Distinct (tags_of applied)
    pub saved_distinct : Distinct (tags_of saved)

  pub seen_in-append :
      (p s : ℕ) (xs ys : List ℕ)
      → seen_in sS sX w p s (xs ++ ys) ≡ (seen_in sS sX w p s xs || seen_in sS sX w p s ys)
  unfolding seen_in
  seen_in-append p s [] ys = refl
  seen_in-append p s (x ∷ xs) ys = ground (arith, seen_in-append p s xs ys)

  -- A message that is seen has a delivery in the list.
  pub seen_in-find :
      (t : ℕ) (tags : List ℕ)
      → seen_tag sS sX w t tags ≡ true
      → (u : ℕ) × (mem u tags ≡ true) × SameId u t
  unfolding seen_in mem
  seen_in-find t [] h = absurd (ground arith)
  seen_in-find t (x ∷ tags) h =
      elim (Bool-cases
        ((w.msg x).producer_id == (w.msg t).producer_id && (w.msg x).seq == (w.msg t).seq)) [
          | inl same ↦ (x, ground arith, (ground (arith, same), ground (arith, same)))
          | inr other ↦
              let (u, m, e) = seen_in-find t tags (ground (arith, other, h)) in
              (u, ground (arith, m), e)
        ]

  pub seen_in-SameId :
      (t u : ℕ) (tags : List ℕ)
      → SameId u t
      → seen_tag sS sX w u tags ≡ true
      → seen_tag sS sX w t tags ≡ true
  seen_in-SameId t u tags e h = rw (← e.0, ← e.1) h

  -- The lock is no part of the invariant.
  pub relock-Inv :
      (applied saved : List Change) (held : Bool) (c : State sS sX)
      → Inv applied saved c
      → Inv applied saved (record c { locked = held })
  relock-Inv applied saved held c inv = record {
    node = inv.node;
    dedup = inv.dedup;
    stored = inv.stored;
    clean = inv.clean;
    pending_open = inv.pending_open;
    pending_applied = inv.pending_applied;
    covered = inv.covered;
    saved_kept = inv.saved_kept;
    acked_safe = inv.acked_safe;
    distinct = inv.distinct;
    saved_distinct = inv.saved_distinct;
  }
