-- ===== src/Checkpoint/Checkpointer/World/Steps.antt =====
-- Each operation of checkpointer.py keeps the invariant.
use distribuidos_tp_money_la.Prelude.{
  ℕ, ◌≡◌, refl, ap, ◌∙◌, subst, Bool, true, false, ◌||◌, List, [], ◌∷◌, ◌++◌, arith, ◌==◌, nat_eq,
  All, ◌⊎◌, inl, inr, Bool-cases,
}
use distribuidos_tp_money_la.Collections.PySet.{mem}
use distribuidos_tp_money_la.Collections.Members.{mem-append, All-append, All-mem, All-map}
use distribuidos_tp_money_la.Collections.Dict.Laws.{beq_refl}
use distribuidos_tp_money_la.Checkpoint.Snapshotable.{Snapshotable}
use distribuidos_tp_money_la.Checkpoint.Checkpointer.{State, ack_pending, ack}
use distribuidos_tp_money_la.Checkpoint.Checkpointer.World.{Setup, Change, tags_of, seen_tag}
use distribuidos_tp_money_la.Checkpoint.Checkpointer.World.Invariant.{
  SameId, Safe, Inv, seen_in-find, seen_in-SameId,
}

or-true : (b : Bool) → (b || true) ≡ true
or-true true = refl
or-true false = refl

module _ {S X B : Type 0} (sS : Snapshotable S) (sX : Snapshotable X) (w : Setup S X B) where
  -- More acknowledgements: what was safe stays so if the new ones are.
  Safe-ack :
      (saved aborted acked more : List ℕ) (a : ℕ)
      → ((u : ℕ)
          → mem u more ≡ true
          → SameId sS sX w u a
          → Safe sS sX w saved aborted (more ++ acked) a)
      → Safe sS sX w saved aborted acked a
      → Safe sS sX w saved aborted (more ++ acked) a
  Safe-ack saved aborted acked more a new (inl s) = inl s
  Safe-ack saved aborted acked more a new (inr (inl s)) = inr (inl s)
  Safe-ack saved aborted acked more a new (inr (inr (u, o, e))) = elim (Bool-cases (mem u more)) [
    | inl m ↦ new u m e
    | inr m ↦ inr (inr (u, rw (mem-append u more acked) (rw (m, o) refl), e))
  ]

  -- Once everything in memory is saved, the pending deliveries can be acknowledged.
  pub ack_pending-Inv :
      (applied : List Change) (c : State sS sX)
      → Inv sS sX w applied applied c
      → Inv sS sX w applied applied (ack_pending sS sX c)
  unfolding ack_pending
  ack_pending-Inv applied c inv = record {
    node = inv.node;
    dedup = inv.dedup;
    stored = inv.stored;
    clean = λ _. refl;
    pending_open = tt;
    pending_applied = tt;
    covered = λ p s h. inl h;
    saved_kept = λ p s h. h;
    acked_safe =
        All-append _ c.pending_acks c.acked
          (All-map _ _ c.pending_acks (λ t h. inl h) inv.pending_applied)
          (All-map _ _ c.acked
            (λ a. Safe-ack (tags_of applied) c.aborted c.acked c.pending_acks a (λ u m e. inl (
              seen_in-SameId sS sX w a u (tags_of applied) e
                (All-mem _ u c.pending_acks inv.pending_applied m))))
            inv.acked_safe);
    distinct = inv.distinct;
    saved_distinct = inv.saved_distinct;
  }

  -- A delivery that needs no processing is acknowledged at once.
  pub ack-Inv :
      (applied saved : List Change) (tag : ℕ) (c : State sS sX)
      → ((t u : ℕ) → SameId sS sX w t u → (w.msg t).client_id ≡ (w.msg u).client_id)
      → mem tag c.acked ≡ false
      → mem tag c.pending_acks ≡ false
      → (mem (w.msg tag).client_id c.aborted ≡ true)
        ⊎ (seen_tag sS sX w tag (tags_of applied) ≡ true)
      → Inv sS sX w applied saved c
      → Inv sS sX w applied saved (ack sS sX tag c)
  unfolding ack
  ack-Inv applied saved tag c copies fresh idle why inv = record {
    node = inv.node;
    dedup = inv.dedup;
    stored = inv.stored;
    clean = inv.clean;
    pending_open = pending_open;
    pending_applied = inv.pending_applied;
    covered = inv.covered;
    saved_kept = inv.saved_kept;
    acked_safe = (
      safe tag (refl, refl),
      All-map _ _ c.acked
          (λ a.
            Safe-ack (tags_of saved) c.aborted c.acked (tag ∷ []) a
              (λ u m e. safe a (subst (λ k. SameId sS sX w k a) (only u m) e)))
          inv.acked_safe,
    );
    distinct = inv.distinct;
    saved_distinct = inv.saved_distinct;
  }
    where
      only : (u : ℕ) → mem u (tag ∷ []) ≡ true → u ≡ tag
      only u m = unfold mem in ground (arith, m)

      still_open :
          (u : ℕ)
          → mem u c.pending_acks ≡ true
          → mem u c.acked ≡ false
          → mem u (tag ∷ c.acked) ≡ false
      still_open u m o = elim (Bool-cases (tag == u)) [
        | inl same ↦ absurd (clash (ground (arith, same)))
        | inr other ↦ unfold mem in rw (other, o) refl
      ]
        where
          clash : tag ≡ u → ⊥
          clash e = ground (arith, ap (λ k. mem k c.pending_acks) e, m, idle)

      opened :
          (xs : List ℕ)
          → ((u : ℕ) → mem u xs ≡ true → mem u c.pending_acks ≡ true)
          → All (λ t. mem t c.acked ≡ false) xs
          → All (λ t. mem t (tag ∷ c.acked) ≡ false) xs
      opened [] sub h = tt
      opened (x ∷ xs) sub h = (
        still_open x (sub x (unfold mem in rw (beq_refl x))) h.0,
        opened xs (λ u m. sub u (unfold mem in rw m (or-true (x == u)))) h.1,
      )

      pending_open : All (λ t. mem t (tag ∷ c.acked) ≡ false) c.pending_acks
      pending_open = opened c.pending_acks (λ u m. m) inv.pending_open

      safe :
          (a : ℕ) → SameId sS sX w tag a → Safe sS sX w (tags_of saved) c.aborted (tag ∷ c.acked) a
      safe a e = elim why [
        | inl dead ↦ inr (inl (subst (λ k. mem k c.aborted ≡ true) (copies tag a e) dead))
        | inr old ↦ elim (inv.covered (w.msg tag).producer_id (w.msg tag).seq old) [
          | inl s ↦ inl (seen_in-SameId sS sX w a tag (tags_of saved) e s)
          | inr p ↦
              let (u, m, e') = seen_in-find sS sX w tag c.pending_acks p in
              inr (inr (u, All-mem _ u c.pending_acks pending_open m, (e'.0 ∙ e.0, e'.1 ∙ e.1)))
        ]
      ]
