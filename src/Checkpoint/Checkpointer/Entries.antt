-- ===== src/Checkpoint/Checkpointer/Entries.antt =====
-- Named states that are saved and restored one by one (the loops of `restore` and the
-- comprehensions of `_checkpoint_and_flush` in checkpointer.py).
use distribuidos_tp_money_la.Prelude.{◌≡◌, refl, ap, some, List, [], ◌∷◌, arith, Eq, All, ◌∙◌}
use distribuidos_tp_money_la.Collections.Dict.{Dict, get, keys}
use distribuidos_tp_money_la.Collections.Dict.Laws.{IsDict, Absent, beq_refl}
use distribuidos_tp_money_la.Checkpoint.Checkpointer.{restore_entries, snapshot_entries}

module _ {K V W : Type 0} ⦃e : Eq K⦄ (f : V → W → V) (g : V → W) where
  -- Every entry is found in what was saved.
  abbrev Finds : Dict K W → Dict K V → Type 0
  Finds saved d = All (λ x. get x.0 saved ≡ some (g x.1)) d

  Finds-cons :
      (k : K) (w : W) (saved : Dict K W) (d : Dict K V)
      → Absent k d
      → Finds saved d
      → Finds ((k, w) ∷ saved) d
  unfolding get
  Finds-cons k w saved [] a h = tt
  Finds-cons k w saved ((j, v) ∷ d) a h =
      (ground (arith, h.0, a.0, e.beq_iff k j, e.beq_iff j k), Finds-cons k w saved d a.1 h.1)

  Finds-snapshot : (d : Dict K V) → IsDict d → Finds (snapshot_entries g d) d
  unfolding snapshot_entries
  Finds-snapshot [] h = tt
  Finds-snapshot ((k, v) ∷ d) h = (
    unfold get in rw (beq_refl k),
    Finds-cons k (g v) (snapshot_entries g d) d h.0 (Finds-snapshot d h.1),
  )

  head_eq : {k j : K} {ks js : List K} → k ∷ ks ≡ j ∷ js → (k ≡ j) × (ks ≡ js)
  head_eq h = (cc, cc)

  module _ (P : V → Type 0) (law : (v v' : V) → P v' → f v (g v') ≡ v') where
    restore_entries-Finds :
        (saved : Dict K W) (a b : Dict K V)
        → keys a ≡ keys b
        → All (λ x. P x.1) b
        → Finds saved b
        → restore_entries get f a saved ≡ b
    unfolding restore_entries keys
    restore_entries-Finds saved [] [] e p h = refl
    restore_entries-Finds saved [] (y ∷ b) e p h = absurd (cc)
    restore_entries-Finds saved (x ∷ a) [] e p h = absurd (cc)
    restore_entries-Finds saved ((k, v) ∷ a) ((j, v') ∷ b) e p h =
        let found : get k saved ≡ some (g v') = ap (λ x. get x saved) (head_eq e).0 ∙ h.0 in
        let rest : restore_entries get f a saved ≡ b =
          restore_entries-Finds saved a b (head_eq e).1 p.1 h.1 in
        rw found (rw (law v v' p.0, rest, (head_eq e).0) refl)

    -- Saving the entries of `b` and restoring them over entries of the same keys gives `b` back.
    pub restore_entries-snapshot :
        (a b : Dict K V)
        → keys a ≡ keys b
        → IsDict b
        → All (λ x. P x.1) b
        → restore_entries get f a (snapshot_entries g b) ≡ b
    restore_entries-snapshot a b e d p =
        restore_entries-Finds (snapshot_entries g b) a b e p (Finds-snapshot b d)
