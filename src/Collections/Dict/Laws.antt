-- ===== src/Collections/Dict/Laws.antt =====
-- The laws of `dict` that the components use.
use distribuidos_tp_money_la.Prelude.{
  ◌≡◌, refl, ap, true, false, none, some, [], ◌∷◌, ◌++◌, arith, Eq, ◌==◌, if◌then◌else◌, Bool-cases,
  inl, inr, append-nil, append_assoc, ◌∙◌,
}
use distribuidos_tp_money_la.Collections.Dict.{Dict, get, put, pop, update}

pub beq_refl {ℓ} : {K : Type ℓ} ⦃e : Eq K⦄ (k : K) → (k == k) ≡ true
beq_refl ⦃e⦄ k = (e.beq_iff k k).1 refl

beq-false_comm {ℓ} : {K : Type ℓ} ⦃e : Eq K⦄ (k j : K) → (k == j) ≡ false → (j == k) ≡ false
beq-false_comm ⦃e⦄ k j h = ground (arith, e.beq_iff k j, e.beq_iff j k)

module _ {ℓ} {K V : Type ℓ} ⦃e : Eq K⦄ where
  pub get-put :
      (k j : K) (v : V) (d : Dict K V) → get j (put k v d) ≡ (if k == j then some v else get j d)
  unfolding get put
  get-put k j v [] = refl
  get-put k j v ((i, w) ∷ d) =
      ground (arith, e.beq_iff i k, e.beq_iff i j, e.beq_iff k j, get-put k j v d)

  pub get-put_self : (k : K) (v : V) (d : Dict K V) → get k (put k v d) ≡ some v
  get-put_self k v d = rw (get-put, beq_refl k)

  -- No two entries share a key: what Python's `dict` guarantees.
  abbrev pub Absent : K → Dict K V → Type 0
  Absent k [] = Unit {0}
  Absent k ((j, w) ∷ d) = ((j == k) ≡ false) × Absent k d

  abbrev pub IsDict : Dict K V → Type 0
  IsDict [] = Unit {0}
  IsDict ((k, v) ∷ d) = Absent k d × IsDict d

  pub get-eq-none_of_Absent : (k : K) (d : Dict K V) → Absent k d → get k d ≡ none
  unfolding get
  get-eq-none_of_Absent k [] h = refl
  get-eq-none_of_Absent k ((j, w) ∷ d) h = rw h.0 (get-eq-none_of_Absent k d h.1)

  pub put-Absent :
      (k j : K) (v : V) (d : Dict K V) → (k == j) ≡ false → Absent j d → Absent j (put k v d)
  unfolding put
  put-Absent k j v [] ne h = (ne, tt)
  put-Absent k j v ((i, w) ∷ d) ne h = elim (Bool-cases (i == k)) [
    | inl same ↦ rw same h
    | inr other ↦ rw other (h.0, put-Absent k j v d ne h.1)
  ]

  pub put-IsDict : (k : K) (v : V) (d : Dict K V) → IsDict d → IsDict (put k v d)
  unfolding put
  put-IsDict k v [] h = (tt, tt)
  put-IsDict k v ((i, w) ∷ d) h = elim (Bool-cases (i == k)) [
    | inl same ↦ rw same h
    | inr other ↦ rw other (put-Absent k i v d (beq-false_comm i k other) h.0, put-IsDict k v d h.1)
  ]

  pub pop-Absent : (k j : K) (d : Dict K V) → Absent j d → Absent j (pop k d)
  unfolding pop
  pop-Absent k j [] h = tt
  pop-Absent k j ((i, w) ∷ d) h = elim (Bool-cases (i == k)) [
    | inl same ↦ rw same h.1
    | inr other ↦ rw other (h.0, pop-Absent k j d h.1)
  ]

  pub pop-IsDict : (k : K) (d : Dict K V) → IsDict d → IsDict (pop k d)
  unfolding pop
  pop-IsDict k [] h = tt
  pop-IsDict k ((i, w) ∷ d) h = elim (Bool-cases (i == k)) [
    | inl same ↦ rw same h.1
    | inr other ↦ rw other (pop-Absent k i d h.0, pop-IsDict k d h.1)
  ]

  pub get-pop :
      (k j : K) (d : Dict K V) → IsDict d → get j (pop k d) ≡ (if k == j then none else get j d)
  unfolding get pop
  get-pop k j [] h = ground arith
  get-pop k j ((i, w) ∷ d) h = ground (
    arith,
    e.beq_iff i k,
    e.beq_iff i j,
    e.beq_iff k j,
    get-pop k j d h.1,
    get-eq-none_of_Absent i d h.0,
  )

  -- A new key goes to the end.
  pub put_new : (k : K) (v : V) (d : Dict K V) → Absent k d → put k v d ≡ d ++ (k, v) ∷ []
  unfolding put
  put_new k v [] h = refl
  put_new k v ((i, w) ∷ d) h = rw h.0 (ap (◌∷◌ (i, w)) (put_new k v d h.1))

  Absent-append : (k : K) (d c : Dict K V) → Absent k d → Absent k c → Absent k (d ++ c)
  Absent-append k [] c h g = g
  Absent-append k ((i, w) ∷ d) c h g = (h.0, Absent-append k d c h.1 g)

  -- The keys of `c` are fresh for `d`.
  abbrev Fresh : Dict K V → Dict K V → Type 0
  Fresh d [] = Unit {0}
  Fresh d ((k, v) ∷ c) = Absent k d × Fresh d c

  Fresh-snoc :
      (d c : Dict K V) (k : K) (v : V) → Absent k c → Fresh d c → Fresh (d ++ (k, v) ∷ []) c
  Fresh-snoc d [] k v a f = tt
  Fresh-snoc d ((j, w) ∷ c) k v a f =
      (Absent-append j d ((k, v) ∷ []) f.0 (beq-false_comm j k a.0, tt), Fresh-snoc d c k v a.1 f.1)

  update_new : (d c : Dict K V) → Fresh d c → IsDict c → update d c ≡ d ++ c
  unfolding update
  update_new d [] f h = rw append-nil
  update_new d ((k, v) ∷ c) f h = rw (put_new k v d f.0) (
      update_new (d ++ (k, v) ∷ []) c (Fresh-snoc d c k v h.0 f.1) h.1
      ∙ append_assoc d ((k, v) ∷ []) c)

  Fresh-nil : (c : Dict K V) → Fresh [] c
  Fresh-nil [] = tt
  Fresh-nil ((k, v) ∷ c) = (tt, Fresh-nil c)

  -- A comprehension over the items of a dict builds that dict again, in order.
  pub update-nil : (c : Dict K V) → IsDict c → update [] c ≡ c
  update-nil c h = update_new [] c (Fresh-nil c) h

  pub update-IsDict : (d c : Dict K V) → IsDict d → IsDict (update d c)
  unfolding update
  update-IsDict d [] h = h
  update-IsDict d ((k, v) ∷ c) h = update-IsDict (put k v d) c (put-IsDict k v d h)
