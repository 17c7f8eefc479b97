-- ===== src/Checkpoint/Deduplicator/Snapshot.antt =====
-- `snapshot` and `restore` of deduplicator.py.
use distribuidos_tp_money_la.Prelude.{
  ℕ, ◌≡◌, refl, false, ◌||◌, List, [], ◌∷◌, none, arith, if◌then◌else◌, ◌==◌, nat_eq, Bool-cases,
  inl, inr, ap, nat_beq_iff,
}
use distribuidos_tp_money_la.Collections.Dict.{Dict, get, put, keys}
use distribuidos_tp_money_la.Collections.PySet.{mem, union, mem-union}
use distribuidos_tp_money_la.Checkpoint.Deduplicator.{
  Deduplicator, init, hi_of, ahead_of, is_duplicate, insert_sorted, sorted, snapshot_from, snapshot,
  restore_from, restore,
}
use distribuidos_tp_money_la.Checkpoint.Deduplicator.Seen.{
  hi_of-put, ahead_of-put, is_duplicate_lem,
}

mem-insert_sorted : (t n : ℕ) (ns : List ℕ) → mem t (insert_sorted n ns) ≡ (n == t || mem t ns)
unfolding insert_sorted mem
mem-insert_sorted t n [] = refl
mem-insert_sorted t n (m ∷ ms) = ground (arith, mem-insert_sorted t n ms)

mem-sorted : (t : ℕ) (ns : List ℕ) → mem t (sorted ns) ≡ mem t ns
unfolding sorted mem
mem-sorted t [] = refl
mem-sorted t (n ∷ ns) = ground (arith, mem-insert_sorted t n (sorted ns), mem-sorted t ns)

-- One producer written back.
abbrev back : Deduplicator → Deduplicator → ℕ → Deduplicator
back d acc p = record {
  hi = put p (hi_of d p) acc.hi;
  ahead = put p (sorted (ahead_of d p)) acc.ahead;
}

hi_of-restore_from :
    (d acc : Deduplicator) (ps : List ℕ) (q : ℕ)
    → hi_of (restore_from acc (snapshot_from d ps)) q
      ≡ (if mem q ps then hi_of d q else hi_of acc q)
unfolding restore_from snapshot_from mem
hi_of-restore_from d acc [] q = refl
hi_of-restore_from d acc (p ∷ ps) q = rw (hi_of-restore_from d (back d acc p) ps q) (
    rw (hi_of-put acc p q (hi_of d p) (sorted (ahead_of d p))) (elim (Bool-cases (p == q)) [
      | inl e ↦ rw e (ground (arith, ap (hi_of d) ((nat_beq_iff p q).0 e)))
      | inr ne ↦ rw ne
    ]))

ahead_of-restore_from :
    (d acc : Deduplicator) (ps : List ℕ) (q : ℕ)
    → ahead_of (restore_from acc (snapshot_from d ps)) q
      ≡ (if mem q ps then sorted (ahead_of d q) else ahead_of acc q)
unfolding restore_from snapshot_from mem
ahead_of-restore_from d acc [] q = refl
ahead_of-restore_from d acc (p ∷ ps) q = rw (ahead_of-restore_from d (back d acc p) ps q) (
    rw (ahead_of-put acc p q (hi_of d p) (sorted (ahead_of d p))) (elim (Bool-cases (p == q)) [
      | inl e ↦ rw e (ground (arith, ap (λ k. sorted (ahead_of d k)) ((nat_beq_iff p q).0 e)))
      | inr ne ↦ rw ne
    ]))

get-not_key : {V : Type 0} (q : ℕ) (d : Dict ℕ V) → mem q (keys d) ≡ false → get q d ≡ none
unfolding get keys mem
get-not_key q [] h = refl
get-not_key q ((j, w) ∷ d) h = ground (arith, get-not_key q d)

hi_of-not_key : (d : Deduplicator) (q : ℕ) → mem q (keys d.hi) ≡ false → hi_of d q ≡ 0
unfolding hi_of
hi_of-not_key d q h = rw (get-not_key q d.hi h)

ahead_of-not_key : (d : Deduplicator) (q : ℕ) → mem q (keys d.ahead) ≡ false → ahead_of d q ≡ []
unfolding ahead_of
ahead_of-not_key d q h = rw (get-not_key q d.ahead h)

hi_of-init : (q : ℕ) → hi_of init q ≡ 0
unfolding hi_of init get
hi_of-init q = refl

ahead_of-init : (q : ℕ) → ahead_of init q ≡ []
unfolding ahead_of init get
ahead_of-init q = refl

sorted-nil : sorted [] ≡ []
unfolding sorted
sorted-nil = refl

mem-nil : (q : ℕ) → mem q [] ≡ false
unfolding mem
mem-nil q = refl

-- The producers of either table.
known :
    (d : Deduplicator) (q : ℕ)
    → mem q (union (union [] (keys d.hi)) (keys d.ahead))
      ≡ (mem q (keys d.hi) || mem q (keys d.ahead))
known d q = rw (mem-union, mem-union) (rw (mem-nil q))

module _ (d : Deduplicator) (q : ℕ) where
  hi_of-restore : hi_of (restore (snapshot d)) q ≡ hi_of d q
  unfolding restore snapshot
  hi_of-restore = rw hi_of-restore_from (
      rw (known d q) (elim (Bool-cases (mem q (keys d.hi))) [
        | inl old ↦ rw old
        | inr new ↦ ground (arith, hi_of-not_key d q new, hi_of-init q)
      ]))

  ahead_of-restore : ahead_of (restore (snapshot d)) q ≡ sorted (ahead_of d q)
  unfolding restore snapshot
  ahead_of-restore = rw ahead_of-restore_from (
      rw (known d q) (elim (Bool-cases (mem q (keys d.ahead))) [
        | inl old ↦ ground (arith, old)
        | inr new ↦ ground (arith, ahead_of-not_key d q new, ahead_of-init q, sorted-nil)
      ]))

  -- A deduplicator that is restored from its snapshot answers every question as before.
  pub is_duplicate-restore : (t : ℕ) → is_duplicate (restore (snapshot d)) q t ≡ is_duplicate d q t
  is_duplicate-restore t =
      rw (is_duplicate_lem (restore (snapshot d)) q t, is_duplicate_lem d q t)
        (rw (hi_of-restore, ahead_of-restore) (rw (mem-sorted t (ahead_of d q))))
