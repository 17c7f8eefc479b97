-- ===== src/Checkpoint/Spill/Truncation.antt =====
-- A restart drops exactly what was appended after the checkpoint (persistent_spill.py).
use distribuidos_tp_money_la.Prelude.{
  some_inj, if_true, if_false, subst, ap₂, ℕ, ◌≡◌, ◌∙◌, refl, ap, sym, true, some, List, [], ◌∷◌,
  ◌++◌, take, length, take_all-append, append-nil, append_assoc, if◌then◌else◌, ◌==◌, nat_eq, arith,
  Bool-cases, inl, inr,
}
use distribuidos_tp_money_la.Collections.Dict.{Dict, get, put, get_default, get_or, is_some}
use distribuidos_tp_money_la.Collections.Dict.Laws.{get-put, IsDict, Absent}
use distribuidos_tp_money_la.Checkpoint.Spill.{
  PersistentSpill, open_append, append, flush_handle, restore_from, restore_state,
}

-- what is on disk for a client
abbrev pub on_disk : ℕ → PersistentSpill → List ℕ
on_disk cid s = get_default cid [] s.files

-- What happens to the files between a checkpoint and a crash.
pub data Write : Type 0 where
  appended : ℕ → List ℕ → Write
  flushed : ℕ → Write

unfoldable pub run_write : Write → PersistentSpill → PersistentSpill
run_write (appended cid line) s = append cid line s
run_write (flushed cid) s = flush_handle cid s

unfoldable pub run_writes : List Write → PersistentSpill → PersistentSpill
unfolding run_write
run_writes [] s = s
run_writes (w ∷ writes) s = run_writes writes (run_write w s)

disk_put :
    (cid k : ℕ) (v : List ℕ) (files : Dict ℕ (List ℕ))
    → get_default k [] (put cid v files) ≡ (if cid == k then v else get_default k [] files)
unfolding get_default
disk_put cid k v files =
    ap (λ o. get_or o []) (get-put cid k v files)
    ∙ elim (Bool-cases (cid == k)) [ inl e ↦ rw e refl | inr ne ↦ rw ne refl ]

-- a file has grown by some text
abbrev Grown : List ℕ → List ℕ → Type 0
Grown f g = (x : List ℕ) × (g ≡ f ++ x)

disk-Grown :
    (cid k : ℕ) (x : List ℕ) (files : Dict ℕ (List ℕ))
    → Grown
        (get_default k [] files)
        (get_default k [] (put cid (get_default cid [] files ++ x) files))
disk-Grown cid k x files = elim (Bool-cases (cid == k)) [
  | inl e ↦ (x, disk_put cid k _ files ∙ rw e (ap (λ j. get_default j [] files ++ x) (same e)))
  | inr ne ↦ ([], disk_put cid k _ files ∙ rw ne (sym (append-nil _)))
]
  where
    same : (cid == k) ≡ true → cid ≡ k
    same e = ground (arith, e)

open_append-disk : (cid k : ℕ) (s : PersistentSpill) → on_disk k (open_append cid s) ≡ on_disk k s
unfolding open_append
open_append-disk cid k s = elim (Bool-cases (is_some (get cid s.handles))) [
  | inl old ↦ rw old refl
  | inr new ↦ rw new (
      disk_put cid k (get_default cid [] s.files) s.files ∙ elim (Bool-cases (cid == k)) [
        | inl e ↦ rw e (ap (λ j. get_default j [] s.files) (same e))
        | inr ne ↦ rw ne refl
      ])
]
  where
    same : (cid == k) ≡ true → cid ≡ k
    same e = ground (arith, e)

run_write-Grown :
    (w : Write) (k : ℕ) (s : PersistentSpill) → Grown (on_disk k s) (on_disk k (run_write w s))
unfolding run_write append flush_handle
run_write-Grown (appended cid line) k s =
    ([], open_append-disk cid k s ∙ sym (append-nil (on_disk k s)))
run_write-Grown (flushed cid) k s = elim (Bool-cases (is_some (get cid s.handles))) [
  | inl open_file ↦ rw open_file (disk-Grown cid k (get_default cid [] s.handles) s.files)
  | inr shut ↦ rw shut ([], sym (append-nil (on_disk k s)))
]

run_writes-Grown :
    (writes : List Write) (k : ℕ) (s : PersistentSpill)
    → Grown (on_disk k s) (on_disk k (run_writes writes s))
unfolding run_writes
run_writes-Grown [] k s = ([], sym (append-nil (on_disk k s)))
run_writes-Grown (w ∷ writes) k s =
    let (x, e) = run_write-Grown w k s in
    let (y, f) = run_writes-Grown writes k (run_write w s) in
    (x ++ y, f ∙ (ap (λ g. g ++ y) e ∙ append_assoc (on_disk k s) x y))

-- The files after a restart, for a client that the snapshot does not name, and for one that it
-- names.
restore_from-other :
    (k : ℕ) (snapshot : Dict ℕ ℕ) (s : PersistentSpill)
    → Absent k snapshot
    → on_disk k (restore_from snapshot s) ≡ on_disk k s
unfolding restore_from
restore_from-other k [] s h = refl
restore_from-other k ((cid, n) ∷ snapshot) s h =
    restore_from-other k snapshot _ h.1 ∙ (disk_put cid k _ s.files ∙ rw h.0 refl)

restore_from-named :
    (k n : ℕ) (snapshot : Dict ℕ ℕ) (s : PersistentSpill)
    → IsDict snapshot
    → get k snapshot ≡ some n
    → on_disk k (restore_from snapshot s) ≡ take n (on_disk k s)
unfolding restore_from get
restore_from-named k n [] s d h = absurd (cc)
restore_from-named k n ((cid, m) ∷ snapshot) s d h = elim (Bool-cases (cid == k)) [
  | inl e ↦ named e (some_inj (sym (if_true _ _ _ e) ∙ h))
  | inr ne ↦
      restore_from-named k n snapshot _ d.1 (sym (if_false _ _ _ ne) ∙ h)
      ∙ ap (take n) (disk_put cid k _ s.files ∙ rw ne refl)
]
  where
    named :
        (cid == k) ≡ true
        → m ≡ n
        → on_disk k (
            restore_from snapshot (record {
              files = put cid (take m (get_default cid [] s.files)) s.files;
              handles = put cid [] s.handles;
            }))
          ≡ take n (on_disk k s)
    named e same =
        restore_from-other k snapshot _ (subst (λ j. Absent j snapshot) (key e) d.0)
        ∙ (disk_put cid k _ s.files
            ∙ rw e (ap₂ (λ j c. take c (get_default j [] s.files)) (key e) same))
      where
        key : (cid == k) ≡ true → cid ≡ k
        key f = ground (arith, f)

-- Whatever is appended or reaches the disk after a checkpoint, a crash and a restart from the
-- checkpoint leave a client's file as it was then, for every client whose length the checkpoint
-- holds.
pub restore_state-truncates :
    (k : ℕ) (committed : Dict ℕ ℕ) (s : PersistentSpill) (writes : List Write)
    → IsDict committed
    → get k committed ≡ some (length (on_disk k s))
    → on_disk k (restore_state committed (run_writes writes s)) ≡ on_disk k s
unfolding restore_state
restore_state-truncates k committed s writes d h =
    let (x, e) = run_writes-Grown writes k s in
    restore_from-named k _ committed (record (run_writes writes s) { handles = [] }) d h
    ∙ (ap (take (length (on_disk k s))) e ∙ take_all-append (on_disk k s) x)
