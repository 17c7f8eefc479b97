-- ===== src/Checkpoint/Checkpointer/World/Recovery.antt =====
-- Exactly-once processing across crashes (checkpointer.py with deduplicator.py).
use distribuidos_tp_money_la.Prelude.{
  ℕ, ◌≡◌, refl, ap, subst, Option, none, some, List, [], drop, arith, nat_eq, All, inl, inr,
}
use distribuidos_tp_money_la.Collections.Dict.{get, get_default}
use distribuidos_tp_money_la.Collections.PySet.{mem}
use distribuidos_tp_money_la.Collections.Members.{All-map, All-drop, mem-drop}
use distribuidos_tp_money_la.Checkpoint.Deduplicator
use distribuidos_tp_money_la.Checkpoint.Deduplicator.{is_duplicate}
use distribuidos_tp_money_la.Checkpoint.Snapshotable.{Snapshotable}
use distribuidos_tp_money_la.Checkpoint.Checkpointer.{Blob, State, init, restore_blob, restore}
use distribuidos_tp_money_la.Checkpoint.Checkpointer.World.{
  Setup, Change, tags_of, replay, seen_in, crash, on_delivery, on_flush, on_abort, on_control,
  on_crash, Reach, start, next,
}
use distribuidos_tp_money_la.Checkpoint.Checkpointer.World.Invariant.{
  Safe, Distinct, Knows, Stored, stored_aborts,
}
use distribuidos_tp_money_la.Checkpoint.Checkpointer.World.Idle.{Assumptions, Idle, flush-Idle}
use distribuidos_tp_money_la.Checkpoint.Checkpointer.World.Deliveries.{deliver-Idle}
use distribuidos_tp_money_la.Checkpoint.Checkpointer.World.Handlers.{abort-Idle, control-Idle}

module _ {S X B : Type 0} (sS : Snapshotable S) (sX : Snapshotable X) (w : Setup S X B) where
  module _ (asm : Assumptions sS sX w) where
    Knows-init : Knows sS sX w Deduplicator.init []
    Knows-init q t =
        unfold Deduplicator.is_duplicate Deduplicator.init Deduplicator.hi_of Deduplicator.ahead_of
          mem get_default get seen_in in
        ground arith

    Safe-after_crash :
        (k : ℕ) (c : State sS sX) (saved : List Change)
        → All (Safe sS sX w (tags_of saved) c.aborted c.acked) c.acked
        → All (Safe sS sX w (tags_of saved) c.aborted (drop k c.acked)) (drop k c.acked)
    Safe-after_crash k c saved h = All-drop _ k c.acked (All-map _ _ c.acked (λ a. keep a) h)
      where
        keep :
            (a : ℕ)
            → Safe sS sX w (tags_of saved) c.aborted c.acked a
            → Safe sS sX w (tags_of saved) c.aborted (drop k c.acked) a
        keep a (inl s) = inl s
        keep a (inr (inl dead)) = inr (inl dead)
        keep a (inr (inr (u, o, e))) = inr (inr (u, mem-drop k u c.acked o, e))

    -- A node that has just started, from a store that matches `saved`.
    restarted-Good :
        (k : ℕ) (c : State sS sX) (o : Option (Blob sS.Snapshot sX.Snapshot)) (saved : List Change)
        → Stored sS sX w saved o
        → c.aborted ≡ stored_aborts sS sX w o
        → Distinct sS sX w (tags_of saved)
        → All (Safe sS sX w (tags_of saved) c.aborted c.acked) c.acked
        → Idle sS sX w
            (restore sS sX
              (record (init sS sX w.node0 w.every) { store = o; acked = drop k c.acked })).0
    unfolding restore restore_blob init
    restarted-Good k c none saved empty e d safe = (
      record {
        applied = [];
        saved = [];
        inv = record {
          node = started;
          dedup = Knows-init;
          stored = refl;
          clean = λ _. refl;
          pending_open = tt;
          pending_applied = tt;
          covered = λ p s h. inl h;
          saved_kept = λ p s h. h;
          acked_safe = safe0;
          distinct = tt;
          saved_distinct = tt;
        };
        synced = refl;
      },
      refl,
    )
      where
        started : record w.node0 { fn = sS.clear_stale w.node0.fn } ≡ replay sS sX w []
        started = unfold replay in ap (λ f. record w.node0 { fn = f }) asm.clean_start

        safe0 : All (Safe sS sX w [] [] (drop k c.acked)) (drop k c.acked)
        safe0 =
            subst (λ a. All (Safe sS sX w [] a (drop k c.acked)) (drop k c.acked)) e
              (subst
                (λ v. All (Safe sS sX w (tags_of v) c.aborted (drop k c.acked)) (drop k c.acked))
                empty (Safe-after_crash k c saved safe))
    restarted-Good k c (some b) saved st e d safe = (
      record {
        applied = saved;
        saved = saved;
        inv = record {
          node = st.0;
          dedup = st.1;
          stored = st;
          clean = λ _. refl;
          pending_open = tt;
          pending_applied = tt;
          covered = λ p s h. inl h;
          saved_kept = λ p s h. h;
          acked_safe =
              subst (λ a. All (Safe sS sX w (tags_of saved) a (drop k c.acked)) (drop k c.acked)) e
                (Safe-after_crash k c saved safe);
          distinct = d;
          saved_distinct = d;
        };
        synced = refl;
      },
      refl,
    )

    crash-Idle : (k : ℕ) (c : State sS sX) → Idle sS sX w c → Idle sS sX w (crash sS sX w k c)
    unfolding crash
    crash-Idle k c (g, free) =
        restarted-Good k c c.store g.saved g.inv.stored g.synced g.inv.saved_distinct
          g.inv.acked_safe

    start-Idle : Idle sS sX w (init sS sX w.node0 w.every)
    start-Idle = (
      record {
        applied = [];
        saved = [];
        inv =
            unfold init in
            record {
              node = unfold replay in refl;
              dedup = Knows-init;
              stored = refl;
              clean = λ _. refl;
              pending_open = tt;
              pending_applied = tt;
              covered = λ p s h. inl h;
              saved_kept = λ p s h. h;
              acked_safe = tt;
              distinct = tt;
              saved_distinct = tt;
            };
        synced = unfold init in refl;
      },
      unfold init in refl,
    )

    pub Reach-Idle : (c : State sS sX) → Reach sS sX w c → Idle sS sX w c
    Reach-Idle _ start = start-Idle
    Reach-Idle _ (next {c} r (on_delivery {c'} tag fresh idle h)) =
        deliver-Idle sS sX w asm tag c c' fresh idle h (Reach-Idle c r)
    Reach-Idle _ (next {c} r (on_flush {c'} force h)) =
        flush-Idle sS sX w asm force c c' h (Reach-Idle c r)
    Reach-Idle _ (next {c} r (on_abort {c'} cid h)) =
        abort-Idle sS sX w asm cid c c' h (Reach-Idle c r)
    Reach-Idle _ (next {c} r (on_control {c'} k h)) =
        control-Idle sS sX w asm k c c' h (Reach-Idle c r)
    Reach-Idle _ (next {c} r (on_crash k)) = crash-Idle k c (Reach-Idle c r)
