-- ===== src/Join/Blocking.antt =====
-- When the join's handler (join_route_handler.py) sends, and when it waits for itself.
use distribuidos_tp_money_la.Prelude.{
  ◌>>=◌, ℕ, ◌≡◌, ◌∙◌, refl, ap, true, false, none, some, nat_eq, string_eq, if_true, if_false,
  Bool-cases, inl, inr,
}
use distribuidos_tp_money_la.Collections.Dict.{get_default, get_or}
use distribuidos_tp_money_la.Collections.Dict.Laws.{get-put_self}
use distribuidos_tp_money_la.Collections.PySet.{mem}
use distribuidos_tp_money_la.Checkpoint.Deduplicator.{is_duplicate}
use distribuidos_tp_money_la.Checkpoint.Snapshotable.{Snapshotable}
use distribuidos_tp_money_la.Checkpoint.Checkpointer.{State, flush, handle_data, after_apply}
use distribuidos_tp_money_la.Join.{
  JoinCounts, init_counts, inc_received, is_complete, is_finalized, JoinFn, counts, set_counts,
  set_join, finalize, maybe_finalize, on_data, apply_data, handle_data_message,
}

module _ {J : Type 0} (sJ : Snapshotable J) (sK : Snapshotable JoinCounts) where
  counts-set_counts : (k : JoinCounts) (c : State sJ sK) → counts sJ sK (set_counts sJ sK k c) ≡ k
  unfolding counts set_counts get_default
  counts-set_counts k c = ap (λ o. get_or o init_counts) (get-put_self "counts" k c.node.extra)

module _ {J M R : Type 0} (sJ : Snapshotable J) (sK : Snapshotable JoinCounts)
    (fn : JoinFn J M R) where
  -- While the lock is held, a client that is complete and not finalized cannot be finalized.
  maybe_finalize_blocks :
      (cid : ℕ) (c : State sJ sK)
      → c.locked ≡ true
      → is_finalized cid (counts sJ sK c) ≡ false
      → is_complete cid (counts sJ sK c) ≡ true
      → maybe_finalize sJ sK fn cid c ≡ none
  unfolding maybe_finalize finalize flush set_counts
  maybe_finalize_blocks cid c held new full =
      if_false _ _ _ new
      ∙ (if_true _ _ _ full
          ∙ ap
              (λ o. o >>= λ c1. some (
                set_join sJ sK (fn.discard_client cid c1.node.fn) c1,
                fn.get_responses cid c.node.fn,
              ))
              (if_true c.locked none _ held))

  -- The handler waits for ever, on the lock that it holds itself, when the last of a client's
  -- data messages arrives after the client's EOF: `handle_data` holds the lock while the message
  -- completes the count, and finalizing the client flushes under the same lock.
  pub last_message_blocks :
      (cid producer seq tag : ℕ) (m : M) (c : State sJ sK)
      → mem cid c.aborted ≡ false
      → is_duplicate c.dedup producer seq ≡ false
      → is_finalized cid (counts sJ sK c) ≡ false
      → is_complete cid (inc_received cid (counts sJ sK c)) ≡ true
      → handle_data_message sJ sK fn cid producer seq tag m c ≡ none
  unfolding handle_data_message handle_data
  last_message_blocks cid producer seq tag m c alive new open_client full =
      elim (Bool-cases c.locked) [
        | inl held ↦ if_true _ _ _ held
        | inr free ↦
            if_false _ _ _ free
            ∙ (if_false _ _ _ alive
                ∙ (if_false _ _ _ new
                    ∙ ap (λ o. o >>= λ c3. some (after_apply sJ sK producer seq tag c3)) stuck))
      ]
    where
      c1 : State sJ sK
      c1 = record c { locked = true; node = record c.node { fn = fn.join m c.node.fn } }

      k1 : JoinCounts
      k1 = inc_received cid (counts sJ sK c)

      c2 : State sJ sK
      c2 = set_counts sJ sK k1 c1

      locked2 : c2.locked ≡ true
      locked2 = unfold set_counts in refl

      unfold_new :
          is_finalized cid (counts sJ sK c) ≡ false → mem cid (counts sJ sK c).finalized ≡ false
      unfold_new e = unfold is_finalized in e

      new2 : is_finalized cid k1 ≡ false
      new2 = unfold is_finalized inc_received in (unfold_new open_client)

      stuck : apply_data sJ sK fn cid m (record c { locked = true }) ≡ none
      stuck =
          unfold apply_data on_data set_join counts in
          ap (λ o. o >>= λ r. some r.0)
            (maybe_finalize_blocks cid c2 locked2
              (ap (is_finalized cid) (counts-set_counts sJ sK k1 c1) ∙ new2)
              (ap (is_complete cid) (counts-set_counts sJ sK k1 c1) ∙ full))
