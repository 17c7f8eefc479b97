-- ===== src/Join.antt =====
-- src/join/join_route_handler.py: the last stage of a use case. It counts a client's results,
-- and sends the responses once they are all there.
-- The join function (src/join/join_fns) is a parameter, with its state `J`: its three methods are
-- arguments. Checkpoint/Checkpointer is its checkpointer; as there, `none` is a thread that waits for
-- ever on its own lock. A call of the handler returns the responses that it sent.
pub mod Counting
pub mod Blocking
pub mod Snapshot
use distribuidos_tp_money_la.Prelude.{
  ◌>>=◌, ℕ, ◌+◌, Bool, true, false, ◌&&◌, Option, none, some, List, [], ◌∷◌, ◌++◌, if◌then◌else◌,
  ◌==◌, nat_eq, string_eq,
}
use Prim.Native.String.{String}
use distribuidos_tp_money_la.Prelude.Int.{ℤ, pos, negsuc, ltb_ℤ}
use distribuidos_tp_money_la.Collections.Dict.{Dict, get, put, pop, get_default}
use distribuidos_tp_money_la.Collections.PySet.{mem, add, discard}
use distribuidos_tp_money_la.Checkpoint.Snapshotable.{Snapshotable}
use distribuidos_tp_money_la.Checkpoint.Checkpointer
use distribuidos_tp_money_la.Checkpoint.Checkpointer.{State, flush, mark_aborted, handle_data, ack}

-- `_JoinCounts`
pub record JoinCounts : Type 0 where
  pub received : Dict ℕ ℕ
  pub expected : Dict ℕ ℤ
  pub finalized : List ℕ

unfoldable pub init_counts : JoinCounts
init_counts = record { received = []; expected = []; finalized = [] }

unfoldable pub inc_received : ℕ → JoinCounts → JoinCounts
unfolding get_default put
inc_received cid k = record k { received = put cid (get_default cid 0 k.received + 1) k.received }

unfoldable pub set_expected : ℕ → ℤ → JoinCounts → JoinCounts
unfolding put
set_expected cid n k = record k { expected = put cid n k.expected }

-- expected is not None and received >= expected
abbrev pub reached : ℕ → Option ℤ → Bool
reached received none = false
reached received (some n) = if ltb_ℤ (pos received) n then false else true

unfoldable pub is_complete : ℕ → JoinCounts → Bool
unfolding get get_default
is_complete cid k = reached (get_default cid 0 k.received) (get cid k.expected)

unfoldable pub is_finalized : ℕ → JoinCounts → Bool
unfolding mem
is_finalized cid k = mem cid k.finalized

unfoldable pub mark_finalized : ℕ → JoinCounts → JoinCounts
unfolding add pop
mark_finalized cid k = record {
  received = pop cid k.received;
  expected = pop cid k.expected;
  finalized = add cid k.finalized;
}

-- `_JoinCounts.drop`
unfoldable pub drop_client : ℕ → JoinCounts → JoinCounts
unfolding discard pop
drop_client cid k = record {
  received = pop cid k.received;
  expected = pop cid k.expected;
  finalized = discard cid k.finalized;
}

-- `JoinFn`: join, get_responses and discard
pub record JoinFn (J M R : Type 0) : Type 0 where
  pub join : M → J → J
  pub get_responses : ℕ → J → List R
  pub discard_client : ℕ → J → J

module _ {J : Type 0} (sJ : Snapshotable J) (sK : Snapshotable JoinCounts) where
  -- self._counts, which is also the checkpointer's extra state "counts"
  unfoldable pub counts : State sJ sK → JoinCounts
  unfolding get_default init_counts
  counts c = get_default "counts" init_counts c.node.extra

  unfoldable pub set_counts : JoinCounts → State sJ sK → State sJ sK
  unfolding put
  set_counts k c = record c { node = record c.node { extra = put "counts" k c.node.extra } }

  unfoldable pub set_join : J → State sJ sK → State sJ sK
  set_join j c = record c { node = record c.node { fn = j } }

module _ {J M R : Type 0} (sJ : Snapshotable J) (sK : Snapshotable JoinCounts)
    (fn : JoinFn J M R) where
  -- the end of `_maybe_finalize`: the responses are sent before the flush
  unfoldable pub finalize : ℕ → State sJ sK → Option (State sJ sK × List R)
  unfolding counts set_counts set_join mark_finalized flush
  finalize cid c =
      let responses = fn.get_responses cid c.node.fn in
      flush sJ sK true (set_counts sJ sK (mark_finalized cid (counts sJ sK c)) c) >>= λ c1.
      some (set_join sJ sK (fn.discard_client cid c1.node.fn) c1, responses)

  -- `_maybe_finalize`
  unfoldable pub maybe_finalize : ℕ → State sJ sK → Option (State sJ sK × List R)
  unfolding counts is_finalized is_complete finalize
  maybe_finalize cid c =
      let finalized = finalize cid c in
      if is_finalized cid (counts sJ sK c)
      then some (c, [])
      else if is_complete cid (counts sJ sK c)
      then finalized
      else some (c, [])

  -- `_on_data`
  unfoldable pub on_data : ℕ → M → State sJ sK → Option (State sJ sK × List R)
  unfolding counts set_counts set_join inc_received maybe_finalize
  on_data cid m c =
      let c1 = set_join sJ sK (fn.join m c.node.fn) c in
      maybe_finalize cid (set_counts sJ sK (inc_received cid (counts sJ sK c1)) c1)

  -- `_on_eof`
  unfoldable pub on_eof : ℕ → ℤ → State sJ sK → Option (State sJ sK × List R)
  unfolding counts set_counts set_expected maybe_finalize
  on_eof cid expected c =
      maybe_finalize cid (set_counts sJ sK (set_expected cid expected (counts sJ sK c)) c)

  -- `_on_abort`
  unfoldable pub on_abort : ℕ → State sJ sK → Option (State sJ sK)
  unfolding counts set_counts set_join drop_client mark_aborted flush
  on_abort cid c =
      let c1 = set_join sJ sK (fn.discard_client cid c.node.fn) c in
      mark_aborted sJ sK cid (set_counts sJ sK (drop_client cid (counts sJ sK c1)) c1)
      >>= flush sJ sK true

  -- the callback that `handle_data` runs; when it returns, it has sent no responses, because
  -- sending them is followed by the flush that waits for the lock (Join/Blocking)
  unfoldable pub apply_data : ℕ → M → State sJ sK → Option (State sJ sK)
  unfolding on_data
  apply_data cid m c = on_data cid m c >>= λ r. some r.0

  -- `_handle_message` of a data message: `dispatch` of src/common/checkpoint/dispatch.py
  unfoldable pub handle_data_message : ℕ → ℕ → ℕ → ℕ → M → State sJ sK → Option (State sJ sK)
  unfolding apply_data handle_data
  handle_data_message cid producer seq tag m c =
      handle_data sJ sK (apply_data cid m) cid producer seq tag c

  -- `_handle_message` of an EOF, with the delivery to acknowledge
  unfoldable pub handle_eof_message : ℕ → ℤ → ℕ → State sJ sK → Option (State sJ sK × List R)
  unfolding on_eof flush ack
  handle_eof_message cid expected tag c =
      flush sJ sK false c >>= λ c1. on_eof cid expected c1 >>= λ r. some (ack sJ sK tag r.0, r.1)

  -- `_handle_message` of an abort
  unfoldable pub handle_abort_message : ℕ → ℕ → State sJ sK → Option (State sJ sK)
  unfolding on_abort ack
  handle_abort_message cid tag c = on_abort cid c >>= λ c1. some (ack sJ sK tag c1)
