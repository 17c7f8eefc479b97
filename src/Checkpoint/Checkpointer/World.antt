-- ===== src/Checkpoint/Checkpointer/World.antt =====
-- A ring node (ring_node.py) with its checkpointer (checkpointer.py) and the broker: deliveries in
-- any order, with copies of one message under several delivery tags, EOFs, tokens, flushes, aborts,
-- and crashes at any point. The handlers of a ring node leave the checkpointer's lock alone while it
-- is held; a join, which does not, is in Join.
pub mod Invariant
pub mod Steps
pub mod Processing
pub mod Idle
pub mod Deliveries
pub mod Handlers
pub mod Recovery
use distribuidos_tp_money_la.Prelude.{
  ◌>>=◌, ℕ, ◌≡◌, Bool, true, false, ◌||◌, ◌&&◌, Option, none, some, List, [], ◌∷◌, drop, ◌==◌,
  nat_eq, string_eq, All,
}
use Prim.Native.String.{String}
use distribuidos_tp_money_la.Collections.Dict.{keys}
use distribuidos_tp_money_la.Collections.Dict.Laws.{IsDict}
use distribuidos_tp_money_la.Collections.PySet.{mem}
use distribuidos_tp_money_la.Checkpoint.Snapshotable.{Snapshotable}
use distribuidos_tp_money_la.Checkpoint.Checkpointer
use distribuidos_tp_money_la.Checkpoint.Checkpointer.{
  Msg, Node, Checkpointer, State, init, flush, mark_aborted, handle_data, restore,
}

-- The objects of a process at its start, the size of a batch, what `_on_data` does with a message,
-- what an abort takes from a client (`rc.drop` and `_discard`), what the k-th of the other handlers
-- that end in a flush does to the node (`_on_eof`, `_on_ring_msg`, and `start` after a restore; an
-- `_on_eof` that flushes twice counts twice), and the message of each delivery.
pub record Setup (S X B : Type 0) : Type 0 where
  pub node0 : Node S X
  pub every : ℕ
  pub process : Msg B → Node S X → Node S X
  pub discard : ℕ → Node S X → Node S X
  pub control : ℕ → Node S X → Node S X
  pub msg : ℕ → Msg B

-- A handler other than `_on_data`: the abort of a client, or another one.
pub data Handler : Type 0 where
  discarding : ℕ → Handler
  controlling : ℕ → Handler

-- What changed a node: a delivery, or another handler.
pub data Change : Type 0 where
  delivered : ℕ → Change
  handled : Handler → Change

-- the deliveries among some changes
abbrev pub tags_of : List Change → List ℕ
tags_of [] = []
tags_of (delivered tag ∷ changes) = tag ∷ tags_of changes
tags_of (handled h ∷ changes) = tags_of changes

-- What stays true of a node's state: no repeated keys, the providers of the start, valid parts.
pub record ValidNode {S X : Type 0} (sS : Snapshotable S) (sX : Snapshotable X) (node0 n : Node S X)
    : Type 0 where
  pub fn : sS.Valid n.fn
  pub seq_keys : keys node0.seqs ≡ keys n.seqs
  pub seqs : IsDict n.seqs
  pub extra_keys : keys node0.extra ≡ keys n.extra
  pub extra : IsDict n.extra
  pub providers : All (λ (x : String × X). sX.Valid x.1) n.extra

module _ {S X B : Type 0} (sS : Snapshotable S) (sX : Snapshotable X) (w : Setup S X B) where
  abbrev pub effect : Handler → Node S X → Node S X
  effect (discarding cid) n = w.discard cid n
  effect (controlling k) n = w.control k n

  -- on_data, run by `handle_data` with the lock held
  abbrev pub apply : ℕ → State sS sX → Option (State sS sX)
  apply tag c = some (record c { node = w.process (w.msg tag) c.node })

  unfoldable pub deliver : ℕ → State sS sX → Option (State sS sX)
  unfolding handle_data
  deliver tag c =
      handle_data sS sX (apply tag) (w.msg tag).client_id (w.msg tag).producer_id (w.msg tag).seq
        tag c

  -- `RingNode._on_abort`: the client's state is dropped, and the tombstone is stored at once
  unfoldable pub abort : ℕ → State sS sX → Option (State sS sX)
  unfolding mark_aborted flush
  abort cid c = do
    c1 ← mark_aborted sS sX cid (record c { node = w.discard cid c.node })
    flush sS sX true c1

  -- `_on_eof` and `_on_ring_msg`: the node changes, and a checkpoint is stored before anything else
  unfoldable pub control : ℕ → State sS sX → Option (State sS sX)
  unfolding flush
  control k c = flush sS sX true (record c { node = w.control k c.node })

  -- The process dies and starts again from the store. The last `k` acknowledgements were not
  -- sent, or did not arrive.
  unfoldable pub crash : ℕ → State sS sX → State sS sX
  unfolding restore init
  crash k c =
      (restore sS sX
        (record (init sS sX w.node0 w.every) { store = c.store; acked = drop k c.acked })).0

  pub data Step (c : State sS sX) : State sS sX → Type 0 where
    on_delivery :
        {c' : State sS sX} (tag : ℕ)
        → mem tag c.acked ≡ false
        → mem tag c.pending_acks ≡ false
        → deliver tag c ≡ some c'
        → Step c c'
    on_flush : {c' : State sS sX} (force : Bool) → flush sS sX force c ≡ some c' → Step c c'
    on_abort : {c' : State sS sX} (cid : ℕ) → abort cid c ≡ some c' → Step c c'
    on_control : {c' : State sS sX} (k : ℕ) → control k c ≡ some c' → Step c c'
    on_crash : (k : ℕ) → Step c (crash k c)

  pub data Reach : State sS sX → Type 0 where
    start : Reach (init sS sX w.node0 w.every)
    next : {c c' : State sS sX} → Reach c → Step c c' → Reach c'

  -- The state after some changes, the last one first.
  unfoldable pub replay : List Change → Node S X
  replay [] = w.node0
  replay (delivered tag ∷ changes) = w.process (w.msg tag) (replay changes)
  replay (handled h ∷ changes) = effect h (replay changes)

  -- The identity (p, s) is among these deliveries.
  unfoldable pub seen_in : ℕ → ℕ → List ℕ → Bool
  seen_in p s [] = false
  seen_in p s (tag ∷ tags) =
      ((w.msg tag).producer_id == p && (w.msg tag).seq == s) || seen_in p s tags

  abbrev pub seen_tag : ℕ → List ℕ → Bool
  seen_tag tag tags = seen_in (w.msg tag).producer_id (w.msg tag).seq tags
