-- ===== src/Checkpoint/Checkpointer.antt =====
-- src/common/checkpoint/checkpointer.py: deduplication and batched checkpoints. Acknowledgements
-- are held back until the checkpoint that covers them is stored.
-- A method that takes the lock is `none` when the lock is held: `threading.Lock` is not
-- reentrant, so the one thread would wait for itself for ever.
-- The store keeps the blob itself: its bytes (msgpack) and the temporary file that
-- checkpoint_store.py renames are left out.
pub mod Entries
pub mod World
use distribuidos_tp_money_la.Prelude.{
  ◌>>=◌, ℕ, ◌+◌, Bool, true, false, ◌||◌, Option, none, some, List, [], ◌∷◌, ◌++◌, leb, max,
  if◌then◌else◌, length, ◌==◌, nat_eq, string_eq,
}
use Prim.Native.String.{String}
use distribuidos_tp_money_la.Collections.Dict.{Dict, get, put}
use distribuidos_tp_money_la.Collections.PySet.{mem, add}
use distribuidos_tp_money_la.Checkpoint.Deduplicator
use distribuidos_tp_money_la.Checkpoint.Deduplicator.{Deduplicator}
use distribuidos_tp_money_la.Checkpoint.Snapshotable.{Snapshotable}

-- The header of a message, and its content.
pub record Msg (B : Type 0) : Type 0 where
  pub client_id : ℕ
  pub producer_id : ℕ
  pub seq : ℕ
  pub content : B

-- What a node keeps across a crash: its function, the counters of its outputs by producer id, and
-- the named extra states.
pub record Node (S X : Type 0) : Type 0 where
  pub fn : S
  pub seqs : Dict ℕ ℕ
  pub extra : Dict String X

pub record Blob (F G : Type 0) : Type 0 where
  pub state : F
  pub dedup : Dict ℕ (ℕ × List ℕ)
  pub out_seq : Dict ℕ ℕ
  pub extra : Dict String G
  pub aborted : List ℕ

-- for key, provider in providers.items(): if key in saved: provider.restore(saved[key])
unfoldable pub restore_entries {ℓ} :
    {K V W : Type ℓ} → (K → Dict K W → Option W) → (V → W → V) → Dict K V → Dict K W → Dict K V
restore_entries find f [] saved = []
restore_entries find f ((k, v) ∷ d) saved =
    (k, elim (find k saved) [ none ↦ v | some w ↦ f v w ]) ∷ restore_entries find f d saved

-- {key: g(provider) for key, provider in providers.items()}
unfoldable pub snapshot_entries {ℓ} : {K V W : Type ℓ} → (V → W) → Dict K V → Dict K W
snapshot_entries g [] = []
snapshot_entries g ((k, v) ∷ d) = (k, g v) ∷ snapshot_entries g d

-- An acknowledgement is named by the delivery that it is for.
pub record Checkpointer (S X F G : Type 0) : Type 0 where
  pub node : Node S X
  pub store : Option (Blob F G)
  pub dedup : Deduplicator
  pub every : ℕ
  pub pending_acks : List ℕ
  pub aborted : List ℕ
  pub dirty : Bool
  pub locked : Bool
  pub acked : List ℕ

module _ {S X : Type 0} (sS : Snapshotable S) (sX : Snapshotable X) where
  abbrev pub State : Type 0
  State = Checkpointer S X sS.Snapshot sX.Snapshot

  unfoldable pub init : Node S X → ℕ → State
  init node checkpoint_every = record {
    node = node;
    store = none;
    dedup = Deduplicator.init;
    every = max 1 checkpoint_every;
    pending_acks = [];
    aborted = [];
    dirty = false;
    locked = false;
    acked = [];
  }

  unfoldable pub take_blob : State → Blob sS.Snapshot sX.Snapshot
  unfolding snapshot_entries
  take_blob c = record {
    state = sS.snapshot_state c.node.fn;
    dedup = Deduplicator.snapshot c.dedup;
    out_seq = snapshot_entries (λ v. v) c.node.seqs;
    extra = snapshot_entries sX.snapshot_state c.node.extra;
    aborted = c.aborted;
  }

  unfoldable pub save : State → State
  unfolding take_blob
  save c = record c { store = some (take_blob c); dirty = false }

  unfoldable pub ack_pending : State → State
  ack_pending c = record c { acked = c.pending_acks ++ c.acked; pending_acks = [] }

  -- `_checkpoint_and_flush`
  unfoldable pub checkpoint_and_flush : Bool → State → State
  unfolding save ack_pending
  checkpoint_and_flush force c = ack_pending (if c.dirty || force then save c else c)

  unfoldable pub flush : Bool → State → Option State
  unfolding checkpoint_and_flush
  flush force c = if c.locked then none else some (checkpoint_and_flush force c)

  unfoldable pub is_aborted : ℕ → State → Option Bool
  unfolding mem
  is_aborted cid c = if c.locked then none else some (mem cid c.aborted)

  unfoldable pub mark_aborted : ℕ → State → Option State
  mark_aborted cid c =
      if c.locked then none else some (record c { aborted = add cid c.aborted; dirty = true })

  unfoldable pub ack : ℕ → State → State
  ack m c = record c { acked = m ∷ c.acked }

  -- the end of `handle_data`, after `apply()`
  unfoldable pub after_apply : ℕ → ℕ → ℕ → State → State
  unfolding checkpoint_and_flush
  after_apply producer seq m c =
      let c1 = record c {
        dedup = Deduplicator.record_seq c.dedup producer seq;
        dirty = true;
        pending_acks = c.pending_acks ++ m ∷ [];
      } in
      let c2 =
        if leb c1.every (length c1.pending_acks) then checkpoint_and_flush false c1 else c1 in
      record c2 { locked = false }

  -- `handle_data`: the header of the message, what its acknowledgement is for, and `apply()`, which
  -- runs with the lock held.
  unfoldable pub handle_data : (State → Option State) → ℕ → ℕ → ℕ → ℕ → State → Option State
  unfolding after_apply ack
  handle_data apply cid producer seq m c =
      if c.locked
      then none
      else if mem cid c.aborted
      then some (ack m c)
      else if Deduplicator.is_duplicate c.dedup producer seq
      then some (ack m c)
      else do c1 ← apply (record c { locked = true }); some (after_apply producer seq m c1)

  -- `restore`, on the objects as a process makes them at its start
  unfoldable pub restore_blob : Blob sS.Snapshot sX.Snapshot → State → State
  unfolding restore_entries
  restore_blob blob c = record c {
    node = record {
      fn = sS.restore_state c.node.fn blob.state;
      seqs = restore_entries get (λ _ w. w) c.node.seqs blob.out_seq;
      extra = restore_entries get sX.restore_state c.node.extra blob.extra;
    };
    dedup = Deduplicator.restore blob.dedup;
    aborted = blob.aborted;
  }

  unfoldable pub restore : State → State × Bool
  unfolding restore_blob
  restore c = elim c.store [
    | none ↦ (record c { node = record c.node { fn = sS.clear_stale c.node.fn } }, false)
    | some blob ↦ (restore_blob blob c, true)
  ]
