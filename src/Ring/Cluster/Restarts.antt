-- ===== src/Ring/Cluster/Restarts.antt =====
-- A node with its checkpoint, through crashes and restarts (`start` and the handlers of
-- src/common/comms/eof_handler/ring_node.py): what is in memory, and what the store holds.
use distribuidos_tp_money_la.Prelude.{
  ℕ, ◌≡◌, refl, true, false, subst, List, [], ◌∷◌, ◌++◌, append-nil, ◌==◌, nat_eq, All,
}
use distribuidos_tp_money_la.Ring.Completion.{RingCompletion, Action, client, is_done}
use distribuidos_tp_money_la.Ring.Cluster.{
  Event, on_message, on_eof, report, token, abort, resume, handle,
}
use distribuidos_tp_money_la.Ring.Cluster.Once.{
  output_for, output_for-append, run, IsClosed, Quiet, NotAborting, run-Quiet,
}

pub record Durable : Type 0 where
  pub live : RingCompletion
  pub stored : RingCompletion

-- `flushed` is a checkpoint, which `checkpointer.flush` or a full batch stores; `restarted` is a
-- crash at any point, and the process that starts after it.
pub data Life : Type 0 where
  happens : Event → Life
  flushed : Life
  restarted : Life

-- `start`: checkpointer.restore(), then rc.recheck()
unfoldable pub live_step : Life → Durable → Durable × List Action
unfolding handle
live_step (happens e) d =
    let (rc, actions) = handle e d.live in (record { live = rc; stored = d.stored }, actions)
live_step flushed d = (record { live = d.live; stored = d.live }, [])
live_step restarted d =
    let (rc, actions) = handle resume d.stored in (record { live = rc; stored = d.stored }, actions)

unfoldable pub run_life : List Life → Durable → Durable × List Action
unfolding live_step
run_life [] d = (d, [])
run_life (l ∷ ls) d =
    let (d1, actions) = live_step l d in let (d2, more) = run_life ls d1 in (d2, actions ++ more)

-- The client is not aborted.
abbrev pub Spares : ℕ → Life → Type 0
Spares cid (happens (abort j)) = (j == cid) ≡ false
Spares cid _ = Unit {0}

spared : (cid : ℕ) (e : Event) → Spares cid (happens e) → NotAborting cid (e ∷ [])
spared cid (on_message j) h = tt
spared cid (on_eof j k) h = tt
spared cid (report j sent) h = tt
spared cid (token t) h = tt
spared cid (abort j) h = (h, tt)
spared cid resume h = tt

handle-Quiet :
    (cid : ℕ) (e : Event) (rc : RingCompletion)
    → Spares cid (happens e)
    → IsClosed cid rc
    → Quiet cid (handle e rc)
unfolding run
handle-Quiet cid e rc n h =
    let (closed, quiet) = run-Quiet cid (e ∷ []) rc (spared cid e n) h in
    (closed, subst (λ actions. output_for cid actions ≡ []) (append-nil (handle e rc).1) quiet)

-- The barrier of the client is closed in memory and in the store.
abbrev IsStoredClosed : ℕ → Durable → Type 0
IsStoredClosed cid d = IsClosed cid d.live × IsClosed cid d.stored

live_step-quiet :
    (cid : ℕ) (l : Life) (d : Durable)
    → Spares cid l
    → IsStoredClosed cid d
    → IsStoredClosed cid (live_step l d).0 × (output_for cid (live_step l d).1 ≡ [])
unfolding live_step
live_step-quiet cid (happens e) d n (h, s) =
    let (h1, q) = handle-Quiet cid e d.live n h in ((h1, s), q)
live_step-quiet cid flushed d n (h, s) = ((h, h), unfold output_for in refl)
live_step-quiet cid restarted d n (h, s) =
    let (h1, q) = handle-Quiet cid resume d.stored tt s in ((h1, s), q)

live-quiet :
    (cid : ℕ) (ls : List Life) (d : Durable)
    → All (Spares cid) ls
    → IsStoredClosed cid d
    → output_for cid (run_life ls d).1 ≡ []
unfolding run_life
live-quiet cid [] d n h = unfold output_for in refl
live-quiet cid (l ∷ ls) d (n, ns) h =
    let (h1, q) = live_step-quiet cid l d n h in
    rw (output_for-append cid (live_step l d).1 (run_life ls (live_step l d).0).1)
      (rw (q, live-quiet cid ls (live_step l d).0 ns h1) refl)

-- Once a node has closed the barrier of a client and a checkpoint of that is stored (the handlers
-- of an EOF and of a token flush one before they return), no later messages, EOFs, reports,
-- tokens, checkpoints, and crashes with a restart from the store, in any order, make it emit that
-- client's results or send its EOF downstream again, unless the client is aborted.
pub closed_once :
    (cid : ℕ) (ls : List Life) (d : Durable)
    → All (Spares cid) ls
    → is_done (client d.live cid).phase ≡ true
    → output_for cid (run_life (flushed ∷ ls) d).1 ≡ []
unfolding run_life live_step
closed_once cid ls d n h = live-quiet cid ls (record { live = d.live; stored = d.live }) n (h, h)
