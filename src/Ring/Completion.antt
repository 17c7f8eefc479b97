-- ===== src/Ring/Completion.antt =====
-- src/common/comms/eof_handler/ring_completion.py: per-client EOF completion over a ring of
-- peers, as a pure state machine. A method returns the new state and the actions.
-- Client ids (UUID) and peer ids are numbers that are only compared.
pub mod Clients
pub mod Counts
pub mod Phases
pub mod Snapshot
use distribuidos_tp_money_la.Prelude.{
  ℕ, ◌+◌, Bool, true, false, ◌||◌, not, Option, none, some, List, [], ◌∷◌, ◌++◌, min, ltb,
  if◌then◌else◌, length, Eq, ◌==◌, nat_eq,
}
use distribuidos_tp_money_la.Prelude.Int.{ℤ, pos, negsuc, ltb_ℤ}
use distribuidos_tp_money_la.Collections.Dict.{Dict, get, put, pop, get_default, keys, values}
use distribuidos_tp_money_la.Collections.PySet.{mem, add}

pub data Phase : Type 0 where
  processing emitted done : Phase

abbrev pub is_processing : Phase → Bool
is_processing processing = true
is_processing emitted = false
is_processing done = false

abbrev pub is_done : Phase → Bool
is_done processing = false
is_done emitted = false
is_done done = true

-- `_Client`
pub record Client : Type 0 where
  pub expected : ℤ
  pub received : ℕ
  pub sent : Dict ℕ ℕ
  pub phase : Phase

abbrev pub new_client : Client
new_client = record { expected = negsuc 0; received = 0; sent = []; phase = processing }

pub record BarrierToken : Type 0 where
  pub client_id : ℕ
  pub origin : ℕ
  pub sent_by : Dict ℕ (Dict ℕ ℕ)

pub data Action : Type 0 where
  emit : ℕ → Action
  forward : BarrierToken → Action
  downstream_eof : ℕ → Dict ℕ ℕ → Action

pub record RingCompletion : Type 0 where
  pub node_id : ℕ
  pub n_nodes : ℕ
  pub leader : ℕ
  pub clients : Dict ℕ Client
  pub aborted : List ℕ

-- min([node_id, *peer_ids])
unfoldable pub least : ℕ → List ℕ → ℕ
least m [] = m
least m (p ∷ ps) = least (min m p) ps

unfoldable pub init : ℕ → List ℕ → RingCompletion
unfolding least
init node_id peer_ids = record {
  node_id = node_id;
  n_nodes = length peer_ids + 1;
  leader = least node_id peer_ids;
  clients = [];
  aborted = [];
}

-- `_client`: the record of a client, made on first use
unfoldable pub client : RingCompletion → ℕ → Client
unfolding get_default
client rc cid = get_default cid new_client rc.clients

-- a write through the reference that `_client` returns
unfoldable pub set_client : RingCompletion → ℕ → Client → RingCompletion
set_client rc cid c = record rc { clients = put cid c rc.clients }

unfoldable pub is_locally_complete : Client → Bool
is_locally_complete c =
    not
      (not (is_processing c.phase) || ltb_ℤ c.expected (pos 0) || ltb_ℤ (pos c.received) c.expected)

unfoldable pub maybe_local_complete : RingCompletion → ℕ → RingCompletion × List Action
unfolding client set_client is_locally_complete
maybe_local_complete rc cid =
    let c = client rc cid in
    (set_client rc cid c, if is_locally_complete c then emit cid ∷ [] else [])

unfoldable pub on_data : RingCompletion → ℕ → RingCompletion × List Action
unfolding maybe_local_complete client set_client
on_data rc cid =
    let c = client rc cid in
    if mem cid rc.aborted
    then (rc, [])
    else maybe_local_complete (set_client rc cid (record c { received = c.received + 1 })) cid

unfoldable pub drop : RingCompletion → ℕ → RingCompletion
drop rc cid = record rc { clients = pop cid rc.clients; aborted = add cid rc.aborted }

unfoldable pub on_upstream_eof : RingCompletion → ℕ → ℤ → RingCompletion × List Action
unfolding maybe_local_complete client set_client
on_upstream_eof rc cid expected =
    let c = client rc cid in
    if mem cid rc.aborted
    then (rc, [])
    else maybe_local_complete (set_client rc cid (record c { expected = expected })) cid

unfoldable pub recheck_from : RingCompletion → List ℕ → RingCompletion × List Action
unfolding maybe_local_complete
recheck_from rc [] = (rc, [])
recheck_from rc (cid ∷ cids) =
    let (rc1, actions) = maybe_local_complete rc cid in
    let (rc2, more) = recheck_from rc1 cids in (rc2, actions ++ more)

unfoldable pub recheck : RingCompletion → RingCompletion × List Action
unfolding recheck_from keys
recheck rc = recheck_from rc (keys rc.clients)

unfoldable pub resolved_of : Dict ℕ Client → List ℕ
resolved_of [] = []
resolved_of ((cid, c) ∷ d) =
    let rest = resolved_of d in if is_processing c.phase then rest else cid ∷ rest

unfoldable pub resolved_clients : RingCompletion → List ℕ
unfolding resolved_of
resolved_clients rc = resolved_of rc.clients

-- per_shard[shard] = per_shard.get(shard, 0) + count, over one peer's counts
unfoldable pub add_counts : Dict ℕ ℕ → Dict ℕ ℕ → Dict ℕ ℕ
unfolding get_default put
add_counts per_shard [] = per_shard
add_counts per_shard ((shard, count) ∷ counts) =
    add_counts (put shard (get_default shard 0 per_shard + count) per_shard) counts

unfoldable pub add_all_counts : Dict ℕ ℕ → List (Dict ℕ ℕ) → Dict ℕ ℕ
unfolding add_counts
add_all_counts per_shard [] = per_shard
add_all_counts per_shard (counts ∷ rest) = add_all_counts (add_counts per_shard counts) rest

-- the end of `_advance`: the leader has every peer's counts
unfoldable pub close_barrier : RingCompletion → BarrierToken → RingCompletion × List Action
unfolding client set_client add_all_counts values
close_barrier rc token =
    let c = client rc token.client_id in
    if is_done c.phase then (set_client rc token.client_id c, []) else (
      set_client rc token.client_id (record c { phase = done }),
      downstream_eof token.client_id (add_all_counts [] (values token.sent_by)) ∷ [],
    )

-- `_advance`
unfoldable pub advance : RingCompletion → BarrierToken → RingCompletion × List Action
unfolding close_barrier
advance rc token =
    if ltb (length token.sent_by) rc.n_nodes
    then (rc, forward token ∷ [])
    else if not (token.origin == rc.node_id)
    then (rc, forward token ∷ [])
    else close_barrier rc token

unfoldable pub report_sent : RingCompletion → ℕ → Dict ℕ ℕ → RingCompletion × List Action
unfolding advance client set_client
report_sent rc cid sent =
    let c = client rc cid in
    let rc1 = set_client rc cid (record c { sent = sent; phase = emitted }) in
    if not (is_processing c.phase)
    then (set_client rc cid c, [])
    else if not (rc.node_id == rc.leader)
    then (rc1, [])
    else advance rc1
        (record { client_id = cid; origin = rc.leader; sent_by = (rc.node_id, sent) ∷ [] })

-- A peer that has not emitted leaves its slot of the token alone.
unfoldable pub record_slot : RingCompletion → BarrierToken → BarrierToken
unfolding client
record_slot rc token =
    let c = client rc token.client_id in
    if is_processing c.phase
    then token
    else record token { sent_by = put rc.node_id c.sent token.sent_by }

unfoldable pub on_token : RingCompletion → BarrierToken → RingCompletion × List Action
unfolding advance client set_client record_slot
on_token rc token =
    if mem token.client_id rc.aborted
    then (rc, [])
    else advance (set_client rc token.client_id (client rc token.client_id)) (record_slot rc token)
