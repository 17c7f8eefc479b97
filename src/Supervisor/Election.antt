-- ===== src/Supervisor/Election.antt =====
-- src/supervisor/server.py: the bully election between the supervisors. A handler returns the new
-- state and the messages that were delivered; who can be reached at the moment is its argument.
pub mod Agreement
use distribuidos_tp_money_la.Prelude.{
  ℕ, zero, suc, ◌+◌, Bool, true, false, ◌&&◌, not, Option, none, some, List, [], ◌∷◌, ◌++◌, leb,
  ltb, length, if◌then◌else◌, ◌==◌, nat_eq,
}
use distribuidos_tp_money_la.Collections.PySet.{mem}

pub data PeerMsg : Type 0 where
  supervisor_election : PeerMsg
  supervisor_leader : ℕ → PeerMsg

-- `LeaderRuntime`, and `ReplicaRuntime` of the leader with an index
pub data Runtime : Type 0 where
  leader_runtime : Runtime
  replica_runtime : ℕ → Runtime

-- A peer is named by its index; its host follows from it.
pub record SupervisorNode : Type 0 where
  pub idx : ℕ
  pub peers : List ℕ
  pub on_election : Bool
  pub leader : Option ℕ
  pub runtime : Option Runtime

unfoldable pub init : ℕ → List ℕ → SupervisorNode
init idx peers = record {
  idx = idx;
  peers = peers;
  on_election = false;
  leader = none;
  runtime = none;
}

-- not self._leader and self._runtime
unfoldable pub is_leader : SupervisorNode → Bool
is_leader s =
    elim s.leader [ none ↦ true | some l ↦ false ]
    && elim s.runtime [ none ↦ false | some r ↦ true ]

-- `_broadcast_message`: what was delivered to the peers that can be reached; its length is `acks`
unfoldable pub broadcast_message : PeerMsg → List ℕ → List ℕ → List (ℕ × PeerMsg)
broadcast_message msg reachable [] = []
broadcast_message msg reachable (p ∷ peers) =
    let rest = broadcast_message msg reachable peers in
    if mem p reachable then (p, msg) ∷ rest else rest

-- `_announce_worker`: one turn
unfoldable pub announce : List ℕ → SupervisorNode → List (ℕ × PeerMsg)
unfolding is_leader broadcast_message
announce reachable s =
    if is_leader s then broadcast_message (supervisor_leader s.idx) reachable s.peers else []

-- `_promote` and `_downgrade`, with `_change_runtime`
unfoldable pub promote : SupervisorNode → SupervisorNode
promote s = record s { runtime = some leader_runtime }

unfoldable pub downgrade : ℕ → SupervisorNode → SupervisorNode
downgrade leader s = record s { runtime = some (replica_runtime leader) }

-- [p for p in self._peers if p > self._idx]
unfoldable pub greater_peers : ℕ → List ℕ → List ℕ
greater_peers idx [] = []
greater_peers idx (p ∷ peers) =
    let rest = greater_peers idx peers in if ltb idx p then p ∷ rest else rest

abbrev pub is_empty {ℓ} : {A : Type ℓ} → List A → Bool
is_empty [] = true
is_empty (x ∷ xs) = false

unfoldable pub handle_leader_down : List ℕ → SupervisorNode → SupervisorNode × List (ℕ × PeerMsg)
unfolding is_leader broadcast_message greater_peers promote
handle_leader_down reachable s =
    let claim = broadcast_message (supervisor_leader s.idx) reachable s.peers in
    let asked = broadcast_message supervisor_election reachable (greater_peers s.idx s.peers) in
    if s.on_election
    then (s, [])
    else if is_leader s
    then (s, claim)
    else if not (is_empty asked)
    then (record s { leader = none; on_election = false }, asked)
    else (record (promote s) { leader = none; on_election = false }, claim)

-- next(p.host for p in self._peers if p.idx == claim): `none` where it raises StopIteration
unfoldable pub find_peer : ℕ → List ℕ → Option ℕ
unfolding mem
find_peer claim peers = if mem claim peers then some claim else none

-- self._leader is not None and claim <= self._leader.idx
unfoldable pub follows_higher : ℕ → SupervisorNode → Bool
follows_higher claim s = elim s.leader [ none ↦ false | some l ↦ leb claim l ]

unfoldable pub handle_new_leader :
    List ℕ → ℕ → SupervisorNode → Option (SupervisorNode × List (ℕ × PeerMsg))
unfolding is_leader broadcast_message follows_higher find_peer downgrade
handle_new_leader reachable claim s =
    let reassert = broadcast_message (supervisor_leader s.idx) reachable s.peers in
    if leb claim s.idx
    then some (s, if ltb claim s.idx && is_leader s then reassert else [])
    else if follows_higher claim s
    then some (s, [])
    else elim (find_peer claim s.peers) [
      | none ↦ none
      | some host ↦
          some (record (downgrade host s) { leader = some claim; on_election = false }, [])
    ]
