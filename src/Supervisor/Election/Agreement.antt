-- ===== src/Supervisor/Election/Agreement.antt =====
-- What the election handlers (server.py) keep true, and whom a supervisor follows.
use distribuidos_tp_money_la.Prelude.{
  ℕ, ◌<◌, ◌≡◌, refl, ap, sym, ◌∙◌, subst, Bool, true, false, ◌&&◌, Option, none, some, List, [],
  ◌∷◌, leb, ltb, ◌==◌, nat_eq, arith, Bool-cases, inl, inr, some_inj, if_true, if_false,
}
use distribuidos_tp_money_la.Collections.PySet.{mem}
use distribuidos_tp_money_la.Supervisor.Election.{
  PeerMsg, supervisor_election, supervisor_leader, leader_runtime, replica_runtime, SupervisorNode,
  is_leader, broadcast_message, promote, downgrade, greater_peers, is_empty, handle_leader_down,
  find_peer, follows_higher, handle_new_leader,
}

-- Whom a supervisor follows, if anyone, has a greater index than its own.
abbrev pub FollowsGreater : SupervisorNode → Type 0
FollowsGreater s = (l : ℕ) → s.leader ≡ some l → s.idx < l

-- A claim with a greater index than the supervisor's and its leader's, by a peer it knows, is
-- followed at once: the supervisor runs as the claimant's replica and sends nothing.
pub handle_new_leader-follows :
    (reachable : List ℕ) (claim : ℕ) (s : SupervisorNode)
    → s.idx < claim
    → follows_higher claim s ≡ false
    → mem claim s.peers ≡ true
    → handle_new_leader reachable claim s
      ≡ some (
        record s {
          leader = some claim;
          on_election = false;
          runtime = some (replica_runtime claim);
        },
        [],
      )
unfolding handle_new_leader find_peer downgrade
handle_new_leader-follows reachable claim s lt new known = rw (lower, new, known) refl
  where
    lower : leb claim s.idx ≡ false
    lower = ground (arith, lt)

-- Handling a claim keeps that: a supervisor never follows a smaller index, its own included.
pub handle_new_leader-FollowsGreater :
    (reachable : List ℕ) (claim : ℕ) (s s' : SupervisorNode) (out : List (ℕ × PeerMsg))
    → handle_new_leader reachable claim s ≡ some (s', out)
    → FollowsGreater s
    → FollowsGreater s'
unfolding handle_new_leader
handle_new_leader-FollowsGreater reachable claim s s' out h safe =
    elim (Bool-cases (leb claim s.idx)) [
      | inl low ↦ same (sym (if_true _ _ _ low) ∙ h)
      | inr high ↦
          let h1 = sym (if_false _ _ _ high) ∙ h in
          elim (Bool-cases (follows_higher claim s)) [
            | inl old ↦ same (sym (if_true _ _ _ old) ∙ h1)
            | inr new ↦ found (find_peer claim s.peers) high (sym (if_false _ _ _ new) ∙ h1)
          ]
    ]
  where
    same :
        {o : List (ℕ × PeerMsg)}
        → Path (Option (SupervisorNode × List (ℕ × PeerMsg))) (some (s, o)) (some (s', out))
        → FollowsGreater s'
    same e = subst FollowsGreater (ap (λ x. x.0) (some_inj e)) safe

    found :
        (o : Option ℕ)
        → leb claim s.idx ≡ false
        → Path
            (Option (SupervisorNode × List (ℕ × PeerMsg)))
            (elim o [
              | none ↦ none
              | some host ↦
                  some (record (downgrade host s) { leader = some claim; on_election = false }, [])
            ])
            (some (s', out))
        → FollowsGreater s'
    found none high e = absurd (cc)
    found (some host) high e =
        subst FollowsGreater (ap (λ x. x.0) (some_inj e))
          (λ l eq. unfold downgrade in ground (arith, high, some_inj eq))

-- Two supervisors that both lead, and know each other: once each got the other's claim, the one
-- with the smaller index runs as the replica of the greater, which stays as it is and repeats its
-- claim to every peer that it can reach.
pub split_brain_resolves :
    (ri rj : List ℕ) (i j : SupervisorNode)
    → i.idx < j.idx
    → is_leader i ≡ true
    → is_leader j ≡ true
    → mem j.idx i.peers ≡ true
    → (handle_new_leader ri j.idx i
        ≡ some (
          record i {
            leader = some j.idx;
            on_election = false;
            runtime = some (replica_runtime j.idx);
          },
          [],
        ))
      × (handle_new_leader rj i.idx j
          ≡ some (j, broadcast_message (supervisor_leader j.idx) rj j.peers))
unfolding is_leader follows_higher
split_brain_resolves ri rj i j lt lead_i lead_j known = (
  handle_new_leader-follows ri j.idx i lt (alone i.leader _ lead_i) known,
  unfold handle_new_leader in rw (low, lower, lead_j) refl,
)
  where
    low : leb i.idx j.idx ≡ true
    low = ground (arith, lt)

    lower : ltb i.idx j.idx ≡ true
    lower = ground (arith, lt)

    alone :
        (o : Option ℕ) (b : Bool)
        → (elim o [ none ↦ true | some l ↦ false ] && b) ≡ true
        → elim o [ none ↦ false | some l ↦ leb j.idx l ] ≡ false
    alone none b e = refl
    alone (some l) b e = absurd (ground (arith, e))

asked_some :
    (msg : PeerMsg) (idx p : ℕ) (reachable peers : List ℕ)
    → mem p peers ≡ true
    → ltb idx p ≡ true
    → mem p reachable ≡ true
    → is_empty (broadcast_message msg reachable (greater_peers idx peers)) ≡ false
unfolding broadcast_message greater_peers mem
asked_some msg idx p reachable [] m lt r = absurd (ground (arith, m))
asked_some msg idx p reachable (q ∷ peers) m lt r = elim (Bool-cases (q == p)) [
  | inl e ↦ first (ground (arith, e))
  | inr ne ↦ ground (arith, asked_some msg idx p reachable peers (ground (arith, m, ne)) lt r)
]
  where
    first :
        q ≡ p → is_empty (broadcast_message msg reachable (greater_peers idx (q ∷ peers))) ≡ false
    first e = rw e (rw lt (rw r refl))

asked_none :
    (msg : PeerMsg) (idx : ℕ) (reachable peers : List ℕ)
    → ((p : ℕ) → mem p peers ≡ true → ltb idx p ≡ true → mem p reachable ≡ false)
    → broadcast_message msg reachable (greater_peers idx peers) ≡ []
unfolding broadcast_message greater_peers mem
asked_none msg idx reachable [] h = refl
asked_none msg idx reachable (q ∷ peers) h =
    let rest = asked_none msg idx reachable peers (λ p m. h p (ground (arith, m))) in
    elim (Bool-cases (ltb idx q)) [
      | inl gt ↦ rw gt (rw (h q (ground arith) gt) rest)
      | inr le ↦ rw le rest
    ]

-- A supervisor that does not lead, and that can reach no peer with a greater index, becomes the
-- leader when it learns that the leader is down, and claims it to every peer that it can reach.
pub handle_leader_down-promotes :
    (reachable : List ℕ) (s : SupervisorNode)
    → s.on_election ≡ false
    → is_leader s ≡ false
    → ((p : ℕ) → mem p s.peers ≡ true → ltb s.idx p ≡ true → mem p reachable ≡ false)
    → handle_leader_down reachable s ≡ (
      record s { leader = none; on_election = false; runtime = some leader_runtime },
      broadcast_message (supervisor_leader s.idx) reachable s.peers,
    )
unfolding handle_leader_down promote
handle_leader_down-promotes reachable s idle follower alone =
    rw (idle, follower, asked_none supervisor_election s.idx reachable s.peers alone) refl

-- A replica that learns that its leader is down, and reaches a peer with a greater index, leaves
-- the election to that peer, but from then on counts itself as the leader: it forgot its leader
-- and its runtime is still the replica's, so `_is_leader` holds.
pub deferring_replica_leads :
    (reachable : List ℕ) (s : SupervisorNode) (l p : ℕ)
    → s.on_election ≡ false
    → s.leader ≡ some l
    → s.runtime ≡ some (replica_runtime l)
    → mem p s.peers ≡ true
    → s.idx < p
    → mem p reachable ≡ true
    → (is_leader (handle_leader_down reachable s).0 ≡ true)
      × ((handle_leader_down reachable s).0.runtime ≡ some (replica_runtime l))
unfolding handle_leader_down is_leader
deferring_replica_leads reachable s l p idle follows runs known gt reached =
    rw
      (
        idle,
        follows,
        runs,
        asked_some supervisor_election s.idx p reachable s.peers known (ground (arith, gt)) reached,
      )
      (refl, refl)
