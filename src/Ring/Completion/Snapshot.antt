-- ===== src/Ring/Completion/Snapshot.antt =====
-- The saved form of the completion state (`snapshot_state` and `restore_state` of
-- ring_completion.py). Ids and shards are saved as texts and a phase by its name; what Python's
-- `str`, `UUID` and `int` do is an argument, and a text that they refuse raises (`none`).
use distribuidos_tp_money_la.Prelude.{
  ℕ, ◌≡◌, refl, Option, none, some, List, [], ◌∷◌, map, All, ◌>>=◌, ◌==◌, nat_eq, string_eq,
  if◌then◌else◌,
}
use Prim.Native.String.{String}
use distribuidos_tp_money_la.Prelude.Int.{ℤ}
use distribuidos_tp_money_la.Collections.Dict.{Dict, put, update}
use distribuidos_tp_money_la.Collections.Dict.Laws.{IsDict, update-nil}
use distribuidos_tp_money_la.Collections.PySet.{set_of, NoRepeat, set_of-NoRepeat}
use distribuidos_tp_money_la.Messages.Values.{Text, read_all, read_all-map}
use distribuidos_tp_money_la.Ring.Completion.{
  Phase, processing, emitted, done, Client, RingCompletion,
}

-- str(id), UUID(text), str(shard) and int(text) of Python
pub record Texts : Type 0 where
  pub str_id : ℕ → Text
  pub uuid : Text → Option ℕ
  pub str_int : ℕ → Text
  pub int_of : Text → Option ℕ

-- Each reads what the other wrote.
pub record ReadsBack (x : Texts) : Type 0 where
  pub uuid-str_id : (cid : ℕ) → x.uuid (x.str_id cid) ≡ some cid
  pub int_of-str_int : (n : ℕ) → x.int_of (x.str_int n) ≡ some n

-- [expected, received, sent, phase]
abbrev pub Saved : Type 0
Saved = ℤ × (ℕ × (Dict Text ℕ × String))

-- a snapshot, and the flat one of old checkpoints; `none` where there is no list of aborted ids
pub data RingSnapshot : Type 0 where
  keyed : Dict Text Saved → Option (List Text) → RingSnapshot
  flat : Dict Text Saved → RingSnapshot

-- Phase.name
abbrev pub phase_name : Phase → String
phase_name processing = "PROCESSING"
phase_name emitted = "EMITTED"
phase_name done = "DONE"

-- Phase[name]; an unknown name raises
abbrev pub phase_named : String → Option Phase
phase_named name =
    if name == "PROCESSING"
    then some processing
    else if name == "EMITTED"
    then some emitted
    else if name == "DONE"
    then some done
    else none

phase_named-phase_name : (p : Phase) → phase_named (phase_name p) ≡ some p
phase_named-phase_name processing = refl
phase_named-phase_name emitted = refl
phase_named-phase_name done = refl

module _ (x : Texts) where
  -- {str(s): n for s, n in c.sent.items()}
  unfoldable pub save_sent : Dict ℕ ℕ → Dict Text ℕ
  save_sent [] = []
  save_sent ((s, n) ∷ sent) = (x.str_int s, n) ∷ save_sent sent

  -- {int(s): n for s, n in sent.items()}
  unfoldable pub restore_sent : Dict ℕ ℕ → Dict Text ℕ → Option (Dict ℕ ℕ)
  unfolding put
  restore_sent sent [] = some sent
  restore_sent sent ((s, n) ∷ saved) = x.int_of s >>= λ shard. restore_sent (put shard n sent) saved

  abbrev pub save_client : ℕ × Client → Text × Saved
  save_client e =
      (x.str_id e.0, (e.1.expected, (e.1.received, (save_sent e.1.sent, phase_name e.1.phase))))

  unfoldable pub snapshot_state : RingCompletion → RingSnapshot
  unfolding save_sent
  snapshot_state rc = keyed (map save_client rc.clients) (some (map x.str_id rc.aborted))

  -- the loop of `restore_state`
  unfoldable pub restore_clients : Dict ℕ Client → Dict Text Saved → Option (Dict ℕ Client)
  unfolding put restore_sent
  restore_clients clients [] = some clients
  restore_clients clients ((cid, (expected, (received, (sent, name)))) ∷ saved) =
      restore_sent [] sent >>= λ counts. phase_named name >>= λ phase. x.uuid cid >>= λ id.
      restore_clients
        (put id (record { expected = expected; received = received; sent = counts; phase = phase })
          clients)
        saved

  unfoldable pub restore_state : RingCompletion → RingSnapshot → Option RingCompletion
  unfolding restore_clients set_of read_all
  restore_state rc (flat saved) =
      restore_clients [] saved >>= λ clients. some (record rc { clients = clients; aborted = [] })
  restore_state rc (keyed saved none) =
      restore_clients [] saved >>= λ clients. some (record rc { clients = clients; aborted = [] })
  restore_state rc (keyed saved (some aborted)) = restore_clients [] saved >>= λ clients.
      read_all x.uuid aborted >>= λ ids.
      some (record rc { clients = clients; aborted = set_of ids })

  module _ (back : ReadsBack x) where
    restore_sent-saved :
        (d sent : Dict ℕ ℕ) → restore_sent d (save_sent sent) ≡ some (update d sent)
    unfolding restore_sent save_sent update
    restore_sent-saved d [] = refl
    restore_sent-saved d ((s, n) ∷ sent) =
        rw (back.int_of-str_int s) (restore_sent-saved (put s n d) sent)

    restore_clients-saved :
        (d clients : Dict ℕ Client)
        → All (λ (e : ℕ × Client). IsDict e.1.sent) clients
        → restore_clients d (map save_client clients) ≡ some (update d clients)
    unfolding restore_clients update
    restore_clients-saved d [] h = refl
    restore_clients-saved d ((cid, c) ∷ clients) (sent, h) = rw (restore_sent-saved [] c.sent) (
        rw (phase_named-phase_name c.phase) (
          rw (back.uuid-str_id cid)
            (rw (update-nil c.sent sent) (restore_clients-saved (put cid c d) clients h))))

  -- Where `UUID` reads what `str` makes of an id, and `int` what it makes of a shard: a new
  -- process of the same ring, restored from a snapshot, has the state that was saved, the counts
  -- under their shards, the phases and the aborted clients.
  pub restore_state-snapshot_state :
      ReadsBack x
      → (old rc : RingCompletion) → IsDict rc.clients
      → All (λ (e : ℕ × Client). IsDict e.1.sent) rc.clients
      → NoRepeat rc.aborted
      → restore_state old (snapshot_state rc)
        ≡ some (record old { clients = rc.clients; aborted = rc.aborted })
  unfolding restore_state snapshot_state
  restore_state-snapshot_state back old rc d sent once =
      rw (restore_clients-saved back [] rc.clients sent) (
        rw (read_all-map x.str_id x.uuid back.uuid-str_id rc.aborted)
          (rw (update-nil rc.clients d, set_of-NoRepeat rc.aborted once) refl))
