-- ===== src/Checkpoint/Spill.antt =====
-- src/common/checkpoint/persistent_spill.py: per-client append-only files whose committed lengths
-- ride the checkpoint. A character is a number; a file on disk is apart from what its open handle
-- has buffered. The directory itself is left out.
pub mod Truncation
use distribuidos_tp_money_la.Prelude.{
  ℕ, zero, suc, ◌+◌, Bool, true, false, Option, none, some, List, [], ◌∷◌, ◌++◌, take, length,
  if◌then◌else◌, ◌==◌, nat_eq,
}
use distribuidos_tp_money_la.Collections.Dict.{Dict, get, put, pop, get_default, is_some}

pub record PersistentSpill : Type 0 where
  pub files : Dict ℕ (List ℕ)
  pub handles : Dict ℕ (List ℕ)

-- `_handle`: open(path, "a") makes the file where it is missing
unfoldable pub open_append : ℕ → PersistentSpill → PersistentSpill
unfolding get get_default put
open_append cid s = if is_some (get cid s.handles) then s else record {
  files = put cid (get_default cid [] s.files) s.files;
  handles = put cid [] s.handles;
}

-- `append`: write() goes to the buffer
unfoldable pub append : ℕ → List ℕ → PersistentSpill → PersistentSpill
unfolding open_append get_default put
append cid line s =
    let s1 = open_append cid s in
    record s1 { handles = put cid (get_default cid [] s1.handles ++ line) s1.handles }

-- handle.flush(), where the handle is open; the operating system may also flush at any time
unfoldable pub flush_handle : ℕ → PersistentSpill → PersistentSpill
unfolding get get_default put
flush_handle cid s =
    if is_some (get cid s.handles)
    then record {
      files = put cid (get_default cid [] s.files ++ get_default cid [] s.handles) s.files;
      handles = put cid [] s.handles;
    }
    else s

-- the text that `iter_lines` reads, a line at a time
unfoldable pub read_file : ℕ → PersistentSpill → PersistentSpill × List ℕ
unfolding flush_handle get_default
read_file cid s = let s1 = flush_handle cid s in (s1, get_default cid [] s1.files)

-- `clear`; closing a handle flushes it, and then the file goes
unfoldable pub clear : ℕ → PersistentSpill → PersistentSpill
unfolding pop
clear cid s = record { files = pop cid s.files; handles = pop cid s.handles }

-- `clear_all`
unfoldable pub clear_all : PersistentSpill → PersistentSpill
clear_all s = record { files = []; handles = [] }

-- the loop of `snapshot_state`, over the ids of the open handles
unfoldable pub snapshot_from : List ℕ → PersistentSpill → PersistentSpill × Dict ℕ ℕ
unfolding flush_handle get_default
snapshot_from [] s = (s, [])
snapshot_from (cid ∷ cids) s =
    let s1 = flush_handle cid s in
    let (s2, committed) = snapshot_from cids s1 in
    (s2, (cid, length (get_default cid [] s1.files)) ∷ committed)

-- the loop of `restore_state`, on the files that the crash left
unfoldable pub restore_from : Dict ℕ ℕ → PersistentSpill → PersistentSpill
unfolding get_default put
restore_from [] s = s
restore_from ((cid, committed) ∷ snapshot) s = restore_from snapshot (record {
  files = put cid (take committed (get_default cid [] s.files)) s.files;
  handles = put cid [] s.handles;
})

unfoldable pub restore_state : Dict ℕ ℕ → PersistentSpill → PersistentSpill
unfolding restore_from
restore_state snapshot s = restore_from snapshot (record s { handles = [] })
