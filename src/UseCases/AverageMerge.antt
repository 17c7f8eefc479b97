-- ===== src/UseCases/AverageMerge.antt =====
-- Use case 3, the averages joined with the transactions: src/merge/merge_fns/uc3_bank_id.py. A line
-- of the spill (src/common/checkpoint/persistent_spill.py) is the transaction that `_deserialize`
-- gives back; of a transaction only the payment format is looked at. An average is passed on.
pub mod Batches
use distribuidos_tp_money_la.Prelude.{
  ℕ, Bool, true, false, List, [], ◌∷◌, ◌++◌, leb, length, if◌then◌else◌, nat_eq, string_eq,
}
use Prim.Native.String.{String}
use distribuidos_tp_money_la.Collections.Dict.{
  Dict, get_default, put, pop, setdefault, update, contains,
}

-- `MergedTransactions`
pub record Merged (T A : Type 0) : Type 0 where
  pub transactions : List T
  pub averages : Dict String A

-- `UC3BankIdMergeFn`
pub record AverageMerge (T A : Type 0) : Type 0 where
  pub spill : Dict ℕ (List T)
  pub averages : Dict ℕ (Dict String A)

module _ {T A : Type 0} (format_of : T → String) where
  -- `left`
  unfoldable pub left : ℕ → Dict String A → AverageMerge T A → AverageMerge T A
  unfolding get_default put update
  left cid averages m = record m {
    averages = put cid (update (get_default cid [] m.averages) averages) m.averages;
  }

  -- `right`
  unfoldable pub right : ℕ → List T → AverageMerge T A → AverageMerge T A
  unfolding get_default put
  right cid transactions m = record m {
    spill = put cid (get_default cid [] m.spill ++ transactions) m.spill;
  }

  -- `discard`
  unfoldable pub discard : ℕ → AverageMerge T A → AverageMerge T A
  unfolding pop
  discard cid m = record { spill = pop cid m.spill; averages = pop cid m.averages }

  -- the end of `get_result`, after the loop
  abbrev pub last_messages : Dict String A → Bool → List T → List (Merged T A)
  last_messages averages emitted (t ∷ batch) =
      record { transactions = t ∷ batch; averages = averages } ∷ []
  last_messages averages true [] = []
  last_messages averages false [] = record { transactions = []; averages = averages } ∷ []

  -- the loop of `get_result`, with `emitted` and the batch; `chunk_size` is _CHUNK_SIZE
  unfoldable pub merge_lines : ℕ → Dict String A → List T → Bool → List T → List (Merged T A)
  unfolding contains
  merge_lines chunk_size averages [] emitted batch = last_messages averages emitted batch
  merge_lines chunk_size averages (t ∷ lines) emitted batch =
      let longer = batch ++ t ∷ [] in
      let skip = merge_lines chunk_size averages lines emitted batch in
      let full =
        record { transactions = longer; averages = averages }
        ∷ merge_lines chunk_size averages lines true [] in
      let next = merge_lines chunk_size averages lines emitted longer in
      if contains (format_of t) averages
      then if leb chunk_size (length longer) then full else next
      else skip

  -- `get_result`: the client's averages are taken out; the spill stays until `discard`
  unfoldable pub get_result : ℕ → ℕ → AverageMerge T A → AverageMerge T A × List (Merged T A)
  unfolding merge_lines get_default pop
  get_result chunk_size cid m = (
    record m { averages = pop cid m.averages },
    merge_lines chunk_size (get_default cid [] m.averages) (get_default cid [] m.spill) false [],
  )
