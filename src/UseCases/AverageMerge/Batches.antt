-- ===== src/UseCases/AverageMerge/Batches.antt =====
-- The batches that use case 3 sends on (uc3_bank_id.py).
use distribuidos_tp_money_la.Prelude.{
  ℕ, ◌≤◌, ◌<◌, ◌≡◌, ◌∙◌, refl, ap, Bool, true, false, List, [], ◌∷◌, ◌++◌, leb, length, arith,
  Bool-cases, inl, inr, All, append_assoc, length-append, string_eq, nat_eq,
}
use Prim.Native.String.{String}
use distribuidos_tp_money_la.Collections.Dict.{Dict, get_default, contains}
use distribuidos_tp_money_la.UseCases.Filters.{filter}
use distribuidos_tp_money_la.UseCases.AverageMerge.{Merged, AverageMerge, merge_lines, get_result}

-- the transactions of all messages, in order
unfoldable pub all_transactions : {T A : Type 0} → List (Merged T A) → List T
all_transactions [] = []
all_transactions (m ∷ ms) = m.transactions ++ all_transactions ms

-- A message carries all the averages, and at most a chunk.
abbrev pub FitsChunk : {T A : Type 0} → ℕ → Dict String A → Merged T A → Type 0
FitsChunk chunk_size averages m = (m.averages ≡ averages) × (length m.transactions ≤ chunk_size)

module _ {T A : Type 0} (format_of : T → String) (chunk_size : ℕ) (averages : Dict String A) where
  abbrev pub has_average : T → Bool
  has_average t = contains (format_of t) averages

  all_transactions-merge_lines :
      (lines : List T) (emitted : Bool) (batch : List T)
      → all_transactions (merge_lines format_of chunk_size averages lines emitted batch)
        ≡ batch ++ filter has_average lines
  unfolding merge_lines all_transactions filter
  all_transactions-merge_lines [] true [] = refl
  all_transactions-merge_lines [] false [] = refl
  all_transactions-merge_lines [] emitted (t ∷ batch) = refl
  all_transactions-merge_lines (t ∷ lines) emitted batch = elim (Bool-cases (has_average t)) [
    | inr without ↦ rw without (all_transactions-merge_lines lines emitted batch)
    | inl with_ ↦ rw with_ (elim (Bool-cases (leb chunk_size (length (batch ++ t ∷ [])))) [
      | inl full ↦ rw full (
          ap (λ l. (batch ++ t ∷ []) ++ l) (all_transactions-merge_lines lines true [])
          ∙ append_assoc batch (t ∷ []) (filter has_average lines))
      | inr room ↦ rw room (
          all_transactions-merge_lines lines emitted (batch ++ t ∷ [])
          ∙ append_assoc batch (t ∷ []) (filter has_average lines))
    ])
  ]

  merge_lines-FitsChunk :
      (lines : List T) (emitted : Bool) (batch : List T)
      → length batch < chunk_size
      → All
          (FitsChunk chunk_size averages)
          (merge_lines format_of chunk_size averages lines emitted batch)
  unfolding merge_lines
  merge_lines-FitsChunk [] true [] fits = tt
  merge_lines-FitsChunk [] false [] fits = ((refl, omega arith), tt)
  merge_lines-FitsChunk [] emitted (t ∷ batch) fits = ((refl, omega (arith, fits)), tt)
  merge_lines-FitsChunk (t ∷ lines) emitted batch fits = elim (Bool-cases (has_average t)) [
    | inr without ↦ rw without (merge_lines-FitsChunk lines emitted batch fits)
    | inl with_ ↦ rw with_ (elim (Bool-cases (leb chunk_size (length (batch ++ t ∷ [])))) [
      | inl full ↦ rw full (
        (refl, omega (arith, fits, length-append batch (t ∷ []))),
        merge_lines-FitsChunk lines true [] (omega (arith, fits)),
      )
      | inr room ↦
          rw room (merge_lines-FitsChunk lines emitted (batch ++ t ∷ []) (ground (arith, room)))
    ])
  ]

  -- something was sent, or will be
  merge_lines-sends :
      (lines : List T) (batch : List T)
      → 1 ≤ length (merge_lines format_of chunk_size averages lines false batch)
  unfolding merge_lines
  merge_lines-sends [] [] = omega arith
  merge_lines-sends [] (t ∷ batch) = omega arith
  merge_lines-sends (t ∷ lines) batch =
      ground (arith, merge_lines-sends lines batch, merge_lines-sends lines (batch ++ t ∷ []))

-- The messages of `get_result` hold, in the order of the spill, exactly the client's transactions
-- whose format has an average; each carries all the averages and at most a chunk of
-- transactions, and there is at least one.
pub get_result-batches :
    {T A : Type 0} (format_of : T → String) (chunk_size cid : ℕ) (m : AverageMerge T A)
    → 1 ≤ chunk_size
    → (all_transactions (get_result format_of chunk_size cid m).1
        ≡ filter
            (has_average format_of chunk_size (get_default cid [] m.averages))
            (get_default cid [] m.spill))
      × All
          (FitsChunk chunk_size (get_default cid [] m.averages))
          (get_result format_of chunk_size cid m).1
      × (1 ≤ length (get_result format_of chunk_size cid m).1)
unfolding get_result
get_result-batches format_of chunk_size cid m positive =
    let averages = get_default cid [] m.averages in
    let lines = get_default cid [] m.spill in
    (
      all_transactions-merge_lines format_of chunk_size averages lines false [],
      merge_lines-FitsChunk format_of chunk_size averages lines false [] (omega (arith, positive)),
      merge_lines-sends format_of chunk_size averages lines [],
    )
