-- ===== src/Client/Boundaries.antt =====
-- The lines that all the workers of a client read (client.py).
use distribuidos_tp_money_la.Prelude.{
  ℕ, zero, suc, ◌+◌, ◌*◌, ◌≤◌, ◌<◌, ◌≡◌, ◌∙◌, refl, ap, ap₂, sym, subst, Bool, false, not, ◌&&◌,
  ◌||◌, List, [], ◌∷◌, ◌++◌, ltb, length, if◌then◌else◌, ◌==◌, nat_eq, arith, Bool-cases, inl, inr,
  All, length-append,
}
use native.Mathlib.Nat.{zero-div, le-div_iff_mul-le, div-mul-le_self, mul-div_cancel_left}
use distribuidos_tp_money_la.Messages.Nodes.{Without}
use distribuidos_tp_money_la.Client.{bound, worker, workers}
use distribuidos_tp_money_la.Client.Ranges.{ended, file_of, owned, worker-owned, length-ended}

bound_mono : (size n i : ℕ) → 0 < n → bound size n i ≤ bound size n (suc i)
bound_mono size n i pos =
    (le-div_iff_mul-le pos).1 (omega (arith, div-mul-le_self (i * size) n, one_more))
  where
    one_more : suc i * size ≡ size + i * size
    one_more = ground arith

bound_last : (size n : ℕ) → 0 < n → bound size n n ≡ size
bound_last size n pos = mul-div_cancel_left size pos

-- A position is where one of the first k ranges starts.
unfoldable pub on_boundary : ℕ → ℕ → ℕ → ℕ → Bool
on_boundary size n zero o = false
on_boundary size n (suc k) o = bound size n k == o || on_boundary size n k o

-- The lines that start inside one of the first k ranges.
kept : ℕ → ℕ → ℕ → ℕ → List (List ℕ) → List (List ℕ)
kept size n k offset [] = []
kept size n k offset (l ∷ ls) =
    let rest = kept size n k (offset + length (ended l)) ls in
    if ltb offset (bound size n k) && not (on_boundary size n k offset)
    then ended l ∷ rest
    else rest

-- The lines that do not start where a range starts.
unfoldable pub unsplit : ℕ → ℕ → ℕ → List (List ℕ) → List (List ℕ)
unfolding on_boundary
unsplit size n offset [] = []
unsplit size n offset (l ∷ ls) =
    let rest = unsplit size n (offset + length (ended l)) ls in
    if on_boundary size n n offset then rest else ended l ∷ rest

module _ (size n : ℕ) (pos : 0 < n) where
  past_boundary : (k o : ℕ) → bound size n k < o → on_boundary size n k o ≡ false
  unfolding on_boundary
  past_boundary zero o lt = refl
  past_boundary (suc k) o lt =
      let mono = bound_mono size n k pos in
      ground (arith, lt, mono, past_boundary k o (omega (arith, lt, mono)))

  nothing_kept :
      (k offset : ℕ) (ls : List (List ℕ)) → bound size n k ≤ offset → kept size n k offset ls ≡ []
  unfolding kept
  nothing_kept k offset [] le = refl
  nothing_kept k offset (l ∷ ls) le =
      ground (arith, le, nothing_kept k (offset + length (ended l)) ls (omega (arith, le)))

  owned-kept :
      (k offset : ℕ) (ls : List (List ℕ))
      → bound size n k ≤ offset
      → owned (bound size n k) (bound size n (suc k)) offset ls ≡ kept size n (suc k) offset ls
  unfolding owned kept on_boundary
  owned-kept k offset [] le = refl
  owned-kept k offset (l ∷ ls) le = ground (
    arith,
    le,
    owned-kept k (offset + length (ended l)) ls (omega (arith, le)),
    past_boundary k offset,
  )

  kept_step :
      (k offset : ℕ) (ls : List (List ℕ))
      → kept size n k offset ls ++ owned (bound size n k) (bound size n (suc k)) offset ls
        ≡ kept size n (suc k) offset ls
  unfolding owned kept on_boundary
  kept_step k offset [] = refl
  kept_step k offset (l ∷ ls) =
      let mono = bound_mono size n k pos in
      let rest = kept_step k (offset + length (ended l)) ls in
      elim (Bool-cases (ltb offset (bound size n k))) [
        | inl before ↦ elim (Bool-cases (on_boundary size n k offset)) [
          | inl start ↦ ground (arith, before, start, mono, rest)
          | inr inside ↦ ground (arith, before, inside, mono, rest)
        ]
        | inr after ↦
            ap (λ t. t ++ owned (bound size n k) (bound size n (suc k)) offset (l ∷ ls))
              (nothing_kept k offset (l ∷ ls) (ground (arith, after)))
            ∙ owned-kept k offset (l ∷ ls) (ground (arith, after))
      ]

  workers-kept :
      (k : ℕ) (ls : List (List ℕ))
      → All (Without 10) ls
      → length (file_of ls) ≡ size
      → workers n k (file_of ls) ≡ kept size n k 0 ls
  unfolding workers
  workers-kept zero ls h e = sym (nothing_kept 0 0 ls (omega (arith, zero-div n)))
  workers-kept (suc k) ls h e =
      ap₂ ◌++◌ (workers-kept k ls h e) (
        subst
          (λ z.
            worker (bound z n k) (bound z n (suc k)) (file_of ls)
            ≡ owned (bound size n k) (bound size n (suc k)) 0 ls)
          (sym e) (worker-owned (bound size n k) (bound size n (suc k)) ls h))
      ∙ kept_step k 0 ls

  kept-unsplit :
      (offset : ℕ) (ls : List (List ℕ))
      → offset + length (file_of ls) ≡ size
      → kept size n n offset ls ≡ unsplit size n offset ls
  unfolding kept unsplit file_of
  kept-unsplit offset [] e = refl
  kept-unsplit offset (l ∷ ls) e =
      let total : length (ended l) + length (file_of ls) ≡ length (ended l ++ file_of ls) =
        sym (length-append (ended l) (file_of ls)) in
      let inside : offset < bound size n n =
        omega (arith, bound_last size n pos, e, total, length-ended l) in
      ground (arith, inside, kept-unsplit (offset + length (ended l)) ls (omega (arith, e, total)))

-- The n workers together read, in order and once each, the lines of the file that do not start
-- where a range starts (the header does, at 0). A line whose first byte is the first byte of a
-- later range is read by no worker.
pub workers-unsplit :
    (n : ℕ) (ls : List (List ℕ))
    → 0 < n
    → All (Without 10) ls
    → workers n n (file_of ls) ≡ unsplit (length (file_of ls)) n 0 ls
workers-unsplit n ls pos h =
    workers-kept (length (file_of ls)) n pos n ls h refl
    ∙ kept-unsplit (length (file_of ls)) n pos 0 ls (omega arith)
