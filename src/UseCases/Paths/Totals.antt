-- ===== src/UseCases/Paths/Totals.antt =====
-- Totals of counts by path.
use distribuidos_tp_money_la.Prelude.{
  ℕ, ◌+◌, ◌≡◌, ◌∙◌, refl, sym, ap, true, false, List, [], ◌∷◌, ◌++◌, leb, if◌then◌else◌, ◌==◌,
  nat_eq, arith, Bool-cases, inl, inr,
}
use distribuidos_tp_money_la.UseCases.Paths.{Ids, Counts, add_count, add_counts, qualifying}

-- the sum of a path's counts
unfoldable pub total : ℕ → List (ℕ × ℕ) → ℕ
total p [] = 0
total p ((path, count) ∷ items) =
    let rest = total p items in if path == p then count + rest else rest

pub total-append : (p : ℕ) (xs ys : List (ℕ × ℕ)) → total p (xs ++ ys) ≡ total p xs + total p ys
unfolding total
total-append p [] ys = omega arith
total-append p ((path, count) ∷ xs) ys = ground (arith, total-append p xs ys)

-- No other path has the path's key.
abbrev pub Alone : Ids → ℕ → Type 0
Alone ids p = (q : ℕ) → ids.path_key q ≡ ids.path_key p → q ≡ p

-- The path stands once in a dict.
abbrev pub Once : ℕ → Counts → Type 0
Once p [] = Unit {0}
Once p ((path, count) ∷ d) = ((path == p) ≡ true → total p d ≡ 0) × Once p d

module _ (ids : Ids) (p : ℕ) (alone : Alone ids p) where
  -- A path with the key of another one is the path if the other is.
  same_path :
      (path q : ℕ) → ids.path_key q ≡ ids.path_key path → (q == p) ≡ true → (path == p) ≡ true
  same_path path q e here =
      let is_p : path ≡ p = alone path (sym e ∙ ap ids.path_key (ground (arith, here))) in
      ground (arith, is_p)

  pub total-add_count :
      (path count : ℕ) (d : Counts)
      → total p (add_count ids path count d) ≡ total p d + (if path == p then count else 0)
  unfolding add_count total
  total-add_count path count [] = ground arith
  total-add_count path count ((q, n) ∷ d) =
      elim (Bool-cases (ids.path_key q == ids.path_key path)) [
        | inl same ↦
            let e : ids.path_key q ≡ ids.path_key path = ground (arith, same) in
            elim (Bool-cases (q == p)) [
              | inl here ↦ rw same (rw (here, same_path path q e here) (omega arith))
              | inr other ↦ elim (Bool-cases (path == p)) [
                | inl there ↦
                    let here : (q == p) ≡ true = same_path q path (sym e) there in
                    absurd (ground (arith, other, here))
                | inr elsewhere ↦ rw same (rw (other, elsewhere) (omega arith))
              ]
            ]
        | inr differ ↦ rw differ (ground (arith, total-add_count path count d))
      ]

  add_count-Once : (path count : ℕ) (d : Counts) → Once p d → Once p (add_count ids path count d)
  unfolding add_count total
  add_count-Once path count [] h = ((λ _. refl), tt)
  add_count-Once path count ((q, n) ∷ d) (new, h) =
      elim (Bool-cases (ids.path_key q == ids.path_key path)) [
        | inl same ↦ rw same (new, h)
        | inr differ ↦ rw differ (still differ, add_count-Once path count d h)
      ]
    where
      still :
          (ids.path_key q == ids.path_key path) ≡ false
          → (q == p) ≡ true
          → total p (add_count ids path count d) ≡ 0
      still differ here = elim (Bool-cases (path == p)) [
        | inl there ↦ absurd (clash (ground (arith, here, there)))
        | inr elsewhere ↦ total-add_count path count d ∙ rw elsewhere (ground (arith, new here))
      ]
        where
          clash : q ≡ path → ⊥
          clash e = ground (arith, differ, ap ids.path_key e)

  pub add_counts-Once :
      (items : List (ℕ × ℕ)) (d : Counts) → Once p d → Once p (add_counts ids d items)
  unfolding add_counts
  add_counts-Once [] d h = h
  add_counts-Once ((path, count) ∷ items) d h =
      add_counts-Once items (add_count ids path count d) (add_count-Once path count d h)

  -- What was counted into a dict, counted again.
  pub total-add_counts :
      (items : List (ℕ × ℕ)) (d : Counts)
      → total p (add_counts ids d items) ≡ total p d + total p items
  unfolding add_counts total
  total-add_counts [] d = omega arith
  total-add_counts ((path, count) ∷ items) d =
      ground
        (arith, total-add_counts items (add_count ids path count d), total-add_count path count d)

-- The comprehension keeps a path's count where it is five or more.
pub total-qualifying :
    (p : ℕ) (d : Counts)
    → Once p d
    → total p (qualifying d) ≡ (if leb 5 (total p d) then total p d else 0)
unfolding total qualifying
total-qualifying p [] h = ground arith
total-qualifying p ((path, count) ∷ d) (new, h) = elim (Bool-cases (path == p)) [
  | inl same ↦ ground (arith, same, new same, total-qualifying p d h)
  | inr other ↦ ground (arith, other, total-qualifying p d h)
]
