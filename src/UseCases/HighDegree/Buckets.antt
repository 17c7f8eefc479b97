-- ===== src/UseCases/HighDegree/Buckets.antt =====
-- A capped bucket against the neighbours that it was given (uc4_degree.py).
use distribuidos_tp_money_la.Prelude.{
  ℕ, ◌≤◌, ◌<◌, ◌≡◌, ◌∙◌, refl, sym, subst, true, false, List, [], ◌∷◌, ◌++◌, leb, length, ◌==◌,
  nat_eq, arith, Bool-cases, inl, inr, ◌⊎◌, append-nil, append_assoc,
}
use distribuidos_tp_money_la.Collections.PySet.{
  NoRepeat, mem, add, discard, union, mem-add, mem-discard, mem-union,
}
use distribuidos_tp_money_la.Collections.Members.{mem-append}
use distribuidos_tp_money_la.UseCases.Graphs.{capped_add}

abbrev pub Within : List ℕ → List ℕ → Type 0
Within xs ys = (k : ℕ) → mem k xs ≡ true → mem k ys ≡ true

pub add-NoRepeat : (k : ℕ) (s : List ℕ) → NoRepeat s → NoRepeat (add k s)
unfolding add
add-NoRepeat k s h = elim (Bool-cases (mem k s)) [ inl old ↦ rw old h | inr new ↦ rw new (new, h) ]

pub union-NoRepeat : (s ks : List ℕ) → NoRepeat s → NoRepeat (union s ks)
unfolding union
union-NoRepeat s [] h = h
union-NoRepeat s (k ∷ ks) h = union-NoRepeat (add k s) ks (add-NoRepeat k s h)

length-discard : (k : ℕ) (ys : List ℕ) → mem k ys ≡ true → length (discard k ys) < length ys
unfolding mem discard
length-discard k [] h = absurd (cc)
length-discard k (y ∷ ys) h = elim (Bool-cases (mem k ys)) [
  | inl deep ↦ ground (arith, h, deep, length-discard k ys deep)
  | inr last ↦ ground (arith, h, last, shorter k ys)
]
  where
    shorter : (k : ℕ) (ys : List ℕ) → length (discard k ys) ≤ length ys
    shorter k [] = omega arith
    shorter k (y ∷ ys) = ground (arith, shorter k ys)

-- A set within another is not larger.
pub length-Within : (xs ys : List ℕ) → NoRepeat xs → Within xs ys → length xs ≤ length ys
unfolding mem
length-Within [] ys h sub = omega arith
length-Within (x ∷ xs) ys (new, h) sub =
    omega
      (arith, length-discard x ys (sub x (ground arith)), length-Within xs (discard x ys) h smaller)
  where
    smaller : (k : ℕ) → mem k xs ≡ true → mem k (discard x ys) ≡ true
    smaller k m = elim (Bool-cases (x == k)) [
      | inl same ↦ absurd (ground (arith, same, new, m))
      | inr other ↦ mem-discard x k ys ∙ rw other (sub k (ground (arith, m, other)))
    ]

-- A bucket that was given the neighbours `xs`: it holds some of them, and all of them unless it
-- is full.
pub record Sums (bucket xs : List ℕ) : Type 0 where
  pub no_repeat : NoRepeat bucket
  pub some_of : Within bucket xs
  pub all_of : (leb 5 (length bucket) ≡ true) ⊎ Within xs bucket

mem-union_nil : (k : ℕ) (xs : List ℕ) → mem k (union [] xs) ≡ mem k xs
mem-union_nil k xs = mem-union k [] xs ∙ unfold mem in refl

-- A bucket is full exactly when there are five different neighbours.
pub full-Sums :
    (bucket xs : List ℕ) → Sums bucket xs → leb 5 (length bucket) ≡ leb 5 (length (union [] xs))
full-Sums bucket xs s = elim s.all_of [
  | inl full ↦ ground (arith, full, up)
  | inr all ↦ ground (
    arith,
    up,
    length-Within (union [] xs) bucket (union-NoRepeat [] xs tt)
        (λ k m. all k (sym (mem-union_nil k xs) ∙ m)),
  )
]
  where
    up : length bucket ≤ length (union [] xs)
    up = length-Within bucket (union [] xs) s.no_repeat (λ k m. mem-union_nil k xs ∙ s.some_of k m)

pub Sums-nil : Sums [] []
Sums-nil = record { no_repeat = tt; some_of = λ k m. m; all_of = inr (λ k m. m) }

Within-left : (xs ys : List ℕ) → Within xs (xs ++ ys)
Within-left xs ys k m = mem-append k xs ys ∙ rw m refl

Within-right : (xs ys : List ℕ) → Within ys (xs ++ ys)
Within-right xs ys k m = mem-append k xs ys ∙ ground (arith, m)

-- a full bucket is left as it is
Sums-full :
    (bucket xs ys : List ℕ) → leb 5 (length bucket) ≡ true → Sums bucket xs → Sums bucket (xs ++ ys)
Sums-full bucket xs ys full s = record {
  no_repeat = s.no_repeat;
  some_of = λ k m. Within-left xs ys k (s.some_of k m);
  all_of = inl full;
}

Sums-add :
    (bucket xs : List ℕ) (n : ℕ)
    → leb 5 (length bucket) ≡ false
    → Sums bucket xs
    → Sums (add n bucket) (xs ++ n ∷ [])
unfolding mem
Sums-add bucket xs n room s = record {
  no_repeat = add-NoRepeat n bucket s.no_repeat;
  some_of = λ k m. ground (arith, m, mem-append k xs (n ∷ []), mem-add n k bucket, s.some_of k);
  all_of = elim s.all_of [
    | inl full ↦ inl (absurd (cc))
    | inr all ↦ inr (λ k m. ground (arith, m, mem-append k xs (n ∷ []), mem-add n k bucket, all k))
  ];
}

-- `_capped_update` with more neighbours.
pub Sums-capped_add :
    (bucket xs ns : List ℕ) → Sums bucket xs → Sums (capped_add bucket ns) (xs ++ ns)
unfolding capped_add
Sums-capped_add bucket xs [] s = rw append-nil s
Sums-capped_add bucket xs (n ∷ ns) s = elim (Bool-cases (leb 5 (length bucket))) [
  | inl full ↦ rw full (Sums-full bucket xs (n ∷ ns) full s)
  | inr room ↦ rw room (
      subst (Sums (capped_add (add n bucket) ns)) (append_assoc xs (n ∷ []) ns)
        (Sums-capped_add (add n bucket) (xs ++ n ∷ []) ns (Sums-add bucket xs n room s)))
]

-- A full bucket has no more elements than a bucket that holds them all.
full-Within :
    (part bucket : List ℕ)
    → NoRepeat part
    → Within part bucket
    → leb 5 (length part) ≡ true
    → leb 5 (length bucket) ≡ true
full-Within part bucket h sub full = ground (arith, full, length-Within part bucket h sub)

-- A bucket that another part was merged into stands for the neighbours of both.
pub Sums-merge :
    (bucket xs part ys : List ℕ)
    → Sums bucket xs
    → Sums part ys
    → Sums (capped_add bucket part) (xs ++ ys)
Sums-merge bucket xs part ys s p =
    let m = Sums-capped_add bucket xs part s in
    record {
      no_repeat = m.no_repeat;
      some_of = λ k h.
          ground (arith, mem-append k xs ys, mem-append k xs part, m.some_of k h, p.some_of k);
      all_of = elim m.all_of [
        | inl full ↦ inl full
        | inr all ↦ elim p.all_of [
          | inl full ↦ inl (
              full-Within part (capped_add bucket part) p.no_repeat
                (λ k h. all k (Within-right xs part k h)) full)
          | inr rest ↦
              inr
                (λ k h. ground (arith, h, all k, mem-append k xs ys, mem-append k xs part, rest k))
        ]
      ];
    }
