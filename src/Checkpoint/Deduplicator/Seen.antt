-- ===== src/Checkpoint/Deduplicator/Seen.antt =====
-- The deduplicator (deduplicator.py) against the set of all the identities that were recorded.
use distribuidos_tp_money_la.Prelude.{
  ℕ, zero, suc, ◌+◌, ◌≤◌, ◌<◌, ◌≡◌, ◌∙◌, refl, Bool, true, false, ◌||◌, List, [], ◌∷◌, arith, leb,
  if◌then◌else◌, length, ◌==◌, nat_eq, Bool-cases, inl, inr, not, ◌&&◌,
}
use distribuidos_tp_money_la.Collections.Dict.{get, put, get_default}
use distribuidos_tp_money_la.Collections.Dict.Laws.{get-put, get-put_self}
use distribuidos_tp_money_la.Collections.PySet.{mem, add, discard, mem-add, mem-discard}
use distribuidos_tp_money_la.Checkpoint.Deduplicator.{
  Deduplicator, init, hi_of, ahead_of, is_duplicate, advance, record_seq,
}

-- A number counts as seen if it is not above `hi` or is ahead of the gap.
abbrev seen : ℕ → ℕ × List ℕ → Bool
seen t r = leb t r.0 || mem t r.1

advance-seen :
    (fuel hi t : ℕ) (ahead : List ℕ) → seen t (advance fuel hi ahead) ≡ seen t (hi, ahead)
unfolding advance
advance-seen zero hi t ahead = refl
advance-seen (suc fuel) hi t ahead = elim (Bool-cases (mem (hi + 1) ahead)) [
  | inl more ↦ rw more (
      ground (
        arith,
        more,
        advance-seen fuel (hi + 1) t (discard (hi + 1) ahead),
        mem-discard (hi + 1) t ahead,
      ))
  | inr finished ↦ rw finished
]

length-discard-le : (k : ℕ) (s : List ℕ) → length (discard k s) ≤ length s
unfolding discard
length-discard-le k [] = omega arith
length-discard-le k (j ∷ s) = ground (arith, length-discard-le k s)

length-discard : (k : ℕ) (s : List ℕ) → mem k s ≡ true → length (discard k s) < length s
unfolding mem discard
length-discard k [] h = absurd (ground arith)
length-discard k (j ∷ s) h = ground (arith, length-discard-le k s, length-discard k s)

-- The loop has ended by its own test: the next number is not ahead.
advance_gap :
    (fuel hi : ℕ) (ahead : List ℕ)
    → length ahead ≤ fuel
    → mem ((advance fuel hi ahead).0 + 1) (advance fuel hi ahead).1 ≡ false
unfolding advance
advance_gap zero hi [] le = unfold mem in refl
advance_gap zero hi (x ∷ ahead) le = absurd (omega arith)
advance_gap (suc fuel) hi ahead le = elim (Bool-cases (mem (hi + 1) ahead)) [
  | inl more ↦ rw more (
      advance_gap fuel (hi + 1) (discard (hi + 1) ahead)
        (omega (arith, length-discard (hi + 1) ahead more)))
  | inr finished ↦ rw finished finished
]

-- What the two tables hold for a producer, as one value.
abbrev slot : Deduplicator → ℕ → ℕ × List ℕ
slot d q = (hi_of d q, ahead_of d q)

-- The table entries that a new number writes.
abbrev fresh : Deduplicator → ℕ → ℕ → ℕ × List ℕ
fresh d p s = let ahead0 = add s (ahead_of d p) in advance (length ahead0) (hi_of d p) ahead0

pub hi_of-put :
    (d : Deduplicator) (p q h : ℕ) (a : List ℕ)
    → hi_of (record { hi = put p h d.hi; ahead = put p a d.ahead }) q
      ≡ (if p == q then h else hi_of d q)
unfolding hi_of
hi_of-put d p q h a = rw get-put (elim (Bool-cases (p == q)) [ inl e ↦ rw e | inr ne ↦ rw ne ])

pub ahead_of-put :
    (d : Deduplicator) (p q h : ℕ) (a : List ℕ)
    → ahead_of (record { hi = put p h d.hi; ahead = put p a d.ahead }) q
      ≡ (if p == q then a else ahead_of d q)
unfolding ahead_of
ahead_of-put d p q h a = rw get-put (elim (Bool-cases (p == q)) [ inl e ↦ rw e | inr ne ↦ rw ne ])

pub is_duplicate_lem :
    (d : Deduplicator) (q t : ℕ)
    → is_duplicate d q t ≡ (if t == 0 then false else seen t (hi_of d q, ahead_of d q))
unfolding is_duplicate
is_duplicate_lem d q t = ground arith

-- A number that was below or ahead already changes no answer.
record_seq_new :
    (d : Deduplicator) (p s q t : ℕ)
    → (s == 0) ≡ false
    → leb s (hi_of d p) ≡ false
    → is_duplicate (record_seq d p s) q t ≡ (
        if t == 0
        then false
        else if p == q
        then (s == t || seen t (hi_of d p, ahead_of d p))
        else seen t (hi_of d q, ahead_of d q))
unfolding record_seq
record_seq_new d p s q t nz new =
    rw (nz, new)
      (rw is_duplicate_lem (
        ground (
          arith,
          hi_of-put d p q (fresh d p s).0 (fresh d p s).1,
          ahead_of-put d p q (fresh d p s).0 (fresh d p s).1,
          advance-seen (length (add s (ahead_of d p))) (hi_of d p) t (add s (ahead_of d p)),
          mem-add s t (ahead_of d p),
        )))

-- Recording (p, s) makes exactly (p, s) a duplicate, beside what was one before. The number 0
-- marks a message without identity, and is never one.
pub is_duplicate-record_seq :
    (d : Deduplicator) (p s q t : ℕ)
    → is_duplicate (record_seq d p s) q t
      ≡ ((not (s == 0) && (p == q && s == t)) || is_duplicate d q t)
is_duplicate-record_seq d p s q t = elim (Bool-cases (s == 0)) [
  | inl zero_seq ↦ unfold record_seq in rw zero_seq
  | inr nz ↦ elim (Bool-cases (leb s (hi_of d p))) [
    | inl old ↦ unfold record_seq in rw (nz, old) (ground (arith, is_duplicate_lem d q t, old_seen))
    | inr new ↦ rw (record_seq_new d p s q t nz new) (ground (arith, is_duplicate_lem d q t, nz))
  ]
]
  where
    old_seen : p ≡ q → s ≡ t → leb s (hi_of d p) ≡ leb t (hi_of d q)
    old_seen e f = cc

unfoldable pub record_all : Deduplicator → List (ℕ × ℕ) → Deduplicator
record_all d [] = d
record_all d ((p, s) ∷ events) = record_all (record_seq d p s) events

pub recorded : ℕ → ℕ → List (ℕ × ℕ) → Bool
recorded q t [] = false
recorded q t ((p, s) ∷ events) = (p == q && s == t) || recorded q t events

record_all-seen :
    (events : List (ℕ × ℕ)) (d : Deduplicator) (q t : ℕ)
    → is_duplicate (record_all d events) q t
      ≡ ((not (t == 0) && recorded q t events) || is_duplicate d q t)
unfolding record_all recorded
record_all-seen [] d q t = ground arith
record_all-seen ((p, s) ∷ events) d q t =
    ground (arith, record_all-seen events (record_seq d p s) q t, is_duplicate-record_seq d p s q t)

-- After any identities were recorded, in any order and with repetitions, a message with a
-- sequence number above 0 is a duplicate exactly when its own identity was recorded: no gap or
-- reordering makes the filter drop a message that was never seen.
pub is_duplicate-record_all :
    (events : List (ℕ × ℕ)) (q t : ℕ)
    → is_duplicate (record_all init events) q t ≡ (not (t == 0) && recorded q t events)
is_duplicate-record_all events q t =
    record_all-seen events init q t ∙ ground (arith, is_duplicate-init q t)
  where
    is_duplicate-init : (q t : ℕ) → is_duplicate init q t ≡ false
    is_duplicate-init q t =
        unfold is_duplicate init hi_of ahead_of mem get_default get in ground arith

-- A stream that arrives in order, and what it leaves.
unfoldable pub in_order : ℕ → ℕ → Deduplicator
in_order p zero = init
in_order p (suc n) = record_seq (in_order p n) p (suc n)

advance_next : (n : ℕ) → advance 1 n (suc n ∷ []) ≡ (suc n, [])
unfolding advance mem discard
advance_next n = ground arith

record_seq_next :
    (d : Deduplicator) (p n : ℕ)
    → hi_of d p ≡ n
    → ahead_of d p ≡ []
    → (hi_of (record_seq d p (suc n)) p ≡ suc n) × (ahead_of (record_seq d p (suc n)) p ≡ [])
record_seq_next d p n h a =
    let nz : (suc n == 0) ≡ false = ground arith in
    let new : leb (suc n) n ≡ false = ground arith in
    let step : advance 1 n (suc n ∷ []) ≡ (suc n, []) = advance_next n in
    unfold record_seq add mem in
    rw (h, a)
      (rw (nz, new)
        (rw step (rw (get-put_self p (suc n) d.hi, get-put_self p [] d.ahead) (refl, refl))))

-- After the numbers 1 to `n` of a producer in order, its `hi` is `n` and nothing is kept ahead: the
-- memory of an ordered stream is one number.
pub in_order-slot : (p n : ℕ) → (hi_of (in_order p n) p ≡ n) × (ahead_of (in_order p n) p ≡ [])
unfolding in_order
in_order-slot p zero = unfold init hi_of ahead_of get_default get in (refl, refl)
in_order-slot p (suc n) =
    record_seq_next (in_order p n) p n (in_order-slot p n).0 (in_order-slot p n).1
