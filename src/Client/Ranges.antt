-- ===== src/Client/Ranges.antt =====
-- Which lines a worker reads (client.py).
use distribuidos_tp_money_la.Prelude.{
  ℕ, zero, suc, ◌+◌, ◌-◌, ◌≤◌, ◌<◌, ◌≡◌, ◌∙◌, refl, ap, sym, subst, true, false, ◌&&◌, List, [],
  ◌∷◌, ◌++◌, drop, ltb, length, if◌then◌else◌, nat_eq, arith, Bool-cases, inl, inr, All,
  length-append, length-drop,
}
use distribuidos_tp_money_la.Messages.Nodes.{Without}
use distribuidos_tp_money_la.Client.{readline, is_empty, read_lines, resume, worker}

-- a line with its newline
abbrev pub ended : List ℕ → List ℕ
ended l = l ++ 10 ∷ []

-- a file of lines
unfoldable pub file_of : List (List ℕ) → List ℕ
file_of [] = []
file_of (l ∷ ls) = ended l ++ file_of ls

-- The lines that start after `start` and before `stop`, where the first starts at `offset`.
unfoldable pub owned : ℕ → ℕ → ℕ → List (List ℕ) → List (List ℕ)
owned start stop offset [] = []
owned start stop offset (l ∷ ls) =
    let rest = owned start stop (offset + length (ended l)) ls in
    if ltb start offset && ltb offset stop then ended l ∷ rest else rest

readline-drop :
    (d : ℕ) (l s : List ℕ)
    → Without 10 l
    → d ≤ length l
    → readline (drop d (ended l ++ s)) ≡ (drop d (ended l), s)
unfolding readline
readline-drop zero [] s h le = refl
readline-drop (suc d) [] s h le = absurd (omega (arith, le))
readline-drop zero (c ∷ l) s (other, h) le =
    rw other (rw (readline-drop zero l s h (omega arith)) refl)
readline-drop (suc d) (c ∷ l) s (other, h) le = readline-drop d l s h (omega (arith, le))

drop-beyond : (d : ℕ) (xs ys : List ℕ) → length xs ≤ d → drop d (xs ++ ys) ≡ drop (d - length xs) ys
drop-beyond d [] ys le = ap (λ k. drop k ys) (omega arith)
drop-beyond zero (x ∷ xs) ys le = absurd (omega (arith, le))
drop-beyond (suc d) (x ∷ xs) ys le =
    drop-beyond d xs ys (omega (arith, le)) ∙ ap (λ k. drop k ys) (omega arith)

pub length-ended : (l : List ℕ) → length (ended l) ≡ suc (length l)
length-ended l = omega (arith, length-append l (10 ∷ []))

nothing_owned :
    (start stop offset : ℕ) (ls : List (List ℕ)) → stop ≤ offset → owned start stop offset ls ≡ []
unfolding owned
nothing_owned start stop offset [] le = refl
nothing_owned start stop offset (l ∷ ls) le =
    ground (arith, le, nothing_owned start stop (offset + length (ended l)) ls (omega (arith, le)))

readline-line : (l s : List ℕ) → Without 10 l → readline (ended l ++ s) ≡ (ended l, s)
readline-line l s h = readline-drop zero l s h (omega arith)

ended-nonempty : (l : List ℕ) → is_empty (ended l) ≡ false
ended-nonempty [] = refl
ended-nonempty (c ∷ l) = refl

-- From the start of a line on, the loop reads the lines before `stop`.
read_lines-owned :
    (fuel start stop offset : ℕ) (ls : List (List ℕ))
    → All (Without 10) ls
    → length ls ≤ fuel
    → start < offset
    → read_lines fuel offset stop (file_of ls) ≡ owned start stop offset ls
unfolding read_lines file_of
read_lines-owned zero start stop offset [] h enough lt = unfold owned in refl
read_lines-owned zero start stop offset (l ∷ ls) h enough lt = absurd (omega (arith, enough))
read_lines-owned (suc fuel) start stop offset [] h enough lt = unfold readline owned in ground arith
read_lines-owned (suc fuel) start stop offset (l ∷ ls) (hl, h) enough lt =
    let after : ltb start offset ≡ true = ground (arith, lt) in
    let rest : read_lines fuel (offset + length (ended l)) stop (file_of ls)
        ≡ owned start stop (offset + length (ended l)) ls =
      read_lines-owned fuel start stop (offset + length (ended l)) ls h (omega (arith, enough))
        (omega (arith, lt)) in
    rw (readline-line l (file_of ls) hl) (elim (Bool-cases (ltb offset stop)) [
      | inl before ↦
          rw (before, ended-nonempty l)
            (ap (◌∷◌ (ended l)) rest ∙ sym (unfold owned in rw (after, before) refl))
      | inr beyond ↦
          rw beyond (sym (nothing_owned start stop offset (l ∷ ls) (ground (arith, beyond))))
    ])

drop-nil : (d : ℕ) → Path (List ℕ) (drop d []) []
drop-nil zero = refl
drop-nil (suc d) = refl

read_lines-nil : (fuel tell stop : ℕ) → read_lines fuel tell stop [] ≡ []
unfolding read_lines readline
read_lines-nil zero tell stop = refl
read_lines-nil (suc fuel) tell stop = ground arith

-- After `seek(offset + d)` and one `readline`, the worker is at the first line that starts later.
resume-owned :
    (fuel d stop offset : ℕ) (ls : List (List ℕ))
    → All (Without 10) ls
    → length ls ≤ fuel
    → resume fuel (offset + d) stop (drop d (file_of ls)) ≡ owned (offset + d) stop offset ls
resume-owned fuel d stop offset [] h enough =
    unfold file_of in rw (drop-nil d) (unfold resume readline owned in read_lines-nil fuel _ stop)
resume-owned fuel d stop offset (l ∷ ls) (hl, h) enough = elim (Bool-cases (ltb (length l) d)) [
  | inl beyond ↦
      let step : drop d (file_of (l ∷ ls)) ≡ drop (d - length (ended l)) (file_of ls) =
        unfold file_of in
        drop-beyond d (ended l) (file_of ls) (ground (arith, beyond, length-ended l)) in
      let place : offset + length (ended l) + (d - length (ended l)) ≡ offset + d =
        ground (arith, beyond, length-ended l) in
      let later : ltb (offset + d) offset ≡ false = ground arith in
      ap (resume fuel (offset + d) stop) step
      ∙ (subst
            (λ k.
              resume fuel k stop (drop (d - length (ended l)) (file_of ls))
              ≡ owned k stop (offset + length (ended l)) ls)
            place
            (resume-owned fuel (d - length (ended l)) stop (offset + length (ended l)) ls h
              (omega (arith, enough)))
          ∙ sym (unfold owned in rw later refl))
  | inr within ↦
      let short : d ≤ length l = ground (arith, within) in
      let place : offset + d + length (drop d (ended l)) ≡ offset + length (ended l) =
        omega (arith, short, length-drop d (ended l), length-ended l) in
      let later : ltb (offset + d) offset ≡ false = ground arith in
      unfold resume file_of in
      (rw (readline-drop d l (file_of ls) hl short) (
        rw place (
          read_lines-owned fuel (offset + d) stop (offset + length (ended l)) ls h
            (omega (arith, enough)) (omega (arith, short, length-ended l))
          ∙ sym (unfold owned in rw later refl))))
]

length-file_of : (ls : List (List ℕ)) → length ls ≤ length (file_of ls)
unfolding file_of
length-file_of [] = omega arith
length-file_of (l ∷ ls) =
    omega (arith, length-append (ended l) (file_of ls), length-ended l, length-file_of ls)

-- A worker reads exactly the lines that start after the start of its range and before its end.
pub worker-owned :
    (start stop : ℕ) (ls : List (List ℕ))
    → All (Without 10) ls
    → worker start stop (file_of ls) ≡ owned start stop 0 ls
unfolding worker
worker-owned start stop ls h =
    subst (λ k. resume (length (file_of ls)) k stop (drop start (file_of ls)) ≡ owned k stop 0 ls)
      (zero_left start) (resume-owned (length (file_of ls)) start stop 0 ls h (length-file_of ls))
  where
    zero_left : (k : ℕ) → 0 + k ≡ k
    zero_left k = omega arith
