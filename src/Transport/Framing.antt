-- ===== src/Transport/Framing.antt =====
-- A message arrives whole, however the stream is cut (connection.py).
use distribuidos_tp_money_la.Prelude.{
  ℕ, zero, suc, ◌-◌, ◌^◌, ◌≤◌, ◌<◌, ◌≡◌, ◌∙◌, refl, ap, sym, subst, true, Option, none, some, List,
  [], ◌∷◌, ◌++◌, take, drop, length, ltb, leb, if_true, if_false, arith, Bool-cases, inl, inr,
  ◌>>=◌, append_assoc, append-nil, length-append, length-drop, take_all-append, drop_all-append,
  some_inj, All, ltb→lt,
}
use distribuidos_tp_money_la.Messages.{to_bytes, from_bytes}
use distribuidos_tp_money_la.Messages.Numbers.{length-to_bytes, from_bytes-to_bytes}
use distribuidos_tp_money_la.Transport.{send, skt_recv, recv_exact, recv}

-- the bytes of the chunks
unfoldable pub stream : List (List ℕ) → List ℕ
stream [] = []
stream (c ∷ cs) = c ++ stream cs

-- bytes arrive at least one at a time
abbrev pub Arriving : List (List ℕ) → Type 0
Arriving = All (λ (c : List ℕ). 1 ≤ length c)

-- A call that gets `got` and leaves chunks of `rest`.
abbrev pub Gets : Option (List ℕ × List (List ℕ)) → List ℕ → List ℕ → Type 0
Gets result got rest =
    (left : List (List ℕ)) × (result ≡ some (got, left)) × (stream left ≡ rest) × Arriving left

take-append_long :
    (n : ℕ) (xs ys : List ℕ) → length xs ≤ n → take n (xs ++ ys) ≡ xs ++ take (n - length xs) ys
take-append_long n [] ys le = ap (λ k. take k ys) (omega arith)
take-append_long zero (x ∷ xs) ys le = absurd (omega (arith, le))
take-append_long (suc n) (x ∷ xs) ys le =
    ap (◌∷◌ x)
      (take-append_long n xs ys (omega (arith, le)) ∙ ap (λ k. xs ++ take k ys) (omega arith))

drop-append_long :
    (n : ℕ) (xs ys : List ℕ) → length xs ≤ n → drop n (xs ++ ys) ≡ drop (n - length xs) ys
drop-append_long n [] ys le = ap (λ k. drop k ys) (omega arith)
drop-append_long zero (x ∷ xs) ys le = absurd (omega (arith, le))
drop-append_long (suc n) (x ∷ xs) ys le =
    drop-append_long n xs ys (omega (arith, le)) ∙ ap (λ k. drop k ys) (omega arith)

take-append_short : (n : ℕ) (xs ys : List ℕ) → n ≤ length xs → take n (xs ++ ys) ≡ take n xs
take-append_short zero xs ys le = refl
take-append_short (suc n) [] ys le = absurd (omega (arith, le))
take-append_short (suc n) (x ∷ xs) ys le =
    ap (◌∷◌ x) (take-append_short n xs ys (omega (arith, le)))

drop-append_short : (n : ℕ) (xs ys : List ℕ) → n ≤ length xs → drop n (xs ++ ys) ≡ drop n xs ++ ys
drop-append_short zero xs ys le = refl
drop-append_short (suc n) [] ys le = absurd (omega (arith, le))
drop-append_short (suc n) (x ∷ xs) ys le = drop-append_short n xs ys (omega (arith, le))

length-take : (n : ℕ) (xs : List ℕ) → n ≤ length xs → length (take n xs) ≡ n
length-take zero xs le = refl
length-take (suc n) [] le = absurd (omega (arith, le))
length-take (suc n) (x ∷ xs) le = ap suc (length-take n xs (omega (arith, le)))

nothing_missing : (fuel : ℕ) (chunks : List (List ℕ)) → recv_exact fuel 0 chunks ≡ some ([], chunks)
unfolding recv_exact
nothing_missing zero chunks = refl
nothing_missing (suc fuel) chunks = refl

-- `__recv_exact` gets exactly the amount that it was asked for, where that much arrives.
recv_exact-Gets :
    (fuel missing : ℕ) (chunks : List (List ℕ))
    → missing ≤ fuel
    → missing ≤ length (stream chunks)
    → Arriving chunks
    → Gets
        (recv_exact fuel missing chunks)
        (take missing (stream chunks))
        (drop missing (stream chunks))
unfolding recv_exact skt_recv stream
recv_exact-Gets fuel zero chunks enough there h = (chunks, nothing_missing fuel chunks, refl, h)
recv_exact-Gets zero (suc missing) chunks enough there h = absurd (omega (arith, enough))
recv_exact-Gets (suc fuel) (suc missing) [] enough there h = absurd (omega (arith, there))
recv_exact-Gets (suc fuel) (suc missing) (c ∷ cs) enough there (one, h) =
    elim (Bool-cases (leb (length c) (suc missing))) [
      | inl whole ↦
          let fits : length c ≤ suc missing = ground (arith, whole) in
          let later : suc missing - length c ≤ length (stream cs) =
            omega (arith, there, length-append c (stream cs)) in
          let (left, got, rest, arriving) =
            recv_exact-Gets fuel (suc missing - length c) cs (omega (arith, enough, one)) later h in
          (
            left,
            (rw whole (
                ap (λ o. o >>= λ r. some (c ++ r.0, r.1)) got
                ∙ ap (λ l. some (l, left))
                    (sym (take-append_long (suc missing) c (stream cs) fits)))),
            rest ∙ sym (drop-append_long (suc missing) c (stream cs) fits),
            arriving,
          )
      | inr part ↦
          let fits : suc missing ≤ length c = ground (arith, part) in
          let none_left : suc missing - length (take (suc missing) c) ≡ 0 =
            omega (arith, length-take (suc missing) c fits) in
          (
            drop (suc missing) c ∷ cs,
            (rw part (
                ap
                  (λ k. recv_exact fuel k (drop (suc missing) c ∷ cs) >>= λ r.
                    some (take (suc missing) c ++ r.0, r.1))
                  none_left
                ∙ (ap (λ o. o >>= λ r. some (take (suc missing) c ++ r.0, r.1))
                      (nothing_missing fuel (drop (suc missing) c ∷ cs))
                    ∙ ap (λ l. some (l, drop (suc missing) c ∷ cs))
                        (append-nil (take (suc missing) c)
                          ∙ sym (take-append_short (suc missing) c (stream cs) fits))))),
            sym (drop-append_short (suc missing) c (stream cs) fits),
            ((ground (arith, part, length-drop (suc missing) c)), h),
          )
    ]

-- A frame: the length in 4 bytes, and the message.
recv-framed :
    (bytes rest : List ℕ) (chunks : List (List ℕ))
    → length bytes < 256 ^ 4
    → stream chunks ≡ to_bytes 4 (length bytes) ++ (bytes ++ rest)
    → Arriving chunks
    → Gets (recv chunks) bytes rest
unfolding recv
recv-framed bytes rest chunks fits e h =
    let (left, got, after, arriving) = recv_exact-Gets 4 4 chunks (omega arith) enough h in
    let body : stream left ≡ bytes ++ rest = after ∙ (ap (drop 4) e ∙ drop_header) in
    let (left2, got2, after2, arriving2) =
      recv_exact-Gets (length bytes) (length bytes) left (omega arith)
        (omega (arith, ap length body, length-append bytes rest)) arriving in
    (
      left2,
      ap (λ o. o >>= λ header. recv_exact (from_bytes 0 header.0) (from_bytes 0 header.0) header.1)
            got
          ∙ (ap (λ k. recv_exact k k left) amount
              ∙ (got2
                  ∙ ap (λ l. some (l, left2))
                      (ap (take (length bytes)) body ∙ take_all-append bytes rest))),
      after2 ∙ (ap (drop (length bytes)) body ∙ drop_all-append bytes rest),
      arriving2,
    )
  where
    head_length : length (to_bytes 4 (length bytes)) ≡ 4
    head_length = length-to_bytes 4 (length bytes)

    drop_header : drop 4 (to_bytes 4 (length bytes) ++ (bytes ++ rest)) ≡ bytes ++ rest
    drop_header =
        subst (λ k. drop k (to_bytes 4 (length bytes) ++ (bytes ++ rest)) ≡ bytes ++ rest)
          head_length (drop_all-append (to_bytes 4 (length bytes)) (bytes ++ rest))

    amount : from_bytes 0 (take 4 (stream chunks)) ≡ length bytes
    amount =
        ap (λ l. from_bytes 0 (take 4 l)) e
        ∙ (ap (from_bytes 0) (
              subst
                (λ k.
                  take k (to_bytes 4 (length bytes) ++ (bytes ++ rest)) ≡ to_bytes 4 (length bytes))
                head_length (take_all-append (to_bytes 4 (length bytes)) (bytes ++ rest)))
            ∙ from_bytes-to_bytes 4 (length bytes) fits)

    enough : 4 ≤ length (stream chunks)
    enough =
        omega (
          arith,
          ap length e,
          length-append (to_bytes 4 (length bytes)) (bytes ++ rest),
          head_length,
        )

-- What the peer sent is received as it was sent, however the stream is cut into chunks, and what
-- comes after it is left for the next `recv`.
pub recv-send :
    (bytes raw rest : List ℕ) (chunks : List (List ℕ))
    → send bytes ≡ some raw
    → stream chunks ≡ raw ++ rest
    → Arriving chunks
    → Gets (recv chunks) bytes rest
unfolding send
recv-send bytes raw rest chunks sent arrived h = elim (Bool-cases (ltb (length bytes) (256 ^ 4))) [
  | inr long ↦ absurd (unsendable (sym (if_false _ _ _ long) ∙ sent))
  | inl fits ↦
      let framed : raw ≡ to_bytes 4 (length bytes) ++ bytes =
        some_inj (sym sent ∙ if_true _ _ _ fits) in
      received fits (
        arrived
        ∙ (ap (λ r. r ++ rest) framed ∙ append_assoc (to_bytes 4 (length bytes)) bytes rest))
]
  where
    unsendable : Path (Option (List ℕ)) none (some raw) → ⊥
    unsendable e = absurd (cc)

    received :
        ltb (length bytes) (256 ^ 4) ≡ true
        → stream chunks ≡ to_bytes 4 (length bytes) ++ (bytes ++ rest)
        → Gets (recv chunks) bytes rest
    received fits e = recv-framed bytes rest chunks (ltb→lt (length bytes) (256 ^ 4) fits) e h
