-- ===== src/Messages/Header.antt =====
-- Headers that are written and read (message.py), and overwritten in place (stamping_mom.py).
use distribuidos_tp_money_la.Prelude.{
  ℕ, zero, suc, ◌+◌, ◌^◌, ◌<◌, ◌≡◌, ◌∙◌, refl, ap, sym, subst, true, Option, none, some, List, [],
  ◌∷◌, ◌++◌, take, drop, length, arith, ◌==◌, nat_eq, ltb, Bool-cases, inl, inr, take_all-append,
  drop_all-append, if_true, if_false, some_inj,
}
use distribuidos_tp_money_la.Messages.{
  RawMessage, to_bytes, serialize, deserialize, stamp, peek_type,
}
use distribuidos_tp_money_la.Messages.Numbers.{length-to_bytes, from_bytes-to_bytes}

module _ {A : Type 0} where
  take_append : (n : ℕ) (xs ys : List A) → length xs ≡ n → take n (xs ++ ys) ≡ xs
  take_append n xs ys e = subst (λ k. take k (xs ++ ys) ≡ xs) e (take_all-append xs ys)

  drop_append : (n : ℕ) (xs ys : List A) → length xs ≡ n → drop n (xs ++ ys) ≡ ys
  drop_append n xs ys e = subst (λ k. drop k (xs ++ ys) ≡ ys) e (drop_all-append xs ys)

  drop_sum : (m n : ℕ) (xs : List A) → drop (m + n) xs ≡ drop n (drop m xs)
  drop_sum zero n xs = ap (λ k. drop k xs) (zero_left n)
    where
      zero_left : (k : ℕ) → 0 + k ≡ k
      zero_left k = omega arith
  drop_sum (suc m) zero [] = ap (λ k. drop k []) (right m)
    where
      right : (k : ℕ) → suc k + 0 ≡ suc k
      right k = omega arith
  drop_sum (suc m) (suc n) [] = ap (λ k. drop k []) (right m n)
    where
      right : (k l : ℕ) → suc k + suc l ≡ suc (k + suc l)
      right k l = omega arith
  drop_sum (suc m) n (x ∷ xs) = ap (λ k. drop k (x ∷ xs)) (left m n) ∙ drop_sum m n xs
    where
      left : (k l : ℕ) → suc k + l ≡ suc (k + l)
      left k l = omega arith

-- The header at its offsets.
deserialize-layout :
    (t : ℕ) (client producer : List ℕ) (seq : ℕ) (payload : List ℕ)
    → length client ≡ 16
    → length producer ≡ 16
    → seq < 256 ^ 8
    → deserialize t (t ∷ client ++ (producer ++ (to_bytes 8 seq ++ payload)))
      ≡ some (record {
        type_byte = t;
        client_id = client;
        producer_id = producer;
        seq = seq;
        payload = payload;
      })
unfolding deserialize
deserialize-layout t client producer seq payload lc lp lt =
    rw (same, c) (rw lc (rw (p, s, d, from_bytes-to_bytes 8 seq lt) refl))
  where
    tail2 : List ℕ
    tail2 = to_bytes 8 seq ++ payload

    body : List ℕ
    body = client ++ (producer ++ tail2)

    same : (t == t) ≡ true
    same = ground arith

    c : take 16 body ≡ client
    c = take_append 16 client (producer ++ tail2) lc

    at16 : drop 16 body ≡ producer ++ tail2
    at16 = drop_append 16 client (producer ++ tail2) lc

    p : take 16 (drop 16 body) ≡ producer
    p = ap (take 16) at16 ∙ take_append 16 producer tail2 lp

    at32 : drop 32 body ≡ tail2
    at32 = drop_sum 16 16 body ∙ (ap (drop 16) at16 ∙ drop_append 16 producer tail2 lp)

    s : take 8 (drop 32 body) ≡ to_bytes 8 seq
    s = ap (take 8) at32 ∙ take_append 8 (to_bytes 8 seq) payload (length-to_bytes 8 seq)

    d : drop 40 body ≡ payload
    d =
        drop_sum 32 8 body
        ∙ (ap (drop 8) at32 ∙ drop_append 8 (to_bytes 8 seq) payload (length-to_bytes 8 seq))

-- The type stands first.
pub peek_type-serialize :
    (m : RawMessage) (raw : List ℕ) → serialize m ≡ some raw → peek_type raw ≡ some m.type_byte
unfolding serialize peek_type
peek_type-serialize m raw e = elim (Bool-cases (ltb m.seq (256 ^ 8))) [
  | inl fits ↦
      subst (λ r. peek_type r ≡ some m.type_byte) (some_inj (sym (if_true _ _ _ fits) ∙ e)) refl
  | inr over ↦ absurd (bad (sym (if_false _ _ _ over) ∙ e))
]
  where
    bad : Path (Option (List ℕ)) none (some raw) → ⊥
    bad h = absurd (cc)

-- A message with 16-byte ids and a sequence number that fits 8 bytes is read back as it was
-- written.
pub deserialize-serialize :
    (m : RawMessage)
    → length m.client_id ≡ 16
    → length m.producer_id ≡ 16
    → m.seq < 256 ^ 8
    → (raw : List ℕ) × (serialize m ≡ some raw) × (deserialize m.type_byte raw ≡ some m)
unfolding serialize
deserialize-serialize m lc lp lt = (
  m.type_byte ∷ m.client_id ++ (m.producer_id ++ (to_bytes 8 m.seq ++ m.payload)),
  if_true (ltb m.seq (256 ^ 8)) _ _ (ground (arith, lt)),
  deserialize-layout m.type_byte m.client_id m.producer_id m.seq m.payload lc lp lt,
)

-- What a readable header says of its bytes.
deserialize_inv :
    (t u : ℕ) (rest : List ℕ) (m : RawMessage)
    → deserialize t (u ∷ rest) ≡ some m
    → (u ≡ t)
      × ((length (take 16 rest) ≡ 16)
          × ((m.type_byte ≡ t) × ((m.client_id ≡ take 16 rest) × (m.payload ≡ drop 40 rest))))
unfolding deserialize
deserialize_inv t u rest m h = elim (Bool-cases (u == t)) [
  | inr ne ↦ absurd (bad (sym (if_false _ _ _ ne) ∙ h))
  | inl e ↦ elim (Bool-cases (length (take 16 rest) == 16)) [
    | inr short ↦ absurd (bad (sym (if_false _ _ _ short) ∙ (sym (if_true _ _ _ e) ∙ h)))
    | inl full ↦
        let got = sym (if_true _ _ _ full) ∙ (sym (if_true _ _ _ e) ∙ h) in
        let same = some_inj got in
        (
          ground (arith, e),
          (
            ground (arith, full),
            (
              sym (ap (λ x. x.type_byte) same) ∙ ground (arith, e),
              (sym (ap (λ x. x.client_id) same), sym (ap (λ x. x.payload) same)),
            ),
          ),
        )
  ]
]
  where
    bad : Path (Option RawMessage) none (some m) → ⊥
    bad e = absurd (cc)

unreadable : (t : ℕ) (m : RawMessage) → deserialize t [] ≡ some m → ⊥
unfolding deserialize
unreadable t m e = absurd (cc)

-- Stamping a readable message replaces its producer id and its sequence number, and leaves its
-- type, its client id and its payload.
pub deserialize-stamp :
    (t seq : ℕ) (producer raw : List ℕ) (m : RawMessage)
    → deserialize t raw ≡ some m
    → length producer ≡ 16
    → seq < 256 ^ 8
    → deserialize t (stamp producer seq raw) ≡ some (record m { producer_id = producer; seq = seq })
unfolding stamp
deserialize-stamp t seq producer [] m h lp lt = absurd (unreadable t m h)
deserialize-stamp t seq producer (u ∷ rest) m h lp lt =
    let (type_ok, (full, (kept_type, (kept_id, kept_payload)))) = deserialize_inv t u rest m h in
    subst
      (λ v.
        deserialize t (v ∷ take 16 rest ++ (producer ++ (to_bytes 8 seq ++ drop 40 rest)))
        ≡ some (record m { producer_id = producer; seq = seq }))
      (sym type_ok)
      (deserialize-layout t (take 16 rest) producer seq (drop 40 rest) full lp lt
        ∙ rw (kept_type, kept_id, kept_payload) refl)
