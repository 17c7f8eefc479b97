-- ===== src/Gateway/Forwarding.antt =====
-- The EOF counts that the gateway (client_stream_handler.py) sends against the messages that it
-- sent.
use distribuidos_tp_money_la.Prelude.{
  ℕ, zero, suc, ◌+◌, ◌%◌, ◌<◌, ◌≡◌, ◌∙◌, refl, ap, true, false, List, [], ◌∷◌, arith, if◌then◌else◌,
  ◌==◌, nat_eq, replicate, length,
}
use distribuidos_tp_money_la.Gateway.{
  Incoming, data_msg, eof_msg, other_msg, closed, Sent, sent_data, sent_eof, sent_abort, increment,
  send_eofs, forward_from, forward_sharded,
}

-- the messages that a shard was sent
pub data_to : ℕ → List (ℕ × Sent) → ℕ
data_to i [] = 0
data_to i ((j, sent_data raw) ∷ sent) =
    let rest = data_to i sent in if j == i then rest + 1 else rest
data_to i ((j, sent_eof c) ∷ sent) = data_to i sent
data_to i ((j, sent_abort) ∷ sent) = data_to i sent

-- the expected counts of the EOFs that a shard was sent
pub eofs_to : ℕ → List (ℕ × Sent) → List ℕ
eofs_to i [] = []
eofs_to i ((j, sent_data raw) ∷ sent) = eofs_to i sent
eofs_to i ((j, sent_eof c) ∷ sent) = let rest = eofs_to i sent in if j == i then c ∷ rest else rest
eofs_to i ((j, sent_abort) ∷ sent) = eofs_to i sent

-- counts[i], and 0 out of range
abbrev count_at : ℕ → List ℕ → ℕ
count_at i [] = 0
count_at zero (c ∷ counts) = c
count_at (suc i) (c ∷ counts) = count_at i counts

length-increment : (i : ℕ) (counts : List ℕ) → length (increment i counts) ≡ length counts
unfolding increment
length-increment i [] = refl
length-increment zero (c ∷ counts) = refl
length-increment (suc i) (c ∷ counts) = ap suc (length-increment i counts)

count_at-increment :
    (i j : ℕ) (counts : List ℕ)
    → i < length counts
    → count_at i (increment j counts)
      ≡ (if j == i then count_at i counts + 1 else count_at i counts)
unfolding increment
count_at-increment i j [] lt = absurd (omega (arith, lt))
count_at-increment zero zero (c ∷ counts) lt = ground arith
count_at-increment (suc i) zero (c ∷ counts) lt = ground arith
count_at-increment zero (suc j) (c ∷ counts) lt = ground arith
count_at-increment (suc i) (suc j) (c ∷ counts) lt =
    ground (arith, count_at-increment i j counts (omega (arith, lt)))

data_to-send_eofs : (i k : ℕ) (counts : List ℕ) → data_to i (send_eofs k counts) ≡ 0
unfolding data_to send_eofs
data_to-send_eofs i k [] = refl
data_to-send_eofs i k (c ∷ counts) = data_to-send_eofs i (k + 1) counts

eofs_before : (i k : ℕ) (counts : List ℕ) → i < k → eofs_to i (send_eofs k counts) ≡ []
unfolding eofs_to send_eofs
eofs_before i k [] lt = refl
eofs_before i k (c ∷ counts) lt =
    ground (arith, lt, eofs_before i (k + 1) counts (omega (arith, lt)))

eofs_to-send_eofs :
    (i k : ℕ) (counts : List ℕ)
    → i < length counts
    → eofs_to (k + i) (send_eofs k counts) ≡ count_at i counts ∷ []
unfolding eofs_to send_eofs
eofs_to-send_eofs i k [] lt = absurd (omega (arith, lt))
eofs_to-send_eofs zero k (c ∷ counts) lt =
    ground (arith, eofs_before (k + 0) (k + 1) counts (omega arith))
eofs_to-send_eofs (suc i) k (c ∷ counts) lt = rw different (
    ap (λ n. eofs_to n (send_eofs (k + 1) counts)) shift
    ∙ eofs_to-send_eofs i (k + 1) counts (omega (arith, lt)))
  where
    different : (k == k + suc i) ≡ false
    different = ground arith

    shift : k + suc i ≡ (k + 1) + i
    shift = omega arith

-- What was counted before, plus what is sent from here on, is what the EOF says.
forward_from-counts :
    (id : List ℕ) (n : ℕ) (counts : List ℕ) (rr i : ℕ) (stream : List Incoming)
    → i < length counts
    → (forward_from id n counts rr stream).1 ≡ true
    → eofs_to i (forward_from id n counts rr stream).0
      ≡ (count_at i counts + data_to i (forward_from id n counts rr stream).0) ∷ []
unfolding forward_from data_to eofs_to
forward_from-counts id n counts rr i [] lt h = absurd (ground (arith, h))
forward_from-counts id n counts rr i (data_msg raw ∷ stream) lt h =
    forward_from-counts id n (increment (rr % n) counts) (rr + 1) i stream
      (ground (arith, lt, length-increment (rr % n) counts)) h
    ∙ ap (λ c. c ∷ []) total
  where
    total :
        count_at i (increment (rr % n) counts)
          + data_to i (forward_from id n (increment (rr % n) counts) (rr + 1) stream).0
        ≡ count_at i counts
          + (let rest =
                data_to i (forward_from id n (increment (rr % n) counts) (rr + 1) stream).0 in
              if rr % n == i then rest + 1 else rest)
    total = ground (arith, count_at-increment i (rr % n) counts lt)
forward_from-counts id n counts rr i (eof_msg ∷ stream) lt h =
    ap (λ k. eofs_to k (send_eofs 0 counts)) (zero_left i)
    ∙ (eofs_to-send_eofs i 0 counts lt
        ∙ ap (λ c. c ∷ []) (omega (arith, data_to-send_eofs i 0 counts)))
  where
    zero_left : (k : ℕ) → k ≡ 0 + k
    zero_left k = omega arith
forward_from-counts id n counts rr i (other_msg ∷ stream) lt h = absurd (ground (arith, h))
forward_from-counts id n counts rr i (closed ∷ stream) lt h = absurd (ground (arith, h))

length-replicate : (n : ℕ) → length (replicate n zero) ≡ n
length-replicate zero = refl
length-replicate (suc n) = ap suc (length-replicate n)

count_at-replicate : (i n : ℕ) → count_at i (replicate n zero) ≡ 0
count_at-replicate i zero = refl
count_at-replicate zero (suc n) = refl
count_at-replicate (suc i) (suc n) = count_at-replicate i n

-- When the client's stream was forwarded to its end, every shard was sent exactly one EOF, and its
-- expected count is the number of messages that were sent to that shard.
pub forward_sharded-counts :
    (id : List ℕ) (n i : ℕ) (stream : List Incoming)
    → i < n
    → (forward_sharded id n stream).1 ≡ true
    → eofs_to i (forward_sharded id n stream).0 ≡ data_to i (forward_sharded id n stream).0 ∷ []
unfolding forward_sharded
forward_sharded-counts id n i stream lt h =
    forward_from-counts id n (replicate n 0) 0 i stream (ground (arith, lt, length-replicate n)) h
    ∙ ap (λ c. c ∷ []) (omega (arith, count_at-replicate i n))

forward_from-silent :
    (id : List ℕ) (n : ℕ) (counts : List ℕ) (rr i : ℕ) (stream : List Incoming)
    → (forward_from id n counts rr stream).1 ≡ false
    → eofs_to i (forward_from id n counts rr stream).0 ≡ []
unfolding forward_from eofs_to
forward_from-silent id n counts rr i [] h = refl
forward_from-silent id n counts rr i (data_msg raw ∷ stream) h =
    forward_from-silent id n (increment (rr % n) counts) (rr + 1) i stream h
forward_from-silent id n counts rr i (eof_msg ∷ stream) h = absurd (ground (arith, h))
forward_from-silent id n counts rr i (other_msg ∷ stream) h = refl
forward_from-silent id n counts rr i (closed ∷ stream) h = refl

-- No shard is sent an EOF when the stream did not reach its end.
pub forward_sharded-silent :
    (id : List ℕ) (n i : ℕ) (stream : List Incoming)
    → (forward_sharded id n stream).1 ≡ false
    → eofs_to i (forward_sharded id n stream).0 ≡ []
unfolding forward_sharded
forward_sharded-silent id n i stream h = forward_from-silent id n (replicate n 0) 0 i stream h
