-- ===== src/Tests/Codec.antt =====
-- A codec of payloads for the runs: a stack machine in the place of msgpack.
use distribuidos_tp_money_la.Prelude.{
  ℕ, ◌≡◌, ◌∙◌, refl, ap, true, false, Option, none, some, List, [], ◌∷◌, ◌==◌, nat_eq,
  if◌then◌else◌,
}
use distribuidos_tp_money_la.Prelude.Int.{pos, negsuc}
use distribuidos_tp_money_la.Messages.Values.{
  Text, Value, int, float, text, bool, seq, dict, Values, nil, cons, Pairs, end, pair, values,
  items, items-values,
}

pub data Item : Type 0 where
  one : Value → Item
  many : Values → Item
  keyed : Pairs → Item
  chars : Text → Item

add_char : ℕ → List Item → List Item
add_char c (chars s ∷ st) = chars (c ∷ s) ∷ st
add_char c st = st

finish : List Item → List Item
finish (chars s ∷ st) = one (text s) ∷ st
finish (many vs ∷ st) = one (seq vs) ∷ st
finish (keyed ps ∷ st) = one (dict ps) ∷ st
finish st = st

join : List Item → List Item
join (one v ∷ many vs ∷ st) = many (cons v vs) ∷ st
join (one v ∷ one k ∷ keyed ps ∷ st) = keyed (pair k v ps) ∷ st
join st = st

step : ℕ → ℕ → List Item → List Item
unfolding add_char finish join
step op arg st =
    if op == 0
    then one (int (pos arg)) ∷ st
    else if op == 1
    then one (int (negsuc arg)) ∷ st
    else if op == 2
    then one (float arg) ∷ st
    else if op == 3
    then one (bool true) ∷ st
    else if op == 4
    then one (bool false) ∷ st
    else if op == 5
    then chars [] ∷ st
    else if op == 6
    then add_char arg st
    else if op == 7
    then finish st
    else if op == 8
    then many nil ∷ st
    else if op == 9
    then join st
    else keyed end ∷ st

run : List ℕ → List Item → List Item
unfolding step
run (op ∷ arg ∷ rest) st = run rest (step op arg st)
run _ st = st

write_text : Text → List ℕ → List ℕ
write_text [] k = 5 ∷ 0 ∷ k
write_text (c ∷ s) k = write_text s (6 ∷ c ∷ k)

mutual
  write : Value → List ℕ → List ℕ
  write (int (pos n)) k = 0 ∷ n ∷ k
  write (int (negsuc n)) k = 1 ∷ n ∷ k
  write (float b) k = 2 ∷ b ∷ k
  write (text s) k = write_text s (7 ∷ 0 ∷ k)
  write (bool true) k = 3 ∷ 0 ∷ k
  write (bool false) k = 4 ∷ 0 ∷ k
  write (seq vs) k = write_all vs (7 ∷ 0 ∷ k)
  write (dict ps) k = write_pairs ps (7 ∷ 0 ∷ k)

  write_all : Values → List ℕ → List ℕ
  write_all nil k = 8 ∷ 0 ∷ k
  write_all (cons v vs) k = write_all vs (write v (9 ∷ 0 ∷ k))

  write_pairs : Pairs → List ℕ → List ℕ
  write_pairs end k = 10 ∷ 0 ∷ k
  write_pairs (pair key v ps) k = write_pairs ps (write key (write v (9 ∷ 0 ∷ k)))

run-write_text :
    (s : Text) (k : List ℕ) (st : List Item) → run (write_text s k) st ≡ run k (chars s ∷ st)
unfolding run write_text step add_char
run-write_text [] k st = refl
run-write_text (c ∷ s) k st = run-write_text s (6 ∷ c ∷ k) st

mutual
  unfolding run write step finish join

  run-write : (v : Value) (k : List ℕ) (st : List Item) → run (write v k) st ≡ run k (one v ∷ st)
  run-write (int (pos n)) k st = refl
  run-write (int (negsuc n)) k st = refl
  run-write (float b) k st = refl
  run-write (text s) k st = run-write_text s (7 ∷ 0 ∷ k) st
  run-write (bool true) k st = refl
  run-write (bool false) k st = refl
  run-write (seq vs) k st = run-write_all vs (7 ∷ 0 ∷ k) st
  run-write (dict ps) k st = run-write_pairs ps (7 ∷ 0 ∷ k) st

  run-write_all :
      (vs : Values) (k : List ℕ) (st : List Item) → run (write_all vs k) st ≡ run k (many vs ∷ st)
  run-write_all nil k st = refl
  run-write_all (cons v vs) k st =
      run-write_all vs (write v (9 ∷ 0 ∷ k)) st ∙ run-write v (9 ∷ 0 ∷ k) (many vs ∷ st)

  run-write_pairs :
      (ps : Pairs) (k : List ℕ) (st : List Item) → run (write_pairs ps k) st ≡ run k (keyed ps ∷ st)
  run-write_pairs end k st = refl
  run-write_pairs (pair key v ps) k st =
      run-write_pairs ps (write key (write v (9 ∷ 0 ∷ k))) st
      ∙ (run-write key (write v (9 ∷ 0 ∷ k)) (keyed ps ∷ st)
          ∙ run-write v (9 ∷ 0 ∷ k) (one key ∷ keyed ps ∷ st))

pub pack : List Value → List ℕ
pack vs = write_all (values vs) []

unpacked : List Item → Option (List Value)
unpacked (many vs ∷ []) = some (items vs)
unpacked _ = none

pub unpack : List ℕ → Option (List Value)
unfolding run
unpack raw = unpacked (run raw [])

-- The codec reads what it writes.
pub unpack-pack : (vs : List Value) → unpack (pack vs) ≡ some vs
unfolding unpack pack unpacked run
unpack-pack vs = ap unpacked (run-write_all (values vs) [] []) ∙ ap some (items-values vs)
