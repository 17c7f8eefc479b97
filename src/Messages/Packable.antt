-- ===== src/Messages/Packable.antt =====
-- The values that msgpack packs and gives back (the payloads of src/common/comms/messages/): ints of
-- 64 bits, texts of Unicode characters, sizes below 2 ** 32, and dicts whose keys are different ints.
use distribuidos_tp_money_la.Prelude.{
  ℕ, ◌^◌, Bool, true, false, ◌&&◌, ◌||◌, not, List, [], ◌∷◌, ltb, leb, length, ◌==◌, nat_eq,
}
use distribuidos_tp_money_la.Prelude.Int.{ℤ, pos, negsuc}
use distribuidos_tp_money_la.Messages.Values.{
  Text, Value, int, float, text, bool, seq, dict, Values, nil, cons, Pairs, end, pair, items,
  entries, values,
}

abbrev pub fits_int : ℤ → Bool
fits_int (pos n) = ltb n (2 ^ 64)
fits_int (negsuc n) = ltb n (2 ^ 63)

abbrev pub same_int : ℤ → ℤ → Bool
same_int (pos n) (pos k) = n == k
same_int (negsuc n) (negsuc k) = n == k
same_int _ _ = false

-- a character that UTF-8 encodes: no surrogate
abbrev pub is_character : ℕ → Bool
is_character c = ltb c 55296 || (leb 57344 c && ltb c 1114112)

unfoldable pub all_characters : Text → Bool
all_characters [] = true
all_characters (c ∷ s) = is_character c && all_characters s

-- A character takes four bytes at most.
abbrev pub fits_text : Text → Bool
fits_text s = ltb (length s) (2 ^ 30) && all_characters s

-- the int is no key of the dict
unfoldable pub is_new_key : ℤ → Pairs → Bool
is_new_key k end = true
is_new_key k (pair (int j) v ps) = not (same_int k j) && is_new_key k ps
is_new_key k (pair _ v ps) = is_new_key k ps

unfoldable mutual
  unfolding all_characters is_new_key

  pub is_packable : Value → Bool
  is_packable (int z) = fits_int z
  is_packable (float bits) = ltb bits (2 ^ 64)
  is_packable (text s) = fits_text s
  is_packable (bool b) = true
  is_packable (seq vs) = ltb (length (items vs)) (2 ^ 32) && are_packable vs
  is_packable (dict ps) = ltb (length (entries ps)) (2 ^ 32) && are_packable_pairs ps

  pub are_packable : Values → Bool
  are_packable nil = true
  are_packable (cons v vs) = is_packable v && are_packable vs

  pub are_packable_pairs : Pairs → Bool
  are_packable_pairs end = true
  are_packable_pairs (pair (int k) v ps) =
      fits_int k && (is_new_key k ps && (is_packable v && are_packable_pairs ps))
  are_packable_pairs (pair _ v ps) = false

-- a payload, which is packed as one list
abbrev pub is_payload : List Value → Bool
is_payload vs = is_packable (seq (values vs))
