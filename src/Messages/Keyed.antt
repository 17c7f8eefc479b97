-- ===== src/Messages/Keyed.antt =====
-- Sets and dicts of nodes and paths, whose `__eq__` compares their `key` texts
-- (src/common/comms/messages/graph_src/). Kept in insertion order.
use distribuidos_tp_money_la.Prelude.{
  ◌≡◌, ◌∙◌, ap, Bool, true, false, ◌&&◌, ◌||◌, List, [], ◌∷◌, ◌++◌, if◌then◌else◌, if_false,
  append-nil, append_assoc, ◌==◌, nat_eq,
}
use distribuidos_tp_money_la.Messages.Values.{Text}

-- equal texts
unfoldable pub same_text : Text → Text → Bool
same_text [] [] = true
same_text [] (d ∷ t) = false
same_text (c ∷ s) [] = false
same_text (c ∷ s) (d ∷ t) = c == d && same_text s t

module _ {ℓ} {K V : Type ℓ} (key : K → Text) where
  -- k in d
  unfoldable pub has_key : K → List (K × V) → Bool
  unfolding same_text
  has_key k [] = false
  has_key k ((j, v) ∷ d) = same_text (key j) (key k) || has_key k d

  -- d[k] = v for a key that is there: the old key object stays
  unfoldable pub replace : K → V → List (K × V) → List (K × V)
  unfolding same_text
  replace k v [] = []
  replace k v ((j, w) ∷ d) =
      if same_text (key j) (key k) then (j, v) ∷ d else (j, w) ∷ replace k v d

  -- d[k] = v
  unfoldable pub put_by : K → V → List (K × V) → List (K × V)
  unfolding has_key replace
  put_by k v d = if has_key k d then replace k v d else d ++ (k, v) ∷ []

  -- {k: v for k, v in ...}, from what is there already
  unfoldable pub build : List (K × V) → List (K × V) → List (K × V)
  unfolding put_by
  build d [] = d
  build d ((k, v) ∷ rest) = build (put_by k v d) rest

  -- Every key is new where it comes.
  abbrev pub NewKeys : List (K × V) → List (K × V) → Type 0
  NewKeys d [] = Unit {0}
  NewKeys d ((k, v) ∷ rest) = (has_key k d ≡ false) × NewKeys (d ++ (k, v) ∷ []) rest

  build-new : (d rest : List (K × V)) → NewKeys d rest → build d rest ≡ d ++ rest
  unfolding build put_by
  build-new d [] h = rw append-nil
  build-new d ((k, v) ∷ rest) h =
      ap (λ x. build x rest) (if_false (has_key k d) (replace k v d) (d ++ (k, v) ∷ []) h.0)
      ∙ (build-new (d ++ (k, v) ∷ []) rest h.1 ∙ append_assoc d ((k, v) ∷ []) rest)

  -- A comprehension over entries with different keys gives those entries.
  pub build-nil : (rest : List (K × V)) → NewKeys [] rest → build [] rest ≡ rest
  build-nil rest h = build-new [] rest h

module _ {ℓ} {K : Type ℓ} (key : K → Text) where
  -- k in s
  unfoldable pub is_member : K → List K → Bool
  unfolding same_text
  is_member k [] = false
  is_member k (j ∷ s) = same_text (key j) (key k) || is_member k s

  -- s.add(k)
  unfoldable pub add_by : K → List K → List K
  unfolding is_member
  add_by k s = if is_member k s then s else s ++ k ∷ []

  -- {k for k in ...}, from what is there already
  unfoldable pub collect : List K → List K → List K
  unfolding add_by
  collect s [] = s
  collect s (k ∷ rest) = collect (add_by k s) rest

  abbrev pub NewMembers : List K → List K → Type 0
  NewMembers s [] = Unit {0}
  NewMembers s (k ∷ rest) = (is_member k s ≡ false) × NewMembers (s ++ k ∷ []) rest

  collect-new : (s rest : List K) → NewMembers s rest → collect s rest ≡ s ++ rest
  unfolding collect add_by
  collect-new s [] h = rw append-nil
  collect-new s (k ∷ rest) h =
      ap (λ x. collect x rest) (if_false (is_member k s) s (s ++ k ∷ []) h.0)
      ∙ (collect-new (s ++ k ∷ []) rest h.1 ∙ append_assoc s (k ∷ []) rest)

  pub collect-nil : (rest : List K) → NewMembers [] rest → collect [] rest ≡ rest
  collect-nil rest h = collect-new [] rest h
