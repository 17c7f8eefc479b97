-- ===== src/Collections/Dict.antt =====
-- Python's `dict`: an association list in insertion order. `d[k] = v` overwrites in place or
-- appends, `d.pop(k, None)` removes, and iteration follows the list.
pub mod Laws
use distribuidos_tp_money_la.Prelude.{
  ℕ, ◌+◌, Bool, true, false, Option, none, some, List, [], ◌∷◌, map, Eq, ◌==◌, if◌then◌else◌,
}

abbrev pub Dict {ℓ} : Type ℓ → Type ℓ → Type ℓ
Dict K V = List (K × V)

abbrev pub is_some {ℓ} : {A : Type ℓ} → Option A → Bool
is_some none = false
is_some (some a) = true

abbrev pub get_or {ℓ} : {A : Type ℓ} → Option A → A → A
get_or none d = d
get_or (some a) d = a

module _ {ℓ} {K V : Type ℓ} where
  -- iteration over `d.keys()` and `d.values()`
  unfoldable pub keys : Dict K V → List K
  keys = map (λ e. e.0)

  unfoldable pub values : Dict K V → List V
  values = map (λ e. e.1)

module _ {ℓ} {K V : Type ℓ} ⦃e : Eq K⦄ where
  -- d.get(k)
  unfoldable pub get : K → Dict K V → Option V
  get k [] = none
  get k ((j, v) ∷ d) = if j == k then some v else get k d

  -- d[k] = v
  unfoldable pub put : K → V → Dict K V → Dict K V
  put k v [] = (k, v) ∷ []
  put k v ((j, w) ∷ d) = if j == k then (j, v) ∷ d else (j, w) ∷ put k v d

  -- d.pop(k, None)
  unfoldable pub pop : K → Dict K V → Dict K V
  pop k [] = []
  pop k ((j, w) ∷ d) = let rest = pop k d in if j == k then d else (j, w) ∷ rest

  -- k in d
  unfoldable pub contains : K → Dict K V → Bool
  unfolding get
  contains k d = is_some (get k d)

  -- d.get(k, default)
  unfoldable pub get_default : K → V → Dict K V → V
  unfolding get
  get_default k v d = get_or (get k d) v

  -- d.setdefault(k, v): the dict afterwards
  unfoldable pub setdefault : K → V → Dict K V → Dict K V
  unfolding get put
  setdefault k v d = elim (get k d) [ none ↦ put k v d | some w ↦ d ]

  -- d.update(other)
  unfoldable pub update : Dict K V → Dict K V → Dict K V
  update d [] = d
  update d ((k, v) ∷ other) = update (put k v d) other
