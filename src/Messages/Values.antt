-- ===== src/Messages/Values.antt =====
-- What a message's payload holds once msgpack has unpacked it (src/common/comms/messages/message.py).
-- A text is the list of its characters' codes, a float its 64 bits, which the messages only pass on.
use distribuidos_tp_money_la.Prelude.{
  ℕ, ◌≡◌, refl, ap, ap₂, Bool, Option, none, some, List, [], ◌∷◌, map, nat_eq,
}
use distribuidos_tp_money_la.Prelude.Int.{ℤ}

abbrev pub Text : Type 0
Text = List ℕ

mutual
  pub data Value : Type 0 where
    int : ℤ → Value
    float : ℕ → Value
    text : Text → Value
    bool : Bool → Value
    seq : Values → Value
    dict : Pairs → Value

  pub data Values : Type 0 where
    nil : Values
    cons : Value → Values → Values

  pub data Pairs : Type 0 where
    end : Pairs
    pair : Value → Value → Pairs → Pairs

abbrev pub values : List Value → Values
values [] = nil
values (v ∷ vs) = cons v (values vs)

abbrev pub items : Values → List Value
items nil = []
items (cons v vs) = v ∷ items vs

abbrev pub pairs : List (Value × Value) → Pairs
pairs [] = end
pairs ((k, v) ∷ ps) = pair k v (pairs ps)

abbrev pub entries : Pairs → List (Value × Value)
entries end = []
entries (pair k v ps) = (k, v) ∷ entries ps

pub items-values : (vs : List Value) → items (values vs) ≡ vs
items-values [] = refl
items-values (v ∷ vs) = ap (◌∷◌ v) (items-values vs)

pub entries-pairs : (ps : List (Value × Value)) → entries (pairs ps) ≡ ps
entries-pairs [] = refl
entries-pairs ((k, v) ∷ ps) = ap (◌∷◌ (k, v)) (entries-pairs ps)

-- one reading after another
abbrev pub cons_option {ℓ} : {B : Type ℓ} → Option B → Option (List B) → Option (List B)
cons_option none bs = none
cons_option (some b) none = none
cons_option (some b) (some bs) = some (b ∷ bs)

-- a comprehension whose item raises where the reader gives `none`
unfoldable pub read_all {ℓ κ} :
    {A : Type ℓ} {B : Type κ} → (A → Option B) → List A → Option (List B)
read_all read [] = some []
read_all read (a ∷ as_) = cons_option (read a) (read_all read as_)

-- What is written item by item is read item by item.
pub read_all-map {ℓ κ} :
    {A : Type ℓ} {B : Type κ} (write : B → A) (read : A → Option B)
    → ((b : B) → read (write b) ≡ some b)
    → (bs : List B) → read_all read (map write bs) ≡ some bs
unfolding read_all
read_all-map write read law [] = refl
read_all-map write read law (b ∷ bs) = ap₂ cons_option (law b) (read_all-map write read law bs)
