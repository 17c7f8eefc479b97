-- ===== src/Messages/Nodes.antt =====
-- src/common/comms/messages/graph_src/: the nodes and the paths of the graph messages. Their
-- `__hash__` and `__eq__` go by `key`.
use distribuidos_tp_money_la.Prelude.{
  ℕ, ◌≡◌, ◌∙◌, refl, ap, false, Option, none, some, List, [], ◌∷◌, ◌++◌, if◌then◌else◌, if_true,
  if_false, ◌==◌, nat_eq, All, arith,
}
use distribuidos_tp_money_la.Messages.Values.{Text}

pub record Node : Type 0 where
  pub bank : Text
  pub account : Text

-- `Path`: the nodes at its two ends
pub record NodePath : Type 0 where
  pub origin : Node
  pub destination : Node

-- `Node.key`
unfoldable pub node_key : Node → Text
node_key n = n.bank ++ n.account

-- `Path.key`
unfoldable pub path_key : NodePath → Text
unfolding node_key
path_key p = node_key p.origin ++ node_key p.destination

-- `Node.__str__`
unfoldable pub node_str : Node → Text
node_str n = n.bank ++ (44 ∷ n.account)

-- a character before the first word
abbrev pub prefix_first : ℕ → List Text → List Text
prefix_first c [] = (c ∷ []) ∷ []
prefix_first c (w ∷ ws) = (c ∷ w) ∷ ws

-- s.split(sep)
unfoldable pub split_on : ℕ → Text → List Text
split_on sep [] = [] ∷ []
split_on sep (c ∷ s) =
    let rest = split_on sep s in if c == sep then [] ∷ rest else prefix_first c rest

-- `bank, account = ...` raises unless there are two parts
abbrev pub node_of : List Text → Option Node
node_of (b ∷ a ∷ []) = some (record { bank = b; account = a })
node_of _ = none

-- `_node_from_str` of node_msg.py
unfoldable pub node_from_str : Text → Option Node
unfolding split_on
node_from_str s = node_of (split_on 44 s)

-- No character is `c`.
abbrev pub Without : ℕ → Text → Type 0
Without c = All (λ (x : ℕ). (x == c) ≡ false)

split_on-Without : (c : ℕ) (s : Text) → Without c s → split_on c s ≡ s ∷ []
unfolding split_on
split_on-Without c [] h = refl
split_on-Without c (x ∷ s) (h, hs) =
    if_false (x == c) _ _ h ∙ ap (prefix_first x) (split_on-Without c s hs)

split_on-append :
    (c : ℕ) (s t : Text) → Without c s → Without c t → split_on c (s ++ (c ∷ t)) ≡ s ∷ t ∷ []
unfolding split_on
split_on-append c [] t h ht =
    if_true (c == c) _ _ (ground arith) ∙ ap (λ ws. [] ∷ ws) (split_on-Without c t ht)
split_on-append c (x ∷ s) t (h, hs) ht =
    if_false (x == c) _ _ h ∙ ap (prefix_first x) (split_on-append c s t hs ht)

-- A node without commas is read back from its text.
pub node_from_str-node_str :
    (n : Node) → Without 44 n.bank → Without 44 n.account → node_from_str (node_str n) ≡ some n
unfolding node_from_str node_str
node_from_str-node_str n hb ha = ap node_of (split_on-append 44 n.bank n.account hb ha)
