-- ===== src/Messages/Numbers.antt =====
-- Sequence numbers on the wire (message.py, stamping_mom.py).
use distribuidos_tp_money_la.Prelude.{
  ℕ, zero, suc, ◌+◌, ◌*◌, ◌/◌, ◌%◌, ◌^◌, ◌<◌, ◌≡◌, ◌∙◌, refl, ap, List, [], ◌∷◌, ◌++◌, length,
  length-append, arith,
}
use distribuidos_tp_money_la.Messages.{to_bytes, from_bytes}

from_bytes-append :
    (acc b : ℕ) (raw : List ℕ) → from_bytes acc (raw ++ b ∷ []) ≡ from_bytes acc raw * 256 + b
unfolding from_bytes
from_bytes-append acc b [] = refl
from_bytes-append acc b (c ∷ raw) = from_bytes-append (acc * 256 + c) b raw

pub length-to_bytes : (width n : ℕ) → length (to_bytes width n) ≡ width
unfolding to_bytes
length-to_bytes zero n = refl
length-to_bytes (suc width) n = ground (
  arith,
  length-append (to_bytes width (n / 256)) (n % 256 ∷ []),
  length-to_bytes width (n / 256),
)

width_step : (width : ℕ) → 256 ^ suc width ≡ 256 * 256 ^ width
width_step width = ground arith

-- A number below 256 ^ width survives its big-endian bytes.
pub from_bytes-to_bytes : (width n : ℕ) → n < 256 ^ width → from_bytes 0 (to_bytes width n) ≡ n
unfolding to_bytes
from_bytes-to_bytes zero n lt = unfold from_bytes in omega (arith, lt)
from_bytes-to_bytes (suc width) n lt =
    from_bytes-append 0 (n % 256) (to_bytes width (n / 256))
    ∙ (ap (λ x. x * 256 + n % 256)
          (from_bytes-to_bytes width (n / 256) (omega (arith, lt, width_step width)))
        ∙ omega arith)
