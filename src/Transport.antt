-- ===== src/Transport.antt =====
-- src/common/comms/transport/connection.py: single messages over a stream socket. What the peer sent
-- is a list of chunks, one for each time that bytes arrive; an empty list is a closed connection.
-- `close`, which ends a blocked `recv` with no bytes, is left out.
pub mod Framing
use distribuidos_tp_money_la.Prelude.{
  ℕ, zero, suc, ◌-◌, ◌^◌, Bool, Option, none, some, List, [], ◌∷◌, ◌++◌, take, drop, length, ltb,
  leb, if◌then◌else◌, ◌==◌, nat_eq, ◌>>=◌,
}
use distribuidos_tp_money_la.Messages.{to_bytes, from_bytes}

-- `send`: what goes to the socket; to_bytes raises on a length that 4 bytes cannot hold
unfoldable pub send : List ℕ → Option (List ℕ)
unfolding to_bytes
send bytes =
    if ltb (length bytes) (256 ^ 4) then some (to_bytes 4 (length bytes) ++ bytes) else none

-- skt.recv(amount): at most that many of the bytes that are there
unfoldable pub skt_recv : ℕ → List ℕ → List (List ℕ) → List ℕ × List (List ℕ)
skt_recv amount chunk chunks =
    if leb (length chunk) amount
    then (chunk, chunks)
    else (take amount chunk, drop amount chunk ∷ chunks)

-- `__recv_exact`; the first argument bounds the calls of skt.recv. A closed connection raises.
unfoldable pub recv_exact : ℕ → ℕ → List (List ℕ) → Option (List ℕ × List (List ℕ))
unfolding skt_recv
recv_exact fuel zero chunks = some ([], chunks)
recv_exact zero (suc missing) chunks = none
recv_exact (suc fuel) (suc missing) [] = none
recv_exact (suc fuel) (suc missing) (chunk ∷ chunks) =
    let got = skt_recv (suc missing) chunk chunks in
    recv_exact fuel (suc missing - length got.0) got.1 >>= λ r. some (got.0 ++ r.0, r.1)

-- `recv`
unfoldable pub recv : List (List ℕ) → Option (List ℕ × List (List ℕ))
unfolding recv_exact from_bytes
recv chunks = recv_exact 4 4 chunks >>= λ header.
    let amount = from_bytes 0 header.0 in recv_exact amount amount header.1
