-- ===== src/Tests/ClientRuns.antt =====
-- Runs of the client's workers and of its connection.
use distribuidos_tp_money_la.Prelude.{ℕ, ◌≡◌, refl, List, [], ◌∷◌, length, arith}
use distribuidos_tp_money_la.Messages.{to_bytes}
use distribuidos_tp_money_la.Transport.{send, recv}
use distribuidos_tp_money_la.Transport.Framing.{stream, Gets, recv-send}
use distribuidos_tp_money_la.Client.{workers}
use distribuidos_tp_money_la.Client.Ranges.{ended, file_of}
use distribuidos_tp_money_la.Client.Boundaries.{on_boundary, unsplit, workers-unsplit}

-- a header and three lines: 4, 4, 3 and 5 bytes
abbrev lines : List (List ℕ)
lines = (97 ∷ 98 ∷ 99 ∷ []) ∷ (49 ∷ 49 ∷ 49 ∷ []) ∷ (50 ∷ 50 ∷ []) ∷ (51 ∷ 51 ∷ 51 ∷ 51 ∷ []) ∷ []

workers-unsplit_example : workers 2 2 (file_of lines) ≡ unsplit (length (file_of lines)) 2 0 lines
workers-unsplit_example = workers-unsplit 2 lines (omega arith) (
  (refl, (refl, (refl, tt))),
  ((refl, (refl, (refl, tt))), ((refl, (refl, tt)), ((refl, (refl, (refl, (refl, tt)))), tt))),
)

-- The third line starts at byte 8, where the second of the two ranges starts: it is not read.
second_range_start :
    unsplit 16 2 0 lines ≡ ended (49 ∷ 49 ∷ 49 ∷ []) ∷ ended (51 ∷ 51 ∷ 51 ∷ 51 ∷ []) ∷ []
unfolding unsplit on_boundary
second_range_start = refl

-- two bytes, and the first of the next message, in three pieces
abbrev pieces : List (List ℕ)
pieces = (0 ∷ 0 ∷ []) ∷ (0 ∷ 2 ∷ 7 ∷ []) ∷ (8 ∷ 9 ∷ []) ∷ []

recv-send_example : Gets (recv pieces) (7 ∷ 8 ∷ []) (9 ∷ [])
unfolding send to_bytes stream
recv-send_example =
    recv-send (7 ∷ 8 ∷ []) (0 ∷ 0 ∷ 0 ∷ 2 ∷ 7 ∷ 8 ∷ []) (9 ∷ []) pieces refl refl
      (omega arith, (omega arith, (omega arith, tt)))
