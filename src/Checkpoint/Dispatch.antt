-- ===== src/Checkpoint/Dispatch.antt =====
-- src/common/checkpoint/dispatch.py: how a controller's message reaches its handlers and its
-- checkpointer. Fault injection is left out.
use distribuidos_tp_money_la.Prelude.{◌>>=◌, ℕ, Option, some, false}
use distribuidos_tp_money_la.Checkpoint.Snapshotable.{Snapshotable}
use distribuidos_tp_money_la.Checkpoint.Checkpointer.{State, flush, ack, handle_data}

pub data Kind : Type 0 where
  eof_kind abort_kind data_kind : Kind

module _ {S X : Type 0} (sS : Snapshotable S) (sX : Snapshotable X) where
  -- with a checkpointer: the message's kind and header, the delivery to acknowledge, and the
  -- controller's `on_eof`, `on_data` and `on_abort`
  unfoldable pub dispatch :
      Kind
      → ℕ
      → ℕ
      → ℕ
      → ℕ
      → (State sS sX → Option (State sS sX))
      → (State sS sX → Option (State sS sX))
      → (State sS sX → Option (State sS sX))
      → State sS sX
      → Option (State sS sX)
  unfolding flush ack handle_data
  dispatch eof_kind cid producer seq tag on_eof on_data on_abort c =
      flush sS sX false c >>= on_eof >>= λ c1. some (ack sS sX tag c1)
  dispatch abort_kind cid producer seq tag on_eof on_data on_abort c =
      on_abort c >>= λ c1. some (ack sS sX tag c1)
  dispatch data_kind cid producer seq tag on_eof on_data on_abort c =
      handle_data sS sX on_data cid producer seq tag c
