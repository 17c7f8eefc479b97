-- ===== src/Ring/SentCounts.antt =====
-- src/common/comms/eof_handler/sent_counts.py: how many messages of each client a stateless node
-- sent to each shard.
use distribuidos_tp_money_la.Prelude.{ℕ, ◌+◌, [], nat_eq}
use distribuidos_tp_money_la.Collections.Dict.{Dict, put, pop, get_default}

abbrev pub SentCounts : Type 0
SentCounts = Dict ℕ (Dict ℕ ℕ)

-- `add`: both `setdefault` calls give the client's dict, made on first use
unfoldable pub add_sent : ℕ → ℕ → SentCounts → SentCounts
unfolding get_default put
add_sent client_id shard counts =
    let shards = get_default client_id [] counts in
    put client_id (put shard (get_default shard 0 shards + 1) shards) counts

-- `pop`: the client's counts, and the rest
unfoldable pub pop_sent : ℕ → SentCounts → Dict ℕ ℕ × SentCounts
unfolding get_default pop
pop_sent client_id counts = (get_default client_id [] counts, pop client_id counts)
