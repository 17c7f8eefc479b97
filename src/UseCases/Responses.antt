-- ===== src/UseCases/Responses.antt =====
-- src/join/join_fns/line_spill.py: the lines of a client's answer, streamed as the chunks of a
-- response. A file is the list of its lines, a line is the list of its characters with its newline.
pub mod Chunks
use distribuidos_tp_money_la.Prelude.{
  ℕ, zero, suc, ◌+◌, Bool, true, false, Option, none, some, List, [], ◌∷◌, ◌++◌, leb, length,
  if◌then◌else◌, ◌==◌, nat_eq,
}
use distribuidos_tp_money_la.Collections.Dict.{Dict, get, put, pop, get_default}

abbrev pub Line : Type 0
Line = List ℕ

-- "".join(batch)
unfoldable pub concat : List Line → List ℕ
concat [] = []
concat (line ∷ lines) = line ++ concat lines

-- if batch: yield "".join(batch)
unfoldable pub last_chunk : List Line → List (List ℕ)
unfolding concat
last_chunk [] = []
last_chunk (line ∷ batch) = concat (line ∷ batch) ∷ []

-- the loop of `iter_chunks`, with the batch so far
unfoldable pub chunks_from : ℕ → List Line → List Line → List (List ℕ)
unfolding last_chunk
chunks_from batch_lines [] batch = last_chunk batch
chunks_from batch_lines (line ∷ lines) batch =
    let longer = batch ++ line ∷ [] in
    let next = chunks_from batch_lines lines longer in
    let full = concat longer ∷ chunks_from batch_lines lines [] in
    if leb batch_lines (length longer) then full else next

-- `LineSpill`: the file of every client
abbrev pub LineSpill : Type 0
LineSpill = Dict ℕ (List Line)

-- `append`
unfoldable pub append_line : ℕ → Line → LineSpill → LineSpill
unfolding get_default put
append_line client_id line spill = put client_id (get_default client_id [] spill ++ line ∷ []) spill

-- `clear`
unfoldable pub clear : ℕ → LineSpill → LineSpill
unfolding pop
clear client_id spill = pop client_id spill

-- `iter_chunks`
unfoldable pub iter_chunks : ℕ → ℕ → LineSpill → List (List ℕ)
unfolding chunks_from get_default
iter_chunks client_id batch_lines spill =
    chunks_from batch_lines (get_default client_id [] spill) []

-- `iter_chunks_and_clear`
unfoldable pub iter_chunks_and_clear : ℕ → ℕ → LineSpill → List (List ℕ) × LineSpill
unfolding iter_chunks clear
iter_chunks_and_clear client_id batch_lines spill =
    (iter_chunks client_id batch_lines spill, clear client_id spill)

-- `Response`; `last` is True by default
pub record Response : Type 0 where
  pub client_id : ℕ
  pub text : List ℕ
  pub last : Bool

-- the loop of `stream_responses`, with the chunk that is held back; 10 is the newline
unfoldable pub stream_from : ℕ → List ℕ → List (List ℕ) → List Response
stream_from client_id prev [] =
    record { client_id = client_id; text = prev ++ 10 ∷ []; last = true } ∷ []
stream_from client_id prev (next ∷ chunks) =
    record { client_id = client_id; text = prev; last = false } ∷ stream_from client_id next chunks

unfoldable pub stream_chunks : ℕ → List ℕ → List (List ℕ) → List Response
unfolding stream_from
stream_chunks client_id header [] =
    record { client_id = client_id; text = header ++ 10 ∷ []; last = true } ∷ []
stream_chunks client_id header (first ∷ chunks) = stream_from client_id (header ++ first) chunks

unfoldable pub stream_responses : LineSpill → ℕ → List ℕ → ℕ → List Response
unfolding stream_chunks iter_chunks
stream_responses spill client_id header batch_lines =
    stream_chunks client_id header (iter_chunks client_id batch_lines spill)
