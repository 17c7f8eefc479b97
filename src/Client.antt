-- ===== src/Client.antt =====
-- src/client/client.py: how the workers of a client share out the lines of the transactions file. A
-- file is the list of its bytes; the queue, the processes and the shutdown are left out.
pub mod Ranges
pub mod Boundaries
use distribuidos_tp_money_la.Prelude.{
  ℕ, zero, suc, ◌+◌, ◌*◌, ◌/◌, Bool, true, false, List, [], ◌∷◌, ◌++◌, drop, ltb, length,
  if◌then◌else◌, ◌==◌, nat_eq,
}

-- f.readline(): the line with its newline, and what comes after it
unfoldable pub readline : List ℕ → List ℕ × List ℕ
readline [] = ([], [])
readline (c ∷ s) = let rest = readline s in if c == 10 then (c ∷ [], s) else (c ∷ rest.0, rest.1)

-- not line
abbrev pub is_empty : List ℕ → Bool
is_empty [] = true
is_empty (c ∷ s) = false

-- the loop of `_transactions_worker`, from the position `tell`; the first argument bounds the
-- number of lines
unfoldable pub read_lines : ℕ → ℕ → ℕ → List ℕ → List (List ℕ)
unfolding readline
read_lines zero tell stop s = []
read_lines (suc fuel) tell stop s =
    let read = readline s in
    let next = read_lines fuel (tell + length read.0) stop read.1 in
    if ltb tell stop then if is_empty read.0 then [] else read.0 ∷ next else []

-- the readline() that drops a line, and the loop after it
unfoldable pub resume : ℕ → ℕ → ℕ → List ℕ → List (List ℕ)
unfolding readline read_lines
resume fuel tell stop s =
    let first = readline s in read_lines fuel (tell + length first.0) stop first.1

-- the lines that `_transactions_worker` parses, after f.seek(start)
unfoldable pub worker : ℕ → ℕ → List ℕ → List (List ℕ)
unfolding resume
worker start stop file = resume (length file) start stop (drop start file)

-- `bounds`: the start of range i
abbrev pub bound : ℕ → ℕ → ℕ → ℕ
bound size n i = i * size / n

-- the lines of the first k of n workers, one worker after the other
unfoldable pub workers : ℕ → ℕ → List ℕ → List (List ℕ)
unfolding worker
workers n zero file = []
workers n (suc k) file =
    workers n k file ++ worker (bound (length file) n k) (bound (length file) n (suc k)) file
