-- ===== src/UseCases/Responses/Chunks.antt =====
-- The streamed response against the client's lines (line_spill.py).
use distribuidos_tp_money_la.Prelude.{
  nat_eq, ℕ, ◌≡◌, ◌∙◌, refl, ap, sym, Bool, true, false, List, [], ◌∷◌, ◌++◌, leb, length,
  if◌then◌else◌, append-nil, append_assoc, Bool-cases, inl, inr,
}
use distribuidos_tp_money_la.Collections.Dict.{get_default}
use distribuidos_tp_money_la.UseCases.Responses.{
  Line, concat, last_chunk, chunks_from, LineSpill, iter_chunks, Response, stream_from,
  stream_chunks, stream_responses,
}

concat-append : (xs ys : List Line) → concat (xs ++ ys) ≡ concat xs ++ concat ys
unfolding concat
concat-append [] ys = refl
concat-append (x ∷ xs) ys =
    ap (◌++◌ x) (concat-append xs ys) ∙ sym (append_assoc x (concat xs) (concat ys))

last_chunk-concat : (batch : List Line) → concat (last_chunk batch) ≡ concat batch
unfolding last_chunk concat
last_chunk-concat [] = refl
last_chunk-concat (line ∷ batch) = append-nil _

concat_one : (line : Line) → concat (line ∷ []) ≡ line
unfolding concat
concat_one line = append-nil line

chunks_from-concat :
    (n : ℕ) (lines batch : List Line)
    → concat (chunks_from n lines batch) ≡ concat batch ++ concat lines
unfolding chunks_from
chunks_from-concat n [] batch =
    last_chunk-concat batch ∙ (unfold concat in sym (append-nil (concat batch)))
chunks_from-concat n (line ∷ lines) batch =
    elim (Bool-cases (leb n (length (batch ++ line ∷ [])))) [
      | inl full ↦ rw full (
          concat_cons (concat (batch ++ line ∷ [])) (chunks_from n lines [])
          ∙ (ap (◌++◌ (concat (batch ++ line ∷ []))) (chunks_from-concat n lines []) ∙ longer))
      | inr more ↦ rw more (chunks_from-concat n lines (batch ++ line ∷ []) ∙ longer)
    ]
  where
    concat_cons : (x : Line) (xs : List Line) → concat (x ∷ xs) ≡ x ++ concat xs
    concat_cons x xs = unfold concat in refl

    longer : concat (batch ++ line ∷ []) ++ concat lines ≡ concat batch ++ concat (line ∷ lines)
    longer =
        ap (λ c. c ++ concat lines)
          (concat-append batch (line ∷ []) ∙ ap (◌++◌ (concat batch)) (concat_one line))
        ∙ (append_assoc (concat batch) line (concat lines)
            ∙ ap (◌++◌ (concat batch)) (sym (concat_cons line lines)))

-- The text of all the chunks.
unfoldable pub response_text : List Response → List ℕ
response_text [] = []
response_text (r ∷ responses) = r.text ++ response_text responses

-- Only the last response is marked, and there is one.
unfoldable pub last_marked : List Response → Bool
last_marked [] = false
last_marked (r ∷ []) = r.last
last_marked (r ∷ s ∷ responses) = if r.last then false else last_marked (s ∷ responses)

stream_from-text :
    (cid : ℕ) (chunks : List (List ℕ)) (prev : List ℕ)
    → (response_text (stream_from cid prev chunks) ≡ prev ++ (concat chunks ++ 10 ∷ []))
      × (last_marked (stream_from cid prev chunks) ≡ true)
unfolding stream_from response_text concat last_marked
stream_from-text cid [] prev = (append-nil (prev ++ 10 ∷ []), refl)
stream_from-text cid (next ∷ []) prev =
    (ap (◌++◌ prev) ((stream_from-text cid [] next).0 ∙ sym (append_assoc next [] (10 ∷ []))), refl)
stream_from-text cid (next ∷ more ∷ chunks) prev = (
  ap (◌++◌ prev) (
      (stream_from-text cid (more ∷ chunks) next).0
      ∙ sym (append_assoc next (concat (more ∷ chunks)) (10 ∷ []))),
  (stream_from-text cid (more ∷ chunks) next).1,
)

stream_chunks-text :
    (cid : ℕ) (header : List ℕ) (chunks : List (List ℕ))
    → (response_text (stream_chunks cid header chunks) ≡ header ++ (concat chunks ++ 10 ∷ []))
      × (last_marked (stream_chunks cid header chunks) ≡ true)
unfolding stream_chunks
stream_chunks-text cid header [] =
    unfold response_text concat last_marked in (append-nil (header ++ 10 ∷ []), refl)
stream_chunks-text cid header (first ∷ chunks) = (
  (stream_from-text cid chunks (header ++ first)).0
      ∙ (append_assoc header first (concat chunks ++ 10 ∷ [])
          ∙ unfold concat in ap (◌++◌ header) (sym (append_assoc first (concat chunks) (10 ∷ [])))),
  (stream_from-text cid chunks (header ++ first)).1,
)

-- Whatever the batch size is, the chunks of a streamed response are together the header, the
-- client's lines in order and a newline, and the last chunk, and no other, is marked as the last.
pub stream_responses-text :
    (spill : LineSpill) (cid batch_lines : ℕ) (header : List ℕ)
    → (response_text (stream_responses spill cid header batch_lines)
        ≡ header ++ (concat (get_default cid [] spill) ++ 10 ∷ []))
      × (last_marked (stream_responses spill cid header batch_lines) ≡ true)
unfolding stream_responses iter_chunks
stream_responses-text spill cid batch_lines header =
    let file = get_default cid [] spill in
    let r = stream_chunks-text cid header (chunks_from batch_lines file []) in
    (
      r.0
          ∙ ap (λ c. header ++ (c ++ 10 ∷ []))
              (chunks_from-concat batch_lines file [] ∙ no_batch (concat file)),
      r.1,
    )
  where
    no_batch : (c : List ℕ) → concat [] ++ c ≡ c
    no_batch c = unfold concat in refl
