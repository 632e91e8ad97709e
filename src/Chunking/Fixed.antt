-- ===== src/Chunking/Fixed.antt =====
-- The chunks of `FixedWindowChunker.chunk`, over all the sections of a document.
use llm_gateway_rag.Common.{
  ℕ, zero, suc, ◌-◌, ◌<◌, ◌≤◌, inl, inr, none, Option, List, [], ◌∷◌, map, length, leb, All,
  All-append, Bool-cases, arith,
}
use llm_gateway_rag.Common.Text.{Text, split, join_words}
use llm_gateway_rag.Common.Words.{IsWord, split-join_words, split-Words, All-take, All-drop}
use llm_gateway_rag.Chunking.{Section, Chunk, Chunker, words, windows, append_chunks, chunk_fixed}
use llm_gateway_rag.Chunking.Windows.{stitch-windows}

-- A chunk with one to `max_words` words.
abbrev pub Fits : Chunker → Text → Type 0
Fits c t = (1 ≤ words t) × (words t ≤ c.max_words)

windows-Words :
    (size step fuel : ℕ) (ws : List Text)
    → All IsWord ws
    → All (All IsWord) (windows size step fuel ws)
unfolding windows
windows-Words size step zero ws h = tt
windows-Words size step (suc fuel) [] h = tt
windows-Words size step (suc fuel) (w ∷ ws) h =
    let first = All-take IsWord size (w ∷ ws) h in
    elim (Bool-cases (leb (length (w ∷ ws)) size)) [
      | inl e ↦ rw e (first, tt)
      | inr e ↦ rw e (first, windows-Words size step fuel _ (All-drop IsWord step (w ∷ ws) h))
    ]

bodies-Fit :
    (c : Chunker) (ws : List (List Text))
    → All (All IsWord) ws
    → All (λ w. (1 ≤ length w) × (length w ≤ c.max_words)) ws
    → All (λ (b : Option Text × Text). Fits c b.1) (map (λ w. (none, join_words w)) ws)
bodies-Fit c [] h k = tt
bodies-Fit c (w ∷ ws) h k = (rw (split-join_words w h.0) k.0, bodies-Fit c ws h.1 k.1)

append_chunks-Fit :
    (c : Chunker) (page : Option ℕ) (bodies : List (Option Text × Text)) (cs : List Chunk)
    → All (λ (b : Option Text × Text). Fits c b.1) bodies
    → All (λ x. Fits c x.text) cs
    → All (λ x. Fits c x.text) (append_chunks page bodies cs)
unfolding append_chunks
append_chunks-Fit c page [] cs h k = k
append_chunks-Fit c page ((heading, t) ∷ bodies) cs h k =
    append_chunks-Fit c page bodies _ h.1 (All-append (λ x. Fits c x.text) cs _ k (h.0, tt))

-- Every chunk that the window chunker makes of a document, appended to chunks of which that holds,
-- has from one to `max_words` words, for an overlap below `max_words`.
pub chunk_fixed-Fit :
    (c : Chunker) (sections : List Section) (cs : List Chunk)
    → c.overlap_words < c.max_words
    → All (λ x. Fits c x.text) cs
    → All (λ x. Fits c x.text) (chunk_fixed c sections cs)
unfolding chunk_fixed
chunk_fixed-Fit c [] cs h k = k
chunk_fixed-Fit c (s ∷ sections) cs h k =
    let ws = split s.text in
    let step = c.max_words - c.overlap_words in
    chunk_fixed-Fit c sections _ h (
      append_chunks-Fit c s.page _ cs
        (bodies-Fit c _ (windows-Words c.max_words step (length ws) ws (split-Words s.text))
          (stitch-windows c.max_words step (length ws) ws (omega (arith, h)) (omega arith)
            (omega arith)).1)
        k)
