-- ===== src/Chunking/Placed.antt =====
-- Where the chunks of a document stand, and the headings that they stand under.
use llm_gateway_rag.Common.{
  ℕ, ◌+◌, ◌<◌, ◌≡◌, inl, inr, refl, true, false, none, some, Bool, Option, List, [], ◌∷◌, ◌++◌,
  length, Bool-cases, arith, leb, ◌||◌, ◌&&◌, not, is_some,
}
use llm_gateway_rag.Common.Text.{Text}
use llm_gateway_rag.Chunking.{Section, Chunk, Chunker, append_chunks, pack}
use llm_gateway_rag.Chunking.Units.{
  Patterns, Splitting, split_units, chunk_sentences, with_prefixes, pop_levels, add_pieces,
  end_paragraph, start_heading, add_line, take_line, take_lines, strip, sentences, blank,
}

abbrev pub Numbered : ℕ → List Chunk → Type 0
Numbered n [] = Unit
Numbered n (c ∷ cs) = (c.index ≡ n) × Numbered (n + 1) cs

Numbered-snoc :
    (n : ℕ) (cs : List Chunk) (c : Chunk)
    → Numbered n cs
    → c.index ≡ n + length cs
    → Numbered n (cs ++ c ∷ [])
Numbered-snoc n [] c h e = (omega (arith, e), tt)
Numbered-snoc n (b ∷ cs) c h e = (h.0, Numbered-snoc (n + 1) cs c h.1 (omega (arith, e)))

append_chunks-Numbered :
    (page : Option ℕ) (bodies : List (Option Text × Text)) (cs : List Chunk)
    → Numbered 0 cs
    → Numbered 0 (append_chunks page bodies cs)
unfolding append_chunks
append_chunks-Numbered page [] cs h = h
append_chunks-Numbered page ((heading, t) ∷ bodies) cs h =
    append_chunks-Numbered page bodies _ (Numbered-snoc 0 cs _ h (omega arith))

-- The chunks of a document, sections and pages included, are numbered by their positions in it, for
-- a document that is appended to numbered chunks, with and without structure.
pub chunk_sentences-Numbered :
    (re : Patterns) (c : Chunker) (title : Option Text) (sections : List Section) (cs : List Chunk)
    → Numbered 0 cs
    → Numbered 0 (chunk_sentences re c title sections cs)
unfolding chunk_sentences
chunk_sentences-Numbered re c title [] cs h = h
chunk_sentences-Numbered re c title (s ∷ sections) cs h =
    chunk_sentences-Numbered re c title sections _
      (append_chunks-Numbered s.page (with_prefixes c title (pack c (split_units re s.text))) cs h)

-- The levels of the stack, from its top.
abbrev pub Descending : List (ℕ × Text) → Type 0
Descending [] = Unit
Descending ((l, t) ∷ []) = Unit
Descending ((l, t) ∷ (m, u) ∷ stack) = (m < l) × Descending ((m, u) ∷ stack)

Descending-tail :
    (e : ℕ × Text) (stack : List (ℕ × Text)) → Descending (e ∷ stack) → Descending stack
Descending-tail e [] h = tt
Descending-tail e (f ∷ stack) h = h.1

pop_levels-Descending :
    (level : ℕ) (t : Text) (stack : List (ℕ × Text))
    → Descending stack
    → Descending ((level, t) ∷ pop_levels level stack)
unfolding pop_levels
pop_levels-Descending level t [] h = tt
pop_levels-Descending level t ((l, u) ∷ stack) h = elim (Bool-cases (leb level l)) [
  | inl e ↦ rw e (pop_levels-Descending level t stack (Descending-tail (l, u) stack h))
  | inr e ↦ rw e (ground (arith, e), h)
]

add_pieces-stack : (ps : List Text) (b : Bool) (s : Splitting) → (add_pieces ps b s).stack ≡ s.stack
unfolding add_pieces
add_pieces-stack [] b s = refl
add_pieces-stack (p ∷ ps) b s = add_pieces-stack ps b _

module _ (re : Patterns) where
  open re use {heading, standalone}

  add_line-Descending :
      (line : Text) (h : Option (ℕ × Text)) (s : Splitting)
      → Descending s.stack
      → Descending (add_line re line h s).stack
  unfolding add_line start_heading
  add_line-Descending line (some (level, t)) s d =
      rw (add_pieces-stack (t ∷ []) true) (pop_levels-Descending level t s.stack d)
  add_line-Descending line none s d = elim (Bool-cases (not (blank line) && standalone line)) [
    | inl e ↦ rw (e, add_pieces-stack (line ∷ []) false s) d
    | inr e ↦ elim (Bool-cases (blank line)) [ inl f ↦ rw (e, f) d | inr f ↦ rw (e, f) d ]
  ]

  take_line-Descending :
      (l : Text) (s : Splitting) → Descending s.stack → Descending (take_line re l s).stack
  unfolding take_line end_paragraph
  take_line-Descending l s d =
      let line = strip l in
      elim (Bool-cases
        (blank line || is_some (heading line) || (not (blank line) && standalone line))) [
          | inl e ↦ rw e (
              add_line-Descending line (heading line) (end_paragraph re s)
                (rw (add_pieces-stack (sentences re s.paragraph) false s) d))
          | inr e ↦ rw e (add_line-Descending line (heading line) s d)
        ]

  -- In the heading path of every line each heading has a higher level than the one it stands under,
  -- whatever lines came before.
  pub take_lines-Descending :
      (ls : List Text) (s : Splitting) → Descending s.stack → Descending (take_lines re ls s).stack
  unfolding take_lines
  take_lines-Descending [] s d = d
  take_lines-Descending (l ∷ ls) s d =
      take_lines-Descending ls (take_line re l s) (take_line-Descending l s d)
