-- ===== src/Chunking/Units.antt =====
-- `_split_units` of app/rag/chunking.py, the sentence chunker around `_pack`, and `_context_prefix`.
use llm_gateway_rag.Common.{
  ℕ, Bool, true, false, ◌||◌, ◌&&◌, not, Option, none, some, List, [], ◌∷◌, ◌++◌, is_some, leb,
  ◌==◌, if◌then◌else◌,
}
use llm_gateway_rag.Common.Text.{Text, is_space, join_words}
use llm_gateway_rag.Chunking.{Section, Chunk, Passage, Chunker, pack, append_chunks}

-- What the module's regular expressions do: the level and the text of a Markdown heading, whether a
-- line is a list item or a table row, and the split of a paragraph after its sentences.
pub record Patterns : Type 0 where
  pub heading : Text → Option (ℕ × Text)
  pub standalone : Text → Bool
  pub split_sentences : Text → List Text

-- `text.lstrip()`
abbrev pub strip_left : Text → Text
strip_left [] = []
strip_left (c ∷ t) = let rest = strip_left t in if is_space c then rest else c ∷ t

abbrev pub reversed_text : Text → Text → Text
reversed_text [] done = done
reversed_text (c ∷ t) done = reversed_text t (c ∷ done)

-- `text.strip()`
abbrev pub strip : Text → Text
strip t = reversed_text (strip_left (reversed_text (strip_left t) [])) []

abbrev pub line_start : Text → List Text → List Text
line_start w [] = w ∷ []
line_start w (l ∷ ls) = (w ++ l) ∷ ls

-- `text.split("\n")`
unfoldable pub lines : Text → List Text
lines [] = [] ∷ []
lines (c ∷ t) = if c == 10 then [] ∷ lines t else line_start (c ∷ []) (lines t)

abbrev pub blank : Text → Bool
blank [] = true
blank (c ∷ t) = false

-- " > ".join(texts)
abbrev pub join_path : List Text → Text
join_path [] = []
join_path (t ∷ []) = t
join_path (t ∷ u ∷ ts) = t ++ 32 ∷ 62 ∷ 32 ∷ join_path (u ∷ ts)

-- `[s.strip() for s in pieces if s.strip()]`
abbrev pub stripped : List Text → List Text
stripped [] = []
stripped (s ∷ ss) = if blank (strip s) then stripped ss else strip s ∷ stripped ss

-- The variables of `_split_units`; the heading stack has its top first.
pub record Splitting : Type 0 where
  pub units : List Passage
  pub stack : List (ℕ × Text)
  pub pending : Bool
  pub paragraph : List Text

abbrev pub stack_texts : List (ℕ × Text) → List Text → List Text
stack_texts [] done = done
stack_texts ((level, t) ∷ stack) done = stack_texts stack (t ∷ done)

abbrev pub path_of : List (ℕ × Text) → Option Text
path_of stack =
    let path = join_path (stack_texts stack []) in if blank path then none else some path

-- `add`
unfoldable pub add_pieces : List Text → Bool → Splitting → Splitting
add_pieces [] is_heading s = s
add_pieces (piece ∷ pieces) is_heading s = add_pieces pieces is_heading (record s {
  units =
      s.units
      ++ record {
        text = piece;
        heading = path_of s.stack;
        starts_section = s.pending;
        is_heading = is_heading;
      }
        ∷ [];
  pending = false;
})

-- `while stack and stack[-1][0] >= level: stack.pop()`
unfoldable pub pop_levels : ℕ → List (ℕ × Text) → List (ℕ × Text)
pop_levels level [] = []
pop_levels level ((l, t) ∷ stack) =
    let rest = pop_levels level stack in if leb level l then rest else (l, t) ∷ stack

module _ (re : Patterns) where
  open re use {heading, standalone, split_sentences}

  -- `_sentences`
  abbrev pub sentences : List Text → List Text
  sentences paragraph = stripped (split_sentences (join_words paragraph))

  unfoldable pub end_paragraph : Splitting → Splitting
  unfolding add_pieces
  end_paragraph s = record (add_pieces (sentences s.paragraph) false s) { paragraph = [] }

  unfoldable pub start_heading : ℕ → Text → Splitting → Splitting
  start_heading level t s =
      add_pieces (t ∷ []) true
        (record s { stack = (level, t) ∷ pop_levels level s.stack; pending = true })

  unfoldable pub add_line : Text → Option (ℕ × Text) → Splitting → Splitting
  add_line line (some (level, t)) s = start_heading level t s
  add_line line none s =
      if not (blank line) && standalone line
      then add_pieces (line ∷ []) false s
      else if blank line
      then s
      else record s { paragraph = s.paragraph ++ line ∷ [] }

  -- the body of the loop over the lines
  unfoldable pub take_line : Text → Splitting → Splitting
  take_line raw_line s =
      let line = strip raw_line in
      let ends = blank line || is_some (heading line) || (not (blank line) && standalone line) in
      add_line line (heading line) (if ends then end_paragraph s else s)

  unfoldable pub take_lines : List Text → Splitting → Splitting
  take_lines [] s = s
  take_lines (l ∷ ls) s = take_lines ls (take_line l s)

  -- `_split_units`
  unfoldable pub split_units : Text → List Passage
  split_units text =
      let s =
        take_lines (lines text)
          (record { units = []; stack = []; pending = false; paragraph = [] }) in
      (add_pieces (sentences s.paragraph) false s).units

abbrev pub starts_separator : Text → Bool
starts_separator (c ∷ d ∷ e ∷ t) = c == 32 && d == 62 && e == 32
starts_separator _ = false

-- `heading.split(" > ")[0]`
unfoldable pub top_heading : Text → Text
top_heading [] = []
top_heading (c ∷ t) = let rest = top_heading t in if starts_separator (c ∷ t) then [] else c ∷ rest

-- `if p` of an optional text
abbrev pub non_blank : Option Text → List Text
non_blank none = []
non_blank (some t) = if blank t then [] else t ∷ []

abbrev pub same_text : Text → Text → Bool
same_text [] [] = true
same_text (c ∷ s) (d ∷ t) = c == d && same_text s t
same_text _ _ = false

unfoldable pub repeats_title : Option Text → Option Text → Bool
repeats_title (some title) (some heading) =
    not (blank title) && not (blank heading) && same_text (top_heading heading) title
repeats_title _ _ = false

-- `_context_prefix`
unfoldable pub context_prefix : Option Text → Option Text → Text
context_prefix title heading =
    join_path ((if repeats_title title heading then [] else non_blank title) ++ non_blank heading)

-- the text of a chunk, with the prefix of a structured one
unfoldable pub with_prefix : Chunker → Option Text → Option Text × Text → Option Text × Text
with_prefix c title (heading, body) =
    let prefix = if c.structured then context_prefix title heading else [] in
    (heading, if blank prefix then body else prefix ++ 10 ∷ body)

abbrev pub with_prefixes :
    Chunker → Option Text → List (Option Text × Text) → List (Option Text × Text)
with_prefixes c title [] = []
with_prefixes c title (b ∷ bs) = with_prefix c title b ∷ with_prefixes c title bs

-- `SentenceChunker.chunk`
unfoldable pub chunk_sentences :
    Patterns → Chunker → Option Text → List Section → List Chunk → List Chunk
chunk_sentences re c title [] chunks = chunks
chunk_sentences re c title (section ∷ sections) chunks =
    let bodies = pack c (split_units re section.text) in
    chunk_sentences re c title sections
      (append_chunks section.page (with_prefixes c title bodies) chunks)
