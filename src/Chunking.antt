-- ===== src/Chunking.antt =====
-- Splitting documents into chunks, app/rag/chunking.py. The regular expressions of the module are
-- parameters: what they match is given by Python's `re`.
pub mod Windows
pub mod Packed
pub mod Fixed
pub mod Units
pub mod Placed
use llm_gateway_rag.Common.{
  ℕ, zero, suc, ◌+◌, ◌-◌, Bool, true, false, ◌&&◌, ◌||◌, not, Option, none, some, List, [], ◌∷◌,
  ◌++◌, length, take, drop, leb, ltb, ◌==◌, min, if◌then◌else◌, map,
}
use llm_gateway_rag.Common.Text.{Text, split, join_words}

pub record Section : Type 0 where
  pub text : Text
  pub page : Option ℕ

pub record Chunk : Type 0 where
  pub index : ℕ
  pub text : Text
  pub page : Option ℕ
  pub heading : Option Text

-- `_Unit`
pub record Passage : Type 0 where
  pub text : Text
  pub heading : Option Text
  pub starts_section : Bool
  pub is_heading : Bool

pub record Chunker : Type 0 where
  pub max_words : ℕ
  pub overlap_words : ℕ
  pub structured : Bool

-- `__init__` of both chunkers; `none` is the `ValueError`
unfoldable pub chunker : ℕ → ℕ → Bool → Option Chunker
chunker max_words overlap_words structured =
    if leb max_words 0 || not (ltb overlap_words max_words)
    then none
    else some
        (record { max_words = max_words; overlap_words = overlap_words; structured = structured })

-- `_words`
abbrev pub words : Text → ℕ
words t = length (split t)

-- The windows of the words that are left, `step` words apart, until one reaches the end. The fuel
-- is the number of words.
unfoldable pub windows {ℓ} : {A : Type ℓ} → ℕ → ℕ → ℕ → List A → List (List A)
windows size step zero ws = []
windows size step (suc fuel) [] = []
windows size step (suc fuel) (w ∷ ws) =
    let rest = windows size step fuel (drop step (w ∷ ws)) in
    take size (w ∷ ws) ∷ (if leb (length (w ∷ ws)) size then [] else rest)

-- `range(0, len(words), max_words)`: windows that do not overlap, to the last word
unfoldable pub cut {ℓ} : {A : Type ℓ} → ℕ → ℕ → List A → List (List A)
cut size zero ws = []
cut size (suc fuel) [] = []
cut size (suc fuel) (w ∷ ws) = take size (w ∷ ws) ∷ cut size fuel (drop size (w ∷ ws))

-- appends chunks, each with the length of the list so far as its index
unfoldable pub append_chunks : Option ℕ → List (Option Text × Text) → List Chunk → List Chunk
append_chunks page [] chunks = chunks
append_chunks page ((heading, text) ∷ bodies) chunks =
    append_chunks page bodies
      (chunks ++ record { index = length chunks; text = text; page = page; heading = heading } ∷ [])

-- `FixedWindowChunker.chunk`
unfoldable pub chunk_fixed : Chunker → List Section → List Chunk → List Chunk
chunk_fixed c [] chunks = chunks
chunk_fixed c (section ∷ sections) chunks =
    let ws = split section.text in
    let bodies = windows c.max_words (c.max_words - c.overlap_words) (length ws) ws in
    chunk_fixed c sections
      (append_chunks section.page (map (λ w. (none, join_words w)) bodies) chunks)

-- "\n".join(texts)
unfoldable pub join_lines : List Text → Text
join_lines [] = []
join_lines (t ∷ []) = t
join_lines (t ∷ u ∷ ts) = t ++ 10 ∷ join_lines (u ∷ ts)

abbrev pub texts : List Passage → List Text
texts = map (λ u. u.text)

abbrev pub total_words : List Passage → ℕ
total_words [] = 0
total_words (u ∷ us) = words u.text + total_words us

-- The variables of `_pack`.
pub record Packing : Type 0 where
  pub out : List (Option Text × Text)
  pub current : List Passage
  pub fresh : ℕ

-- the heading of the first of the fresh units; past the end the source would raise
abbrev pub heading_of : List Passage → Option Text
heading_of [] = none
heading_of (u ∷ us) = u.heading

unfoldable pub emit : Packing → List (Option Text × Text)
emit s =
    if s.fresh == 0
    then s.out
    else s.out
      ++ (heading_of (drop (length s.current - s.fresh) s.current), join_lines (texts s.current))
        ∷ []

-- the loop of `_overlap`, over the reversed units
unfoldable pub carry : ℕ → List Passage → List Passage → List Passage
carry budget [] carried = carried
carry budget (u ∷ us) carried =
    let more = carry (budget - words u.text) us (u ∷ carried) in
    if ltb budget (words u.text) then carried else more

abbrev pub reversed : List Passage → List Passage → List Passage
reversed [] done = done
reversed (u ∷ us) done = reversed us (u ∷ done)

-- `_overlap`; `incoming` is at most `max_words` where it is called
unfoldable pub overlap : Chunker → List Passage → ℕ → List Passage
unfolding carry
overlap c previous incoming =
    carry (min c.overlap_words (c.max_words - incoming)) (reversed previous []) []

-- `current and sum(...) + size > self.max_words`
abbrev pub is_full : Chunker → List Passage → ℕ → Bool
is_full c us size = not (length us == 0) && ltb c.max_words (total_words us + size)

abbrev pub next_chunk : Chunker → Passage → Packing → Packing
next_chunk c u s = record {
  out = emit s;
  current = overlap c s.current (words u.text) ++ u ∷ [];
  fresh = 1;
}

abbrev pub same_chunk : Passage → Packing → Packing
same_chunk u s = record s { current = s.current ++ u ∷ []; fresh = s.fresh + 1 }

-- a unit that fits in a chunk
unfoldable pub pack_fitting : Chunker → Passage → Packing → Packing
pack_fitting c u s = if is_full c s.current (words u.text) then next_chunk c u s else same_chunk u s

unfoldable pub pack_oversized : Chunker → Passage → Packing → Packing
pack_oversized c u s =
    let ws = split u.text in
    record {
      out = emit s ++ map (λ p. (u.heading, join_words p)) (cut c.max_words (length ws) ws);
      current = [];
      fresh = 0;
    }

unfoldable pub break_section : Chunker → Passage → Packing → Packing
break_section c u s =
    if c.structured && u.starts_section && not (length s.current == 0)
    then record { out = emit s; current = []; fresh = 0 }
    else s

-- the body of the loop over the units
unfoldable pub pack_unit : Chunker → Passage → Packing → Packing
pack_unit c u s =
    let s' = break_section c u s in
    if c.structured && u.is_heading
    then s'
    else if ltb c.max_words (words u.text)
    then pack_oversized c u s'
    else pack_fitting c u s'

unfoldable pub pack_units : Chunker → List Passage → Packing → Packing
pack_units c [] s = s
pack_units c (u ∷ us) s = pack_units c us (pack_unit c u s)

-- `_pack`
unfoldable pub pack : Chunker → List Passage → List (Option Text × Text)
pack c us = emit (pack_units c us (record { out = []; current = []; fresh = 0 }))
