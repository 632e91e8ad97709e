-- ===== src/Tests/Chunks.antt =====
-- Chunking on small texts.
use llm_gateway_rag.Common.{
  ℕ, ◌-◌, ◌≤◌, ◌≡◌, false, true, none, some, List, [], ◌∷◌, All, length, arith,
}
use llm_gateway_rag.Common.Text.{Text}
use llm_gateway_rag.Chunking.{Section, Passage, Chunker, windows, pack}
use llm_gateway_rag.Chunking.Windows.{stitch, stitch-windows}
use llm_gateway_rag.Chunking.Packed.{Short, pack-Short}
use llm_gateway_rag.Chunking.Units.{Patterns, Splitting}

-- two words, one letter each
abbrev pair : Text
pair = 97 ∷ 32 ∷ 98 ∷ []

abbrev three : Text
three = 97 ∷ 32 ∷ 98 ∷ 32 ∷ 99 ∷ []

abbrev small : Chunker
small = record { max_words = 2; overlap_words = 1; structured = true }

abbrev unit_of : Text → Passage
unit_of t = record { text = t; heading = none; starts_section = false; is_heading = false }

-- no line is a heading, and a paragraph is one sentence
abbrev plain : Patterns
plain = record { heading = λ t. none; standalone = λ t. false; split_sentences = λ t. t ∷ [] }

abbrev five : List ℕ
five = 1 ∷ 2 ∷ 3 ∷ 4 ∷ 5 ∷ []

stitch-windows_example :
    (stitch (3 - 2) (windows 3 2 5 five) ≡ five)
    × All (λ w. (1 ≤ length w) × (length w ≤ 3)) (windows 3 2 5 five)
stitch-windows_example = stitch-windows 3 2 5 five (omega arith) (omega arith) (omega arith)

pack-Short_example : All (Short small) (pack small (unit_of pair ∷ unit_of three ∷ []))
pack-Short_example = pack-Short small (unit_of pair ∷ unit_of three ∷ [])

abbrev page : Section
page = record { text = three; page = some 1 }

abbrev started : Splitting
started = record { units = []; stack = (1, pair) ∷ []; pending = true; paragraph = [] }
