-- ===== src/Chunking/Packed.antt =====
-- The chunks of `SentenceChunker._pack`: how long they are.
use llm_gateway_rag.Common.{
  ℕ, zero, suc, ◌+◌, ◌-◌, ◌≤◌, ◌≡◌, refl, ap, ◌∙◌, inl, inr, false, not, ◌&&◌, Option, List, [],
  ◌∷◌, ◌++◌, map, length, length-append, All, All-append, arith, ltb, ◌==◌, min, Bool-cases,
}
use llm_gateway_rag.Common.Text.{Text, split, join_words}
use llm_gateway_rag.Common.Words.{
  IsWord, split-append, split-join_words, split-Words, All-take, All-drop,
}
use llm_gateway_rag.Chunking.{
  Passage, Chunker, Packing, words, texts, total_words, join_lines, emit, carry, overlap, reversed,
  is_full, pack_fitting, pack_oversized, break_section, pack_unit, pack_units, pack, cut,
}
use llm_gateway_rag.Chunking.Windows.{cut-Short}

pub words-join_lines : (us : List Passage) → words (join_lines (texts us)) ≡ total_words us
unfolding join_lines split
words-join_lines [] = refl
words-join_lines (u ∷ []) = omega arith
words-join_lines (u ∷ v ∷ us) =
    ap length (split-append u.text 10 (join_lines (texts (v ∷ us))) refl)
    ∙ length-append (split u.text) _
    ∙ ap (λ n. words u.text + n) (words-join_lines (v ∷ us))

total_words-append :
    (us vs : List Passage) → total_words (us ++ vs) ≡ total_words us + total_words vs
total_words-append [] vs = omega arith
total_words-append (u ∷ us) vs = omega (arith, total_words-append us vs)

carry-Short :
    (budget : ℕ) (us carried : List Passage)
    → total_words (carry budget us carried) ≤ budget + total_words carried
unfolding carry
carry-Short budget [] carried = omega arith
carry-Short budget (u ∷ us) carried = elim (Bool-cases (ltb budget (words u.text))) [
  | inl e ↦ rw e (omega arith)
  | inr e ↦ rw e (ground (arith, e, carry-Short (budget - words u.text) us (u ∷ carried)))
]

overlap-Short :
    (c : Chunker) (us : List Passage) (n : ℕ)
    → n ≤ c.max_words
    → total_words (overlap c us n) + n ≤ c.max_words
unfolding overlap
overlap-Short c us n h =
    omega (arith, h, carry-Short (min c.overlap_words (c.max_words - n)) (reversed us []) [])

-- A body of at most `max_words` words.
abbrev pub Short : Chunker → Option Text × Text → Type 0
Short c body = words body.1 ≤ c.max_words

abbrev pub Bounded : Chunker → Packing → Type 0
Bounded c s = All (Short c) s.out × (total_words s.current ≤ c.max_words)

emit-Short : (c : Chunker) (s : Packing) → Bounded c s → All (Short c) (emit s)
unfolding emit
emit-Short c s (h, k) = elim (Bool-cases (s.fresh == 0)) [
  | inl e ↦ rw e h
  | inr e ↦ rw e (All-append (Short c) s.out _ h (omega (arith, k, words-join_lines s.current), tt))
]

cut-Words : (size fuel : ℕ) (ws : List Text) → All IsWord ws → All (All IsWord) (cut size fuel ws)
unfolding cut
cut-Words size zero ws h = tt
cut-Words size (suc fuel) [] h = tt
cut-Words size (suc fuel) (w ∷ ws) h =
    (All-take IsWord size (w ∷ ws) h, cut-Words size fuel _ (All-drop IsWord size (w ∷ ws) h))

pieces-Short :
    (c : Chunker) (u : Passage) (ps : List (List Text))
    → All (All IsWord) ps
    → All (λ p. length p ≤ c.max_words) ps
    → All (Short c) (map (λ p. (u.heading, join_words p)) ps)
pieces-Short c u [] h k = tt
pieces-Short c u (p ∷ ps) h k = (rw (split-join_words p h.0) k.0, pieces-Short c u ps h.1 k.1)

pack_oversized-Bounded :
    (c : Chunker) (u : Passage) (s : Packing) → Bounded c s → Bounded c (pack_oversized c u s)
unfolding pack_oversized
pack_oversized-Bounded c u s h =
    let ws = split u.text in
    (
      All-append (Short c) (emit s) _ (emit-Short c s h) (
          pieces-Short c u _ (cut-Words c.max_words (length ws) ws (split-Words u.text))
            (cut-Short c.max_words (length ws) ws)),
      omega arith,
    )

room_left :
    (c : Chunker) (us : List Passage) (n : ℕ)
    → n ≤ c.max_words
    → is_full c us n ≡ false
    → total_words us + n ≤ c.max_words
room_left c [] n h e = omega (arith, h)
room_left c (u ∷ us) n h e = ground (arith, h, e)

pack_fitting-Bounded :
    (c : Chunker) (u : Passage) (s : Packing)
    → words u.text ≤ c.max_words
    → Bounded c s
    → Bounded c (pack_fitting c u s)
unfolding pack_fitting
pack_fitting-Bounded c u s k h = elim (Bool-cases (is_full c s.current (words u.text))) [
  | inl e ↦ rw e (
    emit-Short c s h,
    omega (
      arith,
      overlap-Short c s.current (words u.text) k,
      total_words-append (overlap c s.current (words u.text)) (u ∷ []),
    ),
  )
  | inr e ↦ rw e (
    h.0,
    omega (arith, room_left c s.current (words u.text) k e, total_words-append s.current (u ∷ [])),
  )
]

break_section-Bounded :
    (c : Chunker) (u : Passage) (s : Packing) → Bounded c s → Bounded c (break_section c u s)
unfolding break_section
break_section-Bounded c u s h =
    elim (Bool-cases (c.structured && u.starts_section && not (length s.current == 0))) [
      | inl e ↦ rw e (emit-Short c s h, omega arith)
      | inr e ↦ rw e h
    ]

pack_unit-Bounded :
    (c : Chunker) (u : Passage) (s : Packing) → Bounded c s → Bounded c (pack_unit c u s)
unfolding pack_unit
pack_unit-Bounded c u s h =
    let s' = break_section c u s in
    let h' = break_section-Bounded c u s h in
    elim (Bool-cases (c.structured && u.is_heading)) [
      | inl e ↦ rw e h'
      | inr e ↦ elim (Bool-cases (ltb c.max_words (words u.text))) [
        | inl f ↦ rw (e, f) (pack_oversized-Bounded c u s' h')
        | inr f ↦ rw (e, f) (pack_fitting-Bounded c u s' (ground (arith, f)) h')
      ]
    ]

pack_units-Bounded :
    (c : Chunker) (us : List Passage) (s : Packing) → Bounded c s → Bounded c (pack_units c us s)
unfolding pack_units
pack_units-Bounded c [] s h = h
pack_units-Bounded c (u ∷ us) s h =
    pack_units-Bounded c us (pack_unit c u s) (pack_unit-Bounded c u s h)

-- Whatever the units of a section are, no body that they are packed into has more than
-- `max_words` words, with headings and overlaps, and with sentences longer than that.
pub pack-Short : (c : Chunker) (us : List Passage) → All (Short c) (pack c us)
unfolding pack
pack-Short c us = emit-Short c _ (pack_units-Bounded c us _ (tt, omega arith))
