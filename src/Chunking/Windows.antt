-- ===== src/Chunking/Windows.antt =====
-- The windows of `FixedWindowChunker`, and the pieces of a sentence that is too long for a chunk.
use llm_gateway_rag.Common.{
  ℕ, zero, suc, ◌+◌, ◌-◌, ◌≤◌, ◌≡◌, refl, sym, ap, ◌∙◌, inl, inr, List, [], ◌∷◌, ◌++◌, length, take,
  drop, All, length-take, length-drop, take-append-drop, arith, leb, Bool-cases,
}
use llm_gateway_rag.Chunking.{windows, cut}

module _ {ℓ} {A : Type ℓ} where
  -- The windows put together again, the words that each shares with the one before left out.
  unfoldable pub stitch : ℕ → List (List A) → List A
  stitch shared [] = []
  stitch shared (w ∷ ws) = w ++ drop shared (stitch shared ws)

  drop_nil : (n : ℕ) → drop {A = A} n [] ≡ []
  drop_nil zero = refl
  drop_nil (suc n) = refl

  drop-drop : (m n : ℕ) (xs : List A) → drop m (drop n xs) ≡ drop (n + m) xs
  drop-drop m zero xs = ap (λ k. drop k xs) (omega arith)
  drop-drop m (suc n) [] = drop_nil m ∙ sym (drop_nil (suc n + m))
  drop-drop m (suc n) (x ∷ xs) = drop-drop m n xs ∙ ap (λ k. drop k (x ∷ xs)) (next n m)
    where
      next : (n m : ℕ) → suc (n + m) ≡ suc n + m
      next n m = omega arith

  take_all : (n k : ℕ) (xs : List A) → length xs ≤ n → take n xs ++ drop k [] ≡ xs
  take_all zero zero [] h = refl
  take_all zero (suc k) [] h = refl
  take_all zero k (x ∷ xs) h = absurd (omega arith)
  take_all (suc n) zero [] h = refl
  take_all (suc n) (suc k) [] h = refl
  take_all (suc n) k (x ∷ xs) h = ap (λ r. x ∷ r) (take_all n k xs (omega arith))

  -- The words of a section, put together again from its windows, are all its words in order, and
  -- no window is empty or has more than `size` words, for windows that do not leave gaps and any
  -- fuel from the number of words on.
  pub stitch-windows :
      (size step fuel : ℕ) (ws : List A)
      → 1 ≤ step
      → step ≤ size
      → length ws ≤ fuel
      → (stitch (size - step) (windows size step fuel ws) ≡ ws)
        × All (λ w. (1 ≤ length w) × (length w ≤ size)) (windows size step fuel ws)
  unfolding windows stitch
  stitch-windows size step zero [] h k f = (refl, tt)
  stitch-windows size step zero (w ∷ ws) h k f = absurd (omega arith)
  stitch-windows size step (suc fuel) [] h k f = (refl, tt)
  stitch-windows size step (suc fuel) (w ∷ ws) h k f =
      let xs = w ∷ ws in
      let fits : (1 ≤ length (take size xs)) × (length (take size xs) ≤ size) =
        (omega (arith, length-take size xs), omega (arith, length-take size xs)) in
      let (joined, sizes) =
        stitch-windows size step fuel (drop step xs) h k (omega (arith, length-drop step xs)) in
      elim (Bool-cases (leb (length xs) size)) [
        | inl e ↦ rw e (take_all size (size - step) xs (ground (arith, e)), (fits, tt))
        | inr e ↦ rw e (
          ap (λ r. take size xs ++ drop (size - step) r) joined
              ∙ ap (λ r. take size xs ++ r) (drop-drop (size - step) step xs)
              ∙ ap (λ n. take size xs ++ drop n xs) (omega arith)
              ∙ take-append-drop size xs,
          (fits, sizes),
        )
      ]

  pub cut-Short : (size fuel : ℕ) (ws : List A) → All (λ w. length w ≤ size) (cut size fuel ws)
  unfolding cut
  cut-Short size zero ws = tt
  cut-Short size (suc fuel) [] = tt
  cut-Short size (suc fuel) (w ∷ ws) =
      (omega (arith, length-take size (w ∷ ws)), cut-Short size fuel (drop size (w ∷ ws)))
