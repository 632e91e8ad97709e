-- ===== src/SemanticCache/BruteForce.antt =====
-- `BruteForceIndex` of app/cache/semantic_cache.py: the dot product with every entry of a namespace.
use llm_gateway_rag.Common.{
  ℕ, ◌≡◌, ◌⊎◌, inl, inr, refl, String, Option, none, some, List, [], ◌∷◌, map, All, Bool-cases,
  if◌then◌else◌,
}
use mathlib.Core.Path.{subst, sym, ◌∙◌}
use llm_gateway_rag.Common.Int.{ℤ, ltb_ℤ, ◌≤ℤ◌, int_laws, ltb_ℤ→≤ℤ, ltb_ℤ-false, ≤ℤ-trans}
use llm_gateway_rag.Common.Fallible.{Fallible, pure, ◌>>=◌, ◌>>◌, proceed-done, done_injective}
use llm_gateway_rag.SemanticCache.{CacheKey, CacheServices, Index}

module _ (v : CacheServices) where
  open v use {State, Vector, dot, zrevrange, get_vectors, zrem}

  -- the ids whose entries are still there, with their vectors, and the others
  unfoldable pub live : List String → List (Option Vector) → List (String × Vector)
  live (i ∷ is) (some x ∷ xs) = (i, x) ∷ live is xs
  live (i ∷ is) (none ∷ xs) = live is xs
  live _ _ = []

  unfoldable pub expired : List String → List (Option Vector) → List String
  expired (i ∷ is) (some x ∷ xs) = expired is xs
  expired (i ∷ is) (none ∷ xs) = i ∷ expired is xs
  expired _ _ = []

  -- `np.argmax`: the first of the largest
  unfoldable pub argmax : Vector → String × ℤ → List (String × Vector) → String × ℤ
  argmax vec best [] = best
  argmax vec (i, s) ((j, x) ∷ entries) =
      if ltb_ℤ s (dot x vec) then argmax vec (j, dot x vec) entries else argmax vec (i, s) entries

  unfoldable pub best_of : String → Vector → List (String × Vector) → Option (CacheKey × ℤ)
  best_of ns vec [] = none
  best_of ns vec ((i, x) ∷ entries) =
      let (j, s) = argmax vec (i, dot x vec) entries in some (CacheKey.entry ns j, s)

  -- `if expired := ...: await self._redis.zrem(...)`
  unfoldable pub drop_expired : String → List String → State → Fallible (Unit {0}) × State
  drop_expired ns [] = pure tt
  drop_expired ns (i ∷ is) = zrem (CacheKey.recency ns) (i ∷ is)

  unfoldable pub nearest_of :
      String → Vector → List String → State → Fallible (Option (CacheKey × ℤ)) × State
  nearest_of ns vec [] = pure none
  nearest_of ns vec (i ∷ is) = do
    raw ← get_vectors (map (CacheKey.entry ns) (i ∷ is))
    drop_expired ns (expired (i ∷ is) raw)
    pure (best_of ns vec (live (i ∷ is) raw))

  -- `nearest`
  unfoldable pub brute_force : ℕ → Index v
  brute_force max_entries ns vec = do
    ids ← zrevrange (CacheKey.recency ns) max_entries
    nearest_of ns vec ids

  abbrev pub Member : String → Vector → List (String × Vector) → Type 0
  Member i x [] = ⊥
  Member i x ((j, y) ∷ entries) = ((i ≡ j) × (x ≡ y)) ⊎ Member i x entries

  -- The largest dot product, of an entry that has it.
  abbrev pub Best : Vector → List (String × Vector) → String × ℤ → Type 0
  Best vec entries (j, s) =
      ((x : Vector) × Member j x entries × (s ≡ dot x vec))
      × All (λ (e : String × Vector). dot e.1 vec ≤ℤ s) entries

  argmax-step :
      (vec y : Vector) (best : String × ℤ) (j : String) (entries : List (String × Vector))
      → argmax vec best ((j, y) ∷ entries)
        ≡ argmax vec (if ltb_ℤ best.1 (dot y vec) then (j, dot y vec) else best) entries
  unfolding argmax
  argmax-step vec y best j entries = elim (Bool-cases (ltb_ℤ best.1 (dot y vec))) [
    | inl e ↦ rw e refl
    | inr e ↦ rw e refl
  ]

  argmax-empty : (vec : Vector) (best : String × ℤ) → argmax vec best [] ≡ best
  unfolding argmax
  argmax-empty vec best = refl

  argmax-Best :
      (vec x : Vector) (i : String) (entries : List (String × Vector))
      → Best vec ((i, x) ∷ entries) (argmax vec (i, dot x vec) entries)
  argmax-Best vec x i [] =
      subst (Best vec ((i, x) ∷ [])) (sym (argmax-empty vec (i, dot x vec)))
        ((x, inl (refl, refl), refl), (omega int_laws, tt))
  argmax-Best vec x i ((j, y) ∷ entries) = elim (Bool-cases (ltb_ℤ (dot x vec) (dot y vec))) [
    | inl e ↦
        subst (Best vec ((i, x) ∷ (j, y) ∷ entries))
          (sym (argmax-step vec y (i, dot x vec) j entries ∙ rw e refl))
          (let ((z, m, p), (first, rest)) = argmax-Best vec y j entries in
            (
              (z, inr m, p),
              (
                ≤ℤ-trans (dot x vec) (dot y vec) (argmax vec (j, dot y vec) entries).1
                    (ltb_ℤ→≤ℤ (dot x vec) (dot y vec) e) first,
                (first, rest),
              ),
            ))
    | inr e ↦
        subst (Best vec ((i, x) ∷ (j, y) ∷ entries))
          (sym (argmax-step vec y (i, dot x vec) j entries ∙ rw e refl))
          (let ((z, m, p), (first, rest)) = argmax-Best vec x i entries in
            (
              (z, skip_second m, p),
              (
                first,
                (
                  ≤ℤ-trans (dot y vec) (dot x vec) (argmax vec (i, dot x vec) entries).1
                      (ltb_ℤ-false (dot x vec) (dot y vec) e) first,
                  rest,
                ),
              ),
            ))
  ]
    where
      skip_second :
          {k : String} {z : Vector}
          → Member k z ((i, x) ∷ entries)
          → Member k z ((i, x) ∷ (j, y) ∷ entries)
      skip_second (inl p) = inl p
      skip_second (inr m) = inr (inr m)

  -- What the index answers for the live entries of a namespace.
  abbrev pub Nearest : String → Vector → List (String × Vector) → Option (CacheKey × ℤ) → Type 0
  Nearest ns vec entries none = entries ≡ []
  Nearest ns vec entries (some (key, s)) =
      (i : String) × (key ≡ CacheKey.entry ns i) × Best vec entries (i, s)

  best_of-Nearest :
      (ns : String) (vec : Vector) (entries : List (String × Vector))
      → Nearest ns vec entries (best_of ns vec entries)
  unfolding best_of
  best_of-Nearest ns vec [] = refl
  best_of-Nearest ns vec ((i, x) ∷ entries) =
      ((argmax vec (i, dot x vec) entries).0, refl, argmax-Best vec x i entries)

  -- What an answer of the index stands for: the ids that were read, and the vectors of their entries.
  abbrev pub Answers : ℕ → String → Vector → State → Option (CacheKey × ℤ) → Type 0
  Answers n ns vec s r =
      (ids : List String) × ((zrevrange (CacheKey.recency ns) n s).0 ≡ Fallible.done ids)
      × (((ids ≡ []) × (r ≡ none))
          ⊎ ((raw : List (Option Vector)) × ((get_vectors (map (CacheKey.entry ns) ids)
                  (zrevrange (CacheKey.recency ns) n s).1).0
                ≡ Fallible.done raw)
              × Nearest ns vec (live ids raw) r))

  nearest_of-Answers :
      (n : ℕ) (ns : String) (vec : Vector) (s : State) (ids : List String)
      (r : Option (CacheKey × ℤ))
      → (zrevrange (CacheKey.recency ns) n s).0 ≡ Fallible.done ids
      → (nearest_of ns vec ids (zrevrange (CacheKey.recency ns) n s).1).0 ≡ Fallible.done r
      → Answers n ns vec s r
  unfolding nearest_of
  nearest_of-Answers n ns vec s [] r h e = ([], h, inl (refl, cc))
  nearest_of-Answers n ns vec s (i ∷ is) r h e =
      let (raw, hr, e') =
        proceed-done
          (λ raw.
            drop_expired ns (expired (i ∷ is) raw) >> pure (best_of ns vec (live (i ∷ is) raw)))
          (get_vectors (map (CacheKey.entry ns) (i ∷ is)) (zrevrange (CacheKey.recency ns) n s).1).0
          _ e in
      let (u, hu, e'') =
        proceed-done (λ u. pure (best_of ns vec (live (i ∷ is) raw)))
          (drop_expired ns (expired (i ∷ is) raw) _).0 _ e' in
      (
        i ∷ is,
        h,
        inr (
          raw,
          hr,
          subst (Nearest ns vec (live (i ∷ is) raw)) (done_injective e'')
              (best_of-Nearest ns vec (live (i ∷ is) raw)),
        ),
      )

  -- When the brute-force index answers, it read the newest ids of the namespace, and answers nothing
  -- if there were none or no entry is still there, else the key and the similarity of an entry of the
  -- namespace whose dot product with the vector is the largest of all that are there.
  pub brute_force-Answers :
      (n : ℕ) (ns : String) (vec : Vector) (s : State) (r : Option (CacheKey × ℤ))
      → (brute_force n ns vec s).0 ≡ Fallible.done r
      → Answers n ns vec s r
  unfolding brute_force
  brute_force-Answers n ns vec s r e =
      let (ids, h, e') =
        proceed-done (nearest_of ns vec) (zrevrange (CacheKey.recency ns) n s).0
          (zrevrange (CacheKey.recency ns) n s).1 e in
      nearest_of-Answers n ns vec s ids r h e'
