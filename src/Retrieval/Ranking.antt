-- ===== src/Retrieval/Ranking.antt =====
-- The order of reranked passages, app/rag/retrieval.py.
use llm_gateway_rag.Common.{
  ◌≡◌, refl, sym, true, false, List, [], ◌∷◌, All, All-mono, Bool-cases, inl, inr,
}
use mathlib.Core.Path.{subst}
use mathlib.Core.List.{Permᴰ}
use llm_gateway_rag.Common.Int.{ℤ, leb_ℤ, ◌≤ℤ◌, ≤ℤ-trans, leb_ℤ→≤ℤ, leb_ℤ-false}
use llm_gateway_rag.Retrieval.{StoredChunk, insert_ranked, rank}

-- The scores never rise.
abbrev pub IsRanked : List (StoredChunk × ℤ) → Type 0
IsRanked [] = Unit
IsRanked (p ∷ ps) = All (λ (q : StoredChunk × ℤ). q.1 ≤ℤ p.1) ps × IsRanked ps

insert_ranked-here :
    (p q : StoredChunk × ℤ) (qs : List (StoredChunk × ℤ))
    → leb_ℤ q.1 p.1 ≡ true
    → insert_ranked p (q ∷ qs) ≡ p ∷ q ∷ qs
unfolding insert_ranked
insert_ranked-here p q qs e = rw e refl

insert_ranked-past :
    (p q : StoredChunk × ℤ) (qs : List (StoredChunk × ℤ))
    → leb_ℤ q.1 p.1 ≡ false
    → insert_ranked p (q ∷ qs) ≡ q ∷ insert_ranked p qs
unfolding insert_ranked
insert_ranked-past p q qs e = rw e refl

insert_ranked-empty : (p : StoredChunk × ℤ) → insert_ranked p [] ≡ p ∷ []
unfolding insert_ranked
insert_ranked-empty p = refl

insert_ranked-All :
    (P : StoredChunk × ℤ → Type 0) (p : StoredChunk × ℤ) (qs : List (StoredChunk × ℤ))
    → P p
    → All P qs
    → All P (insert_ranked p qs)
insert_ranked-All P p [] hp h = subst (All P) (sym (insert_ranked-empty p)) (hp, tt)
insert_ranked-All P p (q ∷ qs) hp h = elim (Bool-cases (leb_ℤ q.1 p.1)) [
  | inl e ↦ subst (All P) (sym (insert_ranked-here p q qs e)) (hp, h)
  | inr e ↦ subst (All P) (sym (insert_ranked-past p q qs e)) (h.0, insert_ranked-All P p qs hp h.1)
]

insert_ranked-IsRanked :
    (p : StoredChunk × ℤ) (qs : List (StoredChunk × ℤ))
    → IsRanked qs
    → IsRanked (insert_ranked p qs)
insert_ranked-IsRanked p [] h = subst IsRanked (sym (insert_ranked-empty p)) (tt, tt)
insert_ranked-IsRanked p (q ∷ qs) h = elim (Bool-cases (leb_ℤ q.1 p.1)) [
  | inl e ↦
      let le = leb_ℤ→≤ℤ q.1 p.1 e in
      subst IsRanked (sym (insert_ranked-here p q qs e)) (
        (
          le,
          All-mono (λ (x : StoredChunk × ℤ). x.1 ≤ℤ q.1) (λ (x : StoredChunk × ℤ). x.1 ≤ℤ p.1)
              (λ x below. ≤ℤ-trans x.1 q.1 p.1 below le) qs h.0,
        ),
        h,
      )
  | inr e ↦ subst IsRanked (sym (insert_ranked-past p q qs e)) (
    insert_ranked-All (λ (x : StoredChunk × ℤ). x.1 ≤ℤ q.1) p qs (leb_ℤ-false q.1 p.1 e) h.0,
    insert_ranked-IsRanked p qs h.1,
  )
]

pub rank-IsRanked : (ps : List (StoredChunk × ℤ)) → IsRanked (rank ps)
unfolding rank
rank-IsRanked [] = tt
rank-IsRanked (p ∷ ps) = insert_ranked-IsRanked p (rank ps) (rank-IsRanked ps)

perm_refl : (ps : List (StoredChunk × ℤ)) → Permᴰ ps ps
perm_refl [] = Permᴰ.nil
perm_refl (p ∷ ps) = Permᴰ.cons refl (perm_refl ps)

insert_ranked_permutes :
    (p : StoredChunk × ℤ) (qs : List (StoredChunk × ℤ)) → Permᴰ (p ∷ qs) (insert_ranked p qs)
insert_ranked_permutes p [] =
    subst (Permᴰ (p ∷ [])) (sym (insert_ranked-empty p)) (Permᴰ.cons refl Permᴰ.nil)
insert_ranked_permutes p (q ∷ qs) = elim (Bool-cases (leb_ℤ q.1 p.1)) [
  | inl e ↦ subst (Permᴰ (p ∷ q ∷ qs)) (sym (insert_ranked-here p q qs e)) (perm_refl (p ∷ q ∷ qs))
  | inr e ↦
      subst (Permᴰ (p ∷ q ∷ qs)) (sym (insert_ranked-past p q qs e))
        (Permᴰ.trans (Permᴰ.swap refl refl) (Permᴰ.cons refl (insert_ranked_permutes p qs)))
]

pub rank_permutes : (ps : List (StoredChunk × ℤ)) → Permᴰ ps (rank ps)
unfolding rank
rank_permutes [] = Permᴰ.nil
rank_permutes (p ∷ ps) =
    Permᴰ.trans (Permᴰ.cons refl (rank_permutes ps)) (insert_ranked_permutes p (rank ps))
