-- ===== src/Agents/Research/Moves.antt =====
-- Where the nodes of the research graph move, and what they make of the revisions that are left.
use llm_gateway_rag.Common.{
  ℕ, ◌+◌, ◌<◌, ◌≡◌, ◌⊎◌, inl, inr, refl, String, Bool, List, [], ◌∷◌, take, length, ◌==◌, leb,
  Bool-cases, arith,
}
use llm_gateway_rag.Common.Text.{Text}
use llm_gateway_rag.Agents.{Decision, end}
use llm_gateway_rag.Agents.State.{
  Services, ResearchState, Note, Fault, Hit, Answer, ChatReply, sort_hits,
}
use llm_gateway_rag.Agents.Nodes.{
  after_reply, ask, plan_with, after_plan, plan, after_search, settle_hits, retrieve, after_draft,
  draft, judge, after_critique, critique, after_revise, revise, approves, issues_of, not_an_answer,
}

module _ (v : Services) (nothing : Text) where
  open v use {State, Principal, splitlines}

  abbrev pub Situation : Type 0
  Situation = ResearchState Principal × State

  -- The revisions that are left, as the node leaves them.
  abbrev pub Keeps : ResearchState Principal → ResearchState Principal → Type 0
  Keeps s s' = (s'.revisions ≡ s.revisions) × (s'.max_revisions ≡ s.max_revisions)

  -- A node that moves, moves as the predicate says.
  abbrev pub Moves :
      (String → ResearchState Principal → Type 0) → Decision Note Fault × Situation → Type 0
  Moves P (Decision.raises f, sw) = Unit
  Moves P (Decision.move d, (s, w)) = P d.node s

  abbrev pub Stays : ResearchState Principal → Answer (Text × Bool) × Situation → Type 0
  Stays s (r, (s', w)) = Keeps s s'

  after_reply-Stays :
      (s : ResearchState Principal) (w : State) (r : Answer ChatReply) (w' : State)
      → Stays s (after_reply v nothing (s, w) (r, w'))
  unfolding after_reply
  after_reply-Stays s w (Answer.fault f) w' = (refl, refl)
  after_reply-Stays s w (Answer.given r) w' = (refl, refl)

  ask-Stays :
      (n : ℕ) (system user : Text) (s : ResearchState Principal) (w : State)
      → Stays s (ask v nothing n system user (s, w))
  unfolding ask
  ask-Stays n system user s w = after_reply-Stays s w _ _

  abbrev pub To : String → ResearchState Principal → String → ResearchState Principal → Type 0
  To target s n s' = (n ≡ target) × Keeps s s'

  after_plan-Moves :
      (s : ResearchState Principal) (r : Answer (Text × Bool)) (s' : ResearchState Principal)
      (w : State)
      → Keeps s s'
      → Moves (To "retrieve" s) (after_plan v nothing r (s', w))
  unfolding after_plan plan_with
  after_plan-Moves s (Answer.given (t, cut)) s' w k = (refl, k)
  after_plan-Moves s (Answer.fault f) s' w k = elim (Bool-cases f.fatal) [
    | inl e ↦ rw e tt
    | inr e ↦ rw e (refl, k)
  ]

  pub plan-Moves :
      (s : ResearchState Principal) (w : State) → Moves (To "retrieve" s) (plan v nothing (s, w))
  unfolding plan
  plan-Moves s w = after_plan-Moves s _ _ _ (ask-Stays _ _ _ s w)

  abbrev pub Searched : ResearchState Principal → String → ResearchState Principal → Type 0
  Searched s n s' = ((n ≡ "draft") ⊎ (n ≡ end)) × Keeps s s'

  settle_hits-Moves :
      (s : ResearchState Principal) (hits : List Hit) (w : State)
      → Moves (Searched s) (settle_hits v nothing s hits w)
  unfolding settle_hits
  settle_hits-Moves s [] w = (inr refl, (refl, refl))
  settle_hits-Moves s (h ∷ hits) w = (inl refl, (refl, refl))

  after_search-Moves :
      (s : ResearchState Principal) (r : Answer (List Hit)) (w : State)
      → Moves (Searched s) (after_search v nothing s (r, w))
  unfolding after_search
  after_search-Moves s (Answer.fault f) w = tt
  after_search-Moves s (Answer.given best) w = settle_hits-Moves s (take s.top_k (sort_hits best)) w

  pub retrieve-Moves :
      (s : ResearchState Principal) (w : State) → Moves (Searched s) (retrieve v nothing (s, w))
  unfolding retrieve
  retrieve-Moves s w = after_search-Moves s _ _

  after_draft-Moves :
      (s : ResearchState Principal) (r : Answer (Text × Bool)) (s' : ResearchState Principal)
      (w : State)
      → Keeps s s'
      → Moves (To "critique" s) (after_draft v nothing r (s', w))
  unfolding after_draft
  after_draft-Moves s (Answer.given (t, cut)) s' w k = (refl, k)
  after_draft-Moves s (Answer.fault f) s' w k = tt

  pub draft-Moves :
      (s : ResearchState Principal) (w : State) → Moves (To "critique" s) (draft v nothing (s, w))
  unfolding draft
  draft-Moves s w = after_draft-Moves s _ _ _ (ask-Stays _ _ _ s w)

  abbrev pub Judged : ResearchState Principal → String → ResearchState Principal → Type 0
  Judged s n s' = ((n ≡ end) ⊎ ((n ≡ "revise") × (s.revisions < s.max_revisions))) × Keeps s s'

  judge-Moves :
      (s : ResearchState Principal) (verdict : Text) (cut : Bool) (s' : ResearchState Principal)
      (w : State)
      → s.revisions < s.max_revisions
      → Keeps s s'
      → Moves (Judged s) (judge v nothing verdict cut (s', w))
  unfolding judge
  judge-Moves s verdict cut s' w l k = elim (Bool-cases (approves v nothing verdict)) [
    | inl e ↦ rw e (inl refl, k)
    | inr e ↦ elim (Bool-cases (length (issues_of v nothing (splitlines verdict)) == 0)) [
      | inl f ↦ rw (e, f) (inl refl, k)
      | inr f ↦ rw (e, f) (inr (refl, l), k)
    ]
  ]

  after_critique-Moves :
      (s : ResearchState Principal) (r : Answer (Text × Bool)) (s' : ResearchState Principal)
      (w : State)
      → s.revisions < s.max_revisions
      → Keeps s s'
      → Moves (Judged s) (after_critique v nothing r (s', w))
  unfolding after_critique
  after_critique-Moves s (Answer.given (t, cut)) s' w l k = judge-Moves s t cut s' w l k
  after_critique-Moves s (Answer.fault f) s' w l k = elim (Bool-cases f.fatal) [
    | inl e ↦ rw e tt
    | inr e ↦ rw e (inl refl, k)
  ]

  pub critique-Moves :
      (s : ResearchState Principal) (w : State) → Moves (Judged s) (critique v nothing (s, w))
  unfolding critique
  critique-Moves s w = elim (Bool-cases (leb s.max_revisions s.revisions)) [
    | inl e ↦ rw e (inl refl, (refl, refl))
    | inr e ↦ rw e (after_critique-Moves s _ _ _ (ground (arith, e)) (ask-Stays _ _ _ s w))
  ]

  abbrev pub Revised : ResearchState Principal → String → ResearchState Principal → Type 0
  Revised s n s' =
      (n ≡ "critique") × (s'.revisions ≡ s.revisions + 1) × (s'.max_revisions ≡ s.max_revisions)

  after_revise-Moves :
      (s : ResearchState Principal) (r : Answer (Text × Bool)) (s' : ResearchState Principal)
      (w : State)
      → Keeps s s'
      → Moves (Revised s) (after_revise v nothing r (s', w))
  unfolding after_revise
  after_revise-Moves s (Answer.fault f) s' w k = tt
  after_revise-Moves s (Answer.given (t, cut)) s' w (a, b) =
      elim (Bool-cases (not_an_answer v nothing t)) [
        | inl e ↦ rw e (refl, omega (arith, a), b)
        | inr e ↦ rw e (refl, omega (arith, a), b)
      ]

  pub revise-Moves :
      (s : ResearchState Principal) (w : State) → Moves (Revised s) (revise v nothing (s, w))
  unfolding revise
  revise-Moves s w = after_revise-Moves s _ _ _ (ask-Stays _ _ _ s w)
