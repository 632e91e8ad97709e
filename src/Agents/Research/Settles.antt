-- ===== src/Agents/Research/Settles.antt =====
-- How many steps the research graph needs.
use llm_gateway_rag.Common.{
  ℕ, zero, suc, ◌+◌, ◌*◌, ◌-◌, ◌≤◌, ◌≡◌, inl, inr, refl, String, true, some, List, [], ◌∷◌, length,
  ◌==◌, Bool-cases, arith,
}
use llm_gateway_rag.Common.Dict.{lookup}
use llm_gateway_rag.Common.Text.{Text}
use llm_gateway_rag.Agents.{
  Decision, Step, RunEnd, end, has, follow, after_node, run_node, run_from, run,
}
use llm_gateway_rag.Agents.State.{Services, ResearchState, Note, Fault}
use llm_gateway_rag.Agents.Research.Moves.{
  Moves, Judged, Revised, Searched, To, Situation, plan-Moves, retrieve-Moves, draft-Moves,
  critique-Moves, revise-Moves,
}
use llm_gateway_rag.Agents.Research.{
  build_graph, begin_research, ResearchRequest, RunOutcome, research, outcome_of,
}

module _ (v : Services) (nothing : Text) where
  open v use {State, Principal}

  -- The run came to the end, or a node raised.
  abbrev pub Settled : RunEnd Fault → Type 0
  Settled RunEnd.finished = Unit
  Settled (RunEnd.raised f) = Unit
  Settled _ = ⊥

  abbrev From : ℕ → ℕ → String → Situation v nothing → Type 0
  From max_steps left current sw =
      (steps : List (Step Note))
      → Settled (run_from (build_graph v nothing max_steps) left current steps sw).0.0

  end-Settled : (m left : ℕ) (n : String) (sw : Situation v nothing) → n ≡ end → From m left n sw
  unfolding run_from
  end-Settled m zero n sw h steps = rw h tt
  end-Settled m (suc left) n sw h steps = rw h tt

  after_node-Settled :
      (m left : ℕ) (current : String) (targets : List String)
      (P : String → ResearchState Principal → Type 0) (d : Decision Note Fault)
      (sw : Situation v nothing) (steps : List (Step Note))
      → lookup current (build_graph v nothing m).edges ≡ some targets
      → Moves v nothing P (d, sw)
      → ((n : String) (s : ResearchState Principal) (w : State)
          → P n s
          → (has targets n ≡ true) × From m left n (s, w))
      → Settled
          (after_node
            (build_graph v nothing m)
            current
            steps
            d
            (run_from (build_graph v nothing m) left)
            sw).0.0
  unfolding after_node follow
  after_node-Settled m left current targets P (Decision.raises f) sw steps h k g = tt
  after_node-Settled m left current targets P (Decision.move d) (s, w) steps h k g =
      let (e, next) = g d.node s w k in rw (h, e) (next _)

  critique-Settled :
      (m left : ℕ) (s : ResearchState Principal) (w : State)
      → 2 * (s.max_revisions - s.revisions) + 1 ≤ left
      → From m left "critique" (s, w)
  unfolding run_from run_node lookup
  critique-Settled m zero s w h steps = absurd (omega arith)
  critique-Settled m (suc zero) s w h steps =
      after_node-Settled m zero "critique" ("revise" ∷ end ∷ []) (Judged v nothing s) _ _ steps refl
        (critique-Moves v nothing s w)
        (λ n s' w' k. elim k.0 [
          | inl e ↦ (rw e refl, end-Settled m zero n (s', w') e)
          | inr (e, l) ↦ absurd (omega (arith, h, l))
        ])
  critique-Settled m (suc (suc left)) s w h steps =
      after_node-Settled m (suc left) "critique" ("revise" ∷ end ∷ []) (Judged v nothing s) _ _
        steps refl (critique-Moves v nothing s w)
        (λ n s' w' (k, (a, b)). elim k [
          | inl e ↦ (rw e refl, end-Settled m (suc left) n (s', w') e)
          | inr (e, l) ↦ (
            rw e refl,
            rw e (λ more.
                after_node-Settled m left "revise" ("critique" ∷ []) (Revised v nothing s') _ _ more
                  refl (revise-Moves v nothing s' w')
                  (λ n'' s'' w'' (e'', c, d). (
                    rw e'' refl,
                    rw e'' (critique-Settled m left s'' w'' (omega (arith, h, l, a, b, c, d))),
                  ))),
          )
        ])

  draft-Settled :
      (m left : ℕ) (s : ResearchState Principal) (w : State)
      → 2 * (s.max_revisions - s.revisions) + 2 ≤ left
      → From m left "draft" (s, w)
  unfolding run_from run_node lookup
  draft-Settled m zero s w h steps = absurd (omega arith)
  draft-Settled m (suc left) s w h steps =
      after_node-Settled m left "draft" ("critique" ∷ []) (To v nothing "critique" s) _ _ steps refl
        (draft-Moves v nothing s w)
        (λ n s' w' (e, (a, b)).
          (rw e refl, rw e (critique-Settled m left s' w' (omega (arith, h, a, b)))))

  retrieve-Settled :
      (m left : ℕ) (s : ResearchState Principal) (w : State)
      → 2 * (s.max_revisions - s.revisions) + 3 ≤ left
      → From m left "retrieve" (s, w)
  unfolding run_from run_node lookup
  retrieve-Settled m zero s w h steps = absurd (omega arith)
  retrieve-Settled m (suc left) s w h steps =
      after_node-Settled m left "retrieve" ("draft" ∷ end ∷ []) (Searched v nothing s) _ _ steps
        refl (retrieve-Moves v nothing s w)
        (λ n s' w' (k, (a, b)). elim k [
          | inl e ↦ (rw e refl, rw e (draft-Settled m left s' w' (omega (arith, h, a, b))))
          | inr e ↦ (rw e refl, end-Settled m left n (s', w') e)
        ])

  plan-Settled :
      (m left : ℕ) (s : ResearchState Principal) (w : State)
      → 2 * (s.max_revisions - s.revisions) + 4 ≤ left
      → From m left "plan" (s, w)
  unfolding run_from run_node lookup
  plan-Settled m zero s w h steps = absurd (omega arith)
  plan-Settled m (suc left) s w h steps =
      after_node-Settled m left "plan" ("retrieve" ∷ []) (To v nothing "retrieve" s) _ _ steps refl
        (plan-Moves v nothing s w)
        (λ n s' w' (e, (a, b)).
          (rw e refl, rw e (retrieve-Settled m left s' w' (omega (arith, h, a, b)))))

  abbrev pub Responds : RunOutcome → Type 0
  Responds RunOutcome.answered = Unit
  Responds RunOutcome.no_context = Unit
  Responds (RunOutcome.failed f) = Unit
  Responds _ = ⊥

  outcome-Responds :
      (e : RunEnd Fault) (s : ResearchState Principal)
      → Settled e
      → Responds (outcome_of v nothing e s)
  outcome-Responds RunEnd.finished s h = elim (Bool-cases (length s.passages == 0)) [
    | inl e ↦ rw e tt
    | inr e ↦ rw e tt
  ]
  outcome-Responds (RunEnd.raised f) s h = tt
  outcome-Responds RunEnd.budget_exceeded s h = absurd h
  outcome-Responds (RunEnd.bad_move a b) s h = absurd h
  outcome-Responds (RunEnd.missing_node a) s h = absurd h

  -- A step budget of four steps and two for each revision that the request allows is enough for
  -- any research run, whatever the models and the retriever answer: it ends answered, or without
  -- context, or by an exception that a node raised, and never by an exceeded budget, a move that is
  -- not declared or a node that does not exist.
  pub research-Responds :
      (max_steps : ℕ) (principal : Principal) (request : ResearchRequest) (w : State)
      → 2 * request.max_revisions + 4 ≤ max_steps
      → Responds (research v nothing max_steps principal request w).0.0
  unfolding research run
  research-Responds m principal request w h =
      outcome-Responds _ _
        (plan-Settled m m (begin_research v nothing principal request) w (omega (arith, h)) [])
