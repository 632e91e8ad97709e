-- ===== src/Agents/Nodes.antt =====
-- The five nodes of the research agent, app/agents/nodes.py.
use llm_gateway_rag.Common.{
  ℕ, ◌+◌, Bool, false, ◌||◌, none, some, List, [], ◌∷◌, ◌++◌, length, take, or_else, leb, ◌==◌,
  if◌then◌else◌,
}
use llm_gateway_rag.Common.Text.{Text}
use llm_gateway_rag.Common.Action.{Action, pure, ◌>>=◌}
use llm_gateway_rag.Agents.{Decision, end}
use llm_gateway_rag.Agents.State.{
  Hit, Fault, Answer, ResearchState, ChatReply, Services, Note, plan_tokens, draft_tokens,
  critique_tokens, revise_tokens, max_query_chars, ok_text, is_blank, eq_text, starts_with,
  distinct, merge, sort_hits,
}

module _ (v : Services) (no_context_answer : Text) where
  open v use {
    State, Principal, complete, search, plan_system, draft_system, critique_system, critique_user,
    revise_system, revise_user, strip, splitlines, strip_bullets, strip_marker, bare_upper,
    bare_upper_marks, numeral,
  }

  abbrev pub Research : Type 0
  Research = ResearchState Principal

  abbrev pub Node : Type 0
  Node = Action (Research × State) (Decision Note Fault)

  -- what `_ask` adds to the totals of the run
  unfoldable pub add_totals : ChatReply → Research → Research
  add_totals r s = record s {
    llm_calls = s.llm_calls + 1;
    prompt_tokens = s.prompt_tokens + elim r.usage [ none ↦ 0 | some u ↦ u.prompt_tokens ];
    completion_tokens =
        s.completion_tokens + elim r.usage [ none ↦ 0 | some u ↦ u.completion_tokens ];
    cost_usd = s.cost_usd + or_else r.cost_usd 0;
  }

  unfoldable pub after_reply :
      Research × State → Answer ChatReply × State → Answer (Text × Bool) × (Research × State)
  unfolding add_totals
  after_reply (s, w) (Answer.fault f, w') = (Answer.fault f, (s, w'))
  after_reply (s, w) (Answer.given r, w') =
      (Answer.given (strip r.content, r.cut), (add_totals r s, w'))

  -- `_ask`
  unfoldable pub ask : ℕ → Text → Text → Action (Research × State) (Answer (Text × Bool))
  ask max_tokens system user (s, w) =
      after_reply (s, w)
        (complete
          (record {
            principal = s.principal;
            model = s.model;
            system = system;
            user = user;
            max_tokens = max_tokens;
            use_cache = s.use_cache;
          })
          w)

  abbrev pub query_of : Text → Text
  query_of line = take max_query_chars (strip (strip_marker line))

  abbrev pub queries_of : List Text → List Text
  queries_of [] = []
  queries_of (l ∷ ls) = if is_blank (strip l) then queries_of ls else query_of l ∷ queries_of ls

  abbrev pub planned : List Text → Text → List Text
  planned [] question = question ∷ []
  planned (q ∷ qs) question = q ∷ qs

  unfoldable pub plan_with : Text → Bool → Node
  plan_with reply cut (s, w) =
      let queries = take s.max_searches (distinct [] (queries_of (splitlines reply))) in
      let searches = planned queries s.question in
      (
        Decision.move (record { node = "retrieve"; note = Note.searches (length searches) cut }),
        (record s { searches = searches }, w),
      )

  unfoldable pub after_plan : Answer (Text × Bool) → Node
  after_plan (Answer.given (reply, cut)) = plan_with reply cut
  after_plan (Answer.fault f) = if f.fatal then pure (Decision.raises f) else plan_with [] false

  unfoldable pub plan : Node
  plan (s, w) =
      (do r ← ask plan_tokens (plan_system s.max_searches) s.question; after_plan r) (s, w)

  unfoldable pub after_hits :
      List Hit
      → Answer (List Hit)
      → (List Hit → Action State (Answer (List Hit)))
      → Action State (Answer (List Hit))
  after_hits best (Answer.fault f) again = pure (Answer.fault f)
  after_hits best (Answer.given hits) again = again (merge hits best)

  -- the searches of `retrieve`, one after the other
  unfoldable pub search_all : Research → List Text → List Hit → Action State (Answer (List Hit))
  search_all s [] best = pure (Answer.given best)
  search_all s (q ∷ qs) best = do
    r ← search s.principal q s.top_k
    after_hits best r (search_all s qs)

  unfoldable pub settle_hits :
      Research → List Hit → State → Decision Note Fault × (Research × State)
  settle_hits s [] w = (
    Decision.move (record { node = end; note = Note.nothing_matched }),
    (record s { passages = []; draft = no_context_answer }, w),
  )
  settle_hits s (h ∷ hits) w = (
    Decision.move (record { node = "draft"; note = Note.passages (length (h ∷ hits)) false }),
    (record s { passages = h ∷ hits }, w),
  )

  unfoldable pub after_search :
      Research → Answer (List Hit) × State → Decision Note Fault × (Research × State)
  after_search s (Answer.fault f, w) = (Decision.raises f, (s, w))
  after_search s (Answer.given best, w) = settle_hits s (take s.top_k (sort_hits best)) w

  unfoldable pub retrieve : Node
  retrieve (s, w) = after_search s (search_all s s.searches [] w)

  -- "[n] (title, p. page)\ntext"
  abbrev pub labelled : ℕ → Hit → Text
  labelled n h =
      91 ∷ numeral n
      ++ 93 ∷ 32 ∷ 40 ∷ h.title
      ++ elim h.page [ none ↦ [] | some p ↦ 44 ∷ 32 ∷ 112 ∷ 46 ∷ 32 ∷ numeral p ]
      ++ 41 ∷ 10 ∷ h.text

  -- `format_context`, from the number n on
  unfoldable pub format_context : ℕ → List Hit → Text
  format_context n [] = []
  format_context n (h ∷ []) = labelled n h
  format_context n (h ∷ k ∷ hits) = labelled n h ++ 10 ∷ 10 ∷ format_context (n + 1) (k ∷ hits)

  unfoldable pub after_draft : Answer (Text × Bool) → Node
  after_draft (Answer.fault f) (s, w) = (Decision.raises f, (s, w))
  after_draft (Answer.given (reply, cut)) (s, w) = (
    Decision.move (record { node = "critique"; note = Note.chars (length reply) cut }),
    (record s { draft = reply }, w),
  )

  unfoldable pub draft : Node
  draft (s, w) =
      (do
        r ← ask draft_tokens (draft_system (format_context 1 s.passages)) s.question
        after_draft r)
        (s, w)

  -- `_approves`
  abbrev pub approves : Text → Bool
  approves verdict = starts_with ok_text (bare_upper verdict) || is_blank (strip verdict)

  abbrev pub issues_of : List Text → List Text
  issues_of [] = []
  issues_of (l ∷ ls) =
      if is_blank (strip_bullets l) then issues_of ls else strip_bullets l ∷ issues_of ls

  unfoldable pub judge : Text → Bool → Node
  judge verdict cut (s, w) =
      let issues = issues_of (splitlines verdict) in
      if approves verdict
      then (
        Decision.move (record { node = end; note = Note.approved cut }),
        (record s { critique = some verdict; issues = [] }, w),
      )
      else if length issues == 0
      then (
        Decision.move (record { node = end; note = Note.no_usable_review cut }),
        (record s { critique = some verdict; issues = issues }, w),
      )
      else (
        Decision.move (record { node = "revise"; note = Note.issues_found (length issues) cut }),
        (record s { critique = some verdict; issues = issues }, w),
      )

  unfoldable pub after_critique : Answer (Text × Bool) → Node
  after_critique (Answer.given (verdict, cut)) = judge verdict cut
  after_critique (Answer.fault f) =
      if f.fatal
      then pure (Decision.raises f)
      else pure (Decision.move (record { node = end; note = Note.critique_unavailable }))

  unfoldable pub critique : Node
  critique (s, w) =
      if leb s.max_revisions s.revisions
      then (Decision.move (record { node = end; note = Note.budget_spent }), (s, w))
      else (do
        r ←
            ask critique_tokens (critique_system (format_context 1 s.passages))
              (critique_user s.question s.draft)
        after_critique r)
          (s, w)

  -- "\n".join(f"- {i}" for i in issues)
  abbrev pub bulleted : List Text → Text
  bulleted [] = []
  bulleted (i ∷ []) = 45 ∷ 32 ∷ i
  bulleted (i ∷ j ∷ is) = 45 ∷ 32 ∷ i ++ 10 ∷ bulleted (j ∷ is)

  -- `_not_an_answer`
  abbrev pub not_an_answer : Text → Bool
  not_an_answer t = is_blank (bare_upper_marks t) || eq_text (bare_upper_marks t) ok_text

  unfoldable pub after_revise : Answer (Text × Bool) → Node
  after_revise (Answer.fault f) (s, w) = (Decision.raises f, (s, w))
  after_revise (Answer.given (reply, cut)) (s, w) =
      if not_an_answer reply
      then (
        Decision.move (record { node = "critique"; note = Note.discarded (s.revisions + 1) cut }),
        (record s { revisions = s.revisions + 1 }, w),
      )
      else (
        Decision.move (record { node = "critique"; note = Note.revised (s.revisions + 1) cut }),
        (record s { revisions = s.revisions + 1; draft = reply }, w),
      )

  unfoldable pub revise : Node
  revise (s, w) =
      (do
        r ←
            ask revise_tokens (revise_system (format_context 1 s.passages))
              (revise_user s.question s.draft (bulleted s.issues))
        after_revise r)
        (s, w)
