-- ===== src/Agents/Paths.antt =====
-- The path that a run of a state graph takes.
use llm_gateway_rag.Common.{
  ℕ, zero, suc, ◌+◌, ◌≤◌, ◌≡◌, refl, inl, inr, String, true, false, Option, none, some, List, [],
  ◌∷◌, ◌++◌, length, length-append, arith, Bool-cases, str_eq, str_eq_iff,
}
use llm_gateway_rag.Common.Dict.{lookup}
use llm_gateway_rag.Common.Action.{Action}
use llm_gateway_rag.Agents.{
  end, Next, Step, Decision, Graph, RunEnd, has, follow, after_node, run_node, run_from, run,
}

module _ {S N X : Type 0} where
  -- A declared edge.
  abbrev pub Edge : Graph S N X → String → String → Type 0
  Edge g a b = (targets : List String) × (lookup a g.edges ≡ some targets) × (has targets b ≡ true)

  -- The steps lead along declared edges, each from where the one before ended.
  abbrev pub Leads : Graph S N X → String → List (Step N) → String → Type 0
  Leads g a [] b = a ≡ b
  Leads g a (s ∷ steps) b = (s.node ≡ a) × Edge g a s.next × Leads g s.next steps b

  Leads-snoc :
      (g : Graph S N X) (a : String) (steps : List (Step N)) (s : Step N)
      → Leads g a steps s.node
      → Edge g s.node s.next
      → Leads g a (steps ++ s ∷ []) s.next
  Leads-snoc g a [] s h e = rw h (refl, e, refl)
  Leads-snoc g a (t ∷ steps) s (h, f, rest) e = (h, f, Leads-snoc g t.next steps s rest e)

  -- Where a run stands when it ends.
  abbrev pub StopsAt : Graph S N X → RunEnd X → List (Step N) → String → Type 0
  StopsAt g RunEnd.finished steps b = b ≡ end
  StopsAt g RunEnd.budget_exceeded steps b = length steps ≡ g.max_steps
  StopsAt g (RunEnd.bad_move a c) steps b =
      (a ≡ b)
      × (targets : List String) × (lookup b g.edges ≡ some targets)
      × (has targets c ≡ false)
  StopsAt g (RunEnd.missing_node a) steps b = a ≡ b
  StopsAt g (RunEnd.raised x) steps b = Unit

  abbrev pub Follows : Graph S N X → RunEnd X × List (Step N) → Type 0
  Follows g (e, steps) =
      (length steps ≤ g.max_steps) × (b : String) × Leads g g.entry steps b × StopsAt g e steps b

  module _ (g : Graph S N X) (left : ℕ) (current : String) (steps : List (Step N))
      (here : Leads g g.entry steps current) (room : length steps + suc left ≡ g.max_steps)
      (again : String → List (Step N) → S → (RunEnd X × List (Step N)) × S)
      (ih : (b : String) (more : List (Step N)) (s : S)
        → Leads g g.entry more b
        → length more + left ≡ g.max_steps
        → Follows g (again b more s).0) where
    follow-Follows :
        (d : Next N) (targets : Option (List String)) (s : S)
        → lookup current g.edges ≡ targets
        → Follows g (follow current steps d targets again s).0
    unfolding follow
    follow-Follows d none s h = (omega (arith, room), current, here, refl)
    follow-Follows d (some targets) s h = elim (Bool-cases (has targets d.node)) [
      | inl e ↦ rw e (
          ih d.node _ s
            (Leads-snoc g g.entry steps (record { node = current; next = d.node; note = d.note })
              here (targets, h, e))
            (omega (
              arith,
              room,
              length-append steps (record { node = current; next = d.node; note = d.note } ∷ []),
            )))
      | inr e ↦ rw e (omega (arith, room), current, here, (refl, targets, h, e))
    ]

    after_node-Follows :
        (d : Decision N X) (s : S) → Follows g (after_node g current steps d again s).0
    unfolding after_node
    after_node-Follows (Decision.raises x) s = (omega (arith, room), current, here, tt)
    after_node-Follows (Decision.move d) s = follow-Follows d (lookup current g.edges) s refl

    run_node-Follows :
        (node : Option (Action S (Decision N X))) (s : S)
        → Follows g (run_node g current steps node again s).0
    unfolding run_node
    run_node-Follows none s = (omega (arith, room), current, here, refl)
    run_node-Follows (some node) s = after_node-Follows (node s).0 (node s).1

  run_from-Follows :
      (g : Graph S N X) (left : ℕ) (current : String) (steps : List (Step N)) (s : S)
      → Leads g g.entry steps current
      → length steps + left ≡ g.max_steps
      → Follows g (run_from g left current steps s).0
  unfolding run_from
  run_from-Follows g zero current steps s here room = elim (Bool-cases (str_eq current end)) [
    | inl e ↦ rw e (omega (arith, room), current, here, (str_eq_iff current end).0 e)
    | inr e ↦ rw e (omega (arith, room), current, here, omega (arith, room))
  ]
  run_from-Follows g (suc left) current steps s here room = elim (Bool-cases (str_eq current end)) [
    | inl e ↦ rw e (omega (arith, room), current, here, (str_eq_iff current end).0 e)
    | inr e ↦ rw e (
        run_node-Follows g left current steps here room (run_from g left)
          (λ b more t. run_from-Follows g left b more t) (lookup current g.nodes) s)
  ]

  -- A run takes at most `max_steps` steps, each along a declared edge from where the one before
  -- ended, starting at the entry. A run that finishes has come to the end, one that exceeds its
  -- budget has taken `max_steps` steps, and one that is stopped for a bad move was at a node that
  -- does not declare that move.
  pub run-Follows : (g : Graph S N X) (s : S) → Follows g (run g s).0
  unfolding run
  run-Follows g s = run_from-Follows g g.max_steps g.entry [] s refl (omega arith)
