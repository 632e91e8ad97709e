-- ===== src/Tests/Gates.antt =====
-- One slot, a caller that runs, and two that wait.
use llm_gateway_rag.Common.{◌+◌, ◌≤◌, ◌≡◌, refl, List, [], ◌∷◌, length, arith}
use llm_gateway_rag.Gate.{InferenceGate, Step, new_gate, step, wake, take_out, run}
use llm_gateway_rag.Gate.Bounds.{run-IsBounded}
use llm_gateway_rag.Gate.Turns.{Served, turn_comes}

abbrev busy : InferenceGate
busy = record {
  max_concurrency = 1;
  max_queue = 2;
  value = 0;
  waiters = 2 ∷ 3 ∷ [];
  woken = [];
  running = 1;
  waiting = 2;
}

abbrev arrivals : List Step
arrivals = Step.arrives 1 ∷ Step.arrives 2 ∷ Step.arrives 3 ∷ Step.arrives 4 ∷ []

-- the fourth is shed
becomes_busy : run (new_gate 1 2) arrivals ≡ busy
unfolding run new_gate step
becomes_busy = refl

run-IsBounded_example :
    let g = run (new_gate 1 2) arrivals in
    (g.running ≤ 1)
    × (g.waiting ≤ 2)
    × (g.waiting ≡ length g.waiters + length g.woken)
    × (g.value + length g.woken + g.running ≡ 1)
run-IsBounded_example = run-IsBounded 1 2 arrivals

-- caller 2 gives up, and both slots that are released serve caller 3
abbrev steps : List Step
steps = Step.finishes ∷ Step.resumes ∷ Step.arrives 5 ∷ Step.finishes ∷ []

turn_comes_example : Served 3 busy steps
unfolding step wake take_out
turn_comes_example =
    turn_comes 3 1 busy steps refl
      ((λ same. cc), ((λ same. cc), ((λ same. cc), ((λ same. cc), tt)))) (omega arith)
