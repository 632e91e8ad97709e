-- ===== src/Gate.antt =====
-- The inference gate, app/core/concurrency.py, over `asyncio.Semaphore` of Python 3.12. What its callers and
-- the event loop do is a sequence of steps; between two `await`s nothing else runs. A caller is a number.
pub mod Bounds
pub mod Turns
use llm_gateway_rag.Common.{
  ℕ, zero, suc, ◌+◌, ◌-◌, Bool, true, false, ◌&&◌, ◌||◌, not, List, [], ◌∷◌, ◌++◌, length,
  if◌then◌else◌, ◌==◌, leb, ltb,
}

-- `_value` of the semaphore; its waiters still without a slot, in order; those who were woken with one
-- and have not gone on; how many callers hold a slot and await their thread; and `_waiting` of the gate.
pub record InferenceGate : Type 0 where
  pub max_concurrency : ℕ
  pub max_queue : ℕ
  pub value : ℕ
  pub waiters : List ℕ
  pub woken : List ℕ
  pub running : ℕ
  pub waiting : ℕ

pub data Step : Type 0 where
  -- a call of `run`, up to its first `await` that suspends it
  arrives : ℕ → Step
  -- the first that was woken goes on
  resumes : Step
  -- a worker thread is done, and the slot is released
  finishes : Step
  -- a caller that awaits its thread is cancelled: its slot is released, and the thread goes on without it
  abandons : Step
  -- the wait budget of a caller is used up
  times_out : ℕ → Step

abbrev pub is_empty : List ℕ → Bool
is_empty [] = true
is_empty (x ∷ xs) = false

-- `locked`: no slot, or a waiter that is not done with
abbrev pub locked : InferenceGate → Bool
locked g = g.value == 0 || not (is_empty g.waiters && is_empty g.woken)

-- `__init__`
unfoldable pub new_gate : ℕ → ℕ → InferenceGate
new_gate max_concurrency max_queue = record {
  max_concurrency = max_concurrency;
  max_queue = max_queue;
  value = max_concurrency;
  waiters = [];
  woken = [];
  running = 0;
  waiting = 0;
}

-- the check of `run`
abbrev pub is_saturated : InferenceGate → Bool
is_saturated g = locked g && leb g.max_queue g.waiting

-- `_wake_up_next`, as long as there is a slot
unfoldable pub wake : ℕ → List ℕ → List ℕ → ℕ × List ℕ × List ℕ
wake value [] woken = (value, [], woken)
wake zero (x ∷ xs) woken = (zero, x ∷ xs, woken)
wake (suc value) (x ∷ xs) woken = wake value xs (woken ++ x ∷ [])

abbrev pub woken_up : InferenceGate → InferenceGate
woken_up g =
    let (value, waiters, woken) = wake g.value g.waiters g.woken in
    record g { value = value; waiters = waiters; woken = woken }

-- `release`, which wakes one waiter
abbrev pub released : InferenceGate → InferenceGate
released g = elim g.waiters [
  | [] ↦ record g { value = suc g.value }
  | x ∷ xs ↦ record g { waiters = xs; woken = g.woken ++ x ∷ [] }
]

-- the caller out of the list, and whether it was in it
unfoldable pub take_out : ℕ → List ℕ → List ℕ × Bool
take_out id [] = ([], false)
take_out id (x ∷ xs) =
    let (rest, had) = take_out id xs in if x == id then (xs, true) else (x ∷ rest, had)

-- a caller that gets a slot at once, and one that has to wait
abbrev pub admit : ℕ → InferenceGate → InferenceGate
admit id g =
    if locked g
    then record g { waiters = g.waiters ++ id ∷ []; waiting = suc g.waiting }
    else record g { value = g.value - 1; running = suc g.running }

-- `CancelledError` in `acquire`: a waiter leaves the queue; one with a slot gives it back
abbrev pub leave_woken : List ℕ × Bool → InferenceGate → InferenceGate
leave_woken (rest, false) g = g
leave_woken (rest, true) g =
    woken_up (record g { value = suc g.value; woken = rest; waiting = g.waiting - 1 })

abbrev pub leave : ℕ → List ℕ × Bool → InferenceGate → InferenceGate
leave id (rest, true) g = woken_up (record g { waiters = rest; waiting = g.waiting - 1 })
leave id (rest, false) g = leave_woken (take_out id g.woken) g

-- what a step does to the gate, if it can happen
unfoldable pub step : InferenceGate → Step → InferenceGate
step g (Step.arrives id) = if is_saturated g then g else admit id g
step g Step.resumes = elim g.woken [
  | [] ↦ g
  | x ∷ xs ↦ woken_up (record g { woken = xs; running = suc g.running; waiting = g.waiting - 1 })
]
step g Step.finishes = elim g.running [ zero ↦ g | suc n ↦ released (record g { running = n }) ]
step g Step.abandons = elim g.running [ zero ↦ g | suc n ↦ released (record g { running = n }) ]
step g (Step.times_out id) = leave id (take_out id g.waiters) g

-- Whether a call is refused at once.
abbrev pub sheds : InferenceGate → Step → Bool
sheds g (Step.arrives id) = is_saturated g
sheds g _ = false

unfoldable pub run : InferenceGate → List Step → InferenceGate
run g [] = g
run g (s ∷ ss) = run (step g s) ss
