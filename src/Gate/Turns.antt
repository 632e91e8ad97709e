-- ===== src/Gate/Turns.antt =====
-- The order in which the inference gate of app/core/concurrency.py serves its callers.
use llm_gateway_rag.Common.{
  ap, sym, ◌∙◌, ℕ, zero, suc, ◌+◌, ◌-◌, ◌≤◌, ◌<◌, ◌≡◌, ◌≢◌, ◌⊎◌, inl, inr, Bool, true, false, List,
  [], ◌∷◌, ◌++◌, if◌then◌else◌, ◌==◌, ==_iff, arith, Bool-cases, All,
}
use llm_gateway_rag.Gate.{
  InferenceGate, Step, locked, is_saturated, wake, woken_up, released, take_out, admit, leave,
  leave_woken, step,
}

-- The caller stands at this position, and the caller is in the list.
abbrev pub At : ℕ → List ℕ → ℕ → Type 0
At id [] n = ⊥
At id (x ∷ xs) zero = x ≡ id
At id (x ∷ xs) (suc n) = At id xs n

abbrev pub Member : ℕ → List ℕ → Type 0
Member id [] = ⊥
Member id (x ∷ xs) = (x ≡ id) ⊎ Member id xs

-- The caller has been woken, or stands at most at this position.
abbrev pub Closer : ℕ → List ℕ → List ℕ → ℕ → Type 0
Closer id waiters woken n = Member id woken ⊎ ((k : ℕ) × At id waiters k × (k ≤ n))

Member-append_left : (id : ℕ) (xs ys : List ℕ) → Member id xs → Member id (xs ++ ys)
Member-append_left id (x ∷ xs) ys (inl e) = inl e
Member-append_left id (x ∷ xs) ys (inr h) = inr (Member-append_left id xs ys h)
Member-append_left id [] ys h = absurd h

Member-append_last : (id x : ℕ) (xs : List ℕ) → x ≡ id → Member id (xs ++ x ∷ [])
Member-append_last id x [] e = inl e
Member-append_last id x (y ∷ xs) e = inr (Member-append_last id x xs e)

At-append : (id : ℕ) (xs ys : List ℕ) (n : ℕ) → At id xs n → At id (xs ++ ys) n
At-append id (x ∷ xs) ys zero h = h
At-append id (x ∷ xs) ys (suc n) h = At-append id xs ys n h
At-append id [] ys n h = absurd h

wake-Member :
    (id value : ℕ) (waiters woken : List ℕ)
    → Member id woken
    → Member id (wake value waiters woken).2
unfolding wake
wake-Member id value [] woken h = h
wake-Member id zero (x ∷ xs) woken h = h
wake-Member id (suc value) (x ∷ xs) woken h =
    wake-Member id value xs (woken ++ x ∷ []) (Member-append_left id woken (x ∷ []) h)

wake-Closer :
    (id value : ℕ) (waiters woken : List ℕ) (n : ℕ)
    → At id waiters n
    → Closer id (wake value waiters woken).1 (wake value waiters woken).2 n
unfolding wake
wake-Closer id value [] woken n h = absurd h
wake-Closer id zero (x ∷ xs) woken n h = inr (n, h, omega arith)
wake-Closer id (suc value) (x ∷ xs) woken zero h =
    inl (wake-Member id value xs (woken ++ x ∷ []) (Member-append_last id x woken h))
wake-Closer id (suc value) (x ∷ xs) woken (suc n) h =
    elim (wake-Closer id value xs (woken ++ x ∷ []) n h) [
      | inl m ↦ inl m
      | inr (k, a, le) ↦ inr (k, a, omega (arith, le))
    ]

take_out-At :
    (id j : ℕ) (xs : List ℕ) (n : ℕ)
    → j ≢ id
    → At id xs n
    → (k : ℕ) × At id (take_out j xs).0 k × (k ≤ n)
unfolding take_out
take_out-At id j [] n differ h = absurd h
take_out-At id j (x ∷ xs) zero differ h = elim (Bool-cases (x == j)) [
  | inl e ↦ absurd (differ (sym ((==_iff x j).0 e) ∙ h))
  | inr e ↦ rw e (0, h, omega arith)
]
take_out-At id j (x ∷ xs) (suc n) differ h = elim (Bool-cases (x == j)) [
  | inl e ↦ rw e (n, h, omega arith)
  | inr e ↦ let (k, a, le) = take_out-At id j xs n differ h in rw e (suc k, a, omega (arith, le))
]

-- A release of a slot that is held.
abbrev pub releases_one : InferenceGate → Step → ℕ
releases_one g Step.finishes = if g.running == 0 then 0 else 1
releases_one g Step.abandons = if g.running == 0 then 0 else 1
releases_one g _ = 0

-- The releases of a run.
abbrev pub releases : InferenceGate → List Step → ℕ
releases g [] = 0
releases g (s ∷ ss) = releases_one g s + releases (step g s) ss

abbrev pub CloserIn : ℕ → InferenceGate → ℕ → Type 0
CloserIn id g n = Closer id g.waiters g.woken n

Closer-weaken : (id : ℕ) (g : InferenceGate) (k n : ℕ) → k ≤ n → CloserIn id g k → CloserIn id g n
Closer-weaken id g k n le (inl m) = inl m
Closer-weaken id g k n le (inr (j, a, le')) = inr (j, a, omega (arith, le, le'))

woken_up-Closer :
    (id : ℕ) (g : InferenceGate) (n : ℕ) → At id g.waiters n → CloserIn id (woken_up g) n
woken_up-Closer id g n h = wake-Closer id g.value g.waiters g.woken n h

arrives-Closer :
    (id j n : ℕ) (g : InferenceGate) (b : Bool)
    → At id g.waiters n
    → CloserIn id
        (if b
          then record g { waiters = g.waiters ++ j ∷ []; waiting = suc g.waiting }
          else record g { value = g.value - 1; running = suc g.running })
        n
arrives-Closer id j n g true h = inr (n, At-append id g.waiters (j ∷ []) n h, omega arith)
arrives-Closer id j n g false h = inr (n, h, omega arith)

saturated-Closer :
    (id j n : ℕ) (g : InferenceGate) (b : Bool)
    → At id g.waiters n
    → CloserIn id (if b then g else admit j g) n
saturated-Closer id j n g true h = inr (n, h, omega arith)
saturated-Closer id j n g false h = arrives-Closer id j n g (locked g) h

resumes-Closer :
    (id n : ℕ) (g : InferenceGate) (woken : List ℕ)
    → At id g.waiters n
    → CloserIn id
        (elim woken [
          | [] ↦ g
          | x ∷ xs ↦
              woken_up (record g { woken = xs; running = suc g.running; waiting = g.waiting - 1 })
        ])
        n
resumes-Closer id n g [] h = inr (n, h, omega arith)
resumes-Closer id n g (x ∷ xs) h =
    woken_up-Closer id (record g { woken = xs; running = suc g.running; waiting = g.waiting - 1 }) n
      h

-- A release wakes the first caller, and brings every other one a place nearer.
released-Closer :
    (id n : ℕ) (g : InferenceGate) (waiters : List ℕ)
    → At id waiters n
    → let after : InferenceGate = elim waiters [
      | [] ↦ record g { value = suc g.value }
      | x ∷ xs ↦ record g { waiters = xs; woken = g.woken ++ x ∷ [] }
    ] in
      Member id after.woken ⊎ ((k : ℕ) × At id after.waiters k × (k < n))
released-Closer id n g [] h = absurd h
released-Closer id zero g (x ∷ xs) h = inl (Member-append_last id x g.woken h)
released-Closer id (suc n) g (x ∷ xs) h = inr (n, h, omega arith)

finishes-Closer :
    (id n running : ℕ) (g : InferenceGate)
    → At id g.waiters n
    → let after : InferenceGate = elim running [
      | zero ↦ g
      | suc k ↦ released (record g { running = k })
    ] in
      Member id after.woken
      ⊎ ((k : ℕ) × At id after.waiters k × (k + (if running == 0 then 0 else 1) ≤ n))
finishes-Closer id n zero g h = inr (n, h, omega arith)
finishes-Closer id n (suc r) g h =
    elim (released-Closer id n (record g { running = r }) g.waiters h) [
      | inl m ↦ inl m
      | inr (k, a, lt) ↦ inr (k, a, ground (arith, lt))
    ]

leave_woken-Closer :
    (id n : ℕ) (g : InferenceGate) (taken : List ℕ × Bool)
    → At id g.waiters n
    → CloserIn id (leave_woken taken g) n
leave_woken-Closer id n g (rest, false) h = inr (n, h, omega arith)
leave_woken-Closer id n g (rest, true) h =
    woken_up-Closer id (record g { value = suc g.value; woken = rest; waiting = g.waiting - 1 }) n h

leave-Closer :
    (id j n k : ℕ) (g : InferenceGate) (taken : List ℕ × Bool)
    → At id g.waiters n
    → At id taken.0 k
    → k ≤ n
    → CloserIn id (leave j taken g) n
leave-Closer id j n k g (rest, false) h h' le = leave_woken-Closer id n g (take_out j g.woken) h
leave-Closer id j n k g (rest, true) h h' le =
    Closer-weaken id (woken_up (record g { waiters = rest; waiting = g.waiting - 1 })) k n le
      (woken_up-Closer id (record g { waiters = rest; waiting = g.waiting - 1 }) k h')

plus_zero :
    (id n : ℕ) (waiters woken : List ℕ)
    → Closer id waiters woken n
    → Member id woken ⊎ ((k : ℕ) × At id waiters k × (k + 0 ≤ n))
plus_zero id n waiters woken (inl m) = inl m
plus_zero id n waiters woken (inr (k, a, le)) = inr (k, a, omega (arith, le))

step-Closer :
    (id n : ℕ) (g : InferenceGate) (s : Step)
    → s ≢ Step.times_out id
    → At id g.waiters n
    → Member id (step g s).woken
      ⊎ ((k : ℕ) × At id (step g s).waiters k × (k + releases_one g s ≤ n))
unfolding step
step-Closer id n g (Step.arrives j) stays h =
    plus_zero id n _ _ (saturated-Closer id j n g (is_saturated g) h)
step-Closer id n g Step.resumes stays h = plus_zero id n _ _ (resumes-Closer id n g g.woken h)
step-Closer id n g Step.finishes stays h = finishes-Closer id n g.running g h
step-Closer id n g Step.abandons stays h = finishes-Closer id n g.running g h
step-Closer id n g (Step.times_out j) stays h =
    let (k, a, le) = take_out-At id j g.waiters n (λ same. stays (ap Step.times_out same)) h in
    plus_zero id n _ _ (leave-Closer id j n k g (take_out j g.waiters) h a le)

-- The caller is woken with a slot at some point of the run.
abbrev pub Served : ℕ → InferenceGate → List Step → Type 0
Served id g [] = Member id g.woken
Served id g (s ∷ ss) = Member id g.woken ⊎ Served id (step g s) ss

woken-Served : (id : ℕ) (g : InferenceGate) (ss : List Step) → Member id g.woken → Served id g ss
woken-Served id g [] m = m
woken-Served id g (s ∷ ss) m = inl m

-- A caller that waits behind n others and does not use up its wait budget is woken with a slot by the
-- time that more than n slots have been released, whatever else happens meanwhile.
pub turn_comes :
    (id n : ℕ) (g : InferenceGate) (ss : List Step)
    → At id g.waiters n
    → All (λ s. s ≢ Step.times_out id) ss
    → n < releases g ss
    → Served id g ss
turn_comes id n g [] h stays enough = absurd (omega (arith, enough))
turn_comes id n g (s ∷ ss) h stays enough = elim (step-Closer id n g s stays.0 h) [
  | inl m ↦ inr (woken-Served id (step g s) ss m)
  | inr (k, a, le) ↦ inr (turn_comes id k (step g s) ss a stays.1 (omega (arith, le, enough)))
]
