-- ===== src/Gate/Bounds.antt =====
-- What the inference gate of app/core/concurrency.py keeps within bounds.
use llm_gateway_rag.Common.{
  ap, ℕ, zero, suc, ◌+◌, ◌-◌, ◌≤◌, ◌≡◌, ◌⊎◌, inl, inr, refl, Bool, true, false, ◌&&◌, List, [], ◌∷◌,
  ◌++◌, length, length-append, if◌then◌else◌, ◌==◌, leb, arith, Bool-cases,
}
use llm_gateway_rag.Gate.{
  InferenceGate, Step, locked, new_gate, is_saturated, wake, woken_up, released, take_out, leave,
  leave_woken, step, run,
}

wake-slots :
    (value : ℕ) (waiters woken : List ℕ)
    → let (value', waiters', woken') = wake value waiters woken in
      (value' + length woken' ≡ value + length woken)
      × (length waiters' + length woken' ≡ length waiters + length woken)
unfolding wake
wake-slots value [] woken = (refl, refl)
wake-slots zero (x ∷ xs) woken = (refl, refl)
wake-slots (suc value) (x ∷ xs) woken =
    let (p, q) = wake-slots value xs (woken ++ x ∷ []) in
    (omega (arith, p, length-append woken (x ∷ [])), omega (arith, q, length-append woken (x ∷ [])))

abbrev one_if : Bool → ℕ
one_if true = 1
one_if false = 0

take_out-length :
    (id : ℕ) (xs : List ℕ) → length (take_out id xs).0 + one_if (take_out id xs).1 ≡ length xs
unfolding take_out
take_out-length id [] = refl
take_out-length id (x ∷ xs) = elim (Bool-cases (x == id)) [
  | inl e ↦ rw e (omega arith)
  | inr e ↦ rw e (omega (arith, take_out-length id xs))
]

module _ (m q : ℕ) where
  -- Every slot is free, with a woken caller or with a running one; the callers that wait are counted,
  -- and the queue has its bound.
  pub record IsValid (g : InferenceGate) : Type 0 where
    pub slots : g.value + length g.woken + g.running ≡ m
    pub counted : g.waiting ≡ length g.waiters + length g.woken
    pub capacity : g.max_queue ≡ q
    pub bounded : g.waiting ≤ q

  woken_up-IsValid : (g : InferenceGate) → IsValid g → IsValid (woken_up g)
  woken_up-IsValid g h =
      let (p, q) = wake-slots g.value g.waiters g.woken in
      record {
        slots = omega (arith, p, h.slots);
        counted = omega (arith, q, h.counted);
        capacity = h.capacity;
        bounded = h.bounded;
      }

  arrives-IsValid :
      (g : InferenceGate) (id : ℕ) (b : Bool)
      → locked g ≡ b
      → leb g.max_queue g.waiting ≡ false ⊎ b ≡ false
      → IsValid g
      → IsValid (
          if b
          then record g { waiters = g.waiters ++ id ∷ []; waiting = suc g.waiting }
          else record g { value = g.value - 1; running = suc g.running })
  arrives-IsValid g id true e (inl free) h = record {
    slots = h.slots;
    counted = omega (arith, h.counted, length-append g.waiters (id ∷ []));
    capacity = h.capacity;
    bounded = ground (arith, free, h.bounded, h.capacity);
  }
  arrives-IsValid g id true e (inr never) h = cc
  arrives-IsValid g id false e free h = record {
    slots = ground (arith, e, h.slots);
    counted = h.counted;
    capacity = h.capacity;
    bounded = h.bounded;
  }

  leave_woken-IsValid :
      (g : InferenceGate) (taken : List ℕ × Bool)
      → length taken.0 + one_if taken.1 ≡ length g.woken
      → IsValid g
      → IsValid (leave_woken taken g)
  leave_woken-IsValid g (rest, false) p h = h
  leave_woken-IsValid g (rest, true) p h =
      woken_up-IsValid (record g { value = suc g.value; woken = rest; waiting = g.waiting - 1 })
        (record {
          slots = omega (arith, p, h.slots);
          counted = omega (arith, p, h.counted);
          capacity = h.capacity;
          bounded = omega (arith, h.bounded);
        })

  leave-IsValid :
      (g : InferenceGate) (id : ℕ) (taken : List ℕ × Bool)
      → length taken.0 + one_if taken.1 ≡ length g.waiters
      → IsValid g
      → IsValid (leave id taken g)
  leave-IsValid g id (rest, false) p h =
      leave_woken-IsValid g (take_out id g.woken) (take_out-length id g.woken) h
  leave-IsValid g id (rest, true) p h =
      woken_up-IsValid (record g { waiters = rest; waiting = g.waiting - 1 })
        (record {
          slots = h.slots;
          counted = omega (arith, p, h.counted);
          capacity = h.capacity;
          bounded = omega (arith, h.bounded);
        })

  resumes-IsValid :
      (g : InferenceGate) (woken : List ℕ)
      → g.woken ≡ woken
      → IsValid g
      → IsValid (elim woken [
        | [] ↦ g
        | x ∷ xs ↦
            woken_up (record g { woken = xs; running = suc g.running; waiting = g.waiting - 1 })
      ])
  resumes-IsValid g [] e h = h
  resumes-IsValid g (x ∷ xs) e h =
      let p = ap (length {A = ℕ}) e in
      woken_up-IsValid (record g { woken = xs; running = suc g.running; waiting = g.waiting - 1 })
        (record {
          slots = omega (arith, p, h.slots);
          counted = omega (arith, p, h.counted);
          capacity = h.capacity;
          bounded = omega (arith, h.bounded);
        })

  released-IsValid :
      (g : InferenceGate) (waiters : List ℕ)
      → g.waiters ≡ waiters
      → suc (g.value + length g.woken + g.running) ≡ m
      → g.waiting ≡ length g.waiters + length g.woken
      → g.max_queue ≡ q
      → g.waiting ≤ q
      → IsValid (elim waiters [
        | [] ↦ record g { value = suc g.value }
        | x ∷ xs ↦ record g { waiters = xs; woken = g.woken ++ x ∷ [] }
      ])
  released-IsValid g [] e slots counted capacity bounded = record {
    slots = omega (arith, slots);
    counted = counted;
    capacity = capacity;
    bounded = bounded;
  }
  released-IsValid g (x ∷ xs) e slots counted capacity bounded =
      let p = ap (length {A = ℕ}) e in
      record {
        slots = omega (arith, slots, length-append g.woken (x ∷ []));
        counted = omega (arith, p, counted, length-append g.woken (x ∷ []));
        capacity = capacity;
        bounded = bounded;
      }

  finishes-IsValid :
      (g : InferenceGate) (n : ℕ)
      → g.running ≡ n
      → IsValid g
      → IsValid (elim n [ zero ↦ g | suc k ↦ released (record g { running = k }) ])
  finishes-IsValid g zero e h = h
  finishes-IsValid g (suc k) e h =
      released-IsValid (record g { running = k }) g.waiters refl (omega (arith, e, h.slots))
        h.counted h.capacity h.bounded

  step-IsValid : (g : InferenceGate) (s : Step) → IsValid g → IsValid (step g s)
  unfolding step
  step-IsValid g (Step.arrives id) h = elim (Bool-cases (is_saturated g)) [
    | inl e ↦ rw e h
    | inr e ↦ rw e (arrives-IsValid g id (locked g) refl (unsaturated (locked g) e) h)
  ]
    where
      unsaturated :
          (b : Bool)
          → (b && leb g.max_queue g.waiting) ≡ false
          → leb g.max_queue g.waiting ≡ false ⊎ b ≡ false
      unsaturated true e = inl e
      unsaturated false e = inr refl
  step-IsValid g Step.resumes h = resumes-IsValid g g.woken refl h
  step-IsValid g Step.finishes h = finishes-IsValid g g.running refl h
  step-IsValid g Step.abandons h = finishes-IsValid g g.running refl h
  step-IsValid g (Step.times_out id) h =
      leave-IsValid g id (take_out id g.waiters) (take_out-length id g.waiters) h

  new_gate-IsValid : IsValid (new_gate m q)
  unfolding new_gate
  new_gate-IsValid = record {
    slots = omega arith;
    counted = refl;
    capacity = refl;
    bounded = omega arith;
  }

  run-IsValid : (g : InferenceGate) (ss : List Step) → IsValid g → IsValid (run g ss)
  unfolding run
  run-IsValid g [] h = h
  run-IsValid g (s ∷ ss) h = run-IsValid (step g s) ss (step-IsValid g s h)

  -- Whatever callers and threads do, cancellations included, never more than max_concurrency callers hold a
  -- slot and await their thread, and never more than max_queue wait for one; the gate's own count of those is
  -- right, and every slot is free, handed to a woken caller or held. A thread whose caller was cancelled holds no
  -- slot, and is not counted.
  pub run-IsBounded :
      (ss : List Step)
      → let g = run (new_gate m q) ss in
        (g.running ≤ m)
        × (g.waiting ≤ q)
        × (g.waiting ≡ length g.waiters + length g.woken)
        × (g.value + length g.woken + g.running ≡ m)
  run-IsBounded ss =
      let h = run-IsValid (new_gate m q) ss new_gate-IsValid in
      (omega (arith, h.slots), h.bounded, h.counted, h.slots)
