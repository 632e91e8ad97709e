-- ===== src/Common/Action.antt =====
-- Stateful code: an action takes the state that it finds and gives a result and the state it leaves.

abbrev pub Action : Type 0 → Type 0 → Type 0
Action S A = S → A × S

abbrev pub pure : {S A : Type 0} → A → Action S A
pure a s = (a, s)

infixl 5 ◌>>=◌ ◌>>◌
abbrev pub ◌>>=◌ : {S A B : Type 0} → (S → A × S) → (A → S → B × S) → S → B × S
◌>>=◌ m f s = f (m s).0 (m s).1

abbrev pub ◌>>◌ : {S A B : Type 0} → (S → A × S) → (S → B × S) → S → B × S
◌>>◌ m k s = k (m s).1
