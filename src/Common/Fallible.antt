-- ===== src/Common/Fallible.antt =====
-- Stateful code that may raise: an action's answer, or one of the exceptions that callers tell apart.
use Prim.Native.String.{String}
use mathlib.Core.Path.{◌≡◌, refl}

-- `overloaded` is `OverloadedError`, `raised` any other exception.
pub data Fallible (A : Type 0) : Type 0 where
  done : A → Fallible A
  overloaded : Fallible A
  raised : String → Fallible A

-- goes on with an answer, and lets an exception pass
abbrev pub proceed : {S A B : Type 0} → (A → S → Fallible B × S) → Fallible A → S → Fallible B × S
proceed f (Fallible.done a) s = f a s
proceed f Fallible.overloaded s = (Fallible.overloaded, s)
proceed f (Fallible.raised e) s = (Fallible.raised e, s)

abbrev pub pure : {S A : Type 0} → A → S → Fallible A × S
pure a s = (Fallible.done a, s)

infixl 5 ◌>>=◌ ◌>>◌
abbrev pub ◌>>=◌ :
    {S A B : Type 0} → (S → Fallible A × S) → (A → S → Fallible B × S) → S → Fallible B × S
◌>>=◌ m f s = proceed f (m s).0 (m s).1

abbrev pub ◌>>◌ :
    {S A B : Type 0} → (S → Fallible A × S) → (S → Fallible B × S) → S → Fallible B × S
◌>>◌ m k s = proceed (λ a. k) (m s).0 (m s).1

-- An answer of two steps is an answer of each.
pub proceed-done :
    {S A B : Type 0} (f : A → S → Fallible B × S) (r : Fallible A) (s : S) {b : B}
    → (proceed f r s).0 ≡ Fallible.done b
    → (a : A) × (r ≡ Fallible.done a) × ((f a s).0 ≡ Fallible.done b)
proceed-done f (Fallible.done a) s h = (a, refl, h)
proceed-done f Fallible.overloaded s h = cc
proceed-done f (Fallible.raised e) s h = cc

pub done_injective : {A : Type 0} {a b : A} → Fallible.done a ≡ Fallible.done b → a ≡ b
done_injective h = cc

-- What holds of the last state whenever the second step answers, holds when both do.
pub proceed-ends :
    {S A B : Type 0} (P : S → Type 0) (f : A → S → Fallible B × S) (r : Fallible A) (s : S) {b : B}
    → ((a : A) → r ≡ Fallible.done a → (f a s).0 ≡ Fallible.done b → P (f a s).1)
    → (proceed f r s).0 ≡ Fallible.done b
    → P (proceed f r s).1
proceed-ends P f (Fallible.done a) s k h = k a refl h
proceed-ends P f Fallible.overloaded s k h = cc
proceed-ends P f (Fallible.raised e) s k h = cc

-- A last step that keeps the state.
pub proceed-keeps :
    {S A B : Type 0} (b : B) (r : Fallible A) (s : S) → (proceed (λ a. pure b) r s).1 ≡ s
proceed-keeps b (Fallible.done a) s = refl
proceed-keeps b Fallible.overloaded s = refl
proceed-keeps b (Fallible.raised e) s = refl
