-- ===== src/Common/Words.antt =====
-- How `str.split()` works through texts that are put together.
use Prim.Native.Nat.{ℕ, zero, suc}
use mathlib.Core.Path.{◌≡◌, refl, sym, ap, ◌∙◌}
use mathlib.Core.Logic.{inl, inr}
use mathlib.Core.Bool.{true, false}
use mathlib.Core.List.{List, [], ◌∷◌, ◌++◌}
use llm_gateway_rag.Common.Tests.{Bool-cases}
use llm_gateway_rag.Common.Lists.{All, All-append, take, drop}
use llm_gateway_rag.Common.Text.{Text, is_space, close_word, split_from, split, join_words}

abbrev pub Solid : ℕ → Type 0
Solid c = is_space c ≡ false

-- A word is not empty and has no white space.
abbrev pub IsWord : Text → Type 0
IsWord [] = ⊥
IsWord (c ∷ w) = All Solid (c ∷ w)

close_word-append : (w : Text) (ws vs : List Text) → close_word w (ws ++ vs) ≡ close_word w ws ++ vs
close_word-append [] ws vs = refl
close_word-append (c ∷ w) ws vs = refl

split_from-append :
    (w a : Text) (c : ℕ) (b : Text)
    → is_space c ≡ true
    → split_from w (a ++ c ∷ b) ≡ split_from w a ++ split b
unfolding split_from split
split_from-append w [] c b h = rw h (close_word-append w [] (split_from [] b))
split_from-append w (x ∷ a) c b h = elim (Bool-cases (is_space x)) [
  | inl e ↦ rw e (
      ap (close_word w) (split_from-append [] a c b h)
      ∙ close_word-append w (split_from [] a) (split b))
  | inr e ↦ rw e (split_from-append (w ++ x ∷ []) a c b h)
]

-- White space separates words.
pub split-append :
    (a : Text) (c : ℕ) (b : Text) → is_space c ≡ true → split (a ++ c ∷ b) ≡ split a ++ split b
unfolding split
split-append a c b h = split_from-append [] a c b h

snoc_assoc : (v : Text) (c : ℕ) (w : Text) → (v ++ c ∷ []) ++ w ≡ v ++ c ∷ w
snoc_assoc [] c w = refl
snoc_assoc (x ∷ v) c w = ap (λ r. x ∷ r) (snoc_assoc v c w)

append_nil : (v : Text) → v ++ [] ≡ v
append_nil [] = refl
append_nil (x ∷ v) = ap (λ r. x ∷ r) (append_nil v)

split_from-Solid : (v w : Text) → All Solid w → split_from v w ≡ close_word (v ++ w) []
unfolding split_from
split_from-Solid v [] h = ap (λ r. close_word r []) (sym (append_nil v))
split_from-Solid v (c ∷ w) h =
    rw h.0 (split_from-Solid (v ++ c ∷ []) w h.1 ∙ ap (λ r. close_word r []) (snoc_assoc v c w))

pub split-IsWord : (w : Text) → IsWord w → split w ≡ w ∷ []
unfolding split
split-IsWord [] h = absurd h
split-IsWord (c ∷ w) h = split_from-Solid [] (c ∷ w) h

pub split-join_words : (ws : List Text) → All IsWord ws → split (join_words ws) ≡ ws
unfolding join_words split split_from
split-join_words [] h = refl
split-join_words (w ∷ []) h = split-IsWord w h.0
split-join_words (w ∷ v ∷ ws) h =
    split-append w 32 (join_words (v ∷ ws)) refl
    ∙ ap (λ r. r ++ split (join_words (v ∷ ws))) (split-IsWord w h.0)
    ∙ ap (λ r. w ∷ r) (split-join_words (v ∷ ws) h.1)

close_word-IsWord :
    (v : Text) (ws : List Text) → All Solid v → All IsWord ws → All IsWord (close_word v ws)
close_word-IsWord [] ws h k = k
close_word-IsWord (c ∷ v) ws h k = (h, k)

split_from-IsWord : (v t : Text) → All Solid v → All IsWord (split_from v t)
unfolding split_from
split_from-IsWord v [] h = close_word-IsWord v [] h tt
split_from-IsWord v (c ∷ t) h = elim (Bool-cases (is_space c)) [
  | inl e ↦ rw e (close_word-IsWord v (split_from [] t) h (split_from-IsWord [] t tt))
  | inr e ↦ rw e (split_from-IsWord (v ++ c ∷ []) t (All-append Solid v (c ∷ []) h (e, tt)))
]

pub split-Words : (t : Text) → All IsWord (split t)
unfolding split
split-Words t = split_from-IsWord [] t tt

module _ {ℓ κ} {A : Type ℓ} (P : A → Type κ) where
  pub All-take : (n : ℕ) (xs : List A) → All P xs → All P (take n xs)
  All-take zero xs h = tt
  All-take (suc n) [] h = tt
  All-take (suc n) (x ∷ xs) h = (h.0, All-take n xs h.1)

  pub All-drop : (n : ℕ) (xs : List A) → All P xs → All P (drop n xs)
  All-drop zero xs h = h
  All-drop (suc n) [] h = tt
  All-drop (suc n) (x ∷ xs) h = All-drop n xs h.1
