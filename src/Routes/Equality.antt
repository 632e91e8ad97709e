-- ===== src/Routes/Equality.antt =====
-- When two deployments of app/gateway/routing_config.py are equal: `options` is a dict, whose order does not count.
use llm_gateway_rag.Common.{
  String, Option, none, some, [], ◌∷◌, ◌≡◌, ◌⊎◌, ◌↔◌, inl, inr, refl, sym, ◌∙◌, Bool, true, false,
  ◌&&◌, arith, Bool-cases, str_eq, str_eq_iff,
}
use llm_gateway_rag.Common.Dict.{Dict, lookup}
use llm_gateway_rag.Routes.{
  Deployment, Deployment-discrete, same_value, agree_on, same_options, without_options,
  same_deployment,
}
use mathlib.Core.Logic.{ite}

-- Two deployments with the same fields, whose options have the same value under every key.
abbrev pub Same : Deployment → Deployment → Type 0
Same d e =
    (without_options d ≡ without_options e)
    × ((k : String) → lookup k d.options ≡ lookup k e.options)

pub Same-refl : (d : Deployment) → Same d d
Same-refl d = (refl, λ k. refl)

pub Same-sym : (d e : Deployment) → Same d e → Same e d
Same-sym d e (p, q) = (sym p, λ k. sym (q k))

pub Same-trans : (c d e : Deployment) → Same c d → Same d e → Same c e
Same-trans c d e (p, q) (p', q') = (p ∙ p', λ k. q k ∙ q' k)

same_value_iff : (a b : Option String) → (same_value a b ≡ true) ↔ (a ≡ b)
same_value_iff none none = (λ h. refl, λ h. refl)
same_value_iff none (some w) = (λ h. cc, λ h. cc)
same_value_iff (some v) none = (λ h. cc, λ h. cc)
same_value_iff (some v) (some w) = ground (arith, str_eq_iff v w)

-- the dict has this key
abbrev Has : String → Dict String → Type 0
Has k [] = ⊥
Has k ((j, v) ∷ d) = (j ≡ k) ⊎ Has k d

absent_or_Has : (k : String) (d : Dict String) → (lookup k d ≡ none) ⊎ Has k d
unfolding lookup
absent_or_Has k [] = inl refl
absent_or_Has k ((j, v) ∷ d) = elim (Bool-cases (str_eq j k)) [
  | inl e ↦ inr (inl ((str_eq_iff j k).0 e))
  | inr e ↦ elim (absent_or_Has k d) [ inl h ↦ inl (rw (e, lookup) h) | inr h ↦ inr (inr h) ]
]

and_left : (a b : Bool) → (a && b) ≡ true → a ≡ true
and_left a b h = ground arith

and_right : (a b : Bool) → (a && b) ≡ true → b ≡ true
and_right a b h = ground arith

agree_on-Has :
    (ks a b : Dict String) (k : String)
    → agree_on ks a b ≡ true
    → Has k ks
    → lookup k a ≡ lookup k b
unfolding agree_on
agree_on-Has [] a b k h m = absurd m
agree_on-Has ((j, v) ∷ ks) a b k h (inl e) =
    rw (← e) ((same_value_iff (lookup j a) (lookup j b)).0 (and_left _ (agree_on ks a b) h))
agree_on-Has ((j, v) ∷ ks) a b k h (inr m) =
    agree_on-Has ks a b k (and_right (same_value (lookup j a) (lookup j b)) _ h) m

agree_on_all :
    (ks a b : Dict String) → ((k : String) → lookup k a ≡ lookup k b) → agree_on ks a b ≡ true
unfolding agree_on
agree_on_all [] a b h = refl
agree_on_all ((j, v) ∷ ks) a b h =
    rw ((same_value_iff (lookup j a) (lookup j b)).1 (h j)) (agree_on_all ks a b h)

same_options_iff :
    (a b : Dict String) → (same_options a b ≡ true) ↔ ((k : String) → lookup k a ≡ lookup k b)
same_options_iff a b = (
  λ h k. elim (absent_or_Has k a) [
    | inr m ↦ agree_on-Has a a b k (and_left _ (agree_on b a b) h) m
    | inl p ↦ elim (absent_or_Has k b) [
      | inr m ↦ agree_on-Has b a b k (and_right (agree_on a a b) _ h) m
      | inl q ↦ p ∙ sym q
    ]
  ],
  λ h. rw (agree_on_all a a b h) (agree_on_all b a b h),
)

-- The test that the code makes is this equality.
pub same_deployment_iff : (d e : Deployment) → (same_deployment d e ≡ true) ↔ Same d e
same_deployment_iff d e = decided (Deployment-discrete (without_options d) (without_options e))
  where
    decided :
        (fields : Dec (without_options d ≡ without_options e))
        → (ite fields (same_options d.options e.options) false ≡ true) ↔ Same d e
    decided (yes p) = (
      λ h. (p, (same_options_iff d.options e.options).0 h),
      λ h. (same_options_iff d.options e.options).1 h.1,
    )
    decided (no p) = (λ h. cc, λ h. absurd (p h.0))
