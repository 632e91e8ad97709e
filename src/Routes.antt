-- ===== src/Routes.antt =====
-- The route table, app/gateway/routing_config.py, and the price of a request by it,
-- app/gateway/pricing.py. A YAML document enters as the parsed table.
pub mod Equality
pub mod Validation
use llm_gateway_rag.Common.{
  ℕ, ◌+◌, ◌*◌, String, Option, none, some, Bool, true, false, List, [], ◌∷◌, ◌++◌, is_some, ◌≡◌,
  refl, if◌then◌else◌, str_eq, ◌&&◌,
}
use llm_gateway_rag.Common.Dict.{Dict, lookup, insert}
use llm_gateway_rag.Common.Int.{ℤ}
use llm_gateway_rag.Common.Text.{String-discrete}
use native.Mathlib.Decide.{ℕ_discrete}
use mathlib.Core.Logic.{ite}

-- Prices in a fixed unit per million tokens; they are not negative.
pub record Pricing : Type 0 where
  pub input_per_mtok : ℕ
  pub output_per_mtok : ℕ

pub record Deployment : Type 0 where
  pub name : String
  pub provider : String
  pub model : String
  pub api_base : Option String
  pub timeout : Option ℤ
  pub max_retries : ℕ
  pub pricing : Option Pricing
  pub self_hosted : Bool
  pub options : Dict String

pub Deployment-discrete : Discrete Deployment
Deployment-discrete = hlevel (ℕ_discrete, String-discrete)

abbrev pub same_value : Option String → Option String → Bool
same_value none none = true
same_value (some v) (some w) = str_eq v w
same_value _ _ = false

unfoldable pub agree_on : Dict String → Dict String → Dict String → Bool
agree_on [] a b = true
agree_on ((k, v) ∷ ks) a b = same_value (lookup k a) (lookup k b) && agree_on ks a b

-- `==` of two dicts: the same values under the keys of both, in any order
abbrev pub same_options : Dict String → Dict String → Bool
same_options a b = agree_on a a b && agree_on b a b

abbrev pub without_options : Deployment → Deployment
without_options d = record d { options = [] }

-- `==` of two deployments, field by field
abbrev pub same_deployment : Deployment → Deployment → Bool
same_deployment d e =
    ite (Deployment-discrete (without_options d) (without_options e))
      (same_options d.options e.options) false

abbrev pub RoutingConfig : Type 0
RoutingConfig = Dict (List Deployment)

pub data ConfigError : Type 0 where
  no_deployments : String → ConfigError
  defined_twice : String → ConfigError

pub data Checked {ℓ} (A : Type ℓ) : Type ℓ where
  valid : A → Checked A
  invalid : ConfigError → Checked A

infixl 5 ◌>>=◌
abbrev pub ◌>>=◌ {ℓ κ} : {A : Type ℓ} {B : Type κ} → Checked A → (A → Checked B) → Checked B
Checked.valid a >>= f = f a
Checked.invalid e >>= f = Checked.invalid e

pub >>=-eq-valid {ℓ κ} :
    {A : Type ℓ} {B : Type κ} (m : Checked A) (f : A → Checked B) {b : B}
    → (m >>= f) ≡ Checked.valid b
    → (a : A) × (m ≡ Checked.valid a) × (f a ≡ Checked.valid b)
>>=-eq-valid (Checked.valid a) f h = (a, refl, h)
>>=-eq-valid (Checked.invalid e) f h = cc

-- `seen.setdefault(dep.name, dep) != dep`
unfoldable pub check_deployment : Dict Deployment → Deployment → Checked (Dict Deployment)
check_deployment seen dep = elim (lookup dep.name seen) [
  | none ↦ Checked.valid (insert dep.name dep seen)
  | some d ↦
      if same_deployment d dep
      then Checked.valid seen
      else Checked.invalid (ConfigError.defined_twice dep.name)
]

unfoldable pub check_chain : Dict Deployment → List Deployment → Checked (Dict Deployment)
check_chain seen [] = Checked.valid seen
check_chain seen (dep ∷ chain) = do seen' ← check_deployment seen dep; check_chain seen' chain

unfoldable pub check_routes : Dict Deployment → RoutingConfig → Checked (Dict Deployment)
check_routes seen [] = Checked.valid seen
check_routes seen ((alias, []) ∷ routes) = Checked.invalid (ConfigError.no_deployments alias)
check_routes seen ((alias, dep ∷ chain) ∷ routes) = do
  seen' ← check_chain seen (dep ∷ chain)
  check_routes seen' routes

-- `_validate`
unfoldable pub validate : RoutingConfig → Checked RoutingConfig
unfolding check_routes
validate routes = do _ ← check_routes [] routes; Checked.valid routes

-- `for chain in self.routes.values() for d in chain`
unfoldable pub all_deployments : RoutingConfig → List Deployment
all_deployments [] = []
all_deployments ((alias, chain) ∷ routes) = chain ++ all_deployments routes

unfoldable pub collect : Dict Deployment → List Deployment → Dict Deployment
collect d [] = d
collect d (dep ∷ deps) = collect (insert dep.name dep d) deps

-- the property `deployments`: a later one of the same name replaces an earlier one
unfoldable pub deployments : RoutingConfig → Dict Deployment
unfolding all_deployments collect
deployments routes = collect [] (all_deployments routes)

pub record Usage : Type 0 where
  pub prompt_tokens : ℕ
  pub completion_tokens : ℕ

-- `compute_cost`, in millionths of the unit of `Pricing`: the division by 1_000_000 is the choice of
-- unit. `price_map` is LiteLLM's `cost_per_token`, with `none` for an exception.
unfoldable pub compute_cost : (String → ℕ → ℕ → Option ℕ) → Deployment → Usage → ℕ
compute_cost price_map dep usage = elim dep.pricing [
  | some p ↦ usage.prompt_tokens * p.input_per_mtok + usage.completion_tokens * p.output_per_mtok
  | none ↦ elim (price_map dep.model usage.prompt_tokens usage.completion_tokens) [
    | some cost ↦ cost
    | none ↦ 0
  ]
]
