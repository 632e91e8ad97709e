-- ===== src/Tests/Tables.antt =====
-- Route tables and prices on concrete data.
use llm_gateway_rag.Common.{String, Option, none, [], ◌∷◌, ◌≡◌, refl, ◌↔◌, All}
use llm_gateway_rag.Common.Dict.{lookup}
use llm_gateway_rag.Routes.{
  Deployment, RoutingConfig, Checked, ConfigError, validate, all_deployments, compute_cost,
}
use llm_gateway_rag.Routes.Equality.{Same-refl}
use llm_gateway_rag.Routes.Validation.{HasChains, NamedBy, validate_iff}
use llm_gateway_rag.Tests.Bench.{primary, backup, spent}

abbrev pub table : RoutingConfig
table = ("default", primary ∷ backup ∷ []) ∷ ("cheap", backup ∷ []) ∷ []

no_chain : validate (("default", []) ∷ []) ≡ Checked.invalid (ConfigError.no_deployments "default")
unfolding validate
no_chain = refl

cost_of_tokens : compute_cost (λ m p c. none) primary spent ≡ 80
unfolding compute_cost
cost_of_tokens = refl

names : String → Option Deployment
unfolding lookup
names k = lookup k (("primary", primary) ∷ ("backup", backup) ∷ [])

NamedBy-table : All (NamedBy names) (all_deployments table)
unfolding names all_deployments
NamedBy-table = (
  (primary, refl, Same-refl primary),
  ((backup, refl, Same-refl backup), ((backup, refl, Same-refl backup), tt)),
)

validate_iff_example : (validate table ≡ Checked.valid table) ↔ (
    HasChains table
    × ((named : String → Option Deployment) × All (NamedBy named) (all_deployments table)))
validate_iff_example = validate_iff table

chains : HasChains table
chains = (λ e. cc e, (λ e. cc e, tt))

pub table_valid : validate table ≡ Checked.valid table
table_valid = (validate_iff table).1 (chains, (names, NamedBy-table))
