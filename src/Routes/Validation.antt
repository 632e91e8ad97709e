-- ===== src/Routes/Validation.antt =====
-- What `_validate` accepts, and what the router may then rely on.
use llm_gateway_rag.Common.{
  String, Option, some, List, [], ◌∷◌, ◌≡◌, ◌≢◌, ◌↔◌, inl, inr, refl, ap, All, All-append, All-left,
  All-right, All-mono, Option-cases, Bool-cases, arith, str_eq, str_eq_iff, sym, ◌∙◌,
}
use llm_gateway_rag.Common.Dict.{Dict, lookup, insert, lookup-insert, lookup-insert_self}
use mathlib.Core.Path.{subst}
use llm_gateway_rag.Routes.Equality.{Same, Same-refl, Same-sym, Same-trans, same_deployment_iff}
use llm_gateway_rag.Routes.{
  Deployment, same_deployment, RoutingConfig, Checked, ◌>>=◌, check_deployment, check_chain,
  >>=-eq-valid, check_routes, validate, all_deployments, collect, deployments,
}

-- The table `named` gives, for its name, a deployment that equals this one.
abbrev pub NamedBy : (String → Option Deployment) → Deployment → Type 0
NamedBy named dep = (d : Deployment) × (named dep.name ≡ some d) × Same d dep

abbrev pub Extends : Dict Deployment → (String → Option Deployment) → Type 0
Extends seen named = (k : String) (d : Deployment) → lookup k seen ≡ some d → named k ≡ some d

NamedBy-mono :
    (named named' : String → Option Deployment) (dep : Deployment)
    → ((k : String) (d : Deployment) → named k ≡ some d → named' k ≡ some d)
    → NamedBy named dep
    → NamedBy named' dep
NamedBy-mono named named' dep grown (d, p, q) = (d, grown dep.name d p, q)

-- Every route has a deployment.
abbrev pub HasChains : RoutingConfig → Type 0
HasChains = All (λ r. r.1 ≢ [])

check_deployment_sound :
    (seen : Dict Deployment) (dep : Deployment) {seen' : Dict Deployment}
    → check_deployment seen dep ≡ Checked.valid seen'
    → Extends seen (λ k. lookup k seen') × NamedBy (λ k. lookup k seen') dep
unfolding check_deployment
check_deployment_sound seen dep {seen'} h = elim (Option-cases (lookup dep.name seen)) [
  | inl e ↦
      let grown = λ (k : String). lookup-insert dep.name k dep seen in
      (
        λ k d q. ground (arith, grown k, str_eq_iff dep.name k, e),
        (dep, ground (arith, grown dep.name, str_eq_iff dep.name dep.name, e), Same-refl dep),
      )
  | inr (d, e) ↦ elim (Bool-cases (same_deployment d dep)) [
    | inl p ↦
        (λ k d' q. ground (arith, e, p), (d, ground (arith, e, p), (same_deployment_iff d dep).0 p))
    | inr p ↦ absurd (ground (arith, e, p))
  ]
]

check_chain_sound :
    (seen : Dict Deployment) (chain : List Deployment) {seen' : Dict Deployment}
    → check_chain seen chain ≡ Checked.valid seen'
    → Extends seen (λ k. lookup k seen') × All (NamedBy (λ k. lookup k seen')) chain
unfolding check_chain
check_chain_sound seen [] {seen'} h = (λ k d q. ground (arith, h), tt)
check_chain_sound seen (dep ∷ chain) {seen'} h =
    let (mid, first, rest) = >>=-eq-valid (check_deployment seen dep) _ h in
    let (grown, named) = check_deployment_sound seen dep first in
    let (grown', others) = check_chain_sound mid chain rest in
    (
      λ k d q. grown' k d (grown k d q),
      (NamedBy-mono (λ k. lookup k mid) (λ k. lookup k seen') dep grown' named, others),
    )

check_routes_sound :
    (seen : Dict Deployment) (routes : RoutingConfig) {seen' : Dict Deployment}
    → check_routes seen routes ≡ Checked.valid seen'
    → Extends seen (λ k. lookup k seen')
      × HasChains routes
      × All (NamedBy (λ k. lookup k seen')) (all_deployments routes)
unfolding check_routes all_deployments
check_routes_sound seen [] {seen'} h = (λ k d q. ground (arith, h), tt, tt)
check_routes_sound seen ((alias, []) ∷ routes) h = cc
check_routes_sound seen ((alias, dep ∷ chain) ∷ routes) {seen'} h =
    let (mid, first, rest) = >>=-eq-valid (check_chain seen (dep ∷ chain)) _ h in
    let (grown, named) = check_chain_sound seen (dep ∷ chain) first in
    let (grown', chains, others) = check_routes_sound mid routes rest in
    let kept =
      All-mono (NamedBy (λ k. lookup k mid)) (NamedBy (λ k. lookup k seen'))
        (λ d q. NamedBy-mono (λ k. lookup k mid) (λ k. lookup k seen') d grown' q) (dep ∷ chain)
        named in
    (
      λ k d q. grown' k d (grown k d q),
      (λ e. cc e, chains),
      All-append (NamedBy (λ k. lookup k seen')) (dep ∷ chain) (all_deployments routes) kept others,
    )

-- What was seen equals what the table of names gives.
abbrev pub Agrees : Dict Deployment → (String → Option Deployment) → Type 0
Agrees seen named =
    (k : String) (d : Deployment)
    → lookup k seen ≡ some d
    → (d' : Deployment) × (named k ≡ some d') × Same d' d

module _ (named : String → Option Deployment) where
  insert-Agrees :
      (seen : Dict Deployment) (dep : Deployment)
      → Agrees seen named
      → NamedBy named dep
      → Agrees (insert dep.name dep seen) named
  insert-Agrees seen dep agree (d', p, q) k d h = elim (Bool-cases (str_eq dep.name k)) [
    | inl e ↦
        let same : dep ≡ d = ground (arith, lookup-insert dep.name k dep seen, e, h) in
        (d', ap named (sym ((str_eq_iff dep.name k).0 e)) ∙ p, subst (Same d') same q)
    | inr e ↦ agree k d (ground (arith, lookup-insert dep.name k dep seen, e, h))
  ]

  agreeing :
      (seen : Dict Deployment) (dep d : Deployment)
      → Agrees seen named
      → NamedBy named dep
      → lookup dep.name seen ≡ some d
      → Same d dep
  agreeing seen dep d agree (d'', p, q) e =
      let (d', p', q') = agree dep.name d e in
      let same : d' ≡ d'' = cc in
      Same-trans d d' dep (Same-sym d' d q') (subst (λ x. Same x dep) (sym same) q)

  check_deployment_complete :
      (seen : Dict Deployment) (dep : Deployment)
      → Agrees seen named
      → NamedBy named dep
      → (seen' : Dict Deployment) × (check_deployment seen dep ≡ Checked.valid seen')
        × Agrees seen' named
  unfolding check_deployment
  check_deployment_complete seen dep agree n = elim (Option-cases (lookup dep.name seen)) [
    | inl e ↦ (insert dep.name dep seen, rw (e, check_deployment), insert-Agrees seen dep agree n)
    | inr (d, e) ↦
        let same = (same_deployment_iff d dep).1 (agreeing seen dep d agree n e) in
        (seen, rw (e, check_deployment) (rw same refl), agree)
  ]

  check_chain_complete :
      (seen : Dict Deployment) (chain : List Deployment)
      → Agrees seen named
      → All (NamedBy named) chain
      → (seen' : Dict Deployment) × (check_chain seen chain ≡ Checked.valid seen')
        × Agrees seen' named
  unfolding check_chain
  check_chain_complete seen [] agree n = (seen, refl, agree)
  check_chain_complete seen (dep ∷ chain) agree n =
      let (mid, first, agree') = check_deployment_complete seen dep agree n.0 in
      let (seen', rest, agree'') = check_chain_complete mid chain agree' n.1 in
      (seen', rw first rest, agree'')

  check_routes_complete :
      (seen : Dict Deployment) (routes : RoutingConfig)
      → Agrees seen named
      → HasChains routes
      → All (NamedBy named) (all_deployments routes)
      → (seen' : Dict Deployment) × (check_routes seen routes ≡ Checked.valid seen')
  unfolding check_routes all_deployments
  check_routes_complete seen [] agree c n = (seen, refl)
  check_routes_complete seen ((alias, []) ∷ routes) agree c n = absurd (c.0 refl)
  check_routes_complete seen ((alias, dep ∷ chain) ∷ routes) agree c n =
      let here = All-left (NamedBy named) (dep ∷ chain) (all_deployments routes) n in
      let there = All-right (NamedBy named) (dep ∷ chain) (all_deployments routes) n in
      let (mid, first, agree') = check_chain_complete seen (dep ∷ chain) agree here in
      let (seen', rest) = check_routes_complete mid routes agree' c.1 there in
      (seen', rw first rest)

none_named : (named : String → Option Deployment) → Agrees [] named
unfolding lookup
none_named named k d q = cc

-- A route table passes `_validate` exactly if every route has a deployment and some table of names
-- gives, for every deployment of every chain, a deployment that equals it for its name: the order of the
-- options does not count.
pub validate_iff :
    (routes : RoutingConfig)
    → (validate routes ≡ Checked.valid routes) ↔ (
        HasChains routes
        × ((named : String → Option Deployment) × All (NamedBy named) (all_deployments routes)))
unfolding validate
validate_iff routes = (
  (λ h.
      let (seen, checked, _) = >>=-eq-valid (check_routes [] routes) _ h in
      let (_, chains, named) = check_routes_sound [] routes checked in
      (chains, (λ k. lookup k seen, named))),
  λ (chains, (named, agree)).
      let (seen, checked) =
        check_routes_complete named [] routes (λ k d q. none_named named k d q) chains agree in
      ap (λ m. m >>= λ _. Checked.valid routes) checked,
)

-- The entry that `collect` ends with for a name, when every deployment agrees with a table.
module _ (named : String → Option Deployment) where
  -- the entry for a name equals what the table gives
  abbrev pub Entered : String → Deployment → Dict Deployment → Type 0
  Entered k v acc = (w : Deployment) × (lookup k acc ≡ some w) × Same v w

  insert-Entered :
      (k : String) (v dep : Deployment) (acc : Dict Deployment)
      → named k ≡ some v
      → NamedBy named dep
      → Entered k v acc
      → Entered k v (insert dep.name dep acc)
  insert-Entered k v dep acc q (d', p, same) (w, e, same') = elim (Bool-cases (str_eq dep.name k)) [
    | inl h ↦
        let names : dep.name ≡ k = (str_eq_iff dep.name k).0 h in
        let one : d' ≡ v = cc in
        (dep, ground (arith, lookup-insert dep.name k dep acc, h), subst (λ x. Same x dep) one same)
    | inr h ↦ (w, ground (arith, lookup-insert dep.name k dep acc, h, e), same')
  ]

  collect_keeps :
      (k : String) (v : Deployment) (acc : Dict Deployment) (deps : List Deployment)
      → named k ≡ some v
      → Entered k v acc
      → All (NamedBy named) deps
      → Entered k v (collect acc deps)
  unfolding collect
  collect_keeps k v acc [] q e n = e
  collect_keeps k v acc (dep ∷ deps) q e n =
      collect_keeps k v (insert dep.name dep acc) deps q (insert-Entered k v dep acc q n.0 e) n.1

  collect_named :
      (acc : Dict Deployment) (deps : List Deployment)
      → All (NamedBy named) deps
      → All (NamedBy (λ k. lookup k (collect acc deps))) deps
  unfolding collect
  collect_named acc [] n = tt
  collect_named acc (dep ∷ deps) n =
      let (d', p, q) = n.0 in
      let (w, e, q') =
        collect_keeps dep.name d' (insert dep.name dep acc) deps p
          (dep, lookup-insert_self dep.name dep acc, q) n.1 in
      (
        (w, e, Same-trans w d' dep (Same-sym d' w q') q),
        collect_named (insert dep.name dep acc) deps n.1,
      )

-- In a table that passed `_validate`, `deployments` maps the name of every deployment of every
-- chain to a deployment that equals it, so one circuit breaker per name is one per deployment.
pub deployments_of_valid :
    (routes : RoutingConfig)
    → validate routes ≡ Checked.valid routes
    → All (NamedBy (λ k. lookup k (deployments routes))) (all_deployments routes)
unfolding deployments
deployments_of_valid routes h =
    let (_, (named, agree)) = (validate_iff routes).0 h in
    collect_named named [] (all_deployments routes) agree
