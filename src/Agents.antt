-- ===== src/Agents.antt =====
-- The state graph that agents run on, app/agents/graph.py. A node reads and changes the state of the
-- run and decides where to move, or raises. The step budget is the fuel of a run.
pub mod Paths
pub mod State
pub mod Nodes
pub mod Research
use llm_gateway_rag.Common.{
  ℕ, zero, suc, String, Bool, true, false, ◌&&◌, ◌||◌, not, Option, none, some, List, [], ◌∷◌, ◌++◌,
  is_some, str_eq, if◌then◌else◌,
}
use llm_gateway_rag.Common.Dict.{Dict, lookup}
use llm_gateway_rag.Common.Action.{Action, pure, ◌>>=◌}

-- END
abbrev pub end : String
end = "end"

pub record Next (N : Type 0) : Type 0 where
  pub node : String
  pub note : N

-- without the duration
pub record Step (N : Type 0) : Type 0 where
  pub node : String
  pub next : String
  pub note : N

pub data Decision (N X : Type 0) : Type 0 where
  move : Next N → Decision N X
  raises : X → Decision N X

pub record Graph (S N X : Type 0) : Type 0 where
  pub nodes : Dict (Action S (Decision N X))
  pub edges : Dict (List String)
  pub entry : String
  pub max_steps : ℕ

pub data GraphError : Type 0 where
  no_entry edges_missing : GraphError
  undefined_target no_edges : String → GraphError

-- How a run ends: `missing_node` is the `KeyError` of `self.nodes[current]` or `self.edges[current]`.
pub data RunEnd (X : Type 0) : Type 0 where
  finished budget_exceeded : RunEnd X
  bad_move : String → String → RunEnd X
  missing_node : String → RunEnd X
  raised : X → RunEnd X

abbrev pub has : List String → String → Bool
has [] k = false
has (j ∷ js) k = str_eq j k || has js k

abbrev pub has_key {ℓ} : {V : Type ℓ} → Dict V → String → Bool
has_key d k = is_some (lookup k d)

-- the keys of one dict are keys of the other
abbrev pub covers {ℓ κ} : {V : Type ℓ} {W : Type κ} → Dict V → Dict W → Bool
covers d [] = true
covers d ((k, w) ∷ e) = has_key d k && covers d e

abbrev pub is_nil : List String → Bool
is_nil [] = true
is_nil (t ∷ ts) = false

module _ {S N X : Type 0} where
  abbrev pub all_known : Graph S N X → List String → Bool
  all_known g [] = true
  all_known g (t ∷ ts) = (str_eq t end || has_key g.nodes t) && all_known g ts

  abbrev pub check_edges : Graph S N X → Dict (List String) → Option GraphError
  check_edges g [] = none
  check_edges g ((node, targets) ∷ edges) =
      if not (all_known g targets)
      then some (GraphError.undefined_target node)
      else if is_nil targets
      then some (GraphError.no_edges node)
      else check_edges g edges

  -- `__post_init__`
  unfoldable pub check_graph : Graph S N X → Option GraphError
  check_graph g =
      if not (has_key g.nodes g.entry)
      then some GraphError.no_entry
      else if not (covers g.nodes g.edges && covers g.edges g.nodes)
      then some GraphError.edges_missing
      else check_edges g g.edges

  unfoldable pub follow :
      String
      → List (Step N)
      → Next N
      → Option (List String)
      → (String → List (Step N) → Action S (RunEnd X × List (Step N)))
      → Action S (RunEnd X × List (Step N))
  follow current steps d none again = pure (RunEnd.missing_node current, steps)
  follow current steps d (some targets) again =
      if has targets d.node
      then again d.node (steps ++ record { node = current; next = d.node; note = d.note } ∷ [])
      else pure (RunEnd.bad_move current d.node, steps)

  unfoldable pub after_node :
      Graph S N X
      → String
      → List (Step N)
      → Decision N X
      → (String → List (Step N) → Action S (RunEnd X × List (Step N)))
      → Action S (RunEnd X × List (Step N))
  after_node g current steps (Decision.raises x) again = pure (RunEnd.raised x, steps)
  after_node g current steps (Decision.move d) again =
      follow current steps d (lookup current g.edges) again

  -- one step of the loop, at a node that is not the end
  unfoldable pub run_node :
      Graph S N X
      → String
      → List (Step N)
      → Option (Action S (Decision N X))
      → (String → List (Step N) → Action S (RunEnd X × List (Step N)))
      → Action S (RunEnd X × List (Step N))
  run_node g current steps none again = pure (RunEnd.missing_node current, steps)
  run_node g current steps (some node) again = do
    decision ← node
    after_node g current steps decision again

  -- the loop of `run`, with `max_steps - len(steps)`; the steps are those that `on_step` was told
  unfoldable pub run_from :
      Graph S N X → ℕ → String → List (Step N) → Action S (RunEnd X × List (Step N))
  run_from g zero current steps =
      if str_eq current end
      then pure (RunEnd.finished, steps)
      else pure (RunEnd.budget_exceeded, steps)
  run_from g (suc left) current steps =
      if str_eq current end
      then pure (RunEnd.finished, steps)
      else run_node g current steps (lookup current g.nodes) (run_from g left)

  unfoldable pub run : Graph S N X → Action S (RunEnd X × List (Step N))
  run g = run_from g g.max_steps g.entry []
