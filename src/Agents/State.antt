-- ===== src/Agents/State.antt =====
-- The state of a research run (app/agents/state.py), what its nodes call, and what they do with texts
-- and hits (app/agents/nodes.py). The chat service, the retriever, the prompt templates and Python's
-- text methods are a parameter.
use llm_gateway_rag.Common.{
  ℕ, String, Bool, true, false, ◌&&◌, ◌||◌, Option, List, [], ◌∷◌, or_else, ◌==◌, str_eq,
  if◌then◌else◌,
}
use llm_gateway_rag.Common.Int.{ℤ, ltb_ℤ}
use llm_gateway_rag.Common.Text.{Text}
use llm_gateway_rag.Common.Action.{Action}
use llm_gateway_rag.Routes.{Usage}

-- `RetrievedChunk`, with scores in a fixed unit
pub record Hit : Type 0 where
  pub doc_id : String
  pub chunk_index : ℕ
  pub title : Text
  pub page : Option ℕ
  pub text : Text
  pub vector_score : ℤ
  pub rerank_score : Option ℤ

-- An exception; `fatal` tells whether it is one of FATAL.
pub record Fault : Type 0 where
  pub fatal : Bool
  pub kind : String

pub data Answer (A : Type 0) : Type 0 where
  given : A → Answer A
  fault : Fault → Answer A

pub record ResearchState (Principal : Type 0) : Type 0 where
  pub question : Text
  pub principal : Principal
  pub model : String
  pub top_k : ℕ
  pub max_searches : ℕ
  pub max_revisions : ℕ
  pub use_cache : Bool
  pub searches : List Text
  pub passages : List Hit
  pub draft : Text
  pub critique : Option Text
  pub issues : List Text
  pub revisions : ℕ
  pub llm_calls : ℕ
  pub prompt_tokens : ℕ
  pub completion_tokens : ℕ
  pub cost_usd : ℕ

pub record ChatCall (Principal : Type 0) : Type 0 where
  pub principal : Principal
  pub model : String
  pub system : Text
  pub user : Text
  pub max_tokens : ℕ
  pub use_cache : Bool

-- What a node reads of a chat response; `cut` is `finish_reason == "length"`.
pub record ChatReply : Type 0 where
  pub usage : Option Usage
  pub cost_usd : Option ℕ
  pub cut : Bool
  pub content : Text

pub record Services : Type 1 where
  pub State : Type 0
  pub Principal : Type 0
  pub complete : ChatCall Principal → Action State (Answer ChatReply)
  pub search : Principal → Text → ℕ → Action State (Answer (List Hit))
  -- the templates of app/agents/prompts.py, filled in
  pub plan_system : ℕ → Text
  pub draft_system : Text → Text
  pub critique_system : Text → Text
  pub critique_user : Text → Text → Text
  pub revise_system : Text → Text
  pub revise_user : Text → Text → Text → Text
  -- `str.strip()`, `str.splitlines()`, `str.strip(" -*")`, the removal of a list marker, a text
  -- without white space and full stops at its ends in capitals, the same with exclamation marks
  pub strip : Text → Text
  pub splitlines : Text → List Text
  pub strip_bullets : Text → Text
  pub strip_marker : Text → Text
  pub bare_upper : Text → Text
  pub bare_upper_marks : Text → Text
  -- a number in decimal
  pub numeral : ℕ → Text

-- The notes of the steps, with what they report and whether a reply was cut off.
pub data Note : Type 0 where
  searches passages chars issues_found : ℕ → Bool → Note
  revised discarded : ℕ → Bool → Note
  approved no_usable_review : Bool → Note
  nothing_matched budget_spent critique_unavailable : Note

-- MAX_TOKENS
abbrev pub plan_tokens : ℕ
plan_tokens = 128

abbrev pub draft_tokens : ℕ
draft_tokens = 512

abbrev pub critique_tokens : ℕ
critique_tokens = 256

abbrev pub revise_tokens : ℕ
revise_tokens = 512

-- MAX_QUERY_CHARS
abbrev pub max_query_chars : ℕ
max_query_chars = 200

-- NO_CONTEXT_ANSWER is an argument of the nodes; OK is "OK".
abbrev pub ok_text : Text
ok_text = 79 ∷ 75 ∷ []

abbrev pub is_blank : Text → Bool
is_blank [] = true
is_blank (c ∷ t) = false

abbrev pub eq_text : Text → Text → Bool
eq_text [] [] = true
eq_text (c ∷ s) (d ∷ t) = c == d && eq_text s t
eq_text _ _ = false

abbrev pub starts_with : Text → Text → Bool
starts_with [] t = true
starts_with (c ∷ p) [] = false
starts_with (c ∷ p) (d ∷ t) = c == d && starts_with p t

abbrev pub has_text : List Text → Text → Bool
has_text [] t = false
has_text (s ∷ ss) t = eq_text s t || has_text ss t

-- `[q for q in dict.fromkeys(queries) if q]`, after the queries `seen`
abbrev pub distinct : List Text → List Text → List Text
distinct seen [] = []
distinct seen (q ∷ qs) =
    if is_blank q || has_text seen q then distinct seen qs else q ∷ distinct (q ∷ seen) qs

-- `_score`
abbrev pub score : Hit → ℤ
score h = or_else h.rerank_score h.vector_score

abbrev pub same_chunk : Hit → Hit → Bool
same_chunk h k = str_eq h.doc_id k.doc_id && h.chunk_index == k.chunk_index

-- `best`, the dict of the best hit of each chunk, in insertion order
unfoldable pub keep_best : Hit → List Hit → List Hit
keep_best h [] = h ∷ []
keep_best h (k ∷ best) =
    let rest = keep_best h best in
    if same_chunk h k then (if ltb_ℤ (score k) (score h) then h else k) ∷ best else k ∷ rest

unfoldable pub merge : List Hit → List Hit → List Hit
merge [] best = best
merge (h ∷ hits) best = merge hits (keep_best h best)

-- `sorted(hits, key=_score, reverse=True)`, which keeps the order of equal scores
unfoldable pub insert_hit : Hit → List Hit → List Hit
insert_hit h [] = h ∷ []
insert_hit h (k ∷ hits) =
    let rest = insert_hit h hits in if ltb_ℤ (score h) (score k) then k ∷ rest else h ∷ k ∷ hits

unfoldable pub sort_hits : List Hit → List Hit
sort_hits [] = []
sort_hits (h ∷ hits) = insert_hit h (sort_hits hits)
