-- ===== src/Keys/Access.antt =====
-- Who may call, app/api/deps.py: `_credentials`, `authenticate` and `authenticate_api_key`. An HTTP exception
-- is an answer.
use llm_gateway_rag.Common.{
  ℕ, ◌+◌, String, Bool, true, false, ◌&&◌, Option, none, some, [], ◌∷◌, if◌then◌else◌, ◌==◌, leb,
  or_else,
}
use llm_gateway_rag.Common.Text.{Text, is_space}
use llm_gateway_rag.Common.Fallible.{Fallible, pure, ◌>>=◌}
use llm_gateway_rag.Keys.{
  KeyServices, Verdict, Principal, principal_from, key_prefix, starts_with, verify, token_verdict,
}

-- `str.lower` of one character, where it is an ASCII letter
abbrev pub lower : ℕ → ℕ
lower c = if leb 65 c && leb c 90 then c + 32 else c

-- `scheme.lower() == "bearer"`
unfoldable pub same_lower : Text → Text → Bool
same_lower [] [] = true
same_lower (c ∷ s) (d ∷ t) = lower c == d && same_lower s t
same_lower _ _ = false

abbrev pub bearer : Text
bearer = 98 ∷ 101 ∷ 97 ∷ 114 ∷ 101 ∷ 114 ∷ []

-- `text.partition(" ")`, without the separator
unfoldable pub partition_space : Text → Text × Text
partition_space [] = ([], [])
partition_space (c ∷ t) =
    let (before, after) = partition_space t in if c == 32 then ([], t) else (c ∷ before, after)

abbrev pub strip_left : Text → Text
strip_left [] = []
strip_left (c ∷ t) = let rest = strip_left t in if is_space c then rest else c ∷ t

abbrev keep_solid : ℕ → Text → Text
keep_solid c [] = if is_space c then [] else c ∷ []
keep_solid c (d ∷ t) = c ∷ d ∷ t

abbrev pub strip_right : Text → Text
strip_right [] = []
strip_right (c ∷ t) = keep_solid c (strip_right t)

-- `text.strip()`
abbrev pub strip : Text → Text
strip t = strip_left (strip_right t)

-- the headers that a request is authenticated by
pub record Headers : Type 0 where
  pub x_api_key : Option Text
  pub authorization : Option Text

-- the API key, the token or nothing that `_credentials` finds
pub data Credentials : Type 0 where
  api_key token : Text → Credentials
  missing : Credentials

abbrev pub bearer_value : Text → Credentials
bearer_value [] = Credentials.missing
bearer_value (c ∷ t) =
    if starts_with (c ∷ t) key_prefix
    then Credentials.api_key (c ∷ t)
    else Credentials.token (c ∷ t)

unfoldable pub from_authorization : Text → Credentials
from_authorization auth =
    let (scheme, value) = partition_space auth in
    if same_lower scheme bearer then bearer_value (strip value) else Credentials.missing

-- `_credentials`, where an empty header is none
unfoldable pub credentials : Headers → Credentials
credentials h = elim h.x_api_key [
  | some k ↦ elim k [
    | c ∷ t ↦ Credentials.api_key (c ∷ t)
    | [] ↦ from_authorization (or_else h.authorization [])
  ]
  | none ↦ from_authorization (or_else h.authorization [])
]

pub data Access : Type 0 where
  granted : Principal → Access
  unauthorized : String → Access

abbrev pub access_of : Verdict → Access
access_of (Verdict.valid r) = Access.granted (principal_from r)
access_of (Verdict.invalid_credentials message) = Access.unauthorized message

module _ (v : KeyServices) where
  open v use {State, decode}

  unfoldable pub verdict_of : Credentials → State → Fallible Verdict × State
  verdict_of (Credentials.api_key k) = verify v k
  verdict_of (Credentials.token t) = do d ← decode t; token_verdict v d
  verdict_of Credentials.missing =
      pure
        (Verdict.invalid_credentials "missing credentials: send X-API-Key or Authorization: Bearer")

  -- `authenticate`
  unfoldable pub authenticate : Headers → State → Fallible Access × State
  authenticate h = do verdict ← verdict_of (credentials h); pure (access_of verdict)

  abbrev pub key_only : Credentials → State → Fallible Verdict × State
  key_only (Credentials.api_key k) = verify v k
  key_only _ = pure (Verdict.invalid_credentials "an API key is required to obtain a token")

  -- `authenticate_api_key`
  unfoldable pub authenticate_api_key : Headers → State → Fallible Access × State
  authenticate_api_key h = do verdict ← key_only (credentials h); pure (access_of verdict)
