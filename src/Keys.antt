-- ===== src/Keys.antt =====
-- API keys and tokens, app/core/security.py, and who may call, app/api/deps.py. Redis, sha256, the random
-- generator and the JWT library are a parameter. `InvalidCredentials` is an answer, since callers
-- handle it; any other exception is `raised`.
pub mod Stored
pub mod Access
pub mod Limited
pub mod Revoked
use llm_gateway_rag.Common.{
  ℕ, ◌+◌, ◌-◌, String, Bool, true, false, ◌&&◌, ◌||◌, Option, none, some, List, [], ◌∷◌, ◌++◌, map,
  if◌then◌else◌, ◌==◌, is_some, ltb, leb,
}
use llm_gateway_rag.Common.Text.{Text, is_space}
use llm_gateway_rag.Common.Fallible.{Fallible, proceed, pure, ◌>>=◌, ◌>>◌}

pub record ApiKeyRecord : Type 0 where
  pub key_id : String
  pub tenant_id : String
  pub name : String
  pub created_at : ℕ
  pub rate_limit_capacity : Option ℕ
  pub rate_limit_refill_per_sec : Option ℕ

pub record Principal : Type 0 where
  pub key_id : String
  pub tenant_id : String
  pub rate_limit_capacity : Option ℕ
  pub rate_limit_refill_per_sec : Option ℕ

abbrev pub principal_from : ApiKeyRecord → Principal
principal_from r = record {
  key_id = r.key_id;
  tenant_id = r.tenant_id;
  rate_limit_capacity = r.rate_limit_capacity;
  rate_limit_refill_per_sec = r.rate_limit_refill_per_sec;
}

-- The commands of the pipelines of `create` and `revoke`, by the keys they are on.
pub data KeyCommand : Type 0 where
  set_record : String → ApiKeyRecord → KeyCommand
  set_index : String → String → KeyCommand
  hset_hash : String → String → KeyCommand
  sadd_tenant srem_tenant : String → String → KeyCommand
  delete_record delete_index hdel_hash : String → KeyCommand

pub record Claims : Type 0 where
  pub sub : String
  pub tenant : String
  pub iat : ℕ
  pub exp : ℕ
  pub iss : String

-- what `jwt.decode` gives or raises
pub data Decoded : Type 0 where
  claims : Claims → Decoded
  expired_signature jwt_error : Decoded

pub record KeyServices : Type 1 where
  pub State : Type 0
  pub token_hex : State → Fallible String × State
  pub token_urlsafe : State → Fallible Text × State
  pub now : State → Fallible ℕ × State
  pub characters : String → Text
  pub digest : Text → String
  pub get_record : String → State → Fallible (Option ApiKeyRecord) × State
  pub get_index : String → State → Fallible (Option String) × State
  pub hget_hash : String → State → Fallible (Option String) × State
  -- the ids of a tenant, sorted
  pub sorted_members : String → State → Fallible (List String) × State
  pub pipeline : List KeyCommand → State → Fallible (Unit {0}) × State
  pub encode : Claims → Text
  pub decode : Text → State → Fallible Decoded × State

-- A credential is good for a record, or `InvalidCredentials` is raised.
pub data Verdict : Type 0 where
  valid : ApiKeyRecord → Verdict
  invalid_credentials : String → Verdict

-- "ng_"
abbrev pub key_prefix : Text
key_prefix = 110 ∷ 103 ∷ 95 ∷ []

-- `text.startswith(prefix)`
unfoldable pub starts_with : Text → Text → Bool
starts_with t [] = true
starts_with [] (c ∷ p) = false
starts_with (d ∷ t) (c ∷ p) = c == d && starts_with t p

module _ (v : KeyServices) where
  open v use {
    State, token_hex, token_urlsafe, now, characters, digest, get_record, get_index, hget_hash,
    sorted_members, pipeline, encode, decode,
  }

  -- `f"{KEY_PREFIX}{key_id}_{secret}"`
  abbrev pub raw_key_of : String → Text → Text
  raw_key_of key_id secret = key_prefix ++ characters key_id ++ 95 ∷ secret

  abbrev pub create_commands : Text → ApiKeyRecord → List KeyCommand
  create_commands raw_key r =
      KeyCommand.set_record r.key_id r
      ∷ KeyCommand.set_index (digest raw_key) r.key_id
      ∷ KeyCommand.hset_hash r.key_id (digest raw_key)
      ∷ KeyCommand.sadd_tenant r.tenant_id r.key_id
      ∷ []

  -- `create`, the last part: the pipeline and the answer
  unfoldable pub store_key : Text → ApiKeyRecord → State → Fallible (Text × ApiKeyRecord) × State
  store_key raw_key r = do pipeline (create_commands raw_key r); pure (raw_key, r)

  -- `create`
  unfoldable pub create :
      String → String → Option ℕ → Option ℕ → State → Fallible (Text × ApiKeyRecord) × State
  create tenant_id name capacity refill = do
    key_id ← token_hex
    secret ← token_urlsafe
    t ← now
    store_key (raw_key_of key_id secret) (record {
      key_id = key_id;
      tenant_id = tenant_id;
      name = name;
      created_at = t;
      rate_limit_capacity = capacity;
      rate_limit_refill_per_sec = refill;
    })

  abbrev pub unknown_key : Verdict
  unknown_key = Verdict.invalid_credentials "unknown or revoked API key"

  abbrev pub verdict_on : String → Option ApiKeyRecord → Verdict
  verdict_on message none = Verdict.invalid_credentials message
  verdict_on message (some r) = Verdict.valid r

  unfoldable pub verify_id : Option String → State → Fallible Verdict × State
  verify_id none = pure unknown_key
  verify_id (some key_id) = do
    r ← get_record key_id
    pure (verdict_on "unknown or revoked API key" r)

  -- `verify`
  unfoldable pub verify : Text → State → Fallible Verdict × State
  verify raw_key =
      if starts_with raw_key key_prefix
      then (do key_id ← get_index (digest raw_key); verify_id key_id)
      else pure (Verdict.invalid_credentials "malformed API key")

  unfoldable pub get_all : List String → State → Fallible (List ApiKeyRecord) × State
  get_all [] = pure []
  get_all (k ∷ ks) = do
    r ← get_record k
    rest ← get_all ks
    pure (elim r [ none ↦ rest | some x ↦ x ∷ rest ])

  -- `list_for_tenant`
  unfoldable pub list_for_tenant : String → State → Fallible (List ApiKeyRecord) × State
  list_for_tenant tenant_id = do ks ← sorted_members tenant_id; get_all ks

  -- `if key_hash: pipe.delete(…)`
  abbrev pub delete_hash : Option String → List KeyCommand
  delete_hash none = []
  delete_hash (some h) = KeyCommand.delete_index h ∷ []

  abbrev pub revoke_commands : String → String → Option String → List KeyCommand
  revoke_commands key_id tenant_id key_hash =
      KeyCommand.delete_record key_id ∷ delete_hash key_hash
      ++ KeyCommand.hdel_hash key_id ∷ KeyCommand.srem_tenant tenant_id key_id ∷ []

  unfoldable pub revoke_record : String → Option ApiKeyRecord → State → Fallible Bool × State
  revoke_record key_id none = pure false
  revoke_record key_id (some r) = do
    key_hash ← hget_hash key_id
    pipeline (revoke_commands key_id r.tenant_id key_hash)
    pure true

  -- `revoke`
  unfoldable pub revoke : String → State → Fallible Bool × State
  revoke key_id = do r ← get_record key_id; revoke_record key_id r

  -- `TokenService.issue`, with the time that it reads
  abbrev pub claims_of : ℕ → ℕ → ApiKeyRecord → Claims
  claims_of ttl t r = record {
    sub = r.key_id;
    tenant = r.tenant_id;
    iat = t;
    exp = t + ttl;
    iss = "nexusgate";
  }

  unfoldable pub issue : ℕ → ApiKeyRecord → State → Fallible Text × State
  issue ttl r = do t ← now; pure (encode (claims_of ttl t r))

  -- the claims of a token as `TokenService.decode` gives them, and then the key behind it
  unfoldable pub token_verdict : Decoded → State → Fallible Verdict × State
  token_verdict (Decoded.claims c) = do
    r ← get_record c.sub
    pure (verdict_on "API key behind this token was revoked" r)
  token_verdict Decoded.expired_signature = pure (Verdict.invalid_credentials "token expired")
  token_verdict Decoded.jwt_error = pure (Verdict.invalid_credentials "invalid token")
