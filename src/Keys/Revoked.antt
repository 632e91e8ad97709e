-- ===== src/Keys/Revoked.antt =====
-- Revoked keys of app/core/security.py, and the callers that app/api/deps.py lets in.
use llm_gateway_rag.Common.{
  ◌≡◌, ◌≢◌, refl, sym, ap, ◌∙◌, String, Bool, true, false, Option, none, some, Bool-cases,
  if◌then◌else◌, inl, inr, str_eq, str_eq_iff,
}
use llm_gateway_rag.Common.Text.{Text}
use llm_gateway_rag.Common.Dict.{
  Dict, lookup, insert, remove, lookup-remove_self, lookup-insert_same, lookup-insert_other,
  lookup-remove_same, lookup-remove_other,
}
use llm_gateway_rag.Common.Fallible.{
  Fallible, proceed, pure, ◌>>=◌, proceed-done, proceed-ends, done_injective,
}
use llm_gateway_rag.Keys.{
  ApiKeyRecord, KeyServices, Verdict, Decoded, Principal, principal_from, key_prefix, starts_with,
  create_commands, verdict_on, verify_id, verify, revoke_commands, revoke_record, revoke,
  token_verdict,
}
use llm_gateway_rag.Keys.Access.{
  Headers, Credentials, Access, access_of, credentials, verdict_of, authenticate,
}
use llm_gateway_rag.Keys.Stored.{Keyspace, apply_command, apply_all, Held}

-- A record is held under its own key id.
abbrev pub IsSound : Keyspace → Type 0
IsSound h = (k : String) (r : ApiKeyRecord) → lookup k h.records ≡ some r → r.key_id ≡ k

module _ (v : KeyServices) where
  revoke_commands-apply :
      (key_id tenant_id : String) (key_hash : Option String) (h : Keyspace)
      → (apply_all (revoke_commands v key_id tenant_id key_hash) h).records
        ≡ remove key_id h.records
  unfolding apply_all apply_command
  revoke_commands-apply key_id tenant_id none h = refl
  revoke_commands-apply key_id tenant_id (some x) h = refl

module _ (v : KeyServices) (m : Held v) where
  open v use {State, digest, get_record, get_index, hget_hash, pipeline, decode}

  abbrev pub Gone : String → State → Type 0
  Gone key_id s = lookup key_id (m.held s).records ≡ none

  revoke_record-Gone :
      (key_id : String) (o : Option ApiKeyRecord) (s : State) (b : Bool)
      → o ≡ lookup key_id (m.held s).records
      → (revoke_record v key_id o s).0 ≡ Fallible.done b
      → Gone key_id (revoke_record v key_id o s).1
  unfolding revoke_record
  revoke_record-Gone key_id none s b e h = sym e
  revoke_record-Gone key_id (some r) s b e h =
      proceed-ends (Gone key_id) _ (hget_hash key_id s).0 (hget_hash key_id s).1
        (λ key_hash e1 f1.
          proceed-ends (Gone key_id) _
            (pipeline (revoke_commands v key_id r.tenant_id key_hash) (hget_hash key_id s).1).0 _
            (λ u e2 f2.
              ap (λ (k : Keyspace). lookup key_id k.records) (m.executed _ _ e2)
              ∙ ap (lookup key_id) (revoke_commands-apply v key_id r.tenant_id key_hash _)
              ∙ lookup-remove_self key_id _)
            f1)
        h

  revoke-Gone :
      (key_id : String) (s : State) (b : Bool)
      → (revoke v key_id s).0 ≡ Fallible.done b
      → Gone key_id (revoke v key_id s).1
  unfolding revoke
  revoke-Gone key_id s b h =
      proceed-ends (Gone key_id) _ (get_record key_id s).0 (get_record key_id s).1
        (λ o e f.
          revoke_record-Gone key_id o _ b
            (m.record_read key_id s o e
              ∙ ap (λ (k : Keyspace). lookup key_id k.records) (sym (m.reading_keeps key_id s).0))
            f)
        h

  -- A caller that is let in has a record that is held.
  abbrev pub HasRecord : State → ApiKeyRecord → Type 0
  HasRecord s r = (k : String) × (lookup k (m.held s).records ≡ some r)

  verdict_on-some :
      (message : String) (o : Option ApiKeyRecord) (r : ApiKeyRecord)
      → verdict_on v message o ≡ Verdict.valid r
      → o ≡ some r
  verdict_on-some message none r h = cc
  verdict_on-some message (some x) r h = cc

  read-HasRecord :
      (message k : String) (s s0 : State) (r : ApiKeyRecord)
      → m.held s ≡ m.held s0
      → (proceed (λ o. pure (verdict_on v message o)) (get_record k s).0 (get_record k s).1).0
        ≡ Fallible.done (Verdict.valid r)
      → HasRecord s0 r
  read-HasRecord message k s s0 r same h =
      let (o, h1, h2) =
        proceed-done (λ o. pure (verdict_on v message o)) (get_record k s).0 (get_record k s).1 h in
      (
        k,
        ap (λ (x : Keyspace). lookup k x.records) (sym same)
            ∙ sym (m.record_read k s o h1)
            ∙ verdict_on-some message o r (done_injective h2),
      )

  verify_id-HasRecord :
      (o : Option String) (s s0 : State) (r : ApiKeyRecord)
      → m.held s ≡ m.held s0
      → (verify_id v o s).0 ≡ Fallible.done (Verdict.valid r)
      → HasRecord s0 r
  unfolding verify_id
  verify_id-HasRecord none s s0 r same h = cc
  verify_id-HasRecord (some k) s s0 r same h =
      read-HasRecord "unknown or revoked API key" k s s0 r same h

  verify-HasRecord :
      (raw_key : Text) (s : State) (r : ApiKeyRecord)
      → (verify v raw_key s).0 ≡ Fallible.done (Verdict.valid r)
      → HasRecord s r
  unfolding verify
  verify-HasRecord raw_key s r h = by_prefix (starts_with raw_key key_prefix) h
    where
      by_prefix :
          (b : Bool)
          → ((if b
                then (get_index (digest raw_key) >>= verify_id v)
                else pure (Verdict.invalid_credentials "malformed API key"))
              s).0
            ≡ Fallible.done (Verdict.valid r)
          → HasRecord s r
      by_prefix false h = cc
      by_prefix true h =
          let (k, h1, h2) =
            proceed-done (verify_id v) (get_index (digest raw_key) s).0
              (get_index (digest raw_key) s).1 h in
          verify_id-HasRecord k _ s r (m.reading_keeps (digest raw_key) s).1 h2

  token_verdict-HasRecord :
      (d : Decoded) (s s0 : State) (r : ApiKeyRecord)
      → m.held s ≡ m.held s0
      → (token_verdict v d s).0 ≡ Fallible.done (Verdict.valid r)
      → HasRecord s0 r
  unfolding token_verdict
  token_verdict-HasRecord (Decoded.claims c) s s0 r same h =
      read-HasRecord "API key behind this token was revoked" c.sub s s0 r same h
  token_verdict-HasRecord Decoded.expired_signature s s0 r same h = cc
  token_verdict-HasRecord Decoded.jwt_error s s0 r same h = cc

  verdict_of-HasRecord :
      (c : Credentials) (s : State) (r : ApiKeyRecord)
      → (verdict_of v c s).0 ≡ Fallible.done (Verdict.valid r)
      → HasRecord s r
  unfolding verdict_of
  verdict_of-HasRecord (Credentials.api_key k) s r h = verify-HasRecord k s r h
  verdict_of-HasRecord (Credentials.token t) s r h =
      let (d, h1, h2) = proceed-done (token_verdict v) (decode t s).0 (decode t s).1 h in
      token_verdict-HasRecord d _ s r (m.other_keeps t s).3 h2
  verdict_of-HasRecord Credentials.missing s r h = cc

  granted-valid :
      (verdict : Verdict) (p : Principal)
      → access_of verdict ≡ Access.granted p
      → (r : ApiKeyRecord) × (verdict ≡ Verdict.valid r) × (p ≡ principal_from r)
  granted-valid (Verdict.valid r) p h = (r, refl, cc)
  granted-valid (Verdict.invalid_credentials message) p h = cc

  authenticate-HasRecord :
      (headers : Headers) (s : State) (p : Principal)
      → (authenticate v headers s).0 ≡ Fallible.done (Access.granted p)
      → (r : ApiKeyRecord) × HasRecord s r × (p ≡ principal_from r)
  unfolding authenticate
  authenticate-HasRecord headers s p h =
      let (verdict, h1, h2) =
        proceed-done (λ x. pure (access_of x)) (verdict_of v (credentials headers) s).0
          (verdict_of v (credentials headers) s).1 h in
      let (r, e, q) = granted-valid verdict p (done_injective h2) in
      (r, verdict_of-HasRecord (credentials headers) s r (h1 ∙ ap Fallible.done e), q)

  -- Once a revocation has been answered, whatever headers a caller sends, with the key or with a token
  -- issued for it, the caller is not let in as that key, if every record is held under its own id.
  pub revoked-refused :
      (key_id : String) (s : State) (b : Bool) (headers : Headers) (p : Principal)
      → (revoke v key_id s).0 ≡ Fallible.done b
      → IsSound (m.held (revoke v key_id s).1)
      → (authenticate v headers (revoke v key_id s).1).0 ≡ Fallible.done (Access.granted p)
      → p.key_id ≢ key_id
  revoked-refused key_id s b headers p h sound let_in = λ same.
      let (r, (k, found), q) = authenticate-HasRecord headers (revoke v key_id s).1 p let_in in
      let here = sym (sound k r found) ∙ sym (ap (λ (x : Principal). x.key_id) q) ∙ same in
      let impossible =
        sym (revoke-Gone key_id s b h)
        ∙ ap (λ i. lookup i (m.held (revoke v key_id s).1).records) (sym here)
        ∙ found in
      cc

pub insert-IsSound :
    (r : ApiKeyRecord) (d : Dict ApiKeyRecord) (k : String) (x : ApiKeyRecord)
    → (lookup k d ≡ some x → x.key_id ≡ k)
    → lookup k (insert r.key_id r d) ≡ some x
    → x.key_id ≡ k
insert-IsSound r d k x sound h = elim (Bool-cases (str_eq r.key_id k)) [
  | inl e ↦
      ap (λ (y : ApiKeyRecord). y.key_id)
        (some_injective (sym h ∙ lookup-insert_same r.key_id k r d e))
      ∙ (str_eq_iff r.key_id k).0 e
  | inr e ↦ sound (sym (lookup-insert_other r.key_id k r d e) ∙ h)
]
  where
    some_injective : {a b : ApiKeyRecord} → some a ≡ some b → a ≡ b
    some_injective e = cc

remove-IsSound :
    (key_id : String) (d : Dict ApiKeyRecord) (k : String) (x : ApiKeyRecord)
    → (lookup k d ≡ some x → x.key_id ≡ k)
    → lookup k (remove key_id d) ≡ some x
    → x.key_id ≡ k
remove-IsSound key_id d k x sound h = elim (Bool-cases (str_eq key_id k)) [
  | inl e ↦ let absent = sym (lookup-remove_same key_id k d e) ∙ h in cc
  | inr e ↦ sound (sym (lookup-remove_other key_id k d e) ∙ h)
]

module _ (v : KeyServices) where
  -- The commands of a creation and those of a revocation keep every record under its own id.
  pub commands-IsSound :
      (raw_key : Text) (r : ApiKeyRecord) (key_id tenant_id : String) (key_hash : Option String)
      (h : Keyspace)
      → IsSound h
      → IsSound (apply_all (create_commands v raw_key r) h)
        × IsSound (apply_all (revoke_commands v key_id tenant_id key_hash) h)
  unfolding apply_all apply_command
  commands-IsSound raw_key r key_id tenant_id none h sound = (
    λ k x e. insert-IsSound r h.records k x (sound k x) e,
    λ k x e. remove-IsSound key_id h.records k x (sound k x) e,
  )
  commands-IsSound raw_key r key_id tenant_id (some y) h sound = (
    λ k x e. insert-IsSound r h.records k x (sound k x) e,
    λ k x e. remove-IsSound key_id h.records k x (sound k x) e,
  )
