-- ===== src/Keys/Stored.antt =====
-- What Redis holds of the API keys of app/core/security.py, and what that means for a caller.
use llm_gateway_rag.Common.{
  ◌≡◌, refl, sym, ap, ◌∙◌, ℕ, String, Bool, true, Option, some, List, [], ◌∷◌, ◌++◌, if◌then◌else◌,
  ==_iff,
}
use mathlib.Core.Path.{subst}
use llm_gateway_rag.Common.Text.{Text}
use llm_gateway_rag.Common.Dict.{Dict, lookup, insert, remove, lookup-insert_self}
use llm_gateway_rag.Common.Fallible.{
  Fallible, pure, ◌>>=◌, proceed-done, proceed-ends, done_injective,
}
use llm_gateway_rag.Keys.{
  ApiKeyRecord, KeyCommand, KeyServices, Verdict, key_prefix, starts_with, raw_key_of,
  create_commands, store_key, create, verdict_on, verify_id, verify,
}

-- The keys "apikey:…" and "apikey_hash:…", and the hash "apikey_hashes"; the sets of the tenants' keys are
-- read by `list_for_tenant` only.
pub record Keyspace : Type 0 where
  pub records : Dict ApiKeyRecord
  pub index : Dict String
  pub hashes : Dict String

unfoldable pub apply_command : KeyCommand → Keyspace → Keyspace
apply_command (KeyCommand.set_record k r) s = record s { records = insert k r s.records }
apply_command (KeyCommand.set_index h k) s = record s { index = insert h k s.index }
apply_command (KeyCommand.hset_hash k h) s = record s { hashes = insert k h s.hashes }
apply_command (KeyCommand.delete_record k) s = record s { records = remove k s.records }
apply_command (KeyCommand.delete_index h) s = record s { index = remove h s.index }
apply_command (KeyCommand.hdel_hash k) s = record s { hashes = remove k s.hashes }
apply_command _ s = s

unfoldable pub apply_all : List KeyCommand → Keyspace → Keyspace
apply_all [] s = s
apply_all (c ∷ cs) s = apply_all cs (apply_command c s)

-- What Redis does, by its documentation: a transaction that is executed applies its commands, and a
-- reading that is answered gives what is held.
pub record Held (v : KeyServices) : Type 0 where
  pub held : v.State → Keyspace
  pub executed :
      (cs : List KeyCommand) (s : v.State)
      → (v.pipeline cs s).0 ≡ Fallible.done tt
      → held (v.pipeline cs s).1 ≡ apply_all cs (held s)
  pub record_read :
      (k : String) (s : v.State) (r : Option ApiKeyRecord)
      → (v.get_record k s).0 ≡ Fallible.done r
      → r ≡ lookup k (held s).records
  pub index_read :
      (h : String) (s : v.State) (k : Option String)
      → (v.get_index h s).0 ≡ Fallible.done k
      → k ≡ lookup h (held s).index
  pub reading_keeps :
      (k : String) (s : v.State)
      → (held (v.get_record k s).1 ≡ held s)
        × (held (v.get_index k s).1 ≡ held s)
        × (held (v.hget_hash k s).1 ≡ held s)
  pub other_keeps :
      (t : Text) (s : v.State)
      → (held (v.token_hex s).1 ≡ held s)
        × (held (v.token_urlsafe s).1 ≡ held s)
        × (held (v.now s).1 ≡ held s)
        × (held (v.decode t s).1 ≡ held s)

starts_with-append : (p t : Text) → starts_with (p ++ t) p ≡ true
unfolding starts_with
starts_with-append [] t = refl
starts_with-append (c ∷ p) t = rw ((==_iff c c).1 refl, starts_with-append p t) refl

module _ (v : KeyServices) (m : Held v) where
  open v use {
    State, digest, get_record, get_index, hget_hash, pipeline, decode, token_hex, token_urlsafe,
    now,
  }

  -- The record of a key is held, and its hash leads to it.
  abbrev pub Ready : Text → ApiKeyRecord → State → Type 0
  Ready raw_key r s =
      (starts_with raw_key key_prefix ≡ true)
      × (lookup (digest raw_key) (m.held s).index ≡ some r.key_id)
      × (lookup r.key_id (m.held s).records ≡ some r)

  create_commands-apply :
      (raw_key : Text) (r : ApiKeyRecord) (h : Keyspace)
      → (lookup (digest raw_key) (apply_all (create_commands v raw_key r) h).index ≡ some r.key_id)
        × (lookup r.key_id (apply_all (create_commands v raw_key r) h).records ≡ some r)
  unfolding apply_all apply_command
  create_commands-apply raw_key r h =
      (lookup-insert_self _ _ h.index, lookup-insert_self _ _ h.records)

  store_key-Ready :
      (raw_key : Text) (r : ApiKeyRecord) (s : State) (b : Text × ApiKeyRecord)
      → starts_with raw_key key_prefix ≡ true
      → (store_key v raw_key r s).0 ≡ Fallible.done b
      → Ready b.0 b.1 (store_key v raw_key r s).1
  unfolding store_key
  store_key-Ready raw_key r s b p h =
      proceed-ends (Ready b.0 b.1) _ (pipeline (create_commands v raw_key r) s).0 _
        (λ u e f.
          let (index, records) = create_commands-apply raw_key r (m.held s) in
          let same = m.executed (create_commands v raw_key r) s e in
          subst
            (λ (c : Text × ApiKeyRecord).
              Ready c.0 c.1 (pipeline (create_commands v raw_key r) s).1)
            (done_injective f)
            (
              p,
              ap (λ (k : Keyspace). lookup (digest raw_key) k.index) same ∙ index,
              ap (λ (k : Keyspace). lookup r.key_id k.records) same ∙ records,
            ))
        h

  create-Ready :
      (tenant_id name : String) (capacity refill : Option ℕ) (s : State) (b : Text × ApiKeyRecord)
      → (create v tenant_id name capacity refill s).0 ≡ Fallible.done b
      → Ready b.0 b.1 (create v tenant_id name capacity refill s).1
  unfolding create
  create-Ready tenant_id name capacity refill s b h =
      proceed-ends (Ready b.0 b.1) _ (token_hex s).0 _
        (λ key_id e1 f1.
          proceed-ends (Ready b.0 b.1) _ (token_urlsafe (token_hex s).1).0 _
            (λ secret e2 f2.
              proceed-ends (Ready b.0 b.1) _ (now (token_urlsafe (token_hex s).1).1).0 _
                (λ t e3 f3.
                  store_key-Ready (raw_key_of v key_id secret) _ _ b
                    (starts_with-append key_prefix _) f3)
                f2)
            f1)
        h

  verify_id-valid :
      (k : String) (r : ApiKeyRecord) (s : State) (verdict : Verdict)
      → lookup k (m.held s).records ≡ some r
      → (verify_id v (some k) s).0 ≡ Fallible.done verdict
      → verdict ≡ Verdict.valid r
  unfolding verify_id
  verify_id-valid k r s verdict q h =
      let (o, h1, h2) =
        proceed-done (λ o. pure (verdict_on v "unknown or revoked API key" o)) (get_record k s).0
          (get_record k s).1 h in
      sym (done_injective h2)
      ∙ ap (verdict_on v "unknown or revoked API key") (m.record_read k s o h1 ∙ q)

  verify-valid :
      (raw_key : Text) (r : ApiKeyRecord) (s : State) (verdict : Verdict)
      → Ready raw_key r s
      → (verify v raw_key s).0 ≡ Fallible.done verdict
      → verdict ≡ Verdict.valid r
  unfolding verify
  verify-valid raw_key r s verdict (p, q, q') h =
      let (k, h1, h2) =
        proceed-done (verify_id v) (get_index (digest raw_key) s).0 (get_index (digest raw_key) s).1
          (sym (
              ap
                (λ (b : Bool).
                  ((if b
                      then (get_index (digest raw_key) >>= verify_id v)
                      else pure (Verdict.invalid_credentials "malformed API key"))
                    s).0)
                p)
            ∙ h) in
      verify_id-valid r.key_id r (get_index (digest raw_key) s).1 verdict
        (ap (λ (x : Keyspace). lookup r.key_id x.records) (m.reading_keeps (digest raw_key) s).1
          ∙ q')
        (ap (λ o. (verify_id v o (get_index (digest raw_key) s).1).0)
            (sym (m.index_read (digest raw_key) s k h1 ∙ q))
          ∙ h2)

  -- Of a key that was created, verification in the state after it is valid for the record that was
  -- created, whenever Redis answers.
  pub verify-create :
      (tenant_id name : String) (capacity refill : Option ℕ) (s : State) (b : Text × ApiKeyRecord)
      (verdict : Verdict)
      → (create v tenant_id name capacity refill s).0 ≡ Fallible.done b
      → (verify v b.0 (create v tenant_id name capacity refill s).1).0 ≡ Fallible.done verdict
      → verdict ≡ Verdict.valid b.1
  verify-create tenant_id name capacity refill s b verdict h h' =
      verify-valid b.0 b.1 _ verdict (create-Ready tenant_id name capacity refill s b h) h'
