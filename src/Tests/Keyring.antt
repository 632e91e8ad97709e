-- ===== src/Tests/Keyring.antt =====
-- A Redis that holds the keys, two of them at the start.
use llm_gateway_rag.Common.{◌≡◌, ◌≢◌, refl, String, true, none, some, [], ◌∷◌, sym}
use llm_gateway_rag.Common.Text.{Text}
use llm_gateway_rag.Common.Dict.{lookup, insert, remove}
use llm_gateway_rag.Common.Fallible.{Fallible, pure, done_injective}
use llm_gateway_rag.Keys.{
  ApiKeyRecord, KeyServices, Verdict, Decoded, Principal, principal_from, create, store_key, verify,
  verify_id, starts_with, revoke, revoke_record, token_verdict,
}
use llm_gateway_rag.Keys.Access.{
  Headers, authenticate, credentials, from_authorization, verdict_of, partition_space, same_lower,
}
use llm_gateway_rag.Keys.Stored.{Keyspace, Held, apply_all, apply_command, verify-create}
use llm_gateway_rag.Keys.Revoked.{IsSound, insert-IsSound, revoked-refused}

abbrev redis : KeyServices
redis = record {
  State = Keyspace;
  token_hex = pure "id";
  token_urlsafe = pure (120 ∷ []);
  now = pure 7;
  characters = λ s. 121 ∷ [];
  digest = λ t. "hash";
  get_record = λ k s. (Fallible.done (lookup k s.records), s);
  get_index = λ h s. (Fallible.done (lookup h s.index), s);
  hget_hash = λ k s. (Fallible.done (lookup k s.hashes), s);
  sorted_members = λ t. pure [];
  pipeline = λ cs s. (Fallible.done tt, apply_all cs s);
  encode = λ c. 116 ∷ [];
  decode = λ t.
      pure
        (Decoded.claims (record { sub = "b"; tenant = "t"; iat = 1; exp = 2; iss = "nexusgate" }));
}

abbrev holding : Held redis
holding = record {
  held = λ s. s;
  executed = λ cs s h. refl;
  record_read = λ k s r h. sym (done_injective h);
  index_read = λ h s k e. sym (done_injective e);
  reading_keeps = λ k s. (refl, refl, refl);
  other_keeps = λ t s. (refl, refl, refl, refl);
}

abbrev record_of : String → ApiKeyRecord
record_of k = record {
  key_id = k;
  tenant_id = "acme";
  name = "n";
  created_at = 1;
  rate_limit_capacity = none;
  rate_limit_refill_per_sec = none;
}

abbrev empty : Keyspace
empty = record { records = []; index = []; hashes = [] }

abbrev two_keys : Keyspace
two_keys = record {
  records = ("a", record_of "a") ∷ ("b", record_of "b") ∷ [];
  index = ("hash", "a") ∷ [];
  hashes = ("a", "hash") ∷ [];
}

abbrev created : Text × ApiKeyRecord
created = (110 ∷ 103 ∷ 95 ∷ 121 ∷ 95 ∷ 120 ∷ [], record (record_of "id") { created_at = 7 })

verify-create_example : Verdict.valid created.1 ≡ Verdict.valid created.1
unfolding create store_key verify verify_id starts_with apply_all apply_command lookup insert
verify-create_example =
    verify-create redis holding "acme" "n" none none empty created (Verdict.valid created.1) refl
      refl

abbrev one_left : Keyspace
one_left = record two_keys { records = ("b", record_of "b") ∷ []; index = []; hashes = [] }

one_left-IsSound : IsSound one_left
unfolding lookup insert
one_left-IsSound k r h = insert-IsSound (record_of "b") [] k r (λ absent. cc) h

-- a token for the key that is left
abbrev by_token : Headers
by_token = record {
  x_api_key = none;
  authorization = some (66 ∷ 101 ∷ 97 ∷ 114 ∷ 101 ∷ 114 ∷ 32 ∷ 116 ∷ []);
}

abbrev other : Principal
other = principal_from (record_of "b")

revoked-refused_example : other.key_id ≢ "a"
unfolding revoke revoke_record apply_all apply_command lookup remove authenticate credentials
    from_authorization verdict_of partition_space same_lower starts_with token_verdict
revoked-refused_example =
    revoked-refused redis holding "a" two_keys true by_token other refl one_left-IsSound refl
