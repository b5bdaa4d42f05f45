-- ===== src/ApiKeys/Examples.antt =====
-- Two API keys, of which one is revoked. The hash is the text itself here.
use cert_vault.Prelude.{String, ◌≡◌, ◌≢◌, ◌⊎◌, ◌↔◌, refl, true, false, none, [], ◌∷◌, In}
use cert_vault.Prelude.Outcome.{ok}
use cert_vault.Database.{Database, ApiKeyRow, quiet, no_database}
use cert_vault.Database.Exec.{transaction, query, write, statement, pure, ◌>>=◌, ◌>>◌}
use cert_vault.Database.Rows.{first, or_not_found}
use cert_vault.Database.Returns.{at, Returns}
use cert_vault.Audits.{record_mutation_audit}
use cert_vault.ApiKeys.{
  key_by_prefix, Principal, allows, normalize_certificate_access, new_key, authenticate, revoke,
  revoke_body, key_by_id, delete_key, delete_body, delete_revoked,
}
use cert_vault.ApiKeys.Access.{allows_iff, Normalizes, normalize_certificate_access-Normalizes}
use cert_vault.ApiKeys.Holder.{IsPrincipalOf}
use cert_vault.ApiKeys.Authentication.{
  IsAuthentic, IsKeyOf, authenticate-IsAuthentic, authenticate-IsKeyOf,
}
use cert_vault.ApiKeys.Split.{split_dots}
use cert_vault.ApiKeys.Lifecycle.{authenticate-revoke, IsDeletion, delete_key-IsDeletion}
use cert_vault.ApiKeys.Deletion.{Answers, delete_key-Answers}

abbrev same_text : String → String
same_text text = text

abbrev deploy : ApiKeyRow
deploy =
    new_key same_text 1 "deploy" "cv_live_a" "cv_live_a.secret" ("certificates:read" ∷ []) true 5
      none

abbrev two_keys : Database
two_keys = record no_database {
  api_keys = record {
    rows =
        deploy ∷ record deploy { id = 2; name = "old"; prefix = "cv_live_b"; revoked = true } ∷ [];
    seq = 2;
  };
}

abbrev reader : Principal
reader = record {
  key_id = 1;
  name = "reader";
  scopes = "certificates:read" ∷ [];
  certificates = "site" ∷ [];
  all_certificates = false;
}

allows_iff_example : (allows reader "certificates:read" "site" ≡ true) ↔ (
    (In "certificates:read" reader.scopes ⊎ In "*" reader.scopes)
    × ((◌≡◌ {A = String} "site" "")
        ⊎ ((reader.all_certificates ≡ true) ⊎ In "site" reader.certificates)))
allows_iff_example = allows_iff reader "certificates:read" "site"

normalize_certificate_access-Normalizes_example :
    Normalizes ("b" ∷ "a" ∷ "b" ∷ []) (normalize_certificate_access ("b" ∷ "a" ∷ "b" ∷ []))
normalize_certificate_access-Normalizes_example =
    normalize_certificate_access-Normalizes ("b" ∷ "a" ∷ "b" ∷ [])

authenticate-IsAuthentic_example :
    Returns
      (λ p _. IsAuthentic same_text "cv_live_a.secret" 9 two_keys p)
      (authenticate same_text "cv_live_a.secret" "10.0.0.1" 9 (quiet two_keys))
authenticate-IsAuthentic_example =
    authenticate-IsAuthentic same_text "cv_live_a.secret" "10.0.0.1" 9 (quiet two_keys)

deploy-IsKeyOf : IsKeyOf same_text "cv_live_a.secret" 9 two_keys deploy
unfolding split_dots first key_by_prefix
deploy-IsKeyOf = record {
  prefix = "cv_live_a";
  secret = "secret";
  parts = refl;
  stored = refl;
  hashed = refl;
  active = refl;
  current = λ t e. absurd (cc);
}

authenticate-IsKeyOf_example :
    (p : Principal) × ((authenticate same_text "cv_live_a.secret" "10.0.0.1" 9 (quiet two_keys)).0
      ≡ ok p)
    × IsPrincipalOf two_keys deploy p
authenticate-IsKeyOf_example =
    authenticate-IsKeyOf same_text "cv_live_a.secret" "10.0.0.1" 9 two_keys deploy deploy-IsKeyOf

revoke_deploy : (revoke 1 8 [] (quiet two_keys)).0 ≡ ok "deploy"
unfolding revoke revoke_body transaction query write statement first or_not_found key_by_id ◌>>=◌
    ◌>>◌ pure record_mutation_audit
revoke_deploy = refl

authenticate-revoke_example :
    Returns
      (λ p _. p.key_id ≢ 1)
      (authenticate same_text "cv_live_a.secret" "10.0.0.1" 9
        (at (revoke 1 8 [] (quiet two_keys)).1.db []))
authenticate-revoke_example =
    authenticate-revoke same_text 1 8 9 [] (quiet two_keys) "deploy" "cv_live_a.secret" "10.0.0.1"
      [] revoke_deploy

delete_key-IsDeletion_example :
    Returns (λ _. IsDeletion 2 two_keys) (delete_key 2 9 [] (quiet two_keys))
delete_key-IsDeletion_example = delete_key-IsDeletion 2 9 [] (quiet two_keys)

delete_old : (delete_key 2 9 [] (quiet two_keys)).0 ≡ ok "old"
unfolding delete_key delete_body delete_revoked transaction query write statement first or_not_found
    key_by_id ◌>>=◌ ◌>>◌ pure record_mutation_audit
delete_old = refl

delete_key-Answers_example : Answers 2 9 [] two_keys
delete_key-Answers_example = delete_key-Answers 2 9 [] two_keys
