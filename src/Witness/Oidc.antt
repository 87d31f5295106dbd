-- ===== src/Witness/Oidc.antt =====
-- Two token requests with one code, and a minute between them.
use ligament_2fa.Prelude.{ℕ, ◌+◌, ◌≡◌, refl, true, false, none, List, [], ◌∷◌}
use ligament_2fa.Oidc.{Provider, TokenRequest, handle_token}
use ligament_2fa.Oidc.SingleUse.{is_issued, passes, run_oidc, code_once}
use ligament_2fa.Store.State.{World}
use ligament_2fa.Witness.Data.{world}

abbrev sum : List ℕ → ℕ
sum [] = 0
sum (x ∷ xs) = x + sum xs

abbrev provider : Provider
provider = record { sha256 = sum; b64_sha256 = λ b. b; signs = true }

abbrev asked : TokenRequest
asked = record {
  grant_type = "authorization_code";
  client_id = "wiki";
  client_secret = [];
  code = 7 ∷ [];
  redirect_uri = "https://wiki.example.org/cb";
  code_verifier = 4 ∷ 5 ∷ [];
  within_limit = true;
  access = 9 ∷ [];
}

abbrev consented : World
consented = record (world) {
  oidc_clients = record { client_id = "wiki"; client_secret_hash = []; is_public = true } ∷ [];
  oidc_codes =
      record {
        code_hash = 7;
        client_id = "wiki";
        user_id = 1;
        redirect_uri = "https://wiki.example.org/cb";
        scope = "openid";
        nonce = "";
        auth_time = 90;
        amr = "pwd";
        code_challenge = 4 ∷ 5 ∷ [];
        code_challenge_method = "S256";
        expires_at = 150;
        used_at = none;
      }
      ∷ [];
}

code_once_example :
    is_issued
      (handle_token provider asked
        (run_oidc (passes 5 ∷ []) (handle_token provider asked consented).1)).0
    ≡ false
unfolding ligament_2fa.Oidc.split_dollar ligament_2fa.Oidc.verify_client_secret
    ligament_2fa.Oidc.verify_pkce ligament_2fa.Oidc.issue ligament_2fa.Oidc.redeem
    ligament_2fa.Oidc.handle_token ligament_2fa.Store.Oidc.oidc_client_by_client_id
    ligament_2fa.Store.Oidc.oidc_code_save ligament_2fa.Store.Oidc.oidc_code_claim
    ligament_2fa.Store.Oidc.oidc_token_save ligament_2fa.Store.Oidc.oidc_token_get
    ligament_2fa.Store.Oidc.oidc_token_delete ligament_2fa.Exchange.Trust.record_event
    ligament_2fa.Exchange.Trust.audit_radius_fail ligament_2fa.Exchange.Trust.radius_trust_trusted
    ligament_2fa.Exchange.Trust.radius_trust_remember ligament_2fa.Exchange.Trust.radius_trust_gate
    ligament_2fa.Exchange.Trust.remember_by_name ligament_2fa.Exchange.Trust.radius_auth_with_trust
    ligament_2fa.Auth.Audit.audit_ip ligament_2fa.Auth.Audit.audit
    ligament_2fa.Auth.Audit.user_by_id ligament_2fa.Auth.Audit.user_by_username
    ligament_2fa.Auth.Audit.fail_locked
code_once_example = code_once provider asked asked consented (passes 5 ∷ []) refl refl (tt, tt)
