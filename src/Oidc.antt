-- ===== src/Oidc.antt =====
-- internal/oidc: the token endpoint (`handleToken`), PKCE (`VerifyPKCE`) and the clients' secrets
-- (`VerifyClientSecret`). Texts that are hashed are lists of bytes.
pub mod Spent
pub mod SingleUse
use ligament_2fa.Prelude.{
  ℕ, zero, suc, ◌+◌, ◌-◌, ◌*◌, ◌/◌, ◌%◌, ◌^◌, ◌≤◌, ◌<◌, min, max, bit_and, bit_or, ◌≡◌, refl, sym,
  ap, ◌∙◌, subst, ◌≢◌, ◌↔◌, ◌⊎◌, inl, inr, Bool, true, false, not, ◌&&◌, ◌||◌, Option, none, some,
  List, [], ◌∷◌, ◌++◌, map, append-nil, append_assoc, arith, ltb, leb, ◌==◌, if◌then◌else◌, ltb→lt,
  lt→ltb, leb→le, ==_iff, tests, Bool-cases, Option-cases, length, get_or, take, drop, All, slice,
  length-append, take-append-drop, length-take, length-drop, take-append, drop-append, take_all,
  drop_all, Result, ok, err, is_ok, any, count_where, select, update_where, find, String, str_eq,
  Among, Among-select, Result-cases, some_injective, All-select, All-update_where, All-find,
}
use ligament_2fa.Auth.Audit.{user_by_id}
use ligament_2fa.Auth.Config.{bytes_eq}
use ligament_2fa.Exchange.Trust.{record_event}
use ligament_2fa.Store.Oidc.{
  oidc_client_by_client_id, oidc_code_claim, oidc_token_save, oidc_token_get,
}
use ligament_2fa.Store.State.{
  Event, User, OidcClient, OidcCode, OidcToken, Error, not_found, oidc_token, oidc_token_fail, M,
  ◌>>=◌, ◌>>◌, return, attempt,
}

pub record Provider : Type 0 where
  -- `secrets.SHA256`, and base64url without padding of it.
  pub sha256 : List ℕ → ℕ
  pub b64_sha256 : List ℕ → List ℕ
  -- `SignIDToken` succeeds.
  pub signs : Bool

-- The form, the client as it authenticates, the limiter's verdict, and the drawn access token.
pub record TokenRequest : Type 0 where
  pub grant_type : String
  pub client_id : String
  pub client_secret : List ℕ
  pub code : List ℕ
  pub redirect_uri : String
  pub code_verifier : List ℕ
  pub within_limit : Bool
  pub access : List ℕ

-- A status with the error of RFC 6749, or the tokens of a user.
pub data TokenReply : Type 0 where
  refused : ℕ → String → TokenReply
  issued : List ℕ → User → OidcCode → TokenReply

abbrev pub access_token_ttl : ℕ
access_token_ttl = 300

abbrev pub is_empty : List ℕ → Bool
is_empty [] = true
is_empty (_ ∷ _) = false

-- The text before and after the first `$`.
unfoldable pub split_dollar : List ℕ → Option (List ℕ × List ℕ)
split_dollar [] = none
split_dollar (b ∷ rest) =
    let later = split_dollar rest in
    if b == 36
    then some ([], rest)
    else elim later [ none ↦ none | some cut ↦ some (b ∷ cut.0, cut.1) ]

module _ (p : Provider) where
  -- `VerifyClientSecret`.
  unfoldable pub verify_client_secret : List ℕ → List ℕ → Bool
  verify_client_secret stored secret = elim (split_dollar stored) [
    | none ↦ false
    | some cut ↦ bytes_eq (p.b64_sha256 (cut.0 ++ secret)) cut.1
  ]

  -- `VerifyPKCE`.
  unfoldable pub verify_pkce : List ℕ → String → List ℕ → Bool
  verify_pkce challenge method verifier =
      if is_empty challenge
      then is_empty verifier
      else (if is_empty verifier
          then false
          else (if str_eq method "S256"
              then bytes_eq (p.b64_sha256 verifier) challenge
              else str_eq method "plain" && bytes_eq verifier challenge))

  module _ (q : TokenRequest) where
    abbrev pub announce : OidcCode → User → M TokenReply
    announce code user =
        record_event user.username oidc_token code.scope true >> return (issued q.access user code)

    abbrev pub on_saved : OidcCode → User → Result Error (Unit {0}) → M TokenReply
    on_saved code user (err e) = return (refused 500 "server_error")
    on_saved code user (ok _) =
        if p.signs then announce code user else return (refused 500 "server_error")

    abbrev pub token_of : OidcClient → OidcCode → User → OidcToken
    token_of client code user = record {
      token_hash = p.sha256 q.access;
      user_id = user.id;
      client_id = client.client_id;
      scope = code.scope;
      amr = code.amr;
      expires_at = 0;
    }

    -- The tokens of a code whose user is there.
    unfoldable pub issue : OidcClient → OidcCode → User → M TokenReply
    issue client code user = do
      saved ← attempt (oidc_token_save (token_of client code user) access_token_ttl)
      on_saved code user saved

    abbrev pub on_owner : OidcClient → OidcCode → Result Error User → M TokenReply
    on_owner client code (err _) = return (refused 400 "invalid_grant")
    on_owner client code (ok user) = issue client code user

    abbrev pub fits_code : OidcClient → OidcCode → Bool
    fits_code client code =
        str_eq code.client_id client.client_id
        && str_eq code.redirect_uri q.redirect_uri
        && verify_pkce code.code_challenge code.code_challenge_method q.code_verifier

    abbrev pub is_missing : Error → Bool
    is_missing not_found = true
    is_missing _ = false

    abbrev pub on_claimed : OidcClient → Result Error OidcCode → M TokenReply
    on_claimed client (err e) =
        if is_missing e
        then return (refused 400 "invalid_grant")
        else return (refused 500 "server_error")
    on_claimed client (ok code) =
        if fits_code client code
        then (do owner ← attempt (user_by_id code.user_id); on_owner client code owner)
        else return (refused 400 "invalid_grant")

    -- The client is authenticated; the code is claimed whatever comes of it.
    unfoldable pub redeem : OidcClient → M TokenReply
    redeem client =
        if is_empty q.code || str_eq q.redirect_uri ""
        then return (refused 400 "invalid_request")
        else (do claimed ← attempt (oidc_code_claim (p.sha256 q.code)); on_claimed client claimed)

    abbrev pub refuse_client : String → M TokenReply
    refuse_client reason =
        record_event "" oidc_token_fail reason false >> return (refused 401 "invalid_client")

    abbrev pub client_refusal : Error → M TokenReply
    client_refusal e =
        if is_missing e then refuse_client "unknown_client" else return (refused 500 "server_error")

    abbrev pub on_client : Result Error OidcClient → M TokenReply
    on_client (err e) = client_refusal e
    on_client (ok client) =
        if client.is_public || verify_client_secret client.client_secret_hash q.client_secret
        then redeem client
        else refuse_client "bad_secret"

    -- `handleToken`.
    unfoldable pub handle_token : M TokenReply
    handle_token =
        if not (str_eq q.grant_type "authorization_code")
        then return (refused 400 "unsupported_grant_type")
        else (if not q.within_limit
            then return (refused 429 "rate_limited")
            else (do found ← attempt (oidc_client_by_client_id q.client_id); on_client found))
