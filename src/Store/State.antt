-- ===== src/Store/State.antt =====
-- The rows of internal/store, the process's clock, and the monad of its queries.
-- A query may fail: `faults` says of each coming one whether the database reports an error, and a
-- query that fails changes nothing. Times and durations are in seconds; the clock stands still
-- within one request, except where a loop waits.
use ligament_2fa.Prelude.{
  ℕ, Bool, true, false, Option, none, some, List, [], ◌∷◌, ◌==◌, Result, ok, err, String,
}

-- internal/channel/channel.go, and auth.go's `BackupChannel`.
pub data Channel : Type 0 where
  totp email sms telegram telegram_push app_push webauthn backup : Channel

abbrev pub channel_eq : Channel → Channel → Bool
channel_eq totp totp = true
channel_eq email email = true
channel_eq sms sms = true
channel_eq telegram telegram = true
channel_eq telegram_push telegram_push = true
channel_eq app_push app_push = true
channel_eq webauthn webauthn = true
channel_eq backup backup = true
channel_eq _ _ = false

pub data PushState : Type 0 where
  pending approved denied : PushState

-- The fields of a user that authentication reads.
pub record User : Type 0 where
  pub id : ℕ
  pub username : String
  pub password_hash : ℕ
  pub enabled : Bool
  pub email : String
  pub phone : String
  -- The sealed password that MS-CHAPv2 needs; `none` where it is empty.
  pub password_enc : Option ℕ
  pub telegram_chat_id : Option ℕ
  pub prefer_channels : List Channel

-- `store.Challenge`; a hash is the number that its 32 bytes spell.
pub record Challenge : Type 0 where
  pub id : ℕ
  pub user_id : ℕ
  pub channel : Channel
  pub code_hash : Option ℕ
  pub push_state : Option PushState
  pub expires_at : ℕ
  pub attempts_left : ℕ
  pub used_at : Option ℕ
  pub purpose : String
  pub created_at : ℕ

pub record BackupCode : Type 0 where
  pub user_id : ℕ
  pub code_hash : ℕ
  pub used_at : Option ℕ

pub record TotpSecret : Type 0 where
  pub user_id : ℕ
  pub secret_enc : ℕ
  pub digits : ℕ
  pub period : ℕ
  pub confirmed : Bool
  pub last_timestep : ℕ

-- The events that authentication and the RADIUS server write to audit_log.
pub data Event : Type 0 where
  login_ok login_fail code_ok code_fail radius_auth radius_fail code_sent push_sent : Event
  app_push_sent radius_trust_skip radius_eap radius_ma_missing radius_acct : Event
  oidc_token oidc_token_fail : Event

pub record AuditEntry : Type 0 where
  pub username : String
  pub event : Event
  pub reason : String
  pub success : Bool
  pub ts : ℕ

-- A row of radius_trusted_devices; the Calling-Station-Id is normalized.
pub record Trusted : Type 0 where
  pub user_id : ℕ
  pub csid : List ℕ
  pub expires_at : ℕ

-- Rows of oidc_clients, oidc_codes and oidc_tokens; a hash is a number.
pub record OidcClient : Type 0 where
  pub client_id : String
  pub client_secret_hash : List ℕ
  pub is_public : Bool

pub record OidcCode : Type 0 where
  pub code_hash : ℕ
  pub client_id : String
  pub user_id : ℕ
  pub redirect_uri : String
  pub scope : String
  pub nonce : String
  pub auth_time : ℕ
  pub amr : String
  pub code_challenge : List ℕ
  pub code_challenge_method : String
  pub expires_at : ℕ
  pub used_at : Option ℕ

pub record OidcToken : Type 0 where
  pub token_hash : ℕ
  pub user_id : ℕ
  pub client_id : String
  pub scope : String
  pub amr : String
  pub expires_at : ℕ

pub record World : Type 0 where
  pub now : ℕ
  pub faults : List Bool
  pub users : List User
  pub challenges : List Challenge
  pub backups : List BackupCode
  pub totps : List TotpSecret
  pub audit_log : List AuditEntry
  pub trusted : List Trusted
  pub oidc_clients : List OidcClient
  pub oidc_codes : List OidcCode
  pub oidc_tokens : List OidcToken
  -- The calls of `Firewall.Fail`.
  pub fw_fails : List (String × Event)
  -- How often a password has been put through argon2.
  pub argon2_runs : ℕ

pub data Error : Type 0 where
  not_found bad_code challenge_closed cooldown no_channel locked : Error
  bad_credentials db_error crypto_error : Error

abbrev pub M : Type 0 → Type 0
M A = World → Result Error A × World

-- `if err != nil { return err }`.
abbrev pub and_then : {A B : Type 0} → Result Error A × World → (A → M B) → Result Error B × World
and_then (ok a, w) f = f a w
and_then (err e, w) f = (err e, w)

infixl 5 ◌>>=◌ ◌>>◌
abbrev pub ◌>>=◌ : {A B : Type 0} → M A → (A → M B) → M B
◌>>=◌ m f w = and_then (m w) f

abbrev pub ◌>>◌ : {A B : Type 0} → M A → M B → M B
m >> k = m >>= λ _. k

abbrev pub return : {A : Type 0} → A → M A
return a w = (ok a, w)

abbrev pub fail : {A : Type 0} → Error → M A
fail e w = (err e, w)

-- `x, err := m`, the error kept as a value.
abbrev pub attempt : {A : Type 0} → M A → M (Result Error A)
attempt m w = (ok (m w).0, (m w).1)

abbrev pub get : M World
get w = (ok w, w)

-- One round trip to the database.
abbrev query_with : List Bool → M (Unit {0})
query_with [] w = (ok tt, w)
query_with (true ∷ rest) w = (err db_error, record w { faults = rest })
query_with (false ∷ rest) w = (ok tt, record w { faults = rest })

abbrev pub query : M (Unit {0})
query w = query_with w.faults w

abbrev pub is_none {ℓ} : {A : Type ℓ} → Option A → Bool
is_none none = true
is_none (some _) = false

-- `opt = $1` in SQL, where NULL equals nothing.
abbrev pub is_some_eq : Option ℕ → ℕ → Bool
is_some_eq none n = false
is_some_eq (some m) n = m == n
