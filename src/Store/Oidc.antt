-- ===== src/Store/Oidc.antt =====
-- internal/store/oidc.go: authorization codes and access tokens.
use ligament_2fa.Prelude.{
  ℕ, ◌+◌, Bool, not, ◌&&◌, none, some, List, ◌∷◌, ltb, ◌==◌, ok, select, update_where, find, String,
  str_eq,
}
use ligament_2fa.Store.State.{
  OidcClient, OidcCode, OidcToken, not_found, M, ◌>>=◌, ◌>>◌, return, fail, get, query, is_none,
}

-- `OIDCClientByClientID`.
unfoldable pub oidc_client_by_client_id : String → M OidcClient
oidc_client_by_client_id i = do
  query
  w ← get
  elim (find (λ c. str_eq c.client_id i) w.oidc_clients) [
    | none ↦ fail not_found
    | some c ↦ return c
  ]

abbrev put_codes : List OidcCode → M (Unit {0})
put_codes cs w = (ok tt, record w { oidc_codes = cs })

abbrev put_tokens : List OidcToken → M (Unit {0})
put_tokens ts w = (ok tt, record w { oidc_tokens = ts })

-- `OIDCCodeSave`, which also clears the expired codes; `expires_at` is set here.
unfoldable pub oidc_code_save : OidcCode → ℕ → M (Unit {0})
oidc_code_save c ttl = do
  query
  w ← get
  put_codes (
      record c { expires_at = w.now + ttl; used_at = none }
      ∷ select (λ d. not (ltb d.expires_at w.now)) w.oidc_codes)

-- The row of a hash that is unused and has not expired.
abbrev pub code_claimable : ℕ → ℕ → OidcCode → Bool
code_claimable h now c = c.code_hash == h && is_none c.used_at && ltb now c.expires_at

abbrev pub use_code : ℕ → OidcCode → OidcCode
use_code now c = record c { used_at = some now }

-- `OIDCCodeClaim`: the row, which is used from then on.
unfoldable pub oidc_code_claim : ℕ → M OidcCode
oidc_code_claim h = do
  query
  w ← get
  elim (find (code_claimable h w.now) w.oidc_codes) [
    | none ↦ fail not_found
    | some c ↦
        put_codes (update_where (code_claimable h w.now) (use_code w.now) w.oidc_codes) >> return c
  ]

-- `OIDCTokenSave`, which also clears the expired tokens; `expires_at` is set here.
unfoldable pub oidc_token_save : OidcToken → ℕ → M (Unit {0})
oidc_token_save t ttl = do
  query
  w ← get
  put_tokens (
      record t { expires_at = w.now + ttl }
      ∷ select (λ d. not (ltb d.expires_at w.now)) w.oidc_tokens)

-- `OIDCTokenGet`: a token that has not expired.
unfoldable pub oidc_token_get : ℕ → M OidcToken
oidc_token_get h = do
  query
  w ← get
  elim (find (λ t. t.token_hash == h && ltb w.now t.expires_at) w.oidc_tokens) [
    | none ↦ fail not_found
    | some t ↦ return t
  ]

-- `OIDCTokenDelete`.
unfoldable pub oidc_token_delete : ℕ → M (Unit {0})
oidc_token_delete h = do
  query
  w ← get
  put_tokens (select (λ t. not (t.token_hash == h)) w.oidc_tokens)
