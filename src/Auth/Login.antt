-- ===== src/Auth/Login.antt =====
-- The first factor (internal/auth/auth.go, `LocalVerifier`) and `VerifyPasswordAndCode` of
-- internal/auth/core.go.
pub mod Cost
pub mod Soundness
use ligament_2fa.Prelude.{
  ℕ, ◌+◌, Bool, true, false, not, Option, none, some, List, [], ◌∷◌, if◌then◌else◌, ok, err, String,
}
use ligament_2fa.Auth.Audit.{audit, user_by_username, fail_locked}
use ligament_2fa.Auth.Codes.{verify_any_code}
use ligament_2fa.Auth.Config.{Env}
use ligament_2fa.Auth.Split.{Split, split_candidates}
use ligament_2fa.Store.State.{
  User, login_ok, login_fail, World, not_found, bad_credentials, locked, M, ◌>>=◌, ◌>>◌, return,
  fail, attempt,
}

abbrev burn : World → World
burn w = record w { argon2_runs = w.argon2_runs + 1 }

-- `BurnDummyVerify`: argon2 over a decoy hash, its result thrown away.
unfoldable pub burn_dummy_verify : M (Unit {0})
burn_dummy_verify w = (ok tt, burn w)

-- `secrets.VerifyPassword`.
unfoldable pub verify_password : Env → ℕ → List ℕ → M Bool
verify_password env hash password w = (ok (env.crypto.check_password hash password), burn w)

-- `(*LocalVerifier).Verify`; a disabled user is refused before the password is looked at.
unfoldable pub local_verify : Env → String → List ℕ → M User
local_verify env username password = do
  found ← attempt (user_by_username username)
  elim found [
    | err not_found ↦ burn_dummy_verify >> fail not_found
    | err e ↦ fail e
    | ok u ↦ if not u.enabled then fail bad_credentials else (do
      good ← verify_password env u.password_hash password
      if good then return u else fail bad_credentials)
  ]

-- What a login comes to: the user, if the password is right, and whether the code is.
abbrev pub Verdict : Type 0
Verdict = Option User × Bool

-- One password check, at the first candidate whose code is accepted.
unfoldable pub check_first : Env → User → String → List ℕ → M Verdict
check_first env user username password = do
  r ← attempt (local_verify env username password)
  elim r [
    | ok _ ↦ audit env username login_ok "" "" true >> return (some user, true)
    | err _ ↦ audit env username login_fail "bad_credentials" "" false >> return (none, false)
  ]

-- Phase 2: no candidate's code was accepted; is the whole string the password?
unfoldable pub check_whole : Env → User → String → List ℕ → M Verdict
check_whole env user username password = do
  r ← attempt (local_verify env username password)
  elim r [
    | ok _ ↦ audit env username login_fail "bad_code" "" false >> return (some user, false)
    | err _ ↦ audit env username login_fail "bad_credentials" "" false >> return (none, false)
  ]

-- Phase 1: the codes of the candidates, in order.
unfoldable pub try_candidates : Env → User → String → List ℕ → List String → List Split → M Verdict
try_candidates env user username whole purposes [] = check_whole env user username whole
try_candidates env user username whole purposes (c ∷ cs) =
    let later = try_candidates env user username whole purposes cs in
    do
      r ← attempt (verify_any_code env user c.code purposes)
      elim r [ ok _ ↦ check_first env user username c.password | err _ ↦ later ]

-- An explicit code, or the splits of the password where there is none.
unfoldable pub login_candidates : Env → List ℕ → List ℕ → List Split
login_candidates env password [] = split_candidates password env.settings.code_lengths
login_candidates env password (x ∷ xs) = record { password = password; code = x ∷ xs } ∷ []

-- `(*Core).VerifyPasswordAndCode`.
unfoldable pub verify_password_and_code : Env → String → List ℕ → List ℕ → List String → M Verdict
verify_password_and_code env username password code purposes = do
  found ← attempt (user_by_username username)
  elim found [
    | err not_found ↦ (do
      burn_dummy_verify
      audit env username login_fail "no_user" "" false
      return (none, false))
    | err e ↦ fail e
    | ok user ↦ (do
      banned ← fail_locked env user.id
      if banned
          then fail locked
          else try_candidates env user username password purposes
              (login_candidates env password code))
  ]
