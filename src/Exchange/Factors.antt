-- ===== src/Exchange/Factors.antt =====
-- internal/radiusserver/eapauth.go, `handlePEAPInner`: the checks of an inner MS-CHAPv2 response, from
-- the user's row to the second factor.
pub mod Window
pub mod Grounds
pub mod Second
pub mod Soundness
use ligament_2fa.Prelude.{
  ℕ, zero, suc, ◌+◌, ◌-◌, ◌*◌, ◌/◌, ◌%◌, ◌^◌, ◌≤◌, ◌<◌, min, max, bit_and, bit_or, ◌≡◌, refl, sym,
  ap, ◌∙◌, subst, ◌≢◌, ◌↔◌, ◌⊎◌, inl, inr, Bool, true, false, not, ◌&&◌, ◌||◌, Option, none, some,
  List, [], ◌∷◌, ◌++◌, map, append-nil, append_assoc, arith, ltb, leb, ◌==◌, if◌then◌else◌, ltb→lt,
  lt→ltb, leb→le, ==_iff, tests, Bool-cases, Option-cases, length, get_or, take, drop, All, slice,
  length-append, take-append-drop, length-take, length-drop, take-append, drop-append, take_all,
  drop_all, Result, ok, err, is_ok, any, count_where, select, update_where, find, String, str_eq,
  Among, Among-select, Result-cases, some_injective, All-select, All-update_where, All-find,
}
use ligament_2fa.Auth.Audit.{user_by_username, fail_locked}
use ligament_2fa.Auth.Login.{burn_dummy_verify}
use ligament_2fa.Auth.Radius.{Answer, radius_authenticate, radius_locked}
use ligament_2fa.Eap.Bytes.{Bytes}
use ligament_2fa.Eap.Mschap.{MschapResponse}
use ligament_2fa.Eap.Mschap.Keys.{Hashes, nt_hash, verify_mschap}
use ligament_2fa.Exchange.Server.{Server, Request, Chance}
use ligament_2fa.Exchange.Trust.{
  record_event, audit_radius_fail, radius_trust_trusted, radius_trust_remember, is_second_factor,
}
use ligament_2fa.Store.State.{
  User, TotpSecret, radius_auth, radius_trust_skip, Error, M, ◌>>=◌, ◌>>◌, return, attempt, get,
  is_none,
}
use ligament_2fa.Store.Totp.{totp_get, totp_set_timestep}

-- The password that fits the response, the authenticator response, and the counter of the code that
-- follows the password, `none` where it is the clean password.
pub record Candidate : Type 0 where
  pub password : Bytes
  pub auth_response : Bytes
  pub timestep : Option ℕ

abbrev candidate_of : Bytes → Option ℕ → Option Bytes → Option Candidate
candidate_of password timestep none = none
candidate_of password timestep (some r) =
    some (record { password = password; auth_response = r; timestep = timestep })

-- `testCandidate`.
unfoldable pub test_candidate :
    Server → MschapResponse → Bytes → Bytes → Option ℕ → Option Candidate
test_candidate server resp auth password timestep =
    candidate_of password timestep
      (verify_mschap server.hashes resp auth (nt_hash server.hashes password))

module _ (server : Server) (resp : MschapResponse) (auth : Bytes) where
  abbrev pub test_code : Bytes → ℕ → Option Bytes → Option Candidate
  test_code password cnt none = none
  test_code password cnt (some code) = test_candidate server resp auth (password ++ code) (some cnt)

  -- The loop over the window: the first counter whose code fits.
  unfoldable pub code_candidate : Bytes → ℕ → ℕ → ℕ → ℕ → Option Candidate
  code_candidate password secret digits zero cnt = none
  code_candidate password secret digits (suc rounds) cnt =
      let later = code_candidate password secret digits rounds (cnt + 1) in
      elim (test_code password cnt (server.env.crypto.hotp_code secret cnt digits)) [
        | some c ↦ some c
        | none ↦ later
      ]

  abbrev pub effective_skew : ℕ
  effective_skew = if server.env.settings.skew == 0 then 1 else server.env.settings.skew

  abbrev pub or_else : ℕ → ℕ → ℕ
  or_else n d = if n == 0 then d else n

  abbrev pub effective_period : TotpSecret → ℕ
  effective_period t = or_else t.period (or_else server.totp_period 30)

  -- Counters below 0 are skipped: the window begins at 0 then.
  unfoldable pub window_candidate : String → Bytes → ℕ → TotpSecret → Option Candidate
  window_candidate username password now t =
      let cur = now / effective_period t in
      if not t.confirmed then none else elim (server.env.crypto.decrypt username t.secret_enc) [
        | none ↦ none
        | some secret ↦
            code_candidate password secret t.digits
              (cur + effective_skew + 1 - (cur - effective_skew)) (cur - effective_skew)
      ]

  abbrev pub on_totp : User → Bytes → Result Error TotpSecret → M (Option Candidate)
  on_totp user password (err e) = return none
  on_totp user password (ok t) = do
    w ← get
    return (window_candidate user.username password w.now t)

  abbrev pub try_code : User → Bytes → Option Candidate → M (Option Candidate)
  try_code user password (some c) = return (some c)
  try_code user password none = do got ← attempt (totp_get user.id); on_totp user password got

  -- The clean password, else the password with a code of the window.
  unfoldable pub match_candidate : User → Bytes → M (Option Candidate)
  match_candidate user password =
      try_code user password (test_candidate server resp auth password none)

-- The end of the checks: the exchange goes on with the candidate, or with an MS-CHAPv2 Failure, or
-- breaks off, or is still held by a push.
pub data Verdict : Type 0 where
  granted : Candidate → Verdict
  denied : Verdict
  broken : Verdict
  still_held : Verdict

module _ (server : Server) (r : Request) (c : Chance) (username : String) where
  abbrev pub deny : String → M Verdict
  deny reason = record_event username radius_auth reason false >> return denied

  abbrev pub deny_burning : String → M Verdict
  deny_burning reason = burn_dummy_verify >> deny reason

  abbrev pub deny_counted : String → M Verdict
  deny_counted reason = audit_radius_fail username reason >> return denied

  abbrev pub on_spent : User → Candidate → Result Error Bool → M Verdict
  on_spent user k (err e) = deny_counted "totp_replay"
  on_spent user k (ok false) = deny_counted "totp_replay"
  on_spent user k (ok true) = do
    record_event username radius_auth "code_ok" true
    radius_trust_remember server user.id r.calling_station
    return (granted k)

  -- The code's counter is spent, by a statement that only moves the mark forwards.
  unfoldable pub spend_code : User → Candidate → ℕ → M Verdict
  spend_code user k counter = do
    spent ← attempt (totp_set_timestep user.id counter)
    on_spent user k spent

  abbrev pub after_push : User → Candidate → Answer → M Verdict
  after_push user k none = return still_held
  after_push user k (some (false, reason)) = return denied
  after_push user k (some (true, reason)) =
      if is_second_factor reason
      then radius_trust_remember server user.id r.calling_station >> return (granted k)
      else return (granted k)

  unfoldable pub push_factor : User → Candidate → M Verdict
  push_factor user k = do
    answer ← radius_authenticate server.env c.push username r.src_ip c.ticks k.password
    after_push user k answer

  -- The second factor of a clean password: a trusted device, or none where radius_push is off for the
  -- user, or `RADIUSAuth`.
  unfoldable pub clean_factor : User → Candidate → M Verdict
  clean_factor user k = do
    trusted ← radius_trust_trusted server user.id r.calling_station
    if trusted
        then record_event username radius_trust_skip "trusted_device" true >> return (granted k)
        else (if not c.push.radius_push
            then record_event username radius_auth "password_ok" true >> return (granted k)
            else push_factor user k)

  unfoldable pub second_factor : User → Option Candidate → M Verdict
  second_factor user none = burn_dummy_verify >> deny_counted "bad_credentials"
  second_factor user (some k) = elim k.timestep [
    | none ↦ clean_factor user k
    | some counter ↦ spend_code user k counter
  ]

  module _ (resp : MschapResponse) (auth : Bytes) where
    abbrev pub on_opened : User → Option Bytes → M Verdict
    on_opened user none = deny_burning "bad_credentials"
    on_opened user (some password) =
        match_candidate server resp auth user password >>= second_factor user

    abbrev pub on_sealed : User → Option ℕ → M Verdict
    on_sealed user none = deny_burning "password_enc_missing"
    on_sealed user (some sealed) = on_opened user (server.open_password user.username sealed)

    -- From the lookup of the sealed password on.
    unfoldable pub check_response : User → M Verdict
    check_response user = if server.has_box then on_sealed user user.password_enc else return broken

    unfoldable pub check_locks : User → M Verdict
    check_locks user = do
      many ← radius_locked server.env c.push username r.src_ip c.ticks user
      if many then deny "locked" else (do
        banned ← fail_locked server.env user.id
        if banned then deny "locked" else check_response user)

    abbrev pub on_user : Result Error User → M Verdict
    on_user (err e) = deny_burning "no_user"
    on_user (ok user) = if user.enabled then check_locks user else deny_burning "disabled"

    -- The whole of the checks.
    unfoldable pub authenticate : M Verdict
    authenticate = attempt (user_by_username username) >>= on_user
