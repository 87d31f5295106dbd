-- ===== src/Auth/Codes.antt =====
-- The codes of internal/auth/core.go: attempts, the code of one challenge, and any code of a user.
pub mod Frames
pub mod Delivered
pub mod Factor
pub mod Tables
pub mod SingleUse
use ligament_2fa.Prelude.{
  ℕ, Bool, true, false, not, ◌||◌, List, [], ◌∷◌, ltb, ◌==◌, if◌then◌else◌, ok, err, String,
}
use ligament_2fa.Auth.Audit.{audit, user_by_id}
use ligament_2fa.Auth.Config.{Env}
use ligament_2fa.Auth.Totp.{verify_totp}
use ligament_2fa.Store.Challenges.{
  challenge_mark_used, challenge_decr_attempt, active_code_challenges,
}
use ligament_2fa.Store.State.{
  Channel, totp, backup, channel_eq, Challenge, User, code_ok, code_fail, not_found, bad_code,
  challenge_closed, M, ◌>>=◌, ◌>>◌, return, fail, attempt, get, is_none, is_some_eq,
}
use ligament_2fa.Store.Totp.{backup_consume}

-- `(*Core).failAttempt`: one attempt is spent; the last one closes the challenge. An error of the
-- decrement ends it silently, an error of the claim is ignored.
unfoldable pub fail_attempt : Env → Challenge → String → M (Unit {0})
fail_attempt env ch username = do
  left ← attempt (challenge_decr_attempt ch.id)
  elim left [
    | err _ ↦ return tt
    | ok n ↦ (do
      closed ← (if n == 0 then attempt (challenge_mark_used ch.id) else return (ok tt))
      audit env username code_fail "" "" false)
  ]

-- The end of a successful check: the single-use claim, whose loss to another request closes the
-- challenge.
unfoldable pub claim : Env → Challenge → String → M Bool
claim env ch username = do
  claimed ← attempt (challenge_mark_used ch.id)
  elim claimed [
    | err not_found ↦ fail challenge_closed
    | err e ↦ fail e
    | ok _ ↦ audit env username code_ok "" "" true >> return true
  ]

-- The TOTP branch of `VerifyChallengeCode`: a missing secret is no wrong code.
unfoldable pub verify_challenge_totp : Env → Challenge → User → List ℕ → M Bool
verify_challenge_totp env ch user code = do
  r ← attempt (verify_totp env user code)
  elim r [
    | ok _ ↦ claim env ch user.username
    | err not_found ↦ fail not_found
    | err _ ↦ fail_attempt env ch user.username >> fail bad_code
  ]

-- `(*Core).VerifyChallengeCode`.
unfoldable pub verify_challenge_code : Env → Challenge → List ℕ → M Bool
verify_challenge_code env ch code = do
  w ← get
  if not (is_none ch.used_at) || not (ltb w.now ch.expires_at) then fail challenge_closed else (do
    user ← user_by_id ch.user_id
    if channel_eq ch.channel totp
        then verify_challenge_totp env ch user code
        else if is_some_eq ch.code_hash (env.crypto.sha256 code)
        then claim env ch user.username
        else (fail_attempt env ch user.username >> fail bad_code))

-- `LoginCodePurposes`.
abbrev pub login_code_purposes : List String
login_code_purposes = "api" ∷ "radius_prefetch" ∷ []

-- The claim of the delivered code that fits; its loss to another request is a wrong code.
unfoldable pub claim_delivered : Challenge → M Channel
claim_delivered ch = do
  claimed ← attempt (challenge_mark_used ch.id)
  elim claimed [ err not_found ↦ fail bad_code | err e ↦ fail e | ok _ ↦ return ch.channel ]

-- The loop over the delivered codes: the first hash that fits is claimed.
unfoldable pub match_delivered : ℕ → List Challenge → M Channel
match_delivered sum [] = fail bad_code
match_delivered sum (ch ∷ rest) =
    let later = match_delivered sum rest in
    if is_some_eq ch.code_hash sum then claim_delivered ch else later

-- The third step of `VerifyAnyCode`; with no purposes no delivered code is accepted.
unfoldable pub verify_delivered : Env → User → List ℕ → List String → M Channel
verify_delivered env user code [] = fail bad_code
verify_delivered env user code (p ∷ ps) = do
  list ← active_code_challenges user.id (p ∷ ps)
  match_delivered (env.crypto.sha256 code) list

-- The second and third steps of `VerifyAnyCode`: a TOTP code, else a delivered code.
unfoldable pub verify_totp_or_delivered : Env → User → List ℕ → List String → M Channel
verify_totp_or_delivered env user code purposes = do
  r ← attempt (verify_totp env user code)
  elim r [ ok _ ↦ return totp | err _ ↦ verify_delivered env user code purposes ]

-- `(*Core).VerifyAnyCode`: a backup code comes first.
unfoldable pub verify_any_code : Env → User → List ℕ → List String → M Channel
verify_any_code env user code purposes = do
  consumed ← attempt (backup_consume user.id (env.crypto.sha256 code))
  elim consumed [
    | ok b ↦ if b then return backup else verify_totp_or_delivered env user code purposes
    | err _ ↦ verify_totp_or_delivered env user code purposes
  ]
