-- ===== src/Auth/Codes/SingleUse.antt =====
-- core.go, `VerifyChallengeCode`: the code of a challenge is accepted at most once.
use ligament_2fa.Prelude.{
  ℕ, ◌≡◌, ◌≢◌, Bool, true, not, ◌||◌, List, arith, ltb, if◌then◌else◌, All, Result, ok, err, String,
}
use ligament_2fa.Auth.Audit.{audit, user_by_id}
use ligament_2fa.Auth.Codes.{claim, fail_attempt, verify_challenge_totp, verify_challenge_code}
use ligament_2fa.Auth.Config.{Env}
use ligament_2fa.Auth.Totp.{verify_totp}
use ligament_2fa.Store.Challenges.Claims.{
  IsClaimed, mark_used_claims, claimed_refuses, StoreOp, run_ops, run_ops-IsClaimed, IsFresh,
}
use ligament_2fa.Store.State.{
  totp, channel_eq, World, Challenge, User, Error, not_found, bad_code, challenge_closed, M, ◌>>=◌,
  ◌>>◌, fail, is_some_eq, is_none,
}
use ligament_2fa.Store.Totp.{totp_get, totp_set_timestep}
use ligament_2fa.Store.Triple.{Triple, OnOk, bind_rule, attempt_rule, if_rule, on_ok, ok_on}

-- The challenge `i` is claimed in the state.
abbrev Claimed : ℕ → World → Type 0
Claimed i w = IsClaimed i w.challenges

-- Success leaves the challenge claimed.
abbrev Claims : (i : ℕ) → M Bool → Type 0
Claims i m = Triple (λ _. Unit) m (OnOk (λ _ w. Claimed i w))

-- A claimed challenge has no success.
abbrev Refuses : (i : ℕ) → M Bool → Type 0
Refuses i m = Triple (Claimed i) m (OnOk (λ _ _. ⊥))

module _ (env : Env) (ch : Challenge) (name : String) where
  claim-Claims : Claims ch.id (claim env ch name)
  unfolding claim audit
  claim-Claims = record {
    run = λ w _.
        on_ok (λ _ w'. Claimed ch.id w') _ _ (λ b e. ground (arith, mark_used_claims ch.id w));
  }

  claim-Refuses : Refuses ch.id (claim env ch name)
  unfolding claim
  claim-Refuses = record {
    run = λ w h. on_ok (λ _ _. ⊥) _ _ (λ b e. ground (arith, claimed_refuses ch.id w h));
  }

  -- A check that fails whatever the attempt does.
  failing :
      {A : Type 0} (P : World → Type 0) (m : M A) (e : Error) (Q : Bool → World → Type 0)
      → Triple P (m >>= λ _. fail e) (OnOk Q)
  failing P m e Q =
      bind_rule {R = λ _ _. Unit} m (λ _. fail e) (record { run = λ w h. tt })
        (λ a. record { run = λ w h. tt }) (λ e' w h. tt)

module _ (i : ℕ) where
  verify_totp-Claimed :
      (env : Env) (u : User) (code : List ℕ)
      → Triple (Claimed i) (verify_totp env u code) (λ _. Claimed i)
  unfolding verify_totp totp_get totp_set_timestep
  verify_totp-Claimed env u code = record { run = λ w h. ground (arith, h) }

  user_by_id-Claimed : (u : ℕ) → Triple (Claimed i) (user_by_id u) (λ _. Claimed i)
  unfolding user_by_id
  user_by_id-Claimed u = record { run = λ w h. ground (arith, h) }

module _ (env : Env) (ch : Challenge) (code : List ℕ) where
  abbrev after_totp : User → Result Error (Unit {0}) → M Bool
  after_totp u r = elim r [
    | ok _ ↦ claim env ch u.username
    | err not_found ↦ fail not_found
    | err _ ↦ fail_attempt env ch u.username >> fail bad_code
  ]

  totp-Claims : (u : User) → Claims ch.id (verify_challenge_totp env ch u code)
  unfolding verify_challenge_totp
  totp-Claims u =
      attempt_rule {R = λ _ _. Unit} (verify_totp env u code) (after_totp u)
        (record { run = λ w h. tt }) (λ a. claim-Claims env ch u.username)
        (elim [
          | not_found ↦ record { run = λ w h. tt }
          | _ ↦ failing env ch u.username _ (fail_attempt env ch u.username) bad_code _
        ])

  totp-Refuses : (u : User) → Refuses ch.id (verify_challenge_totp env ch u code)
  unfolding verify_challenge_totp
  totp-Refuses u =
      attempt_rule (verify_totp env u code) (after_totp u) (verify_totp-Claimed ch.id env u code)
        (λ a. claim-Refuses env ch u.username)
        (elim [
          | not_found ↦ record { run = λ w h. tt }
          | _ ↦ failing env ch u.username _ (fail_attempt env ch u.username) bad_code _
        ])

  abbrev after_user : User → M Bool
  after_user user =
      if channel_eq ch.channel totp
      then verify_challenge_totp env ch user code
      else if is_some_eq ch.code_hash (env.crypto.sha256 code)
      then claim env ch user.username
      else (fail_attempt env ch user.username >> fail bad_code)

  after_user-Claims : (u : User) → Claims ch.id (after_user u)
  after_user-Claims u =
      if_rule (channel_eq ch.channel totp) _ _ (λ _. totp-Claims u)
        (λ _.
          if_rule (is_some_eq ch.code_hash (env.crypto.sha256 code)) _ _
            (λ _. claim-Claims env ch u.username)
            (λ _. failing env ch u.username _ (fail_attempt env ch u.username) bad_code _))

  after_user-Refuses : (u : User) → Refuses ch.id (after_user u)
  after_user-Refuses u =
      if_rule (channel_eq ch.channel totp) _ _ (λ _. totp-Refuses u)
        (λ _.
          if_rule (is_some_eq ch.code_hash (env.crypto.sha256 code)) _ _
            (λ _. claim-Refuses env ch u.username)
            (λ _. failing env ch u.username _ (fail_attempt env ch u.username) bad_code _))

  abbrev closed : World → Bool
  closed w = not (is_none ch.used_at) || not (ltb w.now ch.expires_at)

  abbrev opened : M Bool
  opened = user_by_id ch.user_id >>= after_user

  opened-Claims : Claims ch.id opened
  opened-Claims =
      bind_rule {R = λ _ _. Unit} (user_by_id ch.user_id) after_user (record { run = λ w h. tt })
        after_user-Claims (λ e w h. tt)

  opened-Refuses : Refuses ch.id opened
  opened-Refuses =
      bind_rule (user_by_id ch.user_id) after_user (user_by_id-Claimed ch.id ch.user_id)
        after_user-Refuses (λ e w h. tt)

  verify-Claims : Claims ch.id (verify_challenge_code env ch code)
  unfolding verify_challenge_code
  verify-Claims = record {
    run = λ w h.
        (if_rule (closed w) (fail challenge_closed) opened (λ _. record { run = λ w h. tt })
            (λ _. opened-Claims)).run
          w tt;
  }

  verify-Refuses : Refuses ch.id (verify_challenge_code env ch code)
  unfolding verify_challenge_code
  verify-Refuses = record {
    run = λ w h.
        (if_rule (closed w) (fail challenge_closed) opened (λ _. record { run = λ w h. tt })
            (λ _. opened-Refuses)).run
          w h;
  }

-- A challenge is good for one success. After `VerifyChallengeCode` has accepted a code of it, no
-- later call accepts one, whatever code is given, also where the caller holds the row as it was
-- before; in between any statements may run on the table that give new
-- challenges other ids, time may pass and the database may fail.
pub verify_challenge_code_once :
    (env env' : Env) (ch : Challenge) (code code' : List ℕ) (w : World) (os : List StoreOp)
    → (verify_challenge_code env ch code w).0 ≡ ok true
    → All (IsFresh ch.id) os
    → (verify_challenge_code env' ch code' (run_ops os (verify_challenge_code env ch code w).1)).0
      ≢ ok true
verify_challenge_code_once env env' ch code code' w os accepted fresh again =
    ok_on (λ _ _. ⊥) _ again
      ((verify-Refuses env' ch code').run _ (
        run_ops-IsClaimed ch.id os _ fresh
          (ok_on (λ _ w. Claimed ch.id w) _ accepted ((verify-Claims env ch code).run w tt))))
