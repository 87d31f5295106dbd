-- ===== src/Auth/Codes/Frames.antt =====
-- What the checks of codes leave alone: the count of argon2 runs and the table of users.
use ligament_2fa.Prelude.{ℕ, ◌≡◌, Bool, List, [], ◌∷◌, arith, if◌then◌else◌, ok, err, String}
use ligament_2fa.Auth.Audit.{audit, user_by_id, user_by_username, fail_locked}
use ligament_2fa.Auth.Codes.{
  claim_delivered, match_delivered, verify_delivered, verify_any_code, verify_totp_or_delivered,
}
use ligament_2fa.Auth.Config.{Env}
use ligament_2fa.Auth.Totp.{verify_totp}
use ligament_2fa.Store.Challenges.{challenge_mark_used, active_code_challenges}
use ligament_2fa.Store.State.{totp, backup, return, World, Challenge, User, Event}
use ligament_2fa.Store.Totp.{totp_get, totp_set_timestep, backup_consume}
use ligament_2fa.Store.Triple.{if_rule, Keeps, Keeps-bind, Keeps-attempt}

-- The count of argon2 runs so far, and the table of users.
abbrev pub Still : ℕ → List User → World → Type 0
Still n us w = (w.argon2_runs ≡ n) × (w.users ≡ us)

module _ (n : ℕ) (us : List User) where
  pub audit-Still :
      (env : Env) (u : String) (e : Event) (r ip : String) (s : Bool)
      → Keeps (Still n us) (audit env u e r ip s)
  unfolding audit
  audit-Still env u e r ip s = record { run = λ w h. ground arith }

  pub user_by_id-Still : (i : ℕ) → Keeps (Still n us) (user_by_id i)
  unfolding user_by_id
  user_by_id-Still i = record { run = λ w h. ground arith }

  pub user_by_username-Still : (name : String) → Keeps (Still n us) (user_by_username name)
  unfolding user_by_username
  user_by_username-Still name = record { run = λ w h. ground arith }

  pub fail_locked-Still : (env : Env) (i : ℕ) → Keeps (Still n us) (fail_locked env i)
  unfolding fail_locked user_by_id
  fail_locked-Still env i = record { run = λ w h. ground arith }

  pub mark_used-Still : (i : ℕ) → Keeps (Still n us) (challenge_mark_used i)
  unfolding challenge_mark_used
  mark_used-Still i = record { run = λ w h. ground arith }

  pub backup_consume-Still : (i h : ℕ) → Keeps (Still n us) (backup_consume i h)
  unfolding backup_consume
  backup_consume-Still i h = record { run = λ w e. ground arith }

  pub verify_totp-Still :
      (env : Env) (u : User) (code : List ℕ) → Keeps (Still n us) (verify_totp env u code)
  unfolding verify_totp totp_get totp_set_timestep
  verify_totp-Still env u code = record { run = λ w h. ground arith }

  active-Still : (i : ℕ) (ps : List String) → Keeps (Still n us) (active_code_challenges i ps)
  unfolding active_code_challenges
  active-Still i [] = record { run = λ w h. h }
  active-Still i (p ∷ ps) = record { run = λ w h. ground arith }

  match_delivered-Still :
      (sum : ℕ) (cs : List Challenge) → Keeps (Still n us) (match_delivered sum cs)
  unfolding match_delivered claim_delivered
  match_delivered-Still sum [] = record { run = λ w h. h }
  match_delivered-Still sum (c ∷ cs) = record {
    run = λ w h.
        ground (arith, (mark_used-Still c.id).run w h, (match_delivered-Still sum cs).run w h);
  }

  verify_delivered-Still :
      (env : Env) (u : User) (code : List ℕ) (ps : List String)
      → Keeps (Still n us) (verify_delivered env u code ps)
  unfolding verify_delivered
  verify_delivered-Still env u code [] = record { run = λ w h. h }
  verify_delivered-Still env u code (p ∷ ps) =
      Keeps-bind (active_code_challenges u.id (p ∷ ps)) _ (active-Still u.id (p ∷ ps))
        (λ cs. match_delivered-Still _ cs)

  totp_or_delivered-Still :
      (env : Env) (u : User) (code : List ℕ) (ps : List String)
      → Keeps (Still n us) (verify_totp_or_delivered env u code ps)
  unfolding verify_totp_or_delivered
  totp_or_delivered-Still env u code ps =
      Keeps-attempt (verify_totp env u code)
        (λ r. elim r [ ok _ ↦ return totp | err _ ↦ verify_delivered env u code ps ])
        (verify_totp-Still env u code)
        (elim [ ok _ ↦ record { run = λ w h. h } | err _ ↦ verify_delivered-Still env u code ps ])

  -- No way of checking a code runs argon2 or changes a user.
  pub verify_any_code-Still :
      (env : Env) (u : User) (code : List ℕ) (ps : List String)
      → Keeps (Still n us) (verify_any_code env u code ps)
  unfolding verify_any_code
  verify_any_code-Still env u code ps =
      Keeps-attempt (backup_consume u.id (env.crypto.sha256 code))
        (λ r. elim r [
          | ok b ↦ if b then return backup else verify_totp_or_delivered env u code ps
          | err _ ↦ verify_totp_or_delivered env u code ps
        ])
        (backup_consume-Still _ _)
        (elim [
          | ok b ↦
              if_rule b _ _ (λ _. record { run = λ w h. h })
                (λ _. totp_or_delivered-Still env u code ps)
          | err e ↦ totp_or_delivered-Still env u code ps
        ])
