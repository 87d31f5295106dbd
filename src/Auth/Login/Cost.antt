-- ===== src/Auth/Login/Cost.antt =====
-- core.go and auth.go: a login costs at most one argon2 run.
use ligament_2fa.Prelude.{
  ℕ, ◌+◌, ◌≤◌, refl, Bool, true, false, none, some, List, [], ◌∷◌, arith, if◌then◌else◌, ok, err,
  String,
}
use ligament_2fa.Auth.Audit.{fail_locked, audit, user_by_username}
use ligament_2fa.Auth.Codes.Frames.{
  fail_locked-Still, user_by_username-Still, verify_any_code-Still, Still,
}
use ligament_2fa.Auth.Config.{Env}
use ligament_2fa.Auth.Login.{
  locked, verify_any_code, Split, check_whole, try_candidates, verify_password_and_code,
  login_candidates, Verdict, local_verify, burn_dummy_verify, verify_password, check_first,
}
use ligament_2fa.Store.State.{
  ◌>>=◌, ◌>>◌, not_found, locked, attempt, M, fail, World, User, Event, login_ok, login_fail,
  return,
}
use ligament_2fa.Store.Triple.{if_rule, bind_rule, Triple, Keeps, attempt_rule}

-- At most one run more than `n`.
abbrev pub Once : ℕ → World → Type 0
Once n w = w.argon2_runs ≤ n + 1

pub audit-Once :
    (n : ℕ) {A : Type 0} (env : Env) (u : String) (e : Event) (r ip : String) (s : Bool) (a : A)
    → Keeps (Once n) (audit env u e r ip s >> return a)
unfolding audit
audit-Once n env u e r ip s a = record { run = λ w h. ground (arith, h) }

module _ (n : ℕ) (us : List User) where
  pub local_verify-Once :
      (env : Env) (u : String) (p : List ℕ)
      → Triple (Still n us) (local_verify env u p) (λ _. Once n)
  unfolding local_verify user_by_username burn_dummy_verify verify_password
  local_verify-Once env u p = record { run = λ w h. ground (arith, h) }

  -- The end of both phases: one password check, and an entry either way.
  settle-Once :
      (env : Env) (name : String) (p : List ℕ) (good bad : M Verdict)
      → Keeps (Once n) good
      → Keeps (Once n) bad
      → Triple
          (Still n us)
          (attempt (local_verify env name p) >>= λ r. elim r [ ok _ ↦ good | err _ ↦ bad ])
          (λ _. Once n)
  settle-Once env name p good bad g b =
      attempt_rule (local_verify env name p) (λ r. elim r [ ok _ ↦ good | err _ ↦ bad ])
        (local_verify-Once env name p) (λ a. g) (λ e. b)

  check_first-Once :
      (env : Env) (u : User) (name : String) (p : List ℕ)
      → Triple (Still n us) (check_first env u name p) (λ _. Once n)
  unfolding check_first
  check_first-Once env u name p =
      settle-Once env name p (audit env name login_ok "" "" true >> return (some u, true))
        (audit env name login_fail "bad_credentials" "" false >> return (none, false))
        (audit-Once n _ _ _ _ _ _ _) (audit-Once n _ _ _ _ _ _ _)

  check_whole-Once :
      (env : Env) (u : User) (name : String) (p : List ℕ)
      → Triple (Still n us) (check_whole env u name p) (λ _. Once n)
  unfolding check_whole
  check_whole-Once env u name p =
      settle-Once env name p
        (audit env name login_fail "bad_code" "" false >> return (some u, false))
        (audit env name login_fail "bad_credentials" "" false >> return (none, false))
        (audit-Once n _ _ _ _ _ _ _) (audit-Once n _ _ _ _ _ _ _)

  try_candidates-Once :
      (env : Env) (u : User) (name : String) (whole : List ℕ) (ps : List String) (cs : List Split)
      → Triple (Still n us) (try_candidates env u name whole ps cs) (λ _. Once n)
  unfolding try_candidates
  try_candidates-Once env u name whole ps [] = check_whole-Once env u name whole
  try_candidates-Once env u name whole ps (c ∷ cs) =
      attempt_rule (verify_any_code env u c.code ps)
        (λ r. elim r [
          | ok _ ↦ check_first env u name c.password
          | err _ ↦ try_candidates env u name whole ps cs
        ])
        (verify_any_code-Still n us env u c.code ps) (λ a. check_first-Once env u name c.password)
        (λ e. try_candidates-Once env u name whole ps cs)

  abbrev unknown : Env → String → M Verdict
  unknown env name = do
    burn_dummy_verify
    audit env name login_fail "no_user" "" false
    return (none, false)

  unknown-Once : (env : Env) (name : String) → Triple (Still n us) (unknown env name) (λ _. Once n)
  unfolding burn_dummy_verify audit
  unknown-Once env name = record { run = λ w h. ground (arith, h) }

  abbrev known : Env → String → List ℕ → List ℕ → List String → User → M Verdict
  known env name p code ps u = do
    banned ← fail_locked env u.id
    if banned then fail locked else try_candidates env u name p ps (login_candidates env p code)

  known-Once :
      (env : Env) (name : String) (p code : List ℕ) (ps : List String) (u : User)
      → Triple (Still n us) (known env name p code ps u) (λ _. Once n)
  known-Once env name p code ps u =
      bind_rule (fail_locked env u.id)
        (λ banned.
          if banned
          then fail locked
          else try_candidates env u name p ps (login_candidates env p code))
        (fail_locked-Still n us env u.id)
        (λ b.
          if_rule b _ _ (λ _. record { run = λ w h. ground (arith, h) })
            (λ _. try_candidates-Once env u name p ps _))
        (λ e w h. ground (arith, h))

  login-Once :
      (env : Env) (name : String) (p code : List ℕ) (ps : List String)
      → Triple (Still n us) (verify_password_and_code env name p code ps) (λ _. Once n)
  unfolding verify_password_and_code
  login-Once env name p code ps =
      attempt_rule (user_by_username name)
        (λ r. elim r [
          | err not_found ↦ unknown env name
          | err e ↦ fail e
          | ok u ↦ known env name p code ps u
        ])
        (user_by_username-Still n us name) (λ u. known-Once env name p code ps u)
        (elim [ not_found ↦ unknown-Once env name | _ ↦ record { run = λ w h. ground (arith, h) } ])

-- A login runs argon2 at most once, whatever the user, the password, the code and the number of
-- ways to split them, and whichever queries the database fails.
pub login_one_argon2 :
    (env : Env) (name : String) (p code : List ℕ) (ps : List String) (w : World)
    → (verify_password_and_code env name p code ps w).1.argon2_runs ≤ w.argon2_runs + 1
login_one_argon2 env name p code ps w =
    (login-Once w.argon2_runs w.users env name p code ps).run w (refl, refl)
