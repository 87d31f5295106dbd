-- ===== src/Auth/Login/Soundness.antt =====
-- core.go, `VerifyPasswordAndCode`: who gets in has both factors, and who is locked out gets no check.
use ligament_2fa.Prelude.{
  ℕ, ◌≡◌, refl, subst, inl, inr, true, false, none, some, List, [], ◌∷◌, arith, if◌then◌else◌,
  Result, ok, err, find, String, Among,
}
use ligament_2fa.Auth.Audit.{user_by_id, fail_locked, user_by_username, audit, user_named}
use ligament_2fa.Auth.Codes.{verify_any_code}
use ligament_2fa.Auth.Codes.Factor.{
  Factor, Begin, begin_here, Checked, verify_any_code-Checked, user_by_username-Begin,
  fail_locked-Begin,
}
use ligament_2fa.Auth.Codes.Frames.{Still}
use ligament_2fa.Auth.Config.{Env}
use ligament_2fa.Auth.Login.{
  login_candidates, verify_password_and_code, burn_dummy_verify, local_verify, verify_password,
  check_first, check_whole, try_candidates, Verdict,
}
use ligament_2fa.Auth.Split.{Split}
use ligament_2fa.Store.State.{
  ◌>>=◌, ◌>>◌, return, not_found, locked, fail, M, World, User, Channel, Error, login_ok,
  login_fail,
}
use ligament_2fa.Store.Triple.{if_rule, ok_on, bind_rule, Triple, OnOk, attempt_rule, on_ok}

-- The first factor: the named user is there and enabled, and the password is his.
pub record Password (env : Env) (us : List User) (name : String) (p : List ℕ) : Type 0 where
  pub owner : User
  pub stored : find (user_named name) us ≡ some owner
  pub enabled : owner.enabled ≡ true
  pub right : env.crypto.check_password owner.password_hash p ≡ true

-- The second factor: the user is the one stored under the name, and the code is one of this user in the
-- tables of `w0`, used up in a state after them.
pub record Accepted (env : Env) (w0 : World) (name : String) (u : User) (code : List ℕ)
    (ps : List String) : Type 0 where
  pub stored : find (user_named name) w0.users ≡ some u
  pub channel : Channel
  pub after : World
  pub factor : Factor env u code ps w0 channel after

module _ (n : ℕ) (us : List User) where
  pub local_verify-Password :
      (env : Env) (name : String) (p : List ℕ)
      → Triple (Still n us) (local_verify env name p) (OnOk (λ u _. Password env us name p))
  unfolding local_verify user_by_username verify_password burn_dummy_verify
  local_verify-Password env name p = record {
    run = λ w h.
        on_ok (λ u _. Password env us name p) _ _
          (λ u e. record {
            owner = u;
            stored = ground (arith, h);
            enabled = ground (arith, h);
            right = ground (arith, h);
          });
  }

-- Both factors, of one candidate.
pub record Passed (env : Env) (w0 : World) (u : User) (name : String) (ps : List String)
    (cs : List Split) : Type 0 where
  pub candidate : Split
  pub among : Among candidate cs
  pub first : Password env w0.users name candidate.password
  pub second : Accepted env w0 name u candidate.code ps

-- What a verdict promises.
abbrev Promise : Env → World → User → String → List String → List Split → Verdict → Type 0
Promise env w0 u name ps cs (some v, true) = (v ≡ u) × Passed env w0 u name ps cs
Promise env w0 u name ps cs _ = Unit

module _ (n : ℕ) (env : Env) (w0 : World) (u : User) (name : String) (whole : List ℕ)
    (ps : List String) (stored : find (user_named name) w0.users ≡ some u) where
  abbrev Post : List Split → Result Error Verdict → World → Type 0
  Post cs = OnOk (λ v _. Promise env w0 u name ps cs v)

  check_first-Post :
      (c : Split) (cs : List Split)
      → Among c cs
      → Accepted env w0 name u c.code ps
      → Triple (Still n w0.users) (check_first env u name c.password) (Post cs)
  unfolding check_first audit
  check_first-Post c cs m a =
      attempt_rule (local_verify env name c.password)
        (λ r. elim r [
          | ok _ ↦ audit env name login_ok "" "" true >> return (some u, true)
          | err _ ↦ audit env name login_fail "bad_credentials" "" false >> return (none, false)
        ])
        (local_verify-Password n w0.users env name c.password)
        (λ v. record {
          run = λ w h. (refl, record { candidate = c; among = m; first = h; second = a });
        })
        (λ e. record { run = λ w h. tt })

  check_whole-Post :
      (cs : List Split) → Triple (Begin n w0) (check_whole env u name whole) (Post cs)
  unfolding check_whole audit
  check_whole-Post cs =
      attempt_rule {R = λ _ _. Unit} (local_verify env name whole)
        (λ r. elim r [
          | ok _ ↦ audit env name login_fail "bad_code" "" false >> return (some u, false)
          | err _ ↦ audit env name login_fail "bad_credentials" "" false >> return (none, false)
        ])
        (record { run = λ w h. tt }) (λ v. record { run = λ w h. tt })
        (λ e. record { run = λ w h. tt })

  try-Post :
      (all cs : List Split)
      → ((c : Split) → Among c cs → Among c all)
      → Triple (Begin n w0) (try_candidates env u name whole ps cs) (Post all)
  unfolding try_candidates Checked
  try-Post all [] sub = check_whole-Post all
  try-Post all (c ∷ cs) sub =
      attempt_rule {R = Checked n w0 env u c.code ps} (verify_any_code env u c.code ps)
        (λ r. elim r [
          | ok _ ↦ check_first env u name c.password
          | err _ ↦ try_candidates env u name whole ps cs
        ])
        (verify_any_code-Checked n w0 env u c.code ps)
        (λ ch. record {
          run = λ w h.
              (check_first-Post c all (sub c (inl refl))
                  (record { stored = stored; channel = ch; after = w; factor = h.1 })).run
                w h.0;
        })
        (λ e. try-Post all cs (λ d m. sub d (inr m)))

module _ (env : Env) (name : String) (p code : List ℕ) (ps : List String) (w0 : World) where
  -- What a login that returns a verdict promises.
  abbrev Outcome : Result Error Verdict → World → Type 0
  Outcome = OnOk (λ v _.
      (u : User) → v ≡ (some u, true) → Passed env w0 u name ps (login_candidates env p code))

  known : User → M Verdict
  known u = do
    banned ← fail_locked env u.id
    if banned then fail locked else try_candidates env u name p ps (login_candidates env p code)

  known-Outcome :
      (n : ℕ) (u : User)
      → find (user_named name) w0.users ≡ some u
      → Triple (Begin n w0) (known u) Outcome
  unfolding known
  known-Outcome n u stored =
      bind_rule (fail_locked env u.id)
        (λ banned.
          if banned
          then fail locked
          else try_candidates env u name p ps (login_candidates env p code))
        (fail_locked-Begin n w0 env u.id)
        (λ b.
          if_rule b _ _ (λ _. record { run = λ w h. tt })
            (λ _. record {
              run = λ w h.
                  on_ok
                    (λ v _.
                      (x : User)
                      → v ≡ (some x, true)
                      → Passed env w0 x name ps (login_candidates env p code))
                    _ _
                    (λ v e x ex. promised u v x ex (
                      ok_on (λ v' _. Promise env w0 u name ps (login_candidates env p code) v') _ e
                        ((try-Post n env w0 u name p ps stored _ _ (λ c m. m)).run w h)));
            }))
        (λ e w h. tt)
    where
      promised :
          (u : User) (v : Verdict) (x : User)
          → v ≡ (some x, true)
          → Promise env w0 u name ps (login_candidates env p code) v
          → Passed env w0 x name ps (login_candidates env p code)
      promised u (some y, true) x ex h =
          subst (λ z. Passed env w0 z name ps (login_candidates env p code)) (cc (ex, h.0)) h.1
      promised u (some y, false) x ex h = absurd (cc ex)
      promised u (none, b) x ex h = absurd (cc ex)

  unknown : M Verdict
  unknown = do burn_dummy_verify; audit env name login_fail "no_user" "" false; return (none, false)

  unknown-Outcome : (n : ℕ) → Triple (Begin n w0) unknown Outcome
  unfolding unknown burn_dummy_verify audit
  unknown-Outcome n = record { run = λ w h u ex. absurd (cc ex) }

  login-Outcome :
      (n : ℕ) → Triple (Begin n w0) (verify_password_and_code env name p code ps) Outcome
  unfolding verify_password_and_code known unknown
  login-Outcome n =
      attempt_rule (user_by_username name)
        (λ r. elim r [ err not_found ↦ unknown | err e ↦ fail e | ok u ↦ known u ])
        (user_by_username-Begin n w0 name)
        (λ u. record { run = λ w h. (known-Outcome n u h.0).run w h.1 })
        (elim [
          | not_found ↦ record { run = λ w h. (unknown-Outcome n).run w h.1 }
          | _ ↦ record { run = λ w h. tt }
        ])

locked_frame :
    (env : Env) (name : String) (u : User) (w : World)
    → let w' = (fail_locked env u.id (user_by_username name w).1).1 in
      (w'.argon2_runs ≡ w.argon2_runs)
      × (w'.challenges ≡ w.challenges)
      × (w'.backups ≡ w.backups)
      × (w'.totps ≡ w.totps)
      × (w'.audit_log ≡ w.audit_log)
unfolding fail_locked user_by_username user_by_id
locked_frame env name u w = (ground arith, ground arith, ground arith, ground arith, ground arith)

-- Nobody gets in without both factors. Where `VerifyPasswordAndCode` returns a user and true, one
-- candidate (the password and code given, or a split of the password) has both: its password part is
-- the password of the stored, enabled user of that name; and its code part is, in the tables that the
-- login begins with, an open backup code of the returned user, who is stored under the name, or the
-- code of a TOTP counter within the window and beyond the replay mark, or a live delivered code with
-- one of the purposes asked for.
pub login_has_both_factors :
    (env : Env) (name : String) (p code : List ℕ) (ps : List String) (w : World) (u : User)
    → (verify_password_and_code env name p code ps w).0 ≡ ok (some u, true)
    → Passed env w u name ps (login_candidates env p code)
login_has_both_factors env name p code ps w u e =
    ok_on
      (λ v _.
        (x : User) → v ≡ (some x, true) → Passed env w x name ps (login_candidates env p code))
      _ e ((login-Outcome env name p code ps w w.argon2_runs).run w (begin_here w)) u refl

-- A user who is locked out gets no check at all: the login fails with ErrLocked, and no password is
-- hashed, no code, secret, challenge or backup code is touched, and nothing is written to the audit
-- log, whatever the password and the code.
login_locked :
    (env : Env) (name : String) (p code : List ℕ) (ps : List String) (w : World) (u : User)
    → (user_by_username name w).0 ≡ ok u
    → (fail_locked env u.id (user_by_username name w).1).0 ≡ ok true
    → ((verify_password_and_code env name p code ps w).0 ≡ err locked)
      × (let w' = (verify_password_and_code env name p code ps w).1 in
          (w'.argon2_runs ≡ w.argon2_runs)
          × (w'.challenges ≡ w.challenges)
          × (w'.backups ≡ w.backups)
          × (w'.totps ≡ w.totps)
          × (w'.audit_log ≡ w.audit_log))
unfolding verify_password_and_code
login_locked env name p code ps w u found banned =
    ground (arith, found, banned, locked_frame env name u w)
