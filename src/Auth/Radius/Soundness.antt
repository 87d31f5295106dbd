-- ===== src/Auth/Radius/Soundness.antt =====
-- core.go, `RADIUSAuth`: an accepted request had both factors, and no request costs more than one
-- argon2 run.
use ligament_2fa.Prelude.{
  ℕ, ◌+◌, ◌≤◌, ◌≡◌, Bool, true, false, not, some, List, arith, if◌then◌else◌, ok, err, find, String,
}
use ligament_2fa.Auth.Audit.{fail_locked, user_by_username, user_named, audit}
use ligament_2fa.Auth.Codes.Factor.{Begin, begin_here, user_by_username-Begin, fail_locked-Begin}
use ligament_2fa.Auth.Config.{Env}
use ligament_2fa.Auth.Login.{burn_dummy_verify}
use ligament_2fa.Auth.Radius.{
  return, radius_authenticate, radius_locked, Answer, Tick, PushEnv, answer, radius_candidates,
}
use ligament_2fa.Auth.Radius.Grounds.{Grounds, Post, refused, candidates}
use ligament_2fa.Auth.Split.{split_candidates}
use ligament_2fa.Store.State.{radius_auth, radius_fail, World, User, M, ◌>>=◌, ◌>>◌}
use ligament_2fa.Store.Triple.{Keeps, Triple, bind_rule, attempt_rule, if_rule}

module _ (n : ℕ) (env : Env) (push : PushEnv) (username src_ip : String) (ticks : List Tick)
    (w0 : World) (pap : List ℕ) where
  early :
      (reason : String)
      → Triple
          (Begin n w0)
          (answer env username src_ip reason false)
          (Post n env push username src_ip ticks w0 pap)
  early reason = record {
    run = λ w h.
        (refused n env push username src_ip ticks w0 pap reason).run w (omega (arith, h.0.0));
  }

  locked-Begin : (u : User) → Keeps (Begin n w0) (radius_locked env push username src_ip ticks u)
  unfolding radius_locked
  locked-Begin u = record {
    run = λ w h. (
      ground (arith, h.0),
      record {
        challenges = ground (arith, h.1.challenges);
        totps = ground (arith, h.1.totps);
        clock = ground (arith, h.1.clock);
        backups = λ i k o. h.1.backups i k (ground (arith, o));
      },
    );
  }

  nobody : M Answer
  nobody = do
    burn_dummy_verify
    audit env username radius_auth "no_user" src_ip false
    audit env username radius_fail "no_user" src_ip false
    return (some (false, "no_user"))

  nobody-Post : Triple (Begin n w0) nobody (Post n env push username src_ip ticks w0 pap)
  unfolding nobody burn_dummy_verify audit
  nobody-Post = record { run = λ w h. (ground (arith, h.0), λ r e. absurd (cc e)) }

  after_locks : User → Bool → M Answer
  after_locks u banned =
      if banned
      then answer env username src_ip "locked" false
      else radius_candidates env push username src_ip ticks u pap
          (split_candidates pap env.settings.code_lengths)

  somebody : User → M Answer
  somebody u = if not u.enabled then answer env username src_ip "disabled" false else (do
    vpn ← radius_locked env push username src_ip ticks u
    if vpn
        then answer env username src_ip "locked" false
        else (do banned ← fail_locked env u.id; after_locks u banned))

  somebody-Post :
      (u : User)
      → find (user_named username) w0.users ≡ some u
      → Triple (Begin n w0) (somebody u) (Post n env push username src_ip ticks w0 pap)
  unfolding somebody after_locks
  somebody-Post u stored =
      if_rule (not u.enabled) _ _ (λ _. early "disabled")
        (λ _.
          bind_rule (radius_locked env push username src_ip ticks u)
            (λ vpn.
              if vpn
              then answer env username src_ip "locked" false
              else (fail_locked env u.id >>= after_locks u))
            (locked-Begin u)
            (λ v.
              if_rule v _ _ (λ _. early "locked")
                (λ _.
                  bind_rule (fail_locked env u.id) (after_locks u) (fail_locked-Begin n w0 env u.id)
                    (λ b.
                      if_rule b _ _ (λ _. early "locked")
                        (λ _.
                          candidates n env push username src_ip ticks w0 pap u stored _ (λ c m. m)))
                    (λ e w h. (omega (arith, h.0.0), λ r x. absurd (cc x)))))
            (λ e w h. (omega (arith, h.0.0), λ r x. absurd (cc x))))

  authenticate-Post :
      Triple
        (Begin n w0)
        (radius_authenticate env push username src_ip ticks pap)
        (Post n env push username src_ip ticks w0 pap)
  unfolding radius_authenticate nobody somebody after_locks
  authenticate-Post =
      attempt_rule (user_by_username username)
        (λ found. elim found as (λ x. M Answer) [ err _ ↦ nobody | ok u ↦ somebody u ])
        (user_by_username-Begin n w0 username)
        (λ u. record { run = λ w h. (somebody-Post u h.0).run w h.1 })
        (λ e. record { run = λ w h. nobody-Post.run w h.1 })

module _ (env : Env) (push : PushEnv) (username src_ip : String) (ticks : List Tick) (pap : List ℕ)
    (w : World) where
  -- `RADIUSAuth` accepts nothing without both factors. Where it accepts, either one split of the given
  -- password has as its password part the password of the stored, enabled user of that name, and as its
  -- code part a code of that user in the tables that the request begins with: an open backup code, the
  -- code of a TOTP counter within the window and beyond the replay mark, or a live delivered code; or
  -- the given password is the user's, and the request was held for a push, a live one of the user or the
  -- one just sent, that one of its own ticks found approved, unused and unexpired within the wait.
  pub radius_has_both_factors :
      (reason : String)
      → (radius_authenticate env push username src_ip ticks pap w).0 ≡ ok (some (true, reason))
      → Grounds env push ticks w username pap
  radius_has_both_factors reason e =
      ((authenticate-Post w.argon2_runs env push username src_ip ticks w pap).run w
          (begin_here w)).1
        reason e

  -- `RADIUSAuth` itself runs argon2 at most once, whoever asks and however the request goes on. The trust
  -- gate in front of it, which may run it once more, is not part of it.
  pub radius_one_argon2 :
      (radius_authenticate env push username src_ip ticks pap w).1.argon2_runs ≤ w.argon2_runs + 1
  radius_one_argon2 =
      ((authenticate-Post w.argon2_runs env push username src_ip ticks w pap).run w
        (begin_here w)).0
