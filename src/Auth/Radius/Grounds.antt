-- ===== src/Auth/Radius/Grounds.antt =====
-- core.go, `RADIUSAuth`: what each part of it may grant, and at what cost, from the codes on.

use ligament_2fa.Prelude.{
  ℕ, ◌+◌, ◌≡◌, refl, subst, inl, inr, Bool, true, false, not, ◌&&◌, some, List, [], ◌∷◌, arith,
  if◌then◌else◌, Result, ok, err, find, String, Among,
}
use ligament_2fa.Auth.Audit.{audit, user_by_username, user_named}
use ligament_2fa.Auth.Codes.{verify_any_code, login_code_purposes}
use ligament_2fa.Auth.Codes.Factor.{Begin, Checked, verify_any_code-Checked}
use ligament_2fa.Auth.Codes.Frames.{Still}
use ligament_2fa.Auth.Config.{Env}
use ligament_2fa.Auth.Login.{local_verify, verify_password, burn_dummy_verify}
use ligament_2fa.Auth.Login.Cost.{Once, local_verify-Once}
use ligament_2fa.Auth.Login.Soundness.{Password, Accepted, local_verify-Password}
use ligament_2fa.Auth.Radius.{
  Answer, Tick, PushEnv, Gate, refuse, resume, fresh, answer, answer_bad_credentials, hold_for,
  push_gate, deliver, push_challenge, send_new, radius_push_mode, radius_whole, radius_candidates,
}
use ligament_2fa.Auth.Radius.Cost.{
  answer-Once, bad-Once, deliver-Once, create-Once, gate-Once, hold-Once,
}
use ligament_2fa.Auth.Radius.Hold.{Reached, hold-Reached}
use ligament_2fa.Auth.Radius.Pending.{
  Kept, Pending, Held, resumed, sent, Gated, gate-Gated, Sent, create_lem, deliver-Sent,
}
use ligament_2fa.Auth.Split.{Split, split_candidates}
use ligament_2fa.Store.Challenges.{challenge_create}
use ligament_2fa.Store.State.{is_none, World, User, Challenge, Error, M, ◌>>=◌, attempt}
use ligament_2fa.Store.Triple.{Triple, Keeps, OnOk, bind_rule, attempt_rule, if_rule}

-- Why a request that begins in `w0` may be accepted: a code glued to the password, or the password and a
-- push, resumed or new, that a tick of the hold finds approved within the wait.
pub data Grounds (env : Env) (push : PushEnv) (ticks : List Tick) (w0 : World) (username : String)
    (pap : List ℕ) : Type 0 where
  by_code :
      (u : User) (c : Split)
      → Among c (split_candidates pap env.settings.code_lengths)
      → Password env w0.users username c.password
      → Accepted env w0 username u c.code login_code_purposes
      → Grounds env push ticks w0 username pap
  by_push :
      (u : User) (i : ℕ) (begun : World)
      → find (user_named username) w0.users ≡ some u
      → Password env w0.users username pap
      → Held env push w0 u i begun
      → begun.now ≡ w0.now
      → Reached i (w0.now + env.settings.push_wait) ticks begun
      → Grounds env push ticks w0 username pap

module _ (n : ℕ) (env : Env) (push : PushEnv) (username src_ip : String) (ticks : List Tick)
    (w0 : World) (pap : List ℕ) where
  abbrev pub Granted : Result Error Answer → Type 0
  Granted r =
      (reason : String) → r ≡ ok (some (true, reason)) → Grounds env push ticks w0 username pap

  abbrev pub Post : Result Error Answer → World → Type 0
  Post r w = Once n w × Granted r

  -- After the check of the password: at most its one run, and the challenges as they were.
  abbrev Ready : World → Type 0
  Ready w = Once n w × Kept w0 w

  pub refused : (reason : String) → Triple (Once n) (answer env username src_ip reason false) Post
  unfolding answer audit
  refused reason = record {
    run = λ w h. ((answer-Once n env username src_ip reason false).run w h, λ r e. absurd (cc e));
  }

  bad : Triple (Once n) (answer_bad_credentials env username src_ip) Post
  unfolding answer_bad_credentials audit
  bad = record { run = λ w h. ((bad-Once n env username src_ip).run w h, λ r e. absurd (cc e)) }

  module _ (u : User) (stored : find (user_named username) w0.users ≡ some u)
      (p : Password env w0.users username pap) where
    held :
        (i : ℕ) (w : World)
        → Once n w
        → Held env push w0 u i w
        → w.now ≡ w0.now
        → let r = hold_for env push username src_ip ticks i w in Post r.0 r.1
    held i w h b t = (
      (hold-Once n env username src_ip i _ 0 ticks).run w h,
      λ r e. by_push u i w stored p b t (
          subst (λ d. Reached i (d + env.settings.push_wait) ticks w) t
            (hold-Reached env username src_ip i _ 0 ticks w r e)),
    )

    resumed_hold :
        (i : ℕ) (w : World)
        → Ready w
        → Pending u.id i w0
        → let r = hold_for env push username src_ip ticks i w in Post r.0 r.1
    resumed_hold i w h b = held i w h.0 (resumed b h.1.table) h.1.clock

    on_taken : (c : Challenge) → Bool → M Answer
    on_taken c taken =
        if taken
        then hold_for env push username src_ip ticks c.id
        else answer env username src_ip "push_send_fail" false

    on_made : Bool → Bool → Result Error Challenge → M Answer
    on_made app tg made = elim made [
      | err _ ↦ answer env username src_ip "push_send_fail" false
      | ok c ↦ (do taken ← deliver env push username c.id app tg; on_taken c taken)
    ]

    -- What a new push leaves.
    Made : Bool → Result Error Challenge → World → Type 0
    Made app r w =
        Once n w × ((c : Challenge) → r ≡ ok c → (c.id ≡ push.new_id) × Sent w0 env push u app w)

    Made-new :
        (app : Bool) (w : World)
        → Ready w
        → let r = challenge_create (push_challenge env push u app w.now) w in Made app r.0 r.1
    unfolding Made
    Made-new app w h = (
      (create-Once n env username src_ip (push_challenge env push u app w.now)).run w h.0,
      λ c e. create_lem w0 env push u app w c h.1 e,
    )

    delivered-Post :
        (app shown tg : Bool) (c : Challenge)
        → Triple
            (λ w. Once n w × ((c.id ≡ push.new_id) × Sent w0 env push u shown w))
            (deliver env push username c.id app tg >>= on_taken c)
            Post
    unfolding on_taken
    delivered-Post app shown tg c =
        bind_rule {R = taken_state} (deliver env push username c.id app tg) (on_taken c)
          (record {
            run = λ w h. (
              (deliver-Once n env username src_ip push c.id app tg).run w h.0,
              λ e. (h.1.0, deliver-Sent w0 env push u shown username c.id app tg w h.1.1 e),
            );
          })
          (elim [
            | true ↦ record {
              run = λ w h. let s = h.1 refl in held c.id w h.0 (sent shown s.0 s.1.table) s.1.clock;
            }
            | false ↦ record { run = λ w h. (refused "push_send_fail").run w h.0 }
          ])
          (λ e w h. (h.0, λ r x. absurd (cc x)))
      where
        taken_state : Result Error Bool → World → Type 0
        taken_state r w =
            Once n w × (r ≡ ok true → (c.id ≡ push.new_id) × Sent w0 env push u shown w)

    sent_new :
        (app tg : Bool) → Triple Ready (send_new env push username src_ip ticks u app tg) Post
    unfolding on_made on_taken Made
    sent_new app tg = record {
      run = λ w h.
          (attempt_rule {P = λ v. v ≡ w} {R = Made app} {Q = Post}
              (challenge_create (push_challenge env push u app w.now)) (on_made app tg)
              (record { run = λ v q. rw q (Made-new app w h) })
              (λ c. record { run = λ v m. (delivered-Post app app tg c).run v (m.0, m.1 c refl) })
              (λ e. record { run = λ v m. (refused "push_send_fail").run v m.0 })).run
            w refl;
    }

    PassedGate : Result Error Gate → World → Type 0
    PassedGate r w = Once n w × Gated w0 u.id r w

    on_gate : Bool → Bool → Gate → M Answer
    on_gate app tg gate = elim gate [
      | refuse reason ↦ answer env username src_ip reason false
      | resume c ↦ hold_for env push username src_ip ticks c.id
      | fresh ↦ send_new env push username src_ip ticks u app tg
    ]

    gated :
        (app tg : Bool)
        → Triple Ready
            (if not app && not tg
              then answer env username src_ip "bad_credentials" false
              else (do gate ← push_gate env u; on_gate app tg gate))
            Post
    unfolding on_gate Gated PassedGate
    gated app tg =
        if_rule (not app && not tg) (answer env username src_ip "bad_credentials" false) _
          (λ _. record { run = λ w h. (refused "bad_credentials").run w h.0 })
          (λ _.
            bind_rule {R = PassedGate} (push_gate env u) (on_gate app tg)
              (record {
                run = λ w h. (
                  (gate-Once n env username src_ip u).run w h.0,
                  (gate-Gated w0 env u).run w h.1,
                );
              })
              (elim [
                | refuse reason ↦ record { run = λ w h. (refused reason).run w h.0 }
                | resume c ↦ record { run = λ w h. resumed_hold c.id w (h.0, h.1.0) h.1.1 }
                | fresh ↦ record { run = λ w h. (sent_new app tg).run w h }
              ])
              (λ e w h. (h.0, λ r x. absurd (cc x))))

    push_mode : Triple Ready (radius_push_mode env push username src_ip ticks u) Post
    unfolding radius_push_mode on_gate
    push_mode =
        gated (push.radius_push && push.has_app)
          (push.radius_push && not (is_none u.telegram_chat_id) && push.has_telegram)

  -- The check of a password: its run of argon2, the password where it is right, and no change.
  Tested : List ℕ → Result Error User → World → Type 0
  Tested q (ok u) w = Ready w × Password env w0.users username q
  Tested q (err e) w = Once n w

  local_verify-Kept : (q : List ℕ) → Keeps (Kept w0) (local_verify env username q)
  unfolding local_verify user_by_username verify_password burn_dummy_verify
  local_verify-Kept q = record {
    run = λ w k. record { table = ground (arith, k.table); clock = ground (arith, k.clock) };
  }

  tested :
      (q : List ℕ)
      → Triple (λ w. Still n w0.users w × Kept w0 w) (local_verify env username q) (Tested q)
  unfolding Tested
  tested q = record {
    run = λ w h.
        both _ _ ((local_verify-Once n w0.users env username q).run w h.0)
          ((local_verify-Password n w0.users env username q).run w h.0)
          ((local_verify-Kept q).run w h.1);
  }
    where
      both :
          (r : Result Error User) (w : World)
          → Once n w
          → OnOk (λ u _. Password env w0.users username q) r w
          → Kept w0 w
          → Tested q r w
      both (ok u) w a b k = ((a, k), b)
      both (err e) w a b k = a

  module _ (u : User) (stored : find (user_named username) w0.users ≡ some u) where
    whole : Triple (Begin n w0) (radius_whole env push username src_ip ticks u pap) Post
    unfolding radius_whole Tested
    whole =
        attempt_rule {R = Tested pap} (local_verify env username pap)
          (λ r. elim r as (λ x. M Answer) [
            | err _ ↦ answer_bad_credentials env username src_ip
            | ok _ ↦ radius_push_mode env push username src_ip ticks u
          ])
          (record {
            run = λ w h.
                (tested pap).run w (h.0, record { table = h.1.challenges; clock = h.1.clock });
          })
          (λ x. record { run = λ w h. (push_mode u stored h.1).run w h.0 }) (λ e. bad)

    on_good : Result Error User → M Answer
    on_good good = elim good [
      | ok _ ↦ answer env username src_ip "code_ok" true
      | err _ ↦ answer_bad_credentials env username src_ip
    ]

    -- One argon2 run, for the password part of the split whose code was accepted.
    Part : List ℕ → Result Error User → World → Type 0
    Part q (ok v) w = Once n w × Password env w0.users username q
    Part q (err e) w = Once n w

    part : (q : List ℕ) → Triple (Still n w0.users) (local_verify env username q) (Part q)
    unfolding Part
    part q = record {
      run = λ w h.
          both _ _ ((local_verify-Once n w0.users env username q).run w h)
            ((local_verify-Password n w0.users env username q).run w h);
    }
      where
        both :
            (r : Result Error User) (w : World)
            → Once n w
            → OnOk (λ v _. Password env w0.users username q) r w
            → Part q r w
        both (ok v) w a b = (a, b)
        both (err e) w a b = a

    first_factor :
        (c : Split)
        → Among c (split_candidates pap env.settings.code_lengths)
        → Accepted env w0 username u c.code login_code_purposes
        → Triple
            (Still n w0.users)
            (attempt (local_verify env username c.password) >>= on_good)
            Post
    unfolding Part on_good
    first_factor c m a =
        attempt_rule {R = Part c.password} (local_verify env username c.password) on_good
          (part c.password)
          (λ x. record {
            run = λ w h. (
              (answer-Once n env username src_ip "code_ok" true).run w h.0,
              λ r e. by_code u c m h.1 a,
            );
          })
          (λ e. bad)

    pub candidates :
        (cs : List Split)
        → ((c : Split) → Among c cs → Among c (split_candidates pap env.settings.code_lengths))
        → Triple (Begin n w0) (radius_candidates env push username src_ip ticks u pap cs) Post
    unfolding radius_candidates Checked on_good
    candidates [] sub = whole
    candidates (c ∷ cs) sub =
        attempt_rule {R = Checked n w0 env u c.code login_code_purposes}
          (verify_any_code env u c.code login_code_purposes)
          (λ r. elim r as (λ x. M Answer) [
            | err _ ↦ radius_candidates env push username src_ip ticks u pap cs
            | ok _ ↦ attempt (local_verify env username c.password) >>= on_good
          ])
          (verify_any_code-Checked n w0 env u c.code login_code_purposes)
          (λ ch. record {
            run = λ w h.
                (first_factor c (sub c (inl refl))
                    (record { stored = stored; channel = ch; after = w; factor = h.1 })).run
                  w h.0;
          })
          (λ e. candidates cs (λ d m. sub d (inr m)))
