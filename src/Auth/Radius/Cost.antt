-- ===== src/Auth/Radius/Cost.antt =====
-- core.go, `RADIUSAuth`: what follows the check of the password runs no argon2.
use ligament_2fa.Prelude.{
  ℕ, suc, ◌+◌, ◌-◌, ◌≡◌, refl, ◌∙◌, Bool, true, false, List, [], ◌∷◌, arith, ltb, leb,
  if◌then◌else◌, ok, err, String,
}
use ligament_2fa.Auth.Audit.{audit}
use ligament_2fa.Auth.Config.{Env}
use ligament_2fa.Auth.Login.Cost.{Once}
use ligament_2fa.Auth.Radius.{
  Answer, Tick, cancelled, polls, answer, answer_bad_credentials, hold, poll, Polled, gone,
  accepted, refused, waiting, polled_row, on_polled, timeout, advance, PushEnv, push_gate,
  live_pending_push, deliver, delete_challenge,
}
use ligament_2fa.Store.Challenges.{
  challenge_create, challenge_get, challenge_mark_used, challenge_decr_attempt, challenge_set_push,
  last_push_at, push_count_since,
}
use ligament_2fa.Store.Challenges.Claims.{
  StoreOp, creates, marks_used, decrements, sets_push, passes, faults_with, apply_op, run_ops,
}
use ligament_2fa.Store.State.{World, User, Challenge, M}
use ligament_2fa.Store.Triple.{Keeps, if_rule, Keeps-attempt}

op_runs : (o : StoreOp) (w : World) → (apply_op o w).argon2_runs ≡ w.argon2_runs
unfolding apply_op challenge_create challenge_mark_used challenge_decr_attempt challenge_set_push
op_runs (creates c) w = ground arith
op_runs (marks_used i) w = ground arith
op_runs (decrements i) w = ground arith
op_runs (sets_push i p) w = ground arith
op_runs (passes n) w = refl
op_runs (faults_with fs) w = refl

run_runs : (os : List StoreOp) (w : World) → (run_ops os w).argon2_runs ≡ w.argon2_runs
unfolding run_ops
run_runs [] w = refl
run_runs (o ∷ os) w = run_runs os (apply_op o w) ∙ op_runs o w

module _ (n : ℕ) (env : Env) (username src_ip : String) where
  pub answer-Once :
      (reason : String) (accept : Bool) → Keeps (Once n) (answer env username src_ip reason accept)
  unfolding answer audit
  answer-Once reason accept = record { run = λ w h. ground (arith, h) }

  pub bad-Once : Keeps (Once n) (answer_bad_credentials env username src_ip)
  unfolding answer_bad_credentials audit
  bad-Once = record { run = λ w h. ground (arith, h) }

  pub deliver-Once :
      (push : PushEnv) (i : ℕ) (app tg : Bool) → Keeps (Once n) (deliver env push username i app tg)
  unfolding deliver audit delete_challenge
  deliver-Once push i true true = record { run = λ w h. ground (arith, h) }
  deliver-Once push i true false = record { run = λ w h. ground (arith, h) }
  deliver-Once push i false true = record { run = λ w h. ground (arith, h) }
  deliver-Once push i false false = record { run = λ w h. ground (arith, h) }

  pub create-Once : (c : Challenge) → Keeps (Once n) (challenge_create c)
  unfolding challenge_create
  create-Once c = record { run = λ w h. ground (arith, h) }

  live-Once : (u : ℕ) → Keeps (Once n) (live_pending_push u)
  unfolding live_pending_push challenge_get
  live-Once u = record { run = λ w h. ground (arith, h) }

  last-Once : (u : ℕ) → Keeps (Once n) (last_push_at u)
  unfolding last_push_at
  last-Once u = record { run = λ w h. ground (arith, h) }

  count-Once : (u t : ℕ) → Keeps (Once n) (push_count_since u t)
  unfolding push_count_since
  count-Once u t = record { run = λ w h. ground (arith, h) }

  pub gate-Once : (u : User) → Keeps (Once n) (push_gate env u)
  unfolding push_gate
  gate-Once u = record {
    run = λ w h.
        let v = (last_push_at u.id w).1 in
        let l = (last-Once u.id).run w h in
        ground (arith, l, (live-Once u.id).run v l, (count-Once u.id (w.now - 3600)).run v l);
  }

  module _ (i deadline : ℕ) where
    on_polled-Once :
        (p : Polled) (next : M Answer)
        → Keeps (Once n) next
        → Keeps (Once n) (on_polled env username src_ip i deadline p next)
    unfolding challenge_mark_used answer audit
    on_polled-Once gone next k = answer-Once "push_timeout" false
    on_polled-Once accepted next k = record { run = λ w h. ground (arith, h) }
    on_polled-Once refused next k = answer-Once "push_denied" false
    on_polled-Once waiting next k = k

    get-Once : Keeps (Once n) (challenge_get i)
    unfolding challenge_get
    get-Once = record { run = λ w h. ground (arith, h) }

    poll-Once :
        (fails : ℕ) (again next : M Answer)
        → Keeps (Once n) again
        → Keeps (Once n) next
        → Keeps (Once n) (poll env username src_ip i deadline fails again next)
    unfolding poll
    poll-Once fails again next a k = record {
      run = λ w h.
          (if_rule (ltb deadline w.now) (timeout env username src_ip i deadline) _
              (λ _. answer-Once "push_timeout" false)
              (λ _.
                Keeps-attempt (challenge_get i)
                  (λ read. elim read as (λ x. M Answer) [
                    | err _ ↦
                        (if leb 3 (suc fails)
                          then timeout env username src_ip i deadline
                          else again)
                    | ok c ↦ on_polled env username src_ip i deadline (polled_row w.now c) next
                  ])
                  get-Once
                  (elim [
                    | err _ ↦
                        if_rule (leb 3 (suc fails)) _ _ (λ _. answer-Once "push_timeout" false)
                          (λ _. a)
                    | ok c ↦ on_polled-Once (polled_row w.now c) next k
                  ]))).run
            w h;
    }

    pub hold-Once :
        (fails : ℕ) (ticks : List Tick)
        → Keeps (Once n) (hold env username src_ip i deadline fails ticks)
    unfolding hold
    hold-Once fails [] = record { run = λ w h. h }
    hold-Once fails (cancelled ∷ rest) = answer-Once "push_timeout" false
    hold-Once fails (polls m ops ∷ rest) = record {
      run = λ w h.
          (poll-Once fails (hold env username src_ip i deadline (suc fails) rest)
              (hold env username src_ip i deadline 0 rest) (hold-Once (suc fails) rest)
              (hold-Once 0 rest)).run
            (advance env username src_ip i deadline m ops w)
            (omega (arith, h, run_runs ops (record w { now = w.now + suc m })));
    }
