-- ===== src/Auth/Radius/Hold.antt =====
-- core.go, `RADIUSAuth`: the held request ends, and accepts only what the user approved.
use ligament_2fa.Prelude.{
  ℕ, suc, ◌+◌, ◌≤◌, ◌<◌, ◌≡◌, refl, sym, ap, subst, Bool, true, false, none, some, List, [], ◌∷◌,
  arith, ltb, leb, if◌then◌else◌, length, Result, ok, err, find, String, Among,
}
use ligament_2fa.Auth.Audit.{audit}
use ligament_2fa.Auth.Config.{Env}
use ligament_2fa.Auth.Radius.{
  approved, Answer, Tick, cancelled, polls, answer, hold, poll, Polled, gone, accepted, refused,
  waiting, polled_row, on_polled, timeout, advance,
}
use ligament_2fa.Store.Challenges.{
  challenge_create, challenge_get, challenge_mark_used, challenge_decr_attempt, challenge_set_push,
  has_id,
}
use ligament_2fa.Store.Challenges.Claims.{
  StoreOp, creates, marks_used, decrements, sets_push, passes, faults_with, apply_op, run_ops,
}
use ligament_2fa.Store.State.{World, Challenge, Error, M}

op_time : (o : StoreOp) (w : World) → w.now ≤ (apply_op o w).now
unfolding apply_op challenge_create challenge_mark_used challenge_decr_attempt challenge_set_push
op_time (creates c) w = ground arith
op_time (marks_used i) w = ground arith
op_time (decrements i) w = ground arith
op_time (sets_push i p) w = ground arith
op_time (passes n) w = omega arith
op_time (faults_with fs) w = omega arith

run_time : (os : List StoreOp) (w : World) → w.now ≤ (run_ops os w).now
unfolding run_ops
run_time [] w = omega arith
run_time (o ∷ os) w = omega (arith, op_time o w, run_time os (apply_op o w))

-- The request has been accepted or rejected.
abbrev pub is_answered : Result Error Answer → Bool
is_answered (ok (some _)) = true
is_answered _ = false

-- What a read of the challenge leaves: only the queue of faults moves, and a row that it finds is
-- the challenge's.
pub record Read (i : ℕ) (w : World) (r : Result Error Challenge × World) : Type 0 where
  pub faults : List Bool
  pub state : r.1 ≡ record w { faults = faults }
  pub row : (c : Challenge) → r.0 ≡ ok c → Among c w.challenges × (has_id i c ≡ true)

find-Among :
    (test : Challenge → Bool) (cs : List Challenge) (c : Challenge)
    → find test cs ≡ some c
    → Among c cs × (test c ≡ true)
find-Among test [] c h = absurd (cc h)
find-Among test (d ∷ ds) c h = ground (arith, h, find-Among test ds c)

pub challenge_get-Read : (i : ℕ) (w : World) → Read i w (challenge_get i w)
unfolding challenge_get
challenge_get-Read i w = record {
  faults = (challenge_get i w).1.faults;
  state = ground arith;
  row = λ c h. ground (arith, h, find-Among (has_id i) w.challenges c);
}

-- Time passes, and other requests act.
abbrev pub passing : ℕ → List StoreOp → World → World
passing n ops w = run_ops ops (record w { now = w.now + suc n })

-- The user has approved the challenge, and it is unused, unexpired and not past the deadline.
pub record Approved (i deadline : ℕ) (w : World) : Type 0 where
  pub row : Challenge
  pub stored : Among row w.challenges
  pub named : has_id i row ≡ true
  pub push : row.push_state ≡ some approved
  pub unused : row.used_at ≡ none
  pub live : w.now < row.expires_at
  pub in_time : w.now ≤ deadline

-- One of the ticks of the hold, before the deadline, finds the challenge approved: what the ticks hold (the
-- time that passes and other requests' statements), in their order and the reads of the polls between
-- them, leads from the state in which the hold begins to that approval.
pub data Reached (i deadline : ℕ) : List Tick → World → Type 0 where
  found_now :
      {n : ℕ} {ops : List StoreOp} {rest : List Tick} {w : World}
      → Approved i deadline (passing n ops w)
      → Reached i deadline (polls n ops ∷ rest) w
  found_later :
      {n : ℕ} {ops : List StoreOp} {rest : List Tick} {w : World}
      → Reached i deadline rest (challenge_get i (passing n ops w)).1
      → Reached i deadline (polls n ops ∷ rest) w

approval_of :
    (i deadline : ℕ) (c : Challenge) (w : World)
    → w.now ≤ deadline
    → Among c w.challenges × (has_id i c ≡ true)
    → polled_row w.now c ≡ accepted
    → Approved i deadline w
approval_of i deadline c w t m e = record {
  row = c;
  stored = m.0;
  named = m.1;
  push = ground (arith, e);
  unused = ground (arith, e);
  live = ground (arith, e);
  in_time = t;
}

module _ (env : Env) (username src_ip : String) (i deadline : ℕ) where
  -- The rule of one poll, for what the answer is to satisfy.
  module _ (Q : Result Error Answer → Type 0) (fails : ℕ) (again next : M Answer) (w : World)
      (at_timeout : Q (ok (some (false, "push_timeout"))))
      (at_denied : Q (ok (some (false, "push_denied"))))
      (at_accepted : w.now ≤ deadline
        → (c : Challenge) → Among c w.challenges × (has_id i c ≡ true)
        → polled_row w.now c ≡ accepted
        → Q (ok (some (true, "push_ok"))))
      (at_again : w.now ≤ deadline → Q (again (challenge_get i w).1).0)
      (at_next : w.now ≤ deadline → Q (next (challenge_get i w).1).0) where
    by_row :
        (c : Challenge) (p : Polled) (v : World)
        → w.now ≤ deadline
        → polled_row w.now c ≡ p
        → Among c w.challenges × (has_id i c ≡ true)
        → v ≡ (challenge_get i w).1
        → Q (on_polled env username src_ip i deadline p next v).0
    unfolding answer audit
    by_row c gone v t e m h = at_timeout
    by_row c accepted v t e m h = at_accepted t c m e
    by_row c refused v t e m h = at_denied
    by_row c waiting v t e m h = subst (λ u. Q (next u).0) (sym h) (at_next t)

    read_on : Result Error Challenge × World → Result Error Answer × World
    read_on r =
        elim r.0 as (λ x. M Answer) [
          | err _ ↦ (if leb 3 (suc fails) then timeout env username src_ip i deadline else again)
          | ok c ↦ on_polled env username src_ip i deadline (polled_row w.now c) next
        ]
          r.1

    by_count :
        (b : Bool) (v : World)
        → w.now ≤ deadline
        → v ≡ (challenge_get i w).1
        → Q ((if b then timeout env username src_ip i deadline else again) v).0
    unfolding answer audit
    by_count true v t h = at_timeout
    by_count false v t h = subst (λ u. Q (again u).0) (sym h) (at_again t)

    by-Read :
        (r : Result Error Challenge × World)
        → w.now ≤ deadline
        → Read i w r
        → r.1 ≡ (challenge_get i w).1
        → Q (read_on r).0
    unfolding read_on
    by-Read (ok c, v) t r h = by_row c (polled_row w.now c) v t refl (r.row c refl) h
    by-Read (err e, v) t r h = by_count (leb 3 (suc fails)) v t h

    by_deadline :
        (b : Bool)
        → (b ≡ false → w.now ≤ deadline)
        → Q
            ((if b
                then timeout env username src_ip i deadline
                else (λ v. read_on (challenge_get i v)))
              w).0
    unfolding answer audit
    by_deadline true t = at_timeout
    by_deadline false t = by-Read (challenge_get i w) (t refl) (challenge_get-Read i w) refl

    poll_rule : Q (poll env username src_ip i deadline fails again next w).0
    unfolding poll read_on
    poll_rule = by_deadline (ltb deadline w.now) (λ h. ground (arith, h))

  -- A held request ends. Each tick is at least a second: given ticks, and more of them than there are
  -- seconds up to the deadline, the request is accepted or rejected, whatever the other requests do
  -- and whichever reads of the database fail.
  pub hold_answers :
      (fails : ℕ) (ticks : List Tick) (w : World)
      → 1 ≤ length ticks
      → deadline < w.now + length ticks
      → is_answered (hold env username src_ip i deadline fails ticks w).0 ≡ true
  unfolding hold answer audit
  hold_answers fails [] w h d = absurd (omega arith)
  hold_answers fails (cancelled ∷ rest) w h d = refl
  hold_answers fails (polls n ops ∷ rest) w h d =
      poll_rule (λ r. is_answered r ≡ true) fails
        (hold env username src_ip i deadline (suc fails) rest)
        (hold env username src_ip i deadline 0 rest)
        (advance env username src_ip i deadline n ops w) refl refl (λ t c m e. refl)
        (λ t. hold_answers (suc fails) rest _ (enough t) (left t))
        (λ t. hold_answers 0 rest _ (enough t) (left t))
    where
      read_time :
          (challenge_get i (advance env username src_ip i deadline n ops w)).1.now
          ≡ (advance env username src_ip i deadline n ops w).now
      read_time = ap (λ v. v.now) (challenge_get-Read i _).state

      left :
          (advance env username src_ip i deadline n ops w).now ≤ deadline
          → deadline
            < (challenge_get i (advance env username src_ip i deadline n ops w)).1.now + length rest
      left t = omega (arith, read_time, run_time ops (record w { now = w.now + suc n }))

      enough : (advance env username src_ip i deadline n ops w).now ≤ deadline → 1 ≤ length rest
      enough t = omega (arith, run_time ops (record w { now = w.now + suc n }))

  -- A held request is accepted only on an approval: where it is accepted, one of its own ticks, not past
  -- the deadline, finds the challenge stored, approved, unused and unexpired, in the very state that
  -- the time and the statements of the ticks up to it make of the state in which the hold begins.
  pub hold-Reached :
      (fails : ℕ) (ticks : List Tick) (w : World) (reason : String)
      → (hold env username src_ip i deadline fails ticks w).0 ≡ ok (some (true, reason))
      → Reached i deadline ticks w
  unfolding hold answer audit
  hold-Reached fails [] w reason e = absurd (cc e)
  hold-Reached fails (cancelled ∷ rest) w reason e = absurd (cc e)
  hold-Reached fails (polls n ops ∷ rest) w reason e =
      poll_rule (λ r. r ≡ ok (some (true, reason)) → Reached i deadline (polls n ops ∷ rest) w)
        fails (hold env username src_ip i deadline (suc fails) rest)
        (hold env username src_ip i deadline 0 rest) v (λ e. absurd (cc e)) (λ e. absurd (cc e))
        (λ t c m p e. found_now (approval_of i deadline c v t m p))
        (λ t e. found_later (hold-Reached (suc fails) rest (challenge_get i v).1 reason e))
        (λ t e. found_later (hold-Reached 0 rest (challenge_get i v).1 reason e)) e
    where
      v : World
      v = passing n ops w
