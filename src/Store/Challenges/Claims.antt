-- ===== src/Store/Challenges/Claims.antt =====
-- challenges.go, `ChallengeMarkUsed`: a challenge is claimed at most once, whatever happens between.
use ligament_2fa.Prelude.{
  ℕ, ◌+◌, ◌≡◌, refl, ◌≢◌, Bool, false, not, some, List, [], ◌∷◌, arith, ltb, ◌==◌, All, ok, any,
  select, update_where,
}
use ligament_2fa.Store.Challenges.{
  has_id, claimable, set_used, decrement, challenge_create, challenge_mark_used,
  challenge_decr_attempt, challenge_set_push,
}
use ligament_2fa.Store.State.{Challenge, World, PushState}

-- No unused row has the id.
abbrev pub IsClaimed : ℕ → List Challenge → Type 0
IsClaimed i cs = any (claimable i) cs ≡ false

pub IsClaimed-update :
    (i t : ℕ) (cs : List Challenge) → IsClaimed i (update_where (claimable i) (set_used t) cs)
IsClaimed-update i t [] = refl
IsClaimed-update i t (c ∷ cs) = ground (arith, IsClaimed-update i t cs)

-- A statement on the table, as the program or another process may issue it; time passes, and the
-- database may begin to fail or recover.
pub data StoreOp : Type 0 where
  creates : Challenge → StoreOp
  marks_used : ℕ → StoreOp
  decrements : ℕ → StoreOp
  sets_push : ℕ → PushState → StoreOp
  passes : ℕ → StoreOp
  faults_with : List Bool → StoreOp

unfoldable pub apply_op : StoreOp → World → World
apply_op (creates c) w = (challenge_create c w).1
apply_op (marks_used i) w = (challenge_mark_used i w).1
apply_op (decrements i) w = (challenge_decr_attempt i w).1
apply_op (sets_push i p) w = (challenge_set_push i p w).1
apply_op (passes n) w = record w { now = w.now + n }
apply_op (faults_with fs) w = record w { faults = fs }

unfoldable pub run_ops : List StoreOp → World → World
run_ops [] w = w
run_ops (o ∷ os) w = run_ops os (apply_op o w)

-- Ids of new challenges are fresh.
abbrev pub IsFresh : ℕ → StoreOp → Type 0
IsFresh i (creates c) = (c.id == i) ≡ false
IsFresh i _ = Unit

select-IsClaimed :
    (i t : ℕ) (cs : List Challenge)
    → IsClaimed i cs
    → IsClaimed i (select (λ d. not (ltb d.expires_at t)) cs)
select-IsClaimed i t [] h = refl
select-IsClaimed i t (c ∷ cs) h = ground (arith, select-IsClaimed i t cs)

mark-IsClaimed :
    (i j t : ℕ) (cs : List Challenge)
    → IsClaimed i cs
    → IsClaimed i (update_where (claimable j) (set_used t) cs)
mark-IsClaimed i j t [] h = refl
mark-IsClaimed i j t (c ∷ cs) h = ground (arith, mark-IsClaimed i j t cs)

decrement-IsClaimed :
    (i j : ℕ) (cs : List Challenge)
    → IsClaimed i cs
    → IsClaimed i (update_where (has_id j) decrement cs)
decrement-IsClaimed i j [] h = refl
decrement-IsClaimed i j (c ∷ cs) h = ground (arith, decrement-IsClaimed i j cs)

push-IsClaimed :
    (i j : ℕ) (p : PushState) (cs : List Challenge)
    → IsClaimed i cs
    → IsClaimed i (update_where (has_id j) (λ c. record c { push_state = some p }) cs)
push-IsClaimed i j p [] h = refl
push-IsClaimed i j p (c ∷ cs) h = ground (arith, push-IsClaimed i j p cs)

pub apply_op-IsClaimed :
    (i : ℕ) (o : StoreOp) (w : World)
    → IsFresh i o
    → IsClaimed i w.challenges
    → IsClaimed i (apply_op o w).challenges
unfolding apply_op challenge_create challenge_mark_used challenge_decr_attempt challenge_set_push
apply_op-IsClaimed i (creates c) w f h = ground (arith, select-IsClaimed i w.now w.challenges h)
apply_op-IsClaimed i (marks_used j) w f h = ground (arith, mark-IsClaimed i j w.now w.challenges h)
apply_op-IsClaimed i (decrements j) w f h = ground (arith, decrement-IsClaimed i j w.challenges h)
apply_op-IsClaimed i (sets_push j p) w f h = ground (arith, push-IsClaimed i j p w.challenges h)
apply_op-IsClaimed i (passes n) w f h = h
apply_op-IsClaimed i (faults_with fs) w f h = h

pub run_ops-IsClaimed :
    (i : ℕ) (os : List StoreOp) (w : World)
    → All (IsFresh i) os
    → IsClaimed i w.challenges
    → IsClaimed i (run_ops os w).challenges
unfolding run_ops
run_ops-IsClaimed i [] w f h = h
run_ops-IsClaimed i (o ∷ os) w f h =
    run_ops-IsClaimed i os (apply_op o w) f.1 (apply_op-IsClaimed i o w f.0 h)

-- A successful claim leaves no unused row of the id.
pub mark_used_claims :
    (i : ℕ) (w : World)
    → (challenge_mark_used i w).0 ≡ ok tt
    → IsClaimed i (challenge_mark_used i w).1.challenges
unfolding challenge_mark_used
mark_used_claims i w h = ground (arith, IsClaimed-update i w.now w.challenges)

pub claimed_refuses :
    (i : ℕ) (w : World) → IsClaimed i w.challenges → (challenge_mark_used i w).0 ≢ ok tt
unfolding challenge_mark_used
claimed_refuses i w h = ground arith

-- A challenge can be claimed only once: after a successful `ChallengeMarkUsed`, a second one of the
-- same id fails after any sequence of statements (claims, attempts, push answers, new challenges
-- with fresh ids), however much time passes and whichever queries the database fails.
pub claim_once :
    (i : ℕ) (w : World) (os : List StoreOp)
    → (challenge_mark_used i w).0 ≡ ok tt
    → All (IsFresh i) os
    → (challenge_mark_used i (run_ops os (challenge_mark_used i w).1)).0 ≢ ok tt
claim_once i w os h f = claimed_refuses i _ (run_ops-IsClaimed i os _ f (mark_used_claims i w h))
