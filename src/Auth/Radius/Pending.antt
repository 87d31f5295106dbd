-- ===== src/Auth/Radius/Pending.antt =====
-- core.go, `RADIUSAuth`: which challenge a request is held for.
use ligament_2fa.Prelude.{
  ℕ, ◌-◌, ◌≡◌, refl, sym, ap, inl, Bool, true, false, not, Option, none, some, List, [], ◌∷◌, arith,
  ltb, leb, if◌then◌else◌, Result, ok, err, select, String, Among, Among-select, some_injective,
}
use ligament_2fa.Auth.Audit.{audit}
use ligament_2fa.Auth.Codes.Delivered.{Among-newest_first}
use ligament_2fa.Auth.Config.{Env}
use ligament_2fa.Auth.Radius.{
  PushEnv, is_live_push, first, got_push, on_newest, on_list, live_pending_push, Gate, refuse,
  resume, fresh, deliver, delete_challenge, push_gate, push_challenge, in_cooldown,
}
use ligament_2fa.Auth.Radius.Hold.{challenge_get-Read}
use ligament_2fa.Store.Challenges.{
  challenge_create, challenge_get, has_id, newest_first, last_push_at, push_count_since,
}
use ligament_2fa.Store.State.{World, User, Challenge, Error, M, ◌>>=◌, query, attempt, return}
use ligament_2fa.Store.Triple.{Triple, Keeps, attempt_rule, bind_rule, if_rule}

-- Challenges and clock are those of `w0`.
pub record Kept (w0 w : World) : Type 0 where
  pub table : w.challenges ≡ w0.challenges
  pub clock : w.now ≡ w0.now

-- A live push of the user has the id.
pub record Pending (u i : ℕ) (w0 : World) : Type 0 where
  pub row : Challenge
  pub stored : Among row w0.challenges
  pub live : is_live_push u w0.now row ≡ true
  pub named : has_id i row ≡ true

-- The state in which a hold begins: the tables are as before and the challenge is a live push of the
-- user, or the challenge is the new, pending one, the first row of the table.
pub data Held (env : Env) (push : PushEnv) (w0 : World) (u : User) (i : ℕ) (begun : World)
    : Type 0 where
  resumed : Pending u.id i w0 → begun.challenges ≡ w0.challenges → Held env push w0 u i begun
  sent :
      (app : Bool)
      → i ≡ push.new_id
      → begun.challenges
        ≡ push_challenge env push u app w0.now
          ∷ select (λ d. not (ltb d.expires_at w0.now)) w0.challenges
      → Held env push w0 u i begun

first-Among : (c : Challenge) (cs : List Challenge) → first cs ≡ some c → Among c cs
first-Among c [] e = absurd (cc e)
first-Among c (d ∷ ds) e = inl (sym (some_injective e))

got_lem :
    (c d : Challenge) (w : World) → (on_newest (some c) w).0 ≡ ok (some d) → has_id d.id c ≡ true
got_lem c d w e = go _ refl e
  where
    go :
        (r : Result Error Challenge × World)
        → challenge_get c.id w ≡ r
        → (got_push r.0 r.1).0 ≡ ok (some d)
        → has_id d.id c ≡ true
    go (ok x, v) q h =
        let same : x ≡ d = cc h in
        ground (arith, same, ((challenge_get-Read c.id w).row x (ap (λ z. z.0) q)).1)
    go (err x, v) q h = absurd (cc h)

newest_lem :
    (u : ℕ) (w : World) (newest : Option Challenge) (d : Challenge)
    → first (newest_first (select (is_live_push u w.now) w.challenges)) ≡ newest
    → (v : World) → (on_newest newest v).0 ≡ ok (some d)
    → Pending u d.id w
newest_lem u w none d q v e = absurd (cc e)
newest_lem u w (some c) d q v e =
    let listed : Among c (select (is_live_push u w.now) w.challenges) =
      Among-newest_first c _ (first-Among c _ q) in
    let (stored, live) = Among-select (is_live_push u w.now) c w.challenges listed in
    record { row = c; stored = stored; live = live; named = got_lem c d v e }

module _ (w0 : World) where
  moved : (u i : ℕ) (w : World) → Kept w0 w → Pending u i w → Pending u i w0
  moved u i w k p = record {
    row = p.row;
    stored = rw (← k.table) p.stored;
    live = rw (← k.clock) p.live;
    named = p.named;
  }

  query-Kept : Keeps (Kept w0) query
  query-Kept = record {
    run = λ w k. record { table = ground (arith, k.table); clock = ground (arith, k.clock) };
  }

  pub get-Kept : (i : ℕ) → Keeps (Kept w0) (challenge_get i)
  unfolding challenge_get
  get-Kept i = record {
    run = λ w k. record { table = ground (arith, k.table); clock = ground (arith, k.clock) };
  }

  last-Kept : (u : ℕ) → Keeps (Kept w0) (last_push_at u)
  unfolding last_push_at
  last-Kept u = record {
    run = λ w k. record { table = ground (arith, k.table); clock = ground (arith, k.clock) };
  }

  count-Kept : (u t : ℕ) → Keeps (Kept w0) (push_count_since u t)
  unfolding push_count_since
  count-Kept u t = record {
    run = λ w k. record { table = ground (arith, k.table); clock = ground (arith, k.clock) };
  }

  -- What the answer of `livePendingPush` shows.
  Found : ℕ → Result Error (Option Challenge) → World → Type 0
  Found u r w = Kept w0 w × ((d : Challenge) → r ≡ ok (some d) → Pending u d.id w0)

  live-Found : (u : ℕ) → Triple (Kept w0) (live_pending_push u) (Found u)
  unfolding live_pending_push Found
  live-Found u = record { run = λ w k. go (query w) (query-Kept.run w k) }
    where
      newest-Kept : (o : Option Challenge) → Keeps (Kept w0) (on_newest o)
      newest-Kept none = record { run = λ w k. k }
      newest-Kept (some c) =
          attempt_rule (challenge_get c.id) got_push (get-Kept c.id)
            (λ d. record { run = λ w k. k }) (λ e. record { run = λ w k. k })

      go :
          (q : Result Error (Unit {0}) × World)
          → Kept w0 q.1
          → Found u (on_list u q.1 q.0 q.1).0 (on_list u q.1 q.0 q.1).1
      go (err x, v) k = (k, λ d e. absurd (cc e))
      go (ok t, v) k =
          ((newest-Kept _).run v k, λ d e. moved u d.id v k (newest_lem u v _ d refl v e))

  -- What the gates before a new push show.
  unfoldable pub Gated : ℕ → Result Error Gate → World → Type 0
  Gated u (ok (resume d)) w = Kept w0 w × Pending u d.id w0
  Gated u _ w = Kept w0 w

  pub gate-Gated : (env : Env) (u : User) → Triple (Kept w0) (push_gate env u) (Gated u.id)
  unfolding push_gate Gated Found
  gate-Gated env u = record {
    run = λ w k.
        (attempt_rule {Q = Gated u.id} (last_push_at u.id)
            (λ last. elim last as (λ _. M Gate) [
              | err _ ↦ return (refuse "push_send_fail")
              | ok at ↦
                  if in_cooldown env w.now at
                  then (do
                    live ← live_pending_push u.id
                    elim live [
                      | none ↦ return (refuse "push_cooldown")
                      | some c ↦ return (resume c)
                    ])
                  else (do
                    n ← attempt (push_count_since u.id (w.now - 3600))
                    elim n [
                      | err _ ↦ return (refuse "push_send_fail")
                      | ok k ↦
                          if leb env.settings.push_per_hour k
                          then return (refuse "push_limit")
                          else return fresh
                    ])
            ])
            (last-Kept u.id)
            (λ at.
              if_rule (in_cooldown env w.now at) _ _
                (λ _.
                  bind_rule (live_pending_push u.id)
                    (λ live. elim live as (λ _. M Gate) [
                      | none ↦ return (refuse "push_cooldown")
                      | some c ↦ return (resume c)
                    ])
                    (live-Found u.id)
                    (elim [
                      | none ↦ record { run = λ v h. h.0 }
                      | some c ↦ record { run = λ v h. (h.0, h.1 c refl) }
                    ])
                    (λ e v h. h.0))
                (λ _.
                  attempt_rule (push_count_since u.id (w.now - 3600))
                    (λ n. elim n as (λ _. M Gate) [
                      | err _ ↦ return (refuse "push_send_fail")
                      | ok k ↦
                          if leb env.settings.push_per_hour k
                          then return (refuse "push_limit")
                          else return fresh
                    ])
                    (count-Kept u.id (w.now - 3600))
                    (λ n.
                      if_rule (leb env.settings.push_per_hour n) _ _
                        (λ _. record { run = λ v h. h }) (λ _. record { run = λ v h. h }))
                    (λ e. record { run = λ v h. h })))
            (λ e. record { run = λ v h. h })).run
          w k;
  }

  -- The table after a new push is written, and the clock.
  pub record Sent (env : Env) (push : PushEnv) (u : User) (app : Bool) (w : World) : Type 0 where
    pub table :
        w.challenges
        ≡ push_challenge env push u app w0.now
          ∷ select (λ d. not (ltb d.expires_at w0.now)) w0.challenges
    pub clock : w.now ≡ w0.now

  pub create_lem :
      (env : Env) (push : PushEnv) (u : User) (app : Bool) (w : World) (c : Challenge)
      → Kept w0 w
      → (challenge_create (push_challenge env push u app w.now) w).0 ≡ ok c
      → (c.id ≡ push.new_id)
        × Sent env push u app (challenge_create (push_challenge env push u app w.now) w).1
  unfolding challenge_create
  create_lem env push u app w c k e = (
    ground (arith, e),
    record { table = ground (arith, e, k.table, k.clock); clock = ground (arith, k.clock) },
  )

  pub deliver-Sent :
      (env : Env) (push : PushEnv) (u : User) (shown : Bool) (name : String) (i : ℕ) (app tg : Bool)
      (w : World)
      → Sent env push u shown w
      → (deliver env push name i app tg w).0 ≡ ok true
      → Sent env push u shown (deliver env push name i app tg w).1
  unfolding deliver audit delete_challenge
  deliver-Sent env push u shown name i true true w s e = record {
    table = ground (arith, s.table, e);
    clock = ground (arith, s.clock, e);
  }
  deliver-Sent env push u shown name i true false w s e = record {
    table = ground (arith, s.table, e);
    clock = ground (arith, s.clock, e);
  }
  deliver-Sent env push u shown name i false true w s e = record {
    table = ground (arith, s.table, e);
    clock = ground (arith, s.clock, e);
  }
  deliver-Sent env push u shown name i false false w s e = record {
    table = ground (arith, s.table, e);
    clock = ground (arith, s.clock, e);
  }
