-- ===== src/Auth/Codes/Tables.antt =====
-- core.go, `VerifyAnyCode`: what a check of a code leaves of the tables of codes.
use ligament_2fa.Prelude.{
  ℕ, ◌≡◌, refl, ◌∙◌, inl, inr, true, false, some, List, [], ◌∷◌, arith, ◌==◌, Bool-cases, Result,
  ok, err, any, count_where, select, update_where, String,
}
use ligament_2fa.Auth.Codes.{claim_delivered, match_delivered, verify_delivered}
use ligament_2fa.Auth.Codes.Frames.{}
use ligament_2fa.Auth.Config.{Env}
use ligament_2fa.Auth.Totp.{verify_totp}
use ligament_2fa.Store.Challenges.{
  newest_first, active_code_challenges, is_active_code, challenge_mark_used,
}
use ligament_2fa.Store.State.{
  query, and_then, Channel, World, Challenge, User, Error, BackupCode, is_some_eq,
}
use ligament_2fa.Store.Totp.{backup_consume, is_open_backup, totp_get, totp_set_timestep}

-- The tables of codes are still those of `w0`; of the open backup codes there may be fewer.
pub record Before (w0 w : World) : Type 0 where
  pub challenges : w.challenges ≡ w0.challenges
  pub totps : w.totps ≡ w0.totps
  pub clock : w.now ≡ w0.now
  pub backups :
      (i h : ℕ)
      → any (is_open_backup i h) w.backups ≡ true
      → any (is_open_backup i h) w0.backups ≡ true

still_open :
    (i h u k t : ℕ) (bs : List BackupCode)
    → any
        (is_open_backup i h)
        (update_where (is_open_backup u k) (λ b. record b { used_at = some t }) bs)
      ≡ true
    → any (is_open_backup i h) bs ≡ true
still_open i h u k t [] e = e
still_open i h u k t (b ∷ bs) e = ground (arith, still_open i h u k t bs)

closed :
    (u k t : ℕ) (bs : List BackupCode)
    → any
        (is_open_backup u k)
        (update_where (is_open_backup u k) (λ b. record b { used_at = some t }) bs)
      ≡ false
closed u k t [] = refl
closed u k t (b ∷ bs) = ground (arith, closed u k t bs)

counted_open :
    (u k : ℕ) (bs : List BackupCode)
    → (count_where (is_open_backup u k) bs == 1) ≡ true
    → any (is_open_backup u k) bs ≡ true
counted_open u k [] e = absurd (cc e)
counted_open u k (b ∷ bs) e = ground (arith, counted_open u k bs, e)

-- Nothing but the queue of faults has moved.
pub record Frame (v w : World) : Type 0 where
  pub challenges : w.challenges ≡ v.challenges
  pub totps : w.totps ≡ v.totps
  pub clock : w.now ≡ v.now
  pub backups : w.backups ≡ v.backups

pub untouched-Before : (w0 v w : World) → Frame v w → Before w0 v → Before w0 w
untouched-Before w0 v w f b = record {
  challenges = f.challenges ∙ b.challenges;
  totps = f.totps ∙ b.totps;
  clock = f.clock ∙ b.clock;
  backups = λ i h e. b.backups i h (rw (← f.backups) e);
}

pub consume_used :
    (u k : ℕ) (w : World)
    → (backup_consume u k w).0 ≡ ok true
    → (any (is_open_backup u k) w.backups ≡ true)
      × (any (is_open_backup u k) (backup_consume u k w).1.backups ≡ false)
unfolding backup_consume
consume_used u k w e = ground (arith, e, counted_open u k w.backups, closed u k w.now w.backups)

pub consume-Before :
    (w0 : World) (u k : ℕ) (w : World) → Before w0 w → Before w0 (backup_consume u k w).1
unfolding backup_consume
consume-Before w0 u k w b = record {
  challenges = ground (arith, b.challenges);
  totps = ground (arith, b.totps);
  clock = ground (arith, b.clock);
  backups = λ i h e. b.backups i h (ground (arith, e, still_open i h u k w.now w.backups));
}

pub totp-Frame :
    (env : Env) (u : User) (code : List ℕ) (w : World) (x : Error)
    → (verify_totp env u code w).0 ≡ err x
    → Frame w (verify_totp env u code w).1
unfolding verify_totp totp_get totp_set_timestep
totp-Frame env u code w x e = record {
  challenges = ground arith;
  totps = ground (arith, e);
  clock = ground arith;
  backups = ground arith;
}

claim-Frame :
    (c : Challenge) (w : World) (x : Error)
    → (claim_delivered c w).0 ≡ err x
    → Frame w (claim_delivered c w).1
unfolding claim_delivered challenge_mark_used
claim-Frame c w x e = record {
  challenges = ground (arith, e);
  totps = ground arith;
  clock = ground arith;
  backups = ground arith;
}

match-Frame :
    (sum : ℕ) (cs : List Challenge) (w : World) (x : Error)
    → (match_delivered sum cs w).0 ≡ err x
    → Frame w (match_delivered sum cs w).1
unfolding match_delivered
match-Frame sum [] w x e = record { challenges = refl; totps = refl; clock = refl; backups = refl }
match-Frame sum (c ∷ cs) w x e = elim (Bool-cases (is_some_eq c.code_hash sum)) [
  | inl hit ↦ rw (hit, match_delivered) (claim-Frame c w x (rw (hit, match_delivered) at e))
  | inr miss ↦ rw (miss, match_delivered) (match-Frame sum cs w x (rw (miss, match_delivered) at e))
]

pub delivered-Frame :
    (env : Env) (u : User) (code : List ℕ) (ps : List String) (w : World) (x : Error)
    → (verify_delivered env u code ps w).0 ≡ err x
    → Frame w (verify_delivered env u code ps w).1
unfolding verify_delivered active_code_challenges
delivered-Frame env u code [] w x e = record {
  challenges = refl;
  totps = refl;
  clock = refl;
  backups = refl;
}
delivered-Frame env u code (p ∷ ps) w x e = go (query w) (queried w) e
  where
    queried : (w : World) → Frame w (query w).1
    queried w = record {
      challenges = ground arith;
      totps = ground arith;
      clock = ground arith;
      backups = ground arith;
    }

    chain : (a b c : World) → Frame a b → Frame b c → Frame a c
    chain a b c f g = record {
      challenges = g.challenges ∙ f.challenges;
      totps = g.totps ∙ f.totps;
      clock = g.clock ∙ f.clock;
      backups = g.backups ∙ f.backups;
    }

    rest : Result Error (Unit {0}) × World → Result Error Channel × World
    rest q =
        and_then
          (and_then q (λ _ v.
            (ok (newest_first (select (is_active_code u.id v.now (p ∷ ps)) v.challenges)), v)))
          (match_delivered (env.crypto.sha256 code))

    go :
        (q : Result Error (Unit {0}) × World)
        → Frame w q.1
        → (rest q).0 ≡ err x
        → Frame w (rest q).1
    go (ok tt, v) f e = chain w v _ f (match-Frame (env.crypto.sha256 code) _ v x e)
    go (err y, v) f e = f
