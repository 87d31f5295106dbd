-- ===== src/Auth/Codes/Factor.antt =====
-- core.go, `VerifyAnyCode`: what an accepted code is, and that a refused one changes nothing.
use ligament_2fa.Prelude.{
  ℕ, ◌≡◌, refl, ap, subst, true, false, some, List, arith, if◌then◌else◌, Result, ok, err, any,
  find, String,
}
use ligament_2fa.Auth.Audit.{user_by_username, user_by_id, user_named, fail_locked}
use ligament_2fa.Auth.Codes.{verify_totp_or_delivered, verify_any_code, verify_delivered}
use ligament_2fa.Auth.Codes.Delivered.{Delivered, verify_delivered-Shows}
use ligament_2fa.Auth.Codes.Frames.{
  Still, verify_any_code-Still, user_by_username-Still, fail_locked-Still,
}
use ligament_2fa.Auth.Codes.Tables.{
  Before, untouched-Before, consume_used, consume-Before, totp-Frame, delivered-Frame,
}
use ligament_2fa.Auth.Config.{Env}
use ligament_2fa.Auth.Totp.{verify_totp}
use ligament_2fa.Auth.Totp.Replay.{Advanced, verify_totp_advances}
use ligament_2fa.Store.Challenges.{}
use ligament_2fa.Store.State.{totp, backup, return, Channel, World, User, Error}
use ligament_2fa.Store.Totp.{backup_consume, is_open_backup}
use ligament_2fa.Store.Triple.{on_ok, ok_on, attempt_rule, if_rule, Triple, Keeps, OnOk}

-- What an accepted code is, in the tables before and after: an open backup code of the user, or the code
-- of a counter within the window and beyond the replay mark of the user's confirmed secret, or a
-- delivered code: an unused, unexpired challenge of the user with this code's hash and one of the
-- purposes; and the backup code is used, the mark moved to the counter, the challenge claimed.
pub data Factor (env : Env) (u : User) (code : List ℕ) (ps : List String) (w0 : World)
    (ch : Channel) (w : World) : Type 0 where
  by_backup :
      ch ≡ backup
      → any (is_open_backup u.id (env.crypto.sha256 code)) w0.backups ≡ true
      → any (is_open_backup u.id (env.crypto.sha256 code)) w.backups ≡ false
      → Factor env u code ps w0 ch w
  by_totp : ch ≡ totp → Advanced env u code w0 w → Factor env u code ps w0 ch w
  by_delivered :
      Delivered w0.challenges w0.now u.id (env.crypto.sha256 code) ps ch w
      → Factor env u code ps w0 ch w

-- From the tables of `w0`, a check of a code ends in a factor, or leaves the tables of codes alone.
unfoldable pub Noted :
    (env : Env) (u : User) (code : List ℕ) (ps : List String) (w0 : World)
    → Result Error Channel
    → World
    → Type 0
Noted env u code ps w0 (ok ch) w = Factor env u code ps w0 ch w
Noted env u code ps w0 (err e) w = Before w0 w

module _ (env : Env) (u : User) (code : List ℕ) (ps : List String) (w0 : World) where
  delivered-Noted : Triple (Before w0) (verify_delivered env u code ps) (Noted env u code ps w0)
  unfolding Noted
  delivered-Noted = record { run = λ w b. go w b _ refl }
    where
      go :
          (w : World)
          → Before w0 w
          → (r : Result Error Channel) → (verify_delivered env u code ps w).0 ≡ r
          → Noted env u code ps w0 r (verify_delivered env u code ps w).1
      go w b (ok ch) e = by_delivered (
          ok_on (Delivered w0.challenges w0.now u.id (env.crypto.sha256 code) ps) _ e (
            (verify_delivered-Shows w0.challenges w0.now env u code ps).run w
              (record { table = b.challenges; clock = b.clock })))
      go w b (err x) e = untouched-Before w0 w _ (delivered-Frame env u code ps w x e) b

  checked_totp-Noted : Triple (Before w0) (verify_totp env u code) (λ r w.
      (ch : Channel)
      → ch ≡ totp
      → Noted env u code ps w0 (elim r [ ok _ ↦ ok ch | err e ↦ err e ]) w)
  unfolding Noted
  checked_totp-Noted = record { run = λ w b ch c. go w b ch c _ refl }
    where
      go :
          (w : World)
          → Before w0 w
          → (ch : Channel) → ch ≡ totp
          → (r : Result Error (Unit {0})) → (verify_totp env u code w).0 ≡ r
          → Noted env u code ps w0
              (elim r [ ok _ ↦ ok ch | err e ↦ err e ])
              (verify_totp env u code w).1
      go w b ch c (ok tt) e =
          let a = verify_totp_advances env u code w e in
          by_totp c (record {
            row = a.row;
            mark = a.mark;
            secret = a.secret;
            stored = rw (← b.totps) a.stored;
            confirmed = a.confirmed;
            opened = a.opened;
            forwards = a.forwards;
            within = rw (← b.clock) a.within;
            moved = a.moved;
          })
      go w b ch c (err x) e = untouched-Before w0 w _ (totp-Frame env u code w x e) b

  totp_or_delivered-Noted :
      Triple (Before w0) (verify_totp_or_delivered env u code ps) (Noted env u code ps w0)
  unfolding verify_totp_or_delivered Noted
  totp_or_delivered-Noted =
      attempt_rule (verify_totp env u code)
        (λ r. elim r [ ok _ ↦ return totp | err _ ↦ verify_delivered env u code ps ])
        checked_totp-Noted (λ a. record { run = λ w h. h totp refl })
        (λ e. record { run = λ w h. delivered-Noted.run w (h totp refl) })

  consumed :
      Triple
        (Before w0)
        (backup_consume u.id (env.crypto.sha256 code))
        (λ r w. Before w0 w × (r ≡ ok true → Noted env u code ps w0 (ok backup) w))
  unfolding Noted
  consumed = record {
    run = λ w b. (
      consume-Before w0 u.id (env.crypto.sha256 code) w b,
      λ e.
          let used = consume_used u.id (env.crypto.sha256 code) w e in
          by_backup refl (b.backups _ _ used.0) used.1,
    );
  }

  pub verify_any_code-Noted :
      Triple (Before w0) (verify_any_code env u code ps) (Noted env u code ps w0)
  unfolding verify_any_code
  verify_any_code-Noted =
      attempt_rule (backup_consume u.id (env.crypto.sha256 code))
        (λ r. elim r [
          | ok b ↦ if b then return backup else verify_totp_or_delivered env u code ps
          | err _ ↦ verify_totp_or_delivered env u code ps
        ])
        consumed
        (λ b.
          if_rule b _ _ (λ e. record { run = λ w h. h.1 (ap ok e) })
            (λ _. record { run = λ w h. totp_or_delivered-Noted.run w h.0 }))
        (λ e. record { run = λ w h. totp_or_delivered-Noted.run w h.0 })

  -- A code that is accepted is one of three things, and used up by the check: an open backup code of the
  -- user; the code of a counter within the window and beyond the replay mark of the user's confirmed
  -- TOTP secret, which becomes the mark; or a delivered code, a stored, unused, unexpired challenge of
  -- this user with this code's hash and a purpose among those asked for, which is claimed.
  pub verify_any_code-Factor :
      (ch : Channel)
      → (verify_any_code env u code ps w0).0 ≡ ok ch
      → Factor env u code ps w0 ch (verify_any_code env u code ps w0).1
  unfolding Noted
  verify_any_code-Factor ch e =
      subst (λ r. Noted env u code ps w0 r (verify_any_code env u code ps w0).1) e
        (verify_any_code-Noted.run w0
          (record { challenges = refl; totps = refl; clock = refl; backups = λ i h o. o }))

-- Before the first code of a request is checked: no argon2 run beyond `n`, and the tables of `w0`.
abbrev pub Begin : ℕ → World → World → Type 0
Begin n w0 w = Still n w0.users w × Before w0 w

pub begin_here : (w : World) → Begin w.argon2_runs w w
begin_here w =
    ((refl, refl), record { challenges = refl; totps = refl; clock = refl; backups = λ i h o. o })

module _ (n : ℕ) (w0 : World) where
  pub user_by_username-Begin :
      (name : String)
      → Triple
          (Begin n w0)
          (user_by_username name)
          (λ r w. OnOk (λ u _. find (user_named name) w0.users ≡ some u) r w × Begin n w0 w)
  unfolding user_by_username
  user_by_username-Begin name = record {
    run = λ w h. (
      on_ok (λ u _. find (user_named name) w0.users ≡ some u) _ _ (λ u e. ground (arith, h.0, e)),
      (
        (user_by_username-Still n w0.users name).run w h.0,
        untouched-Before w0 w _
            (record {
              challenges = ground arith;
              totps = ground arith;
              clock = ground arith;
              backups = ground arith;
            })
            h.1,
      ),
    );
  }

  pub fail_locked-Begin : (env : Env) (i : ℕ) → Keeps (Begin n w0) (fail_locked env i)
  unfolding fail_locked user_by_id
  fail_locked-Begin env i = record {
    run = λ w h. (
      (fail_locked-Still n w0.users env i).run w h.0,
      untouched-Before w0 w _
          (record {
            challenges = ground arith;
            totps = ground arith;
            clock = ground arith;
            backups = ground arith;
          })
          h.1,
    );
  }

  -- A check of a code costs no argon2 run.
  unfoldable pub Checked : Env → User → List ℕ → List String → Result Error Channel → World → Type 0
  Checked env u code ps (ok ch) w = Still n w0.users w × Factor env u code ps w0 ch w
  Checked env u code ps (err e) w = Begin n w0 w

  pub verify_any_code-Checked :
      (env : Env) (u : User) (code : List ℕ) (ps : List String)
      → Triple (Begin n w0) (verify_any_code env u code ps) (Checked env u code ps)
  unfolding Checked Noted
  verify_any_code-Checked env u code ps = record {
    run = λ w h.
        both (verify_any_code env u code ps w).0 _
          ((verify_any_code-Still n w0.users env u code ps).run w h.0)
          ((verify_any_code-Noted env u code ps w0).run w h.1);
  }
    where
      both :
          (r : Result Error Channel) (w : World)
          → Still n w0.users w
          → Noted env u code ps w0 r w
          → Checked env u code ps r w
      both (ok ch) w a b = (a, b)
      both (err e) w a b = (a, b)
