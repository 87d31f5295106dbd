-- ===== src/Exchange/Factors/Grounds.antt =====
-- eapauth.go, `handlePEAPInner`: what a granted MS-CHAPv2 response rests on.
use ligament_2fa.Prelude.{
  ℕ, ◌≡◌, Bool, true, false, none, some, List, arith, Result, ok, any, find, String,
}
use ligament_2fa.Auth.Audit.{user_by_username, user_named, fail_locked}
use ligament_2fa.Auth.Login.{burn_dummy_verify}
use ligament_2fa.Auth.Radius.{radius_locked}
use ligament_2fa.Auth.Radius.Grounds.{Grounds}
use ligament_2fa.Eap.Bytes.{Bytes}
use ligament_2fa.Eap.Mschap.{MschapResponse}
use ligament_2fa.Exchange.Factors.{Candidate, Verdict, granted, deny, deny_burning, deny_counted}
use ligament_2fa.Exchange.Factors.Window.{Coded, Fits}
use ligament_2fa.Exchange.Server.{Server, Request, Chance}
use ligament_2fa.Exchange.Trust.{record_event, audit_radius_fail, radius_trust_trusted}
use ligament_2fa.Store.State.{User, World, Error}
use ligament_2fa.Store.Totp.{totp_get, totp_set_timestep, totp_of, is_behind}
use ligament_2fa.Store.Triple.{Triple, Keeps, OnOk}
use ligament_2fa.Store.Trust.{normalize_csid, is_trusting, radius_trust_is_trusted}

module _ (server : Server) (r : Request) (c : Chance) (username : String) (resp : MschapResponse)
    (auth : Bytes) (start : World) where
  -- The second factor: a fresh code, a device in its window of trust, none where the user's radius_push
  -- is off, or what `RADIUSAuth` asks for.
  pub data Second (u : User) (k : Candidate) : Type 0 where
    by_code :
        (counter : ℕ)
        → k.timestep ≡ some counter
        → any (is_behind u.id counter) start.totps ≡ true
        → Second u k
    by_trust :
        k.timestep ≡ none
        → any
            (is_trusting u.id (normalize_csid (normalize_csid r.calling_station)) start.now)
            start.trusted
          ≡ true
        → Second u k
    by_policy : k.timestep ≡ none → c.push.radius_push ≡ false → Second u k
    by_core :
        (fs : List Bool)
        → k.timestep ≡ none
        → Grounds server.env c.push c.ticks (record start { faults = fs }) username k.password
        → Second u k

  -- The answers of the two locks, in the states that they are asked in.
  abbrev pub many_fails : User → Result Error Bool × World
  many_fails u =
      radius_locked server.env c.push username r.src_ip c.ticks u
        (user_by_username username start).1

  abbrev pub lock : User → Result Error Bool × World
  lock u = fail_locked server.env u.id (many_fails u).1

  -- The user is stored under the name, enabled, and neither lock holds; the candidate is the sealed password, or it and a
  -- code of the window; it fits the response; and the second factor is there.
  pub record Checked (k : Candidate) : Type 0 where
    pub user : User
    pub stored : find (user_named username) start.users ≡ some user
    pub enabled : user.enabled ≡ true
    pub few_fails : (many_fails user).0 ≡ ok false
    pub unlocked : (lock user).0 ≡ ok false
    pub sealed : ℕ
    pub has_password : user.password_enc ≡ some sealed
    pub password : Bytes
    pub opened : server.open_password user.username sealed ≡ some password
    pub fits : Fits server resp auth k
    pub whence : Coded server resp auth start user password k
    pub second : Second user k

  unfoldable pub GrantOk : Verdict → Type 0
  GrantOk (granted k) = Checked k
  GrantOk _ = Unit

  -- Nothing that the checks read has changed so far.
  abbrev pub Same : World → Type 0
  Same w =
      (w.users ≡ start.users)
      × ((w.totps ≡ start.totps)
          × ((w.trusted ≡ start.trusted)
              × ((w.now ≡ start.now) × (w ≡ record start { faults = w.faults }))))

  abbrev pub Post : Result Error Verdict → World → Type 0
  Post = OnOk (λ v _. GrantOk v)

  pub find-Same :
      Triple Same
        (user_by_username username)
        (λ res w. OnOk (λ u _. find (user_named username) start.users ≡ some u) res w × Same w)
  unfolding user_by_username
  find-Same = record { run = λ w h. ground (arith, h) }

  pub locked-Same :
      (u : User) → Keeps Same (radius_locked server.env c.push username r.src_ip c.ticks u)
  unfolding radius_locked
  locked-Same u = record { run = λ w h. ground (arith, h) }

  pub fail_locked-Same : (i : ℕ) → Keeps Same (fail_locked server.env i)
  unfolding fail_locked ligament_2fa.Auth.Audit.user_by_id
  fail_locked-Same i = record { run = λ w h. ground (arith, h) }

  pub trusted-Same :
      (i : ℕ)
      → Triple Same (radius_trust_trusted server i r.calling_station) (λ res w.
        OnOk
          (λ b _.
            b ≡ true
            → any
                (is_trusting i (normalize_csid (normalize_csid r.calling_station)) start.now)
                start.trusted
              ≡ true)
          res
          w
        × Same w)
  unfolding radius_trust_trusted radius_trust_is_trusted
  trusted-Same i = record { run = λ w h. ground (arith, h) }

  pub spent-Behind :
      (i counter : ℕ)
      → Triple Same
          (totp_set_timestep i counter)
          (λ res w. OnOk (λ b _. b ≡ true → any (is_behind i counter) start.totps ≡ true) res w)
  unfolding totp_set_timestep
  spent-Behind i counter = record { run = λ w h. ground (arith, h) }

  pub got-Same :
      (i : ℕ)
      → Triple Same
          (totp_get i)
          (λ res w. OnOk (λ t _. find (totp_of i) start.totps ≡ some t) res w × Same w)
  unfolding totp_get
  got-Same i = record { run = λ w h. ground (arith, h) }

  pub deny-Post : (reason : String) → Triple Same (deny server r c username reason) Post
  unfolding record_event GrantOk
  deny-Post reason = record { run = λ w h. tt }

  pub burning-Post : (reason : String) → Triple Same (deny_burning server r c username reason) Post
  unfolding record_event burn_dummy_verify GrantOk
  burning-Post reason = record { run = λ w h. tt }

  pub counted-Post :
      (P : World → Type 0) (reason : String)
      → Triple P (deny_counted server r c username reason) Post
  unfolding record_event audit_radius_fail GrantOk
  counted-Post P reason = record { run = λ w h. tt }
