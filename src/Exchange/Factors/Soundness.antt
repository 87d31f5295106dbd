-- ===== src/Exchange/Factors/Soundness.antt =====
-- eapauth.go, `handlePEAPInner`: no MS-CHAPv2 response is granted access without the checks.
use ligament_2fa.Prelude.{
  ℕ, ◌≡◌, refl, sym, ap, ◌∙◌, subst, Bool, true, false, Option, none, some, if◌then◌else◌, Result,
  ok, err, find, String,
}
use ligament_2fa.Auth.Audit.{user_by_username, user_named, fail_locked}
use ligament_2fa.Auth.Login.{burn_dummy_verify}
use ligament_2fa.Eap.Bytes.{Bytes}
use ligament_2fa.Eap.Mschap.{MschapResponse}
use ligament_2fa.Exchange.Factors.{
  on_opened, on_sealed, on_user, broken, Candidate, match_candidate, Verdict, granted,
  second_factor, deny, deny_burning, check_response, check_locks, authenticate,
}
use ligament_2fa.Exchange.Factors.Grounds.{
  Checked, Second, many_fails, lock, GrantOk, Same, Post, find-Same, locked-Same, fail_locked-Same,
  deny-Post, burning-Post, counted-Post,
}
use ligament_2fa.Exchange.Factors.Second.{Matched, match-Post, clean-Post, spend-Post}
use ligament_2fa.Exchange.Factors.Window.{Coded, Fits}
use ligament_2fa.Exchange.Server.{Server, Request, Chance}
use ligament_2fa.Store.State.{User, World, Error, M, and_then, ◌>>=◌, return}
use ligament_2fa.Store.Triple.{Triple, OnOk, bind_rule, if_rule, ok_on}

module _ (server : Server) (r : Request) (c : Chance) (username : String) (resp : MschapResponse)
    (auth : Bytes) (start : World) where
  abbrev S : World → Type 0
  S = Same server r c username resp auth start

  abbrev Q : Result Error Verdict → World → Type 0
  Q = Post server r c username resp auth start

  module _ (u : User) (stored : find (user_named username) start.users ≡ some u)
      (enabled : u.enabled ≡ true)
      (few : (many_fails server r c username resp auth start u).0 ≡ ok false)
      (unlocked : (lock server r c username resp auth start u).0 ≡ ok false) where
    module _ {sealed : ℕ} (has : u.password_enc ≡ some sealed) {password : Bytes}
        (opened : server.open_password u.username sealed ≡ some password) where
      vouch :
          (k : Candidate)
          → Fits server resp auth k
          → Coded server resp auth start u password k
          → Second server r c username resp auth start u k
          → Checked server r c username resp auth start k
      vouch k f w s = record {
        user = u;
        stored = stored;
        enabled = enabled;
        few_fails = few;
        unlocked = unlocked;
        sealed = sealed;
        has_password = has;
        password = password;
        opened = opened;
        fits = f;
        whence = w;
        second = s;
      }

      factor-Post :
          (k : Candidate) (step : Option ℕ)
          → k.timestep ≡ step
          → (Second server r c username resp auth start u k
              → Checked server r c username resp auth start k)
          → Triple S (second_factor server r c username u (some k)) Q
      unfolding second_factor
      factor-Post k none e v = rw e (clean-Post server r c username resp auth start u k v e)
      factor-Post k (some counter) e v =
          rw e (spend-Post server r c username resp auth start u k v counter e)

      second-Post :
          (k : Option Candidate)
          → Matched server r c username resp auth start u password k
          → Triple S (second_factor server r c username u k) Q
      unfolding second_factor Matched burn_dummy_verify
      second-Post none m = record {
        run = λ w h.
            (counted-Post server r c username resp auth start (λ _. Unit) "bad_credentials").run _
              tt;
      }
      second-Post (some k) m = factor-Post k k.timestep refl (vouch k m.0 m.1)

      matched-Post :
          Triple S
            (match_candidate server resp auth u password >>= second_factor server r c username u)
            Q
      matched-Post =
          bind_rule (match_candidate server resp auth u password)
            (second_factor server r c username u)
            (match-Post server r c username resp auth start u password)
            (λ k. record { run = λ w h. (second-Post k h.0).run w h.1 }) (λ e w h. tt)

    opened-Post :
        {sealed : ℕ} (opened : Option Bytes)
        → u.password_enc ≡ some sealed
        → server.open_password u.username sealed ≡ opened
        → Triple S (on_opened server r c username resp auth u opened) Q
    opened-Post none has e = burning-Post server r c username resp auth start "bad_credentials"
    opened-Post (some password) has e = matched-Post has e

    sealed-Post :
        (sealed : Option ℕ)
        → u.password_enc ≡ sealed
        → Triple S (on_sealed server r c username resp auth u sealed) Q
    sealed-Post none e = burning-Post server r c username resp auth start "password_enc_missing"
    sealed-Post (some sealed) e = opened-Post (server.open_password u.username sealed) e refl

    broken-Post : Triple S (return broken) Q
    unfolding GrantOk
    broken-Post = record { run = λ w h. tt }

    response-Post : Triple S (check_response server r c username resp auth u) Q
    unfolding check_response
    response-Post =
        if_rule server.has_box _ _ (λ _. sealed-Post u.password_enc refl) (λ _. broken-Post)

  module _ (u : User) (stored : find (user_named username) start.users ≡ some u)
      (enabled : u.enabled ≡ true) where
    on_banned : Bool → M Verdict
    on_banned banned =
        if banned
        then deny server r c username "locked"
        else check_response server r c username resp auth u

    on_many : Bool → M Verdict
    on_many many =
        if many
        then deny server r c username "locked"
        else (fail_locked server.env u.id >>= on_banned)

    banned_run :
        (few : (many_fails server r c username resp auth start u).0 ≡ ok false)
        → (x : Result Error Bool × World) → lock server r c username resp auth start u ≡ x
        → S x.1
        → Q (and_then x on_banned).0 (and_then x on_banned).1
    unfolding on_banned
    banned_run few (ok true, v) q s =
        (deny-Post server r c username resp auth start "locked").run v s
    banned_run few (ok false, v) q s =
        (response-Post u stored enabled few (ap (λ z. z.0) q)).run v s
    banned_run few (err e, v) q s = tt

    many_run :
        (x : Result Error Bool × World)
        → many_fails server r c username resp auth start u ≡ x
        → S x.1
        → Q (and_then x on_many).0 (and_then x on_many).1
    unfolding on_many
    many_run (ok true, v) q s = (deny-Post server r c username resp auth start "locked").run v s
    many_run (ok false, v) q s =
        subst
          (λ z.
            Q (and_then (fail_locked server.env u.id z) on_banned).0
              (and_then (fail_locked server.env u.id z) on_banned).1)
          (ap (λ z. z.1) q)
          (banned_run (ap (λ z. z.0) q) _ refl (
            (fail_locked-Same server r c username resp auth start u.id).run _
              (subst S (sym (ap (λ z. z.1) q)) s)))
    many_run (err e, v) q s = tt

    locks_run :
        S (user_by_username username start).1
        → Q
            (check_locks server r c username resp auth u (user_by_username username start).1).0
            (check_locks server r c username resp auth u (user_by_username username start).1).1
    unfolding check_locks on_many on_banned
    locks_run s = many_run _ refl ((locked-Same server r c username resp auth start u).run _ s)

  found_run :
      (x : Result Error User × World)
      → user_by_username username start ≡ x
      → OnOk (λ u _. find (user_named username) start.users ≡ some u) x.0 x.1
      → S x.1
      → Q
          (on_user server r c username resp auth x.0 x.1).0
          (on_user server r c username resp auth x.0 x.1).1
  found_run (err e, v) q f s = (burning-Post server r c username resp auth start "no_user").run v s
  found_run (ok u, v) q f s =
      (if_rule {P = λ z. (z ≡ v) × S z} {Q = Q} u.enabled
          (check_locks server r c username resp auth u)
          (deny_burning server r c username "disabled")
          (λ on. record {
            run = λ w h.
                subst
                  (λ z.
                    Q (check_locks server r c username resp auth u z).0
                      (check_locks server r c username resp auth u z).1)
                  (ap (λ z. z.1) q ∙ sym h.0)
                  (locks_run u f on (subst S (sym (ap (λ z. z.1) q)) s));
          })
          (λ _. record {
            run = λ w h. (burning-Post server r c username resp auth start "disabled").run w h.1;
          })).run
        v (refl, s)

  authenticated :
      Q
        (authenticate server r c username resp auth start).0
        (authenticate server r c username resp auth start).1
  unfolding authenticate
  authenticated =
      let f =
        (find-Same server r c username resp auth start).run start
          (refl, (refl, (refl, (refl, refl)))) in
      found_run _ refl f.0 f.1

  -- An MS-CHAPv2 response is granted access only where: the user is stored under the name, enabled, and neither of the
  -- two locks (failures of RADIUS logins, ErrLocked) holds, as each answers when it is asked;
  -- the response fits, as MS-CHAPv2 computes it, the user's sealed password, or that password with the
  -- code of a counter of the window glued to it; and there is a second factor, which is the code, its
  -- counter beyond the replay mark of the user's secret, or a device in its window of trust, or what
  -- RADIUS authentication of the password takes for one, or none where radius_push is off for the user.
  pub granted-Checked :
      (k : Candidate)
      → (authenticate server r c username resp auth start).0 ≡ ok (granted k)
      → Checked server r c username resp auth start k
  unfolding GrantOk
  granted-Checked k e =
      ok_on (λ v _. GrantOk server r c username resp auth start v) _ e authenticated
