-- ===== src/Exchange/Factors/Second.antt =====
-- eapauth.go, `handlePEAPInner`: the candidate, and the second factor, of an MS-CHAPv2 response.
use ligament_2fa.Prelude.{
  ℕ, ◌≡◌, refl, ap, ◌∙◌, subst, Bool, true, false, not, Option, none, some, arith, Result, ok, any,
  find, String,
}
use ligament_2fa.Auth.Radius.{Answer, radius_authenticate}
use ligament_2fa.Auth.Radius.Grounds.{Grounds}
use ligament_2fa.Auth.Radius.Soundness.{radius_has_both_factors}
use ligament_2fa.Eap.Bytes.{Bytes}
use ligament_2fa.Eap.Mschap.{MschapResponse}
use ligament_2fa.Exchange.Factors.{
  Candidate, test_candidate, window_candidate, match_candidate, try_code, on_totp, on_spent,
  Verdict, granted, spend_code, push_factor, clean_factor, after_push,
}
use ligament_2fa.Exchange.Factors.Grounds.{
  Second, by_code, by_trust, by_policy, by_core, Checked, GrantOk, Same, Post, trusted-Same,
  spent-Behind, got-Same, counted-Post,
}
use ligament_2fa.Exchange.Factors.Window.{Coded, Fits, test-Fits, window-Coded}
use ligament_2fa.Exchange.Server.{Server, Request, Chance}
use ligament_2fa.Exchange.Trust.{
  record_event, radius_trust_trusted, radius_trust_remember, is_second_factor,
}
use ligament_2fa.Store.State.{
  User, TotpSecret, radius_auth, radius_trust_skip, World, Error, M, ◌>>◌, return,
}
use ligament_2fa.Store.Totp.{totp_get, totp_set_timestep, totp_of, is_behind}
use ligament_2fa.Store.Triple.{on_ok, Triple, OnOk, bind_rule, attempt_rule, if_rule}

module _ (server : Server) (r : Request) (c : Chance) (username : String) (resp : MschapResponse)
    (auth : Bytes) (start : World) where
  abbrev S : World → Type 0
  S = Same server r c username resp auth start

  abbrev Q : Result Error Verdict → World → Type 0
  Q = Post server r c username resp auth start

  -- The two ways in which a match may come about.
  unfoldable pub Matched : User → Bytes → Option Candidate → Type 0
  Matched u password none = Unit
  Matched u password (some k) = Fits server resp auth k × Coded server resp auth start u password k

  pub match-Post :
      (u : User) (password : Bytes)
      → Triple S
          (match_candidate server resp auth u password)
          (λ res w. OnOk (λ k _. Matched u password k) res w × S w)
  unfolding match_candidate Matched
  match-Post u password = go (test_candidate server resp auth password none) refl
    where
      coded-Post :
          (t : TotpSecret) (w : World)
          → find (totp_of u.id) start.totps ≡ some t
          → S w
          → (k : Option Candidate)
          → window_candidate server resp auth u.username password w.now t ≡ k
          → Matched u password k
      coded-Post t w f h none q = tt
      coded-Post t w f h (some k) q = window-Coded server resp auth start u password t f (
          subst (λ n. window_candidate server resp auth u.username password n t ≡ some k) h.1.1.1.0
            q)

      go :
          (k : Option Candidate)
          → test_candidate server resp auth password none ≡ k
          → Triple S
              (try_code server resp auth u password k)
              (λ res w. OnOk (λ k _. Matched u password k) res w × S w)
      go (some k) q =
          let f = test-Fits server resp auth password none q in
          record { run = λ w h. ((f.0, Coded.clean f.1.1 f.1.0), h) }
      go none q =
          attempt_rule (totp_get u.id) (on_totp server resp auth u password)
            (got-Same server r c username resp auth start u.id)
            (λ t. record { run = λ w h. (coded-Post t w h.0 h.1 _ refl, h.1) })
            (λ e. record { run = λ w h. (tt, h.1) })

  any-Post : {A : Type 0} {P : World → Type 0} (m : M A) → Triple P m (λ _ _. Unit)
  any-Post m = record { run = λ w h. tt }

  -- From here on a second factor is all that a grant lacks.
  module _ (u : User) (k : Candidate)
      (vouch : Second server r c username resp auth start u k
        → Checked server r c username resp auth start k) where
    grant-Post :
        {P : World → Type 0} (m : M (Unit {0}))
        → Second server r c username resp auth start u k
        → Triple P (m >> return (granted k)) Q
    unfolding GrantOk
    grant-Post m s =
        bind_rule m (λ _. return (granted k)) (any-Post m) (λ _. record { run = λ w h. vouch s })
          (λ e w h. tt)

    answered-Post :
        (answer : Answer)
        → ((reason : String)
            → answer ≡ some (true, reason)
            → Second server r c username resp auth start u k)
        → Triple (λ _. Unit) (after_push server r c username u k answer) Q
    unfolding GrantOk
    answered-Post none s = record { run = λ w h. tt }
    answered-Post (some (false, reason)) s = record { run = λ w h. tt }
    answered-Post (some (true, reason)) s =
        if_rule (is_second_factor reason) _ _
          (λ _. grant-Post (radius_trust_remember server u.id r.calling_station) (s reason refl))
          (λ _. record { run = λ w h. vouch (s reason refl) })

    push-Post : k.timestep ≡ none → Triple S (push_factor server r c username u k) Q
    unfolding push_factor
    push-Post none_yet =
        bind_rule (radius_authenticate server.env c.push username r.src_ip c.ticks k.password)
          (after_push server r c username u k) core
          (λ answer. record { run = λ w h. (answered-Post answer h).run w tt }) (λ e w h. tt)
      where
        core :
            Triple S (radius_authenticate server.env c.push username r.src_ip c.ticks k.password) (
              OnOk (λ answer _.
                (reason : String)
                → answer ≡ some (true, reason)
                → Second server r c username resp auth start u k))
        core = record {
          run = λ w h.
              on_ok
                (λ answer _.
                  (reason : String)
                  → answer ≡ some (true, reason)
                  → Second server r c username resp auth start u k)
                _ _
                (λ answer e reason q. by_core w.faults none_yet (
                  subst (λ v. Grounds server.env c.push c.ticks v username k.password) h.1.1.1.1
                    (radius_has_both_factors server.env c.push username r.src_ip c.ticks k.password
                      w reason (e ∙ ap ok q))));
        }

    pub clean-Post : k.timestep ≡ none → Triple S (clean_factor server r c username u k) Q
    unfolding clean_factor
    clean-Post none_yet =
        bind_rule (radius_trust_trusted server u.id r.calling_station) _
          (trusted-Same server r c username resp auth start u.id)
          (λ trusted.
            if_rule trusted _ _
              (λ e. record {
                run = λ w h.
                    (grant-Post {P = λ _. Unit}
                        (record_event username radius_trust_skip "trusted_device" true)
                        (by_trust none_yet (h.0 e))).run
                      w tt;
              })
              (λ _.
                if_rule (not c.push.radius_push) _ _
                  (λ e. record {
                    run = λ w h.
                        (grant-Post {P = λ _. Unit}
                            (record_event username radius_auth "password_ok" true)
                            (by_policy none_yet (ground (arith, e)))).run
                          w tt;
                  })
                  (λ _. record { run = λ w h. (push-Post none_yet).run w h.1 })))
          (λ e w h. tt)

    told :
        (counter : ℕ)
        → Triple
            (λ _. true ≡ true → any (is_behind u.id counter) start.totps ≡ true)
            (record_event username radius_auth "code_ok" true)
            (λ _ _. true ≡ true → any (is_behind u.id counter) start.totps ≡ true)
    unfolding record_event
    told counter = record { run = λ w h. h }

    pub spend-Post :
        (counter : ℕ)
        → k.timestep ≡ some counter
        → Triple S (spend_code server r c username u k counter) Q
    unfolding spend_code
    spend-Post counter step =
        attempt_rule (totp_set_timestep u.id counter) (on_spent server r c username u k)
          (spent-Behind server r c username resp auth start u.id counter) (λ b. spent-Post b)
          (λ e. counted-Post server r c username resp auth start _ "totp_replay")
      where
        spent-Post :
            (b : Bool)
            → Triple
                (λ _. b ≡ true → any (is_behind u.id counter) start.totps ≡ true)
                (on_spent server r c username u k (ok b))
                Q
        spent-Post false = counted-Post server r c username resp auth start _ "totp_replay"
        spent-Post true =
            bind_rule (record_event username radius_auth "code_ok" true)
              (λ _. radius_trust_remember server u.id r.calling_station >> return (granted k))
              (told counter)
              (λ _. record {
                run = λ w h.
                    (grant-Post {P = λ _. Unit}
                        (radius_trust_remember server u.id r.calling_station)
                        (by_code counter step (h refl))).run
                      w tt;
              })
              (λ e w h. tt)
