-- ===== src/Oidc/SingleUse.antt =====
-- oidc.go and handlers.go: an authorization code is redeemed at most once.
use ligament_2fa.Prelude.{
  ℕ, ◌+◌, ◌≡◌, refl, subst, Bool, true, false, not, ◌||◌, List, [], ◌∷◌, ◌==◌, All, Result, ok, err,
  is_ok, String, str_eq,
}
use ligament_2fa.Exchange.Trust.{record_event}
use ligament_2fa.Oidc.{
  Provider, TokenRequest, TokenReply, refused, issued, handle_token, redeem, on_claimed, on_client,
  refuse_client, is_empty, is_missing, verify_client_secret,
}
use ligament_2fa.Oidc.Spent.{
  Spent, save-Spent, later-Spent, claim_refused, claim_spends, client-Keeps, event-Keeps,
  code-Keeps, handle-Keeps,
}
use ligament_2fa.Store.Oidc.{oidc_client_by_client_id, oidc_code_claim, oidc_code_save}
use ligament_2fa.Store.State.{return, OidcClient, Error, World, OidcCode, oidc_token_fail}
use ligament_2fa.Store.Triple.{Triple, Keeps, attempt_rule, bind_rule, if_rule}

-- The answer holds tokens.
abbrev pub is_issued : Result Error TokenReply → Bool
is_issued (ok (issued access user code)) = true
is_issued (ok (refused status why)) = false
is_issued (err e) = false

module _ (p : Provider) (q : TokenRequest) (P : World → Type 0)
    (Q : Result Error TokenReply → World → Type 0)
    (calm : (r : Result Error TokenReply) (w : World) → is_issued r ≡ false → P w → Q r w)
    (client : Keeps P (oidc_client_by_client_id q.client_id))
    (logs : (r : String) → Keeps P (record_event "" oidc_token_fail r false))
    (pays : (cl : OidcClient) → Triple P (redeem p q cl) Q) where
  calmly : (status : ℕ) (why : String) → Triple P (return (refused status why)) Q
  calmly status why = record { run = λ w e. calm _ w refl e }

  refuse-Post : (r : String) → Triple P (refuse_client p q r) Q
  refuse-Post r = bind_rule _ _ (logs r) (λ _. calmly _ _) (λ e w h. calm _ w refl h)

  client-Post : (r : Result Error OidcClient) → Triple P (on_client p q r) Q
  client-Post (ok cl) =
      if_rule (cl.is_public || verify_client_secret p cl.client_secret_hash q.client_secret) _ _
        (λ _. pays cl) (λ _. refuse-Post "bad_secret")
  client-Post (err e) =
      if_rule (is_missing p q e) _ _ (λ _. refuse-Post "unknown_client") (λ _. calmly _ _)

  handle-Post : Triple P (handle_token p q) Q
  unfolding handle_token
  handle-Post =
      if_rule (not (str_eq q.grant_type "authorization_code")) _ _ (λ _. calmly _ _)
        (λ _.
          if_rule (not q.within_limit) _ _ (λ _. calmly _ _)
            (λ _.
              attempt_rule _ (on_client p q) client (λ cl. client-Post (ok cl))
                (λ e. client-Post (err e))))

module _ (p : Provider) (q : TokenRequest) where
  abbrev Spends : Result Error TokenReply → World → Type 0
  Spends r w = is_issued r ≡ true → Spent (p.sha256 q.code) w

  abbrev Refuses : Result Error TokenReply → World → Type 0
  Refuses r w = is_issued r ≡ false

  abbrev Anything : World → Type 0
  Anything w = Unit

  claim_first :
      Triple Anything
        (oidc_code_claim (p.sha256 q.code))
        (λ r w. is_ok r ≡ true → Spent (p.sha256 q.code) w)
  claim_first = record { run = λ w _. go w _ refl }
    where
      go :
          (w : World) (r : Result Error OidcCode)
          → (oidc_code_claim (p.sha256 q.code) w).0 ≡ r
          → is_ok r ≡ true
          → Spent (p.sha256 q.code) (oidc_code_claim (p.sha256 q.code) w).1
      go w (ok c) e _ = claim_spends (p.sha256 q.code) w c e
      go w (err x) e h = absurd (cc h)

  -- A refusal holds no tokens.
  unspent :
      {P : World → Type 0} (status : ℕ) (why : String)
      → Triple P (return (refused status why)) Spends
  unspent status why = record { run = λ w _ h. absurd (cc h) }

  dry :
      {P : World → Type 0} (status : ℕ) (why : String)
      → Triple P (return (refused status why)) Refuses
  dry status why = record { run = λ w _. refl }

  redeem_first : (cl : OidcClient) → Triple Anything (redeem p q cl) Spends
  unfolding redeem
  redeem_first cl =
      if_rule (is_empty q.code || str_eq q.redirect_uri "") _ _ (λ _. unspent _ _)
        (λ _.
          attempt_rule _ (on_claimed p q cl) claim_first
            (λ c. record { run = λ w e _. (code-Keeps (p.sha256 q.code) p q cl c).run w (e refl) })
            (λ x.
              if_rule (is_missing p q x) (return (refused 400 "invalid_grant"))
                (return (refused 500 "server_error")) (λ _. unspent _ _) (λ _. unspent _ _)))

  claim_again :
      Triple (Spent (p.sha256 q.code)) (oidc_code_claim (p.sha256 q.code)) (λ r w. is_ok r ≡ false)
  claim_again = record { run = λ w e. go w e _ refl }
    where
      go :
          (w : World)
          → Spent (p.sha256 q.code) w
          → (r : Result Error OidcCode) → (oidc_code_claim (p.sha256 q.code) w).0 ≡ r
          → is_ok r ≡ false
      go w s (ok c) e = absurd (claim_refused (p.sha256 q.code) w c s e)
      go w s (err x) e = refl

  redeem_again : (cl : OidcClient) → Triple (Spent (p.sha256 q.code)) (redeem p q cl) Refuses
  unfolding redeem
  redeem_again cl =
      if_rule (is_empty q.code || str_eq q.redirect_uri "") _ _ (λ _. dry _ _)
        (λ _.
          attempt_rule _ (on_claimed p q cl) claim_again
            (λ c. record { run = λ w e. absurd (cc e) })
            (λ x.
              if_rule (is_missing p q x) (return (refused 400 "invalid_grant"))
                (return (refused 500 "server_error")) (λ _. dry _ _) (λ _. dry _ _)))

  token-Spends : Triple Anything (handle_token p q) Spends
  token-Spends =
      handle-Post p q Anything Spends (λ r w e _ h. absurd (cc (h, e))) (record { run = λ w _. tt })
        (λ r. record { run = λ w _. tt }) redeem_first

  token_refused : Triple (Spent (p.sha256 q.code)) (handle_token p q) Refuses
  token_refused =
      handle-Post p q (Spent (p.sha256 q.code)) Refuses (λ r w e _. e) (client-Keeps _ _)
        (λ r. event-Keeps _ _ _ _ _) redeem_again

-- What may happen between two token requests: other codes are saved, other requests come, time passes,
-- and the database begins to fail or recovers.
pub data OidcOp : Type 0 where
  saves : OidcCode → ℕ → OidcOp
  requests : Provider → TokenRequest → OidcOp
  passes : ℕ → OidcOp
  faults_with : List Bool → OidcOp

unfoldable pub apply_oidc : OidcOp → World → World
apply_oidc (saves c ttl) w = (oidc_code_save c ttl w).1
apply_oidc (requests p q) w = (handle_token p q w).1
apply_oidc (passes n) w = record w { now = w.now + n }
apply_oidc (faults_with fs) w = record w { faults = fs }

unfoldable pub run_oidc : List OidcOp → World → World
run_oidc [] w = w
run_oidc (o ∷ os) w = run_oidc os (apply_oidc o w)

-- Codes that are saved have other hashes.
abbrev pub SavesOther : ℕ → OidcOp → Type 0
SavesOther h (saves c ttl) = (c.code_hash == h) ≡ false
SavesOther h _ = Unit

apply-Spent :
    (h : ℕ) (o : OidcOp) (w : World) → SavesOther h o → Spent h w → Spent h (apply_oidc o w)
unfolding apply_oidc
apply-Spent h (saves c ttl) w f e = save-Spent h ttl c w f e
apply-Spent h (requests p q) w f e = (handle-Keeps h p q).run w e
apply-Spent h (passes n) w f e = later-Spent h w.now n w.oidc_codes e
apply-Spent h (faults_with fs) w f e = e

run-Spent :
    (h : ℕ) (os : List OidcOp) (w : World)
    → All (SavesOther h) os
    → Spent h w
    → Spent h (run_oidc os w)
unfolding run_oidc
run-Spent h [] w f e = e
run-Spent h (o ∷ os) w f e = run-Spent h os (apply_oidc o w) f.1 (apply-Spent h o w f.0 e)

-- An authorization code is redeemed at most once: after a token request that was answered with tokens, a
-- request with a code of the same hash gets none, whatever requests, saved codes of other hashes,
-- passing time and failing queries come between.
pub code_once :
    (p : Provider) (q q' : TokenRequest) (w : World) (os : List OidcOp)
    → is_issued (handle_token p q w).0 ≡ true
    → p.sha256 q.code ≡ p.sha256 q'.code
    → All (SavesOther (p.sha256 q'.code)) os
    → is_issued (handle_token p q' (run_oidc os (handle_token p q w).1)).0 ≡ false
code_once p q q' w os e same f = (token_refused p q').run _ (
    run-Spent _ os _ f
      (subst (λ h. Spent h (handle_token p q w).1) same ((token-Spends p q).run w tt e)))
