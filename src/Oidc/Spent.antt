-- ===== src/Oidc/Spent.antt =====
-- oidc.go: a code that has been claimed stays so.
use ligament_2fa.Prelude.{
  ℕ, ◌+◌, ◌≡◌, refl, ◌≢◌, Bool, false, not, ◌||◌, none, List, [], ◌∷◌, arith, ltb, ◌==◌, Result, ok,
  err, any, select, update_where, find, String, str_eq,
}
use ligament_2fa.Auth.Audit.{user_by_id}
use ligament_2fa.Exchange.Trust.{record_event}
use ligament_2fa.Oidc.{
  Provider, TokenRequest, issued, handle_token, redeem, issue, on_saved, announce, access_token_ttl,
  on_owner, on_claimed, on_client, refuse_client, fits_code, is_empty, is_missing,
  verify_client_secret,
}
use ligament_2fa.Store.Oidc.{
  oidc_client_by_client_id, oidc_code_claim, oidc_token_save, oidc_code_save, code_claimable,
  use_code,
}
use ligament_2fa.Store.State.{return, OidcClient, User, Error, World, Event, OidcCode, OidcToken}
use ligament_2fa.Store.Triple.{Keeps, Keeps-bind, Keeps-attempt, if_rule}

-- No row of the hash can be claimed at the time, nor later.
abbrev pub Spent : ℕ → World → Type 0
Spent h w = any (code_claimable h w.now) w.oidc_codes ≡ false

update-Spent :
    (h now : ℕ) (cs : List OidcCode)
    → any (code_claimable h now) (update_where (code_claimable h now) (use_code now) cs) ≡ false
update-Spent h now [] = refl
update-Spent h now (c ∷ cs) = ground (arith, update-Spent h now cs)

other-Spent :
    (h j now : ℕ) (cs : List OidcCode)
    → any (code_claimable h now) cs ≡ false
    → any (code_claimable h now) (update_where (code_claimable j now) (use_code now) cs) ≡ false
other-Spent h j now [] e = refl
other-Spent h j now (c ∷ cs) e = ground (arith, other-Spent h j now cs)

pub later-Spent :
    (h now n : ℕ) (cs : List OidcCode)
    → any (code_claimable h now) cs ≡ false
    → any (code_claimable h (now + n)) cs ≡ false
later-Spent h now n [] e = refl
later-Spent h now n (c ∷ cs) e = ground (arith, later-Spent h now n cs)

select-Spent :
    (h now t : ℕ) (cs : List OidcCode)
    → any (code_claimable h now) cs ≡ false
    → any (code_claimable h now) (select (λ d. not (ltb d.expires_at t)) cs) ≡ false
select-Spent h now t [] e = refl
select-Spent h now t (c ∷ cs) e = ground (arith, select-Spent h now t cs)

none_found :
    (h now : ℕ) (cs : List OidcCode)
    → any (code_claimable h now) cs ≡ false
    → find (code_claimable h now) cs ≡ none
none_found h now [] e = refl
none_found h now (c ∷ cs) e = ground (arith, none_found h now cs)

claim-Spent : (h j : ℕ) (w : World) → Spent h w → Spent h (oidc_code_claim j w).1
unfolding oidc_code_claim
claim-Spent h j w e = ground (arith, other-Spent h j w.now w.oidc_codes e)

pub claim_refused : (h : ℕ) (w : World) (c : OidcCode) → Spent h w → (oidc_code_claim h w).0 ≢ ok c
unfolding oidc_code_claim
claim_refused h w c e = ground (arith, none_found h w.now w.oidc_codes e)

pub claim_spends :
    (h : ℕ) (w : World) (c : OidcCode)
    → (oidc_code_claim h w).0 ≡ ok c
    → Spent h (oidc_code_claim h w).1
unfolding oidc_code_claim
claim_spends h w c e = ground (arith, update-Spent h w.now w.oidc_codes)

pub save-Spent :
    (h ttl : ℕ) (c : OidcCode) (w : World)
    → (c.code_hash == h) ≡ false
    → Spent h w
    → Spent h (oidc_code_save c ttl w).1
unfolding oidc_code_save
save-Spent h ttl c w f e = ground (arith, select-Spent h w.now w.now w.oidc_codes e)

module _ (h : ℕ) where
  user-Keeps : (i : ℕ) → Keeps (Spent h) (user_by_id i)
  unfolding user_by_id
  user-Keeps i = record { run = λ w e. ground arith }

  pub client-Keeps : (i : String) → Keeps (Spent h) (oidc_client_by_client_id i)
  unfolding oidc_client_by_client_id
  client-Keeps i = record { run = λ w e. ground arith }

  pub event-Keeps :
      (n : String) (v : Event) (r : String) (b : Bool) → Keeps (Spent h) (record_event n v r b)
  unfolding record_event
  event-Keeps n v r b = record { run = λ w e. ground arith }

  token-Keeps : (t : OidcToken) (ttl : ℕ) → Keeps (Spent h) (oidc_token_save t ttl)
  unfolding oidc_token_save
  token-Keeps t ttl = record { run = λ w e. ground arith }

  stays : {A : Type 0} (a : A) → Keeps (Spent h) (return a)
  stays a = record { run = λ w e. e }

  claim-Keeps : (j : ℕ) → Keeps (Spent h) (oidc_code_claim j)
  claim-Keeps j = record { run = λ w e. claim-Spent h j w e }

  module _ (p : Provider) (q : TokenRequest) where
    announce-Keeps : (c : OidcCode) (u : User) → Keeps (Spent h) (announce p q c u)
    announce-Keeps c u = Keeps-bind _ _ (event-Keeps _ _ _ _) (λ _. stays (issued q.access u c))

    saved-Keeps :
        (c : OidcCode) (u : User) (r : Result Error (Unit {0}))
        → Keeps (Spent h) (on_saved p q c u r)
    saved-Keeps c u (ok _) = if_rule p.signs _ _ (λ _. announce-Keeps c u) (λ _. stays _)
    saved-Keeps c u (err e) = stays _

    issue-Keeps : (cl : OidcClient) (c : OidcCode) (u : User) → Keeps (Spent h) (issue p q cl c u)
    unfolding issue
    issue-Keeps cl c u = Keeps-attempt _ _ (token-Keeps _ access_token_ttl) (saved-Keeps c u)

    owner-Keeps :
        (cl : OidcClient) (c : OidcCode) (r : Result Error User)
        → Keeps (Spent h) (on_owner p q cl c r)
    owner-Keeps cl c (ok u) = issue-Keeps cl c u
    owner-Keeps cl c (err e) = stays _

    pub code-Keeps : (cl : OidcClient) (c : OidcCode) → Keeps (Spent h) (on_claimed p q cl (ok c))
    code-Keeps cl c =
        if_rule (fits_code p q cl c) _ _
          (λ _. Keeps-attempt _ _ (user-Keeps c.user_id) (owner-Keeps cl c)) (λ _. stays _)

    claimed-Keeps :
        (cl : OidcClient) (r : Result Error OidcCode) → Keeps (Spent h) (on_claimed p q cl r)
    claimed-Keeps cl (ok c) = code-Keeps cl c
    claimed-Keeps cl (err e) = if_rule (is_missing p q e) _ _ (λ _. stays _) (λ _. stays _)

    redeem-Keeps : (cl : OidcClient) → Keeps (Spent h) (redeem p q cl)
    unfolding redeem
    redeem-Keeps cl =
        if_rule (is_empty q.code || str_eq q.redirect_uri "") _ _ (λ _. stays _)
          (λ _. Keeps-attempt _ _ (claim-Keeps _) (claimed-Keeps cl))

    refuse-Keeps : (r : String) → Keeps (Spent h) (refuse_client p q r)
    refuse-Keeps r = Keeps-bind _ _ (event-Keeps _ _ _ _) (λ _. stays _)

    client-Kept : (r : Result Error OidcClient) → Keeps (Spent h) (on_client p q r)
    client-Kept (ok cl) =
        if_rule (cl.is_public || verify_client_secret p cl.client_secret_hash q.client_secret) _ _
          (λ _. redeem-Keeps cl) (λ _. refuse-Keeps "bad_secret")
    client-Kept (err e) =
        if_rule (is_missing p q e) _ _ (λ _. refuse-Keeps "unknown_client") (λ _. stays _)

    pub handle-Keeps : Keeps (Spent h) (handle_token p q)
    unfolding handle_token
    handle-Keeps =
        if_rule (not (str_eq q.grant_type "authorization_code")) _ _ (λ _. stays _)
          (λ _.
            if_rule (not q.within_limit) _ _ (λ _. stays _)
              (λ _. Keeps-attempt _ _ (client-Keeps q.client_id) client-Kept))
