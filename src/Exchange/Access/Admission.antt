-- ===== src/Exchange/Access/Admission.antt =====
-- server.go: what an Access-Accept of `handleAuth` has passed.
use ligament_2fa.Prelude.{
  ◌≡◌, refl, ap, subst, ◌⊎◌, inl, inr, Bool, true, false, not, Option, none, some, arith, ◌==◌,
  if◌then◌else◌, Result, ok, err, String,
}
use ligament_2fa.Auth.Radius.{Answer}
use ligament_2fa.Eap.Bytes.{Bytes}
use ligament_2fa.Exchange.Access.{
  Policy, Incoming, Front, Response, eap_reply, pap_accept, rejected, acct_response, Served,
  serve_as, access_request, check_request_message_authenticator, pap_answer, eap_answer, serve,
  on_verdict, past_authenticator, past_limiter, handle_auth,
}
use ligament_2fa.Exchange.Handler.{handle_eap_auth, Handled}
use ligament_2fa.Exchange.Reply.{accept, reject, challenge}
use ligament_2fa.Exchange.Server.{Server, Tls, Chance}
use ligament_2fa.Exchange.Signature.{Wire, has_message_authenticator, verify_message_authenticator}
use ligament_2fa.Exchange.Table.{Table}
use ligament_2fa.Exchange.Trust.{record_event, radius_auth_with_trust}
use ligament_2fa.Firewall.Guard.{Verdict, pass, denied, banned, check_until}
use ligament_2fa.Firewall.Net.{Net}
use ligament_2fa.RateLimit.{allow}
use ligament_2fa.Store.State.{Error, World, M, and_then, return}

-- The response is an Access-Accept.
abbrev pub is_accept : Option Response → Bool
is_accept (some (pap_accept name)) = true
is_accept (some (eap_reply (accept given pkt keys))) = true
is_accept (some (eap_reply (challenge state pkt))) = false
is_accept (some (eap_reply (reject pkt))) = false
is_accept (some rejected) = false
is_accept (some acct_response) = false
is_accept none = false

-- Where the handler returns an Access-Accept, `P`.
Post : Type 0 → Result Error Served → Type 0
Post P (ok served) = is_accept served.0 ≡ true → P
Post P (err e) = Unit

Post-map : {P Q : Type 0} → (P → Q) → (x : Result Error Served) → Post P x → Post Q x
unfolding Post
Post-map f (ok served) h = λ a. f (h a)
Post-map f (err e) h = tt

if_Post :
    (P : Type 0) (b : Bool) (m k : M Served) (w : World)
    → (b ≡ true → Post P (m w).0)
    → (b ≡ false → Post P (k w).0)
    → Post P ((if b then m else k) w).0
if_Post P true m k w on_true on_false = on_true refl
if_Post P false m k w on_true on_false = on_false refl

gate_passes :
    (has good required : Bool) (m k : M Bool) (w : World)
    → (m w).0 ≡ ok false
    → (k w).0 ≡ ok false
    → ((if has then (if good then return true else m) else (if required then k else return true))
        w).0
      ≡ ok true
    → ((has ≡ true) × (good ≡ true)) ⊎ ((has ≡ false) × (required ≡ false))
gate_passes true true required m k w a b e = inl (refl, refl)
gate_passes true false required m k w a b e = absurd (cc (a, e))
gate_passes false good true m k w a b e = absurd (cc (b, e))
gate_passes false good false m k w a b e = inr (refl, refl)

module _ (server : Server) (wire : Wire) (net : Net) (policy : Policy) (c : Chance) (tls : Tls)
    (i : Incoming) where
  -- What has granted access: the authentication of a PAP request, or the EAP handler.
  pub data Ground (t : Table) : Type 0 where
    by_password :
        (w : World) (reason : String)
        → i.eap ≡ none
        → (radius_auth_with_trust server c i.user_name i.password i.request.calling_station
            i.request.src_ip w).0
          ≡ ok (some (true, reason))
        → Ground t
    by_eap :
        (w : World) (raw : Bytes) (given : String) (pkt : Bytes) (keys : Option (Bytes × Bytes))
        (t' : Table)
        → i.eap ≡ some raw
        → (handle_eap_auth server (record (i.request) { eap = raw }) c tls t w).0
          ≡ ok (some (accept given pkt keys), t')
        → Ground t

  -- The Message-Authenticator is right, or there is none and the settings let it pass.
  abbrev pub Authentic : Type 0
  Authentic =
      ((has_message_authenticator i.packet ≡ true)
        × (verify_message_authenticator wire i.packet ≡ true))
      ⊎ ((has_message_authenticator i.packet ≡ false)
          × (policy.require_message_authenticator ≡ false))

  abbrev pub Unblocked : Front → Type 0
  Unblocked f = policy.has_firewall ≡ true → (check_until net i.request.src_ip f.guard).0.0 ≡ pass

  pub record Admitted (f : Front) : Type 0 where
    pub is_request : i.packet.code ≡ access_request
    pub within : (allow i.request.src_ip policy.limit_pps i.time f.limiter).0 ≡ true
    pub authentic : Authentic
    pub unblocked : Unblocked f
    pub ground : Ground f.table

  pap-Post :
      (f : Front) (w : World) (x : Result Error Answer × World)
      → i.eap ≡ none
      → radius_auth_with_trust server c i.user_name i.password i.request.calling_station
          i.request.src_ip w
        ≡ x
      → Post
          (Ground f.table)
          (and_then x (λ a. return (pap_answer server wire net policy c tls i f a))).0
  unfolding Post
  pap-Post f w (ok (some (true, reason)), w') n q = λ _. by_password w reason n (ap (λ z. z.0) q)
  pap-Post f w (ok (some (false, reason)), w') n q = λ e. absurd (cc e)
  pap-Post f w (ok none, w') n q = λ e. absurd (cc e)
  pap-Post f w (err e, w') n q = tt

  eap-Post :
      (f : Front) (w : World) (raw : Bytes) (x : Result Error Handled × World)
      → i.eap ≡ some raw
      → handle_eap_auth server (record (i.request) { eap = raw }) c tls f.table w ≡ x
      → Post
          (Ground f.table)
          (and_then x (λ h. return (eap_answer server wire net policy c tls f h))).0
  unfolding Post
  eap-Post f w raw (ok (some (accept given pkt keys), t), w') n q =
      λ _. by_eap w raw given pkt keys t n (ap (λ z. z.0) q)
  eap-Post f w raw (ok (some (reject pkt), t), w') n q = λ e. absurd (cc e)
  eap-Post f w raw (ok (some (challenge st pkt), t), w') n q = λ e. absurd (cc e)
  eap-Post f w raw (ok (none, t), w') n q = λ e. absurd (cc e)
  eap-Post f w raw (err e, w') n q = tt

  as-Post :
      (f : Front) (w : World) (e : Option Bytes)
      → i.eap ≡ e
      → Post (Ground f.table) (serve_as server wire net policy c tls i f e w).0
  as-Post f w none n = pap-Post f w _ n refl
  as-Post f w (some raw) n = eap-Post f w raw _ n refl

  serve-Post :
      (f : Front) (w : World) → Post (Ground f.table) (serve server wire net policy c tls i f w).0
  unfolding serve
  serve-Post f w = as-Post f w i.eap refl

  verdict-Post :
      (f : Front) (v : Verdict) (w : World)
      → Post ((v ≡ pass) × Ground f.table) (on_verdict server wire net policy c tls i f v w).0
  unfolding Post
  verdict-Post f pass w = Post-map (λ g. (refl, g)) _ (serve-Post f w)
  verdict-Post f denied w = λ e. absurd (cc e)
  verdict-Post f banned w = λ e. absurd (cc e)

  walled-Post :
      (f : Front) (w : World)
      → Post
          (Unblocked f × Ground f.table)
          (past_authenticator server wire net policy c tls i f w).0
  unfolding past_authenticator
  walled-Post f w =
      if_Post _ policy.has_firewall _ _ w
        (λ e.
          Post-map (λ g. ((λ _. g.0), g.1)) _
            (verdict-Post (record f { guard = (check_until net i.request.src_ip f.guard).1 })
              (check_until net i.request.src_ip f.guard).0.0 w))
        (λ e. Post-map (λ g. ((λ h. absurd (cc (h, e))), g)) _ (serve-Post f w))

  -- The check of the Message-Authenticator lets only authentic packets pass.
  checked-Authentic :
      (w : World)
      → (check_request_message_authenticator server wire net policy c tls i w).0 ≡ ok true
      → Authentic
  unfolding check_request_message_authenticator record_event
  checked-Authentic w = gate_passes _ _ _ _ _ w refl refl

  admitted-Post :
      (f : Front) (w : World) (x : Result Error Bool × World)
      → check_request_message_authenticator server wire net policy c tls i w ≡ x
      → Post
          (Authentic × (Unblocked f × Ground f.table))
          (and_then x (λ good.
            if good
            then past_authenticator server wire net policy c tls i f
            else return (none, f))).0
  unfolding Post
  admitted-Post f w (ok true, v) q =
      Post-map (λ g. (checked-Authentic w (ap (λ z. z.0) q), g)) _ (walled-Post f v)
  admitted-Post f w (ok false, v) q = λ e. absurd (cc e)
  admitted-Post f w (err e, v) q = tt

  limited-Post :
      (f : Front) (w : World)
      → Post
          (Authentic × (Unblocked f × Ground f.table))
          (past_limiter server wire net policy c tls i f w).0
  unfolding past_limiter
  limited-Post f w = admitted-Post f w _ refl

  handled-Post :
      (f : Front) (w : World) → Post (Admitted f) (handle_auth server wire net policy c tls i f w).0
  unfolding handle_auth Post
  handled-Post f w =
      if_Post _ (not (i.packet.code == access_request)) _ _ w (λ e a. absurd (cc a))
        (λ e.
          if_Post _ (allow i.request.src_ip policy.limit_pps i.time f.limiter).0 _ _ w
            (λ t.
              Post-map
                (λ g. record {
                  is_request = ground (arith, e);
                  within = t;
                  authentic = g.0;
                  unblocked = g.1.0;
                  ground = g.1.1;
                })
                _ (limited-Post _ w))
            (λ t a. absurd (cc a)))

  -- `handleAuth` sends an Access-Accept only in answer to an Access-Request that its source's limit let
  -- pass, whose Message-Authenticator is right or that has none where the settings do not require it, and
  -- whose source the firewall, if there is one, neither denies nor bans; and only where the password of
  -- a PAP request was accepted by RADIUS authentication, or where the EAP handler accepts.
  pub accept-Admitted :
      (f f' : Front) (w : World) (response : Response)
      → (handle_auth server wire net policy c tls i f w).0 ≡ ok (some response, f')
      → is_accept (some response) ≡ true
      → Admitted f
  unfolding Post
  accept-Admitted f f' w response e = subst (Post (Admitted f)) e (handled-Post f w)
