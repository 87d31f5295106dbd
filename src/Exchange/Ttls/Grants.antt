-- ===== src/Exchange/Ttls/Grants.antt =====
-- eapauth.go, `handleTTLS`: what an Access-Accept of a TTLS message rests on.
use ligament_2fa.Prelude.{
  ℕ, ◌≡◌, refl, sym, ap, ◌∙◌, ◌⊎◌, arith, inl, inr, Bool, true, false, Option, none, some, [], ◌==◌,
  Bool-cases, Option-cases, length, Result, ok, err, String, Result-cases,
}
use ligament_2fa.Auth.Radius.{Answer}
use ligament_2fa.Eap.Assembler.{add}
use ligament_2fa.Eap.Avp.{InnerPap, parse_avps, complete}
use ligament_2fa.Eap.Bytes.{Bytes}
use ligament_2fa.Eap.Mschap.Keys.{bare_name}
use ligament_2fa.Eap.Packet.{Packet}
use ligament_2fa.Eap.Ttls.{parse_ttls, Ttls}
use ligament_2fa.Exchange.Reply.{Gathered-cases, Outcome, gather, gathered}
use ligament_2fa.Exchange.Reply.Fate.{
  stash-Good, Fate, OkFate, answers, errs, Good, Vouched, waits, fail_eap-Fate, pump_ttls-Fate,
  accept_eap-Fate,
}
use ligament_2fa.Exchange.Server.{Server, Request, Tls, Handshake, Chance}
use ligament_2fa.Exchange.Session.{
  Session, Phase, handshake, handshake_done, inner, stash_pending_inner,
}
use ligament_2fa.Exchange.Trust.{radius_auth_with_trust, record_event}
use ligament_2fa.Exchange.Ttls.{
  handle_ttls, ttls_message, ttls_handshake, ttls_inner, ttls_avps, finish_inner_pap, on_answer,
  shaken, ttls_pending, ttls_phase, on_payload,
}
use ligament_2fa.Store.State.{World, Error, and_then}

-- An Access-Accept of this message rests on inner PAP credentials that it brought itself: the data of the
-- packet, or of the chain of fragments that it ends, or none where it completes no chain, were decrypted,
-- after what was kept of the inner phase, to AVPs with a name and a password, and `RADIUSAuth` accepted these, for this request and in the
-- state of its handling, under the name without domain and realm. The reply attributes are those of the
-- name as it came.
pub record PapGrant (server : Server) (r : Request) (c : Chance) (tls : Tls) (p : Packet)
    (w : World) (s : Session) (given : String) : Type 0 where
  pub payload : Bytes
  pub app : Bytes
  pub pap : InnerPap
  pub reason : String
  pub brought :
      (t : Ttls) × (parse_ttls p.payload ≡ ok t)
      × (((add s.frag t).1 ≡ ok (some payload)) ⊎ (((add s.frag t).1 ≡ ok none) × (payload ≡ [])))
  pub decrypted : gather tls payload s ≡ gathered app
  pub parsed : parse_avps app ≡ ok pap
  pub whole : complete pap ≡ true
  pub named : given ≡ server.text pap.user_name
  pub checked :
      (radius_auth_with_trust server c
        (server.text (bare_name pap.user_name))
        pap.user_password
        r.calling_station
        r.src_ip
        w).0
      ≡ ok (some (true, reason))

module _ (G : String → Type 0) (V : Bytes → Type 0) (st : Bytes) (server : Server) (r : Request)
    (c : Chance) (tls : Tls) (p : Packet) (w : World) (s0 : Session)
    (allow : (name : String) → PapGrant server r c tls p w s0 name → G name) where
  -- Where the credentials of a message come from.
  abbrev Brought : Bytes → Type 0
  Brought payload =
      (t : Ttls) × (parse_ttls p.payload ≡ ok t)
      × (((add s0.frag t).1 ≡ ok (some payload)) ⊎ (((add s0.frag t).1 ≡ ok none) × (payload ≡ [])))

  abbrev Told : Bytes → Type 0
  Told app = (payload : Bytes) × (Brought payload) × (gather tls payload s0 ≡ gathered app)

  done : {o : Outcome} → Fate G V st r.eap o → OkFate G V st r.eap (ok o)
  done f = answers G V st r.eap f

  answered :
      (s : Session) (id : ℕ) (app : Bytes) (pap : InnerPap)
      → Told app
      → parse_avps app ≡ ok pap
      → complete pap ≡ true
      → Good G V st r.eap s
      → (x : Result Error Answer × World)
      → (radius_auth_with_trust server c
          (server.text (bare_name pap.user_name))
          pap.user_password
          r.calling_station
          r.src_ip
          w)
        ≡ x
      → OkFate G V st r.eap
          (and_then x (
            on_answer server r c
              (server.text (bare_name pap.user_name))
              (server.text pap.user_name)
              s
              id)).0
  unfolding record_event
  answered s id app pap t n f g (err e, w') q = errs G V st r.eap e
  answered s id app pap t n f g (ok none, w') q = done (waits s refl refl g)
  answered s id app pap t n f g (ok (some (false, reason)), w') q =
      done (fail_eap-Fate G V st r.eap (c.meanwhile s))
  answered s id app pap t n f g (ok (some (true, reason)), w') q = done (
      accept_eap-Fate G V st r.eap _ _ id (
        allow _ (record {
          payload = t.0;
          app = app;
          pap = pap;
          reason = reason;
          brought = t.1;
          decrypted = t.2;
          parsed = n;
          whole = f;
          named = refl;
          checked = ap (λ z. z.0) q;
        })))

  pap-Fate :
      (s : Session) (id : ℕ) (app : Bytes) (pap : InnerPap)
      → Told app
      → parse_avps app ≡ ok pap
      → complete pap ≡ true
      → Good G V st r.eap s
      → OkFate G V st r.eap (finish_inner_pap server r c s id pap w).0
  unfolding finish_inner_pap
  pap-Fate s id app pap t n f g = answered s id app pap t n f g _ refl

  avps-Fate :
      (s : Session) (id : ℕ) (app : Bytes)
      → Told app
      → Good G V st r.eap s
      → OkFate G V st r.eap (ttls_avps server r c tls s id app w).0
  unfolding ttls_avps
  avps-Fate s id app t g = elim (Result-cases (parse_avps app)) [
    | inr (_, e) ↦ rw (e, ttls_avps) (done (fail_eap-Fate G V st r.eap s))
    | inl (pap, e) ↦
        rw (e, ttls_avps)
          (elim (Bool-cases (complete pap)) [
            | inl f ↦ rw (f, ttls_avps) (pap-Fate s id app pap t e f g)
            | inr f ↦
                rw (f, ttls_avps)
                  (elim (Option-cases (stash_pending_inner app s)) [
                    | inl n ↦ rw (n, ttls_avps) (done (fail_eap-Fate G V st r.eap s))
                    | inr (s', n) ↦
                        rw (n, ttls_avps)
                          (done (
                            pump_ttls-Fate G V st r.eap tls [] s'
                              (stash-Good G V st r.eap app s n g)))
                  ])
          ])
  ]

  gather-same :
      (payload : Bytes) (s : Session)
      → s.pending_inner ≡ s0.pending_inner
      → gather tls payload s ≡ gather tls payload s0
  unfolding gather
  gather-same payload s k = ground (arith, k)

  inner-Fate :
      (s : Session) (id : ℕ) (payload : Bytes)
      → Brought payload
      → s.pending_inner ≡ s0.pending_inner
      → Good G V st r.eap s
      → OkFate G V st r.eap (ttls_inner server r c tls s id payload w).0
  unfolding ttls_inner
  inner-Fate s id payload b k g = elim (Gathered-cases (gather tls payload s)) [
    | inl e ↦ rw (e, ttls_inner) (done (fail_eap-Fate G V st r.eap s))
    | inr (inl e) ↦ rw (e, ttls_inner) (done (pump_ttls-Fate G V st r.eap tls [] s g))
    | inr (inr (app, e)) ↦
        rw (e, ttls_inner)
          (avps-Fate (record s { pending_inner = [] }) id app
            (payload, b, sym (gather-same payload s k) ∙ e) g)
  ]

  shaken-Fate :
      (finished : Bool) (s : Session) (h : Handshake)
      → Good G V st r.eap s
      → Fate G V st r.eap (shaken server r c tls finished s h)
  shaken-Fate true s h g =
      pump_ttls-Fate G V st r.eap tls h.output (record s { phase = inner; key_block = h.exported })
        g
  shaken-Fate false s h g = pump_ttls-Fate G V st r.eap tls h.output s g

  handshake-Fate :
      (s : Session) (payload : Bytes)
      → Good G V st r.eap s
      → Fate G V st r.eap (ttls_handshake server r c tls s payload)
  unfolding ttls_handshake
  handshake-Fate s payload g = elim (Bool-cases (length payload == 0)) [
    | inl e ↦ rw e (pump_ttls-Fate G V st r.eap tls [] s g)
    | inr e ↦ rw e (elim (Option-cases (tls.shake payload)) [
      | inl n ↦ rw n (fail_eap-Fate G V st r.eap s)
      | inr (h, n) ↦ rw n (shaken-Fate h.finished s h g)
    ])
  ]

  phase-Fate :
      (ph : Phase) (s : Session) (id : ℕ) (payload : Bytes)
      → Brought payload
      → s.pending_inner ≡ s0.pending_inner
      → Good G V st r.eap s
      → OkFate G V st r.eap (ttls_phase server r c tls ph s id payload w).0
  phase-Fate handshake s id payload b k g = done (handshake-Fate s payload g)
  phase-Fate handshake_done s id payload b k g = done (waits s refl refl g)
  phase-Fate inner s id payload b k g = inner-Fate s id payload b k g

  pending-Fate :
      (flying : Bool) (s : Session) (id : ℕ)
      → Brought []
      → s.pending_inner ≡ s0.pending_inner
      → Good G V st r.eap s
      → OkFate G V st r.eap (ttls_pending server r c tls flying s id w).0
  pending-Fate true s id b k g = done (pump_ttls-Fate G V st r.eap tls [] s g)
  pending-Fate false s id b k g = phase-Fate s.phase s id [] b k g

  payload-Fate :
      (s : Session) (id : ℕ) (out : Option Bytes)
      → ((payload : Bytes)
          → (out ≡ some payload) ⊎ ((out ≡ none) × (payload ≡ []))
          → Brought payload)
      → s.pending_inner ≡ s0.pending_inner
      → Good G V st r.eap s
      → OkFate G V st r.eap (on_payload server r c tls s id out w).0
  payload-Fate s id (some payload) b k g =
      phase-Fate s.phase s id payload (b payload (inl refl)) k g
  payload-Fate s id none b k g = pending-Fate s.frag.in_flight s id (b [] (inr (refl, refl))) k g

  message-Fate :
      (s : Session)
      → s.frag ≡ s0.frag
      → s.pending_inner ≡ s0.pending_inner
      → Good G V st r.eap s
      → OkFate G V st r.eap (ttls_message server r c tls s p w).0
  unfolding ttls_message
  message-Fate s a k g = elim (Result-cases (parse_ttls p.payload)) [
    | inr (_, e) ↦ rw (e, ttls_message) (done (fail_eap-Fate G V st r.eap s))
    | inl (t, e) ↦
        rw (e, ttls_message)
          (elim (Result-cases (add s.frag t).1) [
            | inr (_, f) ↦
                rw (f, ttls_message)
                  (done (fail_eap-Fate G V st r.eap (record s { frag = (add s.frag t).0 })))
            | inl (out, f) ↦
                rw (f, ttls_message)
                  (payload-Fate (record s { frag = (add s.frag t).0 }) p.id out
                    (λ payload o. (
                      t,
                      e,
                      elim o [
                        | inl x ↦ inl (ap (λ q. (add q t).1) (sym a) ∙ (f ∙ ap ok x))
                        | inr (x, y) ↦ inr (ap (λ q. (add q t).1) (sym a) ∙ (f ∙ ap ok x), y)
                      ],
                    ))
                    k g)
          ])
  ]

  -- A TTLS message leaves the inner state as it is, and accepts only by the inner PAP.
  pub handle_ttls-Fate :
      s0.state ≡ st
      → Vouched G V st r.eap s0
      → OkFate G V st r.eap (handle_ttls server r c tls s0 p w).0
  unfolding handle_ttls
  handle_ttls-Fate e v =
      message-Fate (record s0 { last_req = r.eap; id = p.id }) refl refl (e, (refl, v))
