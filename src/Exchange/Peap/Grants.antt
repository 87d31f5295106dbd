-- ===== src/Exchange/Peap/Grants.antt =====
-- eapauth.go, `handlePEAP`: what an Access-Accept of a PEAP message rests on.
use ligament_2fa.Prelude.{
  ℕ, ◌≡◌, refl, sym, ap, ◌∙◌, ◌⊎◌, arith, subst, inl, inr, Bool, true, false, Option, none, some,
  [], ◌∷◌, ◌==◌, Bool-cases, Option-cases, length, ok, String, Result-cases, some_injective,
}
use ligament_2fa.Eap.Bytes.{Bytes}
use ligament_2fa.Eap.Mschap.{MschapResponse, parse_mschap_response}
use ligament_2fa.Eap.Packet.{Packet}
use ligament_2fa.Eap.Peap.{parse_peap, add_peap, Peap}
use ligament_2fa.Exchange.Factors.{Candidate, granted, authenticate}
use ligament_2fa.Exchange.Inner.{handle_peap_inner, claimed_name}
use ligament_2fa.Exchange.Inner.Grants.{Minted, Quiet, send-Fate, step-Fate}
use ligament_2fa.Exchange.Peap.{
  frame_inner, stash_and_pump, with_rest, peap_plaintext, peap_inner, peap_shaken, peap_handshake,
  framed, peap_begin, peap_phase, peap_pending, on_payload, peap_message, handle_peap, Framed-cases,
}
use ligament_2fa.Exchange.Reply.{Outcome, gather, gathered, Gathered-cases}
use ligament_2fa.Exchange.Reply.Fate.{
  Fate, OkFate, Good, Vouched, answers, fail_eap-Fate, pump_peap-Fate, stash-Good,
}
use ligament_2fa.Exchange.Server.{Server, Request, Tls, Handshake, Chance}
use ligament_2fa.Exchange.Session.{
  Session, Phase, handshake, handshake_done, inner, wait_response, stash_pending_inner,
}
use ligament_2fa.Store.State.{World}

-- An MS-CHAPv2 response that this message brought itself was granted access: the data of the packet, or
-- of the chain of fragments that it ends, or none where it completes no chain, were decrypted, after what
-- was kept of the inner phase, to an inner packet with the response; the session awaited it; and its checks against the session's challenge,
-- for this request and in the state of its handling, granted access under the name that the response
-- claims.
pub record MschapGrant (server : Server) (r : Request) (c : Chance) (tls : Tls) (p : Packet)
    (w : World) (s : Session) (given : String) : Type 0 where
  pub payload : Bytes
  pub app : Bytes
  pub packet : Packet
  pub rest : Bytes
  pub resp : MschapResponse
  pub candidate : Candidate
  pub brought :
      (t : Peap) × (parse_peap p.payload ≡ ok t)
      × (((add_peap s.frag t).1 ≡ ok (some payload))
          ⊎ (((add_peap s.frag t).1 ≡ ok none) × (payload ≡ [])))
  pub decrypted : gather tls payload s ≡ gathered app
  pub split : frame_inner s.inner_req_id app ≡ framed packet rest
  pub awaited : s.inner_state ≡ wait_response
  pub parsed : parse_mschap_response packet.payload ≡ ok resp
  pub named : given ≡ server.text (claimed_name server r c tls resp s)
  pub checked : (authenticate server r c given resp s.auth_challenge w).0 ≡ ok (granted candidate)

module _ (G M : String → Type 0) (st : Bytes) (server : Server) (r : Request) (c : Chance)
    (tls : Tls) (p : Packet) (w : World) (s0 : Session) (quiet : Quiet c)
    (allow : (n : String) → M n → G n)
    (mint : (n : String) → MschapGrant server r c tls p w s0 n → M n) where
  abbrev W : Bytes → Type 0
  W identity = M (server.text identity)

  abbrev Brought : Bytes → Type 0
  Brought payload =
      (t : Peap) × (parse_peap p.payload ≡ ok t)
      × (((add_peap s0.frag t).1 ≡ ok (some payload))
          ⊎ (((add_peap s0.frag t).1 ≡ ok none) × (payload ≡ [])))

  abbrev Told : Bytes → Type 0
  Told app = (payload : Bytes) × (Brought payload) × (gather tls payload s0 ≡ gathered app)

  -- What of the session the inner phase starts from.
  abbrev Entered : Session → Type 0
  Entered s =
      (s.inner_req_id ≡ s0.inner_req_id)
      × (s.inner_state ≡ s0.inner_state)
      × (s.auth_challenge ≡ s0.auth_challenge)
      × (s.outer_identity ≡ s0.outer_identity)

  rest-Entered :
      (rest : Bytes) (s : Session) {s' : Session}
      → with_rest server r c tls rest s ≡ some s'
      → Entered s
      → Entered s'
  unfolding stash_pending_inner
  rest-Entered [] s e h = subst Entered (some_injective e) h
  rest-Entered (b ∷ bs) s e h = ground (arith, e, h)

  minted :
      (app rest : Bytes) (packet : Packet) (s : Session)
      → Told app
      → frame_inner s0.inner_req_id app ≡ framed packet rest
      → Entered s
      → Minted G M st server r c tls packet w quiet allow s
  minted app rest packet s t f (n, i, a, o) resp k e h x =
      let claimed : claimed_name server r c tls resp s ≡ claimed_name server r c tls resp s0 =
        rw o refl in
      subst (λ z. M (server.text z)) (sym claimed)
        (mint _ (record {
          payload = t.0;
          app = app;
          packet = packet;
          rest = rest;
          resp = resp;
          candidate = k;
          brought = t.1;
          decrypted = t.2;
          split = f;
          awaited = sym i ∙ e;
          parsed = h;
          named = refl;
          checked = rw (← claimed, ← a) x;
        }))

  done : {o : Outcome} → Fate G W st r.eap o → OkFate G W st r.eap (ok o)
  done f = answers G W st r.eap f

  rest-Good :
      (rest : Bytes) (s : Session) {s' : Session}
      → with_rest server r c tls rest s ≡ some s'
      → Good G W st r.eap s
      → Good G W st r.eap s'
  rest-Good [] s e g = subst (Good G W st r.eap) (some_injective e) g
  rest-Good (b ∷ bs) s e g = stash-Good G W st r.eap (b ∷ bs) s e g

  stashed-Fate :
      (app : Bytes) (s : Session)
      → Good G W st r.eap s
      → Fate G W st r.eap (stash_and_pump server r c tls app s)
  stashed-Fate app s g = elim (Option-cases (stash_pending_inner app s)) [
    | inl n ↦ rw (n, stash_and_pump) (fail_eap-Fate G W st r.eap s)
    | inr (s', n) ↦
        rw (n, stash_and_pump)
          (pump_peap-Fate G W st r.eap tls [] [] s' (stash-Good G W st r.eap app s n g))
  ]

  plaintext-Fate :
      (s : Session) (id : ℕ) (app : Bytes)
      → Told app
      → Entered s
      → Good G W st r.eap s
      → OkFate G W st r.eap (peap_plaintext server r c tls s id app w).0
  unfolding peap_plaintext handle_peap_inner
  plaintext-Fate s id app t i g = elim (Bool-cases (length app == 0)) [
    | inl e ↦ rw (e, peap_plaintext) (done (pump_peap-Fate G W st r.eap tls [] [] s g))
    | inr e ↦
        rw (e, peap_plaintext)
          (elim (Framed-cases (frame_inner s.inner_req_id app)) [
            | inl f ↦ rw (f, peap_plaintext) (done (fail_eap-Fate G W st r.eap s))
            | inr (inl f) ↦ rw (f, peap_plaintext) (done (stashed-Fate app s g))
            | inr (inr (packet, (rest, f))) ↦
                rw (f, peap_plaintext)
                  (elim (Option-cases (with_rest server r c tls rest s)) [
                    | inl n ↦ rw (n, peap_plaintext) (done (fail_eap-Fate G W st r.eap s))
                    | inr (s', n) ↦
                        rw (n, peap_plaintext)
                          (step-Fate G M st server r c tls packet w quiet allow s'.inner_state s' id
                            (minted app rest packet s' t (ap (λ z. frame_inner z app) (sym i.0) ∙ f)
                              (rest-Entered rest s n i))
                            refl (rest-Good rest s n g))
                  ])
          ])
  ]

  gather-same :
      (payload : Bytes) (s : Session)
      → s.pending_inner ≡ s0.pending_inner
      → gather tls payload s ≡ gather tls payload s0
  unfolding gather
  gather-same payload s k = ground (arith, k)

  inner-Fate :
      (s : Session) (id : ℕ) (payload : Bytes)
      → Brought payload
      → s.pending_inner ≡ s0.pending_inner
      → Entered s
      → Good G W st r.eap s
      → OkFate G W st r.eap (peap_inner server r c tls s id payload w).0
  unfolding peap_inner
  inner-Fate s id payload b k i g = elim (Gathered-cases (gather tls payload s)) [
    | inl e ↦ rw (e, peap_inner) (done (fail_eap-Fate G W st r.eap s))
    | inr (inl e) ↦ rw (e, peap_inner) (done (pump_peap-Fate G W st r.eap tls [] [] s g))
    | inr (inr (app, e)) ↦
        rw (e, peap_inner)
          (plaintext-Fate (record s { pending_inner = [] }) id app
            (payload, b, sym (gather-same payload s k) ∙ e) i g)
  ]

  shaken-Fate :
      (finished : Bool) (s : Session) (h : Handshake)
      → Good G W st r.eap s
      → Fate G W st r.eap (peap_shaken server r c tls finished s h)
  shaken-Fate true s h g =
      pump_peap-Fate G W st r.eap tls [] h.output
        (record s { phase = handshake_done; key_block = h.exported }) g
  shaken-Fate false s h g = pump_peap-Fate G W st r.eap tls [] h.output s g

  handshake-Fate :
      (s : Session) (payload : Bytes)
      → Good G W st r.eap s
      → Fate G W st r.eap (peap_handshake server r c tls s payload)
  unfolding peap_handshake
  handshake-Fate s payload g = elim (Bool-cases (length payload == 0)) [
    | inl e ↦ rw e (pump_peap-Fate G W st r.eap tls [] [] s g)
    | inr e ↦ rw e (elim (Option-cases (tls.shake payload)) [
      | inl n ↦ rw n (fail_eap-Fate G W st r.eap s)
      | inr (h, n) ↦ rw n (shaken-Fate h.finished s h g)
    ])
  ]

  begin-Fate : (s : Session) → Good G W st r.eap s → Fate G W st r.eap (peap_begin server r c tls s)
  unfolding peap_begin
  begin-Fate s g =
      send-Fate G M st server r c tls p w quiet allow _
        (record s {
          phase = inner;
          auth_challenge = c.challenge;
          inner_req_id = 1;
          inner_mschap_id = 1;
          inner_state = wait_response;
        })
        (g.0, (g.1.0, λ x. absurd x))

  phase-Fate :
      (ph : Phase) (s : Session) (id : ℕ) (payload : Bytes)
      → Brought payload
      → s.pending_inner ≡ s0.pending_inner
      → Entered s
      → Good G W st r.eap s
      → OkFate G W st r.eap (peap_phase server r c tls ph s id payload w).0
  phase-Fate handshake s id payload b k i g = done (handshake-Fate s payload g)
  phase-Fate handshake_done s id payload b k i g = done (begin-Fate s g)
  phase-Fate inner s id payload b k i g = inner-Fate s id payload b k i g

  pending-Fate :
      (flying : Bool) (s : Session) (id : ℕ)
      → Brought []
      → s.pending_inner ≡ s0.pending_inner
      → Entered s
      → Good G W st r.eap s
      → OkFate G W st r.eap (peap_pending server r c tls flying s id w).0
  pending-Fate true s id b k i g = done (pump_peap-Fate G W st r.eap tls [] [] s g)
  pending-Fate false s id b k i g = phase-Fate s.phase s id [] b k i g

  payload-Fate :
      (s : Session) (id : ℕ) (out : Option Bytes)
      → ((payload : Bytes)
          → (out ≡ some payload) ⊎ ((out ≡ none) × (payload ≡ []))
          → Brought payload)
      → s.pending_inner ≡ s0.pending_inner
      → Entered s
      → Good G W st r.eap s
      → OkFate G W st r.eap (on_payload server r c tls s id out w).0
  payload-Fate s id (some payload) b k i g =
      phase-Fate s.phase s id payload (b payload (inl refl)) k i g
  payload-Fate s id none b k i g =
      pending-Fate s.frag.in_flight s id (b [] (inr (refl, refl))) k i g

  message-Fate :
      (s : Session)
      → s.frag ≡ s0.frag
      → s.pending_inner ≡ s0.pending_inner
      → Entered s
      → Good G W st r.eap s
      → OkFate G W st r.eap (peap_message server r c tls s p w).0
  unfolding peap_message
  message-Fate s a k i g = elim (Result-cases (parse_peap p.payload)) [
    | inr (_, e) ↦ rw (e, peap_message) (done (fail_eap-Fate G W st r.eap s))
    | inl (t, e) ↦
        rw (e, peap_message)
          (elim (Result-cases (add_peap s.frag t).1) [
            | inr (_, f) ↦
                rw (f, peap_message)
                  (done (fail_eap-Fate G W st r.eap (record s { frag = (add_peap s.frag t).0 })))
            | inl (out, f) ↦
                rw (f, peap_message)
                  (payload-Fate (record s { frag = (add_peap s.frag t).0 }) p.id out
                    (λ payload o. (
                      t,
                      e,
                      elim o [
                        | inl x ↦ inl (ap (λ q. (add_peap q t).1) (sym a) ∙ (f ∙ ap ok x))
                        | inr (x, y) ↦ inr (ap (λ q. (add_peap q t).1) (sym a) ∙ (f ∙ ap ok x), y)
                      ],
                    ))
                    k i g)
          ])
  ]

  -- A PEAP message lets a session past the inner authentication, and accepts, only after a grant.
  pub handle_peap-Fate :
      s0.state ≡ st
      → Vouched G W st r.eap s0
      → OkFate G W st r.eap (handle_peap server r c tls s0 p w).0
  unfolding handle_peap
  handle_peap-Fate e v =
      message-Fate (record s0 { last_req = r.eap; id = p.id }) refl refl (refl, refl, refl, refl)
        (e, (refl, v))
