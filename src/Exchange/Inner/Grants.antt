-- ===== src/Exchange/Inner/Grants.antt =====
-- eapauth.go, `handlePEAPInner`: what an Access-Accept of an inner packet rests on.
use ligament_2fa.Prelude.{
  ℕ, ◌≡◌, refl, sym, ap, ◌∙◌, subst, inl, inr, Bool, ◌&&◌, [], ltb, leb, ◌==◌, Bool-cases,
  Option-cases, length, Result, ok, err, String, Result-cases,
}
use ligament_2fa.Eap.Bytes.{Bytes}
use ligament_2fa.Eap.Mschap.{MschapResponse, parse_mschap_response, has_cryptobinding_tlv}
use ligament_2fa.Eap.Packet.{
  Packet, packet_type, identity_data, type_identity, type_mschapv2, type_tlv,
}
use ligament_2fa.Exchange.Factors.{
  Candidate, Verdict, granted, denied, broken, still_held, authenticate,
}
use ligament_2fa.Exchange.Inner.{
  next_inner, first_bytes, send_inner, send_inner_anyway, fail_mschap, finish_peap, bind_keys,
  on_verdict, claimed_name, inner_response, inner_challenge, is_success, is_refusal, inner_success,
  final_keys, inner_tlv, inner_step,
}
use ligament_2fa.Exchange.Reply.{Outcome}
use ligament_2fa.Exchange.Reply.Fate.{
  Passing, Fate, OkFate, Good, waits, answers, errs, fail_eap-Fate, pump_peap-Fate, accept_eap-Fate,
}
use ligament_2fa.Exchange.Server.{Server, Request, Tls, Chance}
use ligament_2fa.Exchange.Session.{
  Session, InnerState, wait_response, wait_success_ack, wait_tlv, wait_failure_ack,
}
use ligament_2fa.Exchange.Trust.{record_event}
use ligament_2fa.Store.State.{World, Error, and_then, return}

-- What repetitions of the packet that a push holds leave as it is.
pub record Quiet (c : Chance) : Type 0 where
  pub state : (s : Session) → (c.meanwhile s).state ≡ s.state
  pub last_req : (s : Session) → (c.meanwhile s).last_req ≡ s.last_req
  pub inner_state : (s : Session) → (c.meanwhile s).inner_state ≡ s.inner_state
  pub identity : (s : Session) → (c.meanwhile s).outer_identity ≡ s.outer_identity

-- `M name`: the checks of an MS-CHAPv2 response granted access under the name.
module _ (G M : String → Type 0) (st : Bytes) (server : Server) (r : Request) (c : Chance)
    (tls : Tls) (p : Packet) (w : World) (quiet : Quiet c) (allow : (n : String) → M n → G n) where
  -- What the packet of a session that awaits the response comes to, where its checks grant access.
  abbrev pub Minted : Session → Type 0
  Minted s =
      (resp : MschapResponse) (k : Candidate)
      → s.inner_state ≡ wait_response
      → parse_mschap_response p.payload ≡ ok resp
      → (authenticate server r c (server.text (claimed_name server r c tls resp s)) resp
          s.auth_challenge w).0
        ≡ ok (granted k)
      → M (server.text (claimed_name server r c tls resp s))

  abbrev pub V : Bytes → Type 0
  V identity = M (server.text identity)

  abbrev pub Ok : Session → Type 0
  Ok = Good G V st r.eap

  pub done : {o : Outcome} → Fate G V st r.eap o → OkFate G V st r.eap (ok o)
  done f = answers G V st r.eap f

  pub send-Fate :
      (pkt : Bytes) (s : Session) → Ok s → Fate G V st r.eap (send_inner server r c tls pkt s)
  send-Fate pkt s g = elim (Option-cases (tls.seal pkt)) [
    | inl n ↦ rw (n, send_inner) (fail_eap-Fate G V st r.eap s)
    | inr (sealed, n) ↦ rw (n, send_inner) (pump_peap-Fate G V st r.eap tls sealed [] s g)
  ]

  send_anyway-Fate :
      (pkt : Bytes) (s : Session)
      → Ok s
      → Fate G V st r.eap (send_inner_anyway server r c tls pkt s)
  send_anyway-Fate pkt s g = elim (Option-cases (tls.seal pkt)) [
    | inl n ↦ rw (n, send_inner_anyway) (pump_peap-Fate G V st r.eap tls [] [] s g)
    | inr (sealed, n) ↦ rw (n, send_inner_anyway) (pump_peap-Fate G V st r.eap tls sealed [] s g)
  ]

  finish-Fate :
      (s : Session) (id : ℕ)
      → V s.outer_identity
      → OkFate G V st r.eap (finish_peap server r c tls s id w).0
  unfolding finish_peap record_event
  finish-Fate s id v = done (accept_eap-Fate G V st r.eap _ s id (allow _ v))

  bind-Good :
      (resp : MschapResponse) (k : Candidate) (s : Session)
      → ((bind_keys server r c tls resp k s).state ≡ s.state)
        × (((bind_keys server r c tls resp k s).last_req ≡ s.last_req)
            × ((bind_keys server r c tls resp k s).outer_identity ≡ s.outer_identity))
  unfolding bind_keys
  bind-Good resp k s = elim (Bool-cases (ltb (length s.key_block) 40)) [
    | inl e ↦ rw e (refl, (refl, refl))
    | inr e ↦ rw e (refl, (refl, refl))
  ]

  verdict-Fate :
      (resp : MschapResponse) (s : Session) (v : Verdict)
      → s.state ≡ st
      → s.last_req ≡ r.eap
      → ((k : Candidate) → v ≡ granted k → V s.outer_identity)
      → (s.inner_state ≡ wait_response)
      → Fate G V st r.eap (on_verdict server r c tls resp s v)
  unfolding on_verdict fail_mschap
  verdict-Fate resp s (granted k) e q v i =
      send-Fate _
        (record (next_inner (bind_keys server r c tls resp k s)) { inner_state = wait_success_ack })
        (
          (bind-Good resp k s).0 ∙ e,
          ((bind-Good resp k s).1.0 ∙ q, λ _. rw ((bind-Good resp k s).1.1) (v k refl)),
        )
  verdict-Fate resp s denied e q v i =
      send-Fate _ (record (next_inner s) { inner_state = wait_failure_ack }) (e, (q, λ x. absurd x))
  verdict-Fate resp s broken e q v i = fail_eap-Fate G V st r.eap s
  verdict-Fate resp s still_held e q v i =
      waits s refl refl (e, (q, λ x. absurd (subst Passing i x)))

  response-Fate :
      (s : Session) (resp : MschapResponse)
      → parse_mschap_response p.payload ≡ ok resp
      → Minted s
      → Ok s
      → s.inner_state ≡ wait_response
      → OkFate G V st r.eap (inner_response server r c tls s resp w).0
  unfolding inner_response
  response-Fate s resp h m g i = go _ refl
    where
      named : Session
      named = record s { outer_identity = claimed_name server r c tls resp s }

      go :
          (x : Result Error Verdict × World)
          → (authenticate server r c (server.text named.outer_identity) resp s.auth_challenge w) ≡ x
          → OkFate G V st r.eap
              (and_then x (λ v. return (on_verdict server r c tls resp (c.meanwhile named) v))).0
      go (err e, w') q = errs G V st r.eap e
      go (ok v, w') q = done (
          verdict-Fate resp (c.meanwhile named) v (quiet.state named ∙ g.0)
            (quiet.last_req named ∙ g.1.0)
            (λ k z. subst V (sym (quiet.identity named)) (m resp k i h (ap (λ z. z.0) q ∙ ap ok z)))
            (quiet.inner_state named ∙ i))

  challenge-Fate :
      (s : Session)
      → Minted s
      → Ok s
      → s.inner_state ≡ wait_response
      → OkFate G V st r.eap (inner_challenge server r c tls s p w).0
  unfolding inner_challenge
  challenge-Fate s m g i = elim (Bool-cases (packet_type p == type_identity)) [
    | inl e ↦
        rw (e, inner_challenge)
          (done (
            send_anyway-Fate _ (next_inner (record s { outer_identity = identity_data p }))
              (g.0, (g.1.0, λ x. absurd (subst Passing i x)))))
    | inr e ↦
        rw (e, inner_challenge)
          (elim (Bool-cases (packet_type p == type_mschapv2)) [
            | inr f ↦ rw (f, inner_challenge) (done (fail_eap-Fate G V st r.eap s))
            | inl f ↦
                rw (f, inner_challenge)
                  (elim (Result-cases (parse_mschap_response p.payload)) [
                    | inr (_, h) ↦ rw (h, inner_challenge) (done (fail_eap-Fate G V st r.eap s))
                    | inl (resp, h) ↦ rw (h, inner_challenge) (response-Fate s resp h m g i)
                  ])
          ])
  ]

  success-Fate :
      (s : Session) (id : ℕ)
      → Ok s
      → V s.outer_identity
      → OkFate G V st r.eap (inner_success server r c tls s id p w).0
  unfolding inner_success
  success-Fate s id g v =
      elim (Bool-cases (packet_type p == type_tlv && is_success server r c tls p.payload)) [
        | inl e ↦
            rw (e, inner_success)
              (elim (Bool-cases (has_cryptobinding_tlv p.payload)) [
                | inl f ↦ rw (f, inner_success) (finish-Fate s id v)
                | inr f ↦
                    rw (f, inner_success)
                      (finish-Fate
                        (record s { key_block = first_bytes 64 s.raw_tls_key s.key_block }) id v)
              ])
        | inr e ↦
            rw (e, inner_success)
              (done (
                send-Fate _ (record (next_inner s) { inner_state = wait_tlv })
                  (g.0, (g.1.0, λ _. v))))
      ]

  final-identity :
      (bound : Bool) (s : Session)
      → (final_keys server r c tls bound s).outer_identity ≡ s.outer_identity
  unfolding final_keys
  final-identity bound s = elim (Bool-cases (bound && leb 64 (length s.csk))) [
    | inl e ↦ rw e refl
    | inr e ↦ rw e refl
  ]

  tlv-Fate :
      (s : Session) (id : ℕ)
      → V s.outer_identity
      → OkFate G V st r.eap (inner_tlv server r c tls s id p w).0
  unfolding inner_tlv
  tlv-Fate s id v =
      elim (Bool-cases (packet_type p == type_tlv && is_refusal server r c tls p.payload)) [
        | inl e ↦ rw (e, inner_tlv) (done (fail_eap-Fate G V st r.eap s))
        | inr e ↦
            rw (e, inner_tlv)
              (finish-Fate _ id (
                subst V
                  (sym (
                    final-identity (packet_type p == type_tlv && has_cryptobinding_tlv p.payload)
                      s))
                  v))
      ]

  pub step-Fate :
      (i : InnerState) (s : Session) (id : ℕ)
      → Minted s
      → s.inner_state ≡ i
      → Ok s
      → OkFate G V st r.eap (inner_step server r c tls i s id p w).0
  step-Fate wait_response s id m e g = challenge-Fate s m g e
  step-Fate wait_success_ack s id m e g = success-Fate s id g (g.1.1 (subst Passing (sym e) tt))
  step-Fate wait_tlv s id m e g = tlv-Fate s id (g.1.1 (subst Passing (sym e) tt))
  step-Fate wait_failure_ack s id m e g = done (fail_eap-Fate G V st r.eap s)
