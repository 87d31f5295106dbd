-- ===== src/Exchange/Ttls.antt =====
-- internal/radiusserver/eapauth.go: `handleTTLS` and `finishInnerPAP`.
pub mod Grants
use ligament_2fa.Prelude.{
  ℕ, zero, suc, ◌+◌, ◌-◌, ◌*◌, ◌/◌, ◌%◌, ◌^◌, ◌≤◌, ◌<◌, min, max, bit_and, bit_or, ◌≡◌, refl, sym,
  ap, ◌∙◌, subst, ◌≢◌, ◌↔◌, ◌⊎◌, inl, inr, Bool, true, false, not, ◌&&◌, ◌||◌, Option, none, some,
  List, [], ◌∷◌, ◌++◌, map, append-nil, append_assoc, arith, ltb, leb, ◌==◌, if◌then◌else◌, ltb→lt,
  lt→ltb, leb→le, ==_iff, tests, Bool-cases, Option-cases, length, get_or, take, drop, All, slice,
  length-append, take-append-drop, length-take, length-drop, take-append, drop-append, take_all,
  drop_all, Result, ok, err, is_ok, any, count_where, select, update_where, find, String, str_eq,
  Among, Among-select, Result-cases,
}
use ligament_2fa.Auth.Radius.{Answer}
use ligament_2fa.Eap.Assembler.{add}
use ligament_2fa.Eap.Avp.{InnerPap, parse_avps, complete}
use ligament_2fa.Eap.Bytes.{Bytes}
use ligament_2fa.Eap.Mschap.Keys.{bare_name}
use ligament_2fa.Eap.Packet.{Packet}
use ligament_2fa.Eap.Ttls.{parse_ttls}
use ligament_2fa.Exchange.Reply.{
  Outcome, fail_eap, pump_ttls, accept_eap, gather, tls_error, nothing, gathered,
}
use ligament_2fa.Exchange.Server.{Server, Request, Tls, Handshake, Chance}
use ligament_2fa.Exchange.Session.{
  Phase, Session, handshake, handshake_done, inner, stash_pending_inner,
}
use ligament_2fa.Exchange.Trust.{record_event, radius_auth_with_trust}
use ligament_2fa.Store.State.{radius_eap, M, ◌>>=◌, ◌>>◌, return}

module _ (server : Server) (r : Request) (c : Chance) where
  -- `given` is the name as it came, realm included: the reply attributes are looked up by it.
  -- The session is read again when the answer is there: it was unlocked meanwhile.
  abbrev pub on_answer : String → String → Session → ℕ → Answer → M Outcome
  on_answer username given s id none = return (record { reply = none; session = some s })
  on_answer username given s id (some (true, reason)) =
      record_event username radius_eap reason true >> return (accept_eap given (c.meanwhile s) id)
  on_answer username given s id (some (false, reason)) =
      record_event username radius_eap reason false >> return (fail_eap (c.meanwhile s))

  -- `finishInnerPAP`.
  unfoldable pub finish_inner_pap : Session → ℕ → InnerPap → M Outcome
  finish_inner_pap s id pap =
      let username = server.text (bare_name pap.user_name) in
      do
        answer ←
            radius_auth_with_trust server c username pap.user_password r.calling_station r.src_ip
        on_answer username (server.text pap.user_name) s id answer

  module _ (tls : Tls) where
    -- The AVPs of the inner phase, whole or in part.
    unfoldable pub ttls_avps : Session → ℕ → Bytes → M Outcome
    ttls_avps s id app = elim (parse_avps app) [
      | err _ ↦ return (fail_eap s)
      | ok pap ↦
          if complete pap then finish_inner_pap s id pap else elim (stash_pending_inner app s) [
            | none ↦ return (fail_eap s)
            | some s' ↦ return (pump_ttls tls [] s')
          ]
    ]

    unfoldable pub ttls_inner : Session → ℕ → Bytes → M Outcome
    ttls_inner s id payload = elim (gather tls payload s) [
      | tls_error ↦ return (fail_eap s)
      | nothing ↦ return (pump_ttls tls [] s)
      | gathered app ↦ ttls_avps (record s { pending_inner = [] }) id app
    ]

    abbrev pub shaken : Bool → Session → Handshake → Outcome
    shaken true s h = pump_ttls tls h.output (record s { phase = inner; key_block = h.exported })
    shaken false s h = pump_ttls tls h.output s

    unfoldable pub ttls_handshake : Session → Bytes → Outcome
    ttls_handshake s payload =
        if length payload == 0
        then pump_ttls tls [] s
        else elim (tls.shake payload) [ none ↦ fail_eap s | some h ↦ shaken h.finished s h ]

    -- A session in the phase `handshake_done`, which only PEAP enters, gets no answer.
    abbrev pub ttls_phase : Phase → Session → ℕ → Bytes → M Outcome
    ttls_phase handshake s id payload = return (ttls_handshake s payload)
    ttls_phase handshake_done s id payload = return (record { reply = none; session = some s })
    ttls_phase inner s id payload = ttls_inner s id payload

    -- Nothing is complete: a chain goes on, or the packet only acknowledges.
    abbrev pub ttls_pending : Bool → Session → ℕ → M Outcome
    ttls_pending true s id = return (pump_ttls tls [] s)
    ttls_pending false s id = ttls_phase s.phase s id []

    abbrev pub on_payload : Session → ℕ → Option Bytes → M Outcome
    on_payload s id (some payload) = ttls_phase s.phase s id payload
    on_payload s id none = ttls_pending s.frag.in_flight s id

    -- `handleTTLS`, on the session as it is after `sess.id = pkt.ID`.
    unfoldable pub ttls_message : Session → Packet → M Outcome
    ttls_message s p = elim (parse_ttls p.payload) [
      | err _ ↦ return (fail_eap s)
      | ok t ↦
          (let added = add s.frag t in
            elim added.1 as (λ _. M Outcome) [
              | err _ ↦ return (fail_eap (record s { frag = added.0 }))
              | ok out ↦ on_payload (record s { frag = added.0 }) p.id out
            ])
    ]

    unfoldable pub handle_ttls : Session → Packet → M Outcome
    handle_ttls s p = ttls_message (record s { last_req = r.eap; id = p.id }) p
