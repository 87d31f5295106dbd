-- ===== src/Exchange/Peap.antt =====
-- internal/radiusserver/eapauth.go: `handlePEAP`, around the inner packets.
pub mod Grants
use ligament_2fa.Prelude.{
  ℕ, zero, suc, ◌+◌, ◌-◌, ◌*◌, ◌/◌, ◌%◌, ◌^◌, ◌≤◌, ◌<◌, min, max, bit_and, bit_or, ◌≡◌, refl, sym,
  ap, ◌∙◌, subst, ◌≢◌, ◌↔◌, ◌⊎◌, inl, inr, Bool, true, false, not, ◌&&◌, ◌||◌, Option, none, some,
  List, [], ◌∷◌, ◌++◌, map, append-nil, append_assoc, arith, ltb, leb, ◌==◌, if◌then◌else◌, ltb→lt,
  lt→ltb, leb→le, ==_iff, tests, Bool-cases, Option-cases, length, get_or, take, drop, All, slice,
  length-append, take-append-drop, length-take, length-drop, take-append, drop-append, take_all,
  drop_all, Result, ok, err, is_ok, any, count_where, select, update_where, find, String, str_eq,
  Among, Among-select, Result-cases, some_injective, All-select, All-update_where, All-find,
}
use ligament_2fa.Eap.Bytes.{Bytes, nth, put_u16, u16}
use ligament_2fa.Eap.Mschap.{
  MschapResponse, build_mschap_challenge, build_mschap_success, build_mschap_failure,
  build_result_and_crypto, parse_mschap_response, parse_result_tlv, has_cryptobinding_tlv,
}
use ligament_2fa.Eap.Mschap.Keys.{nt_hash, bare_name, peap_isk, peap_cmk, peap_csk}
use ligament_2fa.Eap.Packet.{
  Packet, packet_type, identity_data, parse, code_response, type_identity, type_mschapv2, type_tlv,
}
use ligament_2fa.Eap.Peap.{parse_peap, add_peap}
use ligament_2fa.Exchange.Factors.{
  Candidate, Verdict, granted, denied, broken, still_held, authenticate,
}
use ligament_2fa.Exchange.Inner.{next_inner, send_inner, name, handle_peap_inner}
use ligament_2fa.Exchange.Reply.{
  Outcome, fail_eap, pump_peap, accept_eap, gather, tls_error, nothing, gathered,
}
use ligament_2fa.Exchange.Server.{Server, Request, Tls, Handshake, Chance}
use ligament_2fa.Exchange.Session.{
  InnerState, Phase, Session, handshake, handshake_done, inner, wait_response, wait_success_ack,
  wait_tlv, wait_failure_ack, stash_pending_inner,
}
use ligament_2fa.Exchange.Trust.{record_event}
use ligament_2fa.Store.State.{radius_eap, M, ◌>>=◌, ◌>>◌, return}

-- The inner packet that the plaintext holds: parsed, with what is left over to be kept, or to be waited
-- for, or broken.
pub data Framed : Type 0 where
  framed : Packet → Bytes → Framed
  incomplete : Framed
  malformed : Framed

pub Framed-cases :
    (f : Framed)
    → (f ≡ malformed) ⊎ ((f ≡ incomplete) ⊎ ((p : Packet) × ((rest : Bytes) × (f ≡ framed p rest))))
Framed-cases malformed = inl refl
Framed-cases incomplete = inr (inl refl)
Framed-cases (framed p rest) = inr (inr (p, (rest, refl)))

-- A packet without its header gets one; another is cut at the length that it declares.
unfoldable pub frame_inner : ℕ → Bytes → Framed
frame_inner inner_id app =
    let kind = nth app 0 in
    let len = u16 (slice app 2 4) in
    if kind == type_mschapv2 || kind == type_identity || kind == type_tlv
    then elim (parse (code_response ∷ inner_id ∷ (put_u16 ((4 + length app) % 65536) ++ app))) [
      | err _ ↦ malformed
      | ok p ↦ framed p []
    ]
    else if ltb (length app) 4 || ltb (length app) len
    then incomplete
    else elim (parse (take len app)) [ err _ ↦ malformed | ok p ↦ framed p (drop len app) ]

module _ (server : Server) (r : Request) (c : Chance) (tls : Tls) where
  abbrev pub stash_and_pump : Bytes → Session → Outcome
  stash_and_pump app s = elim (stash_pending_inner app s) [
    | none ↦ fail_eap s
    | some s' ↦ pump_peap tls [] [] s'
  ]

  abbrev pub with_rest : Bytes → Session → Option Session
  with_rest [] s = some s
  with_rest (b ∷ bs) s = stash_pending_inner (b ∷ bs) s

  -- The plaintext of the inner phase.
  unfoldable pub peap_plaintext : Session → ℕ → Bytes → M Outcome
  peap_plaintext s id app =
      if length app == 0
      then return (pump_peap tls [] [] s)
      else elim (frame_inner s.inner_req_id app) [
        | malformed ↦ return (fail_eap s)
        | incomplete ↦ return (stash_and_pump app s)
        | framed p rest ↦ elim (with_rest rest s) [
          | none ↦ return (fail_eap s)
          | some s' ↦ handle_peap_inner server r c tls s' id p
        ]
      ]

  unfoldable pub peap_inner : Session → ℕ → Bytes → M Outcome
  peap_inner s id payload = elim (gather tls payload s) [
    | tls_error ↦ return (fail_eap s)
    | nothing ↦ return (pump_peap tls [] [] s)
    | gathered app ↦ peap_plaintext (record s { pending_inner = [] }) id app
  ]

  abbrev pub peap_shaken : Bool → Session → Handshake → Outcome
  peap_shaken true s h =
      pump_peap tls [] h.output (record s { phase = handshake_done; key_block = h.exported })
  peap_shaken false s h = pump_peap tls [] h.output s

  unfoldable pub peap_handshake : Session → Bytes → Outcome
  peap_handshake s payload =
      if length payload == 0
      then pump_peap tls [] [] s
      else elim (tls.shake payload) [ none ↦ fail_eap s | some h ↦ peap_shaken h.finished s h ]

  -- The case `eapPhaseHandshakeDone`: the server begins the inner authentication.
  unfoldable pub peap_begin : Session → Outcome
  peap_begin s =
      let s' = record s {
        phase = inner;
        auth_challenge = c.challenge;
        inner_req_id = 1;
        inner_mschap_id = 1;
        inner_state = wait_response;
      } in
      send_inner server r c tls
        (drop 4 (build_mschap_challenge 1 1 c.challenge (name server r c tls))) s'

  abbrev pub peap_phase : Phase → Session → ℕ → Bytes → M Outcome
  peap_phase handshake s id payload = return (peap_handshake s payload)
  peap_phase handshake_done s id payload = return (peap_begin s)
  peap_phase inner s id payload = peap_inner s id payload

  -- Nothing is complete: a chain goes on, or the packet only acknowledges.
  abbrev pub peap_pending : Bool → Session → ℕ → M Outcome
  peap_pending true s id = return (pump_peap tls [] [] s)
  peap_pending false s id = peap_phase s.phase s id []

  abbrev pub on_payload : Session → ℕ → Option Bytes → M Outcome
  on_payload s id (some payload) = peap_phase s.phase s id payload
  on_payload s id none = peap_pending s.frag.in_flight s id

  -- `handlePEAP`, on the session as it is after `sess.id = pkt.ID`.
  unfoldable pub peap_message : Session → Packet → M Outcome
  peap_message s p = elim (parse_peap p.payload) [
    | err _ ↦ return (fail_eap s)
    | ok t ↦
        (let added = add_peap s.frag t in
          elim added.1 as (λ _. M Outcome) [
            | err _ ↦ return (fail_eap (record s { frag = added.0 }))
            | ok out ↦ on_payload (record s { frag = added.0 }) p.id out
          ])
  ]

  unfoldable pub handle_peap : Session → Packet → M Outcome
  handle_peap s p = peap_message (record s { last_req = r.eap; id = p.id }) p
