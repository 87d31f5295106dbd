-- ===== src/Exchange/Inner.antt =====
-- internal/radiusserver/eapauth.go: `handlePEAPInner`, `failMSCHAPv2` and `finishPEAP`.
pub mod Grants
use ligament_2fa.Prelude.{
  ℕ, zero, suc, ◌+◌, ◌-◌, ◌*◌, ◌/◌, ◌%◌, ◌^◌, ◌≤◌, ◌<◌, min, max, bit_and, bit_or, ◌≡◌, refl, sym,
  ap, ◌∙◌, subst, ◌≢◌, ◌↔◌, ◌⊎◌, inl, inr, Bool, true, false, not, ◌&&◌, ◌||◌, Option, none, some,
  List, [], ◌∷◌, ◌++◌, map, append-nil, append_assoc, arith, ltb, leb, ◌==◌, if◌then◌else◌, ltb→lt,
  lt→ltb, leb→le, ==_iff, tests, Bool-cases, Option-cases, length, get_or, take, drop, All, slice,
  length-append, take-append-drop, length-take, length-drop, take-append, drop-append, take_all,
  drop_all, Result, ok, err, is_ok, any, count_where, select, update_where, find, String, str_eq,
  Among, Among-select, Result-cases, some_injective, All-select, All-update_where, All-find,
}
use ligament_2fa.Eap.Bytes.{Bytes, nth, put_u16, u16}
use ligament_2fa.Eap.Mschap.{
  MschapResponse, build_mschap_challenge, build_mschap_success, build_mschap_failure,
  build_result_and_crypto, parse_mschap_response, parse_result_tlv, has_cryptobinding_tlv,
}
use ligament_2fa.Eap.Mschap.Keys.{nt_hash, bare_name, peap_isk, peap_cmk, peap_csk}
use ligament_2fa.Eap.Packet.{
  Packet, packet_type, identity_data, parse, code_response, type_identity, type_mschapv2, type_tlv,
}
use ligament_2fa.Eap.Peap.{parse_peap, add_peap}
use ligament_2fa.Exchange.Factors.{
  Candidate, Verdict, granted, denied, broken, still_held, authenticate,
}
use ligament_2fa.Exchange.Reply.{
  Outcome, fail_eap, pump_peap, accept_eap, gather, tls_error, nothing, gathered,
}
use ligament_2fa.Exchange.Server.{Server, Request, Tls, Handshake, Chance}
use ligament_2fa.Exchange.Session.{
  InnerState, Phase, Session, handshake, handshake_done, inner, wait_response, wait_success_ack,
  wait_tlv, wait_failure_ack, stash_pending_inner,
}
use ligament_2fa.Exchange.Trust.{record_event}
use ligament_2fa.Store.State.{radius_eap, M, ◌>>=◌, ◌>>◌, return}

abbrev pub next_inner : Session → Session
next_inner s = record s { inner_req_id = (s.inner_req_id + 1) % 256 }

abbrev pub first_bytes : ℕ → Bytes → Bytes → Bytes
first_bytes n block other = if leb n (length block) then take n block else other

module _ (server : Server) (r : Request) (c : Chance) (tls : Tls) where
  -- `writeInner`, then `pumpPEAP`.
  abbrev pub send_inner : Bytes → Session → Outcome
  send_inner pkt s = elim (tls.seal pkt) [
    | none ↦ fail_eap s
    | some sealed ↦ pump_peap tls sealed [] s
  ]

  -- So where the error of the write is thrown away.
  abbrev pub send_inner_anyway : Bytes → Session → Outcome
  send_inner_anyway pkt s = elim (tls.seal pkt) [
    | none ↦ pump_peap tls [] [] s
    | some sealed ↦ pump_peap tls sealed [] s
  ]

  abbrev pub name : Bytes
  name = server.hashes.ascii "ligament"

  -- `failMSCHAPv2`: the same words whatever the reason.
  unfoldable pub fail_mschap : ℕ → Session → Outcome
  fail_mschap mschap_id s =
      let s' = record (next_inner s) { inner_state = wait_failure_ack } in
      send_inner
        (drop 4 (build_mschap_failure s'.inner_req_id mschap_id (server.hashes.ascii "E=691 R=0")))
        s'

  -- `finishPEAP`.
  unfoldable pub finish_peap : Session → ℕ → M Outcome
  finish_peap s id =
      record_event (server.text s.outer_identity) radius_eap "" true
      >> return (accept_eap (server.text s.outer_identity) s id)

  -- The compound keys, where there are 40 bytes of keying material.
  unfoldable pub bind_keys : MschapResponse → Candidate → Session → Session
  bind_keys resp k s =
      let isk = peap_isk server.hashes (nt_hash server.hashes k.password) resp.nt_response in
      let mixed = peap_cmk server.hashes (take 40 s.key_block) isk in
      let csk = take 64 (peap_csk server.hashes mixed.0) in
      if ltb (length s.key_block) 40
      then s
      else record s { raw_tls_key = s.key_block; cmk = mixed.1; csk = csk; key_block = csk }

  -- What follows the checks; a push has had the session unlocked.
  unfoldable pub on_verdict : MschapResponse → Session → Verdict → Outcome
  on_verdict resp s (granted k) =
      let s' = record (next_inner (bind_keys resp k s)) { inner_state = wait_success_ack } in
      send_inner (drop 4 (build_mschap_success s'.inner_req_id resp.id k.auth_response)) s'
  on_verdict resp s denied = fail_mschap resp.id s
  on_verdict resp s broken = fail_eap s
  on_verdict resp s still_held = record { reply = none; session = some s }

  -- The name of the response, or the outer identity, without domain and realm.
  abbrev pub claimed_name : MschapResponse → Session → Bytes
  claimed_name resp s =
      bare_name (if length resp.user_name == 0 then s.outer_identity else resp.user_name)

  unfoldable pub inner_response : Session → MschapResponse → M Outcome
  inner_response s resp =
      let named = record s { outer_identity = claimed_name resp s } in
      do
        verdict ← authenticate server r c (server.text named.outer_identity) resp s.auth_challenge
        return (on_verdict resp (c.meanwhile named) verdict)

  -- The case `peapStateChallenge`.
  unfoldable pub inner_challenge : Session → Packet → M Outcome
  inner_challenge s p =
      let renamed = next_inner (record s { outer_identity = identity_data p }) in
      if packet_type p == type_identity
      then return (
          send_inner_anyway
            (drop 4
              (build_mschap_challenge renamed.inner_req_id s.inner_mschap_id s.auth_challenge name))
            renamed)
      else if not (packet_type p == type_mschapv2)
      then return (fail_eap s)
      else elim (parse_mschap_response p.payload) [
        | err _ ↦ return (fail_eap s)
        | ok resp ↦ inner_response s resp
      ]

  abbrev pub is_success : Bytes → Bool
  is_success b = elim (parse_result_tlv b) [ err _ ↦ false | ok v ↦ v ]

  abbrev pub is_refusal : Bytes → Bool
  is_refusal b = elim (parse_result_tlv b) [ err _ ↦ false | ok v ↦ not v ]

  -- The case `peapStateSuccess`; what is not a Result TLV of success counts as the acknowledgement.
  unfoldable pub inner_success : Session → ℕ → Packet → M Outcome
  inner_success s id p =
      let plain =
        if has_cryptobinding_tlv p.payload
        then s
        else record s { key_block = first_bytes 64 s.raw_tls_key s.key_block } in
      let next = record (next_inner s) { inner_state = wait_tlv } in
      if packet_type p == type_tlv && is_success p.payload
      then finish_peap plain id
      else return (
          send_inner
            (build_result_and_crypto server.hashes.hmac_sha1 next.inner_req_id c.nonce s.cmk) next)

  -- The keys at the end: the compound ones where the client has bound them.
  unfoldable pub final_keys : Bool → Session → Session
  final_keys bound s =
      if bound && leb 64 (length s.csk)
      then record s { key_block = take 64 s.csk }
      else record s { key_block = first_bytes 64 s.raw_tls_key s.key_block }

  -- The case `peapStateTLV`.
  unfoldable pub inner_tlv : Session → ℕ → Packet → M Outcome
  inner_tlv s id p =
      if packet_type p == type_tlv && is_refusal p.payload
      then return (fail_eap s)
      else finish_peap (final_keys (packet_type p == type_tlv && has_cryptobinding_tlv p.payload) s)
          id

  abbrev pub inner_step : InnerState → Session → ℕ → Packet → M Outcome
  inner_step wait_response s id p = inner_challenge s p
  inner_step wait_success_ack s id p = inner_success s id p
  inner_step wait_tlv s id p = inner_tlv s id p
  inner_step wait_failure_ack s id p = return (fail_eap s)

  -- `handlePEAPInner`.
  unfoldable pub handle_peap_inner : Session → ℕ → Packet → M Outcome
  handle_peap_inner s id p = inner_step s.inner_state s id p
