-- ===== src/Exchange/Handler.antt =====
-- internal/radiusserver/eapauth.go: `handleEAPAuth`, the whole of the handling of an EAP-Message.
pub mod Retransmit
pub mod Steps
pub mod Run
pub mod Visits
use ligament_2fa.Prelude.{
  ℕ, zero, suc, ◌+◌, ◌-◌, ◌*◌, ◌/◌, ◌%◌, ◌^◌, ◌≤◌, ◌<◌, min, max, bit_and, bit_or, ◌≡◌, refl, sym,
  ap, ◌∙◌, subst, ◌≢◌, ◌↔◌, ◌⊎◌, inl, inr, Bool, true, false, not, ◌&&◌, ◌||◌, Option, none, some,
  List, [], ◌∷◌, ◌++◌, map, append-nil, append_assoc, arith, ltb, leb, ◌==◌, if◌then◌else◌, ltb→lt,
  lt→ltb, leb→le, ==_iff, tests, Bool-cases, Option-cases, length, get_or, take, drop, All, slice,
  length-append, take-append-drop, length-take, length-drop, take-append, drop-append, take_all,
  drop_all, Result, ok, err, is_ok, any, count_where, select, update_where, find, String, str_eq,
  Among, Among-select, Result-cases, some_injective, All-select, All-update_where, All-find,
}
use ligament_2fa.Auth.Config.{bytes_eq}
use ligament_2fa.Eap.Bytes.{Bytes}
use ligament_2fa.Eap.Flags.{flag_start}
use ligament_2fa.Eap.Packet.{
  Packet, packet_type, identity_data, parse, code_request, code_response, type_identity, type_nak,
  type_ttls, type_peap,
}
use ligament_2fa.Eap.Peap.{build_peap}
use ligament_2fa.Eap.Ttls.{build_ttls, max_fragment}
use ligament_2fa.Exchange.Peap.{handle_peap}
use ligament_2fa.Exchange.Reply.{Reply, Outcome, send_eap, reject_eap}
use ligament_2fa.Exchange.Server.{Server, Request, Tls, Chance}
use ligament_2fa.Exchange.Session.{Session, Proto, proto_peap, proto_ttls, next_req_id}
use ligament_2fa.Exchange.Table.{
  Table, Created, at_cap, created, out_of_draws, has_key, hex_state, get_session, create_session,
  delete_session,
}
use ligament_2fa.Exchange.Ttls.{handle_ttls}
use ligament_2fa.Store.State.{World, M, ◌>>=◌, ◌>>◌, return, get}

-- The answer and the sessions after it.
abbrev pub Handled : Type 0
Handled = Option Reply × Table

-- The fragment size of a Framed-MTU: 100 bytes less, between 256 and `MaxFragment`.
unfoldable pub mtu_size : ℕ → ℕ
mtu_size mtu = max 256 (min max_fragment (mtu - 100))

-- Only where the request has one.
unfoldable pub set_frag_size : ℕ → Session → Session
set_frag_size mtu s = if mtu == 0 then s else record s { frag_size = mtu_size mtu }

-- The session of a request is written back, or deleted.
unfoldable pub settle : Bytes → Table → Outcome → Handled
settle key t o = elim o.session [
  | some s ↦ (o.reply, update_where (has_key key) (λ _. s) t)
  | none ↦ (o.reply, delete_session key t)
]

abbrev pub offers : ℕ → Bytes → Bool
offers kind proposals = any (λ b. b == kind) proposals

abbrev pub is_peap : Proto → Bool
is_peap proto_peap = true
is_peap proto_ttls = false

module _ (server : Server) (r : Request) (c : Chance) (tls : Tls) where
  -- The session that begins: PEAP, whose first request has the next identifier and the flag S.
  unfoldable pub begin_session : Packet → Session → Outcome
  begin_session p s =
      let s' = set_frag_size r.framed_mtu (record s {
        req_id = (p.id + 1) % 256;
        outer_identity = identity_data p;
        last_req = r.eap;
      }) in
      let numbered = next_req_id s' in
      send_eap numbered.1 (build_peap code_request numbered.0 flag_start none [])

  abbrev pub on_created : Packet → Created × Table → Handled
  on_created p (at_cap, t) = (some (reject_eap p.id), t)
  on_created p (out_of_draws, t) = (none, t)
  on_created p (created s, t) = settle s.state_key t (begin_session p s)

  abbrev pub without : Option Session → Table → Table
  without none t = t
  without (some s) t = delete_session s.state_key t

  abbrev pub identified : Bool → ℕ → Packet → Option Session → Table → Handled
  identified true now p found t =
      on_created p (create_session now c.states proto_peap (without found t))
  identified false now p found t = (some (reject_eap p.id), t)

  -- The case `TypeIdentity`: the session of the State, if any, makes way for a new one.
  unfoldable pub on_identity : ℕ → Packet → Option Session → Table → Handled
  on_identity now p found t = identified server.has_certificate now p found t

  -- The case `TypeNak`: a PEAP session changes to TTLS if the client offers it.
  unfoldable pub on_nak : Packet → Session → Outcome
  on_nak p s =
      let s' = record s { proto = proto_ttls; req_id = (p.id + 1) % 256; last_req = r.eap } in
      let numbered = next_req_id s' in
      if is_peap s.proto && offers type_ttls (drop 1 p.payload)
      then send_eap numbered.1 (build_ttls code_request numbered.0 flag_start none [])
      else record { reply = some (reject_eap p.id); session = some s }

  -- The types that belong to a session.
  unfoldable pub on_session : Packet → Session → M Outcome
  on_session p s =
      if packet_type p == type_peap
      then handle_peap server r c tls s p
      else if packet_type p == type_ttls
      then handle_ttls server r c tls s p
      else if packet_type p == type_nak
      then return (on_nak p s)
      else return (record { reply = some (reject_eap p.id); session = some s })

  -- A packet that repeats the last one is answered as that was.
  unfoldable pub on_packet : ℕ → Packet → Session → Table → M Handled
  on_packet now p s t =
      if bytes_eq s.last_req r.eap
      then return (settle s.state_key t (send_eap s s.last_resp))
      else if packet_type p == type_identity
      then return (on_identity now p (some s) t)
      else (do o ← on_session p s; return (settle s.state_key t o))

  abbrev pub no_session : ℕ → Packet → Table → Handled
  no_session now p t =
      if packet_type p == type_identity
      then on_identity now p none t
      else (some (reject_eap p.id), t)

  abbrev pub on_found : ℕ → Packet → Option Session × Table → M Handled
  on_found now p (none, t) = return (no_session now p t)
  on_found now p (some s, t) =
      on_packet now p (set_frag_size r.framed_mtu s)
        (update_where (has_key s.state_key) (set_frag_size r.framed_mtu) t)

  -- `handleEAPAuth`.
  unfoldable pub handle_eap_auth : Table → M Handled
  handle_eap_auth t = elim (parse r.eap) [
    | err _ ↦ return (some (reject_eap 0), t)
    | ok p ↦
        if p.code == code_response
        then (do w ← get; on_found w.now p (get_session w.now (hex_state r.state) t))
        else return (some (reject_eap p.id), t)
  ]
