-- ===== src/Exchange/Access.antt =====
-- internal/radiusserver/server.go: `handleAuth` and `handleAcct`, from a packet to the answer: the limit
-- of packets, the Message-Authenticator, the firewall, then the EAP exchange or PAP.
pub mod Admission
use ligament_2fa.Prelude.{
  ℕ, zero, suc, ◌+◌, ◌-◌, ◌*◌, ◌/◌, ◌%◌, ◌^◌, ◌≤◌, ◌<◌, min, max, bit_and, bit_or, ◌≡◌, refl, sym,
  ap, ◌∙◌, subst, ◌≢◌, ◌↔◌, ◌⊎◌, inl, inr, Bool, true, false, not, ◌&&◌, ◌||◌, Option, none, some,
  List, [], ◌∷◌, ◌++◌, map, append-nil, append_assoc, arith, ltb, leb, ◌==◌, if◌then◌else◌, ltb→lt,
  lt→ltb, leb→le, ==_iff, tests, Bool-cases, Option-cases, length, get_or, take, drop, All, slice,
  length-append, take-append-drop, length-take, length-drop, take-append, drop-append, take_all,
  drop_all, Result, ok, err, is_ok, any, count_where, select, update_where, find, String, str_eq,
  Among, Among-select, Result-cases, some_injective, All-select, All-update_where, All-find,
}
use ligament_2fa.Auth.Radius.{Answer}
use ligament_2fa.Eap.Bytes.{Bytes}
use ligament_2fa.Exchange.Handler.{handle_eap_auth, Handled}
use ligament_2fa.Exchange.Reply.{Reply}
use ligament_2fa.Exchange.Server.{Server, Request, Tls, Chance}
use ligament_2fa.Exchange.Signature.{
  RadiusPacket, Wire, has_message_authenticator, verify_message_authenticator,
}
use ligament_2fa.Exchange.Table.{Table}
use ligament_2fa.Exchange.Trust.{record_event, radius_auth_with_trust}
use ligament_2fa.Firewall.Guard.{State, Verdict, pass, denied, banned, check_until}
use ligament_2fa.Firewall.Net.{Net}
use ligament_2fa.RateLimit.{Limiter, allow}
use ligament_2fa.Store.State.{radius_ma_missing, radius_acct, M, ◌>>=◌, ◌>>◌, return}

-- The settings that `handleAuth` reads; `has_firewall` is `s.fw != nil`.
pub record Policy : Type 0 where
  pub limit_pps : ℕ
  pub require_message_authenticator : Bool
  pub has_firewall : Bool

-- A packet with what its attributes say; `eap` is `EAPMessage_Lookup`, `acct_status` Acct-Status-Type, and
-- `time` is in nanoseconds.
pub record Incoming : Type 0 where
  pub packet : RadiusPacket
  pub eap : Option Bytes
  pub user_name : String
  pub password : Bytes
  pub request : Request
  pub acct_status : ℕ
  pub time : ℕ

-- What the server keeps between two packets, the database aside. The guard has its own clock and rows.
pub record Front : Type 0 where
  pub limiter : Limiter
  pub guard : State
  pub table : Table

pub data Response : Type 0 where
  eap_reply : Reply → Response
  pap_accept : String → Response
  rejected : Response
  acct_response : Response

-- `none` where the packet is dropped, or held.
abbrev pub Served : Type 0
Served = Option Response × Front

abbrev pub access_request : ℕ
access_request = 1

abbrev pub accounting_request : ℕ
accounting_request = 4

abbrev pub missing_reason : Option Bytes → String
missing_reason (some _) = "missing_eap"
missing_reason none = "missing"

module _ (server : Server) (wire : Wire) (net : Net) (policy : Policy) (c : Chance)
    (tls : Tls) where
  -- `checkRequestMessageAuthenticator`.
  unfoldable pub check_request_message_authenticator : Incoming → M Bool
  check_request_message_authenticator i =
      if has_message_authenticator i.packet
      then (if verify_message_authenticator wire i.packet
          then return true
          else record_event i.user_name radius_ma_missing "invalid" false >> return false)
      else (if policy.require_message_authenticator
          then record_event i.user_name radius_ma_missing (missing_reason i.eap) false
            >> return false
          else return true)

  abbrev pub pap_answer : Incoming → Front → Answer → Served
  pap_answer i f none = (none, f)
  pap_answer i f (some (true, reason)) = (some (pap_accept i.user_name), f)
  pap_answer i f (some (false, reason)) = (some rejected, f)

  abbrev pub eap_response : Option Reply → Option Response
  eap_response none = none
  eap_response (some reply) = some (eap_reply reply)

  abbrev pub eap_answer : Front → Handled → Served
  eap_answer f (reply, t) = (eap_response reply, record f { table = t })

  abbrev pub serve_as : Incoming → Front → Option Bytes → M Served
  serve_as i f (some raw) = do
    h ← handle_eap_auth server (record (i.request) { eap = raw }) c tls f.table
    return (eap_answer f h)
  serve_as i f none = do
    answer ←
        radius_auth_with_trust server c i.user_name i.password i.request.calling_station
          i.request.src_ip
    return (pap_answer i f answer)

  -- The EAP exchange, or PAP.
  unfoldable pub serve : Incoming → Front → M Served
  serve i f = serve_as i f i.eap

  abbrev pub on_verdict : Incoming → Front → Verdict → M Served
  on_verdict i f pass = serve i f
  on_verdict i f denied = return (some rejected, f)
  on_verdict i f banned = return (some rejected, f)

  unfoldable pub past_authenticator : Incoming → Front → M Served
  past_authenticator i f =
      let checked = check_until net i.request.src_ip f.guard in
      if policy.has_firewall
      then on_verdict i (record f { guard = checked.1 }) checked.0.0
      else serve i f

  -- A packet that passed the limiter.
  unfoldable pub past_limiter : Incoming → Front → M Served
  past_limiter i f = do
    good ← check_request_message_authenticator i
    if good then past_authenticator i f else return (none, f)

  -- `handleAuth`.
  unfoldable pub handle_auth : Incoming → Front → M Served
  handle_auth i f =
      let limited = allow i.request.src_ip policy.limit_pps i.time f.limiter in
      if not (i.packet.code == access_request)
      then return (none, f)
      else (if limited.0
          then past_limiter i (record f { limiter = limited.1 })
          else return (none, record f { limiter = limited.1 }))

  -- Only the start and the stop of a session are written to the audit log.
  abbrev pub acct_event : ℕ → String
  acct_event status = if status == 1 then "Start" else "Stop"

  unfoldable pub account : Incoming → Front → M Served
  account i f =
      if i.acct_status == 1 || i.acct_status == 2
      then record_event i.user_name radius_acct (acct_event i.acct_status) true
        >> return (some acct_response, f)
      else return (some acct_response, f)

  abbrev pub acct_on_verdict : Incoming → Front → Verdict → M Served
  acct_on_verdict i f pass = account i f
  acct_on_verdict i f denied = return (none, f)
  acct_on_verdict i f banned = return (none, f)

  unfoldable pub acct_past_limiter : Incoming → Front → M Served
  acct_past_limiter i f =
      let checked = check_until net i.request.src_ip f.guard in
      if policy.has_firewall
      then acct_on_verdict i (record f { guard = checked.1 }) checked.0.0
      else account i f

  -- `handleAcct`.
  unfoldable pub handle_acct : Incoming → Front → M Served
  handle_acct i f =
      let limited = allow i.request.src_ip policy.limit_pps i.time f.limiter in
      if not (i.packet.code == accounting_request)
      then return (none, f)
      else (if limited.0
          then acct_past_limiter i (record f { limiter = limited.1 })
          else return (none, record f { limiter = limited.1 }))
