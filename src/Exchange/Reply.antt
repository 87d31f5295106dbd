-- ===== src/Exchange/Reply.antt =====
-- internal/radiusserver/eapauth.go: the answers to a request, and how a session sends one.
pub mod Fate
use ligament_2fa.Prelude.{
  ℕ, zero, suc, ◌+◌, ◌-◌, ◌*◌, ◌/◌, ◌%◌, ◌^◌, ◌≤◌, ◌<◌, min, max, bit_and, bit_or, ◌≡◌, refl, sym,
  ap, ◌∙◌, subst, ◌≢◌, ◌↔◌, ◌⊎◌, inl, inr, Bool, true, false, not, ◌&&◌, ◌||◌, Option, none, some,
  List, [], ◌∷◌, ◌++◌, map, append-nil, append_assoc, arith, ltb, leb, ◌==◌, if◌then◌else◌, ltb→lt,
  lt→ltb, leb→le, ==_iff, tests, Bool-cases, Option-cases, length, get_or, take, drop, All, slice,
  length-append, take-append-drop, length-take, length-drop, take-append, drop-append, take_all,
  drop_all, Result, ok, err, is_ok, any, count_where, select, update_where, find, String, str_eq,
  Among, Among-select, Result-cases,
}
use ligament_2fa.Eap.Bytes.{Bytes}
use ligament_2fa.Eap.Packet.{build_result, code_success, code_failure}
use ligament_2fa.Exchange.Server.{Tls}
use ligament_2fa.Exchange.Session.{Session, push_out_queue, pop_or_ack}

-- Access-Challenge with State and EAP-Message; Access-Accept with the name whose reply attributes it
-- carries, EAP-Message and the two MS-MPPE keys; Access-Reject with EAP-Message. The attributes
-- themselves and the signature are left out.
pub data Reply : Type 0 where
  challenge : Bytes → Bytes → Reply
  accept : String → Bytes → Option (Bytes × Bytes) → Reply
  reject : Bytes → Reply

-- The answer, `none` while a push holds the request, and the session, `none` where it is deleted.
pub record Outcome : Type 0 where
  pub reply : Option Reply
  pub session : Option Session

-- `sendEAP`.
unfoldable pub send_eap : Session → Bytes → Outcome
send_eap s pkt = record {
  reply = some (challenge s.state pkt);
  session = some (record s { last_resp = pkt });
}

-- `rejectEAP`.
unfoldable pub reject_eap : ℕ → Reply
reject_eap id = reject (build_result code_failure id)

-- `failEAP`.
unfoldable pub fail_eap : Session → Outcome
fail_eap s = record { reply = some (reject_eap s.id); session = none }

abbrev send_next : Bytes × Session → Outcome
send_next (pkt, s) = send_eap s pkt

-- `pumpTTLS`: what was stuck in the bridge goes first.
unfoldable pub pump_ttls : Tls → Bytes → Session → Outcome
pump_ttls tls out s = send_next (pop_or_ack (push_out_queue (tls.stuck ++ out) s))

-- `pumpPEAP`: `sealed` is what the handler's own write has added to what is in the bridge, which goes
-- last.
unfoldable pub pump_peap : Tls → Bytes → Bytes → Session → Outcome
pump_peap tls sealed out s =
    send_next (pop_or_ack (push_out_queue (out ++ (tls.stuck ++ sealed)) s))

abbrev pub eap_key_block_len : ℕ
eap_key_block_len = 64

abbrev pub mppe_keys : Bytes → Option (Bytes × Bytes)
mppe_keys block =
    if length block == eap_key_block_len then some (take 32 block, drop 32 block) else none

-- The Access-Accept at the end of `finishInnerPAP` and `finishPEAP`, which delete the session.
unfoldable pub accept_eap : String → Session → ℕ → Outcome
accept_eap name s id = record {
  reply = some (accept name (build_result code_success id) (mppe_keys s.key_block));
  session = none;
}

-- The plaintext at hand in the inner phase.
pub data Gathered : Type 0 where
  tls_error : Gathered
  nothing : Gathered
  gathered : Bytes → Gathered

abbrev gather_taken : Tls → Session → Gathered
gather_taken tls s =
    if length tls.taken == 0 && length s.pending_inner == 0
    then nothing
    else gathered (s.pending_inner ++ (tls.taken ++ tls.extra))

-- What `handleTTLS` and `handlePEAP` do in the inner phase before they parse.
unfoldable pub gather : Tls → Bytes → Session → Gathered
gather tls payload s =
    if length payload == 0 then gather_taken tls s else elim (tls.app_data payload) [
      | none ↦ tls_error
      | some app ↦ gathered (s.pending_inner ++ (app ++ tls.extra))
    ]

pub Gathered-cases :
    (g : Gathered) → (g ≡ tls_error) ⊎ ((g ≡ nothing) ⊎ ((app : Bytes) × (g ≡ gathered app)))
Gathered-cases tls_error = inl refl
Gathered-cases nothing = inr (inl refl)
Gathered-cases (gathered app) = inr (inr (app, refl))
