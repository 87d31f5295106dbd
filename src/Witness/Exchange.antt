-- ===== src/Witness/Exchange.antt =====
-- Witnesses for the EAP exchange: one session, a user who may use Wi-Fi without a push, toy hashes.
use ligament_2fa.Prelude.{
  ◌/◌, ◌%◌, ◌≡◌, refl, inl, true, false, none, some, [], ◌∷◌, ◌++◌, map, arith, All, ok, Among,
}
use ligament_2fa.Eap.Assembler.{new_assembler, reset}
use ligament_2fa.Eap.Bytes.{Bytes}
use ligament_2fa.Eap.Fragment.{feed}
use ligament_2fa.Eap.Mschap.{
  MschapResponse, build_result_and_crypto, parse_result_tlv, has_cryptobinding_tlv,
}
use ligament_2fa.Eap.Mschap.Keys.{Hashes, bits, make_des_key, nt_hash, verify_mschap}
use ligament_2fa.Eap.Mschap.Responses.{make_des_key_parity, spelled}
use ligament_2fa.Eap.Mschap.Tlv.{parse_result_tlv-build_result_and_crypto}
use ligament_2fa.Eap.Packet.{Packet, parse}
use ligament_2fa.Exchange.Factors.{authenticate, granted, Candidate}
use ligament_2fa.Exchange.Factors.Grounds.{Checked}
use ligament_2fa.Exchange.Factors.Soundness.{granted-Checked}
use ligament_2fa.Exchange.Handler.{on_session, on_packet, settle, handle_eap_auth}
use ligament_2fa.Exchange.Handler.Retransmit.{retransmission}
use ligament_2fa.Exchange.Inner.Grants.{Quiet}
use ligament_2fa.Exchange.Reply.{Reply, challenge, accept, Outcome}
use ligament_2fa.Exchange.Server.{Server, Request, Tls, Chance}
use ligament_2fa.Exchange.Session.{
  Session, Proto, proto_peap, proto_ttls, new_session, push_out_queue,
}
use ligament_2fa.Exchange.Session.Drain.{drain, drain-push_out_queue}
use ligament_2fa.Exchange.Session.Hearing.{receive_for}
use ligament_2fa.Exchange.Signature.{
  RadiusPacket, Wire, sign_message_authenticator, has_message_authenticator,
  verify_message_authenticator, verify-sign, zero_mac,
}
use ligament_2fa.Exchange.Table.{create_session}
use ligament_2fa.Exchange.Table.Bounded.{create_spares_active}
use ligament_2fa.Exchange.Table.Keys.{Distinct}
use ligament_2fa.Store.Trust.{radius_trust_upsert}
use ligament_2fa.Store.Trust.Windows.{trusted_for_days, trusted_at, renewed}
use ligament_2fa.Witness.Data.{env, world, push}

-- MD4, SHA-1 and DES are replaced by functions that keep what they are given.
abbrev hashes : Hashes
hashes = record {
  md4 = λ b. b;
  sha1 = λ b. b;
  hmac_sha1 = λ k m. zero_mac ++ (1 ∷ 2 ∷ 3 ∷ 4 ∷ []);
  des = λ k m. [];
  utf16 = λ b. b;
  ascii = λ s. [];
  upper_hex = λ b. b;
}

abbrev pub server : Server
server = record {
  env = env;
  hashes = hashes;
  text = λ b. "alice";
  open_password = λ n sealed. some (sealed ∷ []);
  has_box = true;
  has_certificate = true;
  trust_days = 0;
  totp_period = 30;
}

abbrev pub tls : Tls
tls = record {
  shake = λ b. none;
  app_data = λ b. some b;
  taken = [];
  extra = [];
  stuck = [];
  seal = λ b. some b;
}

abbrev pub request : Bytes → Request
request eap = record {
  state = 10 ∷ [];
  eap = eap;
  framed_mtu = 1400;
  calling_station = [];
  src_ip = "192.0.2.1";
}

abbrev pub chance : Chance
chance = record {
  states = (10 ∷ []) ∷ [];
  challenge = [];
  nonce = [];
  push = record push { radius_push = false };
  ticks = [];
  meanwhile = λ s. s;
}

pub quiet : Quiet chance
quiet = record {
  state = λ s. refl;
  last_req = λ s. refl;
  inner_state = λ s. refl;
  identity = λ s. refl;
}

-- What is sent in the inner phase ends in an Access-Accept.
abbrev response : MschapResponse
response = record { id = 1; peer_challenge = []; nt_response = []; flags = 0; user_name = [] }

abbrev fits : Candidate
fits = record { password = 7 ∷ []; auth_response = 7 ∷ []; timestep = none }

make_des_key_parity_example :
    All (λ k. bits 8 k % 2 ≡ 1) (make_des_key (1 ∷ 2 ∷ 3 ∷ 4 ∷ 5 ∷ 6 ∷ 255 ∷ []))
    × (spelled 128 0 (map (λ k. k / 2) (make_des_key (1 ∷ 2 ∷ 3 ∷ 4 ∷ 5 ∷ 6 ∷ 255 ∷ [])))
        ≡ spelled 256 0 (1 ∷ 2 ∷ 3 ∷ 4 ∷ 5 ∷ 6 ∷ 255 ∷ []))
make_des_key_parity_example = make_des_key_parity 1 2 3 4 5 6 255 (
  omega arith,
  (omega arith, (omega arith, (omega arith, (omega arith, (omega arith, (omega arith, tt)))))),
)

twenty : Bytes → Bytes → Bytes
twenty k m = zero_mac ++ (1 ∷ 2 ∷ 3 ∷ 4 ∷ [])

parse_result_tlv-build_result_and_crypto_example :
    (p : Packet) × ((parse (build_result_and_crypto twenty 9 (zero_mac ++ zero_mac) (5 ∷ []))
        ≡ ok p)
      × ((parse_result_tlv p.payload ≡ ok true) × (has_cryptobinding_tlv p.payload ≡ true)))
unfolding twenty
parse_result_tlv-build_result_and_crypto_example =
    parse_result_tlv-build_result_and_crypto twenty (zero_mac ++ zero_mac) (5 ∷ []) (λ k m. refl)
      refl 9

drain-push_out_queue_example :
    feed (receive_for proto_peap) new_assembler (
      drain 2 (
        push_out_queue
          (1 ∷ 2 ∷ 3 ∷ [])
          (record (new_session 5 (10 ∷ []) (48 ∷ 97 ∷ []) proto_peap) { frag_size = 2 })))
    ≡ some (reset, (1 ∷ 2 ∷ 3 ∷ []) ∷ [])
unfolding new_session push_out_queue ligament_2fa.Eap.Ttls.fragment_loop
drain-push_out_queue_example =
    drain-push_out_queue
      (record (new_session 5 (10 ∷ []) (48 ∷ 97 ∷ []) proto_peap) { frag_size = 2 })
      (1 ∷ 2 ∷ 3 ∷ []) new_assembler refl (omega arith) (omega arith) (omega arith) refl refl

abbrev pub wire : Wire
wire = record { marshal = λ p. some (p.code ∷ []); hmac_md5 = λ k m. zero_mac }

abbrev accept_packet : RadiusPacket
accept_packet = record {
  code = 2;
  identifier = 7;
  authenticator = [];
  secret = 1 ∷ [];
  attributes = [];
}

verify-sign_example :
    (has_message_authenticator (sign_message_authenticator wire accept_packet) ≡ true)
    × (verify_message_authenticator wire (sign_message_authenticator wire accept_packet) ≡ true)
verify-sign_example = verify-sign wire accept_packet (2 ∷ []) (λ k m. refl) refl

trusted_for_days_example :
    trusted_at 86499 1 (65 ∷ 45 ∷ 66 ∷ []) (renewed 1 (97 ∷ 58 ∷ 98 ∷ []) 1 world) ≡ ok true
unfolding radius_trust_upsert ligament_2fa.Store.Trust.normalize_csid
    ligament_2fa.Store.Trust.trim_left ligament_2fa.Store.Trust.trim_right
trusted_for_days_example =
    trusted_for_days 1 1 86499 (97 ∷ 58 ∷ 98 ∷ []) (65 ∷ 45 ∷ 66 ∷ []) world (omega arith)
      (omega arith) refl refl refl

create_spares_active_example :
    Among
      (new_session 5 (10 ∷ []) (48 ∷ 97 ∷ []) proto_peap)
      (create_session 20
        ((11 ∷ []) ∷ [])
        proto_peap
        (new_session 5 (10 ∷ []) (48 ∷ 97 ∷ []) proto_peap ∷ [])).1
unfolding Distinct new_session
create_spares_active_example =
    create_spares_active 20 ((11 ∷ []) ∷ []) proto_peap
      (new_session 5 (10 ∷ []) (48 ∷ 97 ∷ []) proto_peap ∷ []) (refl, tt)
      (new_session 5 (10 ∷ []) (48 ∷ 97 ∷ []) proto_peap) refl (inl refl)

granted-Checked_example : Checked server (request []) chance "alice" response [] world fits
unfolding authenticate ligament_2fa.Auth.Audit.user_by_username
    ligament_2fa.Exchange.Factors.check_locks ligament_2fa.Auth.Radius.radius_locked
    ligament_2fa.Auth.Audit.fail_locked ligament_2fa.Auth.Audit.user_by_id
    ligament_2fa.Exchange.Factors.check_response ligament_2fa.Exchange.Factors.match_candidate
    ligament_2fa.Exchange.Factors.test_candidate verify_mschap
    ligament_2fa.Eap.Mschap.Keys.challenge_response ligament_2fa.Exchange.Factors.second_factor
    ligament_2fa.Exchange.Factors.clean_factor ligament_2fa.Exchange.Trust.radius_trust_trusted
    ligament_2fa.Exchange.Trust.record_event ligament_2fa.Eap.Mschap.Keys.authenticator_response
    nt_hash ligament_2fa.Eap.Mschap.Keys.challenge_hash ligament_2fa.Eap.Mschap.Keys.bare_name
    ligament_2fa.Eap.Mschap.Keys.before_at ligament_2fa.Eap.Mschap.Keys.after_backslash make_des_key
granted-Checked_example =
    granted-Checked server (request []) chance "alice" response [] world fits refl

-- The client asks for TTLS, which the session that has just begun changes to.
abbrev nak : Packet
nak = record { code = 2; id = 2; payload = 3 ∷ 21 ∷ [] }

abbrev begun : Session
begun = new_session 5 (10 ∷ []) (48 ∷ 97 ∷ []) proto_peap

retransmission_example :
    on_packet server
      (request (2 ∷ 2 ∷ 0 ∷ 6 ∷ 3 ∷ 21 ∷ []))
      chance
      tls
      200
      nak
      (record (begun) {
        proto = proto_ttls;
        req_id = 4;
        last_req = 2 ∷ 2 ∷ 0 ∷ 6 ∷ 3 ∷ 21 ∷ [];
        last_resp = 1 ∷ 3 ∷ 0 ∷ 6 ∷ 21 ∷ 32 ∷ [];
      })
      []
      world
    ≡ (
      ok (
          settle begun.state_key [] (record {
            reply = some (challenge (10 ∷ []) (1 ∷ 3 ∷ 0 ∷ 6 ∷ 21 ∷ 32 ∷ []));
            session = some (record (begun) {
              proto = proto_ttls;
              req_id = 4;
              last_req = 2 ∷ 2 ∷ 0 ∷ 6 ∷ 3 ∷ 21 ∷ [];
              last_resp = 1 ∷ 3 ∷ 0 ∷ 6 ∷ 21 ∷ 32 ∷ [];
            });
          })),
      world,
    )
unfolding on_session ligament_2fa.Exchange.Handler.on_nak new_session
    ligament_2fa.Exchange.Session.next_req_id ligament_2fa.Exchange.Reply.send_eap
    ligament_2fa.Eap.Ttls.build_ttls ligament_2fa.Eap.Ttls.ttls_data ligament_2fa.Eap.Packet.build
    ligament_2fa.Eap.Packet.packet_type
retransmission_example =
    retransmission server (request (2 ∷ 2 ∷ 0 ∷ 6 ∷ 3 ∷ 21 ∷ [])) chance tls world quiet nak begun
      (record {
        reply = some (challenge (10 ∷ []) (1 ∷ 3 ∷ 0 ∷ 6 ∷ 21 ∷ 32 ∷ []));
        session = some (record (begun) {
          proto = proto_ttls;
          req_id = 4;
          last_req = 2 ∷ 2 ∷ 0 ∷ 6 ∷ 3 ∷ 21 ∷ [];
          last_resp = 1 ∷ 3 ∷ 0 ∷ 6 ∷ 21 ∷ 32 ∷ [];
        });
      })
      (record (begun) {
        proto = proto_ttls;
        req_id = 4;
        last_req = 2 ∷ 2 ∷ 0 ∷ 6 ∷ 3 ∷ 21 ∷ [];
        last_resp = 1 ∷ 3 ∷ 0 ∷ 6 ∷ 21 ∷ 32 ∷ [];
      })
      (10 ∷ []) (1 ∷ 3 ∷ 0 ∷ 6 ∷ 21 ∷ 32 ∷ []) refl refl refl
      (request (2 ∷ 2 ∷ 0 ∷ 6 ∷ 3 ∷ 21 ∷ [])) chance tls 200 [] world refl
