-- ===== src/Witness/Access.antt =====
-- A PAP request with a right Message-Authenticator, from an address that is on no list.
use ligament_2fa.Prelude.{refl, true, none, [], ◌∷◌}
use ligament_2fa.Exchange.Access.{Policy, Incoming, Front, pap_accept}
use ligament_2fa.Exchange.Access.Admission.{Admitted, accept-Admitted}
use ligament_2fa.Exchange.Signature.{RadiusPacket, zero_mac}
use ligament_2fa.Witness.Data.{world}
use ligament_2fa.Witness.Exchange.{server, wire, tls, request, chance}
use ligament_2fa.Witness.Firewall.{net, state}

abbrev policy : Policy
policy = record { limit_pps = 5; require_message_authenticator = true; has_firewall = true }

abbrev signed : RadiusPacket
signed = record {
  code = 1;
  identifier = 7;
  authenticator = [];
  secret = 1 ∷ [];
  attributes = record { kind = 80; value = zero_mac } ∷ [];
}

abbrev incoming : Incoming
incoming = record {
  packet = signed;
  eap = none;
  user_name = "alice";
  password = 7 ∷ 2 ∷ 3 ∷ [];
  request = record (request []) { src_ip = "203.0.113.9" };
  acct_status = 0;
  time = 50;
}

abbrev front : Front
front = record {
  limiter = record { buckets = []; dropped = 0; last_sweep = 0 };
  guard = record (state) { bans = [] };
  table = [];
}

accept-Admitted_example : Admitted server wire net policy chance tls incoming front
unfolding ligament_2fa.Exchange.Access.check_request_message_authenticator
    ligament_2fa.Exchange.Access.serve ligament_2fa.Exchange.Access.past_authenticator
    ligament_2fa.Exchange.Access.past_limiter ligament_2fa.Exchange.Access.handle_auth
    ligament_2fa.Exchange.Access.account ligament_2fa.Exchange.Access.acct_past_limiter
    ligament_2fa.Exchange.Access.handle_acct
    ligament_2fa.Exchange.Signature.has_message_authenticator
    ligament_2fa.Exchange.Signature.set_first
    ligament_2fa.Exchange.Signature.verify_message_authenticator
    ligament_2fa.Exchange.Signature.sign_message_authenticator
    ligament_2fa.Exchange.Trust.record_event ligament_2fa.Exchange.Trust.audit_radius_fail
    ligament_2fa.Exchange.Trust.radius_trust_trusted
    ligament_2fa.Exchange.Trust.radius_trust_remember ligament_2fa.Exchange.Trust.radius_trust_gate
    ligament_2fa.Exchange.Trust.remember_by_name ligament_2fa.Exchange.Trust.radius_auth_with_trust
    ligament_2fa.Firewall.Guard.invalidate ligament_2fa.Firewall.Guard.prefixes
    ligament_2fa.Firewall.Guard.load_if_stale ligament_2fa.Firewall.Guard.check_addr
    ligament_2fa.Firewall.Guard.check_until ligament_2fa.Firewall.Guard.fail_addr
    ligament_2fa.Firewall.Guard.fail ligament_2fa.Firewall.Net.host_only
    ligament_2fa.Firewall.Net.contains ligament_2fa.Firewall.Net.parse_prefixes
    ligament_2fa.Firewall.Bans.fail_row ligament_2fa.Firewall.Bans.ban_fail
    ligament_2fa.Firewall.Bans.ban_active ligament_2fa.Firewall.Bans.ban_delete
    ligament_2fa.RateLimit.refill ligament_2fa.RateLimit.sweep ligament_2fa.RateLimit.allow
    ligament_2fa.Store.Trust.trim_left ligament_2fa.Store.Trust.trim_right
    ligament_2fa.Store.Trust.normalize_csid ligament_2fa.Store.Trust.radius_trust_is_trusted
    ligament_2fa.Store.Trust.radius_trust_upsert ligament_2fa.Store.Trust.radius_trust_cleanup
    ligament_2fa.Auth.Radius.answer ligament_2fa.Auth.Radius.answer_bad_credentials
    ligament_2fa.Auth.Radius.poll ligament_2fa.Auth.Radius.hold
    ligament_2fa.Auth.Radius.live_pending_push ligament_2fa.Auth.Radius.push_gate
    ligament_2fa.Auth.Radius.delete_challenge ligament_2fa.Auth.Radius.deliver
    ligament_2fa.Auth.Radius.radius_push_mode ligament_2fa.Auth.Radius.radius_whole
    ligament_2fa.Auth.Radius.radius_candidates ligament_2fa.Auth.Radius.radius_locked
    ligament_2fa.Auth.Radius.radius_authenticate ligament_2fa.Auth.Audit.audit_ip
    ligament_2fa.Auth.Audit.audit ligament_2fa.Auth.Audit.user_by_id
    ligament_2fa.Auth.Audit.user_by_username ligament_2fa.Auth.Audit.fail_locked
    ligament_2fa.Auth.Codes.fail_attempt ligament_2fa.Auth.Codes.claim
    ligament_2fa.Auth.Codes.verify_challenge_totp ligament_2fa.Auth.Codes.verify_challenge_code
    ligament_2fa.Auth.Codes.claim_delivered ligament_2fa.Auth.Codes.match_delivered
    ligament_2fa.Auth.Codes.verify_delivered ligament_2fa.Auth.Codes.verify_totp_or_delivered
    ligament_2fa.Auth.Codes.verify_any_code ligament_2fa.Auth.Totp.match_window
    ligament_2fa.Auth.Totp.matched_counter ligament_2fa.Auth.Totp.totp_decide
    ligament_2fa.Auth.Totp.verify_totp ligament_2fa.Auth.Split.split_candidates
    ligament_2fa.Auth.Login.burn_dummy_verify ligament_2fa.Auth.Login.verify_password
    ligament_2fa.Auth.Login.local_verify ligament_2fa.Auth.Login.check_first
    ligament_2fa.Auth.Login.check_whole ligament_2fa.Auth.Login.try_candidates
    ligament_2fa.Auth.Login.login_candidates ligament_2fa.Auth.Login.verify_password_and_code
    ligament_2fa.Store.Challenges.challenge_create ligament_2fa.Store.Challenges.challenge_get
    ligament_2fa.Store.Challenges.challenge_mark_used
    ligament_2fa.Store.Challenges.challenge_decr_attempt
    ligament_2fa.Store.Challenges.challenge_set_push
    ligament_2fa.Store.Challenges.active_code_challenges ligament_2fa.Store.Challenges.last_push_at
    ligament_2fa.Store.Challenges.push_count_since
    ligament_2fa.Store.Challenges.active_app_push_challenges ligament_2fa.Store.Totp.totp_save
    ligament_2fa.Store.Totp.totp_update_secret ligament_2fa.Store.Totp.totp_confirm
    ligament_2fa.Store.Totp.totp_get ligament_2fa.Store.Totp.totp_set_timestep
    ligament_2fa.Store.Totp.totp_delete ligament_2fa.Store.Totp.backup_replace
    ligament_2fa.Store.Totp.backup_consume
accept-Admitted_example =
    accept-Admitted server wire net policy chance tls incoming front _ world (pap_accept "alice")
      refl refl
