-- ===== src/Witness/Accepting.antt =====
-- A run of three requests, from no session to an Access-Accept of an inner PAP.
use ligament_2fa.Prelude.{refl, true, some, none, [], ◌∷◌, ok, err, Result, ◌≤◌, length, ◌⊎◌, Among}
use ligament_2fa.Eap.Avp.{build_inner_pap}
use ligament_2fa.Exchange.Handler.{handle_eap_auth, Handled}
use ligament_2fa.Exchange.Handler.Run.{Served, idle, serves, Served-Capped, accept_after_grant}
use ligament_2fa.Exchange.Handler.Visits.{Visit, MschapAt, PapAt}
use ligament_2fa.Exchange.Server.{Tls}
use ligament_2fa.Exchange.Table.{Table, eap_session_cap}
use ligament_2fa.Store.State.{Error}
use ligament_2fa.Witness.Data.{world}
use ligament_2fa.Witness.Exchange.{server, tls, request, chance, quiet}

abbrev after : Result Error Handled → Table
after (ok h) = h.1
after (err e) = []

abbrev joined : Table
joined =
    after (handle_eap_auth server (request (2 ∷ 1 ∷ 0 ∷ 6 ∷ 1 ∷ 97 ∷ [])) chance tls [] world).0

abbrev shaking : Tls
shaking = record (tls) {
  shake = λ b. some (record { output = []; finished = true; exported = [] });
}

abbrev shaken : Table
shaken =
    after
      (handle_eap_auth server (request (2 ∷ 2 ∷ 0 ∷ 7 ∷ 21 ∷ 0 ∷ 1 ∷ [])) chance shaking joined
        world).0

abbrev telling : Tls
telling = record (tls) { app_data = λ b. some (build_inner_pap (97 ∷ []) (7 ∷ 2 ∷ 3 ∷ [])) }

abbrev joining : Visit
joining = record {
  request = request (2 ∷ 1 ∷ 0 ∷ 6 ∷ 1 ∷ 97 ∷ []);
  chance = chance;
  tls = tls;
  world = world;
  table = [];
}

abbrev shaking_hands : Visit
shaking_hands = record {
  request = request (2 ∷ 2 ∷ 0 ∷ 7 ∷ 21 ∷ 0 ∷ 1 ∷ []);
  chance = chance;
  tls = shaking;
  world = world;
  table = joined;
}

abbrev logging_in : Visit
logging_in = record {
  request = request (2 ∷ 3 ∷ 0 ∷ 7 ∷ 21 ∷ 0 ∷ 9 ∷ []);
  chance = chance;
  tls = telling;
  world = world;
  table = shaken;
}

joined-Served : Served server (joining ∷ []) joined
unfolding ligament_2fa.Exchange.Handler.mtu_size ligament_2fa.Exchange.Handler.set_frag_size
    ligament_2fa.Exchange.Handler.settle ligament_2fa.Exchange.Handler.begin_session
    ligament_2fa.Exchange.Handler.on_identity ligament_2fa.Exchange.Handler.on_nak
    ligament_2fa.Exchange.Handler.on_session ligament_2fa.Exchange.Handler.on_packet
    ligament_2fa.Exchange.Handler.handle_eap_auth ligament_2fa.Exchange.Session.new_session
    ligament_2fa.Exchange.Session.next_req_id ligament_2fa.Exchange.Session.push_out_queue
    ligament_2fa.Exchange.Session.build_for ligament_2fa.Exchange.Session.fragment_packet
    ligament_2fa.Exchange.Session.pop_out_fragment ligament_2fa.Exchange.Session.pop_or_ack
    ligament_2fa.Exchange.Session.stash_pending_inner ligament_2fa.Exchange.Table.hex_state
    ligament_2fa.Exchange.Table.cleanup ligament_2fa.Exchange.Table.get_session
    ligament_2fa.Exchange.Table.victim ligament_2fa.Exchange.Table.delete_session
    ligament_2fa.Exchange.Table.fresh_state ligament_2fa.Exchange.Table.make_room
    ligament_2fa.Exchange.Table.create_session ligament_2fa.Exchange.Reply.send_eap
    ligament_2fa.Exchange.Reply.reject_eap ligament_2fa.Exchange.Reply.fail_eap
    ligament_2fa.Exchange.Reply.pump_ttls ligament_2fa.Exchange.Reply.pump_peap
    ligament_2fa.Exchange.Reply.accept_eap ligament_2fa.Exchange.Reply.gather
    ligament_2fa.Exchange.Ttls.finish_inner_pap ligament_2fa.Exchange.Ttls.ttls_avps
    ligament_2fa.Exchange.Ttls.ttls_inner ligament_2fa.Exchange.Ttls.ttls_handshake
    ligament_2fa.Exchange.Ttls.ttls_message ligament_2fa.Exchange.Ttls.handle_ttls
    ligament_2fa.Exchange.Trust.record_event ligament_2fa.Exchange.Trust.audit_radius_fail
    ligament_2fa.Exchange.Trust.radius_trust_trusted
    ligament_2fa.Exchange.Trust.radius_trust_remember ligament_2fa.Exchange.Trust.radius_trust_gate
    ligament_2fa.Exchange.Trust.remember_by_name ligament_2fa.Exchange.Trust.radius_auth_with_trust
    ligament_2fa.Eap.Packet.packet_type ligament_2fa.Eap.Packet.identity_data
    ligament_2fa.Eap.Packet.parse ligament_2fa.Eap.Packet.build
    ligament_2fa.Eap.Packet.build_identity ligament_2fa.Eap.Packet.build_result
    ligament_2fa.Eap.Ttls.start ligament_2fa.Eap.Ttls.more ligament_2fa.Eap.Ttls.length_present
    ligament_2fa.Eap.Ttls.parse_ttls ligament_2fa.Eap.Ttls.ttls_data
    ligament_2fa.Eap.Ttls.build_ttls ligament_2fa.Eap.Ttls.fragment_loop
    ligament_2fa.Eap.Ttls.fragment_ttls ligament_2fa.Eap.Peap.peap_start
    ligament_2fa.Eap.Peap.peap_more ligament_2fa.Eap.Peap.peap_length_present
    ligament_2fa.Eap.Peap.parse_peap ligament_2fa.Eap.Peap.peap_data
    ligament_2fa.Eap.Peap.build_peap ligament_2fa.Eap.Peap.fragment_peap
    ligament_2fa.Eap.Peap.add_peap ligament_2fa.Eap.Assembler.add ligament_2fa.Eap.Avp.complete
    ligament_2fa.Eap.Avp.build_avp ligament_2fa.Eap.Avp.build_inner_pap
    ligament_2fa.Eap.Avp.store_avp ligament_2fa.Eap.Avp.avp_loop ligament_2fa.Eap.Avp.parse_avps
    ligament_2fa.Eap.Fragment.receive_ttls ligament_2fa.Eap.Fragment.receive_peap
    ligament_2fa.Eap.Fragment.feed ligament_2fa.Eap.Flags.all_below
    ligament_2fa.Eap.Mschap.Keys.nt_hash ligament_2fa.Eap.Mschap.Keys.after_backslash
    ligament_2fa.Eap.Mschap.Keys.before_at ligament_2fa.Eap.Mschap.Keys.bare_name
    ligament_2fa.Eap.Mschap.Keys.challenge_hash ligament_2fa.Eap.Mschap.Keys.make_des_key
    ligament_2fa.Eap.Mschap.Keys.challenge_response
    ligament_2fa.Eap.Mschap.Keys.authenticator_response ligament_2fa.Eap.Mschap.Keys.verify_mschap
    ligament_2fa.Eap.Mschap.Keys.master_key ligament_2fa.Eap.Mschap.Keys.start_key
    ligament_2fa.Eap.Mschap.Keys.peap_isk ligament_2fa.Eap.Mschap.Keys.prf_loop
    ligament_2fa.Eap.Mschap.Keys.prf_plus ligament_2fa.Eap.Mschap.Keys.peap_cmk
    ligament_2fa.Eap.Mschap.Keys.peap_csk ligament_2fa.Store.Trust.trim_left
    ligament_2fa.Store.Trust.trim_right ligament_2fa.Store.Trust.normalize_csid
    ligament_2fa.Store.Trust.radius_trust_is_trusted ligament_2fa.Store.Trust.radius_trust_upsert
    ligament_2fa.Store.Trust.radius_trust_cleanup ligament_2fa.Auth.Radius.answer
    ligament_2fa.Auth.Radius.answer_bad_credentials ligament_2fa.Auth.Radius.poll
    ligament_2fa.Auth.Radius.hold ligament_2fa.Auth.Radius.live_pending_push
    ligament_2fa.Auth.Radius.push_gate ligament_2fa.Auth.Radius.delete_challenge
    ligament_2fa.Auth.Radius.deliver ligament_2fa.Auth.Radius.radius_push_mode
    ligament_2fa.Auth.Radius.radius_whole ligament_2fa.Auth.Radius.radius_candidates
    ligament_2fa.Auth.Radius.radius_locked ligament_2fa.Auth.Radius.radius_authenticate
    ligament_2fa.Auth.Audit.audit_ip ligament_2fa.Auth.Audit.audit
    ligament_2fa.Auth.Audit.user_by_id ligament_2fa.Auth.Audit.user_by_username
    ligament_2fa.Auth.Audit.fail_locked ligament_2fa.Auth.Codes.fail_attempt
    ligament_2fa.Auth.Codes.claim ligament_2fa.Auth.Codes.verify_challenge_totp
    ligament_2fa.Auth.Codes.verify_challenge_code ligament_2fa.Auth.Codes.claim_delivered
    ligament_2fa.Auth.Codes.match_delivered ligament_2fa.Auth.Codes.verify_delivered
    ligament_2fa.Auth.Codes.verify_totp_or_delivered ligament_2fa.Auth.Codes.verify_any_code
    ligament_2fa.Auth.Totp.match_window ligament_2fa.Auth.Totp.matched_counter
    ligament_2fa.Auth.Totp.totp_decide ligament_2fa.Auth.Totp.verify_totp
    ligament_2fa.Auth.Split.split_candidates ligament_2fa.Auth.Login.burn_dummy_verify
    ligament_2fa.Auth.Login.verify_password ligament_2fa.Auth.Login.local_verify
    ligament_2fa.Auth.Login.check_first ligament_2fa.Auth.Login.check_whole
    ligament_2fa.Auth.Login.try_candidates ligament_2fa.Auth.Login.login_candidates
    ligament_2fa.Auth.Login.verify_password_and_code ligament_2fa.Store.Challenges.challenge_create
    ligament_2fa.Store.Challenges.challenge_get ligament_2fa.Store.Challenges.challenge_mark_used
    ligament_2fa.Store.Challenges.challenge_decr_attempt
    ligament_2fa.Store.Challenges.challenge_set_push
    ligament_2fa.Store.Challenges.active_code_challenges ligament_2fa.Store.Challenges.last_push_at
    ligament_2fa.Store.Challenges.push_count_since
    ligament_2fa.Store.Challenges.active_app_push_challenges ligament_2fa.Store.Totp.totp_save
    ligament_2fa.Store.Totp.totp_update_secret ligament_2fa.Store.Totp.totp_confirm
    ligament_2fa.Store.Totp.totp_get ligament_2fa.Store.Totp.totp_set_timestep
    ligament_2fa.Store.Totp.totp_delete ligament_2fa.Store.Totp.backup_replace
    ligament_2fa.Store.Totp.backup_consume
joined-Served = serves {t' = joined} joining idle quiet refl

shaken-Served : Served server (shaking_hands ∷ joining ∷ []) shaken
unfolding ligament_2fa.Exchange.Handler.mtu_size ligament_2fa.Exchange.Handler.set_frag_size
    ligament_2fa.Exchange.Handler.settle ligament_2fa.Exchange.Handler.begin_session
    ligament_2fa.Exchange.Handler.on_identity ligament_2fa.Exchange.Handler.on_nak
    ligament_2fa.Exchange.Handler.on_session ligament_2fa.Exchange.Handler.on_packet
    ligament_2fa.Exchange.Handler.handle_eap_auth ligament_2fa.Exchange.Session.new_session
    ligament_2fa.Exchange.Session.next_req_id ligament_2fa.Exchange.Session.push_out_queue
    ligament_2fa.Exchange.Session.build_for ligament_2fa.Exchange.Session.fragment_packet
    ligament_2fa.Exchange.Session.pop_out_fragment ligament_2fa.Exchange.Session.pop_or_ack
    ligament_2fa.Exchange.Session.stash_pending_inner ligament_2fa.Exchange.Table.hex_state
    ligament_2fa.Exchange.Table.cleanup ligament_2fa.Exchange.Table.get_session
    ligament_2fa.Exchange.Table.victim ligament_2fa.Exchange.Table.delete_session
    ligament_2fa.Exchange.Table.fresh_state ligament_2fa.Exchange.Table.make_room
    ligament_2fa.Exchange.Table.create_session ligament_2fa.Exchange.Reply.send_eap
    ligament_2fa.Exchange.Reply.reject_eap ligament_2fa.Exchange.Reply.fail_eap
    ligament_2fa.Exchange.Reply.pump_ttls ligament_2fa.Exchange.Reply.pump_peap
    ligament_2fa.Exchange.Reply.accept_eap ligament_2fa.Exchange.Reply.gather
    ligament_2fa.Exchange.Ttls.finish_inner_pap ligament_2fa.Exchange.Ttls.ttls_avps
    ligament_2fa.Exchange.Ttls.ttls_inner ligament_2fa.Exchange.Ttls.ttls_handshake
    ligament_2fa.Exchange.Ttls.ttls_message ligament_2fa.Exchange.Ttls.handle_ttls
    ligament_2fa.Exchange.Trust.record_event ligament_2fa.Exchange.Trust.audit_radius_fail
    ligament_2fa.Exchange.Trust.radius_trust_trusted
    ligament_2fa.Exchange.Trust.radius_trust_remember ligament_2fa.Exchange.Trust.radius_trust_gate
    ligament_2fa.Exchange.Trust.remember_by_name ligament_2fa.Exchange.Trust.radius_auth_with_trust
    ligament_2fa.Eap.Packet.packet_type ligament_2fa.Eap.Packet.identity_data
    ligament_2fa.Eap.Packet.parse ligament_2fa.Eap.Packet.build
    ligament_2fa.Eap.Packet.build_identity ligament_2fa.Eap.Packet.build_result
    ligament_2fa.Eap.Ttls.start ligament_2fa.Eap.Ttls.more ligament_2fa.Eap.Ttls.length_present
    ligament_2fa.Eap.Ttls.parse_ttls ligament_2fa.Eap.Ttls.ttls_data
    ligament_2fa.Eap.Ttls.build_ttls ligament_2fa.Eap.Ttls.fragment_loop
    ligament_2fa.Eap.Ttls.fragment_ttls ligament_2fa.Eap.Peap.peap_start
    ligament_2fa.Eap.Peap.peap_more ligament_2fa.Eap.Peap.peap_length_present
    ligament_2fa.Eap.Peap.parse_peap ligament_2fa.Eap.Peap.peap_data
    ligament_2fa.Eap.Peap.build_peap ligament_2fa.Eap.Peap.fragment_peap
    ligament_2fa.Eap.Peap.add_peap ligament_2fa.Eap.Assembler.add ligament_2fa.Eap.Avp.complete
    ligament_2fa.Eap.Avp.build_avp ligament_2fa.Eap.Avp.build_inner_pap
    ligament_2fa.Eap.Avp.store_avp ligament_2fa.Eap.Avp.avp_loop ligament_2fa.Eap.Avp.parse_avps
    ligament_2fa.Eap.Fragment.receive_ttls ligament_2fa.Eap.Fragment.receive_peap
    ligament_2fa.Eap.Fragment.feed ligament_2fa.Eap.Flags.all_below
    ligament_2fa.Eap.Mschap.Keys.nt_hash ligament_2fa.Eap.Mschap.Keys.after_backslash
    ligament_2fa.Eap.Mschap.Keys.before_at ligament_2fa.Eap.Mschap.Keys.bare_name
    ligament_2fa.Eap.Mschap.Keys.challenge_hash ligament_2fa.Eap.Mschap.Keys.make_des_key
    ligament_2fa.Eap.Mschap.Keys.challenge_response
    ligament_2fa.Eap.Mschap.Keys.authenticator_response ligament_2fa.Eap.Mschap.Keys.verify_mschap
    ligament_2fa.Eap.Mschap.Keys.master_key ligament_2fa.Eap.Mschap.Keys.start_key
    ligament_2fa.Eap.Mschap.Keys.peap_isk ligament_2fa.Eap.Mschap.Keys.prf_loop
    ligament_2fa.Eap.Mschap.Keys.prf_plus ligament_2fa.Eap.Mschap.Keys.peap_cmk
    ligament_2fa.Eap.Mschap.Keys.peap_csk ligament_2fa.Store.Trust.trim_left
    ligament_2fa.Store.Trust.trim_right ligament_2fa.Store.Trust.normalize_csid
    ligament_2fa.Store.Trust.radius_trust_is_trusted ligament_2fa.Store.Trust.radius_trust_upsert
    ligament_2fa.Store.Trust.radius_trust_cleanup ligament_2fa.Auth.Radius.answer
    ligament_2fa.Auth.Radius.answer_bad_credentials ligament_2fa.Auth.Radius.poll
    ligament_2fa.Auth.Radius.hold ligament_2fa.Auth.Radius.live_pending_push
    ligament_2fa.Auth.Radius.push_gate ligament_2fa.Auth.Radius.delete_challenge
    ligament_2fa.Auth.Radius.deliver ligament_2fa.Auth.Radius.radius_push_mode
    ligament_2fa.Auth.Radius.radius_whole ligament_2fa.Auth.Radius.radius_candidates
    ligament_2fa.Auth.Radius.radius_locked ligament_2fa.Auth.Radius.radius_authenticate
    ligament_2fa.Auth.Audit.audit_ip ligament_2fa.Auth.Audit.audit
    ligament_2fa.Auth.Audit.user_by_id ligament_2fa.Auth.Audit.user_by_username
    ligament_2fa.Auth.Audit.fail_locked ligament_2fa.Auth.Codes.fail_attempt
    ligament_2fa.Auth.Codes.claim ligament_2fa.Auth.Codes.verify_challenge_totp
    ligament_2fa.Auth.Codes.verify_challenge_code ligament_2fa.Auth.Codes.claim_delivered
    ligament_2fa.Auth.Codes.match_delivered ligament_2fa.Auth.Codes.verify_delivered
    ligament_2fa.Auth.Codes.verify_totp_or_delivered ligament_2fa.Auth.Codes.verify_any_code
    ligament_2fa.Auth.Totp.match_window ligament_2fa.Auth.Totp.matched_counter
    ligament_2fa.Auth.Totp.totp_decide ligament_2fa.Auth.Totp.verify_totp
    ligament_2fa.Auth.Split.split_candidates ligament_2fa.Auth.Login.burn_dummy_verify
    ligament_2fa.Auth.Login.verify_password ligament_2fa.Auth.Login.local_verify
    ligament_2fa.Auth.Login.check_first ligament_2fa.Auth.Login.check_whole
    ligament_2fa.Auth.Login.try_candidates ligament_2fa.Auth.Login.login_candidates
    ligament_2fa.Auth.Login.verify_password_and_code ligament_2fa.Store.Challenges.challenge_create
    ligament_2fa.Store.Challenges.challenge_get ligament_2fa.Store.Challenges.challenge_mark_used
    ligament_2fa.Store.Challenges.challenge_decr_attempt
    ligament_2fa.Store.Challenges.challenge_set_push
    ligament_2fa.Store.Challenges.active_code_challenges ligament_2fa.Store.Challenges.last_push_at
    ligament_2fa.Store.Challenges.push_count_since
    ligament_2fa.Store.Challenges.active_app_push_challenges ligament_2fa.Store.Totp.totp_save
    ligament_2fa.Store.Totp.totp_update_secret ligament_2fa.Store.Totp.totp_confirm
    ligament_2fa.Store.Totp.totp_get ligament_2fa.Store.Totp.totp_set_timestep
    ligament_2fa.Store.Totp.totp_delete ligament_2fa.Store.Totp.backup_replace
    ligament_2fa.Store.Totp.backup_consume
shaken-Served = serves {t' = shaken} shaking_hands joined-Served quiet refl

Served-Capped_example : length shaken ≤ eap_session_cap
Served-Capped_example = Served-Capped server (shaking_hands ∷ joining ∷ []) shaken shaken-Served

accept_after_grant_example :
    ((u : Visit) × (Among u (logging_in ∷ shaking_hands ∷ joining ∷ []))
      × (MschapAt server u "alice"))
    ⊎ PapAt server logging_in "alice"
unfolding ligament_2fa.Exchange.Handler.mtu_size ligament_2fa.Exchange.Handler.set_frag_size
    ligament_2fa.Exchange.Handler.settle ligament_2fa.Exchange.Handler.begin_session
    ligament_2fa.Exchange.Handler.on_identity ligament_2fa.Exchange.Handler.on_nak
    ligament_2fa.Exchange.Handler.on_session ligament_2fa.Exchange.Handler.on_packet
    ligament_2fa.Exchange.Handler.handle_eap_auth ligament_2fa.Exchange.Session.new_session
    ligament_2fa.Exchange.Session.next_req_id ligament_2fa.Exchange.Session.push_out_queue
    ligament_2fa.Exchange.Session.build_for ligament_2fa.Exchange.Session.fragment_packet
    ligament_2fa.Exchange.Session.pop_out_fragment ligament_2fa.Exchange.Session.pop_or_ack
    ligament_2fa.Exchange.Session.stash_pending_inner ligament_2fa.Exchange.Table.hex_state
    ligament_2fa.Exchange.Table.cleanup ligament_2fa.Exchange.Table.get_session
    ligament_2fa.Exchange.Table.victim ligament_2fa.Exchange.Table.delete_session
    ligament_2fa.Exchange.Table.fresh_state ligament_2fa.Exchange.Table.make_room
    ligament_2fa.Exchange.Table.create_session ligament_2fa.Exchange.Reply.send_eap
    ligament_2fa.Exchange.Reply.reject_eap ligament_2fa.Exchange.Reply.fail_eap
    ligament_2fa.Exchange.Reply.pump_ttls ligament_2fa.Exchange.Reply.pump_peap
    ligament_2fa.Exchange.Reply.accept_eap ligament_2fa.Exchange.Reply.gather
    ligament_2fa.Exchange.Ttls.finish_inner_pap ligament_2fa.Exchange.Ttls.ttls_avps
    ligament_2fa.Exchange.Ttls.ttls_inner ligament_2fa.Exchange.Ttls.ttls_handshake
    ligament_2fa.Exchange.Ttls.ttls_message ligament_2fa.Exchange.Ttls.handle_ttls
    ligament_2fa.Exchange.Trust.record_event ligament_2fa.Exchange.Trust.audit_radius_fail
    ligament_2fa.Exchange.Trust.radius_trust_trusted
    ligament_2fa.Exchange.Trust.radius_trust_remember ligament_2fa.Exchange.Trust.radius_trust_gate
    ligament_2fa.Exchange.Trust.remember_by_name ligament_2fa.Exchange.Trust.radius_auth_with_trust
    ligament_2fa.Eap.Packet.packet_type ligament_2fa.Eap.Packet.identity_data
    ligament_2fa.Eap.Packet.parse ligament_2fa.Eap.Packet.build
    ligament_2fa.Eap.Packet.build_identity ligament_2fa.Eap.Packet.build_result
    ligament_2fa.Eap.Ttls.start ligament_2fa.Eap.Ttls.more ligament_2fa.Eap.Ttls.length_present
    ligament_2fa.Eap.Ttls.parse_ttls ligament_2fa.Eap.Ttls.ttls_data
    ligament_2fa.Eap.Ttls.build_ttls ligament_2fa.Eap.Ttls.fragment_loop
    ligament_2fa.Eap.Ttls.fragment_ttls ligament_2fa.Eap.Peap.peap_start
    ligament_2fa.Eap.Peap.peap_more ligament_2fa.Eap.Peap.peap_length_present
    ligament_2fa.Eap.Peap.parse_peap ligament_2fa.Eap.Peap.peap_data
    ligament_2fa.Eap.Peap.build_peap ligament_2fa.Eap.Peap.fragment_peap
    ligament_2fa.Eap.Peap.add_peap ligament_2fa.Eap.Assembler.add ligament_2fa.Eap.Avp.complete
    ligament_2fa.Eap.Avp.build_avp ligament_2fa.Eap.Avp.build_inner_pap
    ligament_2fa.Eap.Avp.store_avp ligament_2fa.Eap.Avp.avp_loop ligament_2fa.Eap.Avp.parse_avps
    ligament_2fa.Eap.Fragment.receive_ttls ligament_2fa.Eap.Fragment.receive_peap
    ligament_2fa.Eap.Fragment.feed ligament_2fa.Eap.Flags.all_below
    ligament_2fa.Eap.Mschap.Keys.nt_hash ligament_2fa.Eap.Mschap.Keys.after_backslash
    ligament_2fa.Eap.Mschap.Keys.before_at ligament_2fa.Eap.Mschap.Keys.bare_name
    ligament_2fa.Eap.Mschap.Keys.challenge_hash ligament_2fa.Eap.Mschap.Keys.make_des_key
    ligament_2fa.Eap.Mschap.Keys.challenge_response
    ligament_2fa.Eap.Mschap.Keys.authenticator_response ligament_2fa.Eap.Mschap.Keys.verify_mschap
    ligament_2fa.Eap.Mschap.Keys.master_key ligament_2fa.Eap.Mschap.Keys.start_key
    ligament_2fa.Eap.Mschap.Keys.peap_isk ligament_2fa.Eap.Mschap.Keys.prf_loop
    ligament_2fa.Eap.Mschap.Keys.prf_plus ligament_2fa.Eap.Mschap.Keys.peap_cmk
    ligament_2fa.Eap.Mschap.Keys.peap_csk ligament_2fa.Store.Trust.trim_left
    ligament_2fa.Store.Trust.trim_right ligament_2fa.Store.Trust.normalize_csid
    ligament_2fa.Store.Trust.radius_trust_is_trusted ligament_2fa.Store.Trust.radius_trust_upsert
    ligament_2fa.Store.Trust.radius_trust_cleanup ligament_2fa.Auth.Radius.answer
    ligament_2fa.Auth.Radius.answer_bad_credentials ligament_2fa.Auth.Radius.poll
    ligament_2fa.Auth.Radius.hold ligament_2fa.Auth.Radius.live_pending_push
    ligament_2fa.Auth.Radius.push_gate ligament_2fa.Auth.Radius.delete_challenge
    ligament_2fa.Auth.Radius.deliver ligament_2fa.Auth.Radius.radius_push_mode
    ligament_2fa.Auth.Radius.radius_whole ligament_2fa.Auth.Radius.radius_candidates
    ligament_2fa.Auth.Radius.radius_locked ligament_2fa.Auth.Radius.radius_authenticate
    ligament_2fa.Auth.Audit.audit_ip ligament_2fa.Auth.Audit.audit
    ligament_2fa.Auth.Audit.user_by_id ligament_2fa.Auth.Audit.user_by_username
    ligament_2fa.Auth.Audit.fail_locked ligament_2fa.Auth.Codes.fail_attempt
    ligament_2fa.Auth.Codes.claim ligament_2fa.Auth.Codes.verify_challenge_totp
    ligament_2fa.Auth.Codes.verify_challenge_code ligament_2fa.Auth.Codes.claim_delivered
    ligament_2fa.Auth.Codes.match_delivered ligament_2fa.Auth.Codes.verify_delivered
    ligament_2fa.Auth.Codes.verify_totp_or_delivered ligament_2fa.Auth.Codes.verify_any_code
    ligament_2fa.Auth.Totp.match_window ligament_2fa.Auth.Totp.matched_counter
    ligament_2fa.Auth.Totp.totp_decide ligament_2fa.Auth.Totp.verify_totp
    ligament_2fa.Auth.Split.split_candidates ligament_2fa.Auth.Login.burn_dummy_verify
    ligament_2fa.Auth.Login.verify_password ligament_2fa.Auth.Login.local_verify
    ligament_2fa.Auth.Login.check_first ligament_2fa.Auth.Login.check_whole
    ligament_2fa.Auth.Login.try_candidates ligament_2fa.Auth.Login.login_candidates
    ligament_2fa.Auth.Login.verify_password_and_code ligament_2fa.Store.Challenges.challenge_create
    ligament_2fa.Store.Challenges.challenge_get ligament_2fa.Store.Challenges.challenge_mark_used
    ligament_2fa.Store.Challenges.challenge_decr_attempt
    ligament_2fa.Store.Challenges.challenge_set_push
    ligament_2fa.Store.Challenges.active_code_challenges ligament_2fa.Store.Challenges.last_push_at
    ligament_2fa.Store.Challenges.push_count_since
    ligament_2fa.Store.Challenges.active_app_push_challenges ligament_2fa.Store.Totp.totp_save
    ligament_2fa.Store.Totp.totp_update_secret ligament_2fa.Store.Totp.totp_confirm
    ligament_2fa.Store.Totp.totp_get ligament_2fa.Store.Totp.totp_set_timestep
    ligament_2fa.Store.Totp.totp_delete ligament_2fa.Store.Totp.backup_replace
    ligament_2fa.Store.Totp.backup_consume
accept_after_grant_example =
    accept_after_grant server (shaking_hands ∷ joining ∷ []) logging_in shaken-Served quiet "alice"
      (3 ∷ 3 ∷ 0 ∷ 4 ∷ []) none [] refl
