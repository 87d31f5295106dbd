-- ===== src/Witness/Auth.antt =====
-- Witnesses for the authentication core.
use ligament_2fa.Prelude.{◌+◌, ◌≤◌, ◌≡◌, refl, ◌≢◌, true, [], ◌∷◌, arith, ok}
use ligament_2fa.Auth.Audit.{audit, audit_ip, user_by_id, user_by_username, fail_locked}
use ligament_2fa.Auth.Codes.{
  verify_any_code, verify_challenge_code, claim, claim_delivered, match_delivered, verify_delivered,
  verify_totp_or_delivered, login_code_purposes,
}
use ligament_2fa.Auth.Codes.Factor.{verify_any_code-Factor, Factor}
use ligament_2fa.Auth.Codes.SingleUse.{verify_challenge_code_once}
use ligament_2fa.Auth.Login.{
  verify_password_and_code, login_candidates, local_verify, verify_password, check_first,
  try_candidates,
}
use ligament_2fa.Auth.Login.Cost.{login_one_argon2}
use ligament_2fa.Auth.Login.Soundness.{Passed, login_has_both_factors}
use ligament_2fa.Auth.Radius.{
  radius_authenticate, radius_candidates, radius_locked, hold, poll, polls, answer,
}
use ligament_2fa.Auth.Radius.Grounds.{Grounds}
use ligament_2fa.Auth.Radius.Hold.{Reached, hold_answers, hold-Reached, is_answered}
use ligament_2fa.Auth.Radius.Soundness.{radius_has_both_factors, radius_one_argon2}
use ligament_2fa.Auth.Split.{split_candidates}
use ligament_2fa.Auth.Totp.{verify_totp, totp_decide, match_window, matched_counter}
use ligament_2fa.Auth.Totp.Replay.{verify_totp_advances, Advanced}
use ligament_2fa.Store.Challenges.{challenge_mark_used, challenge_get, active_code_challenges}
use ligament_2fa.Store.Challenges.Claims.{marks_used, passes, run_ops, claim_once}
use ligament_2fa.Store.State.{email}
use ligament_2fa.Store.Totp.{totp_get, totp_set_timestep, backup_consume}
use ligament_2fa.Witness.Data.{env, alice, mail_code, world, push}

claim_once_example :
    (challenge_mark_used 10
      (run_ops (passes 5 ∷ marks_used 11 ∷ []) (challenge_mark_used 10 world).1)).0
    ≢ ok tt
unfolding challenge_mark_used
claim_once_example = claim_once 10 world (passes 5 ∷ marks_used 11 ∷ []) refl (tt, (tt, tt))

verify_challenge_code_once_example :
    (verify_challenge_code env mail_code
      (2 ∷ 3 ∷ [])
      (run_ops (passes 5 ∷ []) (verify_challenge_code env mail_code (5 ∷ []) world).1)).0
    ≢ ok true
unfolding verify_challenge_code user_by_id claim challenge_mark_used audit audit_ip
verify_challenge_code_once_example =
    verify_challenge_code_once env env mail_code (5 ∷ []) (2 ∷ 3 ∷ []) world (passes 5 ∷ []) refl
      (tt, tt)

verify_totp_advances_example :
    Advanced env alice (4 ∷ []) world (verify_totp env alice (4 ∷ []) world).1
unfolding verify_totp totp_get totp_decide matched_counter match_window totp_set_timestep
verify_totp_advances_example = verify_totp_advances env alice (4 ∷ []) world refl

verify_any_code-Factor_example :
    Factor env alice
      (5 ∷ [])
      ("api" ∷ [])
      world
      email
      (verify_any_code env alice (5 ∷ []) ("api" ∷ []) world).1
unfolding verify_any_code backup_consume verify_totp_or_delivered verify_totp totp_get totp_decide
    matched_counter match_window totp_set_timestep verify_delivered active_code_challenges
    match_delivered claim_delivered challenge_mark_used
verify_any_code-Factor_example =
    verify_any_code-Factor env alice (5 ∷ []) ("api" ∷ []) world email refl

login_has_both_factors_example :
    Passed env world alice "alice" login_code_purposes (login_candidates env (7 ∷ []) (5 ∷ []))
unfolding verify_password_and_code user_by_username fail_locked user_by_id login_candidates
    try_candidates verify_any_code backup_consume verify_totp_or_delivered verify_totp totp_get
    totp_decide matched_counter match_window totp_set_timestep verify_delivered
    active_code_challenges match_delivered claim_delivered challenge_mark_used check_first
    local_verify verify_password audit audit_ip
login_has_both_factors_example =
    login_has_both_factors env "alice" (7 ∷ []) (5 ∷ []) login_code_purposes world alice refl

login_one_argon2_example :
    (verify_password_and_code env "alice" (7 ∷ []) (9 ∷ []) login_code_purposes world).1.argon2_runs
    ≤ 0 + 1
login_one_argon2_example = login_one_argon2 env "alice" (7 ∷ []) (9 ∷ []) login_code_purposes world

radius_one_argon2_example :
    (radius_authenticate env push "alice" "198.51.100.1"
      (polls 0 [] ∷ [])
      (7 ∷ [])
      world).1.argon2_runs
    ≤ 0 + 1
radius_one_argon2_example =
    radius_one_argon2 env push "alice" "198.51.100.1" (polls 0 [] ∷ []) (7 ∷ []) world

hold_answers_example :
    is_answered
      (hold env "alice" "198.51.100.1" 10 102 0 (polls 0 [] ∷ polls 0 [] ∷ polls 0 [] ∷ []) world).0
    ≡ true
hold_answers_example =
    hold_answers env "alice" "198.51.100.1" 10 102 0 (polls 0 [] ∷ polls 0 [] ∷ polls 0 [] ∷ [])
      world (omega arith) (omega arith)

hold-Reached_example : Reached 11 103 (polls 0 [] ∷ []) world
unfolding hold poll challenge_get challenge_mark_used answer audit audit_ip run_ops
hold-Reached_example =
    hold-Reached env "alice" "198.51.100.1" 11 103 0 (polls 0 [] ∷ []) world "push_ok" refl

radius_has_both_factors_example : Grounds env push [] world "alice" (7 ∷ 2 ∷ 3 ∷ [])
unfolding radius_authenticate user_by_username radius_locked fail_locked user_by_id split_candidates
    radius_candidates verify_any_code backup_consume verify_totp_or_delivered verify_totp totp_get
    totp_decide matched_counter match_window totp_set_timestep verify_delivered
    active_code_challenges match_delivered claim_delivered challenge_mark_used local_verify
    verify_password answer audit audit_ip
radius_has_both_factors_example =
    radius_has_both_factors env push "alice" "198.51.100.1" [] (7 ∷ 2 ∷ 3 ∷ []) world "code_ok" refl
