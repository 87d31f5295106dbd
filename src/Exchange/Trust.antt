-- ===== src/Exchange/Trust.antt =====
-- internal/radiusserver/server.go: RADIUS authentication with the window of trust for a device.
use ligament_2fa.Prelude.{
  ℕ, Bool, true, false, not, ◌||◌, some, [], ◌∷◌, ◌==◌, if◌then◌else◌, ok, err, String, str_eq,
}
use ligament_2fa.Auth.Audit.{user_by_username, write_entry}
use ligament_2fa.Auth.Login.{local_verify}
use ligament_2fa.Auth.Radius.{Answer, radius_authenticate}
use ligament_2fa.Eap.Bytes.{Bytes}
use ligament_2fa.Exchange.Server.{Server, Chance}
use ligament_2fa.Store.State.{
  Event, radius_auth, radius_fail, radius_trust_skip, M, ◌>>=◌, ◌>>◌, return, attempt, query,
}
use ligament_2fa.Store.Trust.{normalize_csid, radius_trust_is_trusted, radius_trust_upsert}

-- `(*Store).Audit`, whose errors are logged and forgotten here.
unfoldable pub record_event : String → Event → String → Bool → M (Unit {0})
record_event username event reason success w = (
  ok tt,
  elim (query w).0 [
    | ok _ ↦ write_entry username event reason success (query w).1
    | err _ ↦ (query w).1
  ],
)

-- `auditRADIUSFail`.
unfoldable pub audit_radius_fail : String → String → M (Unit {0})
audit_radius_fail username reason = do
  record_event username radius_auth reason false
  record_event username radius_fail reason false

abbrev is_nil : Bytes → Bool
is_nil [] = true
is_nil (_ ∷ _) = false

-- `radiusTrustTrusted`.
unfoldable pub radius_trust_trusted : Server → ℕ → Bytes → M Bool
radius_trust_trusted server user csid =
    if server.trust_days == 0 || is_nil (normalize_csid csid)
    then return false
    else radius_trust_is_trusted user (normalize_csid csid)

-- `radiusTrustRemember`; an error is logged and forgotten.
unfoldable pub radius_trust_remember : Server → ℕ → Bytes → M (Unit {0})
radius_trust_remember server user csid =
    if server.trust_days == 0
    then return tt
    else (attempt (radius_trust_upsert user csid server.trust_days) >> return tt)

-- `radiusTrustGate`: the device is trusted, and the password is right.
unfoldable pub radius_trust_gate : Server → String → Bytes → Bytes → M Bool
radius_trust_gate server username pap csid =
    if server.trust_days == 0 || is_nil (normalize_csid csid) then return false else (do
      found ← attempt (user_by_username username)
      elim found [
        | err _ ↦ return false
        | ok u ↦ if not u.enabled then return false else (do
          trusted ← radius_trust_is_trusted u.id (normalize_csid csid)
          if trusted
              then (do
                good ← attempt (local_verify server.env username pap)
                elim good [ err _ ↦ return false | ok _ ↦ return true ])
              else return false)
      ])

abbrev pub is_second_factor : String → Bool
is_second_factor reason = str_eq reason "push_ok" || str_eq reason "code_ok"

-- The device of a user who has just shown a second factor is trusted from then on.
unfoldable pub remember_by_name : Server → String → Bytes → M (Unit {0})
remember_by_name server username csid = do
  found ← attempt (user_by_username username)
  elim found [ err _ ↦ return tt | ok u ↦ radius_trust_remember server u.id csid ]

abbrev after_core : Server → String → Bytes → Answer → M Answer
after_core server username csid (some (true, reason)) =
    if is_second_factor reason
    then remember_by_name server username csid >> return (some (true, reason))
    else return (some (true, reason))
after_core server username csid other = return other

-- `radiusAuthWithTrust`.
unfoldable pub radius_auth_with_trust : Server → Chance → String → Bytes → Bytes → String → M Answer
radius_auth_with_trust server c username pap csid src_ip = do
  skip ← radius_trust_gate server username pap csid
  if skip
      then record_event username radius_trust_skip "trusted_device" true
        >> return (some (true, "trust_skip"))
      else (do
        answer ← radius_authenticate server.env c.push username src_ip c.ticks pap
        after_core server username csid answer)
