-- ===== src/Auth/Audit.antt =====
-- `(*Core).audit` and `FailLocked` of internal/auth/core.go: the audit log is the source of the
-- per-user fail counter, and feeds the firewall's counter by address.
use ligament_2fa.Prelude.{
  ℕ, ◌+◌, max, Bool, true, false, not, ◌&&◌, ◌||◌, Option, none, some, List, [], ◌∷◌, ltb, leb,
  ◌==◌, if◌then◌else◌, length, ok, err, select, find, String, str_eq,
}
use ligament_2fa.Auth.Config.{Env, Context, Settings}
use ligament_2fa.Store.State.{
  Event, login_fail, code_fail, radius_fail, AuditEntry, User, World, not_found, M, ◌>>=◌, ◌>>◌,
  return, fail, attempt, get, query,
}

-- The address that an entry carries: the argument, else the caller's, unless the client's own
-- address is known and the other is empty or local.
unfoldable pub audit_ip : Context → String → String
audit_ip ctx ip =
    let given = if str_eq ip "" then ctx.ip else ip in
    if not (str_eq ctx.client_ip "") && (str_eq given "" || str_eq given "127.0.0.1")
    then ctx.client_ip
    else given

abbrev pub counts_by_ip : Event → Bool
counts_by_ip login_fail = true
counts_by_ip code_fail = true
counts_by_ip _ = false

abbrev pub write_entry : String → Event → String → Bool → World → World
write_entry username event reason success w = record w {
  audit_log =
      record { username = username; event = event; reason = reason; success = success; ts = w.now }
      ∷ w.audit_log;
}

abbrev feed_firewall : Env → Event → Bool → String → World → World
feed_firewall env event success ip w =
    if not success && env.has_firewall && counts_by_ip event && not (str_eq ip "")
    then record w { fw_fails = (ip, event) ∷ w.fw_fails }
    else w

-- A failed write is logged and forgotten; the firewall is told in any case.
unfoldable pub audit : Env → String → Event → String → String → Bool → M (Unit {0})
audit env username event reason ip success w = (
  ok tt,
  feed_firewall env event success (audit_ip env.context ip) (elim (query w).0 [
    | ok _ ↦ write_entry username event reason success (query w).1
    | err _ ↦ (query w).1
  ]),
)

abbrev pub user_is : ℕ → User → Bool
user_is i u = u.id == i

abbrev pub user_named : String → User → Bool
user_named name u = str_eq u.username name

-- internal/store/users.go: `UserByID` and `UserByUsername`.
unfoldable pub user_by_id : ℕ → M User
user_by_id i = do
  query
  w ← get
  elim (find (user_is i) w.users) [ none ↦ fail not_found | some u ↦ return u ]

unfoldable pub user_by_username : String → M User
user_by_username name = do
  query
  w ← get
  elim (find (user_named name) w.users) [ none ↦ fail not_found | some u ↦ return u ]

abbrev pub is_fail_event : Event → Bool
is_fail_event login_fail = true
is_fail_event code_fail = true
is_fail_event radius_fail = true
is_fail_event _ = false

-- The rows that `FailLocked` counts: failures of the user, younger than the window.
abbrev pub counted : String → ℕ → ℕ → AuditEntry → Bool
counted name now window e =
    str_eq e.username name && is_fail_event e.event && not e.success && ltb now (e.ts + window)

abbrev pub latest_ts : List AuditEntry → Option ℕ
latest_ts [] = none
latest_ts (e ∷ es) = elim (latest_ts es) [ none ↦ some e.ts | some t ↦ some (max t e.ts) ]

-- `count >= MaxFail && time.Since(latest) < BanTime`, false where there is no row.
abbrev locked_by : Settings → ℕ → List AuditEntry → Bool
locked_by s now rows = elim (latest_ts rows) [
  | none ↦ false
  | some t ↦ leb s.max_fail (length rows) && ltb now (t + s.ban_time)
]

-- `(*Core).FailLocked`: an error of a read counts as not locked.
unfoldable pub fail_locked : Env → ℕ → M Bool
fail_locked env user = do
  found ← attempt (user_by_id user)
  elim found [
    | err _ ↦ return false
    | ok u ↦ (do
      read ← attempt query
      w ← get
      elim read [
        | err _ ↦ return false
        | ok _ ↦ return (
            locked_by env.settings w.now
              (select (counted u.username w.now env.settings.fail_window) w.audit_log))
      ])
  ]
