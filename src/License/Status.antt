-- ===== src/License/Status.antt =====
-- internal/license/state.go: `computeStatus`, `daysLeft` and `CheckBuildAllowed`.
pub mod Safety
use ligament_2fa.Prelude.{
  ℕ, zero, suc, ◌+◌, ◌-◌, ◌*◌, ◌/◌, ◌%◌, ◌^◌, ◌≤◌, ◌<◌, min, max, bit_and, bit_or, ◌≡◌, refl, sym,
  ap, ◌∙◌, subst, ◌≢◌, ◌↔◌, ◌⊎◌, inl, inr, Bool, true, false, not, ◌&&◌, ◌||◌, Option, none, some,
  List, [], ◌∷◌, ◌++◌, map, append-nil, append_assoc, arith, ltb, leb, ◌==◌, if◌then◌else◌, ltb→lt,
  lt→ltb, leb→le, ==_iff, tests, Bool-cases, Option-cases, length, get_or, take, drop, All, slice,
  length-append, take-append-drop, length-take, length-drop, take-append, drop-append, take_all,
  drop_all, Result, ok, err, is_ok, any, count_where, select, update_where, find, String, str_eq,
  Among, Among-select,
}
use ligament_2fa.License.File.{
  day, Plan, subscription, perpetual, demo, other, Payload, Vendor, parse_license, parse_revocation,
}

pub data Mode : Type 0 where
  free trial licensed : Mode

abbrev pub free_user_limit : ℕ
free_user_limit = 5

-- `graceLic`.
abbrev pub grace_lic : ℕ
grace_lic = 5 * day

-- `Status`, without the two fields that the API fills.
pub record Status : Type 0 where
  pub mode : Mode
  pub user_limit : ℕ
  pub lic_id : String
  pub customer : String
  pub plan : Option Plan
  pub features : List String
  pub revoked : Bool
  pub expired : Bool
  pub grace : Bool
  pub days_left : ℕ
  pub trial_days_left : ℕ
  pub updates_until : ℕ

abbrev pub free_status : Status
free_status = record {
  mode = free;
  user_limit = free_user_limit;
  lic_id = "";
  customer = "";
  plan = none;
  features = [];
  revoked = false;
  expired = false;
  grace = false;
  days_left = 0;
  trial_days_left = 0;
  updates_until = 0;
}

-- Days up to the deadline, rounded up; the code's float quotient is taken exactly.
unfoldable pub days_until : ℕ → ℕ → ℕ
days_until now deadline = (deadline - now + (day - 1)) / day

-- The status that the payload describes, before its dates are looked at.
abbrev pub meta : Payload → Status
meta p = record free_status {
  user_limit = p.user_limit;
  lic_id = p.lic_id;
  customer = p.customer;
  plan = some p.plan;
  features = p.features;
  updates_until = p.maintenance_expires;
}

abbrev pub expired_status : Payload → Status
expired_status p = record (meta p) { mode = free; user_limit = free_user_limit; expired = true }

abbrev pub revoked_status : Payload → Status
revoked_status p = record free_status {
  revoked = true;
  lic_id = p.lic_id;
  customer = p.customer;
  plan = some p.plan;
}

abbrev pub is_revocable : Plan → Bool
is_revocable subscription = true
is_revocable demo = true
is_revocable _ = false

-- The revocation on file names this licence.
unfoldable pub is_revoked : Vendor → String → Payload → Bool
is_revoked vendor crl p =
    is_revocable p.plan
    && not (str_eq crl "")
    && elim (parse_revocation vendor crl) [ ok r ↦ str_eq r.lic_id p.lic_id | err _ ↦ false ]

-- The dates of the plan.
unfoldable pub dated_status : ℕ → Payload → Plan → Option ℕ → Status
dated_status now p demo (some t) =
    if ltb now t
    then record (meta p) { mode = trial; trial_days_left = days_until now t }
    else expired_status p
dated_status now p demo none = expired_status p
dated_status now p subscription (some t) =
    if ltb (t + grace_lic) now
    then expired_status p
    else (if ltb t now
        then record (meta p) { mode = licensed; grace = true }
        else record (meta p) { mode = licensed; days_left = days_until now t })
dated_status now p _ _ = record (meta p) { mode = licensed }

-- `computeStatus`.
unfoldable pub compute_status : Vendor → ℕ → String → String → Status
compute_status vendor now blob crl =
    if str_eq blob "" then free_status else elim (parse_license vendor blob) [
      | err _ ↦ free_status
      | ok p ↦
          if is_revoked vendor crl p
          then revoked_status p
          else dated_status now p p.plan p.expires_at
    ]

-- `CheckBuildAllowed`, given what `time.Parse` makes of the build date; true where it is allowed.
unfoldable pub check_build_allowed : Option ℕ → Status → Bool
check_build_allowed none st = true
check_build_allowed (some built) st = elim st.mode [
  | licensed ↦ not (ltb (st.updates_until / day * day) built)
  | _ ↦ true
]
