-- ===== src/License/Manager.antt =====
-- internal/license/state.go, `Manager`: the stored licence, its revocation, and the thirty days in
-- which users may still be created over the limit.
pub mod OverLimit
pub mod Upload
use ligament_2fa.Prelude.{
  ℕ, ◌-◌, ◌*◌, ◌/◌, Bool, true, false, Option, none, some, List, [], ◌∷◌, leb, if◌then◌else◌,
  Result, ok, err, String,
}
use ligament_2fa.License.File.{
  day, Payload, Revocation, Vendor, LicenseError, revoked, db_error, parse_license,
  parse_revocation,
}
use ligament_2fa.License.Status.{Status, compute_status, is_revocable, is_revoked}

-- The rows of the settings table under license.*: a missing text reads as the empty one, and
-- `over_limit` holds the time, or `broken` where the value is no time in RFC 3339.
pub data StoredTime : Type 0 where
  missing : StoredTime
  broken : StoredTime
  at : ℕ → StoredTime

-- `faults` says of each coming query whether the database reports an error.
pub record Table : Type 0 where
  pub blob : String
  pub crl : String
  pub over_limit_since : StoredTime
  pub faults : List Bool

abbrev pub L : Type 0 → Type 0
L A = Table → Result LicenseError A × Table

-- A query, and what is done where it succeeds.
abbrev with_fault : {A : Type 0} → List Bool → L A → L A
with_fault [] f t = f t
with_fault (true ∷ rest) f t = (err db_error, record t { faults = rest })
with_fault (false ∷ rest) f t = f (record t { faults = rest })

abbrev pub querying : {A : Type 0} → L A → L A
querying f t = with_fault t.faults f t

-- `loadString` of license.blob and of license.crl.
unfoldable pub load_blob : L String
load_blob = querying (λ t. (ok t.blob, t))

unfoldable pub load_crl : L String
load_crl = querying (λ t. (ok t.crl, t))

-- `saveString` of either.
unfoldable pub save_blob : String → L (Unit {0})
save_blob s = querying (λ t. (ok tt, record t { blob = s }))

unfoldable pub save_crl : String → L (Unit {0})
save_crl s = querying (λ t. (ok tt, record t { crl = s }))

abbrev time_of : StoredTime → Option ℕ
time_of (at t) = some t
time_of _ = none

-- `loadTimeTolerant`.
unfoldable pub load_time_tolerant : L (Option ℕ)
load_time_tolerant = querying (λ t. (ok (time_of t.over_limit_since), t))

abbrev pub second : ℕ
second = 1000000000

-- RFC 3339 keeps whole seconds; a row that is there stays (ON CONFLICT DO NOTHING).
abbrev keep_first : ℕ → StoredTime → StoredTime
keep_first now missing = at (now / second * second)
keep_first now s = s

-- `saveTime`.
unfoldable pub save_time : ℕ → L (Unit {0})
save_time now =
    querying (λ t. (ok tt, record t { over_limit_since = keep_first now t.over_limit_since }))

abbrev pub and_then :
    {A B : Type 0} → Result LicenseError A × Table → (A → L B) → Result LicenseError B × Table
and_then (ok a, t) f = f a t
and_then (err e, t) f = (err e, t)

-- `Effective`.
unfoldable pub effective : Vendor → ℕ → L Status
effective vendor now t =
    and_then (load_blob t) (λ blob t'.
      and_then (load_crl t') (λ crl t''. (ok (compute_status vendor now blob crl), t'')))

-- The revocation check of `Upload`; an error of the read counts as no revocation.
abbrev upload_revoked : Vendor → Payload → Result LicenseError String → Bool
upload_revoked vendor p (ok crl) = is_revoked vendor crl p
upload_revoked vendor p (err e) = false

abbrev save_license : Payload → String → Bool → L Payload
save_license p blob true t = (err revoked, t)
save_license p blob false t = and_then (save_blob blob t) (λ _ t'. (ok p, t'))

-- `Upload`.
unfoldable pub upload : Vendor → String → L Payload
upload vendor blob t = elim (parse_license vendor blob) [
  | err e ↦ (err e, t)
  | ok p ↦
      if is_revocable p.plan
      then (let r = load_crl t in save_license p blob (upload_revoked vendor p r.0) r.1)
      else save_license p blob false t
]

-- `UploadCRL`.
unfoldable pub upload_crl : Vendor → String → L Revocation
upload_crl vendor blob t = elim (parse_revocation vendor blob) [
  | err e ↦ (err e, t)
  | ok r ↦ and_then (save_crl blob t) (λ _ t'. (ok r, t'))
]

-- `Remove`.
unfoldable pub remove : L (Unit {0})
remove = querying (λ t. (ok tt, record t { blob = "" }))

-- `OverLimitDecision`.
pub record OverLimitDecision : Type 0 where
  pub allowed : Bool
  pub since : ℕ
  pub first : Bool

abbrev pub over_limit_grace : ℕ
over_limit_grace = 30 * day

abbrev since_or : ℕ → Result LicenseError (Option ℕ) → ℕ
since_or now (ok (some t)) = t
since_or now _ = now

-- The first time over the limit: the instant is written, and read again.
abbrev first_over : ℕ → L OverLimitDecision
first_over now t = and_then (save_time now t) (λ _ t'.
    let r = load_time_tolerant t' in
    (ok (record { allowed = true; since = since_or now r.0; first = true }), r.1))

-- `OverLimit`.
unfoldable pub over_limit : ℕ → L OverLimitDecision
over_limit now t = and_then (load_time_tolerant t) (elim [
  | none ↦ first_over now
  | some since ↦ λ t'. (
    ok (record { allowed = leb (now - since) over_limit_grace; since = since; first = false }),
    t',
  )
])

-- `ClearOverLimit`.
unfoldable pub clear_over_limit : L (Unit {0})
clear_over_limit = querying (λ t. (ok tt, record t { over_limit_since = missing }))
