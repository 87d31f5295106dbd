-- ===== src/License/File.antt =====
-- internal/license/file.go and payload.go: which licence and revocation files are accepted.
-- Times are nanoseconds. The texts are decoded by encoding/base64 and encoding/json, and Ed25519
-- checks the signature: these are the fields of `Vendor`.
use ligament_2fa.Prelude.{
  ℕ, ◌+◌, ◌*◌, Bool, true, false, not, ◌&&◌, ◌||◌, Option, none, some, List, ltb, ◌==◌,
  if◌then◌else◌, Result, ok, err, String, str_eq,
}

abbrev pub day : ℕ
day = 86400000000000

-- `other` is a plan that the code does not know.
pub data Plan : Type 0 where
  subscription perpetual demo other : Plan

abbrev pub is_known : Plan → Bool
is_known other = false
is_known _ = true

pub record Payload : Type 0 where
  pub lic_id : String
  pub customer : String
  pub plan : Plan
  pub user_limit : ℕ
  pub issued_at : ℕ
  pub expires_at : Option ℕ
  pub maintenance_expires : ℕ
  pub features : List String
  pub kid : String

pub record Revocation : Type 0 where
  pub lic_id : String
  pub revoked_at : ℕ
  pub kid : String

pub data LicenseError : Type 0 where
  malformed bad_signature unknown_kid revoked db_error : LicenseError

-- What stands outside the package: the decoded text with its signature (a number that spells the
-- bytes), the kids of the trusted keys, and the check of a signature with one.
pub record Vendor : Type 0 where
  pub decode_license : String → Option (Payload × ℕ)
  pub decode_revocation : String → Option (Revocation × ℕ)
  pub trusted : String → Bool
  pub license_signed : String → Payload → ℕ → Bool
  pub revocation_signed : String → Revocation → ℕ → Bool

-- `verifySigned`, given whether the signature fits the key.
abbrev pub verify_signed {ℓ} : {A : Type ℓ} → Vendor → String → Bool → A → Result LicenseError A
verify_signed vendor kid fits a =
    if not (vendor.trusted kid)
    then err unknown_kid
    else (if not fits then err bad_signature else ok a)

-- The date rules of the plans.
abbrev pub has_valid_dates : Plan → Option ℕ → ℕ → Bool
has_valid_dates perpetual (some _) issued = false
has_valid_dates subscription none issued = false
has_valid_dates demo none issued = false
has_valid_dates demo (some t) issued = not (ltb (issued + 31 * day) t)
has_valid_dates _ _ issued = true

abbrev pub is_well_formed : Payload → Bool
is_well_formed p =
    not (str_eq p.lic_id "")
    && not (str_eq p.kid "")
    && is_known p.plan
    && has_valid_dates p.plan p.expires_at p.issued_at

-- `ParseLicense`.
unfoldable pub parse_license : Vendor → String → Result LicenseError Payload
parse_license vendor blob = elim (vendor.decode_license blob) [
  | none ↦ err malformed
  | some d ↦
      if not (is_well_formed d.0)
      then err malformed
      else verify_signed vendor d.0.kid (vendor.license_signed d.0.kid d.0 d.1) d.0
]

-- `ParseRevocation`; the zero time is 0.
unfoldable pub parse_revocation : Vendor → String → Result LicenseError Revocation
parse_revocation vendor blob = elim (vendor.decode_revocation blob) [
  | none ↦ err malformed
  | some d ↦
      if str_eq d.0.lic_id "" || str_eq d.0.kid "" || d.0.revoked_at == 0
      then err malformed
      else verify_signed vendor d.0.kid (vendor.revocation_signed d.0.kid d.0 d.1) d.0
]
