-- ===== src/Witness/License.antt =====
-- Witnesses for the licence.
use ligament_2fa.Prelude.{
  ◌+◌, ◌*◌, ◌/◌, ◌≡◌, refl, true, false, none, some, [], ◌∷◌, arith, leb, if◌then◌else◌, ok, str_eq,
}
use ligament_2fa.License.File.{Payload, Vendor, subscription, demo, day, parse_license}
use ligament_2fa.License.Manager.{
  Table, missing, broken, over_limit, over_limit_grace, second, upload, effective, load_crl,
  save_blob,
}
use ligament_2fa.License.Manager.OverLimit.{over_limits, over_limit_window, over_limit_broken}
use ligament_2fa.License.Manager.Upload.{upload-effective}
use ligament_2fa.License.Status.{free, compute_status, dated_status, is_revoked}
use ligament_2fa.License.Status.Safety.{InForce, status-InForce, status_stays_free}

abbrev yearly : Payload
yearly = record {
  lic_id = "L-1";
  customer = "ACME";
  plan = subscription;
  user_limit = 50;
  issued_at = 0;
  expires_at = some (365 * day);
  maintenance_expires = 365 * day;
  features = [];
  kid = "k1";
}

abbrev try_out : Payload
try_out = record (yearly) { lic_id = "L-2"; plan = demo; expires_at = some (30 * day) }

-- A vendor with a licence of each kind on file and one trusted key; every signature fits.
abbrev vendor : Vendor
vendor = record {
  decode_license = λ s.
      if str_eq s "yearly"
      then some (yearly, 1)
      else (if str_eq s "demo" then some (try_out, 1) else none);
  decode_revocation = λ s. none;
  trusted = λ kid. str_eq kid "k1";
  license_signed = λ kid p sig. true;
  revocation_signed = λ kid r sig. true;
}

status-InForce_example : InForce vendor day "yearly" "" 50
unfolding compute_status parse_license is_revoked dated_status
status-InForce_example = status-InForce vendor day "yearly" "" (λ h. absurd (cc h))

status_stays_free_example : (compute_status vendor (40 * day) "demo" "").mode ≡ free
unfolding compute_status parse_license is_revoked dated_status
status_stays_free_example =
    status_stays_free vendor (30 * day) (40 * day) "demo" "" (omega arith) refl

abbrev fresh_table : Table
fresh_table = record { blob = ""; crl = ""; over_limit_since = missing; faults = [] }

over_limit_window_example :
    ((over_limit day fresh_table).0
      ≡ ok (record { allowed = true; since = day / second * second; first = true }))
    × ((over_limit (40 * day) (over_limits (2 * day ∷ []) (over_limit day fresh_table).1)).0
        ≡ ok (record {
          allowed = leb (40 * day) (day / second * second + over_limit_grace);
          since = day / second * second;
          first = false;
        }))
over_limit_window_example = over_limit_window day (2 * day ∷ []) (40 * day) fresh_table refl refl

abbrev broken_table : Table
broken_table = record { blob = ""; crl = ""; over_limit_since = broken; faults = [] }

over_limit_broken_example :
    (over_limit (90 * day) (over_limits (day ∷ []) broken_table)).0
    ≡ ok (record { allowed = true; since = 90 * day; first = true })
over_limit_broken_example = over_limit_broken (day ∷ []) (90 * day) broken_table refl refl

upload-effective_example :
    (parse_license vendor "yearly" ≡ ok yearly)
    × ((effective vendor day (upload vendor "yearly" fresh_table).1).0
        ≡ ok (compute_status vendor day "yearly" ""))
    × ((compute_status vendor day "yearly" "").revoked ≡ false)
unfolding upload parse_license load_crl save_blob is_revoked
upload-effective_example = upload-effective vendor "yearly" yearly day fresh_table refl refl
