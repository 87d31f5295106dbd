-- ===== src/License/Manager/Upload.antt =====
-- internal/license/state.go, `Upload` and `Effective` in a row.
use ligament_2fa.Prelude.{ℕ, ◌≡◌, refl, false, Option, [], arith, ok, String}
use ligament_2fa.License.File.{Payload, Plan, Vendor, parse_license}
use ligament_2fa.License.Manager.{Table, upload, effective, load_blob, load_crl, save_blob}
use ligament_2fa.License.Status.{compute_status, is_revoked, dated_status}
use ligament_2fa.License.Status.Safety.{status-cases}

never_revoked :
    (now : ℕ) (p : Payload) (plan : Plan) (e : Option ℕ)
    → (dated_status now p plan e).revoked ≡ false
unfolding dated_status
never_revoked now p plan e = ground arith

status_unrevoked :
    (vendor : Vendor) (now : ℕ) (blob crl : String) (p : Payload)
    → parse_license vendor blob ≡ ok p
    → is_revoked vendor crl p ≡ false
    → (compute_status vendor now blob crl).revoked ≡ false
status_unrevoked vendor now blob crl p e r =
    status-cases vendor now now blob crl (λ s _. s.revoked ≡ false) refl
      (λ q e' r'. cc (e, r, e', r')) (λ q e' r'. never_revoked now q q.plan q.expires_at)

stored :
    (vendor : Vendor) (blob : String) (p : Payload) (t : Table)
    → t.faults ≡ []
    → (upload vendor blob t).0 ≡ ok p
    → (parse_license vendor blob ≡ ok p)
      × (is_revoked vendor t.crl p ≡ false)
      × ((upload vendor blob t).1 ≡ record t { blob = blob })
unfolding upload load_crl save_blob is_revoked
stored vendor blob p t f e = (ground (arith, f, e), ground (arith, f, e), ground (arith, f, e))

-- A licence that `Upload` takes is in effect at once and is not a revoked one. With no fault of the
-- database, where `Upload` of a file answers with a payload, the file parses to that payload, and
-- `Effective` at any instant then answers with the status of that file and the revocation on file,
-- which is not a revoked status.
pub upload-effective :
    (vendor : Vendor) (blob : String) (p : Payload) (now : ℕ) (t : Table)
    → t.faults ≡ []
    → (upload vendor blob t).0 ≡ ok p
    → (parse_license vendor blob ≡ ok p)
      × ((effective vendor now (upload vendor blob t).1).0
          ≡ ok (compute_status vendor now blob t.crl))
      × ((compute_status vendor now blob t.crl).revoked ≡ false)
unfolding effective load_blob load_crl
upload-effective vendor blob p now t f e =
    let s = stored vendor blob p t f e in
    (s.0, ground (arith, f, s.2), status_unrevoked vendor now blob t.crl p s.0 s.1)
