-- ===== src/License/Status/Safety.antt =====
-- internal/license/state.go: what a status promises, and how it moves with time.
use ligament_2fa.Prelude.{
  ℕ, ◌+◌, ◌*◌, ◌≤◌, ◌<◌, ◌≡◌, refl, subst, ◌≢◌, Bool, true, false, not, Option, none, some, arith,
  if◌then◌else◌, Result, ok, err, String, str_eq,
}
use ligament_2fa.License.File.{
  day, Plan, subscription, perpetual, demo, other, Payload, Vendor, LicenseError, malformed,
  unknown_kid, bad_signature, parse_license, is_well_formed, verify_signed,
}
use ligament_2fa.License.Status.{
  free, trial, Status, days_until, grace_lic, compute_status, dated_status, is_revoked, free_status,
  revoked_status,
}

-- The days rounded up.
days_until_bounds :
    (now deadline : ℕ)
    → (deadline ≤ now + days_until now deadline * day)
      × (now < deadline → now + days_until now deadline * day < deadline + day)
unfolding days_until
days_until_bounds now deadline = (omega arith, λ h. omega arith)

-- The licence was decoded from the file, its fields are in order, and a trusted key signed it.
pub record Genuine (vendor : Vendor) (blob : String) (p : Payload) : Type 0 where
  pub signature : ℕ
  pub decoded : vendor.decode_license blob ≡ some (p, signature)
  pub well_formed : is_well_formed p ≡ true
  pub trusted : vendor.trusted p.kid ≡ true
  pub signed : vendor.license_signed p.kid p signature ≡ true

-- The checks in a row.
checks_passed :
    (well_formed trusted signed : Bool) (q p : Payload)
    → (if not well_formed
        then err malformed
        else (if not trusted
            then err unknown_kid
            else (if not signed then err bad_signature else ok q)))
      ≡ ok p
    → (well_formed ≡ true) × (trusted ≡ true) × (signed ≡ true) × (q ≡ p)
checks_passed true true true q p h = (refl, refl, refl, cc h)
checks_passed true true false q p h = absurd (cc h)
checks_passed true false s q p h = absurd (cc h)
checks_passed false t s q p h = absurd (cc h)

-- What an accepted file is.
pub parse-Genuine :
    (vendor : Vendor) (blob : String) (p : Payload)
    → parse_license vendor blob ≡ ok p
    → Genuine vendor blob p
unfolding parse_license
parse-Genuine vendor blob p e = found (vendor.decode_license blob) refl e
  where
    found :
        (d : Option (Payload × ℕ))
        → vendor.decode_license blob ≡ d
        → elim d [
          | none ↦ err malformed
          | some d ↦
              if not (is_well_formed d.0)
              then err malformed
              else verify_signed vendor d.0.kid (vendor.license_signed d.0.kid d.0 d.1) d.0
        ]
          ≡ ok p
        → Genuine vendor blob p
    found none eq h = absurd (cc h)
    found (some (q, sig)) eq h =
        let ok4 = checks_passed _ _ _ q p h in
        subst (λ x. Genuine vendor blob x) ok4.3
          (record {
            signature = sig;
            decoded = eq;
            well_formed = ok4.0;
            trusted = ok4.1;
            signed = ok4.2;
          })

dated_in_force :
    (now : ℕ) (p : Payload) (plan : Plan) (e : Option ℕ)
    → (dated_status now p plan e).mode ≢ free
    → ((t : ℕ) → e ≡ some t → plan ≡ demo → now < t)
      × ((t : ℕ) → e ≡ some t → plan ≡ subscription → now ≤ t + grace_lic)
unfolding dated_status
dated_in_force now p demo (some t) h = (λ u e d. ground (arith, h), λ u e d. absurd (cc d))
dated_in_force now p demo none h = (λ u e d. absurd (cc e), λ u e d. absurd (cc e))
dated_in_force now p subscription (some t) h = (λ u e d. absurd (cc d), λ u e d. ground (arith, h))
dated_in_force now p subscription none h = (λ u e d. absurd (cc e), λ u e d. absurd (cc e))
dated_in_force now p perpetual e h = (λ u e d. absurd (cc d), λ u e d. absurd (cc d))
dated_in_force now p other e h = (λ u e d. absurd (cc d), λ u e d. absurd (cc d))

dated_limit :
    (now : ℕ) (p : Payload) (plan : Plan) (e : Option ℕ)
    → (dated_status now p plan e).mode ≢ free
    → (dated_status now p plan e).user_limit ≡ p.user_limit
unfolding dated_status
dated_limit now p plan e h = ground (arith, h)

-- A licence that is in force at an instant.
pub record InForce (vendor : Vendor) (now : ℕ) (blob crl : String) (limit : ℕ) : Type 0 where
  pub payload : Payload
  pub genuine : Genuine vendor blob payload
  pub live : is_revoked vendor crl payload ≡ false
  pub demo_date : (t : ℕ) → payload.expires_at ≡ some t → payload.plan ≡ demo → now < t
  pub subscription_date :
      (t : ℕ) → payload.expires_at ≡ some t → payload.plan ≡ subscription → now ≤ t + grace_lic
  pub limited : limit ≡ payload.user_limit

-- A status is the free one, a revoked one, or the one of the dates of a licence on file.
module _ (vendor : Vendor) (now later : ℕ) (blob crl : String) (P : Status → Status → Type 0)
    (at_free : P free_status free_status)
    (at_revoked : (p : Payload)
      → parse_license vendor blob ≡ ok p
      → is_revoked vendor crl p ≡ true
      → P (revoked_status p) (revoked_status p))
    (at_dates : (p : Payload)
      → parse_license vendor blob ≡ ok p
      → is_revoked vendor crl p ≡ false
      → P (dated_status now p p.plan p.expires_at) (dated_status later p p.plan p.expires_at)) where
  after : ℕ → Bool → Payload → Status
  after t b p = if b then revoked_status p else dated_status t p p.plan p.expires_at

  known : ℕ → Result LicenseError Payload → Status
  known t (err _) = free_status
  known t (ok p) = after t (is_revoked vendor crl p) p

  by_revoked :
      (p : Payload) (b : Bool)
      → parse_license vendor blob ≡ ok p
      → is_revoked vendor crl p ≡ b
      → P (after now b p) (after later b p)
  unfolding after
  by_revoked p true e r = at_revoked p e r
  by_revoked p false e r = at_dates p e r

  by_file :
      (r : Result LicenseError Payload)
      → parse_license vendor blob ≡ r
      → P (known now r) (known later r)
  unfolding known
  by_file (err x) e = at_free
  by_file (ok p) e = by_revoked p (is_revoked vendor crl p) e refl

  by_blob :
      (b : Bool)
      → P
          (if b then free_status else known now (parse_license vendor blob))
          (if b then free_status else known later (parse_license vendor blob))
  by_blob true = at_free
  by_blob false = by_file (parse_license vendor blob) refl

  pub status-cases : P (compute_status vendor now blob crl) (compute_status vendor later blob crl)
  unfolding compute_status known after
  status-cases = by_blob (str_eq blob "")

-- The server leaves the free mode only on a licence in force. Where `computeStatus` reports trial or
-- licensed, the file was decoded and its payload is well formed and signed by a trusted key, the
-- licence is not revoked, a demo has not expired, a subscription is at most the grace of five
-- days past its end, and the user limit is the payload's. Not revoked means that the plan is perpetual,
-- which no revocation ends, or that no revocation on file that parses names the licence.
pub status-InForce :
    (vendor : Vendor) (now : ℕ) (blob crl : String)
    → (compute_status vendor now blob crl).mode ≢ free
    → InForce vendor now blob crl (compute_status vendor now blob crl).user_limit
status-InForce vendor now blob crl =
    status-cases vendor now now blob crl
      (λ s _. s.mode ≢ free → InForce vendor now blob crl s.user_limit) (λ n. absurd (n refl))
      (λ p e r n. absurd (n refl))
      (λ p e r n. record {
        payload = p;
        genuine = parse-Genuine vendor blob p e;
        live = r;
        demo_date = (dated_in_force now p p.plan p.expires_at n).0;
        subscription_date = (dated_in_force now p p.plan p.expires_at n).1;
        limited = dated_limit now p p.plan p.expires_at n;
      })

dated_falls :
    (now later : ℕ) (p : Payload) (plan : Plan) (e : Option ℕ)
    → now ≤ later
    → (dated_status now p plan e).mode ≡ free
    → (dated_status later p plan e).mode ≡ free
unfolding dated_status
dated_falls now later p demo (some t) h f = ground (arith, h, f)
dated_falls now later p demo none h f = refl
dated_falls now later p subscription (some t) h f = ground (arith, h, f)
dated_falls now later p subscription none h f = f
dated_falls now later p perpetual e h f = f
dated_falls now later p other e h f = f

-- Time does not bring a licence back: with the same files, a server in the free mode is in the free
-- mode at every later instant.
pub status_stays_free :
    (vendor : Vendor) (now later : ℕ) (blob crl : String)
    → now ≤ later
    → (compute_status vendor now blob crl).mode ≡ free
    → (compute_status vendor later blob crl).mode ≡ free
status_stays_free vendor now later blob crl h =
    status-cases vendor now later blob crl (λ s s'. s.mode ≡ free → s'.mode ≡ free) (λ f. f)
      (λ p e r f. f) (λ p e r f. dated_falls now later p p.plan p.expires_at h f)

dated_counts :
    (now : ℕ) (p : Payload) (plan : Plan) (e : Option ℕ)
    → (dated_status now p plan e).mode ≡ trial
    → (t : ℕ) × (e ≡ some t)
      × (t ≤ now + (dated_status now p plan e).trial_days_left * day)
      × (now + (dated_status now p plan e).trial_days_left * day < t + day)
unfolding dated_status
dated_counts now p demo (some t) h = (
  t,
  refl,
  ground (arith, h, days_until_bounds now t),
  ground (arith, h, days_until_bounds now t),
)
dated_counts now p demo none h = absurd (cc h)
dated_counts now p subscription (some t) h = absurd (ground (arith, h))
dated_counts now p subscription none h = absurd (cc h)
dated_counts now p perpetual e h = absurd (cc h)
dated_counts now p other e h = absurd (cc h)

-- The days that a trial counts down fit its deadline: in the trial mode the licence has a deadline,
-- the reported days reach it, and with one day less they would not.
trial_days_fit :
    (vendor : Vendor) (now : ℕ) (blob crl : String)
    → (compute_status vendor now blob crl).mode ≡ trial
    → (p : Payload) × (t : ℕ) × (parse_license vendor blob ≡ ok p)
      × (p.expires_at ≡ some t)
      × (t ≤ now + (compute_status vendor now blob crl).trial_days_left * day)
      × (now + (compute_status vendor now blob crl).trial_days_left * day < t + day)
trial_days_fit vendor now blob crl =
    status-cases vendor now now blob crl
      (λ s _.
        s.mode ≡ trial
        → (p : Payload) × (t : ℕ) × (parse_license vendor blob ≡ ok p)
          × (p.expires_at ≡ some t)
          × (t ≤ now + s.trial_days_left * day)
          × (now + s.trial_days_left * day < t + day))
      (λ f. absurd (cc f)) (λ p e r f. absurd (cc f))
      (λ p e r f. let c = dated_counts now p p.plan p.expires_at f in (p, c.0, e, c.1, c.2, c.3))
