-- ===== src/Exchange/Factors/Window.antt =====
-- eapauth.go, `handlePEAPInner`: the candidates that an MS-CHAPv2 response is tried against.
use ligament_2fa.Prelude.{
  ℕ, zero, suc, ◌+◌, ◌-◌, ◌/◌, ◌≤◌, ◌<◌, ◌≡◌, refl, ◌∙◌, subst, Bool, true, false, Option, none,
  some, ◌++◌, arith, find, some_injective,
}
use ligament_2fa.Eap.Bytes.{Bytes}
use ligament_2fa.Eap.Mschap.{MschapResponse}
use ligament_2fa.Eap.Mschap.Keys.{nt_hash, verify_mschap}
use ligament_2fa.Exchange.Factors.{
  Candidate, test_candidate, test_code, code_candidate, window_candidate, effective_skew,
  effective_period,
}
use ligament_2fa.Exchange.Server.{Server}
use ligament_2fa.Store.State.{User, TotpSecret, World}
use ligament_2fa.Store.Totp.{totp_of}

module _ (server : Server) (resp : MschapResponse) (auth : Bytes) where
  -- The response is the one of the candidate's password.
  abbrev pub Fits : Candidate → Type 0
  Fits k =
      verify_mschap server.hashes resp auth (nt_hash server.hashes k.password)
      ≡ some k.auth_response

  pub test-Fits :
      (password : Bytes) (timestep : Option ℕ) {k : Candidate}
      → test_candidate server resp auth password timestep ≡ some k
      → Fits k × ((k.password ≡ password) × (k.timestep ≡ timestep))
  unfolding test_candidate
  test-Fits password timestep {k = k} e =
      go (verify_mschap server.hashes resp auth (nt_hash server.hashes password)) refl
    where
      go :
          (v : Option Bytes)
          → verify_mschap server.hashes resp auth (nt_hash server.hashes password) ≡ v
          → Fits k × ((k.password ≡ password) × (k.timestep ≡ timestep))
      go none q = absurd (cc (rw q at e))
      go (some answer) q =
          subst (λ z. Fits z × ((z.password ≡ password) × (z.timestep ≡ timestep)))
            (some_injective (rw q at e)) (q, (refl, refl))

  -- A candidate of the window: the password and the code of one of its counters.
  pub record InWindow (password : Bytes) (secret digits low high : ℕ) (k : Candidate) : Type 0 where
    pub counter : ℕ
    pub code : Bytes
    pub above : low ≤ counter
    pub below : counter < high
    pub made : server.env.crypto.hotp_code secret counter digits ≡ some code
    pub spells : k.password ≡ password ++ code
    pub step : k.timestep ≡ some counter
    pub fits : Fits k

  widen :
      {password : Bytes} {secret digits low high high' : ℕ} {k : Candidate}
      → high' ≤ high
      → InWindow password secret digits (low + 1) high' k
      → InWindow password secret digits low high k
  widen le i = record {
    counter = i.counter;
    code = i.code;
    above = omega (arith, i.above);
    below = omega (arith, i.below, le);
    made = i.made;
    spells = i.spells;
    step = i.step;
    fits = i.fits;
  }

  code-InWindow :
      (password : Bytes) (secret digits rounds cnt : ℕ) {k : Candidate}
      → code_candidate server resp auth password secret digits rounds cnt ≡ some k
      → InWindow password secret digits cnt (cnt + rounds) k
  unfolding code_candidate
  code-InWindow password secret digits zero cnt e = absurd (cc e)
  code-InWindow password secret digits (suc rounds) cnt {k = k} e =
      go (server.env.crypto.hotp_code secret cnt digits)
        (code-InWindow password secret digits rounds (cnt + 1)) refl
    where
      later :
          (code_candidate server resp auth password secret digits rounds (cnt + 1) ≡ some k
            → InWindow password secret digits (cnt + 1) (cnt + 1 + rounds) k)
          → code_candidate server resp auth password secret digits rounds (cnt + 1) ≡ some k
          → InWindow password secret digits cnt (cnt + suc rounds) k
      later next x = widen (omega arith) (next x)

      tried :
          (code : Bytes)
          → server.env.crypto.hotp_code secret cnt digits ≡ some code
          → (code_candidate server resp auth password secret digits rounds (cnt + 1) ≡ some k
              → InWindow password secret digits (cnt + 1) (cnt + 1 + rounds) k)
          → (t : Option Candidate)
          → test_candidate server resp auth (password ++ code) (some cnt) ≡ t
          → InWindow password secret digits cnt (cnt + suc rounds) k
      tried code q next none x = later next (rw (q, x, code_candidate, test_code) at e)
      tried code q next (some k') x =
          let f =
            test-Fits (password ++ code) (some cnt)
              (x ∙ rw (q, x, code_candidate, test_code) at e) in
          record {
            counter = cnt;
            code = code;
            above = omega arith;
            below = omega arith;
            made = q;
            spells = f.1.0;
            step = f.1.1;
            fits = f.0;
          }

      go :
          (code : Option Bytes)
          → (code_candidate server resp auth password secret digits rounds (cnt + 1) ≡ some k
              → InWindow password secret digits (cnt + 1) (cnt + 1 + rounds) k)
          → server.env.crypto.hotp_code secret cnt digits ≡ code
          → InWindow password secret digits cnt (cnt + suc rounds) k
      go none next q = later next (rw (q, code_candidate, test_code) at e)
      go (some code) next q = tried code q next _ refl

  -- What a candidate is made of: the password alone, or the password and a code of the window around the
  -- current counter, of the user's confirmed secret.
  pub data Coded (start : World) (u : User) (password : Bytes) (k : Candidate) : Type 0 where
    clean : k.timestep ≡ none → k.password ≡ password → Coded start u password k
    coded :
        (t : TotpSecret) (secret : ℕ)
        → find (totp_of u.id) start.totps ≡ some t
        → t.confirmed ≡ true
        → server.env.crypto.decrypt u.username t.secret_enc ≡ some secret
        → InWindow password secret t.digits
            (start.now / effective_period server resp auth t - effective_skew server resp auth)
            (start.now / effective_period server resp auth t + effective_skew server resp auth + 1)
            k
        → Coded start u password k

  pub window-Coded :
      (start : World) (u : User) (password : Bytes) (t : TotpSecret) {k : Candidate}
      → find (totp_of u.id) start.totps ≡ some t
      → window_candidate server resp auth u.username password start.now t ≡ some k
      → Fits k × Coded start u password k
  unfolding window_candidate
  window-Coded start u password t {k = k} found e =
      go t.confirmed (server.env.crypto.decrypt u.username t.secret_enc) refl refl
    where
      cur : ℕ
      cur = start.now / effective_period server resp auth t

      skew : ℕ
      skew = effective_skew server resp auth

      low : ℕ
      low = cur - skew

      go :
          (b : Bool) (d : Option ℕ)
          → t.confirmed ≡ b
          → server.env.crypto.decrypt u.username t.secret_enc ≡ d
          → Fits k × Coded start u password k
      go false d q x = absurd (cc (rw (q, window_candidate) at e))
      go true none q x = absurd (cc (rw (q, x, window_candidate) at e))
      go true (some secret) q x =
          let i =
            subst (λ n. InWindow password secret t.digits low n k) (omega arith)
              (code-InWindow password secret t.digits (cur + skew + 1 - low) low
                (rw (q, x, window_candidate) at e)) in
          (i.fits, coded t secret found q x i)
