-- ===== src/Auth/Config.antt =====
-- What the authentication core is given: settings, cryptography, and the words of its logs.
use ligament_2fa.Prelude.{
  ℕ, ◌≡◌, refl, Bool, true, false, ◌&&◌, Option, List, [], ◌∷◌, arith, ◌==◌, String,
}
use ligament_2fa.Store.State.{Channel}

-- The settings that the core reads (internal/settings: Policy, Radius, TOTP); times in seconds.
pub record Settings : Type 0 where
  pub code_ttl : ℕ
  pub max_attempts : ℕ
  pub resend_cooldown : ℕ
  pub push_cooldown : ℕ
  pub push_per_hour : ℕ
  pub fail_window : ℕ
  pub max_fail : ℕ
  pub ban_time : ℕ
  pub default_prefer : List Channel
  pub code_lengths : List ℕ
  pub radius_max_fail_per_user : ℕ
  pub radius_fail_window : ℕ
  pub push_wait : ℕ
  pub skew : ℕ

-- Functions of other packages: SHA-256, argon2, the box that seals secrets, and the HOTP and TOTP
-- of pquerna/otp. Passwords and codes are byte strings; hashes and secrets are opaque numbers.
pub record Crypto : Type 0 where
  pub sha256 : List ℕ → ℕ
  -- `secrets.VerifyPassword hash password`.
  pub check_password : ℕ → List ℕ → Bool
  -- `Box.DecryptAAD`; `none` is an error.
  pub decrypt : String → ℕ → Option ℕ
  -- `totp.ValidateCustom code secret now period skew digits`; `none` is an error.
  pub totp_validate : List ℕ → ℕ → ℕ → ℕ → ℕ → ℕ → Option Bool
  -- `hotp.GenerateCodeCustom secret counter digits`; `none` is an error.
  pub hotp_code : ℕ → ℕ → ℕ → Option (List ℕ)

-- `context.Context`, as far as the core reads it: the caller's address (firewall.WithIP) and
-- `CtxKeyClientIP`; "" where they are not set.
pub record Context : Type 0 where
  pub ip : String
  pub client_ip : String

pub record Env : Type 0 where
  pub settings : Settings
  pub crypto : Crypto
  pub context : Context
  -- `c.fw != nil`.
  pub has_firewall : Bool

abbrev pub bytes_eq : List ℕ → List ℕ → Bool
bytes_eq [] [] = true
bytes_eq (x ∷ xs) (y ∷ ys) = x == y && bytes_eq xs ys
bytes_eq _ _ = false

pub bytes_eq_refl : (b : List ℕ) → bytes_eq b b ≡ true
bytes_eq_refl [] = refl
bytes_eq_refl (x ∷ xs) = ground (arith, bytes_eq_refl xs)

pub bytes_eq_sound : (a b : List ℕ) → bytes_eq a b ≡ true → a ≡ b
bytes_eq_sound [] [] e = refl
bytes_eq_sound [] (y ∷ ys) e = absurd (cc e)
bytes_eq_sound (x ∷ xs) [] e = absurd (cc e)
bytes_eq_sound (x ∷ xs) (y ∷ ys) e = ground (arith, e, bytes_eq_sound xs ys)
