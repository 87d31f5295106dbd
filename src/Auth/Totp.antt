-- ===== src/Auth/Totp.antt =====
-- internal/auth/totp.go: the check of a TOTP code, with protection against replay.
pub mod Replay
use ligament_2fa.Prelude.{
  ℕ, zero, suc, ◌+◌, ◌-◌, ◌*◌, ◌/◌, ◌%◌, ◌^◌, ◌≤◌, ◌<◌, min, max, bit_and, bit_or, ◌≡◌, refl, sym,
  ap, ◌∙◌, subst, ◌≢◌, ◌↔◌, ◌⊎◌, inl, inr, Bool, true, false, not, ◌&&◌, ◌||◌, Option, none, some,
  List, [], ◌∷◌, ◌++◌, map, append-nil, append_assoc, arith, ltb, leb, ◌==◌, if◌then◌else◌, ltb→lt,
  lt→ltb, leb→le, ==_iff, tests, Bool-cases, Option-cases, length, get_or, take, drop, All, slice,
  length-append, take-append-drop, length-take, length-drop, take-append, drop-append, take_all,
  drop_all, Result, ok, err, is_ok, any, count_where, select, update_where, find, String, str_eq,
  Among, Among-select,
}
use ligament_2fa.Auth.Config.{Env, Crypto, bytes_eq}
use ligament_2fa.Store.State.{
  TotpSecret, User, Error, bad_code, crypto_error, M, ◌>>=◌, ◌>>◌, return, fail, get,
}
use ligament_2fa.Store.Totp.{totp_get, totp_set_timestep}

abbrev pub is_code : Option (List ℕ) → List ℕ → Bool
is_code none code = false
is_code (some want) code = bytes_eq want code

-- The loop over the window: `rounds` counters from `cnt` upwards; of those whose code is the given
-- one the largest is kept.
unfoldable pub match_window : Crypto → ℕ → ℕ → List ℕ → ℕ → ℕ → Option ℕ → Option ℕ
match_window c secret digits code zero cnt matched = matched
match_window c secret digits code (suc rounds) cnt matched =
    match_window c secret digits code rounds (cnt + 1)
      (if is_code (c.hotp_code secret cnt digits) code then some cnt else matched)

-- Counters below 0 are skipped: the window begins at 0 then.
unfoldable pub matched_counter : Crypto → ℕ → ℕ → List ℕ → ℕ → ℕ → Option ℕ
matched_counter c secret digits code cur skew =
    match_window c secret digits code (cur + skew + 1 - (cur - skew)) (cur - skew) none

abbrev pub or_err : {A B : Type 0} → Option A → Error → (A → Result Error B) → Result Error B
or_err none e k = err e
or_err (some a) e k = k a

abbrev newer : ℕ → ℕ → Result Error ℕ
newer last m = if ltb last m then ok m else err bad_code

-- The tests of `verifyTOTP` between the read of the secret and the write of the mark.
unfoldable pub totp_decide : Env → String → List ℕ → ℕ → TotpSecret → Result Error ℕ
totp_decide env username code now t =
    if not t.confirmed
    then err bad_code
    else or_err (env.crypto.decrypt username t.secret_enc) crypto_error λ secret.
      or_err (env.crypto.totp_validate code secret now t.period env.settings.skew t.digits)
        crypto_error
        λ valid.
          if not valid
          then err bad_code
          else or_err
              (matched_counter env.crypto secret t.digits code (now / t.period) env.settings.skew)
              bad_code (newer t.last_timestep)

abbrev pub lift : {A : Type 0} → Result Error A → M A
lift r w = (r, w)

-- `(*Core).verifyTOTP`.
unfoldable pub verify_totp : Env → User → List ℕ → M (Unit {0})
verify_totp env user code = do
  t ← totp_get user.id
  w ← get
  mark ← lift (totp_decide env user.username code w.now t)
  advanced ← totp_set_timestep user.id mark
  if advanced then return tt else fail bad_code
