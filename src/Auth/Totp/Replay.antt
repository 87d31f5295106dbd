-- ===== src/Auth/Totp/Replay.antt =====
-- totp.go, `verifyTOTP`: an accepted code moves the replay mark forwards, within the window.
use ligament_2fa.Prelude.{
  ℕ, zero, suc, ◌+◌, ◌/◌, ◌≤◌, ◌<◌, ◌≡◌, refl, ◌⊎◌, inl, inr, true, Option, none, some, List, [],
  ◌∷◌, arith, if◌then◌else◌, Bool-cases, Option-cases, ok, update_where, find, String,
}
use ligament_2fa.Auth.Config.{Env, Crypto}
use ligament_2fa.Auth.Totp.{totp_decide, lift, verify_totp, match_window, matched_counter, is_code}
use ligament_2fa.Store.State.{M, ◌>>=◌, return, fail, bad_code, TotpSecret, User, World}
use ligament_2fa.Store.Totp.{totp_get, totp_set_timestep, totp_of, is_behind}
use ligament_2fa.Store.Triple.{Triple, OnOk, on_ok, ok_on, bind_rule}

-- What the loop keeps is the mark it began with, or a counter of its range whose code is the given one.
match_window_lem :
    (c : Crypto) (secret digits : ℕ) (code : List ℕ) (rounds cnt : ℕ) (start : Option ℕ) (m : ℕ)
    → match_window c secret digits code rounds cnt start ≡ some m
    → (start ≡ some m)
      ⊎ ((cnt ≤ m) × (m < cnt + rounds) × (is_code (c.hotp_code secret m digits) code ≡ true))
unfolding match_window
match_window_lem c secret digits code zero cnt start m e = inl e
match_window_lem c secret digits code (suc rounds) cnt start m e =
    elim (Bool-cases (is_code (c.hotp_code secret cnt digits) code)) [
      | inl hit ↦
          ground (arith, match_window_lem c secret digits code rounds (cnt + 1) (some cnt) m)
      | inr miss ↦ ground (arith, match_window_lem c secret digits code rounds (cnt + 1) start m)
    ]

-- A counter that may be accepted now: it lies within the skew of the present step, and its code is
-- the given one.
pub record InWindow (env : Env) (secret digits period : ℕ) (code : List ℕ) (now m : ℕ)
    : Type 0 where
  pub low : now / period ≤ m + env.settings.skew
  pub high : m ≤ now / period + env.settings.skew
  pub right : is_code (env.crypto.hotp_code secret m digits) code ≡ true

pub matched_counter_lem :
    (env : Env) (secret digits period : ℕ) (code : List ℕ) (now : ℕ) {m : ℕ}
    → matched_counter env.crypto secret digits code (now / period) env.settings.skew ≡ some m
    → InWindow env secret digits period code now m
unfolding matched_counter
matched_counter_lem env secret digits period code now {m} e =
    elim (match_window_lem env.crypto secret digits code _ _ none m e) [
      | inl impossible ↦ cc
      | inr (a, b, r) ↦ record { low = omega arith; high = omega arith; right = r }
    ]

abbrev advance : ℕ → ℕ → List TotpSecret → List TotpSecret
advance user m = update_where (is_behind user m) (λ t. record t { last_timestep = m })

find-advance :
    (user m : ℕ) (ts : List TotpSecret) (t : TotpSecret)
    → find (totp_of user) ts ≡ some t
    → t.last_timestep < m
    → find (totp_of user) (advance user m ts) ≡ some (record t { last_timestep = m })
find-advance user m [] t e h = cc
find-advance user m (x ∷ ts) t e h = ground (arith, find-advance user m ts t)

-- What an accepted TOTP code shows.
pub record Advanced (env : Env) (u : User) (code : List ℕ) (w w' : World) : Type 0 where
  pub row : TotpSecret
  pub mark : ℕ
  pub secret : ℕ
  pub stored : find (totp_of u.id) w.totps ≡ some row
  pub confirmed : row.confirmed ≡ true
  pub opened : env.crypto.decrypt u.username row.secret_enc ≡ some secret
  pub forwards : row.last_timestep < mark
  pub within : InWindow env secret row.digits row.period code w.now mark
  pub moved : find (totp_of u.id) w'.totps ≡ some (record row { last_timestep = mark })

-- What the tests of an accepted code show.
decide_lem :
    (env : Env) (name : String) (code : List ℕ) (now : ℕ) (row : TotpSecret) (mark : ℕ)
    → totp_decide env name code now row ≡ ok mark
    → (row.confirmed ≡ true)
      × (secret : ℕ) × (env.crypto.decrypt name row.secret_enc ≡ some secret)
      × (matched_counter env.crypto secret row.digits code (now / row.period) env.settings.skew
          ≡ some mark)
      × (row.last_timestep < mark)
unfolding totp_decide
decide_lem env name code now row mark e =
    elim (Option-cases (env.crypto.decrypt name row.secret_enc)) [
      | inl sealed ↦ absurd (ground (arith, sealed))
      | inr (secret, opened) ↦
          (ground arith, secret, opened, ground (arith, opened), ground (arith, opened))
    ]

-- The row read, in a state that has the table and the clock of `w`.
abbrev Read : User → World → TotpSecret → World → Type 0
Read u w row w' = (find (totp_of u.id) w.totps ≡ some row) × (w'.totps ≡ w.totps) × (w'.now ≡ w.now)

totp_get-Read : (u : User) (w : World) → Triple (λ v. v ≡ w) (totp_get u.id) (OnOk (Read u w))
unfolding totp_get
totp_get-Read u w = record { run = λ v h. on_ok (Read u w) _ _ (λ row e. ground (arith, h)) }

set_timestep_lem :
    (user m : ℕ) (w : World)
    → (totp_set_timestep user m w).0 ≡ ok true
    → (totp_set_timestep user m w).1.totps ≡ advance user m w.totps
unfolding totp_set_timestep
set_timestep_lem user m w e = ground arith

module _ (env : Env) (u : User) (code : List ℕ) (w : World) where
  abbrev write : ℕ → M (Unit {0})
  write mark = do
    advanced ← totp_set_timestep u.id mark
    if advanced then return tt else fail bad_code

  abbrev Decided : TotpSecret → ℕ → World → Type 0
  Decided row mark w' = Read u w row w' × (totp_decide env u.username code w.now row ≡ ok mark)

  write_lem :
      (mark : ℕ) (v : World)
      → (write mark v).0 ≡ ok tt
      → (write mark v).1.totps ≡ advance u.id mark v.totps
  write_lem mark v e = ground (arith, set_timestep_lem u.id mark v)

  abbrev Accepts : Unit {0} → World → Type 0
  Accepts _ w' = Advanced env u code w w'

  write-Advanced :
      (row : TotpSecret) (mark : ℕ) → Triple (Decided row mark) (write mark) (OnOk Accepts)
  write-Advanced row mark = record {
    run = λ v d. on_ok Accepts _ _ (λ _ e.
        let (confirmed, secret, opened, hit, forwards) =
          decide_lem env u.username code w.now row mark d.1 in
        record {
          row = row;
          mark = mark;
          secret = secret;
          stored = d.0.0;
          confirmed = confirmed;
          opened = opened;
          forwards = forwards;
          within = matched_counter_lem env secret row.digits row.period code w.now hit;
          moved =
              rw (write_lem mark v e, d.0.1) (find-advance u.id mark w.totps row d.0.0 forwards);
        });
  }

  abbrev checked : TotpSecret → M (Unit {0})
  checked row v = (lift (totp_decide env u.username code v.now row) >>= write) v

  checked-Advanced : (row : TotpSecret) → Triple (Read u w row) (checked row) (OnOk Accepts)
  checked-Advanced row = record {
    run = λ v r.
        (bind_rule {P = λ v'. v' ≡ v} {R = OnOk (Decided row)}
            (lift (totp_decide env u.username code v.now row)) write
            (record { run = λ v' h. on_ok (Decided row) _ _ (λ mark e. (rw h r, rw (← r.2) e)) })
            (write-Advanced row) (λ e v' h. tt)).run
          v refl;
  }

-- An accepted TOTP code belongs to a confirmed secret of the user, is the code of a counter within
-- the skew of the present step, and that counter is beyond the stored replay mark and becomes it.
pub verify_totp_advances :
    (env : Env) (u : User) (code : List ℕ) (w : World)
    → (verify_totp env u code w).0 ≡ ok tt
    → Advanced env u code w (verify_totp env u code w).1
unfolding verify_totp
verify_totp_advances env u code w e = ok_on (Accepts env u code w) _ e (
    (bind_rule (totp_get u.id) (checked env u code w) (totp_get-Read u w)
        (checked-Advanced env u code w) (λ x v h. tt)).run
      w refl)
