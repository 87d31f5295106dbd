-- ===== src/Store/Totp.antt =====
-- internal/store/totp.go: TOTP secrets and backup codes.
use ligament_2fa.Prelude.{
  ℕ, Bool, true, false, not, ◌&&◌, none, some, List, [], ◌∷◌, ◌++◌, ltb, ◌==◌, if◌then◌else◌, ok,
  any, count_where, select, update_where, find,
}
use ligament_2fa.Store.State.{
  TotpSecret, BackupCode, not_found, M, ◌>>=◌, ◌>>◌, return, fail, get, query, is_none,
}

abbrev pub totp_of : ℕ → TotpSecret → Bool
totp_of user t = t.user_id == user

abbrev put_totps : List TotpSecret → M (Unit {0})
put_totps ts w = (ok tt, record w { totps = ts })

abbrev put_backups : List BackupCode → M (Unit {0})
put_backups bs w = (ok tt, record w { backups = bs })

-- `TOTPSave`: a new or replaced secret is unconfirmed, and its replay mark starts at 0.
unfoldable pub totp_save : ℕ → ℕ → ℕ → ℕ → M (Unit {0})
totp_save user enc digits period = do
  query
  w ← get
  if any (totp_of user) w.totps
      then put_totps (
          update_where (totp_of user)
            (λ t. record t {
              secret_enc = enc;
              digits = digits;
              period = period;
              confirmed = false;
              last_timestep = 0;
            })
            w.totps)
      else put_totps (
          record {
            user_id = user;
            secret_enc = enc;
            digits = digits;
            period = period;
            confirmed = false;
            last_timestep = 0;
          }
          ∷ w.totps)

-- `TOTPUpdateSecret`.
unfoldable pub totp_update_secret : ℕ → ℕ → M (Unit {0})
totp_update_secret user enc = do
  query
  w ← get
  if any (totp_of user) w.totps
      then put_totps (update_where (totp_of user) (λ t. record t { secret_enc = enc }) w.totps)
      else fail not_found

-- `TOTPConfirm`.
unfoldable pub totp_confirm : ℕ → M (Unit {0})
totp_confirm user = do
  query
  w ← get
  if any (totp_of user) w.totps
      then put_totps (update_where (totp_of user) (λ t. record t { confirmed = true }) w.totps)
      else fail not_found

-- `TOTPGet`.
unfoldable pub totp_get : ℕ → M TotpSecret
totp_get user = do
  query
  w ← get
  elim (find (totp_of user) w.totps) [ none ↦ fail not_found | some t ↦ return t ]

abbrev pub is_behind : ℕ → ℕ → TotpSecret → Bool
is_behind user ts t = t.user_id == user && ltb t.last_timestep ts

-- `TOTPSetTimestep`: the replay mark moves forwards only; a second statement tells a missing row
-- from a mark that is not behind.
unfoldable pub totp_set_timestep : ℕ → ℕ → M Bool
totp_set_timestep user ts = do
  query
  w ← get
  if any (is_behind user ts) w.totps
      then put_totps
          (update_where (is_behind user ts) (λ t. record t { last_timestep = ts }) w.totps)
        >> return true
      else (do query; if any (totp_of user) w.totps then return false else fail not_found)

-- `TOTPDelete`.
unfoldable pub totp_delete : ℕ → M (Unit {0})
totp_delete user = do query; w ← get; put_totps (select (λ t. not (totp_of user t)) w.totps)

abbrev backups_from : ℕ → List ℕ → List BackupCode
backups_from user [] = []
backups_from user (h ∷ hs) =
    record { user_id = user; code_hash = h; used_at = none } ∷ backups_from user hs

-- `BackupReplace`, one transaction: it takes effect whole or, at a fault, not at all. (One fault
-- stands for a fault of any of its statements.)
unfoldable pub backup_replace : ℕ → List ℕ → M (Unit {0})
backup_replace user hashes = do
  query
  w ← get
  put_backups (backups_from user hashes ++ select (λ b. not (b.user_id == user)) w.backups)

abbrev pub is_open_backup : ℕ → ℕ → BackupCode → Bool
is_open_backup user hash b = b.user_id == user && b.code_hash == hash && is_none b.used_at

-- `BackupConsume`: true where exactly one row was changed.
unfoldable pub backup_consume : ℕ → ℕ → M Bool
backup_consume user hash = do
  query
  w ← get
  put_backups
      (update_where (is_open_backup user hash) (λ b. record b { used_at = some w.now }) w.backups)
  return (count_where (is_open_backup user hash) w.backups == 1)
