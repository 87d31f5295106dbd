-- ===== src/Store/Challenges.antt =====
-- internal/store/challenges.go: the statements on the table of challenges.
pub mod Claims
use ligament_2fa.Prelude.{
  ℕ, zero, suc, ◌+◌, ◌-◌, ◌*◌, ◌/◌, ◌%◌, ◌^◌, ◌≤◌, ◌<◌, min, max, bit_and, bit_or, ◌≡◌, refl, sym,
  ap, ◌∙◌, subst, ◌≢◌, ◌↔◌, ◌⊎◌, inl, inr, Bool, true, false, not, ◌&&◌, ◌||◌, Option, none, some,
  List, [], ◌∷◌, ◌++◌, map, append-nil, append_assoc, arith, ltb, leb, ◌==◌, if◌then◌else◌, ltb→lt,
  lt→ltb, leb→le, ==_iff, tests, Bool-cases, Option-cases, length, get_or, take, drop, All, slice,
  length-append, take-append-drop, length-take, length-drop, take-append, drop-append, take_all,
  drop_all, Result, ok, err, is_ok, any, count_where, select, update_where, find, String, str_eq,
}
use ligament_2fa.Store.State.{
  Channel, totp, email, sms, telegram, telegram_push, app_push, webauthn, backup, channel_eq,
  PushState, pending, approved, denied, Challenge, World, Error, not_found, bad_code, db_error, M,
  ◌>>=◌, ◌>>◌, return, fail, attempt, get, query, is_none, is_some_eq,
}

abbrev pub has_id : ℕ → Challenge → Bool
has_id i c = c.id == i

abbrev pub claimable : ℕ → Challenge → Bool
claimable i c = c.id == i && is_none c.used_at

abbrev put_challenges : List Challenge → M (Unit {0})
put_challenges cs w = (ok tt, record w { challenges = cs })

-- `ChallengeCreate`: the expired rows go first, then the row is inserted; two statements. The id is
-- the caller's, fresh (uuid.New), and `created_at` the database's clock.
unfoldable pub challenge_create : Challenge → M Challenge
challenge_create c = do
  query
  w ← get
  put_challenges (select (λ d. not (ltb d.expires_at w.now)) w.challenges)
  query
  w' ← get
  put_challenges (record c { created_at = w'.now } ∷ w'.challenges)
  return (record c { created_at = w'.now })

-- `ChallengeGet`.
unfoldable pub challenge_get : ℕ → M Challenge
challenge_get i = do
  query
  w ← get
  elim (find (has_id i) w.challenges) [ none ↦ fail not_found | some c ↦ return c ]

abbrev set_used : ℕ → Challenge → Challenge
set_used t c = record c { used_at = some t }

-- `ChallengeMarkUsed`: the claim of a challenge, which only one caller gets.
unfoldable pub challenge_mark_used : ℕ → M (Unit {0})
challenge_mark_used i = do
  query
  w ← get
  if any (claimable i) w.challenges
      then put_challenges (update_where (claimable i) (set_used w.now) w.challenges)
      else fail not_found

abbrev decrement : Challenge → Challenge
decrement c = record c { attempts_left = c.attempts_left - 1 }

-- `ChallengeDecrAttempt`: GREATEST(attempts_left - 1, 0) is the truncated difference.
unfoldable pub challenge_decr_attempt : ℕ → M ℕ
challenge_decr_attempt i = do
  query
  w ← get
  elim (find (has_id i) w.challenges) [
    | none ↦ fail not_found
    | some c ↦
        put_challenges (update_where (has_id i) decrement w.challenges)
        >> return (c.attempts_left - 1)
  ]

-- `ChallengeSetPush`.
unfoldable pub challenge_set_push : ℕ → PushState → M (Unit {0})
challenge_set_push i state = do
  query
  w ← get
  if any (has_id i) w.challenges
      then put_challenges
          (update_where (has_id i) (λ c. record c { push_state = some state }) w.challenges)
      else fail not_found

-- `ORDER BY created_at DESC`.
abbrev pub insert_desc : Challenge → List Challenge → List Challenge
insert_desc c [] = c ∷ []
insert_desc c (d ∷ ds) =
    let rest = insert_desc c ds in if ltb c.created_at d.created_at then d ∷ rest else c ∷ (d ∷ ds)

abbrev pub newest_first : List Challenge → List Challenge
newest_first [] = []
newest_first (c ∷ cs) = insert_desc c (newest_first cs)

abbrev pub is_active_code : ℕ → ℕ → List String → Challenge → Bool
is_active_code user now purposes c =
    c.user_id == user
    && ltb now c.expires_at
    && is_none c.used_at
    && not (is_none c.code_hash)
    && any (str_eq c.purpose) purposes

-- `ActiveCodeChallenges`; an empty list of purposes is an error.
unfoldable pub active_code_challenges : ℕ → List String → M (List Challenge)
active_code_challenges user [] = fail db_error
active_code_challenges user (p ∷ ps) = do
  query
  w ← get
  return (newest_first (select (is_active_code user w.now (p ∷ ps)) w.challenges))

abbrev is_push : Channel → Bool
is_push c = channel_eq c telegram_push || channel_eq c app_push

abbrev latest : List Challenge → Option ℕ
latest [] = none
latest (c ∷ cs) = elim (latest cs) [ none ↦ some c.created_at | some t ↦ some (max t c.created_at) ]

-- `LastPushAt`; the zero time is `none`.
unfoldable pub last_push_at : ℕ → M (Option ℕ)
last_push_at user = do
  query
  w ← get
  return (latest (select (λ c. c.user_id == user && is_push c.channel) w.challenges))

-- `PushCountSince`.
unfoldable pub push_count_since : ℕ → ℕ → M ℕ
push_count_since user since = do
  query
  w ← get
  return (
      count_where (λ c. c.user_id == user && is_push c.channel && ltb since c.created_at)
        w.challenges)

abbrev push_pending : Option PushState → Bool
push_pending (some pending) = true
push_pending _ = false

-- `ActiveAppPushChallenges`.
unfoldable pub active_app_push_challenges : ℕ → M (List Challenge)
active_app_push_challenges user = do
  query
  w ← get
  return (
      newest_first (
        select
          (λ c.
            c.user_id == user
            && channel_eq c.channel app_push
            && push_pending c.push_state
            && ltb w.now c.expires_at
            && is_none c.used_at)
          w.challenges))
