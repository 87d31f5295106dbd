-- ===== src/Auth/Radius.antt =====
-- `RADIUSAuth` and `livePendingPush` of internal/auth/core.go: an Access-Request with a PAP
-- password, a code glued to it, or a push confirmation that holds the request.
pub mod Hold
pub mod Pending
pub mod Cost
pub mod Grounds
pub mod Soundness
use ligament_2fa.Prelude.{
  ℕ, suc, ◌+◌, ◌-◌, Bool, true, false, not, ◌&&◌, ◌||◌, Option, none, some, List, [], ◌∷◌, ltb, leb,
  ◌==◌, if◌then◌else◌, Result, ok, err, any, count_where, select, String, str_eq,
}
use ligament_2fa.Auth.Audit.{audit, user_by_username, fail_locked}
use ligament_2fa.Auth.Codes.{verify_any_code, login_code_purposes}
use ligament_2fa.Auth.Config.{Env}
use ligament_2fa.Auth.Login.{local_verify, burn_dummy_verify}
use ligament_2fa.Auth.Split.{Split, split_candidates}
use ligament_2fa.Store.Challenges.{
  challenge_create, challenge_get, challenge_mark_used, last_push_at, push_count_since,
  newest_first,
}
use ligament_2fa.Store.Challenges.Claims.{StoreOp, run_ops}
use ligament_2fa.Store.State.{
  User, telegram_push, app_push, channel_eq, PushState, pending, approved, denied, Challenge, Event,
  radius_auth, radius_fail, push_sent, app_push_sent, AuditEntry, World, M, ◌>>=◌, ◌>>◌, return,
  attempt, get, query, is_none, Error,
}

-- Accept or reject, and the reason; `none` while the request is still held.
abbrev pub Answer : Type 0
Answer = Option (Bool × String)

-- What a push meets outside this package: who is registered for it, the user's effective
-- radius_push, what the deliveries return, the service's name and the fresh id.
pub record PushEnv : Type 0 where
  pub has_app : Bool
  pub has_telegram : Bool
  pub radius_push : Bool
  pub app_fails : Bool
  pub app_delivered : ℕ
  pub telegram_fails : Bool
  pub service : String
  pub new_id : ℕ

-- What happens to a held request before its next poll: the caller gives up, or time passes and
-- other requests issue their statements.
pub data Tick : Type 0 where
  cancelled : Tick
  polls : ℕ → List StoreOp → Tick

-- `audit(reason, accept)` followed by the return.
unfoldable pub answer : Env → String → String → String → Bool → M Answer
answer env username src_ip reason accept = do
  audit env username radius_auth reason src_ip accept
  return (some (accept, reason))

unfoldable pub answer_bad_credentials : Env → String → String → M Answer
answer_bad_credentials env username src_ip = do
  audit env username radius_auth "bad_credentials" src_ip false
  audit env username radius_fail "bad_credentials" src_ip false
  return (some (false, "bad_credentials"))

-- What a poll makes of the challenge that it reads.
pub data Polled : Type 0 where
  gone accepted refused waiting : Polled

abbrev polled_state : Option PushState → Polled
polled_state (some approved) = accepted
polled_state (some denied) = refused
polled_state _ = waiting

abbrev polled_row : ℕ → Challenge → Polled
polled_row now c =
    if not (is_none c.used_at) || not (ltb now c.expires_at)
    then gone
    else polled_state c.push_state

-- The hold: one poll a tick, until an answer, the deadline, or the third failed read in a row
-- (`pushGetRetries`). An approved challenge is claimed; how the claim ends is not looked at. With no
-- tick left the request is still held.
module _ (env : Env) (username src_ip : String) (i deadline : ℕ) where
  abbrev timeout : M Answer
  timeout = answer env username src_ip "push_timeout" false

  abbrev on_polled : Polled → M Answer → M Answer
  on_polled gone next = timeout
  on_polled accepted next =
      attempt (challenge_mark_used i) >> answer env username src_ip "push_ok" true
  on_polled refused next = answer env username src_ip "push_denied" false
  on_polled waiting next = next

  -- One poll; `again` goes on after a failed read, `next` after a read that decides nothing.
  unfoldable pub poll : ℕ → M Answer → M Answer → M Answer
  poll fails again next = do
    w ← get
    if ltb deadline w.now then timeout else (do
      read ← attempt (challenge_get i)
      elim read [
        | err _ ↦ (if leb 3 (suc fails) then timeout else again)
        | ok c ↦ on_polled (polled_row w.now c) next
      ])

  -- Time passes, at least the ticker's second, and other requests act.
  abbrev advance : ℕ → List StoreOp → World → World
  advance n ops w = run_ops ops (record w { now = w.now + suc n })

  unfoldable pub hold : ℕ → List Tick → M Answer
  hold fails [] = return none
  hold fails (cancelled ∷ rest) = timeout
  hold fails (polls n ops ∷ rest) =
      let again = hold (suc fails) rest in
      let next = hold 0 rest in λ w. poll fails again next (advance n ops w)

abbrev is_pending : Option PushState → Bool
is_pending (some pending) = true
is_pending _ = false

abbrev is_live_push : ℕ → ℕ → Challenge → Bool
is_live_push user now c =
    c.user_id == user
    && (channel_eq c.channel telegram_push || channel_eq c.channel app_push)
    && is_pending c.push_state
    && is_none c.used_at
    && ltb now c.expires_at
    && not (any (str_eq c.purpose) ("api" ∷ "ui_confirm" ∷ "tg_link" ∷ []))

abbrev first {ℓ} : {A : Type ℓ} → List A → Option A
first [] = none
first (x ∷ _) = some x

abbrev got_push : Result Error Challenge → M (Option Challenge)
got_push (err _) = return none
got_push (ok d) = return (some d)

abbrev on_newest : Option Challenge → M (Option Challenge)
on_newest none = return none
on_newest (some c) = do got ← attempt (challenge_get c.id); got_push got

abbrev on_list : ℕ → World → Result Error (Unit {0}) → M (Option Challenge)
on_list user w (err _) = return none
on_list user w (ok _) =
    on_newest (first (newest_first (select (is_live_push user w.now) w.challenges)))

-- `(*Core).livePendingPush`: the newest live push of the user that is not another flow's.
unfoldable pub live_pending_push : ℕ → M (Option Challenge)
live_pending_push user = do read ← attempt query; w ← get; on_list user w read

-- The outcome of the push-fatigue gates: an answer, or the challenge to resume, or a new push.
pub data Gate : Type 0 where
  refuse : String → Gate
  resume : Challenge → Gate
  fresh : Gate

abbrev in_cooldown : Env → ℕ → Option ℕ → Bool
in_cooldown env now none = false
in_cooldown env now (some t) = ltb now (t + env.settings.push_cooldown)

-- The cooldown, with its exception for a live challenge, and the hourly limit.
unfoldable pub push_gate : Env → User → M Gate
push_gate env user = do
  w ← get
  last ← attempt (last_push_at user.id)
  elim last [
    | err _ ↦ return (refuse "push_send_fail")
    | ok at ↦
        if in_cooldown env w.now at
        then (do
          live ← live_pending_push user.id
          elim live [ none ↦ return (refuse "push_cooldown") | some c ↦ return (resume c) ])
        else (do
          n ← attempt (push_count_since user.id (w.now - 3600))
          elim n [
            | err _ ↦ return (refuse "push_send_fail")
            | ok k ↦
                if leb env.settings.push_per_hour k
                then return (refuse "push_limit")
                else return fresh
          ])
  ]

-- `DELETE FROM challenges WHERE id = $1`.
unfoldable pub delete_challenge : ℕ → M (Unit {0})
delete_challenge i = do
  query
  λ w. (ok tt, record w { challenges = select (λ c. not (c.id == i)) w.challenges })

-- The delivery of a new push through both channels. Where the app's delivery fails, reaches no client,
-- and Telegram has not taken the push, it is deleted, so that it does not hold the next one's
-- cooldown, and the answer is false; in all other cases the request is held.
unfoldable pub deliver : Env → PushEnv → String → ℕ → Bool → Bool → M Bool
deliver env push username i send_app send_tg = do
  (if send_app then audit env username app_push_sent "" "" (not push.app_fails) else return tt)
  (if send_tg then audit env username push_sent "" "" (not push.telegram_fails) else return tt)
  if send_app
        && push.app_fails
        && push.app_delivered == 0
        && not (send_tg && not push.telegram_fails)
      then attempt (delete_challenge i) >> return false
      else return true

-- A new challenge, pending, on the channel of the app where there is one.
abbrev push_challenge : Env → PushEnv → User → Bool → ℕ → Challenge
push_challenge env push user send_app now = record {
  id = push.new_id;
  user_id = user.id;
  channel = if send_app then app_push else telegram_push;
  code_hash = none;
  push_state = some pending;
  expires_at = now + env.settings.code_ttl;
  attempts_left = 1;
  used_at = none;
  purpose = push.service;
  created_at = now;
}

abbrev is_radius_event : Event → Bool
is_radius_event radius_fail = true
is_radius_event _ = false

abbrev is_radius_fail : String → ℕ → ℕ → AuditEntry → Bool
is_radius_fail name now window e =
    str_eq e.username name && is_radius_event e.event && not e.success && ltb now (e.ts + window)

module _ (env : Env) (push : PushEnv) (username src_ip : String) (ticks : List Tick) where
  abbrev hold_for : ℕ → M Answer
  hold_for i w = hold env username src_ip i (w.now + env.settings.push_wait) 0 ticks w

  abbrev send_new : User → Bool → Bool → M Answer
  send_new user send_app send_tg = do
    w ← get
    made ← attempt (challenge_create (push_challenge env push user send_app w.now))
    elim made [
      | err _ ↦ answer env username src_ip "push_send_fail" false
      | ok c ↦ (do
        taken ← deliver env push username c.id send_app send_tg
        if taken then hold_for c.id else answer env username src_ip "push_send_fail" false)
    ]

  -- From the check of the whole password on: the push mode.
  unfoldable pub radius_push_mode : User → M Answer
  radius_push_mode user =
      let send_app = push.radius_push && push.has_app in
      let send_tg = push.radius_push && not (is_none user.telegram_chat_id) && push.has_telegram in
      if not send_app && not send_tg
      then answer env username src_ip "bad_credentials" false
      else (do
        gate ← push_gate env user
        elim gate [
          | refuse reason ↦ answer env username src_ip reason false
          | resume c ↦ hold_for c.id
          | fresh ↦ send_new user send_app send_tg
        ])

  unfoldable pub radius_whole : User → List ℕ → M Answer
  radius_whole user pap = do
    r ← attempt (local_verify env username pap)
    elim r [ err _ ↦ answer_bad_credentials env username src_ip | ok _ ↦ radius_push_mode user ]

  unfoldable pub radius_candidates : User → List ℕ → List Split → M Answer
  radius_candidates user pap [] = radius_whole user pap
  radius_candidates user pap (c ∷ cs) =
      let later = radius_candidates user pap cs in
      do
        r ← attempt (verify_any_code env user c.code login_code_purposes)
        elim r [
          | err _ ↦ later
          | ok _ ↦ (do
            good ← attempt (local_verify env username c.password)
            elim good [
              | ok _ ↦ answer env username src_ip "code_ok" true
              | err _ ↦ answer_bad_credentials env username src_ip
            ])
        ]

  -- radius.max_fail_per_user over radius.fail_window; an error of the read counts as not locked.
  unfoldable pub radius_locked : User → M Bool
  radius_locked user = if env.settings.radius_max_fail_per_user == 0 then return false else (do
    read ← attempt query
    w ← get
    elim read [
      | err _ ↦ return false
      | ok _ ↦ return (
          leb env.settings.radius_max_fail_per_user (
            count_where (is_radius_fail user.username w.now env.settings.radius_fail_window)
              w.audit_log))
    ])

  -- `(*Core).RADIUSAuth`.
  unfoldable pub radius_authenticate : List ℕ → M Answer
  radius_authenticate pap = do
    found ← attempt (user_by_username username)
    elim found [
      | err _ ↦ (do
        burn_dummy_verify
        audit env username radius_auth "no_user" src_ip false
        audit env username radius_fail "no_user" src_ip false
        return (some (false, "no_user")))
      | ok user ↦ if not user.enabled then answer env username src_ip "disabled" false else (do
        vpn ← radius_locked user
        if vpn then answer env username src_ip "locked" false else (do
          banned ← fail_locked env user.id
          if banned
              then answer env username src_ip "locked" false
              else radius_candidates user pap (split_candidates pap env.settings.code_lengths)))
    ]
