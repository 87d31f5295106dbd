-- ===== src/Exchange/Table.antt =====
-- internal/radiusserver/eapsession.go: the store of sessions, a map from the hex of the RADIUS State.
-- A map is a list of sessions. A key stands for the session's address: `delete` compares both, and a
-- key is drawn afresh for every session.
pub mod Keys
pub mod Bounded
use ligament_2fa.Prelude.{
  ℕ, zero, suc, ◌+◌, ◌-◌, ◌*◌, ◌/◌, ◌%◌, ◌^◌, ◌≤◌, ◌<◌, min, max, bit_and, bit_or, ◌≡◌, refl, sym,
  ap, ◌∙◌, subst, ◌≢◌, ◌↔◌, ◌⊎◌, inl, inr, Bool, true, false, not, ◌&&◌, ◌||◌, Option, none, some,
  List, [], ◌∷◌, ◌++◌, map, append-nil, append_assoc, arith, ltb, leb, ◌==◌, if◌then◌else◌, ltb→lt,
  lt→ltb, leb→le, ==_iff, tests, Bool-cases, Option-cases, length, get_or, take, drop, All, slice,
  length-append, take-append-drop, length-take, length-drop, take-append, drop-append, take_all,
  drop_all, Result, ok, err, is_ok, any, count_where, select, update_where, find, String, str_eq,
  Among, Among-select, Result-cases, some_injective, All-select, All-update_where, All-find,
}
use ligament_2fa.Auth.Config.{bytes_eq}
use ligament_2fa.Eap.Bytes.{Bytes}
use ligament_2fa.Exchange.Session.{Session, Proto, new_session}

abbrev pub eap_session_ttl : ℕ
eap_session_ttl = 90

abbrev pub eap_session_cap : ℕ
eap_session_cap = 1024

abbrev pub eap_evict_idle : ℕ
eap_evict_idle = 30

-- A digit of "0123456789abcdef".
abbrev pub hex_digit : ℕ → ℕ
hex_digit n = if ltb n 10 then 48 + n else 87 + n

-- `hexState`, which is also `hex.EncodeToString`.
unfoldable pub hex_state : Bytes → Bytes
hex_state [] = []
hex_state (c ∷ cs) = hex_digit (c / 16) ∷ hex_digit (c % 16) ∷ hex_state cs

abbrev pub Table : Type 0
Table = List Session

abbrev pub has_key : Bytes → Session → Bool
has_key key s = bytes_eq s.state_key key

abbrev pub is_live : ℕ → Session → Bool
is_live now s = not (ltb (s.last_used + eap_session_ttl) now)

-- `cleanupLocked`.
unfoldable pub cleanup : ℕ → Table → Table
cleanup now t = select (is_live now) t

-- `get`: the session, and the table with its last use set.
unfoldable pub get_session : ℕ → Bytes → Table → Option Session × Table
get_session now [] t = (none, t)
get_session now (c ∷ cs) t = (
  elim (find (has_key (c ∷ cs)) (cleanup now t)) [
    | none ↦ none
    | some s ↦ some (record s { last_used = now })
  ],
  update_where (has_key (c ∷ cs)) (λ s. record s { last_used = now }) (cleanup now t),
)

-- `lastUsed.After(cutoff)`.
abbrev pub is_active : ℕ → Session → Bool
is_active now s = ltb now (s.last_used + eap_evict_idle)

abbrev pub older : Session → Option Session → Session
older s none = s
older s (some v) = if ltb v.last_used s.last_used then v else s

-- The victim: of the sessions that are not active the one that is unused for longest.
unfoldable pub victim : ℕ → Table → Option Session
victim now [] = none
victim now (s ∷ rest) =
    let other = victim now rest in if is_active now s then other else some (older s other)

-- `delete`.
unfoldable pub delete_session : Bytes → Table → Table
delete_session key t = select (λ s. not (has_key key s)) t

-- The first drawn State that no session has.
unfoldable pub fresh_state : List Bytes → Table → Option Bytes
fresh_state [] t = none
fresh_state (b ∷ rest) t =
    let later = fresh_state rest t in if any (has_key (hex_state b)) t then later else some b

-- A place for one more session: the table as it is, or without the victim, or none.
unfoldable pub make_room : ℕ → Table → Option Table
make_room now t =
    if ltb (length t) eap_session_cap
    then some t
    else elim (victim now t) [ none ↦ none | some v ↦ some (delete_session v.state_key t) ]

-- The outcome of `create`: refused at the cap, a session, or no draw left in the list.
pub data Created : Type 0 where
  at_cap : Created
  created : Session → Created
  out_of_draws : Created

-- `create`, with the draws of `rand.Read`.
unfoldable pub create_session : ℕ → List Bytes → Proto → Table → Created × Table
create_session now draws proto t =
    let kept = cleanup now t in
    elim (make_room now kept) as (λ _. Created × Table) [
      | none ↦ (at_cap, kept)
      | some room ↦ elim (fresh_state draws room) as (λ _. Created × Table) [
        | none ↦ (out_of_draws, room)
        | some b ↦ let s = new_session now b (hex_state b) proto in (created s, s ∷ room)
      ]
    ]
