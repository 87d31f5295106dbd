-- ===== src/Firewall/Guard.antt =====
-- internal/firewall/guard.go, `Guard`: the cached lists, the verdict on an address, and the count of
-- its failures.
pub mod Verdicts
use ligament_2fa.Prelude.{
  ℕ, zero, suc, ◌+◌, ◌-◌, ◌*◌, ◌/◌, ◌%◌, ◌^◌, ◌≤◌, ◌<◌, min, max, bit_and, bit_or, ◌≡◌, refl, sym,
  ap, ◌∙◌, subst, ◌≢◌, ◌↔◌, ◌⊎◌, inl, inr, Bool, true, false, not, ◌&&◌, ◌||◌, Option, none, some,
  List, [], ◌∷◌, ◌++◌, map, append-nil, append_assoc, arith, ltb, leb, ◌==◌, if◌then◌else◌, ltb→lt,
  lt→ltb, leb→le, ==_iff, tests, Bool-cases, Option-cases, length, get_or, take, drop, All, slice,
  length-append, take-append-drop, length-take, length-drop, take-append, drop-append, take_all,
  drop_all, Result, ok, err, is_ok, any, count_where, select, update_where, find, String, str_eq,
  Among, Among-select,
}
use ligament_2fa.Firewall.Bans.{Ban, ban_fail, ban_active}
use ligament_2fa.Firewall.Net.{Net, host_only, contains}

-- A row of ip_lists; every kind but "allow" counts as a denial.
pub record IpList : Type 0 where
  pub kind : String
  pub cidr : String

-- The cache of the lists, and the tables. `loaded` is `none` for the zero time; `faults` says of each
-- coming query whether the database reports an error.
pub record State : Type 0 where
  pub now : ℕ
  pub loaded : Option ℕ
  pub allow : List ℕ
  pub deny : List ℕ
  pub ip_lists : List IpList
  pub bans : List Ban
  pub faults : List Bool

-- `snap.Fail2ban`.
pub record Fail2ban : Type 0 where
  pub enabled : Bool
  pub window : ℕ
  pub ban_time : ℕ
  pub max_fail : ℕ

pub data Verdict : Type 0 where
  pass : Verdict
  denied : Verdict
  banned : Verdict

abbrev pub list_ttl : ℕ
list_ttl = 15

-- Whether the next query fails, and what is left.
abbrev next_fault : List Bool → Bool
next_fault [] = false
next_fault (b ∷ _) = b

abbrev faults_left : List Bool → List Bool
faults_left [] = []
faults_left (_ ∷ bs) = bs

abbrev pub query_fails : State → Bool
query_fails s = next_fault s.faults

abbrev pub queried : State → State
queried s = record s { faults = faults_left s.faults }

-- `Invalidate`.
unfoldable pub invalidate : State → State
invalidate s = record s { loaded = none }

abbrev listed_prefix : Bool → Net → IpList → List ℕ → List ℕ
listed_prefix of_allow net l rest = elim (net.parse_prefix l.cidr) [
  | none ↦ rest
  | some p ↦
      let is_allow = str_eq l.kind "allow" in
      if (of_allow && is_allow) || (not of_allow && not is_allow) then p ∷ rest else rest
]

-- The prefixes of one of the lists.
unfoldable pub prefixes : Bool → Net → List IpList → List ℕ
prefixes of_allow net [] = []
prefixes of_allow net (l ∷ ls) = listed_prefix of_allow net l (prefixes of_allow net ls)

abbrev is_fresh : State → Option ℕ → Bool
is_fresh s none = false
is_fresh s (some t) = ltb s.now (t + list_ttl)

-- `loadIfStale`.
unfoldable pub load_if_stale : Net → State → State
load_if_stale net s =
    if is_fresh s s.loaded
    then s
    else (let s' = queried s in
        if query_fails s then s' else record s' {
          loaded = some s.now;
          allow = prefixes true net s.ip_lists;
          deny = prefixes false net s.ip_lists;
        })

-- The check of a parsed address.
unfoldable pub check_addr : Net → ℕ → State → (Verdict × Option ℕ) × State
check_addr net a s =
    let s' = load_if_stale net s in
    if contains net s'.deny a
    then ((denied, none), s')
    else (if contains net s'.allow a
        then ((pass, none), s')
        else (if query_fails s'
            then ((pass, none), queried s')
            else elim (ban_active s'.now (net.addr_text a) s'.bans) [
              | some until ↦ ((banned, some until), queried s')
              | none ↦ ((pass, none), queried s')
            ]))

-- `CheckUntil`; `Check` is its verdict.
unfoldable pub check_until : Net → String → State → (Verdict × Option ℕ) × State
check_until net ip s = elim (net.parse_addr (host_only net ip)) [
  | none ↦ ((pass, none), s)
  | some a ↦ check_addr net (net.unmap a) s
]

-- `containsListed`, and the state after its load.
abbrev contains_listed : Net → ℕ → Bool → State → Bool × State
contains_listed net a of_allow s =
    let s' = load_if_stale net s in (contains net (if of_allow then s'.allow else s'.deny) a, s')

abbrev count_fail : Net → Fail2ban → ℕ → String → State → State
count_fail net conf a reason s =
    let s' = queried s in
    if query_fails s then s' else record s' {
      bans =
          (ban_fail s.now (net.addr_text a) reason conf.window conf.ban_time conf.max_fail
            s.bans).1;
    }

-- The failure of a parsed address: the second list is read only where the first has not decided.
unfoldable pub fail_addr : Net → Fail2ban → ℕ → String → State → State
fail_addr net conf a reason s =
    let by_deny = contains_listed net a false s in
    if by_deny.0
    then by_deny.1
    else (let by_allow = contains_listed net a true by_deny.1 in
        if by_allow.0 then by_allow.1 else count_fail net conf a reason by_allow.1)

-- `Fail`.
unfoldable pub fail : Net → Fail2ban → String → String → State → State
fail net conf ip reason s = elim (net.parse_addr (host_only net ip)) [
  | none ↦ s
  | some a ↦ if net.is_loopback a || not conf.enabled then s else fail_addr net conf a reason s
]
