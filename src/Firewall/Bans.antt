-- ===== src/Firewall/Bans.antt =====
-- internal/store/firewall.go: the table ip_bans. Times are the database's seconds.
pub mod Counting
use ligament_2fa.Prelude.{
  ℕ, zero, suc, ◌+◌, ◌-◌, ◌*◌, ◌/◌, ◌%◌, ◌^◌, ◌≤◌, ◌<◌, min, max, bit_and, bit_or, ◌≡◌, refl, sym,
  ap, ◌∙◌, subst, ◌≢◌, ◌↔◌, ◌⊎◌, inl, inr, Bool, true, false, not, ◌&&◌, ◌||◌, Option, none, some,
  List, [], ◌∷◌, ◌++◌, map, append-nil, append_assoc, arith, ltb, leb, ◌==◌, if◌then◌else◌, ltb→lt,
  lt→ltb, leb→le, ==_iff, tests, Bool-cases, Option-cases, length, get_or, take, drop, All, slice,
  length-append, take-append-drop, length-take, length-drop, take-append, drop-append, take_all,
  drop_all, Result, ok, err, is_ok, any, count_where, select, update_where, find, String, str_eq,
  Among, Among-select,
}

pub record Ban : Type 0 where
  pub ip : String
  pub reason : String
  pub fails : ℕ
  pub banned_until : ℕ
  pub updated_at : ℕ

-- The count that ON CONFLICT writes.
abbrev pub next_fails : ℕ → ℕ → Ban → ℕ
next_fails now window b = if ltb now (b.updated_at + window) then b.fails + 1 else 1

abbrev pub next_until : ℕ → ℕ → ℕ → ℕ → Ban → ℕ
next_until now window ban_time threshold b =
    if leb threshold (next_fails now window b) && leb b.banned_until now
    then now + ban_time
    else b.banned_until

-- One row of `BanFail`, inserted or updated.
unfoldable pub fail_row : ℕ → String → String → ℕ → ℕ → ℕ → Option Ban → Ban
fail_row now ip reason window ban_time threshold none = record {
  ip = ip;
  reason = reason;
  fails = 1;
  banned_until = now;
  updated_at = now;
}
fail_row now ip reason window ban_time threshold (some b) = record b {
  fails = next_fails now window b;
  reason = reason;
  banned_until = next_until now window ban_time threshold b;
  updated_at = now;
}

abbrev pub has_ip : String → Ban → Bool
has_ip ip b = str_eq b.ip ip

-- `BanFail`: the table with the new row in front, and the row.
unfoldable pub ban_fail : ℕ → String → String → ℕ → ℕ → ℕ → List Ban → Ban × List Ban
ban_fail now ip reason window ban_time threshold bans =
    let row = fail_row now ip reason window ban_time threshold (find (has_ip ip) bans) in
    (row, row ∷ select (λ b. not (has_ip ip b)) bans)

-- `BanActive`: the end of the ban, where one is in force.
unfoldable pub ban_active : ℕ → String → List Ban → Option ℕ
ban_active now ip bans = elim (find (λ b. has_ip ip b && ltb now b.banned_until) bans) [
  | some b ↦ some b.banned_until
  | none ↦ none
]

-- `BanDelete`.
unfoldable pub ban_delete : String → List Ban → List Ban
ban_delete ip bans = select (λ b. not (has_ip ip b)) bans
