-- ===== src/Firewall/Bans/Counting.antt =====
-- internal/store/firewall.go, `BanFail` over a series of failures: when a ban begins.
use ligament_2fa.Prelude.{
  ℕ, ◌+◌, ◌≤◌, ◌<◌, ◌≡◌, refl, sym, subst, ◌⊎◌, inl, inr, true, not, ◌&&◌, none, some, List, [],
  ◌∷◌, arith, ltb, length, select, find, String, str_eq,
}
use ligament_2fa.Firewall.Bans.{Ban, ban_fail, ban_active, fail_row, has_ip}
use text.Mathlib.TextEquality.{eq_iff}

-- The instant of the last failure.
unfoldable pub last_of : ℕ → List ℕ → ℕ
last_of t [] = t
last_of t (u ∷ us) = last_of u us

-- Each failure comes within the window of the one before.
abbrev pub Steady : ℕ → ℕ → List ℕ → Type 0
Steady window t [] = Unit
Steady window t (u ∷ us) = (t ≤ u) × (u < t + window) × Steady window u us

-- A row after `k` failures in a row, the last one at `t`.
record Counted (ip : String) (threshold k t : ℕ) (b : Ban) : Type 0 where
  named : b.ip ≡ ip
  fails : b.fails ≡ k
  updated : b.updated_at ≡ t
  active : threshold ≤ k → 2 ≤ k → t < b.banned_until
  inactive : k < threshold → b.banned_until ≤ t
  first : k ≡ 1 → b.banned_until ≤ t

str_eq_self : (s : String) → str_eq s s ≡ true
str_eq_self s = (eq_iff s s).1 refl

front : (ip : String) (b : Ban) (rest : List Ban) → b.ip ≡ ip → find (has_ip ip) (b ∷ rest) ≡ some b
front ip b rest h = ground (arith, h, str_eq_self ip)

row_first :
    (ip reason : String) (window ban_time threshold t : ℕ)
    → Counted ip threshold 1 t (fail_row t ip reason window ban_time threshold none)
unfolding fail_row
row_first ip reason window ban_time threshold t = record {
  named = refl;
  fails = refl;
  updated = refl;
  active = λ h g. absurd (omega arith);
  inactive = λ h. omega arith;
  first = λ h. omega arith;
}

row_next :
    (ip reason : String) (window ban_time threshold k t u : ℕ) (b : Ban)
    → 0 < ban_time
    → 1 ≤ k
    → t ≤ u
    → u < t + window
    → Counted ip threshold k t b
    → Counted ip threshold (k + 1) u (fail_row u ip reason window ban_time threshold (some b))
unfolding fail_row
row_next ip reason window ban_time threshold k t u b p g h i c = record {
  named = c.named;
  fails = ground (arith, c.fails, c.updated, i);
  updated = refl;
  active = λ a g. ground (arith, p, h, i, c.fails, c.updated, a);
  inactive = λ a. ground (arith, p, h, i, c.fails, c.updated, c.inactive (omega arith), a);
  first = λ e. absurd (omega arith);
}

others_gone :
    (ip : String) (now : ℕ) (bans : List Ban)
    → find (λ b. has_ip ip b && ltb now b.banned_until) (select (λ b. not (has_ip ip b)) bans)
      ≡ none
others_gone ip now [] = refl
others_gone ip now (b ∷ bs) = ground (arith, others_gone ip now bs)

-- A ban is active as the row in front says.
active_front :
    (ip : String) (t : ℕ) (b : Ban) (rest : List Ban)
    → b.ip ≡ ip
    → t < b.banned_until
    → ban_active t ip (b ∷ rest) ≡ some b.banned_until
unfolding ban_active
active_front ip t b rest h l = ground (arith, h, l, str_eq_self ip)

inactive_front :
    (ip : String) (t : ℕ) (b : Ban) (rest : List Ban)
    → b.banned_until ≤ t
    → ban_active t ip (b ∷ select (λ b. not (has_ip ip b)) rest) ≡ none
unfolding ban_active
inactive_front ip t b rest l = ground (arith, l, others_gone ip t rest)

-- The table has the address's row in front, and no other one of it.
record Series (ip : String) (threshold k t : ℕ) (bans : List Ban) : Type 0 where
  row : Ban
  rest : List Ban
  shape : bans ≡ row ∷ select (λ b. not (has_ip ip b)) rest
  counted : Counted ip threshold k t row

module _ (ip reason : String) (window ban_time threshold : ℕ) where
  -- The table after failures of the address at these instants.
  unfoldable pub after_fails : List ℕ → List Ban → List Ban
  after_fails [] bans = bans
  after_fails (t ∷ ts) bans = after_fails ts (ban_fail t ip reason window ban_time threshold bans).1

  series :
      (k t : ℕ) (us : List ℕ) (bans : List Ban)
      → 0 < ban_time
      → 1 ≤ k
      → Steady window t us
      → Series ip threshold k t bans
      → Series ip threshold (k + length us) (last_of t us) (after_fails us bans)
  unfolding after_fails last_of ban_fail
  series k t [] bans p g h s = subst (λ n. Series ip threshold n t bans) (omega arith) s
  series k t (u ∷ us) bans p g h s =
      subst (λ n. Series ip threshold n (last_of u us) (after_fails (u ∷ us) bans)) (omega arith)
        (series (k + 1) u us _ p (omega arith) h.2 (record {
          row = _;
          rest = bans;
          shape = refl;
          counted =
              subst
                (λ o.
                  Counted ip threshold (k + 1) u (fail_row u ip reason window ban_time threshold o))
                (sym (
                  subst (λ l. find (has_ip ip) l ≡ some s.row) (sym s.shape)
                    (front ip s.row _ s.counted.named)))
                (row_next ip reason window ban_time threshold k t u s.row p g h.0 h.1 s.counted);
        }))

  from_first :
      (t : ℕ) (us : List ℕ) (bans : List Ban)
      → 0 < ban_time
      → find (has_ip ip) bans ≡ none
      → Steady window t us
      → Series ip threshold (1 + length us) (last_of t us) (after_fails (t ∷ us) bans)
  unfolding after_fails ban_fail
  from_first t us bans p n h = series 1 t us _ p (omega arith) h (record {
    row = _;
    rest = bans;
    shape = refl;
    counted =
        subst (λ o. Counted ip threshold 1 t (fail_row t ip reason window ban_time threshold o))
          (sym n) (row_first ip reason window ban_time threshold t);
  })

  -- The threshold bans. Where the address had no row, the ban time is positive, and there are at
  -- least two failures and at least `threshold` of them, each within the window of the one before,
  -- the address is banned at the instant of the last one, up to a later instant.
  pub bans_at_threshold :
      (t : ℕ) (us : List ℕ) (bans : List Ban)
      → 0 < ban_time
      → find (has_ip ip) bans ≡ none
      → Steady window t us
      → threshold ≤ 1 + length us
      → 1 ≤ length us
      → (e : ℕ) × (ban_active (last_of t us) ip (after_fails (t ∷ us) bans) ≡ some e)
        × (last_of t us < e)
  bans_at_threshold t us bans p n h a g =
      let s = from_first t us bans p n h in
      (
        s.row.banned_until,
        subst (λ l. ban_active (last_of t us) ip l ≡ some s.row.banned_until) (sym s.shape)
            (active_front ip _ s.row _ s.counted.named
              (s.counted.active (omega arith) (omega arith))),
        s.counted.active (omega arith) (omega arith),
      )

  -- No ban comes before the threshold, nor with the first failure. Where the address had no row, the
  -- ban time is positive and each failure is within the window of the one before, fewer than `threshold` failures, or only
  -- one, leave it without an active ban at the instant of the last one.
  pub no_ban_before_threshold :
      (t : ℕ) (us : List ℕ) (bans : List Ban)
      → 0 < ban_time
      → find (has_ip ip) bans ≡ none
      → Steady window t us
      → (1 + length us < threshold) ⊎ (length us ≡ 0)
      → ban_active (last_of t us) ip (after_fails (t ∷ us) bans) ≡ none
  no_ban_before_threshold t us bans p n h few =
      let s = from_first t us bans p n h in
      subst (λ l. ban_active (last_of t us) ip l ≡ none) (sym s.shape)
        (inactive_front ip _ s.row s.rest (elim few [
          | inl less ↦ s.counted.inactive less
          | inr one ↦ s.counted.first (omega arith)
        ]))
