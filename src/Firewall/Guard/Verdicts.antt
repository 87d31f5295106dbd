-- ===== src/Firewall/Guard/Verdicts.antt =====
-- internal/firewall/guard.go: what the verdicts mean, and whose failures count.

use ligament_2fa.Prelude.{
  ℕ, ◌<◌, ◌≡◌, refl, ◌⊎◌, true, false, Option, none, some, List, [], ◌∷◌, arith, String,
}
use ligament_2fa.Firewall.Bans.{Ban, ban_active}
use ligament_2fa.Firewall.Guard.{
  State, Fail2ban, Verdict, pass, banned, load_if_stale, check_addr, check_until, fail, fail_addr,
}
use ligament_2fa.Firewall.Net.{Net, host_only, contains}

-- An active ban ends later than now.
active_later :
    (now : ℕ) (ip : String) (bans : List Ban) (until : ℕ)
    → ban_active now ip bans ≡ some until
    → now < until
unfolding ban_active
active_later now ip [] until h = absurd (cc h)
active_later now ip (b ∷ bs) until h = ground (arith, h, active_later now ip bs until)

-- The grounds of a ban.
pub record BannedFor (net : Net) (s : State) (a until : ℕ) : Type 0 where
  pub not_denied : contains net (load_if_stale net s).deny a ≡ false
  pub not_allowed : contains net (load_if_stale net s).allow a ≡ false
  pub ahead : (load_if_stale net s).now < until

banned_addr :
    (net : Net) (a : ℕ) (s : State) (until : ℕ)
    → (check_addr net a s).0 ≡ (banned, some until)
    → BannedFor net s a until
unfolding check_addr
banned_addr net a s until h = record {
  not_denied = ground (arith, h);
  not_allowed = ground (arith, h);
  ahead = ground (
    arith,
    h,
    active_later (load_if_stale net s).now (net.addr_text a) (load_if_stale net s).bans until,
  );
}

abbrev of_text : Net → State → Option ℕ → (Verdict × Option ℕ) × State
of_text net s none = ((pass, none), s)
of_text net s (some a) = check_addr net (net.unmap a) s

-- Only an address outside both lists is banned, and with a ban that has not ended. Where
-- `CheckUntil` answers Banned, the text is an address that neither the deny list nor the allow list
-- has after the load of the lists, and the reported end is later than now.
pub check-BannedFor :
    (net : Net) (ip : String) (s : State) (until : ℕ)
    → (check_until net ip s).0 ≡ (banned, some until)
    → (a : ℕ) × (net.parse_addr (host_only net ip) ≡ some a) × BannedFor net s (net.unmap a) until
unfolding check_until
check-BannedFor net ip s until h = by_addr (net.parse_addr (host_only net ip)) refl h
  where
    by_addr :
        (o : Option ℕ)
        → net.parse_addr (host_only net ip) ≡ o
        → (of_text net s o).0 ≡ (banned, some until)
        → (a : ℕ) × (net.parse_addr (host_only net ip) ≡ some a)
          × BannedFor net s (net.unmap a) until
    by_addr none e h = absurd (cc h)
    by_addr (some a) e h = (a, e, banned_addr net (net.unmap a) s until h)

reload :
    (net : Net) (s : State)
    → s.faults ≡ []
    → load_if_stale net (load_if_stale net s) ≡ load_if_stale net s
unfolding load_if_stale
reload net s f = ground (arith, f)

load_bans : (net : Net) (s : State) → (load_if_stale net s).bans ≡ s.bans
unfolding load_if_stale
load_bans net s = ground arith

-- A listed address is not counted. With no fault of the database, a failure of an address that is on
-- the deny list or on the allow list leaves the bans as they are.
fail_listed :
    (net : Net) (conf : Fail2ban) (ip reason : String) (s : State) (a : ℕ)
    → s.faults ≡ []
    → net.parse_addr (host_only net ip) ≡ some a
    → (contains net (load_if_stale net s).deny a ≡ true)
      ⊎ (contains net (load_if_stale net s).allow a ≡ true)
    → (fail net conf ip reason s).bans ≡ s.bans
unfolding fail fail_addr
fail_listed net conf ip reason s a f e listed =
    ground (arith, e, listed, reload net s f, load_bans net s)
