-- ===== src/Witness/Firewall.antt =====
-- Witnesses for the firewall.
use ligament_2fa.Prelude.{
  ℕ, ◌*◌, ◌<◌, ◌≡◌, refl, inl, true, false, Option, none, some, [], ◌∷◌, arith, ◌==◌, if◌then◌else◌,
  String, str_eq,
}
use ligament_2fa.Firewall.Bans.{ban_active}
use ligament_2fa.Firewall.Bans.Counting.{
  after_fails, last_of, bans_at_threshold, no_ban_before_threshold,
}
use ligament_2fa.Firewall.Guard.{State, Fail2ban, load_if_stale, prefixes, check_addr, check_until}
use ligament_2fa.Firewall.Guard.Verdicts.{BannedFor, check-BannedFor}
use ligament_2fa.Firewall.Net.{Net, host_only, contains}
use ligament_2fa.Firewall.RealIp.{Request, rightmost_external, forwarded, entry}
use ligament_2fa.Firewall.RealIp.Spoofing.{forwarded_forgery}

bans_at_threshold_example :
    (e : ℕ) × (ban_active
        (last_of 100 (110 ∷ 120 ∷ []))
        "203.0.113.9"
        (after_fails "203.0.113.9" "login_fail" 60 600 3 (100 ∷ 110 ∷ 120 ∷ []) [])
      ≡ some e)
    × (last_of 100 (110 ∷ 120 ∷ []) < e)
bans_at_threshold_example =
    bans_at_threshold "203.0.113.9" "login_fail" 60 600 3 100 (110 ∷ 120 ∷ []) [] (omega arith) refl
      (omega arith, omega arith, (omega arith, omega arith, tt)) (omega arith) (omega arith)

no_ban_before_threshold_example :
    ban_active
      (last_of 100 (110 ∷ []))
      "203.0.113.9"
      (after_fails "203.0.113.9" "login_fail" 60 600 3 (100 ∷ 110 ∷ []) [])
    ≡ none
no_ban_before_threshold_example =
    no_ban_before_threshold "203.0.113.9" "login_fail" 60 600 3 100 (110 ∷ []) [] (omega arith) refl
      (omega arith, omega arith, tt) (inl (omega arith))

-- Three addresses: the proxy 1, a client 2, and 3, which is on the allow list; the prefix 10 holds the
-- proxy, and the prefix 30 the allowed address.
abbrev addr_of : String → Option ℕ
addr_of s =
    if str_eq s "10.0.0.1"
    then some 1
    else (if str_eq s "203.0.113.9"
        then some 2
        else (if str_eq s "192.0.2.7" then some 3 else none))

abbrev name_of : ℕ → String
name_of a = if a == 1 then "10.0.0.1" else (if a == 2 then "203.0.113.9" else "192.0.2.7")

abbrev pub net : Net
net = record {
  split_host = λ s. none;
  trim_brackets = λ s. s;
  trim_space = λ s. s;
  split_commas =
      λ s. if str_eq s "9.9.9.9,203.0.113.9" then "9.9.9.9" ∷ "203.0.113.9" ∷ [] else s ∷ [];
  to_lower = λ s. s;
  parse_addr = addr_of;
  unmap = λ a. a;
  is_loopback = λ a. false;
  addr_text = name_of;
  parse_prefix = λ s.
      if str_eq s "10.0.0.0/8"
      then some 10
      else (if str_eq s "192.0.2.0/24" then some 30 else none);
  masked = λ p. p;
  in_prefix = λ p a. p == a * 10;
  single = λ a. a * 10;
}

abbrev pub state : State
state = record {
  now = 1000;
  loaded = none;
  allow = [];
  deny = [];
  ip_lists = record { kind = "allow"; cidr = "192.0.2.0/24" } ∷ [];
  bans =
      record {
        ip = "203.0.113.9";
        reason = "code_fail";
        fails = 10;
        banned_until = 1500;
        updated_at = 900;
      }
      ∷ [];
  faults = [];
}

abbrev conf : Fail2ban
conf = record { enabled = true; window = 300; ban_time = 1800; max_fail = 10 }

check-BannedFor_example :
    (a : ℕ) × (net.parse_addr (host_only net "203.0.113.9") ≡ some a)
    × BannedFor net state (net.unmap a) 1500
unfolding check_until host_only check_addr load_if_stale prefixes contains ban_active
check-BannedFor_example = check-BannedFor net "203.0.113.9" state 1500 refl

forwarded_forgery_example :
    (forwarded net (10 ∷ []) "9.9.9.9,203.0.113.9" ≡ some 2)
    × (forwarded net (10 ∷ []) "203.0.113.9" ≡ some 2)
    × (contains net (10 ∷ []) 2 ≡ false)
unfolding rightmost_external entry host_only contains
forwarded_forgery_example =
    forwarded_forgery net (10 ∷ []) "203.0.113.9" "9.9.9.9,203.0.113.9" ("9.9.9.9" ∷ []) 2 refl refl
      refl refl

abbrev plain : Request
plain = record { remote_addr = "203.0.113.9"; forwarded_for = ""; real_ip = ""; connecting_ip = "" }

abbrev forged : Request
forged = record (plain) { forwarded_for = "192.0.2.7"; real_ip = "192.0.2.7" }
