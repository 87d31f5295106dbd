-- ===== src/Firewall/RealIp/Spoofing.antt =====
-- internal/firewall/guard.go, `RealIPFrom`: what a client cannot forge.
use ligament_2fa.Prelude.{ℕ, ◌≡◌, false, some, List, [], ◌∷◌, ◌++◌, arith, String, str_eq}
use ligament_2fa.Firewall.Net.{Net, contains}
use ligament_2fa.Firewall.RealIp.{rightmost_external, forwarded}

external_right :
    (net : Net) (trusted : List ℕ) (forged parts : List String) (a : ℕ)
    → rightmost_external net trusted parts ≡ some a
    → rightmost_external net trusted (forged ++ parts) ≡ some a
unfolding rightmost_external
external_right net trusted [] parts a h = h
external_right net trusted (x ∷ xs) parts a h = rw (external_right net trusted xs parts a h)

external_untrusted :
    (net : Net) (trusted : List ℕ) (parts : List String) (a : ℕ)
    → rightmost_external net trusted parts ≡ some a
    → contains net trusted a ≡ false
unfolding rightmost_external
external_untrusted net trusted [] a h = absurd (cc h)
external_untrusted net trusted (x ∷ xs) a h = ground (arith, h, external_untrusted net trusted xs a)

-- What the proxies append decides. Where the entries that trusted proxies wrote into X-Forwarded-For
-- hold an address outside the trusted networks, the header gives the rightmost such one, whatever
-- entries a client has put in front of them, and it is outside the trusted networks.
pub forwarded_forgery :
    (net : Net) (trusted : List ℕ) (header forged_header : String) (forged : List String) (a : ℕ)
    → net.split_commas forged_header ≡ forged ++ net.split_commas header
    → str_eq (net.trim_space header) "" ≡ false
    → str_eq (net.trim_space forged_header) "" ≡ false
    → rightmost_external net trusted (net.split_commas header) ≡ some a
    → (forwarded net trusted forged_header ≡ some a)
      × (forwarded net trusted header ≡ some a)
      × (contains net trusted a ≡ false)
unfolding forwarded
forwarded_forgery net trusted header forged_header forged a e n m h = (
  ground (arith, e, m, external_right net trusted forged (net.split_commas header) a h),
  ground (arith, n, h),
  external_untrusted net trusted (net.split_commas header) a h,
)
