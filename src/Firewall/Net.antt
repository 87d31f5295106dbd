-- ===== src/Firewall/Net.antt =====
-- internal/firewall/guard.go: addresses and prefixes. The packages net, net/netip and strings are
-- the fields of `Net`; an address and a prefix are the numbers that stand for their values.
use ligament_2fa.Prelude.{
  ℕ, Bool, false, ◌||◌, Option, none, some, List, [], ◌∷◌, if◌then◌else◌, String, str_eq,
}

pub record Net : Type 0 where
  -- `net.SplitHostPort`, the host only; `strings.Trim(s, "[]")` and `strings.TrimSpace`.
  pub split_host : String → Option String
  pub trim_brackets : String → String
  pub trim_space : String → String
  pub split_commas : String → List String
  pub to_lower : String → String
  -- `netip.ParseAddr`, `Unmap`, `IsLoopback`, `String`, `ParsePrefix`, `Contains` and the prefix of
  -- one address.
  pub parse_addr : String → Option ℕ
  pub unmap : ℕ → ℕ
  pub is_loopback : ℕ → Bool
  pub addr_text : ℕ → String
  pub parse_prefix : String → Option ℕ
  pub masked : ℕ → ℕ
  pub in_prefix : ℕ → ℕ → Bool
  pub single : ℕ → ℕ

-- `hostOnly`.
unfoldable pub host_only : Net → String → String
host_only net s = elim (net.split_host s) [
  | some h ↦ net.trim_brackets h
  | none ↦ net.trim_brackets s
]

-- `contains`.
unfoldable pub contains : Net → List ℕ → ℕ → Bool
contains net [] ip = false
contains net (p ∷ ps) ip = net.in_prefix p ip || contains net ps ip

abbrev push_if : Option ℕ → List ℕ → List ℕ
push_if (some p) rest = p ∷ rest
push_if none rest = rest

abbrev prefix_of : Net → String → Option ℕ
prefix_of net s = if str_eq s "" then none else elim (net.parse_prefix s) [
  | some p ↦ some (net.masked p)
  | none ↦ elim (net.parse_addr s) [ some a ↦ some (net.single (net.unmap a)) | none ↦ none ]
]

-- `parsePrefixes`.
unfoldable pub parse_prefixes : Net → List String → List ℕ
parse_prefixes net [] = []
parse_prefixes net (s ∷ rest) = push_if (prefix_of net (net.trim_space s)) (parse_prefixes net rest)
