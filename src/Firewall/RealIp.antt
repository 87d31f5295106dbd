-- ===== src/Firewall/RealIp.antt =====
-- internal/firewall/guard.go, `RealIPFrom`: the client's address behind a trusted proxy.
pub mod Spoofing
use ligament_2fa.Prelude.{
  ℕ, Bool, false, not, Option, none, some, List, [], ◌∷◌, if◌then◌else◌, any, String, str_eq,
}
use ligament_2fa.Firewall.Net.{Net, host_only, contains, parse_prefixes}

-- What the function reads of the request.
pub record Request : Type 0 where
  pub remote_addr : String
  pub forwarded_for : String
  pub real_ip : String
  pub connecting_ip : String

abbrev pub default_trusted_networks : List String
default_trusted_networks =
    "127.0.0.0/8" ∷ "::1/128" ∷ "10.0.0.0/8" ∷ "172.16.0.0/12" ∷ "192.168.0.0/16" ∷ "fc00::/7"
    ∷ "fe80::/10" ∷ []

-- `isExplicitlyDisabled`.
unfoldable pub is_explicitly_disabled : Net → List String → Bool
is_explicitly_disabled net (s ∷ []) =
    any (str_eq (net.to_lower (net.trim_space s))) ("none" ∷ "off" ∷ "disable" ∷ "disabled" ∷ [])
is_explicitly_disabled net _ = false

-- The non-empty entries of TRUSTED_PROXIES.
unfoldable pub env_networks : Net → List String → List String
env_networks net [] = []
env_networks net (s ∷ rest) =
    let s' = net.trim_space s in
    let more = env_networks net rest in if str_eq s' "" then more else s' ∷ more

-- The networks in force, from proxy.trusted_networks and the environment; `none` where disabled.
unfoldable pub trusted_networks : Net → List String → String → Option (List String)
trusted_networks net [] env =
    some
      (if str_eq env "" then default_trusted_networks else env_networks net (net.split_commas env))
trusted_networks net (s ∷ rest) env =
    if is_explicitly_disabled net (s ∷ rest) then none else some (s ∷ rest)

-- The address of one entry of the chain.
unfoldable pub entry : Net → String → Option ℕ
entry net s =
    let ip = net.trim_space s in
    if str_eq ip ""
    then none
    else elim (net.parse_addr (host_only net ip)) [ none ↦ none | some a ↦ some (net.unmap a) ]

abbrev external_or : Net → List ℕ → Option ℕ → Option ℕ → Option ℕ
external_or net trusted (some a) next = if not (contains net trusted a) then some a else next
external_or net trusted none next = next

abbrev or_else : Option ℕ → Option ℕ → Option ℕ
or_else (some a) next = some a
or_else none next = next

-- The rightmost entry outside the trusted networks. The loop runs from the right: what the entries
-- on the right decide comes first.
unfoldable pub rightmost_external : Net → List ℕ → List String → Option ℕ
rightmost_external net trusted [] = none
rightmost_external net trusted (s ∷ rest) =
    or_else (rightmost_external net trusted rest) (external_or net trusted (entry net s) none)

-- The leftmost entry that is an address.
unfoldable pub leftmost : Net → List String → Option ℕ
leftmost net [] = none
leftmost net (s ∷ rest) = or_else (entry net s) (leftmost net rest)

-- What the header X-Forwarded-For gives.
unfoldable pub forwarded : Net → List ℕ → String → Option ℕ
forwarded net trusted header =
    let parts = net.split_commas header in
    if str_eq (net.trim_space header) ""
    then none
    else or_else (rightmost_external net trusted parts) (leftmost net parts)

abbrev text_or : Net → Option ℕ → String → String
text_or net (some a) rest = net.addr_text a
text_or net none rest = rest

abbrev from_headers : Net → List ℕ → Request → String → String
from_headers net trusted r remote =
    text_or net
      (or_else (forwarded net trusted r.forwarded_for)
        (or_else (entry net r.real_ip) (entry net r.connecting_ip)))
      remote

-- `RealIPFrom`, with the setting proxy.trusted_networks and the variable TRUSTED_PROXIES.
unfoldable pub real_ip_from : Net → List String → String → Request → String
real_ip_from net conf env r =
    let remote = host_only net r.remote_addr in
    elim (net.parse_addr remote) [
      | none ↦ remote
      | some a ↦ elim (trusted_networks net conf env) [
        | none ↦ remote
        | some nets ↦
            let trusted = parse_prefixes net nets in
            if not (contains net trusted (net.unmap a))
            then remote
            else from_headers net trusted r remote
      ]
    ]
