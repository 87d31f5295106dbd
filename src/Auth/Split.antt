-- ===== src/Auth/Split.antt =====
-- internal/auth/split.go: the ways to read a RADIUS password as a password followed by a code.
use ligament_2fa.Prelude.{
  ℕ, ◌-◌, ◌<◌, ◌≡◌, ◌||◌, List, [], ◌∷◌, ◌++◌, arith, leb, ◌==◌, if◌then◌else◌, length, take, drop,
  All, take-append-drop, length-take, length-drop,
}

pub record Split : Type 0 where
  pub password : List ℕ
  pub code : List ℕ

-- `Split{Password: s[:len(s)-l], Code: s[len(s)-l:]}`.
abbrev pub split_at_end : List ℕ → ℕ → Split
split_at_end s l = record { password = take (length s - l) s; code = drop (length s - l) s }

-- `SplitCandidates`.
unfoldable pub split_candidates : List ℕ → List ℕ → List Split
split_candidates s [] = []
split_candidates s (l ∷ ls) =
    let rest = split_candidates s ls in
    if l == 0 || leb (length s) l then rest else split_at_end s l ∷ rest

abbrev pub IsSplit : List ℕ → Split → Type 0
IsSplit s c = (0 < length c.password) × (0 < length c.code) × (c.password ++ c.code ≡ s)

-- Every candidate is the string cut in two parts, neither of them empty.
split_candidates-IsSplit : (s ls : List ℕ) → All (IsSplit s) (split_candidates s ls)
unfolding split_candidates
split_candidates-IsSplit s [] = tt
split_candidates-IsSplit s (l ∷ ls) = ground (
  arith,
  split_candidates-IsSplit s ls,
  length-take (length s - l) s,
  length-drop (length s - l) s,
  take-append-drop (length s - l) s,
)
