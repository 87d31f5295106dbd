-- ===== src/Store/Trust.antt =====
-- internal/store/radius_trusted.go: the window of trust for a user's device.
pub mod Windows
use ligament_2fa.Prelude.{
  ℕ, ◌+◌, ◌*◌, Bool, true, false, not, ◌&&◌, ◌||◌, List, [], ◌∷◌, map, ltb, leb, ◌==◌,
  if◌then◌else◌, ok, err, any, count_where, select,
}
use ligament_2fa.Auth.Config.{bytes_eq}
use ligament_2fa.Store.State.{Trusted, M, ◌>>=◌, ◌>>◌, return, attempt, get, query}

abbrev pub radius_trust_cleanup_grace : ℕ
radius_trust_cleanup_grace = 7 * 24 * 3600

-- The ASCII characters that `TrimSpace` takes off.
abbrev pub is_space : ℕ → Bool
is_space c = c == 32 || (leb 9 c && leb c 13)

unfoldable pub trim_left : List ℕ → List ℕ
trim_left [] = []
trim_left (c ∷ cs) = let rest = trim_left cs in if is_space c then rest else c ∷ cs

unfoldable pub trim_right : List ℕ → List ℕ
trim_right [] = []
trim_right (c ∷ cs) = elim (trim_right cs) [
  | [] ↦ (if is_space c then [] else c ∷ [])
  | d ∷ ds ↦ c ∷ d ∷ ds
]

-- `strings.ToLower` of an ASCII letter.
abbrev pub lower : ℕ → ℕ
lower c = if leb 65 c && leb c 90 then c + 32 else c

abbrev pub is_separator : ℕ → Bool
is_separator c = c == 58 || c == 45

-- `NormalizeRADIUSCSID` of ASCII text.
unfoldable pub normalize_csid : List ℕ → List ℕ
normalize_csid csid = select (λ c. not (is_separator c)) (map lower (trim_right (trim_left csid)))

abbrev pub is_nil : List ℕ → Bool
is_nil [] = true
is_nil (_ ∷ _) = false

abbrev pub is_pair : ℕ → List ℕ → Trusted → Bool
is_pair user key t = t.user_id == user && bytes_eq t.csid key

abbrev pub is_trusting : ℕ → List ℕ → ℕ → Trusted → Bool
is_trusting user key now t = is_pair user key t && ltb now t.expires_at

-- `RadiusTrustIsTrusted`; an error of the database counts as not trusted. The id 0 is `uuid.Nil`.
unfoldable pub radius_trust_is_trusted : ℕ → List ℕ → M Bool
radius_trust_is_trusted user csid =
    let key = normalize_csid csid in
    if is_nil key || user == 0 then return false else (do
      read ← attempt query
      w ← get
      elim read [
        | err _ ↦ return false
        | ok _ ↦ return (any (is_trusting user key w.now) w.trusted)
      ])

abbrev pub is_stale : ℕ → Trusted → Bool
is_stale now t = ltb (t.expires_at + radius_trust_cleanup_grace) now

-- `RadiusTrustUpsert`: one statement that also clears the rows long expired. A day of `make_interval`
-- is 86400 seconds, as it is where the time zone of the session has no change of the clocks.
unfoldable pub radius_trust_upsert : ℕ → List ℕ → ℕ → M (Unit {0})
radius_trust_upsert user csid days =
    let key = normalize_csid csid in
    if days == 0 || is_nil key || user == 0 then return tt else (do
      query
      λ w. (
        ok tt,
        record w {
          trusted =
              record { user_id = user; csid = key; expires_at = w.now + days * 86400 }
              ∷ select (λ t. not (is_stale w.now t) && not (is_pair user key t)) w.trusted;
        },
      ))

-- `RadiusTrustCleanup`: the number of the rows deleted.
unfoldable pub radius_trust_cleanup : M ℕ
radius_trust_cleanup = do
  query
  λ w. (
    ok (count_where (is_stale w.now) w.trusted),
    record w { trusted = select (λ t. not (is_stale w.now t)) w.trusted },
  )
