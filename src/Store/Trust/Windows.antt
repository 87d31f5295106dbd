-- ===== src/Store/Trust/Windows.antt =====
-- internal/store/radius_trusted.go: how long a device is trusted, and whose.
use ligament_2fa.Prelude.{
  ℕ, ◌+◌, ◌*◌, ◌<◌, ◌≡◌, refl, sym, ap, ◌∙◌, subst, Bool, false, not, ◌&&◌, List, [], ◌∷◌, arith,
  ltb, Result, ok, any, select,
}
use ligament_2fa.Auth.Config.{bytes_eq_refl}
use ligament_2fa.Store.State.{Trusted, World, Error}
use ligament_2fa.Store.Trust.{
  normalize_csid, is_nil, is_stale, is_trusting, is_pair, radius_trust_is_trusted,
  radius_trust_upsert,
}

-- The answer of `RadiusTrustIsTrusted` at another time, where the database answers.
abbrev pub trusted_at : ℕ → ℕ → List ℕ → World → Result Error Bool
trusted_at n user csid w = (radius_trust_is_trusted user csid (record w { now = n; faults = [] })).0

-- The state after `RadiusTrustUpsert`.
abbrev pub renewed : ℕ → List ℕ → ℕ → World → World
renewed user csid days w = (radius_trust_upsert user csid days w).1

none_left :
    (now n user : ℕ) (key : List ℕ) (rows : List Trusted)
    → any
        (is_trusting user key n)
        (select (λ t. not (is_stale now t) && not (is_pair user key t)) rows)
      ≡ false
none_left now n user key [] = refl
none_left now n user key (t ∷ rows) = ground (arith, none_left now n user key rows)

abbrev row_of : ℕ → List ℕ → ℕ → World → Trusted
row_of user key days w = record { user_id = user; csid = key; expires_at = w.now + days * 86400 }

upsert_rows :
    (user days : ℕ) (csid : List ℕ) (w : World)
    → 0 < days
    → 0 < user
    → is_nil (normalize_csid csid) ≡ false
    → (radius_trust_upsert user csid days w).0 ≡ ok tt
    → (renewed user csid days w).trusted
      ≡ row_of user (normalize_csid csid) days w
        ∷ select
            (λ t. not (is_stale w.now t) && not (is_pair user (normalize_csid csid) t))
            w.trusted
unfolding radius_trust_upsert
upsert_rows user days csid w pos known key done = go w.faults refl
  where
    go :
        (fs : List Bool)
        → w.faults ≡ fs
        → (renewed user csid days w).trusted
          ≡ row_of user (normalize_csid csid) days w
            ∷ select
                (λ t. not (is_stale w.now t) && not (is_pair user (normalize_csid csid) t))
                w.trusted
    go fs e = ground (arith, pos, known, key, done, e)

answer :
    (n user : ℕ) (csid : List ℕ) (v : World)
    → 0 < user
    → is_nil (normalize_csid csid) ≡ false
    → trusted_at n user csid v ≡ ok (any (is_trusting user (normalize_csid csid) n) v.trusted)
unfolding radius_trust_is_trusted
answer n user csid v known key = ground (arith, known, key)

own_row :
    (n user days : ℕ) (k : List ℕ) (w : World) (rows : List Trusted)
    → any (is_trusting user k n) rows ≡ false
    → any (is_trusting user k n) (row_of user k days w ∷ rows) ≡ ltb n (w.now + days * 86400)
own_row n user days k w rows h = ground (arith, h, bytes_eq_refl k)

-- A device whose window of trust was just set or prolonged is trusted from then on until `days` days
-- of 86400 seconds later, to the second, however its hardware address is written, and not beyond; where
-- trust is switched on, the user's id is not the zero id, the address is not empty and the database
-- answered. A day has 86400 seconds where the clocks of the database session's time zone do not change.
pub trusted_for_days :
    (user days n : ℕ) (csid csid' : List ℕ) (w : World)
    → 0 < days
    → 0 < user
    → is_nil (normalize_csid csid) ≡ false
    → normalize_csid csid' ≡ normalize_csid csid
    → (radius_trust_upsert user csid days w).0 ≡ ok tt
    → trusted_at n user csid' (renewed user csid days w) ≡ ok (ltb n (w.now + days * 86400))
trusted_for_days user days n csid csid' w pos known key same done =
    answer n user csid' (renewed user csid days w) known (rw same key)
    ∙ ap ok (
        subst
          (λ k.
            any (is_trusting user k n) (renewed user csid days w).trusted
            ≡ ltb n (w.now + days * 86400))
          (sym same)
          (rw (upsert_rows user days csid w pos known key done) (
            own_row n user days (normalize_csid csid) w _
              (none_left w.now n user (normalize_csid csid) w.trusted))))
