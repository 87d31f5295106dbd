-- ===== src/Auth/Codes/Delivered.antt =====
-- core.go, `VerifyAnyCode`: a delivered code counts only where it was meant to.
use ligament_2fa.Prelude.{
  ℕ, ◌≡◌, refl, subst, ◌⊎◌, inl, inr, true, List, [], ◌∷◌, arith, Bool-cases, Result, ok, select,
  String, Among, Among-select,
}
use ligament_2fa.Auth.Codes.{claim_delivered, match_delivered, verify_delivered}
use ligament_2fa.Auth.Config.{Env}
use ligament_2fa.Store.Challenges.{
  active_code_challenges, is_active_code, newest_first, insert_desc,
}
use ligament_2fa.Store.Challenges.Claims.{IsClaimed, mark_used_claims}
use ligament_2fa.Store.State.{Channel, World, Challenge, User, Error, is_some_eq}
use ligament_2fa.Store.Triple.{on_ok, Triple, OnOk, bind_rule}

-- The table of challenges and the clock are these.
pub record Same (cs : List Challenge) (t : ℕ) (w : World) : Type 0 where
  pub table : w.challenges ≡ cs
  pub clock : w.now ≡ t

Among-insert_desc :
    (c d : Challenge) (cs : List Challenge) → Among c (insert_desc d cs) → (c ≡ d) ⊎ Among c cs
Among-insert_desc c d [] m = m
Among-insert_desc c d (x ∷ xs) m = ground (arith, Among-insert_desc c d xs)

pub Among-newest_first :
    (c : Challenge) (cs : List Challenge) → Among c (newest_first cs) → Among c cs
Among-newest_first c [] m = m
Among-newest_first c (x ∷ xs) m = elim (Among-insert_desc c x (newest_first xs) m) [
  | inl e ↦ inl e
  | inr r ↦ inr (Among-newest_first c xs r)
]

-- What a delivered code is accepted by: an unused, unexpired challenge of the user, with the code's
-- hash and one of the purposes asked for, which is claimed in the same step.
pub record Delivered (cs : List Challenge) (t user sum : ℕ) (purposes : List String) (ch : Channel)
    (w : World) : Type 0 where
  pub by : Challenge
  pub stored : Among by cs
  pub active : is_active_code user t purposes by ≡ true
  pub hash : is_some_eq by.code_hash sum ≡ true
  pub channel : ch ≡ by.channel
  pub claimed : IsClaimed by.id w.challenges

claim_delivered_lem :
    (c : Challenge) (w : World) {ch : Channel}
    → (claim_delivered c w).0 ≡ ok ch
    → (ch ≡ c.channel) × IsClaimed c.id (claim_delivered c w).1.challenges
unfolding claim_delivered
claim_delivered_lem c w e = ground (arith, mark_used_claims c.id w)

match_delivered_lem :
    (sum : ℕ) (cs : List Challenge) (w : World) {ch : Channel}
    → (match_delivered sum cs w).0 ≡ ok ch
    → (c : Challenge) × Among c cs
      × (is_some_eq c.code_hash sum ≡ true)
      × (ch ≡ c.channel)
      × IsClaimed c.id (match_delivered sum cs w).1.challenges
unfolding match_delivered
match_delivered_lem sum [] w e = cc
match_delivered_lem sum (c ∷ cs) w {ch} e = elim (Bool-cases (is_some_eq c.code_hash sum)) [
  | inl hit ↦
      let e' : (claim_delivered c w).0 ≡ ok ch = rw hit at e in
      let (same, claimed) = claim_delivered_lem c w e' in (c, inl refl, hit, same, rw hit claimed)
  | inr miss ↦
      let e' : (match_delivered sum cs w).0 ≡ ok ch = rw miss at e in
      let (d, m, hit, same, claimed) = match_delivered_lem sum cs w e' in
      (d, inr m, hit, same, rw miss claimed)
]

module _ (cs : List Challenge) (t : ℕ) where
  -- What a successful check of a delivered code shows.
  abbrev pub Shows : ℕ → ℕ → List String → Result Error Channel → World → Type 0
  Shows user sum ps = OnOk (λ ch w. Delivered cs t user sum ps ch w)

  abbrev Listed : ℕ → List String → List Challenge → World → Type 0
  Listed user ps l w = l ≡ newest_first (select (is_active_code user t ps) cs)

  active-Listed :
      (user : ℕ) (p : String) (ps : List String)
      → Triple (Same cs t) (active_code_challenges user (p ∷ ps)) (OnOk (Listed user (p ∷ ps)))
  unfolding active_code_challenges
  active-Listed user p ps = record {
    run = λ w h. on_ok (Listed user (p ∷ ps)) _ _ (λ l e. ground (arith, h.table, h.clock));
  }

  match-Shows :
      (user sum : ℕ) (ps : List String) (l : List Challenge)
      → Triple (Listed user ps l) (match_delivered sum l) (Shows user sum ps)
  match-Shows user sum ps l = record {
    run = λ w listed.
        on_ok (λ ch w'. Delivered cs t user sum ps ch w') _ _
          (λ ch e.
            let (c, m, hit, same, claimed) = match_delivered_lem sum l w e in
            let m' : Among c (select (is_active_code user t ps) cs) =
              Among-newest_first c _ (subst (Among c) listed m) in
            let (stored, active) = Among-select (is_active_code user t ps) c cs m' in
            record {
              by = c;
              stored = stored;
              active = active;
              hash = hit;
              channel = same;
              claimed = claimed;
            });
  }

  pub verify_delivered-Shows :
      (env : Env) (u : User) (code : List ℕ) (ps : List String)
      → Triple (Same cs t) (verify_delivered env u code ps) (Shows u.id (env.crypto.sha256 code) ps)
  unfolding verify_delivered
  verify_delivered-Shows env u code [] = record { run = λ w h. tt }
  verify_delivered-Shows env u code (p ∷ ps) =
      bind_rule (active_code_challenges u.id (p ∷ ps)) (match_delivered (env.crypto.sha256 code))
        (active-Listed u.id p ps) (λ l. match-Shows u.id _ (p ∷ ps) l) (λ e w h. tt)
