-- ===== src/RateLimit/Credit.antt =====
-- internal/radiusserver/ratelimit.go: what a source may still spend.

use ligament_2fa.Prelude.{
  ℕ, ◌+◌, ◌-◌, ◌*◌, ◌≤◌, ◌<◌, min, ◌≡◌, Bool, true, false, Option, none, some, arith, if◌then◌else◌,
}
use ligament_2fa.RateLimit.{token, rate_burst_mult, Bucket, refill, rate_bucket_idle}
use native.Mathlib.Nat.{mul-le-mul_right}

abbrev pub cap : ℕ → ℕ
cap rate = rate * rate_burst_mult * token

pub no_time : (a b r : ℕ) → a ≤ b → (a - b) * r ≡ 0
no_time a b r h = grind (arith, h)

-- What an idle source has gained is a full bucket.
pub idle_fills : (rate elapsed : ℕ) → rate_bucket_idle ≤ elapsed → cap rate ≤ elapsed * rate
idle_fills rate elapsed h = omega (arith, mul-le-mul_right rate h)

pub elapsed :
    (t now last r : ℕ) → t ≤ now → now ≤ last → (last - now) * r + (now - t) * r ≡ (last - t) * r
elapsed t now last r h g = grind (arith, h, g)

pub add_up :
    (b : Bool) (n x y z e f g : ℕ)
    → (if b then token else 0) + x ≤ y
    → n * token ≤ x + e
    → y ≤ z + f
    → e + f ≡ g
    → ((if b then 1 else 0) + n) * token ≤ z + g
add_up true n x y z e f g paid rest time total = omega (arith, paid, rest, time, total)
add_up false n x y z e f g paid rest time total = omega (arith, paid, rest, time, total)

module _ (rate : ℕ) where
  -- The units that the source may still spend at an instant.
  abbrev pub credit : ℕ → Option Bucket → ℕ
  credit now none = cap rate
  credit now (some b) = min (cap rate) (b.tokens + (now - b.last_refill) * rate)

  pub refill_lem :
      (now : ℕ) (b : Bucket)
      → b.tokens ≤ cap rate
      → ((refill rate (cap rate) now b).tokens ≡ credit now (some b))
        × (now ≤ (refill rate (cap rate) now b).last_refill)
        × ((refill rate (cap rate) now b).ip ≡ b.ip)
  unfolding refill
  refill_lem now b h =
      (ground (arith, h, no_time now b.last_refill rate), ground arith, ground arith)

  pub refill_ip : (now : ℕ) (b : Bucket) → (refill rate (cap rate) now b).ip ≡ b.ip
  unfolding refill
  refill_ip now b = ground arith

  -- A bucket that is swept was full.
  pub stale_full :
      (now : ℕ) (b : Bucket)
      → b.last_refill + rate_bucket_idle < now
      → credit now (some b) ≡ cap rate
  stale_full now b h = omega (arith, idle_fills rate (now - b.last_refill) (omega arith))

  pub credit_time :
      (now later : ℕ) (o : Option Bucket)
      → now ≤ later
      → credit later o ≤ credit now o + (later - now) * rate
  credit_time now later none h = omega arith
  credit_time now later (some b) h = omega (arith, gained)
    where
      split_time : later - b.last_refill ≤ (now - b.last_refill) + (later - now)
      split_time = omega (arith, h)

      gained : (later - b.last_refill) * rate ≤ (now - b.last_refill) * rate + (later - now) * rate
      gained = omega (arith, mul-le-mul_right rate split_time)
