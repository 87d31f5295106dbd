-- ===== src/Witness/RateLimit.antt =====
-- A witness for the rate limit.
use ligament_2fa.Prelude.{ℕ, ◌+◌, ◌-◌, ◌*◌, ◌≤◌, List, [], ◌∷◌, arith, String}
use ligament_2fa.RateLimit.{token, rate_burst_mult}
use ligament_2fa.RateLimit.Bound.{passed, passed_bound}

abbrev calls : List (String × ℕ)
calls = ("192.0.2.1", 5) ∷ ("192.0.2.2", 6) ∷ ("192.0.2.1", 1000000005) ∷ []

passed_bound_example :
    passed 20 "192.0.2.1" calls (record { buckets = []; dropped = 0; last_sweep = 5 }) * token
    ≤ 20 * rate_burst_mult * token + (1000000005 - 5) * 20
passed_bound_example =
    passed_bound 20 "192.0.2.1" 5 calls (omega arith)
      (omega arith, (omega arith, (omega arith, tt)))
