-- ===== src/RateLimit.antt =====
-- internal/radiusserver/ratelimit.go: the token buckets before every RADIUS packet.
-- Times are nanoseconds, and a token is worth 10^9 units, so that a rate in tokens a second adds as many
-- units a nanosecond; the code's floating-point numbers are taken exactly.
pub mod Lists
pub mod Credit
pub mod Bound
use ligament_2fa.Prelude.{
  ℕ, zero, suc, ◌+◌, ◌-◌, ◌*◌, ◌/◌, ◌%◌, ◌^◌, ◌≤◌, ◌<◌, min, max, bit_and, bit_or, ◌≡◌, refl, sym,
  ap, ◌∙◌, subst, ◌≢◌, ◌↔◌, ◌⊎◌, inl, inr, Bool, true, false, not, ◌&&◌, ◌||◌, Option, none, some,
  List, [], ◌∷◌, ◌++◌, map, append-nil, append_assoc, arith, ltb, leb, ◌==◌, if◌then◌else◌, ltb→lt,
  lt→ltb, leb→le, ==_iff, tests, Bool-cases, Option-cases, length, get_or, take, drop, All, slice,
  length-append, take-append-drop, length-take, length-drop, take-append, drop-append, take_all,
  drop_all, Result, ok, err, is_ok, any, count_where, select, update_where, find, String, str_eq,
  Among, Among-select,
}

abbrev pub token : ℕ
token = 1000000000

abbrev pub rate_burst_mult : ℕ
rate_burst_mult = 2

abbrev pub minute : ℕ
minute = 60 * token

abbrev pub rate_bucket_idle : ℕ
rate_bucket_idle = 5 * minute

abbrev pub rate_sweep_interval : ℕ
rate_sweep_interval = minute

-- `tokenBucket`.
pub record Bucket : Type 0 where
  pub ip : String
  pub tokens : ℕ
  pub last_refill : ℕ

-- `refill`; time that does not go on adds nothing.
unfoldable pub refill : ℕ → ℕ → ℕ → Bucket → Bucket
refill rate burst now b = if leb now b.last_refill then b else record b {
  tokens = min burst (b.tokens + (now - b.last_refill) * rate);
  last_refill = now;
}

-- `rateLimiter`: the map by source, the count of drops, and the time of the last sweep.
pub record Limiter : Type 0 where
  pub buckets : List Bucket
  pub dropped : ℕ
  pub last_sweep : ℕ

abbrev pub is_of : String → Bucket → Bool
is_of ip b = str_eq b.ip ip

-- `sweepLocked`.
unfoldable pub sweep : ℕ → Limiter → Limiter
sweep now l = if ltb now (l.last_sweep + rate_sweep_interval) then l else record l {
  last_sweep = now;
  buckets = select (λ b. not (ltb (b.last_refill + rate_bucket_idle) now)) l.buckets;
}

abbrev put : Bucket → List Bucket → List Bucket
put b bs = b ∷ select (λ c. not (is_of b.ip c)) bs

abbrev spend : Bucket → Limiter → Bool × Limiter
spend b l =
    if leb token b.tokens
    then (true, record l { buckets = put (record b { tokens = b.tokens - token }) l.buckets })
    else (false, record l { buckets = put b l.buckets; dropped = l.dropped + 1 })

abbrev of_source : String → ℕ → ℕ → Option Bucket → Limiter → Bool × Limiter
of_source ip rate now none l = (
  true,
  record l {
    buckets =
        put (record { ip = ip; tokens = rate * rate_burst_mult * token - token; last_refill = now })
          l.buckets;
  },
)
of_source ip rate now (some b) l = spend (refill rate (rate * rate_burst_mult * token) now b) l

-- `allow`; a rate of 0 turns the limit off.
unfoldable pub allow : String → ℕ → ℕ → Limiter → Bool × Limiter
allow ip rate now l =
    if rate == 0
    then (true, l)
    else (let l' = sweep now l in of_source ip rate now (find (is_of ip) l'.buckets) l')
