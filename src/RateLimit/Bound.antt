-- ===== src/RateLimit/Bound.antt =====
-- internal/radiusserver/ratelimit.go: how many packets of one source pass in a stretch of time.
use ligament_2fa.Prelude.{
  ℕ, ◌+◌, ◌-◌, ◌*◌, ◌≤◌, ◌≡◌, refl, sym, ap, ◌∙◌, subst, inl, inr, Bool, true, false, not, ◌&&◌,
  Option, none, some, List, [], ◌∷◌, arith, ltb, leb, ◌==◌, if◌then◌else◌, Bool-cases, count_where,
  select, find, String, str_eq,
}
use ligament_2fa.RateLimit.{
  token, rate_burst_mult, Bucket, Limiter, refill, is_of, sweep, allow, put, spend, of_source,
  rate_bucket_idle, rate_sweep_interval,
}
use ligament_2fa.RateLimit.Credit.{
  cap, no_time, elapsed, add_up, credit, refill_lem, refill_ip, stale_full, credit_time,
}
use ligament_2fa.RateLimit.Lists.{
  gate, find-select, count-select, none_of, self, find-others, found_name,
}
use text.Mathlib.TextEquality.{eq_iff}

module _ (rate : ℕ) (ip : String) where
  abbrev held : Limiter → Option Bucket
  held l = find (is_of ip) l.buckets

  -- The source has at most one bucket, no fuller than the burst.
  record Ready (l : Limiter) : Type 0 where
    one : count_where (is_of ip) l.buckets ≤ 1
    full : (b : Bucket) → held l ≡ some b → b.tokens ≤ cap rate

  abbrev keeps : ℕ → Bucket → Bool
  keeps now b = not (ltb (b.last_refill + rate_bucket_idle) now)

  gated :
      (now : ℕ) (o : Option Bucket)
      → ((b : Bucket) → o ≡ some b → b.tokens ≤ cap rate)
      → ((b : Bucket) → gate (keeps now) o ≡ some b → b.tokens ≤ cap rate)
        × (credit rate now (gate (keeps now) o) ≡ credit rate now o)
  gated now none f = (λ b e. absurd (cc e), refl)
  gated now (some c) f = (λ b e. ground (arith, f c refl, e), ground (arith, stale_full rate now c))

  sweep_lem :
      (now : ℕ) (l : Limiter)
      → Ready l
      → Ready (sweep now l) × (credit rate now (held (sweep now l)) ≡ credit rate now (held l))
  unfolding sweep
  sweep_lem now l r = by_test (ltb now (l.last_sweep + rate_sweep_interval))
    where
      swept : Limiter
      swept = record l { last_sweep = now; buckets = select (keeps now) l.buckets }

      found : held swept ≡ gate (keeps now) (held l)
      found = find-select ip (keeps now) l.buckets r.one

      fine :
          ((b : Bucket) → gate (keeps now) (held l) ≡ some b → b.tokens ≤ cap rate)
          × (credit rate now (gate (keeps now) (held l)) ≡ credit rate now (held l))
      fine = gated now (held l) r.full

      by_test :
          (b : Bool)
          → Ready (if b then l else swept)
            × (credit rate now (held (if b then l else swept)) ≡ credit rate now (held l))
      by_test true = (r, refl)
      by_test false = (
        record {
          one = omega (arith, r.one, count-select ip (keeps now) l.buckets);
          full = λ b e. fine.0 b (sym found ∙ e);
        },
        ap (credit rate now) found ∙ fine.1,
      )

  put_lem :
      (b : Bucket) (bs : List Bucket) (l : Limiter)
      → b.ip ≡ ip
      → b.tokens ≤ cap rate
      → l.buckets ≡ put b bs
      → Ready l × (held l ≡ some b)
  put_lem b bs l h t e = (
    record {
      one = ground (arith, e, h, self ip, none_of ip bs);
      full = λ c g. ground (arith, g, front, t);
    },
    front,
  )
    where
      front : held l ≡ some b
      front = ground (arith, e, h, self ip)

  -- What a call of the source costs it.
  abbrev Paid : ℕ → ℕ → Bool × Limiter → Type 0
  Paid now before r = Ready r.1 × ((if r.0 then token else 0) + credit rate now (held r.1) ≤ before)

  spend_lem :
      (now : ℕ) (b : Bucket) (l : Limiter)
      → b.ip ≡ ip
      → b.tokens ≤ cap rate
      → now ≤ b.last_refill
      → Paid now b.tokens (spend b l)
  spend_lem now b l h t n = by_test (leb token b.tokens) (λ e. ground (arith, e))
    where
      less : Bucket
      less = record b { tokens = b.tokens - token }

      paid : Limiter
      paid = record l { buckets = put less l.buckets }

      unpaid : Limiter
      unpaid = record l { buckets = put b l.buckets; dropped = l.dropped + 1 }

      p : Ready paid × (held paid ≡ some less)
      p = put_lem less l.buckets paid h (omega (arith, t)) refl

      u : Ready unpaid × (held unpaid ≡ some b)
      u = put_lem b l.buckets unpaid h t refl

      by_test :
          (c : Bool)
          → (c ≡ true → token ≤ b.tokens)
          → Paid now b.tokens (if c then (true, paid) else (false, unpaid))
      by_test true g = (
        p.0,
        subst (λ o. token + credit rate now o ≤ b.tokens) (sym p.1)
            (omega (arith, g refl, no_time now b.last_refill rate n)),
      )
      by_test false g = (
        u.0,
        subst (λ o. 0 + credit rate now o ≤ b.tokens) (sym u.1)
            (omega (arith, no_time now b.last_refill rate n)),
      )

  own_call :
      (now : ℕ) (l : Limiter) (o : Option Bucket)
      → 1 ≤ rate
      → held l ≡ o
      → Ready l
      → Paid now (credit rate now (held l)) (of_source ip rate now o l)
  own_call now l none p e r = (
    q.0,
    subst (λ o. token + credit rate now o ≤ credit rate now (held l)) (sym q.1)
        (subst (λ o. token + credit rate now (some new) ≤ credit rate now o) (sym e)
          (omega (arith, p, no_time now now rate (omega arith)))),
  )
    where
      new : Bucket
      new = record { ip = ip; tokens = rate * rate_burst_mult * token - token; last_refill = now }

      q :
          Ready (of_source ip rate now none l).1
          × (held (of_source ip rate now none l).1 ≡ some new)
      q = put_lem new l.buckets (of_source ip rate now none l).1 refl (omega arith) refl
  own_call now l (some b) p e r =
      subst (λ o. Paid now (credit rate now o) (of_source ip rate now (some b) l)) (sym e)
        (subst (λ x. Paid now x (of_source ip rate now (some b) l)) f.0
          (spend_lem now (refill rate (cap rate) now b) l (f.2 ∙ named) (omega (arith, f.0)) f.1))
    where
      f :
          ((refill rate (cap rate) now b).tokens ≡ credit rate now (some b))
          × (now ≤ (refill rate (cap rate) now b).last_refill)
          × ((refill rate (cap rate) now b).ip ≡ b.ip)
      f = refill_lem rate now b (r.full b e)

      named : b.ip ≡ ip
      named = found_name ip l.buckets b e

  put_other :
      (b : Bucket) (l l' : Limiter)
      → str_eq b.ip ip ≡ false
      → Ready l
      → l'.buckets ≡ put b l.buckets
      → Ready l' × (held l' ≡ held l)
  put_other b l l' d r e = (
    record {
      one = ground (arith, e, d, r.one, count-select ip (λ c. not (is_of b.ip c)) l.buckets);
      full = λ c g. r.full c (sym same ∙ g);
    },
    same,
  )
    where
      same : held l' ≡ held l
      same = ground (arith, e, d, find-others ip b.ip l.buckets d)

  abbrev Same : Limiter → Bool × Limiter → Type 0
  Same l r' = Ready r'.1 × (held r'.1 ≡ held l)

  other_call :
      (other : String) (now : ℕ) (l : Limiter) (o : Option Bucket)
      → str_eq other ip ≡ false
      → find (is_of other) l.buckets ≡ o
      → Ready l
      → Ready (of_source other rate now o l).1 × (held (of_source other rate now o l).1 ≡ held l)
  other_call other now l none d e r = put_other _ l (of_source other rate now none l).1 d r refl
  other_call other now l (some b) d e r = spent (leb token c.tokens)
    where
      c : Bucket
      c = refill rate (cap rate) now b

      name : (refill rate (cap rate) now b).ip ≡ b.ip
      name = refill_ip rate now b

      apart : str_eq c.ip ip ≡ false
      apart = subst (λ n. str_eq n ip ≡ false) (sym (name ∙ found_name other l.buckets b e)) d

      spent :
          (t : Bool)
          → Same l (
              if t
              then (
                true,
                record l { buckets = put (record c { tokens = c.tokens - token }) l.buckets },
              )
              else (false, record l { buckets = put c l.buckets; dropped = l.dropped + 1 }))
      spent true = put_other (record c { tokens = c.tokens - token }) l _ apart r refl
      spent false = put_other c l _ apart r refl

  -- What a call of any source costs this one.
  abbrev Cost : ℕ → String → ℕ → Bool × Limiter → Type 0
  Cost now src before r' =
      Ready r'.1
      × ((if str_eq src ip && r'.0 then token else 0) + credit rate now (held r'.1) ≤ before)

  swept_call :
      (src : String) (now : ℕ) (l : Limiter)
      → 1 ≤ rate
      → Ready l
      → Cost now src
          (credit rate now (held l))
          (of_source src rate now (find (is_of src) l.buckets) l)
  swept_call src now l p r = elim (Bool-cases (str_eq src ip)) [
    | inl e ↦
        subst
          (λ s.
            Cost now s (credit rate now (held l))
              (of_source s rate now (find (is_of s) l.buckets) l))
          (sym ((eq_iff src ip).0 e)) (same (own_call now l (held l) p refl r))
    | inr e ↦ apart e (other_call src now l (find (is_of src) l.buckets) e refl r)
  ]
    where
      same :
          Paid now (credit rate now (held l)) (of_source ip rate now (held l) l)
          → Cost now ip (credit rate now (held l)) (of_source ip rate now (held l) l)
      same q = (q.0, ground (arith, self ip, q.1))

      apart :
          str_eq src ip ≡ false
          → Same l (of_source src rate now (find (is_of src) l.buckets) l)
          → Cost now src
              (credit rate now (held l))
              (of_source src rate now (find (is_of src) l.buckets) l)
      apart e q = (q.0, ground (arith, e, q.1))

  call_lem :
      (src : String) (now : ℕ) (l : Limiter)
      → 1 ≤ rate
      → Ready l
      → Cost now src (credit rate now (held l)) (allow src rate now l)
  unfolding allow
  call_lem src now l p r = by_rate (rate == 0) (ground (arith, p))
    where
      s : Ready (sweep now l) × (credit rate now (held (sweep now l)) ≡ credit rate now (held l))
      s = sweep_lem now l r

      by_rate :
          (z : Bool)
          → z ≡ false
          → Cost now src (credit rate now (held l)) (
              if z
              then (true, l)
              else of_source src rate now (find (is_of src) (sweep now l).buckets) (sweep now l))
      by_rate true e = absurd (cc e)
      by_rate false e =
          subst
            (λ x.
              Cost now src x
                (of_source src rate now (find (is_of src) (sweep now l).buckets) (sweep now l)))
            s.1 (swept_call src now (sweep now l) p s.0)

  -- Calls in the order of time, from an instant on.
  abbrev pub Ordered : ℕ → List (String × ℕ) → Type 0
  Ordered t [] = Unit
  Ordered t ((src, now) ∷ calls) = (t ≤ now) × Ordered now calls

  abbrev pub last_time : ℕ → List (String × ℕ) → ℕ
  last_time t [] = t
  last_time t ((src, now) ∷ calls) = last_time now calls

  -- How many of the calls of this source pass.
  unfoldable pub passed : List (String × ℕ) → Limiter → ℕ
  passed [] l = 0
  passed ((src, now) ∷ calls) l =
      (if str_eq src ip && (allow src rate now l).0 then 1 else 0)
      + passed calls (allow src rate now l).1

  time_on : (t : ℕ) (calls : List (String × ℕ)) → Ordered t calls → t ≤ last_time t calls
  time_on t [] o = omega arith
  time_on t ((src, now) ∷ calls) o = omega (arith, o.0, time_on now calls o.1)

  passed_lem :
      (t : ℕ) (calls : List (String × ℕ)) (l : Limiter)
      → 1 ≤ rate
      → Ordered t calls
      → Ready l
      → passed calls l * token ≤ credit rate t (held l) + (last_time t calls - t) * rate
  unfolding passed
  passed_lem t [] l p o r = omega arith
  passed_lem t ((src, now) ∷ calls) l p o r =
      add_up (str_eq src ip && (allow src rate now l).0) (passed calls (allow src rate now l).1)
        (credit rate now (held (allow src rate now l).1)) (credit rate now (held l))
        (credit rate t (held l)) ((last_time now calls - now) * rate) ((now - t) * rate)
        ((last_time now calls - t) * rate) (call_lem src now l p r).1
        (passed_lem now calls (allow src rate now l).1 p o.1 (call_lem src now l p r).0)
        (credit_time rate t now (held l) o.0)
        (elapsed t now (last_time now calls) rate o.0 (time_on now calls o.1))

  -- The bound of the limiter: on an empty limiter with a positive rate, of any calls in the order of
  -- time from some instant on, other sources' among them, at most the burst (twice the rate) and the
  -- rate times the elapsed seconds pass of one source.
  pub passed_bound :
      (t : ℕ) (calls : List (String × ℕ))
      → 1 ≤ rate
      → Ordered t calls
      → passed calls (record { buckets = []; dropped = 0; last_sweep = t }) * token
        ≤ rate * rate_burst_mult * token + (last_time t calls - t) * rate
  passed_bound t calls p o =
      passed_lem t calls (record { buckets = []; dropped = 0; last_sweep = t }) p o
        (record { one = omega arith; full = λ b e. absurd (cc e) })
