-- ===== src/License/Manager/OverLimit.antt =====
-- internal/license/state.go, `OverLimit`: the thirty days over repeated calls.
use ligament_2fa.Prelude.{ℕ, ◌+◌, ◌*◌, ◌/◌, ◌≡◌, true, false, List, [], ◌∷◌, arith, leb, ok}
use ligament_2fa.License.Manager.{
  Table, missing, broken, at, over_limit, over_limit_grace, load_time_tolerant, save_time, second,
}

-- The table after calls at these instants.
unfoldable pub over_limits : List ℕ → Table → Table
over_limits [] t = t
over_limits (now ∷ rest) t = over_limits rest (over_limit now t).1

later_calls :
    (calls : List ℕ) (s : ℕ) (t : Table)
    → t.faults ≡ []
    → t.over_limit_since ≡ at s
    → ((over_limits calls t).faults ≡ []) × ((over_limits calls t).over_limit_since ≡ at s)
unfolding over_limits over_limit load_time_tolerant
later_calls [] s t f e = (f, e)
later_calls (now ∷ rest) s t f e =
    later_calls rest s (over_limit now t).1 (ground (arith, f, e)) (ground (arith, f, e))

decision_at :
    (now s : ℕ) (t : Table)
    → t.faults ≡ []
    → t.over_limit_since ≡ at s
    → (over_limit now t).0
      ≡ ok (record { allowed = leb now (s + over_limit_grace); since = s; first = false })
unfolding over_limit load_time_tolerant
decision_at now s t f e = ground (arith, f, e)

-- The grace is one window of thirty days from the first call over the limit. With no fault of the
-- database and nothing stored before it, that call is allowed and stores its second; after any number
-- of further OverLimit calls, and of no other calls of the manager, one more answers with that second, and
-- is allowed just up to thirty days after it. ClearOverLimit, which forgets the second, does not come
-- between.
pub over_limit_window :
    (began : ℕ) (calls : List ℕ) (now : ℕ) (t : Table)
    → t.faults ≡ []
    → t.over_limit_since ≡ missing
    → ((over_limit began t).0
        ≡ ok (record { allowed = true; since = began / second * second; first = true }))
      × ((over_limit now (over_limits calls (over_limit began t).1)).0
          ≡ ok (record {
            allowed = leb now (began / second * second + over_limit_grace);
            since = began / second * second;
            first = false;
          }))
unfolding over_limit load_time_tolerant save_time
over_limit_window began calls now t f e =
    (ground (arith, f, e), decision_at now (began / second * second) _ after.0 after.1)
  where
    after :
        ((over_limits calls (over_limit began t).1).faults ≡ [])
        × ((over_limits calls (over_limit began t).1).over_limit_since
            ≡ at (began / second * second))
    after =
        later_calls calls (began / second * second) (over_limit began t).1 (ground (arith, f, e))
          (ground (arith, f, e))

broken_stays :
    (calls : List ℕ) (t : Table)
    → t.faults ≡ []
    → t.over_limit_since ≡ broken
    → ((over_limits calls t).faults ≡ []) × ((over_limits calls t).over_limit_since ≡ broken)
unfolding over_limits over_limit load_time_tolerant save_time
broken_stays [] t f e = (f, e)
broken_stays (now ∷ rest) t f e =
    broken_stays rest (over_limit now t).1 (ground (arith, f, e)) (ground (arith, f, e))

-- A stored value that is no time never ends the grace. With no fault of the database, after any
-- calls a further one is allowed, as if it were the first.
pub over_limit_broken :
    (calls : List ℕ) (now : ℕ) (t : Table)
    → t.faults ≡ []
    → t.over_limit_since ≡ broken
    → (over_limit now (over_limits calls t)).0
      ≡ ok (record { allowed = true; since = now; first = true })
unfolding over_limit load_time_tolerant save_time
over_limit_broken calls now t f e = ground (arith, broken_stays calls t f e)
