-- ===== src/RateLimit/Lists.antt =====
-- internal/radiusserver/ratelimit.go: the map of buckets as a list with one bucket a source.
use ligament_2fa.Prelude.{
  ◌≤◌, ◌≡◌, refl, Bool, true, false, not, Option, none, some, List, [], ◌∷◌, arith, if◌then◌else◌,
  count_where, select, find, String, str_eq,
}
use ligament_2fa.RateLimit.{Bucket, is_of}
use text.Mathlib.TextEquality.{eq_iff}

-- Lists with at most one bucket of the source.
pub none_left :
    (ip : String) (keep : Bucket → Bool) (bs : List Bucket)
    → count_where (is_of ip) bs ≡ 0
    → find (is_of ip) (select keep bs) ≡ none
none_left ip keep [] h = refl
none_left ip keep (b ∷ bs) h = ground (arith, h, none_left ip keep bs)

abbrev pub gate : (Bucket → Bool) → Option Bucket → Option Bucket
gate keep none = none
gate keep (some b) = if keep b then some b else none

pub none_there :
    (ip : String) (bs : List Bucket) → count_where (is_of ip) bs ≡ 0 → find (is_of ip) bs ≡ none
none_there ip [] h = refl
none_there ip (b ∷ bs) h = ground (arith, h, none_there ip bs)

pub find-select :
    (ip : String) (keep : Bucket → Bool) (bs : List Bucket)
    → count_where (is_of ip) bs ≤ 1
    → find (is_of ip) (select keep bs) ≡ gate keep (find (is_of ip) bs)
find-select ip keep [] h = refl
find-select ip keep (b ∷ bs) h =
    ground (arith, h, find-select ip keep bs, none_left ip keep bs, none_there ip bs)

pub count-select :
    (ip : String) (keep : Bucket → Bool) (bs : List Bucket)
    → count_where (is_of ip) (select keep bs) ≤ count_where (is_of ip) bs
count-select ip keep [] = omega arith
count-select ip keep (b ∷ bs) = ground (arith, count-select ip keep bs)

pub none_of :
    (ip : String) (bs : List Bucket)
    → count_where (is_of ip) (select (λ c. not (is_of ip c)) bs) ≡ 0
none_of ip [] = refl
none_of ip (b ∷ bs) = ground (arith, none_of ip bs)

pub is_of_path : (ip : String) (b : Bucket) → is_of ip b ≡ true → b.ip ≡ ip
is_of_path ip b h = (eq_iff b.ip ip).0 h

pub self : (ip : String) → str_eq ip ip ≡ true
self ip = (eq_iff ip ip).1 refl

-- Another source's bucket changes nothing.
pub find-others :
    (ip other : String) (bs : List Bucket)
    → str_eq other ip ≡ false
    → find (is_of ip) (select (λ c. not (is_of other c)) bs) ≡ find (is_of ip) bs
find-others ip other [] h = refl
find-others ip other (b ∷ bs) h =
    ground (arith, h, is_of_path ip b, is_of_path other b, find-others ip other bs h)

pub found_name :
    (ip : String) (bs : List Bucket) (b : Bucket) → find (is_of ip) bs ≡ some b → b.ip ≡ ip
found_name ip [] b h = absurd (cc h)
found_name ip (c ∷ bs) b h = ground (arith, h, is_of_path ip c, found_name ip bs b)
