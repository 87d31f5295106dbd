-- ===== src/Eap/Avp/RoundTrip.antt =====
-- avp.go: `ParseAVPs` reads what `BuildAVP` writes, and ends on every input.
use ligament_2fa.Prelude.{
  ℕ, zero, suc, ◌+◌, ◌<◌, ◌≡◌, refl, ◌∙◌, ◌≢◌, List, [], ◌∷◌, ◌++◌, append-nil, arith, ◌==◌,
  if◌then◌else◌, length, drop, All, slice, length-append, length-drop, take-append, drop-append, ok,
  err,
}
use ligament_2fa.Eap.Avp.{
  InnerPap, empty_pap, build_avp, build_inner_pap, out_of_fuel, store_avp, avp_loop, parse_avps,
  avp_header_len, avp_user_name, avp_user_password,
}
use ligament_2fa.Eap.Bytes.{Bytes, u32, u32-put_u32}

-- An AVP as its code and its value.
abbrev pub Avp : Type 0
Avp = ℕ × Bytes

pub build_avps : List Avp → Bytes
build_avps [] = []
build_avps ((code, value) ∷ rest) = build_avp code value ++ build_avps rest

-- The value of the last AVP of a code, or the default.
pub last_value : ℕ → Bytes → List Avp → Bytes
last_value k d [] = d
last_value k d ((code, value) ∷ rest) = last_value k (if code == k then value else d) rest

-- Code and length fit their 32-bit fields.
abbrev pub Fits : Avp → Type 0
Fits (code, value) = (code < 4294967296) × (avp_header_len + length value < 4294967296)

module _ (code : ℕ) (value tail : Bytes) where
  avp_code : code < 4294967296 → u32 (slice (build_avp code value ++ tail) 0 4) ≡ code
  unfolding build_avp
  avp_code h = u32-put_u32 code [] h

  avp_length :
      avp_header_len + length value < 4294967296
      → u32 (slice (build_avp code value ++ tail) 8 12) ≡ avp_header_len + length value
  unfolding build_avp
  avp_length h = omega arith

  avp_value :
      slice (build_avp code value ++ tail) avp_header_len (avp_header_len + length value) ≡ value
  unfolding build_avp
  avp_value = take-append value tail _ (omega arith)

  avp_tail : drop (avp_header_len + length value) (build_avp code value ++ tail) ≡ tail
  unfolding build_avp
  avp_tail =
      let e : avp_header_len + length value
          ≡ suc (suc (suc (suc (suc (suc (suc (suc (suc (suc (suc (suc (length value)))))))))))) =
        omega arith in
      rw e (drop-append value tail _ refl)

  avp_total : length (build_avp code value ++ tail) ≡ avp_header_len + length value + length tail
  unfolding build_avp
  avp_total = omega (arith, length-append value tail)

  avp_step :
      (fuel : ℕ) (p : InnerPap)
      → code < 4294967296
      → avp_header_len + length value < 4294967296
      → avp_loop (suc fuel) p (build_avp code value ++ tail)
        ≡ avp_loop fuel (store_avp code value p) tail
  unfolding avp_loop
  avp_step fuel p hc hl =
      rw (avp_length hl, avp_code hc, avp_value, avp_tail) (ground (arith, avp_total))

avp_loop-build_avps :
    (avps : List Avp) (fuel : ℕ) (p : InnerPap)
    → length (build_avps avps) < fuel
    → All Fits avps
    → avp_loop fuel p (build_avps avps)
      ≡ ok (record {
        user_name = last_value avp_user_name p.user_name avps;
        user_password = last_value avp_user_password p.user_password avps;
      })
unfolding build_avps last_value
avp_loop-build_avps avps zero p h fits = absurd (omega arith)
avp_loop-build_avps [] (suc fuel) p h fits = unfold avp_loop in refl
avp_loop-build_avps ((code, value) ∷ rest) (suc fuel) p h fits =
    avp_step code value (build_avps rest) fuel p fits.0.0 fits.0.1
    ∙ avp_loop-build_avps rest fuel (store_avp code value p)
        (omega (arith, avp_total code value (build_avps rest))) fits.1
    ∙ (unfold store_avp in ground arith)

-- Parsing any sequence of AVPs whose codes and lengths fit their fields succeeds: unknown codes are
-- skipped, and of each known code the last value is kept.
pub parse_avps-build_avps :
    (avps : List Avp)
    → All Fits avps
    → parse_avps (build_avps avps)
      ≡ ok (record {
        user_name = last_value avp_user_name [] avps;
        user_password = last_value avp_user_password [] avps;
      })
unfolding parse_avps
parse_avps-build_avps avps fits = avp_loop-build_avps avps _ empty_pap (omega arith) fits

-- The credentials that a client packs are the credentials that the server reads, where their AVPs'
-- lengths fit 32 bits.
parse_avps-build_inner_pap :
    (username password : Bytes)
    → avp_header_len + length username < 4294967296
    → avp_header_len + length password < 4294967296
    → parse_avps (build_inner_pap username password)
      ≡ ok (record { user_name = username; user_password = password })
unfolding build_inner_pap
parse_avps-build_inner_pap username password hu hp =
    rw (← append-nil (build_avp avp_user_password password)) (
      unfold build_avps last_value in
      parse_avps-build_avps ((avp_user_name, username) ∷ (avp_user_password, password) ∷ [])
        (omega arith))

avp_loop_total :
    (fuel : ℕ) (p : InnerPap) (b : Bytes) → length b < fuel → avp_loop fuel p b ≢ err out_of_fuel
unfolding avp_loop
avp_loop_total zero p b h = absurd (omega arith)
avp_loop_total (suc fuel) p b h = ground (
  arith,
  avp_loop_total fuel (store_avp (u32 (slice b 0 4)) (slice b 12 (u32 (slice b 8 12))) p)
      (drop (u32 (slice b 8 12)) b),
  length-drop (u32 (slice b 8 12)) b,
)

-- The loop ends by itself on every input: the fuel of the model never runs out.
parse_avps-total : (b : Bytes) → parse_avps b ≢ err out_of_fuel
unfolding parse_avps
parse_avps-total b = avp_loop_total _ empty_pap b (omega arith)
