-- ===== src/Eap/Avp.antt =====
-- internal/radiusserver/eap/avp.go: the AVPs of TTLS phase 2 that carry the inner PAP credentials.
pub mod RoundTrip
use ligament_2fa.Prelude.{
  ℕ, zero, suc, ◌+◌, ◌-◌, ◌*◌, ◌/◌, ◌%◌, ◌^◌, ◌≤◌, ◌<◌, min, max, bit_and, bit_or, ◌≡◌, refl, sym,
  ap, ◌∙◌, subst, ◌≢◌, ◌↔◌, ◌⊎◌, inl, inr, Bool, true, false, not, ◌&&◌, ◌||◌, Option, none, some,
  List, [], ◌∷◌, ◌++◌, map, append-nil, append_assoc, arith, ltb, leb, ◌==◌, if◌then◌else◌, ltb→lt,
  lt→ltb, leb→le, ==_iff, tests, Bool-cases, Option-cases, length, get_or, take, drop, All, slice,
  length-append, take-append-drop, length-take, length-drop, take-append, drop-append, take_all,
  drop_all, Result, ok, err, is_ok,
}
use ligament_2fa.Eap.Bytes.{Bytes, nth, put_u32, u32}

abbrev pub avp_user_name : ℕ
avp_user_name = 1

abbrev pub avp_user_password : ℕ
avp_user_password = 2

abbrev pub avp_header_len : ℕ
avp_header_len = 12

abbrev pub avp_flag_mandatory : ℕ
avp_flag_mandatory = 0x40

pub record InnerPap : Type 0 where
  pub user_name : Bytes
  pub user_password : Bytes

abbrev pub empty_pap : InnerPap
empty_pap = record { user_name = []; user_password = [] }

abbrev is_empty : Bytes → Bool
is_empty [] = true
is_empty (_ ∷ _) = false

-- `(*InnerPAP).Complete`.
unfoldable pub complete : InnerPap → Bool
complete p = not (is_empty p.user_name) && not (is_empty p.user_password)

unfoldable pub build_avp : ℕ → Bytes → Bytes
build_avp code value =
    put_u32 code
    ++ (put_u32 avp_flag_mandatory
        ++ (put_u32 ((avp_header_len + length value) % 4294967296) ++ value))

unfoldable pub build_inner_pap : Bytes → Bytes → Bytes
build_inner_pap username password =
    build_avp avp_user_name username ++ build_avp avp_user_password password

-- `out_of_fuel` is no error of the source: `parse_avps-total` shows that it does not occur.
pub data AvpError : Type 0 where
  header_truncated : AvpError
  bad_avp_length : ℕ → ℕ → AvpError
  out_of_fuel : AvpError

-- The `switch code` of the loop.
unfoldable pub store_avp : ℕ → Bytes → InnerPap → InnerPap
store_avp code value p =
    if code == avp_user_name
    then record p { user_name = value }
    else if code == avp_user_password
    then record p { user_password = value }
    else p

-- `for len(b) > 0`; every round takes at least the header off.
unfoldable pub avp_loop : ℕ → InnerPap → Bytes → Result AvpError InnerPap
avp_loop zero p b = err out_of_fuel
avp_loop (suc fuel) p b =
    let len = u32 (slice b 8 12) in
    let rest =
      avp_loop fuel (store_avp (u32 (slice b 0 4)) (slice b avp_header_len len) p) (drop len b) in
    if length b == 0
    then ok p
    else if ltb (length b) avp_header_len
    then err header_truncated
    else if ltb len avp_header_len || ltb (length b) len
    then err (bad_avp_length len (length b))
    else rest

unfoldable pub parse_avps : Bytes → Result AvpError InnerPap
parse_avps b = avp_loop (suc (length b)) empty_pap b
