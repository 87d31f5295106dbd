-- ===== src/Eap/Assembler.antt =====
-- The `Assembler` of internal/radiusserver/eap/ttls.go, which joins incoming fragments.
-- The result `ok none` is the source's (nil, false, nil), `ok (some full)` is (full, true, nil).
pub mod Invariant
use ligament_2fa.Prelude.{
  ℕ, zero, suc, ◌+◌, ◌-◌, ◌*◌, ◌/◌, ◌%◌, ◌^◌, ◌≤◌, ◌<◌, min, max, bit_and, bit_or, ◌≡◌, refl, sym,
  ap, ◌∙◌, subst, ◌≢◌, ◌↔◌, ◌⊎◌, inl, inr, Bool, true, false, not, ◌&&◌, ◌||◌, Option, none, some,
  List, [], ◌∷◌, ◌++◌, map, append-nil, append_assoc, arith, ltb, leb, ◌==◌, if◌then◌else◌, ltb→lt,
  lt→ltb, leb→le, ==_iff, tests, Bool-cases, Option-cases, length, get_or, take, drop, All, slice,
  length-append, take-append-drop, length-take, length-drop, take-append, drop-append, take_all,
  drop_all, Result, ok, err, is_ok,
}
use ligament_2fa.Eap.Bytes.{Bytes}
use ligament_2fa.Eap.Ttls.{Ttls, start, more}

-- `MaxReassembly`.
abbrev pub max_reassembly : ℕ
max_reassembly = 64 * 1024

pub record Assembler : Type 0 where
  pub buf : Bytes
  pub declared : Option ℕ
  pub in_flight : Bool

-- Go's zero value, whose `declared` is 0.
abbrev pub new_assembler : Assembler
new_assembler = record { buf = []; declared = some 0; in_flight = false }

-- The state after a chain, complete or refused.
abbrev pub reset : Assembler
reset = record { buf = []; declared = none; in_flight = false }

pub data AddError : Type 0 where
  declared_too_long : ℕ → AddError
  buffer_overflow : AddError
  length_mismatch : ℕ → ℕ → AddError

-- `declared > n`, where -1 is not.
abbrev exceeds : Option ℕ → ℕ → Bool
exceeds none n = false
exceeds (some d) n = ltb n d

-- `decl >= 0 && len(full) != decl`.
abbrev check_declared : Option ℕ → Bytes → Result AddError (Option Bytes)
check_declared none full = ok (some full)
check_declared (some d) full =
    if length full == d then ok (some full) else err (length_mismatch (length full) d)

abbrev declared_or_zero : Option ℕ → ℕ
declared_or_zero none = 0
declared_or_zero (some d) = d

-- From `a.buf = append(a.buf, t.Payload...)` to the end of `Add`, for a chain in flight.
append_fragment : Bytes → Option ℕ → Ttls → Assembler × Result AddError (Option Bytes)
append_fragment buf declared t =
    let full = buf ++ t.payload in
    if ltb max_reassembly (length full)
    then (reset, err buffer_overflow)
    else if more t
    then (record { buf = full; declared = declared; in_flight = true }, ok none)
    else (reset, check_declared declared full)

-- `(*Assembler).Add`.
unfoldable pub add : Assembler → Ttls → Assembler × Result AddError (Option Bytes)
unfolding append_fragment
add a t =
    if exceeds t.declared_len max_reassembly
    then (a, err (declared_too_long (declared_or_zero t.declared_len)))
    else if start t
    then append_fragment [] t.declared_len t
    else if a.in_flight
    then append_fragment a.buf a.declared t
    else if length t.payload == 0
    then (a, ok none)
    else append_fragment a.buf t.declared_len t
