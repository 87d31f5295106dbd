-- ===== src/Eap/Fragment.antt =====
-- What a receiver does with the packets of one fragmented message: `Parse`, then `ParseTTLS` or
-- `ParsePEAP`, then `Add` or `AddPEAP`, as `handleTTLS` and `handlePEAP`
-- (internal/radiusserver/eapauth.go) begin.
pub mod Chain
pub mod RoundTrip
use ligament_2fa.Prelude.{
  ℕ, zero, suc, ◌+◌, ◌-◌, ◌*◌, ◌/◌, ◌%◌, ◌^◌, ◌≤◌, ◌<◌, min, max, bit_and, bit_or, ◌≡◌, refl, sym,
  ap, ◌∙◌, subst, ◌≢◌, ◌↔◌, ◌⊎◌, inl, inr, Bool, true, false, not, ◌&&◌, ◌||◌, Option, none, some,
  List, [], ◌∷◌, ◌++◌, map, append-nil, append_assoc, arith, ltb, leb, ◌==◌, if◌then◌else◌, ltb→lt,
  lt→ltb, leb→le, ==_iff, tests, Bool-cases, Option-cases, length, get_or, take, drop, All, slice,
  length-append, take-append-drop, length-take, length-drop, take-append, drop-append, take_all,
  drop_all, Result, ok, err, is_ok,
}
use ligament_2fa.Eap.Assembler.{Assembler, AddError, add}
use ligament_2fa.Eap.Bytes.{Bytes}
use ligament_2fa.Eap.Packet.{Packet, parse}
use ligament_2fa.Eap.Peap.{Peap, parse_peap, add_peap}
use ligament_2fa.Eap.Ttls.{Ttls, parse_ttls}

-- The assembler and the payload that a packet completes; `none` is a refused packet.
abbrev pub Heard : Type 0
Heard = Option (Assembler × Option Bytes)

abbrev pub heard : Assembler × Result AddError (Option Bytes) → Heard
heard (a, ok out) = some (a, out)
heard (a, err e) = none

unfoldable pub receive_ttls : Assembler → Bytes → Heard
receive_ttls a raw = elim (parse raw) [
  | err e ↦ none
  | ok p ↦ elim (parse_ttls p.payload) [ err e ↦ none | ok t ↦ heard (add a t) ]
]

unfoldable pub receive_peap : Assembler → Bytes → Heard
receive_peap a raw = elim (parse raw) [
  | err e ↦ none
  | ok p ↦ elim (parse_peap p.payload) [ err e ↦ none | ok t ↦ heard (add_peap a t) ]
]

module _ (a : Assembler) (raw : Bytes) {p : Packet} (parsed : parse raw ≡ ok p) where
  pub receive_ttls_lem :
      {t : Ttls} → parse_ttls p.payload ≡ ok t → receive_ttls a raw ≡ heard (add a t)
  unfolding receive_ttls
  receive_ttls_lem h = ground (arith, parsed)

  pub receive_peap_lem :
      {t : Peap} → parse_peap p.payload ≡ ok t → receive_peap a raw ≡ heard (add_peap a t)
  unfolding receive_peap
  receive_peap_lem h = ground (arith, parsed)

-- What a list of packets completes, in order.
abbrev pub prepend :
    Option Bytes → Option (Assembler × List Bytes) → Option (Assembler × List Bytes)
prepend none r = r
prepend (some full) none = none
prepend (some full) (some (a, out)) = some (a, full ∷ out)

abbrev pub resume :
    Heard → (Assembler → Option (Assembler × List Bytes)) → Option (Assembler × List Bytes)
resume none rest = none
resume (some (a, out)) rest = prepend out (rest a)

unfoldable pub feed {ℓ} :
    {P : Type ℓ} → (Assembler → P → Heard) → Assembler → List P → Option (Assembler × List Bytes)
feed recv a [] = some (a, [])
feed recv a (x ∷ rest) = resume (recv a x) (λ a'. feed recv a' rest)

module _ {ℓ} {P : Type ℓ} (recv : Assembler → P → Heard) where
  pub feed_next :
      (a : Assembler) (x : P) (rest : List P) {a' : Assembler} {out : Option Bytes}
      → recv a x ≡ some (a', out)
      → feed recv a (x ∷ rest) ≡ prepend out (feed recv a' rest)
  unfolding feed
  feed_next a x rest h = rw h

  pub feed_done : (a : Assembler) → feed recv a [] ≡ some (a, [])
  unfolding feed
  feed_done a = refl
