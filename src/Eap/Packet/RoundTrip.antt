-- ===== src/Eap/Packet/RoundTrip.antt =====
-- packet.go: `Build` and `Parse` are inverse to one another.
use ligament_2fa.Prelude.{
  ℕ, ◌+◌, ◌-◌, ◌*◌, ◌<◌, ◌≡◌, [], ◌∷◌, ◌++◌, length, drop, ok, All, arith, refl, take-append,
  length-append, subst, append-nil, take-append-drop, length-take,
}
use ligament_2fa.Eap.Bytes.{Bytes, IsByte}
use ligament_2fa.Eap.Packet.{Packet, parse, build, header_len}

-- Parsing a built packet gives its code, identifier and data back, whatever bytes follow it, when the
-- packet's length fits the 16-bit length field.
pub parse-build :
    (code id : ℕ) (payload tail : Bytes)
    → header_len + length payload < 65536
    → parse (build code id payload ++ tail)
      ≡ ok (record { code = code; id = id; payload = payload })
unfolding parse build
parse-build code id payload tail h =
    ground (arith, length-append payload tail, take-append payload tail (length payload) refl)

pub parse-build_exact :
    (code id : ℕ) (payload : Bytes)
    → header_len + length payload < 65536
    → parse (build code id payload) ≡ ok (record { code = code; id = id; payload = payload })
parse-build_exact code id payload h =
    subst (λ b. parse b ≡ ok (record { code = code; id = id; payload = payload }))
      (append-nil (build code id payload)) (parse-build code id payload [] h)

-- A packet of bytes that `parse` accepts is the built form of the result, followed by the ignored tail.
pub build-parse :
    (b : Bytes) (p : Packet)
    → All IsByte b
    → parse b ≡ ok p
    → (tail : Bytes) × (b ≡ build p.code p.id p.payload ++ tail)
unfolding parse build
build-parse [] p h e = ground arith
build-parse (c ∷ []) p h e = ground arith
build-parse (c ∷ i ∷ []) p h e = ground arith
build-parse (c ∷ i ∷ x ∷ []) p h e = ground arith
build-parse (c ∷ i ∷ x ∷ y ∷ b) p h e = (
  drop (x * 256 + y - 4) b,
  ground (arith, h, take-append-drop (x * 256 + y - 4) b, length-take (x * 256 + y - 4) b),
)
